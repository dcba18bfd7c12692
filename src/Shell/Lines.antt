-- ===== src/Shell/Lines.antt =====
-- `tokenize_command` of 2/parser.c against the relation `Line`.
use sysprog_exercises.Prelude.{
  ℕ, zero, suc, ◌≤◌, ◌<◌, ◌≡◌, refl, ap, ◌∙◌, List, [], ◌∷◌, ◌++◌, arith, length, length-append,
}
use sysprog_exercises.Shell.Run.{ok, ◌>>=◌}
use sysprog_exercises.Shell.Stdin.{next_char}
use sysprog_exercises.Shell.Utils.{GrowingList, list_init, list_add, list_trim, add_all}
use sysprog_exercises.Shell.Token.{
  Token, word, background_execution, pipeline, logical_operator_and, logical_operator_or,
  output_redirection_write, output_redirection_append,
}
use sysprog_exercises.Shell.Tokenizer.{
  skip_spaces, go_on, command_end, token_round, tokens_loop, tokenize_command,
}
use sysprog_exercises.Shell.Grammar.{
  StartsWord, single, double, Line, newline, comment, background, space, both, either, append, pipe,
  write, a_word,
}
use sysprog_exercises.Shell.Words.{input}
use sysprog_exercises.Shell.Rounds.{
  skip_comment_lem, after_round, round_from, round_at, single_round, double_round, word_round,
}

Line-pos : {text rest : List ℕ} {ts : List Token} → Line text ts rest → 0 < length text
Line-pos newline = omega arith
Line-pos (comment cs l) = omega arith
Line-pos (background l) = omega arith
Line-pos (space l) = omega arith
Line-pos (both l) = omega arith
Line-pos (either l) = omega arith
Line-pos (append l) = omega arith
Line-pos (pipe x l) = omega arith
Line-pos (write x l) = omega arith
Line-pos (a_word {cs} {vs} {text} w s ne z e l) = omega (arith, length-append cs text, Line-pos l)

-- The outer loop with fuel `j` for the spaces in front and `k` for the rest reads the tokens.
abbrev Reads : List ℕ → List Token → List ℕ → GrowingList Token → ℕ → ℕ → Type 0
Reads text ts rest g j k =
    round_from j (suc k) (input text) g ≡ ok (list_trim (add_all g ts), input rest)

next_round :
    {text rest : List ℕ} {ts : List Token} (k : ℕ) (g : GrowingList Token)
    → Line text ts rest
    → length text ≤ k
    → ((m : ℕ) → length text ≤ suc m → Reads text ts rest g (suc m) m)
    → tokens_loop (suc k) (input text) g ≡ ok (list_trim (add_all g ts), input rest)
unfolding tokens_loop
next_round {text} {rest} {ts} zero g l le f = absurd (omega (arith, Line-pos l))
next_round {text} {rest} {ts} (suc m) g l le f = f m le

space_round :
    {text rest : List ℕ} {ts : List Token} (j k : ℕ) (g : GrowingList Token)
    → Line text ts rest
    → length text ≤ j
    → ((m : ℕ) → length text ≤ suc m → Reads text ts rest g (suc m) k)
    → Reads (b' ' ∷ text) ts rest g (suc j) k
unfolding skip_spaces next_char
space_round zero k g l le f = absurd (omega (arith, Line-pos l))
space_round (suc m) k g l le f = f m le

round_from_lem :
    {text rest : List ℕ} {ts : List Token} (j k : ℕ) (g : GrowingList Token)
    → Line text ts rest
    → length text ≤ suc j
    → length text ≤ suc k
    → Reads text ts rest g (suc j) k
unfolding token_round add_all
round_from_lem j k g (newline {rest}) h i = round_at j (suc k) b'\n' rest g refl refl
round_from_lem j k g (comment {rest} cs l) h i =
    round_at j (suc k) b'#' (cs ++ (b'\n' ∷ rest)) g refl refl
    ∙ ap (λ r. after_round (suc k) (r >>= (λ t. ok (command_end t g))))
        (skip_comment_lem (suc k) cs rest l (omega (arith, length-append cs (b'\n' ∷ rest))))
round_from_lem j k g (background {rest} l) h i =
    round_at j (suc k) b'&' rest g refl refl
    ∙ ap (after_round (suc k))
        (single_round rest g b'&' background_execution logical_operator_and command_end refl l)
round_from_lem j k g (space {text} {rest} {ts} l) h i =
    space_round j k g l (omega arith) (λ m le. round_from_lem m k g l le (omega arith))
round_from_lem j k g (both {text} {rest} {ts} l) h i =
    let more = list_add g (double b'&' logical_operator_and) in
    round_at j (suc k) b'&' (b'&' ∷ text) g refl refl
    ∙ ap (after_round (suc k))
        (double_round text g b'&' background_execution logical_operator_and command_end refl)
    ∙ next_round k more l (omega arith) (λ m le. round_from_lem m m more l le le)
round_from_lem j k g (either {text} {rest} {ts} l) h i =
    let more = list_add g (double b'|' logical_operator_or) in
    round_at j (suc k) b'|' (b'|' ∷ text) g refl refl
    ∙ ap (after_round (suc k)) (double_round text g b'|' pipeline logical_operator_or go_on refl)
    ∙ next_round k more l (omega arith) (λ m le. round_from_lem m m more l le le)
round_from_lem j k g (append {text} {rest} {ts} l) h i =
    let more = list_add g (double b'>' output_redirection_append) in
    round_at j (suc k) b'>' (b'>' ∷ text) g refl refl
    ∙ ap (after_round (suc k))
        (double_round text g b'>' output_redirection_write output_redirection_append go_on refl)
    ∙ next_round k more l (omega arith) (λ m le. round_from_lem m m more l le le)
round_from_lem j k g (pipe {text} {rest} {ts} x l) h i =
    let more = list_add g (single b'|' pipeline) in
    round_at j (suc k) b'|' text g refl refl
    ∙ ap (after_round (suc k)) (single_round text g b'|' pipeline logical_operator_or go_on refl x)
    ∙ next_round k more l (omega arith) (λ m le. round_from_lem m m more l le le)
round_from_lem j k g (write {text} {rest} {ts} x l) h i =
    let more = list_add g (single b'>' output_redirection_write) in
    round_at j (suc k) b'>' text g refl refl
    ∙ ap (after_round (suc k))
        (single_round text g b'>' output_redirection_write output_redirection_append go_on refl x)
    ∙ next_round k more l (omega arith) (λ m le. round_from_lem m m more l le le)
round_from_lem j k g (a_word {cs} {vs} {text} {rest} {ts} w s ne z e l) h i =
    let more = list_add g (record { value = vs; type = word }) in
    word_round k cs vs text g w s ne z e i j
    ∙ next_round k more l (omega (arith, length-append cs text, StartsWord-pos cs s))
        (λ m le. round_from_lem m m more l le le)
  where
    StartsWord-pos : (cs : List ℕ) → StartsWord cs → 0 < length cs
    StartsWord-pos [] s = absurd s
    StartsWord-pos (c ∷ cs) s = omega arith

-- With more fuel than characters, `tokenize_command` reads every command of the grammar: it returns the
-- command's tokens, in a list that is trimmed, and leaves the text behind the command.
pub tokenize_command-Line :
    {text rest : List ℕ} {ts : List Token} (k : ℕ)
    → Line text ts rest
    → length text < k
    → tokenize_command k (input text) ≡ ok (list_trim (add_all list_init ts), input rest)
unfolding tokenize_command
tokenize_command-Line zero l h = absurd (omega arith)
tokenize_command-Line (suc k) l h =
    next_round k list_init l (omega arith) (λ m le. round_from_lem m m list_init l le le)
