-- ===== src/Shell/Defects.antt =====
-- `tokenize_command` of 2/parser.c at a tab, at quotes side by side and at a comment that ends the input.
use sysprog_exercises.Prelude.{
  ℕ, zero, suc, ◌<◌, ◌≡◌, ◌⊎◌, inl, inr, refl, ap, Bool, true, false, List, [], ◌∷◌, ◌++◌, length,
}
use sysprog_exercises.Shell.Run.{crash, out_of_fuel}
use sysprog_exercises.Shell.Stdin.{next_char}
use sysprog_exercises.Shell.Builder.{StringBuilder, string_builder_append, append_all, to_string}
use sysprog_exercises.Shell.Token.{init_token}
use sysprog_exercises.Shell.Tokenizer.{
  skip_spaces, skip_comment, single_part, double_part, word_rest, word_loop, token_round,
  tokens_loop, tokenize_command,
}
use sysprog_exercises.Shell.Grammar.{Lacks}
use sysprog_exercises.Shell.Words.{input, start, single_lem}

skip_comment-Lacks :
    (k : ℕ) (cs : List ℕ) (ended : Bool)
    → Lacks b'\n' cs
    → skip_comment k (record { bytes = cs; at_end = ended }) ≡ out_of_fuel
unfolding skip_comment next_char
skip_comment-Lacks zero cs ended l = refl
skip_comment-Lacks (suc k) [] ended l = skip_comment-Lacks k [] true tt
skip_comment-Lacks (suc k) (c ∷ cs) ended (ne, l) =
    rw (ne, skip_comment) (skip_comment-Lacks k cs ended l)

-- On a comment without a newline behind it `tokenize_command` never returns, with no fuel.
pub tokenize_command-comment :
    (k : ℕ) (cs : List ℕ) → Lacks b'\n' cs → tokenize_command k (input (b'#' ∷ cs)) ≡ out_of_fuel
unfolding tokenize_command tokens_loop skip_spaces next_char token_round
tokenize_command-comment zero cs l = refl
tokenize_command-comment (suc zero) cs l = refl
tokenize_command-comment (suc (suc k)) cs l = rw (skip_comment-Lacks (suc k) cs false l) refl

-- On a tab or a carriage return in front of a word, `tokenize_command` follows `NULL`.
pub tokenize_command-tab :
    (k c : ℕ) (cs : List ℕ)
    → (c ≡ b'\t') ⊎ (c ≡ b'\r')
    → tokenize_command (suc (suc k)) (input (c ∷ cs)) ≡ crash
unfolding tokenize_command tokens_loop skip_spaces next_char token_round word_loop single_part
    double_part word_rest init_token to_string
tokenize_command-tab k c cs (inl e) = ap (λ x. tokenize_command (suc (suc k)) (input (x ∷ cs))) e
tokenize_command-tab k c cs (inr e) = ap (λ x. tokenize_command (suc (suc k)) (input (x ∷ cs))) e

-- Behind a text in single quotes a further single quote is read as a character of the word, and the text
-- behind it as outside of quotes.
pub word_loop-quotes :
    (k : ℕ) (qs rest : List ℕ) (b : StringBuilder)
    → Lacks 39 qs
    → length qs < k
    → word_loop (suc k) (start (39 ∷ qs ++ (39 ∷ 39 ∷ rest)) b)
      ≡ word_loop k (start rest (string_builder_append (append_all b qs) 39))
unfolding double_part word_rest next_char
word_loop-quotes k qs rest b l h = single_lem k qs (39 ∷ rest) b l h
