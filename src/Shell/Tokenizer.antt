-- ===== src/Shell/Tokenizer.antt =====
-- `tokenize_command` of 2/parser.c.
--
-- The loops run on fuel. Each round of a loop reads a byte; at the end of the input a loop that waits
-- for another byte than `EOF` never ends.
use sysprog_exercises.Prelude.{ℕ, zero, suc, Bool, true, false, ◌||◌, if◌then◌else◌, ◌==◌}
use sysprog_exercises.Shell.Run.{Run, ok, out_of_fuel, ◌>>=◌}
use sysprog_exercises.Shell.Stdin.{Stdin, eof, next_char, unget}
use sysprog_exercises.Shell.Builder.{StringBuilder, string_builder_init, string_builder_append}
use sysprog_exercises.Shell.Utils.{GrowingList, list_init, list_add, list_trim}
use sysprog_exercises.Shell.Token.{
  Token, TokenType, word, background_execution, pipeline, logical_operator_and, logical_operator_or,
  output_redirection_write, output_redirection_append, init_token,
}

abbrev pub is_word_end : ℕ → Bool
is_word_end c =
    c == b'&'
    || (c == b'|'
        || (c == b'>' || (c == b' ' || (c == b'\t' || (c == b'\r' || (c == b'\n' || c == eof))))))

-- `for (c = next_char(); c == ' '; c = next_char());`
unfoldable pub skip_spaces : ℕ → Stdin → Run (ℕ × Stdin)
skip_spaces zero s = out_of_fuel
skip_spaces (suc k) s =
    let r = next_char s in elim (r.0 == b' ') [ true ↦ skip_spaces k r.1 | false ↦ ok r ]

-- `for (c = next_char(); c != '\n'; c = next_char());`
unfoldable pub skip_comment : ℕ → Stdin → Run Stdin
skip_comment zero s = out_of_fuel
skip_comment (suc k) s =
    let r = next_char s in elim (r.0 == b'\n') [ true ↦ ok r.1 | false ↦ skip_comment k r.1 ]

-- The loop between single quotes.
unfoldable pub single_quoted : ℕ → Stdin → StringBuilder → Run (StringBuilder × Stdin)
unfolding string_builder_append
single_quoted zero s b = out_of_fuel
single_quoted (suc k) s b =
    let r = next_char s in
    elim (r.0 == 39) [
      | true ↦ ok (b, r.1)
      | false ↦ single_quoted k r.1 (string_builder_append b r.0)
    ]

-- What a backslash between double quotes and the character behind it append.
unfoldable pub quoted_escape : StringBuilder → ℕ → StringBuilder
quoted_escape b c =
    if c == 34 || c == 92
    then string_builder_append b c
    else (if c == b'\n' then b else string_builder_append (string_builder_append b 92) c)

-- The loop between double quotes.
unfoldable pub double_quoted : ℕ → Stdin → StringBuilder → Run (StringBuilder × Stdin)
unfolding quoted_escape
double_quoted zero s b = out_of_fuel
double_quoted (suc k) s b =
    let r = next_char s in
    elim (r.0 == 34) [
      | true ↦ ok (b, r.1)
      | false ↦ elim (r.0 == 92) [
        | true ↦ let q = next_char r.1 in double_quoted k q.1 (quoted_escape b q.0)
        | false ↦ double_quoted k r.1 (string_builder_append b r.0)
      ]
    ]

-- The character in hand, the input and the word so far.
pub record WordState : Type 0 where
  pub char : ℕ
  pub input : Stdin
  pub chars : StringBuilder

abbrev pub after_quote : StringBuilder × Stdin → Run WordState
after_quote (b, s) = let r = next_char s in ok (record { char = r.0; input = r.1; chars = b })

-- `if (c == '\'')` and `if (c == '"')`
unfoldable pub single_part : ℕ → WordState → Run WordState
single_part k w = if w.char == 39 then (single_quoted k w.input w.chars >>= after_quote) else ok w

unfoldable pub double_part : ℕ → WordState → Run WordState
double_part k w = if w.char == 34 then (double_quoted k w.input w.chars >>= after_quote) else ok w

-- The word without its end, or the next round.
pub data WordStep : Type 0 where
  word_done : StringBuilder → Stdin → WordStep
  word_more : WordState → WordStep

-- A round behind the quotes.
unfoldable pub word_rest : WordState → WordStep
word_rest w =
    if is_word_end w.char
    then word_done w.chars (unget w.char w.input)
    else (let r = next_char w.input in
        if w.char == 92
        then (if r.0 == b'\n'
            then (let q = next_char r.1 in word_more (record w { char = q.0; input = q.1 }))
            else (let q = next_char r.1 in
                word_more
                  (record { char = q.0; input = q.1; chars = string_builder_append w.chars r.0 })))
        else word_more
            (record { char = r.0; input = r.1; chars = string_builder_append w.chars w.char }))

-- The loop over a word.
unfoldable pub word_loop : ℕ → WordState → Run (StringBuilder × Stdin)
unfolding single_part double_part word_rest
word_loop zero w = out_of_fuel
word_loop (suc k) w = do
  u ← single_part k w
  v ← double_part k u
  elim (word_rest v) [ word_done b s ↦ ok (b, s) | word_more x ↦ word_loop k x ]

-- A round of the outer loop goes on, or the command ends.
pub data Round : Type 0 where
  go_on : Stdin → GrowingList Token → Round
  command_end : Stdin → GrowingList Token → Round

abbrev pub one_char : ℕ → StringBuilder
one_char c = string_builder_append string_builder_init c

abbrev pub add_token : GrowingList Token → StringBuilder → TokenType → Run (GrowingList Token)
add_token tokens chars type = do t ← init_token chars type; ok (list_add tokens t)

-- An operator of one character or of that character twice.
unfoldable pub operator_round :
    Stdin
    → GrowingList Token
    → ℕ
    → TokenType
    → (Stdin → GrowingList Token → Round)
    → TokenType
    → Run Round
operator_round s tokens c single after_single double =
    let r = next_char s in
    if r.0 == c
    then (do
      more ← add_token tokens (string_builder_append (one_char c) r.0) double
      ok (go_on r.1 more))
    else (do more ← add_token tokens (one_char c) single; ok (after_single (unget r.0 r.1) more))

-- The body of the outer loop for the character `c`, which is no space and not `EOF`.
unfoldable pub token_round : ℕ → ℕ → Stdin → GrowingList Token → Run Round
unfolding operator_round
token_round k c s tokens =
    if c == b'&'
    then operator_round s tokens c background_execution command_end logical_operator_and
    else (if c == b'|'
        then operator_round s tokens c pipeline go_on logical_operator_or
        else (if c == b'>'
            then operator_round s tokens c output_redirection_write go_on output_redirection_append
            else (if c == b'#'
                then (do t ← skip_comment k s; ok (command_end t tokens))
                else (if c == b'\n' then ok (command_end s tokens) else (do
                  (chars, t) ←
                      word_loop k (record { char = c; input = s; chars = string_builder_init })
                  more ← add_token tokens chars word
                  ok (go_on t more))))))

-- The outer loop: the tokens as they are at the end of the input, trimmed at the end of a command.
unfoldable pub tokens_loop : ℕ → Stdin → GrowingList Token → Run (GrowingList Token × Stdin)
unfolding token_round
tokens_loop zero s tokens = out_of_fuel
tokens_loop (suc k) s tokens = do
  (c, t) ← skip_spaces k s
  elim (c == eof) [
    | true ↦ ok (tokens, t)
    | false ↦ token_round k c t tokens >>= (λ r. elim r [
      | go_on u more ↦ tokens_loop k u more
      | command_end u more ↦ ok (list_trim more, u)
    ])
  ]

unfoldable pub tokenize_command : ℕ → Stdin → Run (GrowingList Token × Stdin)
unfolding tokens_loop
tokenize_command k s = tokens_loop k s list_init
