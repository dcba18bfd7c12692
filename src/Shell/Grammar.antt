-- ===== src/Shell/Grammar.antt =====
-- The words and lines that 2/parser.c is meant to read, as relations between a text and what it means.
use sysprog_exercises.Prelude.{ℕ, ◌≡◌, ◌≢◌, Bool, true, false, not, ◌||◌, List, [], ◌∷◌, ◌++◌, ◌==◌}
use sysprog_exercises.Shell.Stdin.{eof}
use sysprog_exercises.Shell.Tokenizer.{is_word_end}
use sysprog_exercises.Shell.Token.{
  Token, TokenType, word, background_execution, pipeline, logical_operator_and, logical_operator_or,
  output_redirection_write, output_redirection_append,
}

-- A character that stands for itself in a word.
abbrev pub is_plain : ℕ → Bool
is_plain c = not (is_word_end c || (c == 39 || (c == 34 || c == 92)))

-- No character of the text is `c`.
abbrev pub Lacks : ℕ → List ℕ → Type 0
Lacks c [] = Unit {0}
Lacks c (x ∷ xs) = ((x == c) ≡ false) × Lacks c xs

-- The text between double quotes, and the characters that it means.
pub data Quoted : List ℕ → List ℕ → Type 0 where
  none_left : Quoted [] []
  itself :
      {cs vs : List ℕ} (c : ℕ)
      → (c == 34 || c == 92) ≡ false
      → Quoted cs vs
      → Quoted (c ∷ cs) (c ∷ vs)
  escape :
      {cs vs : List ℕ} (c : ℕ)
      → (c == 34 || c == 92) ≡ true
      → Quoted cs vs
      → Quoted (92 ∷ c ∷ cs) (c ∷ vs)
  backslash :
      {cs vs : List ℕ} (c : ℕ)
      → (c == 34 || c == 92) ≡ false
      → (c == b'\n') ≡ false
      → Quoted cs vs
      → Quoted (92 ∷ c ∷ cs) (92 ∷ c ∷ vs)
  line_join : {cs vs : List ℕ} → Quoted cs vs → Quoted (92 ∷ b'\n' ∷ cs) vs

-- Where in a word the text goes on: a quote is read as one at the start and behind characters without
-- quotes, a double quote also behind a single one.
pub data Place : Type 0 where
  anywhere behind_single behind_double : Place

abbrev pub double_allowed : Place → Bool
double_allowed behind_double = false
double_allowed place = true

-- The rest of a word from a place on, and the characters that it means.
pub data Word : Place → List ℕ → List ℕ → Type 0 where
  word_end : {p : Place} → Word p [] []
  plain :
      {p : Place} {cs vs : List ℕ} (c : ℕ)
      → is_plain c ≡ true
      → Word anywhere cs vs
      → Word p (c ∷ cs) (c ∷ vs)
  escaped :
      {p : Place} {cs vs : List ℕ} (c : ℕ)
      → (c == b'\n') ≡ false
      → Word anywhere cs vs
      → Word p (92 ∷ c ∷ cs) (c ∷ vs)
  joined : {p : Place} {cs vs : List ℕ} → Word anywhere cs vs → Word p (92 ∷ b'\n' ∷ cs) vs
  in_single :
      {cs vs : List ℕ} (qs : List ℕ)
      → Lacks 39 qs
      → Word behind_single cs vs
      → Word anywhere (39 ∷ qs ++ (39 ∷ cs)) (qs ++ vs)
  in_double :
      {p : Place} {cs vs qs ms : List ℕ}
      → double_allowed p ≡ true
      → Quoted qs ms
      → Word behind_double cs vs
      → Word p (34 ∷ qs ++ (34 ∷ cs)) (ms ++ vs)

-- A text that begins a word, one that ends it, and one that does not go on with a character.
abbrev pub StartsWord : List ℕ → Type 0
StartsWord [] = ⊥
StartsWord (c ∷ cs) = (is_word_end c ≡ false) × ((c == b'#') ≡ false)

abbrev pub EndsWord : List ℕ → Type 0
EndsWord [] = ⊥
EndsWord (c ∷ cs) = (is_word_end c ≡ true) × ((c == eof) ≡ false)

abbrev pub GoesOnWithout : ℕ → List ℕ → Type 0
GoesOnWithout x [] = ⊥
GoesOnWithout x (c ∷ cs) = ((c == x) ≡ false) × ((c == eof) ≡ false)

-- The tokens of an operator of one character, and of it twice.
abbrev pub single : ℕ → TokenType → Token
single c t = record { value = c ∷ []; type = t }

abbrev pub double : ℕ → TokenType → Token
double c t = record { value = c ∷ c ∷ []; type = t }

-- The command at the start of a text: its tokens, and the text behind it.
pub data Line : List ℕ → List Token → List ℕ → Type 0 where
  newline : {rest : List ℕ} → Line (b'\n' ∷ rest) [] rest
  comment :
      {rest : List ℕ} (cs : List ℕ) → Lacks b'\n' cs → Line (b'#' ∷ cs ++ (b'\n' ∷ rest)) [] rest
  background :
      {rest : List ℕ}
      → GoesOnWithout b'&' rest
      → Line (b'&' ∷ rest) (single b'&' background_execution ∷ []) rest
  space : {text rest : List ℕ} {ts : List Token} → Line text ts rest → Line (b' ' ∷ text) ts rest
  both :
      {text rest : List ℕ} {ts : List Token}
      → Line text ts rest
      → Line (b'&' ∷ b'&' ∷ text) (double b'&' logical_operator_and ∷ ts) rest
  either :
      {text rest : List ℕ} {ts : List Token}
      → Line text ts rest
      → Line (b'|' ∷ b'|' ∷ text) (double b'|' logical_operator_or ∷ ts) rest
  append :
      {text rest : List ℕ} {ts : List Token}
      → Line text ts rest
      → Line (b'>' ∷ b'>' ∷ text) (double b'>' output_redirection_append ∷ ts) rest
  pipe :
      {text rest : List ℕ} {ts : List Token}
      → GoesOnWithout b'|' text
      → Line text ts rest
      → Line (b'|' ∷ text) (single b'|' pipeline ∷ ts) rest
  write :
      {text rest : List ℕ} {ts : List Token}
      → GoesOnWithout b'>' text
      → Line text ts rest
      → Line (b'>' ∷ text) (single b'>' output_redirection_write ∷ ts) rest
  a_word :
      {cs vs text rest : List ℕ} {ts : List Token}
      → Word anywhere cs vs
      → StartsWord cs
      → vs ≢ []
      → Lacks 0 vs
      → EndsWord text
      → Line text ts rest
      → Line (cs ++ text) (record { value = vs; type = word } ∷ ts) rest
