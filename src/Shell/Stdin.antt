-- ===== src/Shell/Stdin.antt =====
-- Standard input as 2/parser.c reads it.
--
-- `next_char` makes a `char` of what `fgetc` returns: the end of the input and the byte 255 both become
-- `EOF`. A `char` is written here by its byte.
use sysprog_exercises.Prelude.{ℕ, Bool, true, false, List, [], ◌∷◌, if◌then◌else◌, ◌==◌}

-- The bytes that are left, and the end-of-file indicator.
pub record Stdin : Type 0 where
  pub bytes : List ℕ
  pub at_end : Bool

-- `EOF`, as a `char`
abbrev pub eof : ℕ
eof = 255

abbrev pub read_byte : List ℕ → Stdin → ℕ × Stdin
read_byte [] s = (eof, record s { at_end = true })
read_byte (c ∷ cs) s = (c, record s { bytes = cs })

unfoldable pub next_char : Stdin → ℕ × Stdin
next_char s = read_byte s.bytes s

-- `ungetc(c, stdin)`, which refuses `EOF`
unfoldable pub unget : ℕ → Stdin → Stdin
unget c s = if c == eof then s else record s { bytes = c ∷ s.bytes; at_end = false }
