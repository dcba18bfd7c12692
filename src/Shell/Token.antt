-- ===== src/Shell/Token.antt =====
-- The tokens of 2/parser.h.
use Prim.Native.Nat.{bit_and}
use sysprog_exercises.Prelude.{ℕ, Bool, not, ◌==◌, none, some, List}
use sysprog_exercises.Shell.Run.{Run, ok, crash}
use sysprog_exercises.Shell.Builder.{StringBuilder, to_string}

-- The values that `type` takes.
pub data TokenType : Type 0 where
  word background_execution pipeline logical_operator_and logical_operator_or : TokenType
  output_redirection_write output_redirection_append : TokenType

-- Their numbers, which the header writes in octal.
abbrev pub type_code : TokenType → ℕ
type_code word = 262144
type_code background_execution = 32768
type_code pipeline = 4096
type_code logical_operator_or = 512
type_code logical_operator_and = 64
type_code output_redirection_append = 8
type_code output_redirection_write = 1

-- `LOGICAL_OPERATOR` and `OUTPUT_REDIRECTION`
abbrev pub logical_operator : ℕ
logical_operator = 576

abbrev pub output_redirection : ℕ
output_redirection = 9

abbrev pub is_logical : TokenType → Bool
is_logical t = not (bit_and (type_code t) logical_operator == 0)

abbrev pub is_logical_and : TokenType → Bool
is_logical_and t = type_code t == type_code logical_operator_and

abbrev pub is_redirection : TokenType → Bool
is_redirection t = not (bit_and (type_code t) output_redirection == 0)

abbrev pub is_redirection_append : TokenType → Bool
is_redirection_append t = type_code t == type_code output_redirection_append

abbrev pub is_pipeline : TokenType → Bool
is_pipeline t = type_code t == type_code pipeline

abbrev pub is_background_execution : TokenType → Bool
is_background_execution t = type_code t == type_code background_execution

-- `token`
pub record Token : Type 0 where
  pub value : List ℕ
  pub type : TokenType

-- `init_token`
unfoldable pub init_token : StringBuilder → TokenType → Run Token
init_token chars type = elim (to_string chars) [
  | none ↦ crash
  | some value ↦ ok (record { value = value; type = type })
]
