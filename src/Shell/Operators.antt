-- ===== src/Shell/Operators.antt =====
-- The tokens of a line of pipelines, for 2/evaluator.c.
use sysprog_exercises.Prelude.{◌≡◌, ◌≢◌, Bool, true, false, List, [], ◌∷◌, ◌++◌}
use sysprog_exercises.Shell.Token.{
  Token, is_logical, is_background_execution, background_execution, logical_operator_and,
  logical_operator_or,
}
use sysprog_exercises.Shell.Grammar.{single, double}
use sysprog_exercises.Shell.Command.{NextOperator, entry_null, entry_and, entry_or, CommandEntry}
use sysprog_exercises.Shell.Evaluator.{Program, Entry}
use sysprog_exercises.Shell.Pipes.{pipe_tokens, IsPipeline, built}

-- An entry with its pipeline as a list of programs.
abbrev pub LineEntry : Type 0
LineEntry = CommandEntry (List Program)

abbrev pub background_token : Token
background_token = single b'&' background_execution

abbrev pub operator_tokens : NextOperator → List Token
operator_tokens entry_null = []
operator_tokens entry_and = double b'&' logical_operator_and ∷ []
operator_tokens entry_or = double b'|' logical_operator_or ∷ []

-- The tokens of a line.
abbrev pub line_tokens : List LineEntry → List Token
line_tokens [] = []
line_tokens (e ∷ es) =
    pipe_tokens e.pipe_list ++ (operator_tokens e.next_operator_type ++ line_tokens es)

-- Every entry but the last has an operator behind it.
abbrev pub IsLine : List LineEntry → Type 0
IsLine [] = ⊥
IsLine (e ∷ []) = IsPipeline e.pipe_list × (e.next_operator_type ≡ entry_null)
IsLine (e ∷ f ∷ es) = IsPipeline e.pipe_list × (e.next_operator_type ≢ entry_null) × IsLine (f ∷ es)

abbrev pub background_tokens : Bool → List Token
background_tokens true = background_token ∷ []
background_tokens false = []

abbrev pub build : LineEntry → Entry
build e = record { pipe_list = built e.pipe_list; next_operator_type = e.next_operator_type }

abbrev pub logical : Token → Bool
logical t = is_logical t.type

abbrev pub in_background : Token → Bool
in_background t = is_background_execution t.type
