-- ===== src/Shell/Evaluator.antt =====
-- 2/evaluator.c: the entries of a command are cut out of its tokens by position, and run.
--
-- A range of tokens is written by its left bound and the position behind its right bound, `end`. The
-- source's right bound is `end - 1` in `size_t`: for `end` 0 its loops run past every token.
-- `pipe_list_exec` is a parameter as in Shell.Command, and so is `fork`, which starts a child that runs
-- what it is given in a world of its own and hands the parent its world.
use sysprog_exercises.Prelude.{
  ℕ, zero, suc, ◌+◌, ◌-◌, Bool, true, false, Option, none, some, List, [], ◌∷◌, get_elem?,
  if◌then◌else◌, ◌==◌,
}
use sysprog_exercises.Prelude.Int.{negsuc}
use sysprog_exercises.Shell.Run.{Run, ok, crash, ◌>>=◌}
use sysprog_exercises.Shell.Utils.{
  Cell, garbage, null, item, GrowingList, list_init, list_add, list_trim,
}
use sysprog_exercises.Shell.Token.{
  Token, is_logical, is_logical_and, is_redirection, is_redirection_append, is_pipeline,
  is_background_execution,
}
use sysprog_exercises.Shell.Command.{
  ExitContext, entry_null, entry_and, entry_or, CommandEntry, command_exec,
}

-- `program` of 2/pipe_list.h; `argv` ends with `NULL` in the source
pub record Program : Type 0 where
  pub argv : List (List ℕ)
  pub is_appending_output : Bool
  pub output_file_name : Option (List ℕ)

abbrev pub cell_item : {A : Type 0} → Option (Cell A) → Run A
cell_item none = crash
cell_item (some garbage) = crash
cell_item (some null) = crash
cell_item (some (item x)) = ok x

-- `list->items[i]`, for a pointer that is followed
unfoldable pub item_at : {A : Type 0} → GrowingList A → ℕ → Run A
item_at l i = cell_item (get_elem? l.items i)

-- The items from `i` on, `n` of them.
unfoldable pub items_from : {A : Type 0} → GrowingList A → ℕ → ℕ → Run (List A)
unfolding item_at
items_from l i zero = ok []
items_from l i (suc n) = do x ← item_at l i; rest ← items_from l (i + 1) n; ok (x ∷ rest)

unfoldable pub argv_from : GrowingList Token → ℕ → ℕ → Run (List (List ℕ))
unfolding item_at
argv_from tokens i zero = ok []
argv_from tokens i (suc n) = do
  t ← item_at tokens i
  rest ← argv_from tokens (i + 1) n
  ok (t.value ∷ rest)

unfoldable pub init_argv : GrowingList Token → ℕ → ℕ → Run (List (List ℕ))
unfolding argv_from
init_argv tokens left end = if end == 0 then crash else argv_from tokens left (end - left)

-- The loop of `init_program` from `i` on, `n` rounds.
unfoldable pub program_from : GrowingList Token → ℕ → ℕ → ℕ → ℕ → Run Program
unfolding init_argv item_at
program_from tokens left end i zero = do
  argv ← init_argv tokens left end
  ok (record { argv = argv; is_appending_output = false; output_file_name = none })
program_from tokens left end i (suc n) = do
  t ← item_at tokens i
  elim (is_redirection t.type) [
    | true ↦ init_argv tokens left i >>= (λ argv. item_at tokens (i + 1) >>= (λ (f : Token).
        ok (record {
          argv = argv;
          is_appending_output = is_redirection_append t.type;
          output_file_name = some f.value;
        })))
    | false ↦ program_from tokens left end (i + 1) n
  ]

unfoldable pub init_program : GrowingList Token → ℕ → ℕ → Run Program
unfolding program_from
init_program tokens left end =
    if end == 0 then crash else program_from tokens left end left (end - left)

-- The loop of `init_pipe_list`.
unfoldable pub pipes_from :
    GrowingList Token → ℕ → ℕ → ℕ → ℕ → GrowingList Program → Run (GrowingList Program)
unfolding item_at
pipes_from tokens end left i zero pipes = ok pipes
pipes_from tokens end left i (suc n) pipes = do
  t ← item_at tokens i
  elim (is_pipeline t.type) [
    | true ↦
        init_program tokens left i
        >>= (λ p. pipes_from tokens end (i + 1) (i + 1) n (list_add pipes p))
    | false ↦ elim (i + 1 == end) [
      | true ↦
          init_program tokens left (i + 1)
          >>= (λ p. pipes_from tokens end left (i + 1) n (list_add pipes p))
      | false ↦ pipes_from tokens end left (i + 1) n pipes
    ]
  ]

unfoldable pub init_pipe_list : GrowingList Token → ℕ → ℕ → Run (GrowingList Program)
unfolding pipes_from
init_pipe_list tokens left end =
    if end == 0
    then crash
    else (do pipes ← pipes_from tokens end left left (end - left) list_init; ok (list_trim pipes))

abbrev pub Entry : Type 0
Entry = CommandEntry (GrowingList Program)

unfoldable pub init_command_entry : GrowingList Token → ℕ → ℕ → Bool → Run Entry
unfolding item_at
init_command_entry tokens left end is_terminate =
    if is_terminate
    then (do
      pipes ← init_pipe_list tokens left end
      ok (record { pipe_list = pipes; next_operator_type = entry_null }))
    else (do
      pipes ← init_pipe_list tokens left (end - 1)
      t ← item_at tokens (end - 1)
      ok (record {
        pipe_list = pipes;
        next_operator_type = if is_logical_and t.type then entry_and else entry_or;
      }))

-- The loop of `evaluate`: the entries, and whether the command goes to the background.
unfoldable pub entries_from :
    GrowingList Token → ℕ → ℕ → ℕ → GrowingList Entry → Bool → Run (GrowingList Entry × Bool)
unfolding item_at
entries_from tokens left i zero command background = ok (command, background)
entries_from tokens left i (suc n) command background = do
  t ← item_at tokens i
  elim (is_logical t.type) [
    | true ↦
        init_command_entry tokens left (i + 1) false
        >>= (λ e. entries_from tokens (i + 1) (i + 1) n (list_add command e) background)
    | false ↦ elim (i + 1 == tokens.size) [
      | true ↦ elim (is_background_execution t.type) [
        | true ↦
            init_command_entry tokens left i true
            >>= (λ e. entries_from tokens left (i + 1) n (list_add command e) true)
        | false ↦
            init_command_entry tokens left (i + 1) true
            >>= (λ e. entries_from tokens left (i + 1) n (list_add command e) background)
      ]
      | false ↦ entries_from tokens left (i + 1) n command background
    ]
  ]

-- The context of no exit code.
abbrev pub no_exit_code : ExitContext
no_exit_code = record { exit_code = negsuc 0; is_terminate = false }

module _ {W : Type 0} (pipe_list_exec : W → GrowingList Program → W × ExitContext)
    (fork : W → (W → W × ExitContext) → W) where
  unfoldable pub evaluate : W → GrowingList Token → Run (W × ExitContext)
  unfolding entries_from
  evaluate w tokens =
      if tokens.size == 0
      then ok (w, no_exit_code)
      else entries_from tokens 0 0 tokens.size list_init false >>= (λ made.
        items_from (list_trim made.0) 0 (list_trim made.0).size >>= (λ entries.
          if made.1
          then ok (fork w (λ child. command_exec pipe_list_exec child entries), no_exit_code)
          else ok (command_exec pipe_list_exec w entries)))
