-- ===== src/Shell/Command.antt =====
-- `command_exec` of 2/command.c: the pipelines of a line, joined by && and ||.
--
-- `pipe_list_exec` of 2/pipe_list.c, which forks and waits, is a parameter: a function of the state
-- of the world, to the new state and what the pipeline returned.
use Prim.Native.Nat.{bit_or}
use sysprog_exercises.Prelude.{ℕ, Bool, false, List, [], ◌∷◌, if◌then◌else◌, ◌==◌}
use sysprog_exercises.Prelude.Int.{ℤ, pos, negsuc}

-- `exit_context`
pub record ExitContext : Type 0 where
  pub exit_code : ℤ
  pub is_terminate : Bool

-- `ENTRY_NULL`, `ENTRY_AND` and `ENTRY_OR`, the values of `next_operator_type`
pub data NextOperator : Type 0 where
  entry_null entry_and entry_or : NextOperator

pub record CommandEntry (P : Type 0) : Type 0 where
  pub pipe_list : P
  pub next_operator_type : NextOperator

-- `RUN_AND_CHAIN`, `AND_CHAIN_FAILED`, `CAUGHT_OR_ONLY` and `EXEC_AFTER_OR`
abbrev pub run_and_chain : ℕ
run_and_chain = 0

abbrev pub and_chain_failed : ℕ
and_chain_failed = 1

abbrev pub caught_or_only : ℕ
caught_or_only = 8

abbrev pub exec_after_or : ℕ
exec_after_or = bit_or caught_or_only and_chain_failed

-- `exit_code == EXIT_SUCCESS`
abbrev pub is_success : ℤ → Bool
is_success (pos n) = n == 0
is_success (negsuc n) = false

-- What `memset` makes of the context.
abbrev pub no_context : ExitContext
no_context = record { exit_code = pos 0; is_terminate = false }

-- The loop goes on in a mode, or jumps to `out`.
pub data Step (W : Type 0) : Type 0 where
  onward : W → ExitContext → ℕ → Step W
  out : W → ExitContext → Step W

-- From the test of the exit code to the end of a round.
unfoldable pub after_entry : {W : Type 0} → W → ExitContext → ℕ → NextOperator → Step W
after_entry w x execution_mode next =
    let mode = if is_success x.exit_code then execution_mode else and_chain_failed in
    elim next [
      | entry_and ↦ onward w x (if mode == caught_or_only then run_and_chain else mode)
      | entry_or ↦ onward w x (bit_or mode caught_or_only)
      | entry_null ↦ out w x
    ]

module _ {W P : Type 0} (pipe_list_exec : W → P → W × ExitContext) where
  -- A pipeline is run, and an `exit` in it ends the command.
  abbrev pub run_pipe_list : W → P → ℕ → Step W
  run_pipe_list w p mode =
      let r = pipe_list_exec w p in if r.1.is_terminate then out r.0 r.1 else onward r.0 r.1 mode

  -- The start of a round, up to the test of the exit code.
  unfoldable pub exec_entry : W → ExitContext → ℕ → P → Step W
  exec_entry w x execution_mode p =
      if execution_mode == run_and_chain
      then run_pipe_list w p execution_mode
      else (if execution_mode == exec_after_or
          then run_pipe_list w p run_and_chain
          else onward w x execution_mode)

  unfoldable pub command_loop : List (CommandEntry P) → W → ExitContext → ℕ → W × ExitContext
  command_loop [] w x execution_mode = (w, x)
  command_loop (e ∷ rest) w x execution_mode = elim (exec_entry w x execution_mode e.pipe_list) [
    | out v y ↦ (v, y)
    | onward v y mode ↦ elim (after_entry v y mode e.next_operator_type) [
      | out u z ↦ (u, z)
      | onward u z next_mode ↦ command_loop rest u z next_mode
    ]
  ]

  unfoldable pub command_exec : W → List (CommandEntry P) → W × ExitContext
  unfolding command_loop
  command_exec w command = command_loop command w no_context run_and_chain
