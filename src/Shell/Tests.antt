-- ===== src/Shell/Tests.antt =====
-- The theorems on the shell in 2/ at sample lines, lists and strings.
mod Sessions
mod Pipelines
use sysprog_exercises.Prelude.{ℕ, ◌≡◌, refl, arith, none, some, false, List, [], ◌∷◌}
use sysprog_exercises.Prelude.Int.{pos}
use sysprog_exercises.Shell.Command.{
  ExitContext, entry_null, after_entry, exec_entry, command_loop, command_exec,
}
use sysprog_exercises.Shell.AndOr.{
  AndOr, pipeline, and_then, or_else, entries, run_line, command_exec-run_line,
}
use sysprog_exercises.Shell.Utils.{list_init, list_trim, list_free, add_all}
use sysprog_exercises.Shell.Builder.{
  string_builder_init, to_string, append_all, before_zero, to_string-append_all,
}
use sysprog_exercises.Shell.Lists.{list_free-list_trim}

-- Pipelines that only log themselves, and return their number.
abbrev log_exec : List ℕ → ℕ → List ℕ × ExitContext
log_exec log p = (p ∷ log, record { exit_code = pos p; is_terminate = false })

-- 1 || 0 && 5
abbrev sample_line : AndOr ℕ
sample_line = and_then (or_else (pipeline 1) (0)) 5

ran_in_turn :
    command_exec log_exec [] (entries sample_line entry_null)
    ≡ (5 ∷ 0 ∷ 1 ∷ [], record { exit_code = pos 5; is_terminate = false })
unfolding command_exec command_loop exec_entry after_entry
ran_in_turn = refl

-- 3 && 0 || 2, where the second is passed over
passed_over :
    command_exec log_exec [] (entries (or_else (and_then (pipeline 3) 0) 2) entry_null)
    ≡ (2 ∷ 3 ∷ [], record { exit_code = pos 2; is_terminate = false })
unfolding command_exec command_loop exec_entry after_entry
passed_over = refl

command_exec-run_line_example :
    command_exec log_exec [] (entries sample_line entry_null) ≡ run_line log_exec [] sample_line
command_exec-run_line_example = command_exec-run_line log_exec [] sample_line

abbrev five : List ℕ
five = 1 ∷ 2 ∷ 3 ∷ 4 ∷ 5 ∷ []

list_free-list_trim_example : list_free (list_trim (add_all list_init five)) ≡ some five
list_free-list_trim_example = list_free-list_trim five

to_string-append_all_example :
    to_string (append_all string_builder_init (108 ∷ 115 ∷ []))
    ≡ some (before_zero (108 ∷ 115 ∷ []))
to_string-append_all_example = to_string-append_all (108 ∷ 115 ∷ [])
