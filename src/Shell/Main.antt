-- ===== src/Shell/Main.antt =====
-- `main` of 2/solution.c.
use sysprog_exercises.Prelude.{ℕ, zero, suc, Bool, true, false, none, some, if◌then◌else◌, ◌==◌}
use sysprog_exercises.Prelude.Int.{ℤ, pos, negsuc}
use sysprog_exercises.Shell.Run.{Run, ok, crash, out_of_fuel, ◌>>=◌}
use sysprog_exercises.Shell.Stdin.{Stdin}
use sysprog_exercises.Shell.Utils.{GrowingList, list_free}
use sysprog_exercises.Shell.Token.{Token}
use sysprog_exercises.Shell.Command.{ExitContext}
use sysprog_exercises.Shell.Tokenizer.{tokenize_command}
use sysprog_exercises.Shell.Evaluator.{Program, evaluate}

-- `exit_code == EXIT_NO_CODE`
abbrev pub has_no_code : ℤ → Bool
has_no_code (pos n) = false
has_no_code (negsuc n) = n == 0

-- `if (context.exit_code != EXIT_NO_CODE) exit_code = context.exit_code;`
abbrev pub new_code : ExitContext → ℤ → ℤ
new_code x exit_code = if has_no_code x.exit_code then exit_code else x.exit_code

-- `list_free(tokens, token_free)`, which may not meet a pointer that was never written.
unfoldable pub free_tokens : {A : Type 0} → GrowingList Token → A → Run A
unfolding list_free
free_tokens tokens a = elim (list_free tokens) [ none ↦ crash | some freed ↦ ok a ]

module _ {W : Type 0} (pipe_list_exec : W → GrowingList Program → W × ExitContext)
    (fork : W → (W → W × ExitContext) → W) where
  -- The body of the loop, with fuel `k` for reading: the world, the context and the input behind it.
  unfoldable pub main_round : ℕ → W → Stdin → Run ((W × ExitContext) × Stdin)
  unfolding free_tokens
  main_round k w s =
      tokenize_command k s
      >>= (λ read. evaluate pipe_list_exec fork w read.0 >>= (λ r. free_tokens read.0 (r, read.1)))

  -- The loop, with fuel `j` for its rounds: the world and the exit code.
  unfoldable pub main_loop : ℕ → ℕ → W → Stdin → ℤ → Run (W × ℤ)
  unfolding main_round
  main_loop zero k w s exit_code = out_of_fuel
  main_loop (suc j) k w s exit_code = elim s.at_end [
    | true ↦ ok (w, exit_code)
    | false ↦ main_round k w s >>= (λ r. elim r.0.1.is_terminate [
      | true ↦ ok (r.0.0, new_code r.0.1 exit_code)
      | false ↦ main_loop j k r.0.0 r.1 (new_code r.0.1 exit_code)
    ])
  ]
