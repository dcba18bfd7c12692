-- ===== src/Shell/Meaning.antt =====
-- A command of the shell in 2/ from its text to what it runs.
use sysprog_exercises.Prelude.{
  ℕ, ◌+◌, ◌≡◌, refl, ap, ◌∙◌, Bool, true, false, List, [], ◌∷◌, ◌++◌, arith, length, length-append,
  map, if◌then◌else◌, ◌==◌,
}
use sysprog_exercises.Shell.Run.{Run, ok, ◌>>=◌}
use sysprog_exercises.Shell.Utils.{GrowingList, list_init, list_trim, add_all}
use sysprog_exercises.Shell.Lists.{trimmed}
use sysprog_exercises.Shell.Token.{Token}
use sysprog_exercises.Shell.Command.{
  ExitContext, entry_null, Step, after_entry, exec_entry, command_loop, command_exec,
}
use sysprog_exercises.Shell.AndOr.{AndOr, entries, run_line, command_exec-run_line}
use sysprog_exercises.Shell.Evaluator.{Program, items_from, Entry, no_exit_code, evaluate}
use sysprog_exercises.Shell.Items.{items_from-At}
use sysprog_exercises.Shell.Pipes.{built}
use sysprog_exercises.Shell.Operators.{LineEntry, line_tokens, background_tokens, build}
use sysprog_exercises.Shell.Cut.{
  whole, whole-At, entries_from-At, Pipelines, IsLine-entries, IsLine-pos, length-map-build,
}

-- The tokens of a line, in the background or not.
abbrev pub command_tokens : AndOr (List Program) → Bool → List Token
command_tokens c background = line_tokens (entries c entry_null) ++ background_tokens background

module _ {W : Type 0} (pipe_list_exec : W → GrowingList Program → W × ExitContext)
    (fork : W → (W → W × ExitContext) → W) where
  -- A pipeline is run from the list that the evaluator builds.
  abbrev pub run_pipeline : W → List Program → W × ExitContext
  run_pipeline w ps = pipe_list_exec w (built ps)

  command_loop-build :
      (es : List LineEntry) (w : W) (x : ExitContext) (mode : ℕ)
      → command_loop pipe_list_exec (map build es) w x mode ≡ command_loop run_pipeline es w x mode
  unfolding command_loop exec_entry
  command_loop-build [] w x mode = refl
  command_loop-build (e ∷ es) w x mode = λ i. elim (exec_entry run_pipeline w x mode e.pipe_list) [
    | Step.out v y ↦ (v, y)
    | Step.onward v y m ↦ elim (after_entry v y m e.next_operator_type) [
      | Step.out u z ↦ (u, z)
      | Step.onward u z n ↦ command_loop-build es u z n i
    ]
  ]

  -- What the shell does for a line.
  abbrev pub run_command : W → AndOr (List Program) → Bool → W × ExitContext
  run_command w c true = (fork w (λ child. run_line run_pipeline child c), no_exit_code)
  run_command w c false = run_line run_pipeline w c

  command_exec-build :
      (w : W) (c : AndOr (List Program))
      → command_exec pipe_list_exec w (map build (entries c entry_null)) ≡ run_line run_pipeline w c
  unfolding command_exec
  command_exec-build w c =
      command_loop-build (entries c entry_null) w _ _ ∙ command_exec-run_line run_pipeline w c

  evaluate-whole :
      (w : W) (c : AndOr (List Program)) (background : Bool)
      → Pipelines c
      → evaluate pipe_list_exec fork w (whole (command_tokens c background))
        ≡ ok (run_command w c background)
  unfolding evaluate
  evaluate-whole w c background g =
      let es = entries c entry_null in
      let ts = command_tokens c background in
      let line = IsLine-entries c g in
      let some_entries = (IsLine-pos es line).0 in
      let size : length ts ≡ length (line_tokens es) + length (background_tokens background) =
        length-append (line_tokens es) (background_tokens background) in
      let n : (length ts == 0) ≡ false = ground (arith, IsLine-pos es line) in
      let made =
        entries_from-At (whole ts) 0 list_init es background line (whole-At ts) (omega arith) in
      let trim = trimmed (map build es) (omega (arith, length-map-build es, some_entries)) in
      let read =
        ap (λ l. items_from l 0 l.size) trim
        ∙ items_from-At (whole (map build es)) 0 (map build es) (whole-At (map build es)) in
      rw n (
        ap
          (λ r. r >>= (λ made.
            items_from (list_trim made.0) 0 (list_trim made.0).size
            >>= (λ entries. finish w entries made.1)))
          made
        ∙ ap (λ r. r >>= (λ entries. finish w entries background)) read
        ∙ ran background)
    where
      finish : W → List Entry → Bool → Run (W × ExitContext)
      finish w entries background =
          if background
          then ok (fork w (λ child. command_exec pipe_list_exec child entries), no_exit_code)
          else ok (command_exec pipe_list_exec w entries)

      ran : (b : Bool) → finish w (map build (entries c entry_null)) b ≡ ok (run_command w c b)
      ran true = λ i. ok (fork w (λ child. command_exec-build child c i), no_exit_code)
      ran false = ap ok (command_exec-build w c)

  -- On the tokens of a line of pipelines that each have a program with a name, `evaluate` does not leave
  -- the tokens. It builds the programs with their arguments and redirections, and runs the line as && and
  -- || mean it; for a line with & behind it a child does so, and there is no exit code.
  pub evaluate-run_command :
      (w : W) (c : AndOr (List Program)) (background : Bool)
      → Pipelines c
      → evaluate pipe_list_exec fork w (list_trim (add_all list_init (command_tokens c background)))
        ≡ ok (run_command w c background)
  evaluate-run_command w c background g =
      ap (evaluate pipe_list_exec fork w) (
        trimmed (command_tokens c background) (
          omega (
            arith,
            IsLine-pos (entries c entry_null) (IsLine-entries c g),
            length-append (line_tokens (entries c entry_null)) (background_tokens background),
          )))
      ∙ evaluate-whole w c background g
