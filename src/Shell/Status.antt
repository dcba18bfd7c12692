-- ===== src/Shell/Status.antt =====
-- What `pipe_list_exec` of 2/pipe_list.c returns.
use sysprog_exercises.Prelude.{
  ℕ, zero, suc, ◌+◌, ◌<◌, ◌≡◌, refl, ap, ◌∙◌, false, none, some, List, [], ◌∷◌, arith, length, ◌==◌,
}
use sysprog_exercises.Prelude.Int.{ℤ, pos, negsuc}
use sysprog_exercises.Shell.Run.{ok, ◌>>=◌}
use sysprog_exercises.Shell.Lists.{trimmed}
use sysprog_exercises.Shell.Command.{ExitContext, is_success}
use sysprog_exercises.Shell.Main.{new_code}
use sysprog_exercises.Shell.Evaluator.{Program}
use sysprog_exercises.Shell.Items.{items_from-At}
use sysprog_exercises.Shell.Pipes.{built}
use sysprog_exercises.Shell.Cut.{whole, whole-At}
use sysprog_exercises.Shell.Descriptors.{Table, close}
use sysprog_exercises.Shell.Pipeline.{
  Process, Kernel, Pipes, cd_name, name_of, directory, child_of, fork_all, wait_from, run_all,
  run_one, run_programs, pipe_list_exec,
}

wait_from-last : (status : ℕ → ℕ) (i n code : ℕ) → wait_from status i (suc n) code ≡ status (i + n)
wait_from-last status i zero code = ap status (omega arith)
wait_from-last status i (suc n) code =
    wait_from-last status (i + 1) n (status i) ∙ ap status (omega arith)

module _ {W : Type 0} (kernel : Kernel W) (p : Pipes) (w : W) where
  built_lem :
      (ps : List Program)
      → 0 < length ps
      → pipe_list_exec kernel p w (built ps) ≡ run_programs kernel w p ps
  unfolding pipe_list_exec
  built_lem ps some_program =
      ap (pipe_list_exec kernel p w) (trimmed ps some_program)
      ∙ ap (λ r. r >>= run_programs kernel w p) (items_from-At (whole ps) 0 ps (whole-At ps))

  -- The children of a pipeline.
  abbrev pub children_of : List Program → List Process
  children_of ps = (fork_all kernel (length ps) w 0 ps p).0

  -- A pipeline of two programs or more never crashes the shell and never ends it: all its children run,
  -- and its exit code is the status of the last one.
  pub pipe_list_exec-last :
      (a b : Program) (ps : List Program)
      → pipe_list_exec kernel p w (built (a ∷ b ∷ ps))
        ≡ ok (
          kernel.run_children w (children_of (a ∷ b ∷ ps)),
          record {
            exit_code = pos (kernel.exit_status w (children_of (a ∷ b ∷ ps)) (length ps + 1));
            is_terminate = false;
          },
        )
  unfolding run_all
  pipe_list_exec-last a b ps =
      let children = children_of (a ∷ b ∷ ps) in
      built_lem (a ∷ b ∷ ps) (omega arith)
      ∙ ap
          (λ c.
            ok (kernel.run_children w children, record { exit_code = pos c; is_terminate = false }))
          (wait_from-last (kernel.exit_status w children) 0 (suc (length ps)) 0
            ∙ ap (kernel.exit_status w children) (omega arith))

  -- Where `chdir` fails on the directory of `cd`, the command has failed for && and ||, and yet has the
  -- code that stands for none: the exit code of the shell is the one before.
  pub pipe_list_exec-cd :
      (a : Program) (code : ℤ)
      → name_of a.argv ≡ some cd_name
      → (kernel.chdir w (directory kernel w a)).1 ≡ negsuc 0
      → (r : W × ExitContext) × (pipe_list_exec kernel p w (built (a ∷ [])) ≡ ok r)
        × (is_success r.1.exit_code ≡ false)
        × (new_code r.1 code ≡ code)
  unfolding run_one
  pipe_list_exec-cd a code n e = (
    (
      (kernel.chdir w (directory kernel w a)).0,
      record { exit_code = (kernel.chdir w (directory kernel w a)).1; is_terminate = false },
    ),
    built_lem (a ∷ []) (omega arith) ∙ rw n refl,
    rw e refl,
    rw e refl,
  )

  -- The child of a pipeline of one program has closed the descriptor with the number that the array
  -- `current_pipe` happens to hold, whatever it is.
  fork_all-alone :
      (a : Program)
      → (t : Table) × (children_of (a ∷ []) ≡ child_of kernel w t a (name_of a.argv) ∷ [])
        × (t p.current.0 ≡ none)
        × ((fd : ℕ) → (fd == p.current.0) ≡ false → t fd ≡ p.shell fd)
  unfolding fork_all
  fork_all-alone a = (close p.shell p.current.0, refl, ground arith, λ fd apart. ground arith)
