-- ===== src/Shell/Pipeline.antt =====
-- 2/pipe_list.c: the processes of a pipeline and how their descriptors are connected.
--
-- A child is a process with its descriptors and what it goes on to do. What the operating system does is
-- the parameter `Kernel`. `pipe`, `fork`, `waitpid` and the `dup2` and `close` of a redirection succeed;
-- the source exits where they fail.
use sysprog_exercises.Prelude.{
  ℕ, zero, suc, ◌+◌, ◌-◌, Bool, true, false, ◌&&◌, Option, none, some, List, [], ◌∷◌, length,
  if◌then◌else◌, ◌==◌, ltb,
}
use sysprog_exercises.Prelude.Int.{ℤ, pos, negsuc}
use sysprog_exercises.Shell.Run.{Run, ok, crash, ◌>>=◌}
use sysprog_exercises.Shell.Utils.{GrowingList}
use sysprog_exercises.Shell.Command.{ExitContext}
use sysprog_exercises.Shell.Evaluator.{Program, items_from}
use sysprog_exercises.Shell.Descriptors.{
  read_end, write_end, file, Table, opened, close, dup2, stdin_fileno, stdout_fileno,
}

-- What a child does behind its `dup2` and `close`: `_exit` with what `chdir` returned or with a code, an
-- exit because its file cannot be opened, `execvp`, with a failure of it, or a comparison of `NULL`.
pub data Action : Type 0 where
  changes_directory : Option (List ℕ) → Action
  exits : ℤ → Action
  executes : List (List ℕ) → Action
  faults : Action

pub record Process : Type 0 where
  pub table : Table
  pub action : Action

-- The calls of the operating system and of the library: `getenv("HOME")`; `chdir`, also of `NULL`, with
-- what it returns; `strtol` as an `int`; whether `open` succeeds on a name, for appending or not; the
-- numbers that `pipe` and `open` give out; and a run of all children, with `WEXITSTATUS` of each.
pub record Kernel (W : Type 0) : Type 0 where
  pub home : W → Option (List ℕ)
  pub chdir : W → Option (List ℕ) → W × ℤ
  pub strtol : List ℕ → ℤ
  pub may_open : W → List ℕ → Bool → Bool
  pub pipe_fds : Table → ℕ × ℕ
  pub open_fd : Table → ℕ
  pub run_children : W → List Process → W
  pub exit_status : W → List Process → ℕ → ℕ

-- `str_equal`
abbrev pub str_equal : List ℕ → List ℕ → Bool
str_equal [] [] = true
str_equal (c ∷ cs) (d ∷ ds) = (c == d) && str_equal cs ds
str_equal cs ds = false

abbrev pub cd_name : List ℕ
cd_name = b'c' ∷ b'd' ∷ []

abbrev pub exit_name : List ℕ
exit_name = b'e' ∷ b'x' ∷ b'i' ∷ b't' ∷ []

-- `argv[0]`, which is `NULL` for a program without words, and `argv[1]`.
abbrev pub name_of : List (List ℕ) → Option (List ℕ)
name_of [] = none
name_of (a ∷ rest) = some a

abbrev pub first_argument : List (List ℕ) → Option (List ℕ)
first_argument (a ∷ b ∷ rest) = some b
first_argument other = none

module _ {W : Type 0} (kernel : Kernel W) where
  open kernel use {home, chdir, strtol, may_open, pipe_fds, open_fd, run_children, exit_status}

  -- The directory that `change_directory` goes to.
  abbrev pub directory : W → Program → Option (List ℕ)
  directory w prg = elim (first_argument prg.argv) [ none ↦ home w | some name ↦ some name ]

  abbrev pub change_directory : W → Program → W × ℤ
  change_directory w prg = chdir w (directory w prg)

  -- The code of `exit`.
  abbrev pub exit_argument : Program → ℤ
  exit_argument prg = elim (first_argument prg.argv) [ none ↦ negsuc 0 | some text ↦ strtol text ]

  -- `program_exec`: the redirection, and what follows.
  abbrev pub program_exec_to : W → Table → Program → Option (List ℕ) → Process
  program_exec_to w t prg none = record { table = t; action = executes prg.argv }
  program_exec_to w t prg (some name) =
      let fd = open_fd t in
      if may_open w name prg.is_appending_output
      then record {
        table = close (dup2 (opened t fd (file name prg.is_appending_output)) fd stdout_fileno) fd;
        action = executes prg.argv;
      }
      else record { table = t; action = exits (pos 1) }

  abbrev pub program_exec : W → Table → Program → Process
  program_exec w t prg = program_exec_to w t prg prg.output_file_name

  -- What a child with these descriptors is, by its name.
  abbrev pub child_of : W → Table → Program → Option (List ℕ) → Process
  child_of w t prg none = record { table = t; action = faults }
  child_of w t prg (some name) =
      if str_equal name cd_name
      then record { table = t; action = changes_directory (directory w prg) }
      else (if str_equal name exit_name
          then record { table = t; action = exits (exit_argument prg) }
          else program_exec w t prg)

-- `previous_pipe[READ_END]` and `current_pipe`, and the descriptors of the shell
pub record Pipes : Type 0 where
  pub shell : Table
  pub previous : ℕ
  pub current : ℕ × ℕ

module _ {W : Type 0} (kernel : Kernel W) (size : ℕ) where
  open kernel use {pipe_fds}

  -- The `pipe` of the program at `i`, if another one follows.
  abbrev pub make_pipe : ℕ → Pipes → Pipes
  make_pipe i p =
      let fds = pipe_fds p.shell in
      if ltb i (size - 1)
      then record p {
        shell = opened (opened p.shell fds.0 (read_end i)) fds.1 (write_end i);
        current = fds;
      }
      else p

  -- The descriptors of the child behind its `dup2` and `close`.
  abbrev pub child_table : ℕ → Pipes → Table
  child_table i p =
      let out = if ltb i (size - 1) then dup2 p.shell p.current.1 stdout_fileno else p.shell in
      let into = if ltb 0 i then dup2 out p.previous stdin_fileno else out in close into p.current.0

  -- What the shell closes behind the `fork`.
  abbrev pub parent_side : ℕ → Pipes → Pipes
  parent_side i p =
      let one = if ltb 0 i then close p.shell p.previous else p.shell in
      let two = if ltb 1 size then close one p.current.1 else one in
      record p { shell = two; previous = p.current.0 }

  -- The loop over the programs, from `i` on: the children, and the descriptors of the shell behind it.
  unfoldable pub fork_all : W → ℕ → List Program → Pipes → List Process × Pipes
  fork_all w i [] p = ([], p)
  fork_all w i (prg ∷ prgs) p =
      let made = make_pipe i p in
      let rest = fork_all w (i + 1) prgs (parent_side i made) in
      (child_of kernel w (child_table i made) prg (name_of prg.argv) ∷ rest.0, rest.1)

-- The loop of `waitpid`, of `n` children from `i` on: the code of the last one.
abbrev pub wait_from : (ℕ → ℕ) → ℕ → ℕ → ℕ → ℕ
wait_from status i zero code = code
wait_from status i (suc n) code = wait_from status (i + 1) n (status i)

module _ {W : Type 0} (kernel : Kernel W) where
  open kernel use {run_children, exit_status}

  -- The loops over the children. `p` holds what the two arrays of descriptors hold before a write.
  unfoldable pub run_all : W → List Program → Pipes → W × ExitContext
  unfolding fork_all
  run_all w prgs p =
      let children = (fork_all kernel (length prgs) w 0 prgs p).0 in
      (
        run_children w children,
        record {
          exit_code = pos (wait_from (exit_status w children) 0 (length prgs) 0);
          is_terminate = false;
        },
      )

  -- A program alone, by its name.
  unfoldable pub run_one : W → Program → Pipes → Option (List ℕ) → Run (W × ExitContext)
  unfolding run_all
  run_one w prg p none = crash
  run_one w prg p (some name) =
      if str_equal name cd_name
      then (let r = change_directory kernel w prg in
          ok (r.0, record { exit_code = r.1; is_terminate = false }))
      else (if str_equal name exit_name
          then ok (w, record { exit_code = exit_argument kernel prg; is_terminate = true })
          else ok (run_all w (prg ∷ []) p))

  abbrev pub run_programs : W → Pipes → List Program → Run (W × ExitContext)
  run_programs w p (prg ∷ []) = run_one w prg p (name_of prg.argv)
  run_programs w p prgs = ok (run_all w prgs p)

  unfoldable pub pipe_list_exec : Pipes → W → GrowingList Program → Run (W × ExitContext)
  unfolding run_all run_one items_from
  pipe_list_exec p w l = items_from l 0 l.size >>= run_programs w p
