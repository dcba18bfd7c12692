-- ===== src/Shell/Tests/Pipelines.antt =====
-- The pipelines of 2/pipe_list.c under a sample kernel.
use sysprog_exercises.Prelude.{
  ℕ, ◌+◌, ◌≡◌, refl, arith, Option, none, some, Bool, true, false, List, [], ◌∷◌, length, ◌==◌,
  if◌then◌else◌, inl, inr, Bool-cases, sym, subst,
}
use sysprog_exercises.Prelude.Int.{pos, negsuc}
use sysprog_exercises.Shell.Run.{ok}
use sysprog_exercises.Shell.Command.{ExitContext, is_success}
use sysprog_exercises.Shell.Main.{new_code}
use sysprog_exercises.Shell.Evaluator.{Program}
use sysprog_exercises.Shell.Pipes.{built}
use sysprog_exercises.Shell.Descriptors.{End, inherited, read_end, Table}
use sysprog_exercises.Shell.Pipeline.{Kernel, Pipes, cd_name, fork_all, pipe_list_exec}
use sysprog_exercises.Shell.Connected.{Started, Fresh, Linked, GivesFresh}
use sysprog_exercises.Shell.Wiring.{Wired, fork_all-Wired}
use sysprog_exercises.Shell.Status.{pipe_list_exec-last, pipe_list_exec-cd}

-- The three standard streams.
abbrev streams : Table
streams fd =
    if fd == 0
    then some (inherited 0)
    else (if fd == 1 then some (inherited 1) else (if fd == 2 then some (inherited 2) else none))

abbrev is_free : Option End → Bool
is_free none = true
is_free (some e) = false

-- The two lowest free numbers from 3 on, where at most one of 3 to 5 is in use.
abbrev lowest_two : Table → ℕ × ℕ
lowest_two t =
    (if is_free (t 3) then 3 else 4, if is_free (t 3) then (if is_free (t 4) then 4 else 5) else 5)

streams_started : Started streams
streams_started = record {
  input_open = (inherited 0, refl);
  output_open = (inherited 1, refl);
  no_read_end = λ fd n e. ground (arith, e);
  no_write_end = λ fd n e. ground (arith, e);
}

Fresh-by : (t : Table) (r w : ℕ) → lowest_two t ≡ (r, w) → Fresh t (r, w) → Fresh t (lowest_two t)
Fresh-by t r w e f = subst (Fresh t) (sym e) f

lowest_two-Fresh :
    (i previous : ℕ) (t : Table)
    → Linked streams streams_started i previous t
    → Fresh t (lowest_two t)
lowest_two-Fresh i previous t l = elim (Bool-cases (3 == previous)) [
  | inl three ↦
      let a : t 3 ≡ some (read_end i) = ground (arith, l.1 3) in
      let b : t 4 ≡ none = ground (arith, l.1 4) in
      let c : t 5 ≡ none = ground (arith, l.1 5) in
      Fresh-by t 4 5 (rw (a) refl) (record { free_read = b; free_write = c; apart = refl })
  | inr not_three ↦
      let a : t 3 ≡ none = ground (arith, l.1 3) in
      elim (Bool-cases (4 == previous)) [
        | inl four ↦
            let b : t 4 ≡ some (read_end i) = ground (arith, l.1 4) in
            let c : t 5 ≡ none = ground (arith, l.1 5) in
            Fresh-by t 3 5 (rw (a, b) refl) (record { free_read = a; free_write = c; apart = refl })
        | inr not_four ↦
            let b : t 4 ≡ none = ground (arith, l.1 4) in
            Fresh-by t 3 4 (rw (a, b) refl) (record { free_read = a; free_write = b; apart = refl })
      ]
]

lowest_two-GivesFresh : GivesFresh streams streams_started lowest_two
lowest_two-GivesFresh = record {
  at_start = record { free_read = refl; free_write = refl; apart = refl };
  between = lowest_two-Fresh;
}

-- A kernel whose children end with their place in the pipeline, and where no directory exists.
abbrev sample_kernel : Kernel ℕ
sample_kernel = record {
  home = λ w. none;
  chdir = λ w name. (w, negsuc 0);
  strtol = λ text. pos 0;
  may_open = λ w name appending. true;
  pipe_fds = lowest_two;
  open_fd = λ t. 6;
  run_children = λ w children. w + length children;
  exit_status = λ w children i. i;
}

abbrev unset : Pipes
unset = record { shell = streams; previous = 9; current = (1, 8) }

abbrev named : List ℕ → Program
named name = record { argv = name ∷ []; is_appending_output = false; output_file_name = none }

abbrev ls : Program
ls = named (b'l' ∷ b's' ∷ [])

fork_all-Wired_example :
    Wired streams streams_started sample_kernel lowest_two-GivesFresh 3 0 none 0
      (ls ∷ ls ∷ ls ∷ [])
      (fork_all sample_kernel 3 0 0 (ls ∷ ls ∷ ls ∷ []) unset).0
    × ((fd : ℕ) → (fork_all sample_kernel 3 0 0 (ls ∷ ls ∷ ls ∷ []) unset).1.shell fd ≡ streams fd)
fork_all-Wired_example =
    fork_all-Wired streams streams_started sample_kernel lowest_two-GivesFresh 3 0 ls ls (ls ∷ [])
      unset refl refl

pipe_list_exec-last_example :
    pipe_list_exec sample_kernel unset 0 (built (ls ∷ ls ∷ ls ∷ []))
    ≡ ok (3, record { exit_code = pos 2; is_terminate = false })
unfolding fork_all
pipe_list_exec-last_example = pipe_list_exec-last sample_kernel unset 0 ls ls (ls ∷ [])

pipe_list_exec-cd_example :
    (r : ℕ × ExitContext) × (pipe_list_exec sample_kernel unset 0 (built (named cd_name ∷ []))
      ≡ ok r)
    × (is_success r.1.exit_code ≡ false)
    × (new_code r.1 (pos 7) ≡ pos 7)
pipe_list_exec-cd_example =
    pipe_list_exec-cd sample_kernel unset 0 (named cd_name) (pos 7) refl refl
