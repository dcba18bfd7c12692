-- ===== src/Shell/Descriptors.antt =====
-- The descriptors of a process, and the calls of POSIX on them that 2/pipe_list.c makes.
use sysprog_exercises.Prelude.{ℕ, Bool, Option, none, some, List, if◌then◌else◌, ◌==◌}

-- What a descriptor is open on: what the shell was started with, an end of the pipe of a pipeline's
-- program, or a file with its name, opened for appending or truncated.
pub data End : Type 0 where
  inherited : ℕ → End
  read_end write_end : ℕ → End
  file : List ℕ → Bool → End

abbrev pub Table : Type 0
Table = ℕ → Option End

abbrev pub opened : Table → ℕ → End → Table
opened t fd e = λ x. if x == fd then some e else t x

-- `close`; of a descriptor that is not open it fails, and changes nothing.
abbrev pub close : Table → ℕ → Table
close t fd = λ x. if x == fd then none else t x

-- `dup2`; of a descriptor that is not open it fails, and changes nothing.
abbrev pub dup_onto : Table → Option End → ℕ → Table
dup_onto t none to = t
dup_onto t (some e) to = opened t to e

abbrev pub dup2 : Table → ℕ → ℕ → Table
dup2 t from to = dup_onto t (t from) to

-- `STDIN_FILENO` and `STDOUT_FILENO`
abbrev pub stdin_fileno : ℕ
stdin_fileno = 0

abbrev pub stdout_fileno : ℕ
stdout_fileno = 1
