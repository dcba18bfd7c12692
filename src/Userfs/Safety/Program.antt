-- ===== src/Userfs/Safety/Program.antt =====
-- Whole programs over the functions of 3/userfs.h, from the start of the process on.
use Prim.Native.String.{String}
use sysprog_exercises.Prelude.{ℕ, ◌≡◌, ◌≢◌, List}
use sysprog_exercises.Prelude.Int.{ℤ, pos}
use sysprog_exercises.Userfs.Types.{Ufs, initial}
use sysprog_exercises.Userfs.Table.{Outcome, returns, fault, out_of_fuel}
use sysprog_exercises.Userfs.Api.{ufs_open, ufs_write, ufs_read, ufs_close, ufs_delete, ufs_resize}
use sysprog_exercises.Userfs.Valid.{IsValid, initial-IsValid}
use sysprog_exercises.Userfs.Safety.Slots.{Ends, ends, Ends-returns}
use sysprog_exercises.Userfs.Safety.Transfer.{ufs_write-IsValid, ufs_read-IsValid}
use sysprog_exercises.Userfs.Safety.Names.{ufs_open-IsValid, ufs_close-IsValid, ufs_delete-IsValid}
use sysprog_exercises.Userfs.Safety.Resize.{ufs_resize-IsValid}

pub data Call : Type 0 where
  open_file : String → ℕ → Call
  write : ℤ → List ℕ → Call
  read : ℤ → ℕ → Call
  close : ℤ → Call
  delete : String → Call
  resize : ℤ → ℕ → Call

-- The call's return code.
abbrev pub code : {B : Type 0} → Outcome (ℤ × B) → Outcome ℤ
code (returns (r, b) t) = returns r t
code fault = fault
code out_of_fuel = out_of_fuel

unfoldable pub perform : Ufs → Call → Outcome ℤ
perform s (open_file name flags) = ufs_open s name flags
perform s (write fd buf) = ufs_write s fd buf
perform s (read fd size) = code (ufs_read s fd size)
perform s (close fd) = ufs_close s fd
perform s (delete name) = ufs_delete s name
perform s (resize fd size) = ufs_resize s fd size

-- The call does not name the place just behind the table.
abbrev pub Avoids : Ufs → ℤ → Type 0
Avoids s fd = fd ≢ pos s.file_descriptor_capacity

abbrev pub InTable : Ufs → Call → Type 0
InTable s (open_file name flags) = Unit {0}
InTable s (write fd buf) = Avoids s fd
InTable s (read fd size) = Avoids s fd
InTable s (close fd) = Avoids s fd
InTable s (delete name) = Unit {0}
InTable s (resize fd size) = Avoids s fd

-- The states that a program comes to by such calls.
pub data Reach : Ufs → Type 0 where
  start : Reach initial
  call :
      {s t : Ufs} {r : ℤ} (c : Call) → Reach s → InTable s c → perform s c ≡ returns r t → Reach t

Ends-mono :
    {A : Type 0} {P Q : A → Ufs → Type 0} {o : Outcome A}
    → ((a : A) (t : Ufs) → P a t → Q a t)
    → Ends P o
    → Ends Q o
Ends-mono weaken (ends {a} {t} p) = ends (weaken a t p)

Ends-code :
    {B : Type 0} {P : ℤ × B → Ufs → Type 0} {Q : ℤ → Ufs → Type 0} {o : Outcome (ℤ × B)}
    → ((a : ℤ × B) (t : Ufs) → P a t → Q a.0 t)
    → Ends P o
    → Ends Q (code o)
Ends-code weaken (ends {a} {t} p) = ends (weaken a t p)

perform-IsValid :
    (s : Ufs) (c : Call) → IsValid s → InTable s c → Ends (λ r t. IsValid t) (perform s c)
unfolding perform
perform-IsValid s (open_file name flags) v h =
    Ends-mono (λ a t p. p.0) (ufs_open-IsValid s name flags v)
perform-IsValid s (write fd buf) v h = Ends-mono (λ a t p. p.0) (ufs_write-IsValid s fd v h buf)
perform-IsValid s (read fd size) v h = Ends-code (λ a t p. p.0) (ufs_read-IsValid s fd v h size)
perform-IsValid s (close fd) v h = Ends-mono (λ a t p. p.0) (ufs_close-IsValid s fd v h)
perform-IsValid s (delete name) v h = Ends-mono (λ a t p. p.0) (ufs_delete-IsValid s name v)
perform-IsValid s (resize fd size) v h = Ends-mono (λ a t p. p.0) (ufs_resize-IsValid s fd size v h)

-- Every state that a program reaches is in order.
Reach-IsValid : {s : Ufs} → Reach s → IsValid s
Reach-IsValid start = initial-IsValid
Reach-IsValid (call {s} c r h e) =
    Ends-returns {P = λ r t. IsValid t} (perform-IsValid s c (Reach-IsValid r) h) e

-- From the start of the process on, no sequence of calls that never names the place just behind the
-- table leads to undefined behaviour: in each state that it reaches, descriptors, files, file list and
-- reference counts are in order, and each further such call returns.
pub Reach-safe :
    {s : Ufs}
    → Reach s
    → (c : Call) → InTable s c
    → IsValid s × Ends (λ r t. IsValid t) (perform s c)
Reach-safe {s} r c h = (Reach-IsValid r, perform-IsValid s c (Reach-IsValid r) h)
