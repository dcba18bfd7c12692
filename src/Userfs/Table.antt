-- ===== src/Userfs/Table.antt =====
-- The array of file descriptors of 3/userfs.c: the macros that check an argument, and
-- `create_filedesc`.
use Prim.Native.Nat.{bit_and, bit_or}
use sysprog_exercises.Prelude.{
  ℕ, ◌+◌, Bool, Option, none, some, List, [], ◌∷◌, ◌++◌, get_elem?, set, replicate, if◌then◌else◌,
  ltb, ◌==◌, not,
}
use sysprog_exercises.Prelude.Int.{ℤ, pos, negsuc}
use sysprog_exercises.Userfs.Types.{ErrorCode, File, Filedesc, Ufs}

-- A call returns, or has undefined behaviour: a read outside the array or through `NULL`, or a use
-- of freed memory. `out_of_fuel` is the model's own: see the theorems on termination.
pub data Outcome (A : Type 0) : Type 0 where
  returns : A → Ufs → Outcome A
  fault : Outcome A
  out_of_fuel : Outcome A

-- The `-1` of a failed call.
abbrev pub failure : ℤ
failure = negsuc 0

-- `ufs_error_code = e`
abbrev pub set_error : Ufs → ErrorCode → Ufs
set_error s e = record s { ufs_error_code = e }

-- `*f = g` for the file object at `a`, and `*file_descriptors[fd] = d`.
abbrev pub put_file : Ufs → ℕ → File → Ufs
put_file s a f = record s { heap = set s.heap a (some f) }

abbrev pub put_desc : Ufs → ℕ → Option Filedesc → Ufs
put_desc s fd d = record s { file_descriptors = set s.file_descriptors fd d }

-- What `handle_err_no_file(fd)` finds. Its test lets `fd == file_descriptor_capacity` through to a read
-- behind the array's end.
pub data Slot : Type 0 where
  missing : Slot
  out_of_bounds : Slot
  found : ℕ → Filedesc → Slot

unfoldable pub find_slot : Ufs → ℤ → Slot
find_slot s (negsuc n) = missing
find_slot s (pos fd) =
    if ltb s.file_descriptor_capacity fd then missing else (elim (get_elem? s.file_descriptors fd) [
      | none ↦ out_of_bounds
      | some none ↦ missing
      | some (some d) ↦ found fd d
    ])

-- `handle_err_no_permissions(desc, p, q)` passes if one of the two bits is set.
unfoldable pub permits : Filedesc → ℕ → ℕ → Bool
permits d p q = not (bit_and d.permissions (bit_or p q) == 0)

-- The first `NULL` of the array; `none` is a search that runs over its end.
unfoldable pub first_free : List (Option Filedesc) → Option ℕ
first_free [] = none
first_free (none ∷ ds) = some 0
first_free (some d ∷ ds) = elim (first_free ds) [ none ↦ none | some i ↦ some (i + 1) ]

-- The array with four more places, when as many descriptors were ever opened as it has places.
unfoldable pub grow_table : Ufs → Ufs
grow_table s =
    if s.file_descriptor_count == s.file_descriptor_capacity
    then record s {
      file_descriptor_capacity = s.file_descriptor_capacity + 4;
      file_descriptors = s.file_descriptors ++ replicate 4 none;
    }
    else s

abbrev pub new_desc : ℕ → File → ℕ → ℕ → Filedesc
new_desc a f permissions fd = record {
  file = a;
  current_block = elim f.block_list [ [] ↦ none | b ∷ bs ↦ some 0 ];
  next_block_index = elim f.block_list [ [] ↦ 0 | b ∷ bs ↦ 1 ];
  offset = 0;
  permissions = permissions;
  fd = fd;
}

-- `create_filedesc` for the file object `f` at address `a`.
unfoldable pub create_filedesc : Ufs → ℕ → File → ℕ → Outcome ℤ
unfolding grow_table
create_filedesc s a f permissions =
    let t = grow_table s in
    elim (first_free t.file_descriptors) [
      | none ↦ fault
      | some fd ↦ returns (pos fd) (record t {
        heap = set t.heap a (some (record f { refs = f.refs + 1 }));
        file_descriptors = set t.file_descriptors fd (some (new_desc a f permissions fd));
        file_descriptor_count = t.file_descriptor_count + 1;
      })
    ]
