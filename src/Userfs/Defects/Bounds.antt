-- ===== src/Userfs/Defects/Bounds.antt =====
-- The check of a descriptor in 3/userfs.c at the end of the table.
use sysprog_exercises.Prelude.{ℕ, ◌≡◌, List, arith, get_elem?_of_ge}
use sysprog_exercises.Prelude.Int.{pos}
use sysprog_exercises.Userfs.Types.{Ufs}
use sysprog_exercises.Userfs.Table.{fault, out_of_bounds, find_slot}
use sysprog_exercises.Userfs.Api.{ufs_write, ufs_read, ufs_close, ufs_resize}
use sysprog_exercises.Userfs.Valid.{IsValid}

find_slot-capacity :
    (s : Ufs) → IsValid s → find_slot s (pos s.file_descriptor_capacity) ≡ out_of_bounds
unfolding find_slot
find_slot-capacity s v =
    ground (arith, get_elem?_of_ge s.file_descriptors s.file_descriptor_capacity, v.table)

-- In every state that is in order, the four calls that take a descriptor read behind the table's end
-- when they are given its capacity as the descriptor.
pub capacity-fault :
    (s : Ufs) (buf : List ℕ) (size : ℕ)
    → IsValid s
    → (ufs_write s (pos s.file_descriptor_capacity) buf ≡ fault)
      × (ufs_read s (pos s.file_descriptor_capacity) size ≡ fault)
      × (ufs_close s (pos s.file_descriptor_capacity) ≡ fault)
      × (ufs_resize s (pos s.file_descriptor_capacity) size ≡ fault)
unfolding ufs_write ufs_read ufs_close ufs_resize
capacity-fault s buf size v =
    let e = find_slot-capacity s v in
    (rw (e, ufs_write), rw (e, ufs_read), rw (e, ufs_close), rw (e, ufs_resize))
