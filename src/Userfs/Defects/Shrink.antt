-- ===== src/Userfs/Defects/Shrink.antt =====
-- `ufs_resize` of 3/userfs.c within the last block of a file.
use sysprog_exercises.Prelude.{ℕ, ◌-◌, ◌≤◌, ◌≡◌, ap, true, false, some, arith, get_elem?, leb, ltb}
use sysprog_exercises.Prelude.Int.{pos}
use sysprog_exercises.Userfs.Types.{Filedesc, File, Ufs, file_at, max_file_size, no_err}
use sysprog_exercises.Userfs.Table.{returns, set_error}
use sysprog_exercises.Userfs.Resize.{blocks_for, add_blocks}
use sysprog_exercises.Userfs.Api.{resize_file, ufs_resize}
use sysprog_exercises.Userfs.Valid.{IsValid}
use sysprog_exercises.Userfs.Safety.Slots.{find_slot-found, put_file_same}

-- In a state that is in order, a resize through an open descriptor to a size that takes as many blocks as
-- the file has succeeds and changes nothing but the error code, which it clears.
pub ufs_resize-same_blocks :
    (s : Ufs) (i new_size : ℕ) (d : Filedesc) (f : File)
    → IsValid s
    → get_elem? s.file_descriptors i ≡ some (some d)
    → file_at s d.file ≡ some f
    → new_size ≤ max_file_size
    → blocks_for new_size ≡ f.blocks_count
    → ufs_resize s (pos i) new_size ≡ returns (pos 0) (set_error s no_err)
unfolding ufs_resize resize_file add_blocks
ufs_resize-same_blocks s i new_size d f v slot live small same =
    let fits : leb f.blocks_count (blocks_for new_size) ≡ true = ground arith in
    let within : ltb max_file_size new_size ≡ false = ground arith in
    let zero_more : blocks_for new_size - f.blocks_count ≡ 0 = omega arith in
    rw (find_slot-found s i d v slot, within, live, ufs_resize)
      (rw (fits, zero_more, resize_file)
        (ap (λ h. returns (pos 0) (record s { heap = h; ufs_error_code = no_err }))
          (put_file_same s d.file f live)))
