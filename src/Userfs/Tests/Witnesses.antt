-- ===== src/Userfs/Tests/Witnesses.antt =====
-- The theorems on 3/userfs.c at the sample states.
use sysprog_exercises.Prelude.{ℕ, ◌≡◌, ◌↔◌, refl, true, some, [], ◌∷◌, arith, length, take, drop}
use sysprog_exercises.Prelude.Int.{pos}
use sysprog_exercises.Userfs.Types.{block_size, File, Ufs, heap_at, file_at, no_err}
use sysprog_exercises.Userfs.Chain.{content}
use sysprog_exercises.Userfs.Transfer.{init_current_block}
use sysprog_exercises.Userfs.Ahead.{ahead}
use sysprog_exercises.Userfs.Position.{IsDenseFile}
use sysprog_exercises.Userfs.Table.{permits, returns, fault, set_error}
use sysprog_exercises.Userfs.Resize.{blocks_for}
use sysprog_exercises.Userfs.Api.{
  ufs_write, ufs_read, ufs_close, ufs_delete, ufs_resize, ufs_destroy,
}
use sysprog_exercises.Userfs.Valid.{IsValid}
use sysprog_exercises.Userfs.Safety.Slots.{Ends}
use sysprog_exercises.Userfs.Safety.Transfer.{
  WriteReply, ReadReply, ufs_write-IsValid, ufs_read-IsValid,
}
use sysprog_exercises.Userfs.Safety.Names.{DeleteReply, ufs_delete-IsValid}
use sysprog_exercises.Userfs.Safety.Program.{write, perform, Reach-safe}
use sysprog_exercises.Userfs.Safety.Destroy.{ufs_destroy-leaks}
use sysprog_exercises.Userfs.Content.Write.{WriteOutcome, ufs_write-WriteOutcome}
use sysprog_exercises.Userfs.Content.Read.{ufs_read-ahead, ufs_read-drop}
use sysprog_exercises.Userfs.Content.RoundTrip.{pos-injective, ufs_read-ufs_write}
use sysprog_exercises.Userfs.Defects.Bounds.{capacity-fault}
use sysprog_exercises.Userfs.Defects.Shrink.{ufs_resize-same_blocks}
use sysprog_exercises.Userfs.Defects.Rewind.{ufs_read-rewinds}
use sysprog_exercises.Userfs.Tests.States.{
  opened_twice, opened_twice-IsValid, empty_file, desc_at, may_write, may_read, page, full_file,
  full_desc, filled, filled-Reach, filled-IsValid,
}

Reach-safe_example :
    IsValid filled × Ends (λ r t. IsValid t) (perform filled (write (pos 1) (1 ∷ 2 ∷ [])))
Reach-safe_example =
    Reach-safe filled-Reach (write (pos 1) (1 ∷ 2 ∷ []))
      (λ e. absurd (omega (arith, pos-injective e)))

empty-IsDenseFile : IsDenseFile empty_file
empty-IsDenseFile = record { dense = tt; counted = refl }

ufs_read-ufs_write_example :
    (t : Ufs) × (u : Ufs) × (ufs_write opened_twice (pos 0) (5 ∷ 6 ∷ []) ≡ returns (pos 2) t)
    × (ufs_read t (pos 1) 2 ≡ returns (pos 2, 5 ∷ 6 ∷ []) u)
unfolding heap_at
ufs_read-ufs_write_example =
    ufs_read-ufs_write opened_twice 0 1 (desc_at 0) (desc_at 1) empty_file (5 ∷ 6 ∷ [])
      opened_twice-IsValid refl refl (omega arith) refl refl empty-IsDenseFile may_write
      (may_read 1) refl (omega arith)

ufs_write-WriteOutcome_example :
    WriteOutcome opened_twice 0 (desc_at 0) empty_file page (ufs_write opened_twice (pos 0) page)
unfolding heap_at
ufs_write-WriteOutcome_example =
    ufs_write-WriteOutcome opened_twice 0 (desc_at 0) empty_file opened_twice-IsValid refl refl
      empty-IsDenseFile may_write page

ufs_read-ahead_example :
    let bytes = take 3 (ahead full_file (init_current_block full_file (desc_at 1))) in
    (t : Ufs) × (ufs_read filled (pos 1) 3 ≡ returns (pos (length bytes), bytes) t)
    × (t.ufs_error_code ≡ no_err)
    × (t.heap ≡ filled.heap)
    × (t.file_list ≡ filled.file_list)
unfolding heap_at
ufs_read-ahead_example =
    ufs_read-ahead filled 1 (desc_at 1) full_file filled-IsValid refl refl (may_read 1) 3

ufs_read-drop_example :
    let bytes = take 3 (drop 0 (content full_file.block_list)) in
    (t : Ufs) × (ufs_read filled (pos 1) 3 ≡ returns (pos (length bytes), bytes) t)
    × (t.ufs_error_code ≡ no_err)
    × (t.heap ≡ filled.heap)
    × (t.file_list ≡ filled.file_list)
unfolding heap_at
ufs_read-drop_example =
    ufs_read-drop filled 1 (desc_at 1) full_file filled-IsValid refl refl (may_read 1) 3
      (refl, omega arith)

ufs_write-IsValid_example : Ends (WriteReply page) (ufs_write filled (pos 0) page)
ufs_write-IsValid_example =
    ufs_write-IsValid filled (pos 0) filled-IsValid (λ e. absurd (omega (arith, pos-injective e)))
      page

ufs_read-IsValid_example : Ends (ReadReply 9) (ufs_read filled (pos 1) 9)
ufs_read-IsValid_example =
    ufs_read-IsValid filled (pos 1) filled-IsValid (λ e. absurd (omega (arith, pos-injective e))) 9

ufs_delete-IsValid_example : Ends (DeleteReply filled "a") (ufs_delete filled "a")
ufs_delete-IsValid_example = ufs_delete-IsValid filled "a" filled-IsValid

ufs_destroy-leaks_example :
    (t : Ufs) × (ufs_destroy filled ≡ some t)
    × (t.file_descriptors ≡ [])
    × ((a : ℕ) (f : File)
        → (file_at t a ≡ some f) ↔ ((file_at filled a ≡ some f) × (f.is_removed ≡ true)))
ufs_destroy-leaks_example = ufs_destroy-leaks filled filled-IsValid

capacity-fault_example :
    (ufs_write opened_twice (pos opened_twice.file_descriptor_capacity) page ≡ fault)
    × (ufs_read opened_twice (pos opened_twice.file_descriptor_capacity) 1 ≡ fault)
    × (ufs_close opened_twice (pos opened_twice.file_descriptor_capacity) ≡ fault)
    × (ufs_resize opened_twice (pos opened_twice.file_descriptor_capacity) 1 ≡ fault)
capacity-fault_example = capacity-fault opened_twice page 1 opened_twice-IsValid

one_block : blocks_for 100 ≡ 1
unfolding blocks_for
one_block = refl

ufs_resize-same_blocks_example :
    ufs_resize filled (pos 0) 100 ≡ returns (pos 0) (set_error filled no_err)
unfolding heap_at
ufs_resize-same_blocks_example =
    ufs_resize-same_blocks filled 0 100 full_desc full_file filled-IsValid refl refl (omega arith)
      one_block

ufs_read-rewinds_example :
    (t : Ufs) × (u : Ufs) × (ufs_read filled (pos 0) 3 ≡ returns (pos 0, []) t)
    × (let bytes = take 3 (content full_file.block_list) in
        ufs_read t (pos 0) 3 ≡ returns (pos (length bytes), bytes) u)
unfolding heap_at permits
ufs_read-rewinds_example =
    ufs_read-rewinds filled 0 3 0 full_desc full_file
      (record { memory = page; occupied = block_size }) filled-IsValid refl refl (may_read 0)
      (refl, omega arith) refl refl refl refl (omega arith)
