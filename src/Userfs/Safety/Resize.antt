-- ===== src/Userfs/Safety/Resize.antt =====
-- `ufs_resize` of 3/userfs.c on a state in order.
use mathlib.Core.List.{append_assoc, append-nil}
use sysprog_exercises.Userfs.Chain.{add_block, empty_block}
use sysprog_exercises.Prelude.{
  ℕ, zero, suc, [], ◌∷◌, ◌++◌, replicate, ◌-◌, ◌/◌, ◌≤◌, ◌<◌, ◌≡◌, ◌≢◌, refl, subst, ◌∙◌, sym, ◌⊎◌,
  inl, inr, Option, some, List, arith, get_elem?, Bool-cases, set, set_same, eq_of_some, ltb, leb,
}
use sysprog_exercises.Prelude.Int.{ℤ, pos}
use sysprog_exercises.Userfs.Types.{
  File, Filedesc, Ufs, file_at, block_size, max_file_size, no_err, no_file, no_mem,
}
use sysprog_exercises.Userfs.Ahead.{CursorOk}
use sysprog_exercises.Userfs.Write.Kept.{Kept, Grows, CursorOk-Grows}
use sysprog_exercises.Userfs.Table.{Slot, failure, set_error, put_file, find_slot}
use sysprog_exercises.Userfs.Resize.{blocks_for, add_blocks}
use sysprog_exercises.Userfs.Truncate.{Cut, truncate-Cut}
use sysprog_exercises.Userfs.Truncate.Moves.{add_blocks-Grows}
use sysprog_exercises.Userfs.Api.{resize_file, ufs_resize}
use sysprog_exercises.Userfs.Valid.{IsValid, heap_at-put, heap_at-lt}
use sysprog_exercises.Userfs.Valid.Update.{IsValid-update}
use sysprog_exercises.Userfs.Valid.Resize.{IsValid-cut}
use sysprog_exercises.Userfs.Safety.Slots.{
  Ends, ends, SlotCase, closed, open_at, find_slot-SlotCase, IsValid-set_error, NotOpen,
  missing-NotOpen,
}

blocks_for-le : (n : ℕ) → n ≤ max_file_size → blocks_for n ≤ max_file_size / block_size
unfolding blocks_for
blocks_for-le n h = ground arith

add_blocks_list :
    (n : ℕ) (f : File) → (add_blocks n f).block_list ≡ f.block_list ++ replicate n empty_block
unfolding add_blocks add_block
add_blocks_list zero f = sym (append-nil f.block_list)
add_blocks_list (suc n) f =
    add_blocks_list n (add_block f)
    ∙ append_assoc f.block_list (empty_block ∷ []) (replicate n empty_block)

-- What a resize does to the file: empty blocks behind its own, or a cut.
pub data NewSize (f : File) (new_size : ℕ) (g : File) : Type 0 where
  longer :
      f.blocks_count ≤ blocks_for new_size
      → g.blocks_count ≡ blocks_for new_size
      → g.block_list ≡ f.block_list ++ replicate (blocks_for new_size - f.blocks_count) empty_block
      → NewSize f new_size g
  shorter : blocks_for new_size < f.blocks_count → Cut f new_size g → NewSize f new_size g

-- The file of an open descriptor has the new size, and no other file changes.
pub record Resized (s : Ufs) (fd : ℤ) (new_size : ℕ) (t : Ufs) : Type 0 where
  pub place : ℕ
  pub desc : Filedesc
  pub before : File
  pub now : File
  pub argument : fd ≡ pos place
  pub slot : get_elem? s.file_descriptors place ≡ some (some desc)
  pub live : file_at s desc.file ≡ some before
  pub changed : file_at t desc.file ≡ some now
  pub size : NewSize before new_size now
  pub others : (b : ℕ) → desc.file ≢ b → file_at t b ≡ file_at s b

-- The argument is an open descriptor.
abbrev pub IsOpen : Ufs → ℤ → Type 0
IsOpen s fd =
    (i : ℕ) × (d : Filedesc) × (fd ≡ pos i) × (get_elem? s.file_descriptors i ≡ some (some d))

abbrev pub ResizeReply : Ufs → ℤ → ℕ → ℤ → Ufs → Type 0
ResizeReply s fd new_size r t =
    IsValid t
    × ((r ≡ pos 0) × (t.ufs_error_code ≡ no_err) × Resized s fd new_size t
        ⊎ (r ≡ failure)
          × ((t ≡ set_error s no_file) × NotOpen s fd
              ⊎ (t ≡ set_error s no_mem) × (max_file_size < new_size) × IsOpen s fd))

module _ (s : Ufs) (i new_size : ℕ) (d : Filedesc) (f : File) (v : IsValid s)
    (slot : get_elem? s.file_descriptors i ≡ some (some d)) (live : file_at s d.file ≡ some f) where
  resized :
      (g : File) (ds : List (Option Filedesc))
      → NewSize f new_size g
      → Resized s (pos i) new_size (record s {
        heap = set s.heap d.file (some g);
        file_descriptors = ds;
        ufs_error_code = no_err;
      })
  resized g ds size = record {
    place = i;
    desc = d;
    before = f;
    now = g;
    argument = refl;
    slot = slot;
    live = live;
    changed =
        heap_at-put s.heap d.file d.file (some g) (heap_at-lt s.heap d.file live) ∙ ground arith;
    size = size;
    others =
        λ b h. heap_at-put s.heap d.file b (some g) (heap_at-lt s.heap d.file live) ∙ ground arith;
  }

  IsValid-longer : (g : File) → Kept f d g d → IsValid (put_file s d.file g)
  IsValid-longer g k =
      subst (λ ds. IsValid (record (put_file s d.file g) { file_descriptors = ds }))
        (set_same s.file_descriptors i slot) (IsValid-update s i d d f g v slot live k)

  resize_file-Ends :
      new_size ≤ max_file_size
      → Ends (ResizeReply s (pos i) new_size) (resize_file s d.file f new_size)
  unfolding resize_file
  resize_file-Ends small =
      let w = (v.files d.file f live).fits in
      elim (Bool-cases (leb f.blocks_count (blocks_for new_size))) [
        | inl e ↦
            let le : f.blocks_count ≤ blocks_for new_size = ground arith in
            let (fits, grows, same, count) =
              add_blocks-Grows (blocks_for new_size - f.blocks_count) f w
                (omega (arith, blocks_for-le new_size small)) in
            let g = add_blocks (blocks_for new_size - f.blocks_count) f in
            rw e (
              ends (
                IsValid-set_error _ no_err (
                    IsValid-longer g (record {
                      fits = fits;
                      grows = grows;
                      cursor = cursor_of g grows;
                      same_file = same;
                      same_owner = record {
                        same_file = refl;
                        same_permissions = refl;
                        same_fd = refl;
                      };
                    })),
                inl (
                  refl,
                  refl,
                  resized g s.file_descriptors (
                      longer le (omega arith)
                        (add_blocks_list (blocks_for new_size - f.blocks_count) f)),
                ),
              ))
        | inr e ↦
            let lt : blocks_for new_size < f.blocks_count = ground arith in
            let (g, cut, k) = truncate-Cut f new_size w lt in
            rw (e, cut)
              (ends (
                IsValid-set_error _ no_err (IsValid-cut s d.file new_size f g v live k),
                inl (refl, refl, resized g _ (shorter lt k)),
              ))
      ]
    where
      cursor_of : (g : File) → Grows f.block_list g.block_list → CursorOk g d
      cursor_of g grows =
          let ok = v.descs i d slot in
          CursorOk-Grows grows
            (subst (λ t. CursorOk t d) (eq_of_some (sym ok.live ∙ live)) ok.cursor)

pub ufs_resize-IsValid :
    (s : Ufs) (fd : ℤ) (new_size : ℕ)
    → IsValid s
    → fd ≢ pos s.file_descriptor_capacity
    → Ends (ResizeReply s fd new_size) (ufs_resize s fd new_size)
unfolding ufs_resize
ufs_resize-IsValid s fd new_size v safe =
    split (find_slot s fd) refl (find_slot-SlotCase s fd v safe)
  where
    split :
        (c : Slot)
        → find_slot s fd ≡ c
        → SlotCase s fd c
        → Ends (ResizeReply s fd new_size) (ufs_resize s fd new_size)
    split c e closed =
        rw (e, ufs_resize)
          (ends (IsValid-set_error s no_file v, inr (refl, inl (refl, missing-NotOpen s fd v e))))
    split c e (open_at {i} {d} arg slot) =
        let ok = v.descs i d slot in
        rw (e, ok.live, ufs_resize)
          (elim (Bool-cases (ltb max_file_size new_size)) [
            | inl big ↦ rw big (
                ends (
                  IsValid-set_error s no_mem v,
                  inr (refl, inr (refl, ground arith, (i, d, arg, slot))),
                ))
            | inr small ↦
                rw (small, arg)
                  (resize_file-Ends s i new_size d ok.target v slot ok.live (ground arith))
          ])
