-- ===== src/Userfs/Truncate/Moves.antt =====
-- `ufs_resize` of 3/userfs.c: where a cut puts a descriptor, and the blocks that growth adds.
use native.Mathlib.Decide.{dec_lt}
use sysprog_exercises.Prelude.{ℕ, zero, suc, ◌+◌, ◌-◌, ◌/◌, ◌≤◌, ◌<◌, ◌≡◌, refl, [], ◌∷◌, arith}
use sysprog_exercises.Userfs.Types.{block_size, max_file_size, File, Filedesc}
use sysprog_exercises.Userfs.Chain.{empty_block, add_block}
use sysprog_exercises.Userfs.Ahead.{CursorOk, unset, inside}
use sysprog_exercises.Userfs.Position.{SameFile}
use sysprog_exercises.Userfs.Write.{SameFile-trans}
use sysprog_exercises.Userfs.Write.Kept.{FileFits, Grows, Grows-refl, Grows-trans, Grows-append}
use sysprog_exercises.Userfs.Write.Safe.{FileFits-add_block}
use sysprog_exercises.Userfs.Resize.{add_blocks, pull_back}
use sysprog_exercises.Userfs.Truncate.{Cut, get_elem?-last, last_block-eq, SameFile-refl}

pub file-pull_back : (g : File) (d : Filedesc) → (pull_back g d).file ≡ d.file
unfolding pull_back
file-pull_back g d = ground arith

-- A descriptor that pointed into the file points into what a cut left of it.
module _ (f g : File) (new_size : ℕ) (k : Cut f new_size g) (d : Filedesc) where
  -- A descriptor whose block index is behind the end.
  pull_back-beyond : g.blocks_count < d.next_block_index → CursorOk g (pull_back g d)
  unfolding pull_back
  pull_back-beyond h =
      let e : g.blocks_count ≡ suc (g.blocks_count - 1) = omega (arith, k.remaining) in
      let (b, there, occ) =
        get_elem?-last g.block_list (g.blocks_count - 1) (omega (arith, k.fits.counted)) in
      inside (g.blocks_count - 1) b
        (ground
          (arith, last_block-eq g.block_list (g.blocks_count - 1) (omega (arith, k.fits.counted))))
        there (ground arith) (ground arith)

  -- One whose block index is not.
  pull_back-within : d.next_block_index ≤ g.blocks_count → CursorOk f d → CursorOk g (pull_back g d)
  unfolding pull_back
  pull_back-within h (unset cur z) = unset (ground arith) (ground arith)
  pull_back-within h (inside p b cur here off idx) = elim (dec_lt (p + 1) g.blocks_count) [
    | yes lt ↦ inside p b (ground arith) (k.same_below p b lt here) (ground arith) (ground arith)
    | no ge ↦
        let (c, there, occ) = get_elem?-last g.block_list p (omega (arith, k.fits.counted)) in
        inside p c (ground arith) there (ground arith) (ground arith)
  ]

  pub pull_back-CursorOk : CursorOk f d → CursorOk g (pull_back g d)
  pull_back-CursorOk ok = elim (dec_lt g.blocks_count d.next_block_index) [
    | yes h ↦ pull_back-beyond h
    | no h ↦ pull_back-within (omega arith) ok
  ]

-- Adding blocks.
pub add_blocks-Grows :
    (n : ℕ) (f : File)
    → FileFits f
    → f.blocks_count + n ≤ max_file_size / block_size
    → FileFits (add_blocks n f)
      × Grows f.block_list (add_blocks n f).block_list
      × SameFile f (add_blocks n f)
      × ((add_blocks n f).blocks_count ≡ f.blocks_count + n)
unfolding add_blocks
add_blocks-Grows zero f w h = (w, Grows-refl f.block_list, SameFile-refl f, omega arith)
add_blocks-Grows (suc n) f w h =
    let (fits, grows, same, count) =
      add_blocks-Grows n (add_block f) (FileFits-add_block f w (omega arith)) (omega arith) in
    let longer = (add_block f).block_list in
    (
      fits,
      Grows-trans f.block_list longer (add_blocks n (add_block f)).block_list
          (Grows-append f.block_list (empty_block ∷ [])) grows,
      SameFile-trans (record { same_refs = refl; same_name = refl; same_is_removed = refl }) same,
      omega (arith, count),
    )
