-- ===== src/Userfs/Content/Read.antt =====
-- `ufs_read` of 3/userfs.c against the content of a dense file.
use sysprog_exercises.Prelude.{
  ℕ, ◌+◌, ◌≡◌, refl, ap, subst, ◌∙◌, true, some, List, [], ◌∷◌, arith, length, get_elem?, take,
  drop,
}
use sysprog_exercises.Prelude.Int.{pos}
use sysprog_exercises.Userfs.Types.{
  Block, File, Filedesc, Ufs, file_at, no_err, ufs_read_write, ufs_read_only,
}
use sysprog_exercises.Userfs.Chain.{content, readable, IsDense}
use sysprog_exercises.Userfs.Transfer.{init_current_block}
use sysprog_exercises.Userfs.Ahead.{CursorOk, unset, inside, ahead, ahead_from}
use sysprog_exercises.Userfs.Read.{read_loop-ReadResult}
use sysprog_exercises.Userfs.Dense.{readable-content}
use sysprog_exercises.Userfs.Table.{returns, permits, set_error, put_desc}
use sysprog_exercises.Userfs.Api.{ufs_read, read_file}
use sysprog_exercises.Userfs.Valid.{IsValid}
use sysprog_exercises.Userfs.Safety.Slots.{find_slot-found, cursor_of}
use sysprog_exercises.Userfs.Safety.Transfer.{rank-lt, init-Kept, permits-init}
use sysprog_exercises.Userfs.Content.Write.{position}

-- For a dense file what lies in front of the descriptor is the content behind its position.
pub ahead-init :
    (f : File) (d : Filedesc)
    → IsDense f.block_list
    → CursorOk f d
    → ahead f (init_current_block f d) ≡ drop (position d) (content f.block_list)
unfolding init_current_block
ahead-init f d w (inside p b cur here off idx) =
    ap (λ c. ahead f c) {x = init_current_block f d} {y = d} (ground arith)
    ∙ ap (λ c. ahead_from f.block_list c d.offset) cur
    ∙ readable-content f.block_list p d.offset b w here off
    ∙ ap (λ n. drop n (content f.block_list)) {y = position d} (ground arith)
ahead-init f d w (unset cur z) =
    by_blocks f.block_list refl
    ∙ ap (λ n. drop n (content f.block_list)) {x = 0} {y = position d} (ground arith)
  where
    by_blocks :
        (bs : List Block)
        → f.block_list ≡ bs
        → ahead f (init_current_block f d) ≡ content f.block_list
    by_blocks [] e = ground arith
    by_blocks (b ∷ bs) e =
        ap (λ c. ahead f c) {x = init_current_block f d}
          {y = record d { current_block = some 0; next_block_index = d.next_block_index + 1 }}
          (ground arith)
        ∙ ap (readable f.block_list) z
        ∙ readable-content f.block_list 0 0 b w (ap (λ l. get_elem? l 0) e) (omega arith)

module _ (s : Ufs) (i : ℕ) (d : Filedesc) (f : File) (v : IsValid s)
    (slot : get_elem? s.file_descriptors i ≡ some (some d)) (live : file_at s d.file ≡ some f)
    (allowed : permits d ufs_read_write ufs_read_only ≡ true) where
  -- In a state that is in order, a read through a descriptor with the right to read returns, without an
  -- error, what lies ahead of the descriptor, up to the first block that is not full and to the size asked
  -- for. It changes no file.
  pub ufs_read-ahead :
      (size : ℕ)
      → let bytes = take size (ahead f (init_current_block f d)) in
        (t : Ufs) × (ufs_read s (pos i) size ≡ returns (pos (length bytes), bytes) t)
        × (t.ufs_error_code ≡ no_err)
        × (t.heap ≡ s.heap)
        × (t.file_list ≡ s.file_list)
  unfolding ufs_read read_file
  ufs_read-ahead size =
      let k = init-Kept f d (v.files d.file f live).fits (cursor_of s i d f v slot live) in
      let c = init_current_block f d in
      let r =
        read_loop-ReadResult f k.fits.sized (size + size + 2) c size [] (omega (arith, rank-lt c))
          k.cursor in
      (
        set_error (put_desc s i (some r.desc)) no_err,
        rw (
          find_slot-found s i d v slot,
          live,
          permits-init f d ufs_read_write ufs_read_only,
          allowed,
          r.result,
          ufs_read,
          read_file,
        ),
        refl,
        refl,
        refl,
      )

  -- In a state that is in order, a read through a descriptor with the right to read on a dense file returns,
  -- without an error, the file's content from the descriptor's position on, up to the size asked for. It
  -- changes no file.
  pub ufs_read-drop :
      (size : ℕ)
      → IsDense f.block_list
      → let bytes = take size (drop (position d) (content f.block_list)) in
        (t : Ufs) × (ufs_read s (pos i) size ≡ returns (pos (length bytes), bytes) t)
        × (t.ufs_error_code ≡ no_err)
        × (t.heap ≡ s.heap)
        × (t.file_list ≡ s.file_list)
  ufs_read-drop size w =
      subst
        (λ c.
          let bytes = take size c in
          (t : Ufs) × (ufs_read s (pos i) size ≡ returns (pos (length bytes), bytes) t)
          × (t.ufs_error_code ≡ no_err)
          × (t.heap ≡ s.heap)
          × (t.file_list ≡ s.file_list))
        (ahead-init f d w (cursor_of s i d f v slot live)) (ufs_read-ahead size)
