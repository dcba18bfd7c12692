-- ===== src/Userfs/Content/Write.antt =====
-- `ufs_write` of 3/userfs.c against the content of a dense file.
use native.Mathlib.Nat.{zero-add}
use sysprog_exercises.Prelude.{
  ℕ, ◌+◌, ◌*◌, ◌≤◌, ◌<◌, ◌≡◌, ◌≢◌, refl, ap, subst, ◌∙◌, sym, true, none, some, List, [], ◌∷◌, ◌++◌,
  arith, length, get_elem?, set, overwrite, get_elem?-set_ne, length-append,
}
use sysprog_exercises.Prelude.Int.{ℤ, pos}
use sysprog_exercises.Userfs.Types.{
  ErrorCode, block_size, max_file_size, Block, File, Filedesc, Ufs, heap_at, file_at, no_err,
  no_mem, ufs_read_write, ufs_write_only,
}
use sysprog_exercises.Userfs.Chain.{content}
use sysprog_exercises.Userfs.Transfer.{init_current_block, write_loop}
use sysprog_exercises.Userfs.Ahead.{CursorOk, unset, inside}
use sysprog_exercises.Userfs.Position.{IsDenseFile, StandsAt, at_end, at_block}
use sysprog_exercises.Userfs.Write.Loop.{
  Written, WriteResult, wrote, stopped, write_loop-WriteResult,
}
use sysprog_exercises.Userfs.Table.{
  Outcome, returns, failure, set_error, put_file, put_desc, permits,
}
use sysprog_exercises.Userfs.Api.{ufs_write, write_file}
use sysprog_exercises.Userfs.Valid.{IsValid, heap_at-put, heap_at-lt}
use sysprog_exercises.Userfs.Safety.Slots.{find_slot-found, cursor_of}
use sysprog_exercises.Userfs.Safety.Transfer.{rank-lt, file-init, permits-init}

-- The position of a descriptor in the content. Without a current block the next call starts at the
-- file's first byte.
abbrev pub position : Filedesc → ℕ
position d = elim d.current_block [ none ↦ 0 | some p ↦ p * block_size + d.offset ]

-- `init_current_block` puts the descriptor at its position.
pub StandsAt-init :
    (f : File) (d : Filedesc) → CursorOk f d → StandsAt f (init_current_block f d) (position d)
unfolding init_current_block
StandsAt-init f d (inside p b cur here off idx) =
    subst (λ c. StandsAt f c (position d)) {x = d} (ground arith)
      (at_block p b cur here off idx (ground arith))
StandsAt-init f d (unset cur z) = by_blocks f.block_list refl
  where
    by_blocks :
        (bs : List Block) → f.block_list ≡ bs → StandsAt f (init_current_block f d) (position d)
    by_blocks [] e =
        subst (λ c. StandsAt f c (position d)) {x = d} (ground arith)
          (at_end cur (rw e tt) (ground (arith, ap (λ l. length (content l)) e)))
    by_blocks (b ∷ bs) e =
        subst (λ c. StandsAt f c (position d))
          {x = record d { current_block = some 0; next_block_index = d.next_block_index + 1 }}
          (ground arith)
          (at_block 0 b refl (ap (λ l. get_elem? l 0) e) (omega arith) (omega arith) (ground arith))

-- What a write of `bytes` through the descriptor at `i` leaves.
pub record Wrote (s : Ufs) (i : ℕ) (d : Filedesc) (f : File) (bytes : List ℕ) (t : Ufs)
    : Type 0 where
  pub file : File
  pub live : file_at t d.file ≡ some file
  pub dense : IsDenseFile file
  pub image : content file.block_list ≡ overwrite (content f.block_list) (position d) bytes
  pub others : (b : ℕ) → d.file ≢ b → file_at t b ≡ file_at s b
  pub same_list : t.file_list ≡ s.file_list
  pub slots : (j : ℕ) → i ≢ j → get_elem? t.file_descriptors j ≡ get_elem? s.file_descriptors j

-- What the call comes to: all is written, or as much as there is room for, and the call fails.
pub data WriteOutcome (s : Ufs) (i : ℕ) (d : Filedesc) (f : File) (buf : List ℕ) (o : Outcome ℤ)
    : Type 0 where
  all_written :
      (t : Ufs)
      → o ≡ returns (pos (length buf)) t
      → t.ufs_error_code ≡ no_err
      → Wrote s i d f buf t
      → WriteOutcome s i d f buf o
  out_of_room :
      (t : Ufs) (bytes left : List ℕ)
      → o ≡ returns failure t
      → t.ufs_error_code ≡ no_mem
      → buf ≡ bytes ++ left
      → 0 < length left
      → max_file_size ≤ position d + length bytes
      → Wrote s i d f bytes t
      → WriteOutcome s i d f buf o

module _ (s : Ufs) (i : ℕ) (d : Filedesc) (f : File) (v : IsValid s)
    (slot : get_elem? s.file_descriptors i ≡ some (some d)) (live : file_at s d.file ≡ some f)
    (w : IsDenseFile f) (allowed : permits d ufs_read_write ufs_write_only ≡ true) where
  abbrev cursor : Filedesc
  cursor = init_current_block f d

  Wrote-put :
      (bytes : List ℕ) (g : File) (e : Filedesc) (c : ErrorCode)
      → Written f cursor (position d) bytes g e
      → Wrote s i d f bytes (set_error (put_desc (put_file s cursor.file g) i (some e)) c)
  Wrote-put bytes g e c r = record {
    file = g;
    live =
        ap (λ a. heap_at (set s.heap a (some g)) d.file) (file-init f d)
        ∙ heap_at-put s.heap d.file d.file (some g) (heap_at-lt s.heap d.file live)
        ∙ ground arith;
    dense = r.dense;
    image = r.image;
    others = λ b h.
        ap (λ a. heap_at (set s.heap a (some g)) b) (file-init f d)
        ∙ heap_at-put s.heap d.file b (some g) (heap_at-lt s.heap d.file live)
        ∙ ground arith;
    same_list = refl;
    slots = λ j h. get_elem?-set_ne s.file_descriptors i j (some e) h;
  }

  write_file-WriteOutcome : (buf : List ℕ) → WriteOutcome s i d f buf (write_file s i f cursor buf)
  unfolding write_file
  write_file-WriteOutcome buf = by_result (
      write_loop-WriteResult (length buf + length buf + 2) f cursor (position d) buf 0
        (omega (arith, rank-lt cursor)) w (StandsAt-init f d (cursor_of s i d f v slot live)))
    where
      by_result :
          WriteResult f cursor
            (position d)
            buf
            0
            (write_loop (length buf + length buf + 2) f cursor buf 0)
          → WriteOutcome s i d f buf (write_file s i f cursor buf)
      by_result (wrote g e eq r) =
          all_written _ (rw (eq, zero-add, write_file)) refl (Wrote-put buf g e no_err r)
      by_result (stopped g e bytes left eq split some_left big r) =
          out_of_room _ bytes left (rw (eq, write_file)) refl split some_left big
            (Wrote-put bytes g e no_mem r)

  ufs_write-eq : (buf : List ℕ) → ufs_write s (pos i) buf ≡ write_file s i f cursor buf
  unfolding ufs_write
  ufs_write-eq buf = rw (
    find_slot-found s i d v slot,
    live,
    permits-init f d ufs_read_write ufs_write_only,
    allowed,
    ufs_write,
  )

  -- In a state that is in order, a descriptor with the right to write is open on a dense file. A write
  -- through it returns. It overwrites the content from the descriptor's position on by all the bytes, sets
  -- no error and returns their number; or by a first part of them that reaches the largest file size, and
  -- returns -1 with the error for no memory. The file stays dense; the other files, the file list and
  -- the other descriptors stay as they are.
  pub ufs_write-WriteOutcome : (buf : List ℕ) → WriteOutcome s i d f buf (ufs_write s (pos i) buf)
  ufs_write-WriteOutcome buf =
      subst (WriteOutcome s i d f buf) (sym (ufs_write-eq buf)) (write_file-WriteOutcome buf)

  -- The same, where the bytes end within the largest file size: all of them are written.
  pub ufs_write-overwrite :
      (buf : List ℕ)
      → position d + length buf ≤ max_file_size
      → (t : Ufs) × (ufs_write s (pos i) buf ≡ returns (pos (length buf)) t)
        × (t.ufs_error_code ≡ no_err)
        × Wrote s i d f buf t
  ufs_write-overwrite buf room = by_outcome (ufs_write-WriteOutcome buf)
    where
      by_outcome :
          WriteOutcome s i d f buf (ufs_write s (pos i) buf)
          → (t : Ufs) × (ufs_write s (pos i) buf ≡ returns (pos (length buf)) t)
            × (t.ufs_error_code ≡ no_err)
            × Wrote s i d f buf t
      by_outcome (all_written t e clean r) = (t, e, clean, r)
      by_outcome (out_of_room t bytes left e err split some_left big r) =
          absurd (omega (arith, ap length split, length-append bytes left))
