-- ===== src/Userfs/Safety/Transfer.antt =====
-- `ufs_write` and `ufs_read` of 3/userfs.c on a state in order.
use sysprog_exercises.Prelude.{
  ℕ, ◌+◌, ◌≤◌, ◌<◌, ◌≡◌, ◌≢◌, refl, ap, subst, sym, ◌⊎◌, inl, inr, Option, none, some, List, [],
  ◌∷◌, arith, length, get_elem?, Bool-cases, length-take-le,
}
use sysprog_exercises.Prelude.Int.{ℤ, pos}
use sysprog_exercises.Userfs.Types.{
  Block, File, Filedesc, Ufs, file_at, no_err, no_file, no_mem, no_permission, ufs_read_write,
  ufs_read_only, ufs_write_only,
}
use sysprog_exercises.Userfs.Transfer.{init_current_block, WriteState, go, full}
use sysprog_exercises.Userfs.Ahead.{CursorOk, unset, inside, ahead, rank}
use sysprog_exercises.Userfs.Read.{read_loop-ReadResult}
use sysprog_exercises.Userfs.Write.Kept.{FileFits, Kept, Kept-trans, Grows-refl}
use sysprog_exercises.Userfs.Write.Safe.{SafeResult, wrote, stopped, write_loop-SafeResult}
use sysprog_exercises.Userfs.Table.{Slot, failure, put_file, put_desc, find_slot, permits}
use sysprog_exercises.Userfs.Api.{ufs_write, write_file, ufs_read, read_file}
use sysprog_exercises.Userfs.Valid.{IsValid}
use sysprog_exercises.Userfs.Valid.Update.{IsValid-update}
use sysprog_exercises.Userfs.Safety.Slots.{
  Ends, ends, SlotCase, closed, open_at, find_slot-SlotCase, IsValid-set_error, IsValid-desc,
}

-- `init_current_block` gives a descriptor without a block the first one.
pub init-Kept :
    (f : File) (d : Filedesc) → FileFits f → CursorOk f d → Kept f d f (init_current_block f d)
unfolding init_current_block
init-Kept f d w ok = record {
  fits = w;
  grows = Grows-refl f.block_list;
  cursor = cursor ok;
  same_file = record { same_refs = refl; same_name = refl; same_is_removed = refl };
  same_owner = record {
    same_file = ground arith;
    same_permissions = ground arith;
    same_fd = ground arith;
  };
}
  where
    first :
        (bs : List Block)
        → f.block_list ≡ bs
        → d.current_block ≡ none
        → d.offset ≡ 0
        → CursorOk f (init_current_block f d)
    first [] e cur z = subst (CursorOk f) {x = d} (ground arith) (unset cur z)
    first (b ∷ bs) e cur z =
        subst (CursorOk f)
          {x = record d { current_block = some 0; next_block_index = d.next_block_index + 1 }}
          (ground arith) (inside 0 b refl (ap (λ l. get_elem? l 0) e) (omega arith) (omega arith))

    cursor : CursorOk f d → CursorOk f (init_current_block f d)
    cursor (unset cur z) = first f.block_list refl cur z
    cursor (inside p b cur here off idx) =
        subst (CursorOk f) {x = d} (ground arith) (inside p b cur here off idx)

-- A read hands over a prefix of what it was asked for and no error, or fails with one.
abbrev pub ReadReply : ℕ → ℤ × List ℕ → Ufs → Type 0
ReadReply size (r, bytes) t =
    IsValid t
    × ((r ≡ pos (length bytes)) × (length bytes ≤ size) × (t.ufs_error_code ≡ no_err)
        ⊎ (r ≡ failure) × (bytes ≡ []) × (t.ufs_error_code ≢ no_err))

-- A write returns with all bytes counted and no error, or fails with one.
abbrev pub WriteReply : List ℕ → ℤ → Ufs → Type 0
WriteReply buf r t =
    IsValid t
    × ((r ≡ pos (length buf)) × (t.ufs_error_code ≡ no_err)
        ⊎ (r ≡ failure) × (t.ufs_error_code ≢ no_err))

pub rank-lt : (d : Filedesc) → rank d < 2
rank-lt d = ground arith

-- The two ends of the write loop, by equations.
loop_ends :
    {f : File} {d : Filedesc} {n : ℕ} {r : Option WriteState}
    → SafeResult f d n r
    → ((g : File) × (e : Filedesc) × (r ≡ some (go g e [] n)) × Kept f d g e)
      ⊎ ((g : File) × (e : Filedesc) × (r ≡ some (full g e)) × Kept f d g e)
loop_ends (wrote {g} {e} k) = inl (g, e, refl, k)
loop_ends (stopped {g} {e} k) = inr (g, e, refl, k)

module _ (s : Ufs) (i : ℕ) (d c : Filedesc) (f : File) (v : IsValid s)
    (slot : get_elem? s.file_descriptors i ≡ some (some d)) (live : file_at s d.file ≡ some f)
    (k : Kept f d f c) where
  IsValid-stored :
      (g : File) (e : Filedesc) → Kept f c g e → IsValid (put_desc (put_file s c.file g) i (some e))
  IsValid-stored g e l =
      subst (λ a. IsValid (put_desc (put_file s a g) i (some e))) (sym k.same_owner.same_file)
        (IsValid-update s i d e f g v slot live (Kept-trans k l))

  write_file-Ends : (buf : List ℕ) → Ends (WriteReply buf) (write_file s i f c buf)
  unfolding write_file
  write_file-Ends buf =
      elim (loop_ends (
        write_loop-SafeResult (length buf + length buf + 2) f c buf 0 (omega (arith, rank-lt c))
          k.fits k.cursor)) [
            | inl (g, e, r, l) ↦
                rw (r, write_file)
                  (ends (
                    IsValid-set_error _ no_err (IsValid-stored g e l),
                    inl (ap pos (omega arith), refl),
                  ))
            | inr (g, e, r, l) ↦
                rw (r, write_file)
                  (ends (IsValid-set_error _ no_mem (IsValid-stored g e l), inr (refl, λ x. cc)))
          ]

  read_file-Ends : (size : ℕ) → Ends (ReadReply size) (read_file s i f c size)
  unfolding read_file
  read_file-Ends size =
      let done_reading =
        read_loop-ReadResult f k.fits.sized (size + size + 2) c size [] (omega (arith, rank-lt c))
          k.cursor in
      rw (done_reading.result, read_file)
        (ends (
          IsValid-set_error _ no_err (
              IsValid-desc s i d done_reading.desc f v slot live (
                Kept-trans k (record {
                  fits = k.fits;
                  grows = Grows-refl f.block_list;
                  cursor = done_reading.good;
                  same_file = record { same_refs = refl; same_name = refl; same_is_removed = refl };
                  same_owner = done_reading.same;
                }))),
          inl (refl, length-take-le size (ahead f c), refl),
        ))

module _ (s : Ufs) (fd : ℤ) (v : IsValid s) (safe : fd ≢ pos s.file_descriptor_capacity) where
  -- In a state that is in order, `ufs_write` with any argument but the table's capacity returns: it writes
  -- all bytes and sets no error, or returns -1 and sets one. The state stays in order.
  pub ufs_write-IsValid : (buf : List ℕ) → Ends (WriteReply buf) (ufs_write s fd buf)
  unfolding ufs_write
  ufs_write-IsValid buf = split (find_slot s fd) refl (find_slot-SlotCase s fd v safe)
    where
      split :
          (c : Slot)
          → find_slot s fd ≡ c
          → SlotCase s fd c
          → Ends (WriteReply buf) (ufs_write s fd buf)
      split c e closed =
          rw (e, ufs_write) (ends (IsValid-set_error s no_file v, inr (refl, λ x. cc)))
      split c e (open_at {i} {d} arg slot) =
          let ok = v.descs i d slot in
          let f = ok.target in
          let k = init-Kept f d (v.files d.file f ok.live).fits ok.cursor in
          let c = init_current_block f d in
          rw (e, ok.live, ufs_write)
            (elim (Bool-cases (permits c ufs_read_write ufs_write_only)) [
              | inl p ↦ rw p (write_file-Ends s i d c f v slot ok.live k buf)
              | inr p ↦ rw p (
                  ends (
                    IsValid-set_error _ no_permission (IsValid-desc s i d c f v slot ok.live k),
                    inr (refl, λ x. cc),
                  ))
            ])

  -- In a state that is in order, `ufs_read` with any argument but the table's capacity returns: at most
  -- as many bytes as asked for and no error, or -1, no bytes and an error. The state stays in order.
  pub ufs_read-IsValid : (size : ℕ) → Ends (ReadReply size) (ufs_read s fd size)
  unfolding ufs_read
  ufs_read-IsValid size = split (find_slot s fd) refl (find_slot-SlotCase s fd v safe)
    where
      split :
          (c : Slot)
          → find_slot s fd ≡ c
          → SlotCase s fd c
          → Ends (ReadReply size) (ufs_read s fd size)
      split c e closed =
          rw (e, ufs_read) (ends (IsValid-set_error s no_file v, inr (refl, refl, λ x. cc)))
      split c e (open_at {i} {d} arg slot) =
          let ok = v.descs i d slot in
          let f = ok.target in
          let k = init-Kept f d (v.files d.file f ok.live).fits ok.cursor in
          let c = init_current_block f d in
          rw (e, ok.live, ufs_read)
            (elim (Bool-cases (permits c ufs_read_write ufs_read_only)) [
              | inl p ↦ rw p (read_file-Ends s i d c f v slot ok.live k size)
              | inr p ↦ rw p (
                  ends (
                    IsValid-set_error _ no_permission (IsValid-desc s i d c f v slot ok.live k),
                    inr (refl, refl, λ x. cc),
                  ))
            ])

pub file-init : (f : File) (d : Filedesc) → (init_current_block f d).file ≡ d.file
unfolding init_current_block
file-init f d = ground arith

pub permits-init :
    (f : File) (d : Filedesc) (p q : ℕ) → permits (init_current_block f d) p q ≡ permits d p q
unfolding init_current_block permits
permits-init f d p q = ground arith
