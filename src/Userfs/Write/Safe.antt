-- ===== src/Userfs/Write/Safe.antt =====
-- The loop of `ufs_write` in 3/userfs.c on any file, with gaps or without: it follows no dangling
-- pointer, ends, and leaves the file and every descriptor on it in order.
use native.Mathlib.Decide.{dec_lt}
use sysprog_exercises.Prelude.{
  ℕ, zero, suc, ◌+◌, ◌/◌, ◌≤◌, ◌<◌, ◌≡◌, refl, subst, Option, some, List, [], ◌∷◌, arith, length,
  get_elem?, take, drop, length-append, length-take_of_le, length-set, length-drop,
  length-overwrite, get_elem?-lt, get_elem?-set_self, get_elem?-append_end,
}
use sysprog_exercises.Userfs.Types.{block_size, max_file_size, Block, File, Filedesc}
use sysprog_exercises.Userfs.Chain.{empty_block, add_block}
use sysprog_exercises.Userfs.Transfer.{
  write_size, advance, store_bytes, fill_block, WriteState, go, full, after_write, write_round,
  write_loop,
}
use sysprog_exercises.Userfs.Ahead.{
  CursorOk, unset, inside, rank, CursorOk-advance, get_elem?-AllSized,
}
use sysprog_exercises.Userfs.Dense.{stored}
use sysprog_exercises.Userfs.Position.{SameOwner-advance, rank-advance, write_size_bounds}
use sysprog_exercises.Userfs.Write.{behind, write_round-grow}
use sysprog_exercises.Userfs.Write.Kept.{
  FileFits, Grows-refl, Grows-append, AllSized-append_empty, AllSized-set, Grows-set, Kept,
  Kept-trans,
}

-- A round goes on with less to do, or stops with the file at its limit.
pub data SafeRound (f : File) (d : Filedesc) (buf : List ℕ) (written : ℕ)
    : WriteState → Type 0 where
  onward :
      {g : File} {e : Filedesc} {left : List ℕ} {n : ℕ}
      → Kept f d g e
      → n + length left ≡ written + length buf
      → length left + length left + rank e < length buf + length buf + rank d
      → SafeRound f d buf written (go g e left n)
  no_room : {g : File} {e : Filedesc} → Kept f d g e → SafeRound f d buf written (full g e)

module _ (f : File) (d : Filedesc) (buf : List ℕ) (written : ℕ) (p : ℕ) (b : Block) (w : FileFits f)
    (pos : 0 < length buf) (cur : d.current_block ≡ some p)
    (here : get_elem? f.block_list p ≡ some b) (off : d.offset ≤ b.occupied)
    (idx : p < d.next_block_index) where
  abbrev size : ℕ
  size = write_size d.offset (length buf)

  safe-end : block_size ≤ d.offset → SafeRound f d buf written (go f (advance f p d) buf written)
  safe-end h =
      onward
        (record {
          fits = w;
          grows = Grows-refl f.block_list;
          cursor = CursorOk-advance f d p b here idx;
          same_file = record { same_refs = refl; same_name = refl; same_is_removed = refl };
          same_owner = SameOwner-advance f p d;
        })
        refl (omega (arith, rank-advance f p d h))

  safe-store :
      d.offset < block_size
      → SafeRound f d buf written (
          go
            (store_bytes f p b d.offset (take size buf))
            (record d { offset = d.offset + size })
            (drop size buf)
            (written + size))
  unfolding store_bytes
  safe-store h =
      let (more, le, fits) = write_size_bounds d.offset (length buf) h pos in
      let chunk = take size buf in
      let c = stored b d.offset chunk in
      let len : length chunk ≡ size = length-take_of_le size buf le in
      let (mem, occ) = get_elem?-AllSized f.block_list p w.sized here in
      onward
        (record {
          fits = record {
            sized =
                AllSized-set f.block_list p c w.sized
                  (omega (arith, length-overwrite b.memory d.offset chunk)) (ground arith);
            counted = omega (arith, w.counted, length-set f.block_list p c);
            bounded = w.bounded;
          };
          grows = Grows-set f.block_list p b c here (ground arith);
          cursor =
              inside p c cur
                (get_elem?-set_self f.block_list p c (get_elem?-lt f.block_list p here))
                (ground arith) idx;
          same_file = record { same_refs = refl; same_name = refl; same_is_removed = refl };
          same_owner = record { same_file = refl; same_permissions = refl; same_fd = refl };
        })
        (omega (arith, length-drop size buf)) (ground (arith, length-drop size buf))

  fill_block-SafeRound : SafeRound f d buf written (fill_block f d p buf written)
  unfolding fill_block
  fill_block-SafeRound = elim (dec_lt d.offset block_size) [
    | no h ↦
        subst (SafeRound f d buf written) {x = go f (advance f p d) buf written} (ground arith)
          (safe-end (omega arith))
    | yes h ↦
        subst (SafeRound f d buf written)
          {x = go (store_bytes f p b d.offset (take size buf))
            (record d { offset = d.offset + size }) (drop size buf) (written + size)}
          (ground arith) (safe-store h)
  ]

SafeRound-widen :
    {f g : File} {d e : Filedesc} {buf : List ℕ} {written : ℕ} {r : WriteState}
    → Kept f d g e
    → rank e ≤ rank d
    → SafeRound g e buf written r
    → SafeRound f d buf written r
SafeRound-widen k le (onward l cnt falls) = onward (Kept-trans k l) cnt (omega arith)
SafeRound-widen k le (no_room l) = no_room (Kept-trans k l)

pub Kept-refl : {f : File} {d : Filedesc} → FileFits f → CursorOk f d → Kept f d f d
Kept-refl {f} w ok = record {
  fits = w;
  grows = Grows-refl f.block_list;
  cursor = ok;
  same_file = record { same_refs = refl; same_name = refl; same_is_removed = refl };
  same_owner = record { same_file = refl; same_permissions = refl; same_fd = refl };
}

-- One more block keeps a file in order.
pub FileFits-add_block :
    (f : File) → FileFits f → f.blocks_count < max_file_size / block_size → FileFits (add_block f)
unfolding add_block
FileFits-add_block f w h = record {
  sized = AllSized-append_empty f.block_list w.sized;
  counted = omega (arith, w.counted, length-append f.block_list (empty_block ∷ []));
  bounded = omega arith;
}

module _ (f : File) (d : Filedesc) (buf : List ℕ) (written : ℕ) (w : FileFits f)
    (pos : 0 < length buf) where
  safe-grow :
      f.blocks_count < max_file_size / block_size
      → SafeRound f d buf written
          (fill_block (add_block f) (behind f d) (length f.block_list) buf written)
  unfolding add_block
  safe-grow h =
      let at_end = get_elem?-append_end f.block_list empty_block in
      let idx : length f.block_list < f.blocks_count + 1 = omega (arith, w.counted) in
      SafeRound-widen
        (record {
          fits = FileFits-add_block f w h;
          grows = Grows-append f.block_list (empty_block ∷ []);
          cursor = inside (length f.block_list) empty_block refl at_end (omega arith) idx;
          same_file = record { same_refs = refl; same_name = refl; same_is_removed = refl };
          same_owner = record { same_file = refl; same_permissions = refl; same_fd = refl };
        })
        (omega arith)
        (fill_block-SafeRound (add_block f) (behind f d) buf written (length f.block_list)
          empty_block (FileFits-add_block f w h) pos refl at_end (omega arith) idx)

  write_round-SafeRound : CursorOk f d → SafeRound f d buf written (write_round f d buf written)
  unfolding write_round
  write_round-SafeRound (inside p b cur here off idx) =
      subst (SafeRound f d buf written) {x = fill_block f d p buf written} (ground arith)
        (fill_block-SafeRound f d buf written p b w pos cur here off idx)
  write_round-SafeRound (unset cur z) = elim (dec_lt f.blocks_count (max_file_size / block_size)) [
    | yes h ↦ rw (write_round-grow f d buf written cur h) (safe-grow h)
    | no h ↦
        subst (SafeRound f d buf written) {x = full f d} (ground arith)
          (no_room (Kept-refl w (unset cur z)))
  ]

-- What the loop comes to: all is written and counted, or the file is at its limit.
pub data SafeResult (f : File) (d : Filedesc) (n : ℕ) : Option WriteState → Type 0 where
  wrote : {g : File} {e : Filedesc} → Kept f d g e → SafeResult f d n (some (go g e [] n))
  stopped : {g : File} {e : Filedesc} → Kept f d g e → SafeResult f d n (some (full g e))

SafeResult-widen :
    {f g : File} {d e : Filedesc} {n m : ℕ} {r : Option WriteState}
    → m ≡ n
    → Kept f d g e
    → SafeResult g e m r
    → SafeResult f d n r
SafeResult-widen {f} {d} {m} same k (wrote {g = h} {e = i} l) =
    subst (λ c. SafeResult f d c (some (go h i [] m))) same (wrote (Kept-trans k l))
SafeResult-widen same k (stopped l) = stopped (Kept-trans k l)

after_round :
    (again : File → Filedesc → List ℕ → ℕ → Option WriteState) (k : ℕ)
    → ((f : File) (d : Filedesc) (buf : List ℕ) (n : ℕ)
        → length buf + length buf + rank d < k
        → FileFits f
        → CursorOk f d
        → SafeResult f d (n + length buf) (again f d buf n))
    → {f : File} {d : Filedesc} {buf : List ℕ} {n : ℕ} → length buf + length buf + rank d < suc k
    → {r : WriteState} → SafeRound f d buf n r
    → SafeResult f d (n + length buf) (after_write again r)
after_round again k ih h (onward {g} {e} {left} {n} kept cnt falls) =
    SafeResult-widen cnt kept (ih g e left n (omega arith) kept.fits kept.cursor)
after_round again k ih h (no_room kept) = stopped kept

-- Two rounds for each byte and one more are enough fuel.
pub write_loop-SafeResult :
    (k : ℕ) (f : File) (d : Filedesc) (buf : List ℕ) (n : ℕ)
    → length buf + length buf + rank d < k
    → FileFits f
    → CursorOk f d
    → SafeResult f d (n + length buf) (write_loop k f d buf n)
unfolding write_loop
write_loop-SafeResult zero f d buf n h w ok = absurd (omega arith)
write_loop-SafeResult (suc k) f d [] n h w ok =
    subst (λ c. SafeResult f d c (some (go f d [] n))) (omega arith) (wrote (Kept-refl w ok))
write_loop-SafeResult (suc k) f d (x ∷ xs) n h w ok =
    after_round (write_loop k) k (λ g e b m lt w' ok'. write_loop-SafeResult k g e b m lt w' ok') h
      (write_round-SafeRound f d (x ∷ xs) n w (omega arith) ok)
