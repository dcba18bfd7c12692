-- ===== src/Userfs/Write.antt =====
-- The loop of `ufs_write` in 3/userfs.c on a dense file: the content is overwritten from the
-- descriptor's position on, as far as there is room.
pub mod Loop
pub mod Kept
pub mod Safe
use mathlib.Core.List.{append-nil}
use native.Mathlib.Decide.{dec_lt}
use sysprog_exercises.Prelude.{
  ℕ, zero, suc, ◌+◌, ◌-◌, ◌*◌, ◌/◌, ◌≤◌, ◌<◌, ◌≡◌, refl, ap, subst, ◌∙◌, sym, ◌⊎◌, inl, inr, true,
  false, Option, none, some, List, [], ◌∷◌, ◌++◌, arith, length, get_elem?, set, take, drop,
  overwrite, leb, ltb, if◌then◌else◌, Bool-cases, length-append, length-take_of_le, length-set,
  length-overwrite, overwrite-overwrite, overwrite-nil, take-append-drop, length-drop,
  get_elem?_of_lt, get_elem?-lt, get_elem?-set_self, get_elem?-append_end, ◌≢◌,
}
use sysprog_exercises.Userfs.Types.{block_size, max_file_size, Block, File, Filedesc}
use sysprog_exercises.Userfs.Chain.{empty_block, add_block, next_block, content, IsDense}
use sysprog_exercises.Userfs.Transfer.{
  write_size, advance, ensure_block, store_bytes, fill_block, WriteState, go, full, after_write,
  write_round, write_loop,
}
use sysprog_exercises.Userfs.Ahead.{CursorOk, unset, inside, SameOwner, rank}
use sysprog_exercises.Userfs.Dense.{
  AllFull, stored, length-content-AllFull, content-append, IsDense-append, AllFull-of_last,
  position-le, content-set, IsDense-set, occupied-le,
}
use sysprog_exercises.Userfs.Position.{
  IsDenseFile, StandsAt, at_end, at_block, SameFile, StandsAt-le, WriteRound, onward, no_room,
  write_size_bounds, SameOwner-advance, rank-advance,
}

-- The part of a round behind `ensure_block`.
module _ (f : File) (d : Filedesc) (a : ℕ) (buf : List ℕ) (written : ℕ) (p : ℕ) (b : Block)
    (w : IsDenseFile f) (pos : 0 < length buf) (cur : d.current_block ≡ some p)
    (here : get_elem? f.block_list p ≡ some b) (off : d.offset ≤ b.occupied)
    (idx : p < d.next_block_index) (at : a ≡ p * block_size + d.offset) where
  abbrev size : ℕ
  size = write_size d.offset (length buf)

  fill_block-end :
      block_size ≤ d.offset → fill_block f d p buf written ≡ go f (advance f p d) buf written
  unfolding fill_block
  fill_block-end h = ground arith

  fill_block-store :
      d.offset < block_size
      → fill_block f d p buf written
        ≡ go
            (store_bytes f p b d.offset (take size buf))
            (record d { offset = d.offset + size })
            (drop size buf)
            (written + size)
  unfolding fill_block
  fill_block-store h = ground arith

  StandsAt-advance : block_size ≤ d.offset → StandsAt f (advance f p d) a
  unfolding advance
  StandsAt-advance h =
      let (len, occ) = occupied-le f.block_list p w.dense here in
      elim (Bool-cases (ltb (p + 1) (length f.block_list))) [
        | inl e ↦
            let (c, there) = get_elem?_of_lt f.block_list (p + 1) (ground arith) in
            at_block (p + 1) c (rw e) there (omega arith) (omega arith) (omega arith)
        | inr e ↦
            let last : length f.block_list ≤ p + 1 = ground arith in
            let all = AllFull-of_last f.block_list p w.dense here (omega arith) last in
            at_end (rw e) all (
              omega
                (arith, length-content-AllFull f.block_list all, get_elem?-lt f.block_list p here))
      ]

  Round-end :
      block_size ≤ d.offset → WriteRound f d a buf written (go f (advance f p d) buf written)
  Round-end h =
      onward [] w (subst (StandsAt f (advance f p d)) (omega arith) (StandsAt-advance h))
        (record { same_refs = refl; same_name = refl; same_is_removed = refl })
        (SameOwner-advance f p d) refl (omega arith) (sym (overwrite-nil (content f.block_list) a))
        (omega (arith, rank-advance f p d h))

  Round-store :
      d.offset < block_size
      → WriteRound f d a buf written (
          go
            (store_bytes f p b d.offset (take size buf))
            (record d { offset = d.offset + size })
            (drop size buf)
            (written + size))
  unfolding store_bytes
  Round-store h =
      let (more, le, fits) = write_size_bounds d.offset (length buf) h pos in
      let chunk = take size buf in
      let len : length chunk ≡ size = length-take_of_le size buf le in
      let room : d.offset + length chunk ≤ block_size = omega arith in
      onward chunk
        (record {
          dense = IsDense-set f.block_list p d.offset chunk b w.dense here room;
          counted = omega (arith, w.counted, length-set f.block_list p (stored b d.offset chunk));
        })
        (at_block p (stored b d.offset chunk) cur
          (get_elem?-set_self f.block_list p (stored b d.offset chunk)
            (get_elem?-lt f.block_list p here))
          (ground arith) idx (omega arith))
        (record { same_refs = refl; same_name = refl; same_is_removed = refl })
        (record { same_file = refl; same_permissions = refl; same_fd = refl })
        (sym (take-append-drop size buf)) (omega arith)
        (content-set f.block_list p d.offset chunk b w.dense here off room
          ∙ ap (λ k. overwrite (content f.block_list) k chunk) (sym at))
        (ground (arith, length-drop size buf))

  fill_block-Round : WriteRound f d a buf written (fill_block f d p buf written)
  fill_block-Round = elim (dec_lt d.offset block_size) [
    | no h ↦ rw (fill_block-end (omega arith)) (Round-end (omega arith))
    | yes h ↦ rw (fill_block-store h) (Round-store h)
  ]

pub SameFile-trans : {f g h : File} → SameFile f g → SameFile g h → SameFile f h
SameFile-trans s t = record {
  same_refs = t.same_refs ∙ s.same_refs;
  same_name = t.same_name ∙ s.same_name;
  same_is_removed = t.same_is_removed ∙ s.same_is_removed;
}

pub SameOwner-trans : {c d e : Filedesc} → SameOwner c d → SameOwner d e → SameOwner c e
SameOwner-trans s t = record {
  same_file = t.same_file ∙ s.same_file;
  same_permissions = t.same_permissions ∙ s.same_permissions;
  same_fd = t.same_fd ∙ s.same_fd;
}

-- A round on a file with one more block is a round on the file.
WriteRound-widen :
    {f g : File} {d e : Filedesc} {a : ℕ} {buf : List ℕ} {written : ℕ} {r : WriteState}
    → content g.block_list ≡ content f.block_list
    → SameFile f g
    → SameOwner d e
    → rank e ≤ rank d
    → e.current_block ≢ none
    → WriteRound g e a buf written r
    → WriteRound f d a buf written r
WriteRound-widen {a} same sf so le ne (onward chunk w at sf' so' split n app falls) =
    onward chunk w at (SameFile-trans sf sf') (SameOwner-trans so so') split n
      (app ∙ ap (λ c. overwrite c a chunk) same) (omega arith)
WriteRound-widen same sf so le ne (no_room h missing) = absurd (ne missing)

-- The descriptor behind the block that `ensure_block` adds.
abbrev pub behind : File → Filedesc → Filedesc
behind f d = record d {
  current_block = some (length f.block_list);
  next_block_index = f.blocks_count + 1;
  offset = 0;
}

pub write_round-grow :
    (f : File) (d : Filedesc) (buf : List ℕ) (written : ℕ)
    → d.current_block ≡ none
    → f.blocks_count < max_file_size / block_size
    → write_round f d buf written
      ≡ fill_block (add_block f) (behind f d) (length f.block_list) buf written
unfolding write_round add_block
write_round-grow f d buf written cur h = ground arith

module _ (f : File) (d : Filedesc) (a : ℕ) (buf : List ℕ) (written : ℕ) (w : IsDenseFile f)
    (pos : 0 < length buf) where
  Round-grow :
      AllFull f.block_list
      → a ≡ length (content f.block_list)
      → WriteRound f d a buf written
          (fill_block (add_block f) (behind f d) (length f.block_list) buf written)
  unfolding add_block
  Round-grow all e =
      WriteRound-widen
        (content-append f.block_list (empty_block ∷ []) ∙ append-nil (content f.block_list))
        (record { same_refs = refl; same_name = refl; same_is_removed = refl })
        (record { same_file = refl; same_permissions = refl; same_fd = refl }) (omega arith)
        (λ x. cc)
        (fill_block-Round (add_block f) (behind f d) a buf written (length f.block_list) empty_block
          (record {
            dense = IsDense-append f.block_list all;
            counted = omega (arith, w.counted, length-append f.block_list (empty_block ∷ []));
          })
          pos refl (get_elem?-append_end f.block_list empty_block) (omega arith)
          (omega (arith, w.counted)) (omega (arith, length-content-AllFull f.block_list all)))

  pub write_round-Round :
      StandsAt f d a → WriteRound f d a buf written (write_round f d buf written)
  unfolding write_round
  write_round-Round (at_block p b cur here off idx at) =
      subst (WriteRound f d a buf written) {x = fill_block f d p buf written} (ground arith)
        (fill_block-Round f d a buf written p b w pos cur here off idx at)
  write_round-Round (at_end cur all e) = elim (dec_lt f.blocks_count (max_file_size / block_size)) [
    | yes h ↦ rw (write_round-grow f d buf written cur h) (Round-grow all e)
    | no h ↦
        subst (WriteRound f d a buf written) {x = full f d} (ground arith)
          (no_room (omega (arith, w.counted, length-content-AllFull f.block_list all)) cur)
  ]
