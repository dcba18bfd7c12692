-- ===== src/Userfs/Read.antt =====
-- The loop of `ufs_read` in 3/userfs.c: what it reads, for a descriptor that points into its file.
use mathlib.Core.List.{append-nil, append_assoc}
use sysprog_exercises.Prelude.{
  ℕ, zero, suc, ◌+◌, ◌-◌, ◌≤◌, ◌<◌, ◌≡◌, refl, ap, subst, ◌∙◌, sym, false, Option, some, List, [],
  ◌∷◌, ◌++◌, arith, length, get_elem?, take, drop, ◌==◌, drop-get_elem?, take-add, drop-add,
  take-append_of_le, length-take_of_le, length-drop, take-nil,
}
use native.Mathlib.Decide.{dec_lt}
use sysprog_exercises.Userfs.Types.{block_size, Block, File, Filedesc}
use sysprog_exercises.Userfs.Chain.{readable, AllSized}
use sysprog_exercises.Userfs.Transfer.{
  advance, ReadState, more, done, after_read, read_size, read_round, read_loop,
}
use sysprog_exercises.Userfs.Ahead.{
  CursorOk, unset, inside, ahead_from, ahead, get_elem?-AllSized, SameOwner, rank, ReadRound,
  onward, finish, CursorOk-advance, ahead-advance,
}

-- A full copy of `size` bytes out of the current block.
chunk_lem :
    (n size off : ℕ) (b : Block) (rest : List ℕ)
    → length b.memory ≡ block_size
    → b.occupied ≤ block_size
    → off + size ≤ b.occupied
    → size ≤ n
    → take n (take (b.occupied - off) (drop off b.memory) ++ rest)
      ≡ take size (drop off b.memory)
        ++ take (n - size) (take (b.occupied - (off + size)) (drop (off + size) b.memory) ++ rest)
chunk_lem n size off b rest len occ fits h = rw (
  take-add size (b.occupied - (off + size)) (b.occupied - off) (drop off b.memory) (omega arith),
  append_assoc,
  take-append_of_le n (n - size) (take size (drop off b.memory)) _
      (omega (arith, length-take_of_le size (drop off b.memory), length-drop off b.memory)),
  ← drop-add off size (off + size) b.memory refl,
)

-- Nothing lies ahead where a block that is not full ends.
ahead-stop :
    (b : Block) (rest : List Block) (off : ℕ)
    → b.occupied ≡ off
    → off < block_size
    → readable (b ∷ rest) off ≡ []
ahead-stop b rest off e h =
    let ne : (b.occupied == block_size) ≡ false = ground arith in
    rw (ne, append-nil) (ap (λ k. take k (drop off b.memory)) {y = 0} (omega arith))

read_size_bounds :
    (off n occ : ℕ)
    → off ≤ occ
    → occ ≤ block_size
    → (off + read_size off n occ ≤ occ) × (read_size off n occ ≤ n)
unfolding read_size
read_size_bounds off n occ h k = ground arith

read_size-zero : (off n occ : ℕ) → 0 < n → off < block_size → read_size off n occ ≡ 0 → occ ≤ off
unfolding read_size
read_size-zero off n occ h k e = ground arith

-- A round at a block, by its three outcomes.
module _ (f : File) (d : Filedesc) (n : ℕ) (out : List ℕ) (p : ℕ) (b : Block) (pos : 0 < n)
    (cur : d.current_block ≡ some p) (here : get_elem? f.block_list p ≡ some b)
    (len : length b.memory ≡ block_size) (occ : b.occupied ≤ block_size)
    (off : d.offset ≤ b.occupied) (idx : p < d.next_block_index) where
  abbrev size : ℕ
  size = read_size d.offset n b.occupied

  at : ahead f d ≡ readable (b ∷ drop (suc p) f.block_list) d.offset
  at =
      ap (λ c. ahead_from f.block_list c d.offset) cur
      ∙ ap (λ bs. readable bs d.offset) (drop-get_elem? f.block_list p here)

  Round-end : block_size ≤ d.offset → ReadRound f d n out (more (advance f p d) n out)
  unfolding advance
  Round-end h =
      onward [] (CursorOk-advance f d p b here idx)
        (record { same_file = refl; same_permissions = refl; same_fd = refl })
        (sym (append-nil out))
        (ap (take n) (sym (ahead-advance f d p b here cur (omega arith) (omega arith))))
        (ground arith)

  Round-stop : d.offset < block_size → size ≡ 0 → ReadRound f d n out (done d out)
  Round-stop h e =
      let low = read_size-zero d.offset n b.occupied pos h e in
      finish (
        ap (take n) (at ∙ ahead-stop b (drop (suc p) f.block_list) d.offset (omega arith) h)
        ∙ take-nil n)

  Round-copy :
      d.offset < block_size
      → 0 < size
      → ReadRound f d n out (
          more
            (record d { offset = d.offset + size })
            (n - size)
            (out ++ take size (drop d.offset b.memory)))
  Round-copy h e =
      let (fits, le) = read_size_bounds d.offset n b.occupied off occ in
      onward (take size (drop d.offset b.memory)) (inside p b cur here fits idx)
        (record { same_file = refl; same_permissions = refl; same_fd = refl }) refl
        (ap (take n) at
          ∙ chunk_lem n size d.offset b _ len occ fits le
          ∙ ap (λ r. take size (drop d.offset b.memory) ++ take (n - size) r) (sym copied))
        (ground arith)
    where
      copied :
          ahead f (record d { offset = d.offset + size })
          ≡ readable (b ∷ drop (suc p) f.block_list) (d.offset + size)
      copied =
          ap (λ c. ahead_from f.block_list c (d.offset + size)) cur
          ∙ ap (λ bs. readable bs (d.offset + size)) (drop-get_elem? f.block_list p here)

  read_round-end : block_size ≤ d.offset → read_round f d n out ≡ more (advance f p d) n out
  unfolding read_round
  read_round-end h = ground arith

  read_round-stop : d.offset < block_size → size ≡ 0 → read_round f d n out ≡ done d out
  unfolding read_round
  read_round-stop h e = ground arith

  read_round-copy :
      d.offset < block_size
      → 0 < size
      → read_round f d n out
        ≡ more
            (record d { offset = d.offset + size })
            (n - size)
            (out ++ take size (drop d.offset b.memory))
  unfolding read_round
  read_round-copy h e = ground arith

  read_round-inside : ReadRound f d n out (read_round f d n out)
  read_round-inside = elim (dec_lt d.offset block_size) [
    | no h ↦ rw (read_round-end (omega arith)) (Round-end (omega arith))
    | yes h ↦ elim (dec_lt 0 size) [
      | yes e ↦ rw (read_round-copy h e) (Round-copy h e)
      | no e ↦ rw (read_round-stop h (omega arith)) (Round-stop h (omega arith))
    ]
  ]

module _ (f : File) (sized : AllSized f.block_list) where
  read_round-Round :
      (d : Filedesc) (n : ℕ) (out : List ℕ)
      → 0 < n
      → CursorOk f d
      → ReadRound f d n out (read_round f d n out)
  unfolding read_round
  read_round-Round d n out pos (inside p b cur here off idx) =
      let (len, occ) = get_elem?-AllSized f.block_list p sized here in
      read_round-inside f d n out p b pos cur here len occ off idx
  read_round-Round d n out pos (unset e z) =
      subst (ReadRound f d n out) {x = done d out} (ground arith)
        (finish (ap (λ c. take n (ahead_from f.block_list c d.offset)) e ∙ take-nil n))

  -- What the whole loop leaves: the bytes ahead, as many as were wanted, and a good descriptor.
  pub record ReadResult (d : Filedesc) (n : ℕ) (out : List ℕ) (r : Option ReadState) : Type 0 where
    pub desc : Filedesc
    pub result : r ≡ some (done desc (out ++ take n (ahead f d)))
    pub good : CursorOk f desc
    pub same : SameOwner d desc

  after_round :
      (again : Filedesc → ℕ → List ℕ → Option ReadState) (k : ℕ)
      → ((e : Filedesc) (left : ℕ) (out : List ℕ)
          → left + left + rank e < k
          → CursorOk f e
          → ReadResult e left out (again e left out))
      → (d : Filedesc) (n : ℕ) (out : List ℕ) → n + n + rank d < suc k
      → CursorOk f d
      → {r : ReadState} → ReadRound f d n out r
      → ReadResult d n out (after_read again r)
  after_round again k ih d n out h ok (onward {e} {left} {out'} chunk ok' same app front falls) =
      let next = ih e left out' (omega arith) ok' in
      record {
        desc = next.desc;
        result =
            next.result
            ∙ ap (λ o. some (done next.desc o))
                (rw (app, front) (append_assoc out chunk (take left (ahead f e))));
        good = next.good;
        same = record {
          same_file = next.same.same_file ∙ same.same_file;
          same_permissions = next.same.same_permissions ∙ same.same_permissions;
          same_fd = next.same.same_fd ∙ same.same_fd;
        };
      }
  after_round again k ih d n out h ok (finish empty) = record {
    desc = d;
    result = rw (empty, append-nil);
    good = ok;
    same = record { same_file = refl; same_permissions = refl; same_fd = refl };
  }

  pub read_loop-ReadResult :
      (k : ℕ) (d : Filedesc) (n : ℕ) (out : List ℕ)
      → n + n + rank d < k
      → CursorOk f d
      → ReadResult d n out (read_loop k f d n out)
  unfolding read_loop
  read_loop-ReadResult zero d n out h ok = absurd (omega arith)
  read_loop-ReadResult (suc k) d zero out h ok = record {
    desc = d;
    result = rw append-nil;
    good = ok;
    same = record { same_file = refl; same_permissions = refl; same_fd = refl };
  }
  read_loop-ReadResult (suc k) d (suc n) out h ok =
      after_round (read_loop k f) k
        (λ e left out' lt good. read_loop-ReadResult k e left out' lt good) d (suc n) out h ok
        (read_round-Round d (suc n) out (omega arith) ok)
