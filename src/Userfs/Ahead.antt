-- ===== src/Userfs/Ahead.antt =====
-- What lies in front of a descriptor in 3/userfs.c.
use sysprog_exercises.Prelude.{
  ℕ, zero, suc, ◌+◌, ◌≤◌, ◌<◌, ◌≡◌, refl, ap, inl, inr, Option, none, some, List, [], ◌∷◌, ◌++◌,
  arith, length, get_elem?, take, drop, leb, ltb, if◌then◌else◌, Bool-cases, drop-get_elem?,
  drop_all, get_elem?_of_lt,
}
use sysprog_exercises.Userfs.Types.{block_size, Block, File, Filedesc}
use sysprog_exercises.Userfs.Chain.{readable, AllSized}
use sysprog_exercises.Userfs.Transfer.{advance, ReadState, more, done}

-- The descriptor has no current block and offset 0, or points to a block of the file, no further than what the
-- block holds. Its block index is at least the block's.
pub data CursorOk (f : File) (d : Filedesc) : Type 0 where
  unset : d.current_block ≡ none → d.offset ≡ 0 → CursorOk f d
  inside :
      (p : ℕ) (b : Block)
      → d.current_block ≡ some p
      → get_elem? f.block_list p ≡ some b
      → d.offset ≤ b.occupied
      → p < d.next_block_index
      → CursorOk f d

-- What lies in front of the descriptor, up to the first block that is not full.
abbrev pub ahead_from : List Block → Option ℕ → ℕ → List ℕ
ahead_from bs none off = []
ahead_from bs (some p) off = readable (drop p bs) off

abbrev pub ahead : File → Filedesc → List ℕ
ahead f d = ahead_from f.block_list d.current_block d.offset

pub get_elem?-AllSized :
    (bs : List Block) (p : ℕ) {b : Block}
    → AllSized bs
    → get_elem? bs p ≡ some b
    → (length b.memory ≡ block_size) × (b.occupied ≤ block_size)
get_elem?-AllSized [] p s h = cc
get_elem?-AllSized (c ∷ bs) zero s h = ground arith
get_elem?-AllSized (c ∷ bs) (suc p) s h = get_elem?-AllSized bs p s.2 h

-- Stepping over the end of a full block.
readable_full :
    (b : Block) (bs : List Block) (off : ℕ)
    → b.occupied ≡ block_size
    → off ≡ block_size
    → readable (b ∷ bs) off ≡ readable bs 0
readable_full b bs off e h = ground (arith)

-- What the transfer loops leave alone.
pub record SameOwner (d e : Filedesc) : Type 0 where
  pub same_file : e.file ≡ d.file
  pub same_permissions : e.permissions ≡ d.permissions
  pub same_fd : e.fd ≡ d.fd

-- Twice the bytes still wanted, and the step over a full block that is due.
abbrev pub rank : Filedesc → ℕ
rank d = if leb block_size d.offset then 1 else 0

-- A round hands over the next bytes in front of the descriptor, or stops where there are none.
pub data ReadRound (f : File) (d : Filedesc) (n : ℕ) (out : List ℕ) : ReadState → Type 0 where
  onward :
      {e : Filedesc} {left : ℕ} {out' : List ℕ} (chunk : List ℕ)
      → CursorOk f e
      → SameOwner d e
      → out' ≡ out ++ chunk
      → take n (ahead f d) ≡ chunk ++ take left (ahead f e)
      → left + left + rank e < n + n + rank d
      → ReadRound f d n out (more e left out')
  finish : take n (ahead f d) ≡ [] → ReadRound f d n out (done d out)

module _ (f : File) (d : Filedesc) (p : ℕ) (b : Block)
    (at_block : get_elem? f.block_list p ≡ some b) where
  pub CursorOk-advance : p < d.next_block_index → CursorOk f (advance f p d)
  unfolding advance
  CursorOk-advance h = elim (Bool-cases (ltb (p + 1) (length f.block_list))) [
    | inl e ↦
        let (c, here) = get_elem?_of_lt f.block_list (p + 1) (ground arith) in
        inside (p + 1) c (rw e) here (omega arith) (omega arith)
    | inr e ↦ unset (rw e) refl
  ]

  pub ahead-advance :
      d.current_block ≡ some p
      → b.occupied ≡ block_size
      → d.offset ≡ block_size
      → ahead f (advance f p d) ≡ ahead f d
  unfolding advance
  ahead-advance cur occ off =
      rw (cur, drop-get_elem? f.block_list p at_block, readable_full b _ d.offset occ off)
        (elim (Bool-cases (ltb (p + 1) (length f.block_list))) [
          | inl e ↦ rw e (ap (λ k. readable (drop k f.block_list) 0) {y = suc p} (omega arith))
          | inr e ↦ rw (e, drop_all (suc p) f.block_list (ground arith)) refl
        ])
