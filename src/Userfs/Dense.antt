-- ===== src/Userfs/Dense.antt =====
-- Files of 3/userfs.c whose blocks are full but for the last one: where a byte of the content lies.
use mathlib.Core.List.{append-nil, append_assoc}
use native.Mathlib.Nat.{zero-add}
use sysprog_exercises.Prelude.{
  ℕ, zero, suc, ◌+◌, ◌-◌, ◌*◌, ◌≤◌, ◌≡◌, refl, ap, subst, ◌∙◌, sym, inl, inr, true, some, List, [],
  ◌∷◌, ◌++◌, arith, length, get_elem?, set, take, drop, overwrite, ◌==◌, length-append, Bool-cases,
  eq_of_some, length-take_of_le, length-overwrite, overwrite-append_left, overwrite-append_right,
  take-overwrite, drop-append_left, drop-append_right, drop-take,
}
use sysprog_exercises.Userfs.Types.{block_size, Block}
use sysprog_exercises.Userfs.Chain.{
  empty_block, occupied_bytes, content, readable, AllSized, IsDense,
}
use sysprog_exercises.Userfs.Transfer.{max}
use sysprog_exercises.Userfs.Ahead.{get_elem?-AllSized}

-- Every block is full.
abbrev pub AllFull : List Block → Type 0
AllFull [] = Unit {0}
AllFull (b ∷ bs) = (length b.memory ≡ block_size) × (b.occupied ≡ block_size) × AllFull bs

-- A block after `memcpy` of `bytes` at `off`.
abbrev pub stored : Block → ℕ → List ℕ → Block
stored b off bytes = record {
  memory = overwrite b.memory off bytes;
  occupied = max b.occupied (off + length bytes);
}

pub IsDense-AllSized : (bs : List Block) → IsDense bs → AllSized bs
IsDense-AllSized [] h = tt
IsDense-AllSized (b ∷ []) h = (h.0, h.1, tt)
IsDense-AllSized (b ∷ c ∷ bs) h = (h.0, omega arith, IsDense-AllSized (c ∷ bs) h.2)

pub length-content-AllFull :
    (bs : List Block) → AllFull bs → length (content bs) ≡ length bs * block_size
length-content-AllFull [] h = omega arith
length-content-AllFull (b ∷ bs) h = omega (
  arith,
  length-append (occupied_bytes b) (content bs),
  length-take_of_le b.occupied b.memory (omega arith),
  length-content-AllFull bs h.2,
)

pub content-append : (bs cs : List Block) → content (bs ++ cs) ≡ content bs ++ content cs
content-append [] cs = refl
content-append (b ∷ bs) cs = rw (content-append bs cs, append_assoc)

length-empty : length empty_block.memory ≡ block_size
length-empty = refl

pub occupied-le :
    (bs : List Block) (p : ℕ) {b : Block}
    → IsDense bs
    → get_elem? bs p ≡ some b
    → (length b.memory ≡ block_size) × (b.occupied ≤ block_size)
occupied-le bs p h e = get_elem?-AllSized bs p (IsDense-AllSized bs h) e

-- A new block behind full ones.
pub IsDense-append : (bs : List Block) → AllFull bs → IsDense (bs ++ (empty_block ∷ []))
IsDense-append [] h = (length-empty, omega arith)
IsDense-append (b ∷ []) h = (h.0, h.1, (length-empty, omega arith))
IsDense-append (b ∷ c ∷ bs) h = (h.0, h.1, IsDense-append (c ∷ bs) h.2)

-- The block behind which there is none is the last one, and with it all are full.
pub AllFull-of_last :
    (bs : List Block) (p : ℕ) {b : Block}
    → IsDense bs
    → get_elem? bs p ≡ some b
    → b.occupied ≡ block_size
    → length bs ≤ p + 1
    → AllFull bs
AllFull-of_last [] p h e o l = tt
AllFull-of_last (c ∷ []) zero h e o l = (h.0, ground arith, tt)
AllFull-of_last (c ∷ []) (suc p) h e o l = cc
AllFull-of_last (c ∷ c' ∷ bs) zero h e o l = absurd (omega arith)
AllFull-of_last (c ∷ c' ∷ bs) (suc p) h e o l =
    (h.0, h.1, AllFull-of_last (c' ∷ bs) p h.2 e o (omega arith))

-- The one block of a file, or the first of several, that a position names.
length-occupied :
    (b : Block)
    → length b.memory ≡ block_size
    → b.occupied ≤ block_size
    → length (occupied_bytes b) ≡ b.occupied
length-occupied b m o = length-take_of_le b.occupied b.memory (omega arith)

-- A position in a block lies inside the content.
pub position-le :
    (bs : List Block) (p off : ℕ) {b : Block}
    → IsDense bs
    → get_elem? bs p ≡ some b
    → off ≤ b.occupied
    → p * block_size + off ≤ length (content bs)
position-le [] p off h e o = cc
position-le (c ∷ []) zero off h e o =
    let o' : off ≤ c.occupied = subst (λ x. off ≤ x.occupied) (sym (eq_of_some e)) o in
    omega (arith, length-append (occupied_bytes c) [], length-occupied c h.0 h.1)
position-le (c ∷ []) (suc p) off h e o = cc
position-le (c ∷ c' ∷ bs) zero off h e o =
    let o' : off ≤ c.occupied = subst (λ x. off ≤ x.occupied) (sym (eq_of_some e)) o in
    omega (
      arith,
      length-append (occupied_bytes c) (content (c' ∷ bs)),
      length-occupied c h.0 (omega arith),
    )
position-le (c ∷ c' ∷ bs) (suc p) off h e o = omega (
  arith,
  length-append (occupied_bytes c) (content (c' ∷ bs)),
  length-occupied c h.0 (omega arith),
  position-le (c' ∷ bs) p off h.2 e o,
)

-- Storing bytes in the first block.
occupied-stored :
    (b : Block) (off : ℕ) (bytes : List ℕ)
    → length b.memory ≡ block_size
    → b.occupied ≤ block_size
    → off ≤ b.occupied
    → off + length bytes ≤ block_size
    → occupied_bytes (stored b off bytes) ≡ overwrite (occupied_bytes b) off bytes
occupied-stored b off bytes m o h l =
    take-overwrite b.occupied (max b.occupied (off + length bytes)) off b.memory bytes (omega arith)
      h (omega arith) (ground arith) (ground arith) (ground arith)

-- Storing bytes in one block overwrites the content at that position.
pub content-set :
    (bs : List Block) (p off : ℕ) (bytes : List ℕ) (b : Block)
    → IsDense bs
    → get_elem? bs p ≡ some b
    → off ≤ b.occupied
    → off + length bytes ≤ block_size
    → content (set bs p (stored b off bytes)) ≡ overwrite (content bs) (p * block_size + off) bytes
content-set [] p off bytes b h e o l = cc
content-set (c ∷ []) zero off bytes b h e o l = rw zero-add (
    subst (λ x. content (stored x off bytes ∷ []) ≡ overwrite (content (c ∷ [])) off bytes)
      (eq_of_some e)
      (append-nil (occupied_bytes (stored c off bytes))
        ∙ occupied-stored c off bytes h.0 h.1 (subst (λ x. off ≤ x.occupied) (sym (eq_of_some e)) o)
            l
        ∙ ap (λ r. overwrite r off bytes) (sym (append-nil (occupied_bytes c)))))
content-set (c ∷ []) (suc p) off bytes b h e o l = cc
content-set (c ∷ c' ∷ bs) zero off bytes b h e o l = rw zero-add (
    subst
      (λ x. content (stored x off bytes ∷ c' ∷ bs) ≡ overwrite (content (c ∷ c' ∷ bs)) off bytes)
      (eq_of_some e)
      (ap (λ r. r ++ content (c' ∷ bs))
          (occupied-stored c off bytes h.0 (omega arith)
            (subst (λ x. off ≤ x.occupied) (sym (eq_of_some e)) o) l)
        ∙ sym (
            overwrite-append_left (occupied_bytes c) (content (c' ∷ bs)) off bytes
              (omega (arith, length-occupied c h.0 (omega arith))))))
content-set (c ∷ c' ∷ bs) (suc p) off bytes b h e o l =
    ap (λ r. occupied_bytes c ++ r) (content-set (c' ∷ bs) p off bytes b h.2 e o l)
    ∙ sym (
        overwrite-append_right (occupied_bytes c) (content (c' ∷ bs)) (p * block_size + off)
          (suc p * block_size + off) bytes (omega (arith, length-occupied c h.0 (omega arith))))

IsDense-cons :
    (b : Block) (bs : List Block)
    → length b.memory ≡ block_size
    → b.occupied ≡ block_size
    → IsDense bs
    → IsDense (b ∷ bs)
IsDense-cons b [] m o h = (m, omega arith)
IsDense-cons b (c ∷ bs) m o h = (m, o, h)

pub IsDense-set :
    (bs : List Block) (p off : ℕ) (bytes : List ℕ) (b : Block)
    → IsDense bs
    → get_elem? bs p ≡ some b
    → off + length bytes ≤ block_size
    → IsDense (set bs p (stored b off bytes))
IsDense-set [] p off bytes b h e l = tt
IsDense-set (c ∷ []) zero off bytes b h e l =
    subst (λ x. IsDense (stored x off bytes ∷ [])) (eq_of_some e)
      (omega (arith, length-overwrite c.memory off bytes), ground arith)
IsDense-set (c ∷ []) (suc p) off bytes b h e l = h
IsDense-set (c ∷ c' ∷ bs) zero off bytes b h e l =
    subst (λ x. IsDense (stored x off bytes ∷ c' ∷ bs)) (eq_of_some e)
      (omega (arith, length-overwrite c.memory off bytes), ground arith, h.2)
IsDense-set (c ∷ c' ∷ bs) (suc p) off bytes b h e l =
    IsDense-cons c (set (c' ∷ bs) p (stored b off bytes)) h.0 h.1
      (IsDense-set (c' ∷ bs) p off bytes b h.2 e l)

-- The first block's part of what a reader meets.
drop-occupied :
    (b : Block) (off : ℕ) (rest : List ℕ)
    → length b.memory ≡ block_size
    → b.occupied ≤ block_size
    → off ≤ b.occupied
    → take (b.occupied - off) (drop off b.memory) ++ rest ≡ drop off (occupied_bytes b ++ rest)
drop-occupied b off rest m o h = rw (
  drop-append_left off (occupied_bytes b) rest (omega (arith, length-occupied b m o)),
  drop-take off b.occupied (b.occupied - off) b.memory (omega arith),
)

-- For a dense file what lies in front of a position is the rest of the content.
pub readable-content :
    (bs : List Block) (p off : ℕ) (b : Block)
    → IsDense bs
    → get_elem? bs p ≡ some b
    → off ≤ b.occupied
    → readable (drop p bs) off ≡ drop (p * block_size + off) (content bs)
readable-content [] p off b h e o = cc
readable-content (c ∷ []) zero off b h e o =
    let o' : off ≤ c.occupied = subst (λ x. off ≤ x.occupied) (sym (eq_of_some e)) o in
    elim (Bool-cases (c.occupied == block_size)) [
      | inl t ↦ rw (t, zero-add) (drop-occupied c off [] h.0 h.1 o')
      | inr t ↦ rw (t, zero-add) (drop-occupied c off [] h.0 h.1 o')
    ]
readable-content (c ∷ []) (suc p) off b h e o = cc
readable-content (c ∷ c' ∷ bs) zero off b h e o =
    let o' : off ≤ c.occupied = subst (λ x. off ≤ x.occupied) (sym (eq_of_some e)) o in
    let full : (c.occupied == block_size) ≡ true = ground arith in
    rw (full, zero-add)
      (ap (λ r. take (c.occupied - off) (drop off c.memory) ++ r)
          (readable-content (c' ∷ bs) zero 0 c' h.2 refl (omega arith))
        ∙ drop-occupied c off (content (c' ∷ bs)) h.0 (omega arith) o')
readable-content (c ∷ c' ∷ bs) (suc p) off b h e o =
    readable-content (c' ∷ bs) p off b h.2 e o
    ∙ sym (
        drop-append_right (suc p * block_size + off) (p * block_size + off) (occupied_bytes c)
          (content (c' ∷ bs)) (omega (arith, length-occupied c h.0 (omega arith))))
