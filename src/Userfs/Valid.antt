-- ===== src/Userfs/Valid.antt =====
-- The state of 3/userfs.c in order: descriptors, file objects, the file list and the reference counts
-- agree.
pub mod Update
pub mod Close
pub mod Delete
pub mod Grow
pub mod Open
pub mod AddFile
pub mod Resize
use native.Mathlib.Decide.{ℕ_discrete}
use sysprog_exercises.Prelude.{
  ℕ, zero, suc, ◌+◌, ◌≤◌, ◌<◌, ◌≡◌, ◌≢◌, refl, ap, ◌∙◌, sym, true, false, Bool, Option, none, some,
  List, [], ◌∷◌, ◌++◌, arith, length, get_elem?, set, if◌then◌else◌, ◌==◌, eq_of_some, inl, inr,
  Option-cases, get_elem?-set_self, get_elem?-set_ne, get_elem?-lt, get_elem?-append_end,
  get_elem?-append_other,
}
use sysprog_exercises.Userfs.Types.{File, Filedesc, Ufs, join, heap_at, file_at, initial}
use sysprog_exercises.Userfs.Ahead.{CursorOk}
use sysprog_exercises.Userfs.Write.Kept.{FileFits}

-- The sum of a number over a list.
abbrev pub total {ℓ} : {A : Type ℓ} → (A → ℕ) → List A → ℕ
total h [] = 0
total h (x ∷ xs) = h x + total h xs

-- Does a place of the table hold a descriptor of the file at `a`; does it hold any.
abbrev pub slot_refs : ℕ → Option Filedesc → ℕ
slot_refs a none = 0
slot_refs a (some d) = if d.file == a then 1 else 0

abbrev pub slot_open : Option Filedesc → ℕ
slot_open none = 0
slot_open (some d) = 1

-- How many descriptors are open on the file at `a`; how many are open.
abbrev pub refs_to : ℕ → List (Option Filedesc) → ℕ
refs_to a = total (slot_refs a)

abbrev pub open_slots : List (Option Filedesc) → ℕ
open_slots = total slot_open

-- How often `file_list` names the address.
abbrev pub mentions : ℕ → List ℕ → ℕ
mentions a = total (λ b. if a == b then 1 else 0)

-- A descriptor's file is not freed, and the descriptor points into it.
pub record DescOk (s : Ufs) (d : Filedesc) : Type 0 where
  pub target : File
  pub live : file_at s d.file ≡ some target
  pub cursor : CursorOk target d

-- A file that is not freed counts its descriptors, stands in the list exactly once until it is
-- deleted, and is kept after that only while a descriptor is open on it.
pub record FileOk (s : Ufs) (a : ℕ) (f : File) : Type 0 where
  pub fits : FileFits f
  pub counted : f.refs ≡ refs_to a s.file_descriptors
  pub linked : mentions a s.file_list ≡ (if f.is_removed then 0 else 1)
  pub kept : f.is_removed ≡ true → 0 < f.refs

pub record IsValid (s : Ufs) : Type 0 where
  pub table : length s.file_descriptors ≡ s.file_descriptor_capacity
  pub room : open_slots s.file_descriptors ≤ s.file_descriptor_count
  pub used : s.file_descriptor_count ≤ s.file_descriptor_capacity
  pub descs : (i : ℕ) (d : Filedesc) → get_elem? s.file_descriptors i ≡ some (some d) → DescOk s d
  pub files : (a : ℕ) (f : File) → file_at s a ≡ some f → FileOk s a f
  pub listed : (a : ℕ) → 0 < mentions a s.file_list → (f : File) × (file_at s a ≡ some f)

module _ {ℓ} {A : Type ℓ} (h : A → ℕ) where
  pub total-append : (xs ys : List A) → total h (xs ++ ys) ≡ total h xs + total h ys
  total-append [] ys = omega arith
  total-append (x ∷ xs) ys = omega (arith, total-append xs ys)

  pub total-set :
      (xs : List A) (i : ℕ) (x y : A)
      → get_elem? xs i ≡ some x
      → total h (set xs i y) + h x ≡ total h xs + h y
  total-set [] i x y e = cc
  total-set (z ∷ xs) zero x y e = let same : h z ≡ h x = ap h (eq_of_some e) in omega arith
  total-set (z ∷ xs) (suc i) x y e = omega (arith, total-set xs i x y e)

  pub le-total : (xs : List A) (i : ℕ) (x : A) → get_elem? xs i ≡ some x → h x ≤ total h xs
  le-total [] i x e = cc
  le-total (z ∷ xs) zero x e = let same : h z ≡ h x = ap h (eq_of_some e) in omega arith
  le-total (z ∷ xs) (suc i) x e = omega (arith, le-total xs i x e)

-- The program starts in order.
pub initial-IsValid : IsValid initial
unfolding heap_at
initial-IsValid = record {
  table = refl;
  room = omega arith;
  used = omega arith;
  descs = λ i d e. cc;
  files = λ a f e. cc;
  listed = λ a h. absurd (omega arith);
}

-- A file object after a write to the heap.
pub heap_at-put :
    (heap : List (Option File)) (a b : ℕ) (x : Option File)
    → a < length heap
    → heap_at (set heap a x) b ≡ (if a == b then x else heap_at heap b)
unfolding heap_at
heap_at-put heap a b x h = elim (ℕ_discrete a b) [
  | yes e ↦
      let t : (a == b) ≡ true = ground arith in
      rw t (
        ap (λ c. join (get_elem? (set heap a x) c)) (sym e)
        ∙ ap join (get_elem?-set_self heap a x h))
  | no e ↦ let t : (a == b) ≡ false = ground arith in rw t (ap join (get_elem?-set_ne heap a b x e))
]

pub heap_at-lt :
    (heap : List (Option File)) (a : ℕ) {f : File} → heap_at heap a ≡ some f → a < length heap
unfolding heap_at
heap_at-lt heap a e = elim (Option-cases (get_elem? heap a)) [
  | inl gone ↦ cc (ap join gone)
  | inr (x, there) ↦ get_elem?-lt heap a there
]

-- A new object at the end of the heap.
pub heap_at-append :
    (heap : List (Option File)) (b : ℕ) (x : Option File)
    → heap_at (heap ++ (x ∷ [])) b ≡ (if length heap == b then x else heap_at heap b)
unfolding heap_at
heap_at-append heap b x = elim (ℕ_discrete (length heap) b) [
  | yes e ↦
      let t : (length heap == b) ≡ true = ground arith in
      rw t (
        ap (λ c. join (get_elem? (heap ++ (x ∷ [])) c)) (sym e)
        ∙ ap join (get_elem?-append_end heap x))
  | no e ↦
      let t : (length heap == b) ≡ false = ground arith in
      rw t (ap join (get_elem?-append_other heap x b e))
]
