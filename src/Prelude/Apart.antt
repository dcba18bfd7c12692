-- ===== src/Prelude/Apart.antt =====
-- Numbers that do not stand in a list, and lists in which none stands twice.
use Prim.Native.Nat.{ℕ, ◌+◌, ◌≤◌}
use native.Mathlib.Omega.{arith}
use mathlib.Core.Path.{◌≡◌}
use mathlib.Core.Bool.{false}
use mathlib.Core.List.{List, [], ◌∷◌, ◌++◌}
use sysprog_exercises.Prelude.Tests.{◌==◌, if◌then◌else◌}

abbrev pub Absent : ℕ → List ℕ → Type 0
Absent t [] = Unit {0}
Absent t (u ∷ us) = ((t == u) ≡ false) × Absent t us

abbrev pub Distinct : List ℕ → Type 0
Distinct [] = Unit {0}
Distinct (t ∷ ts) = Absent t ts × Distinct ts

pub Absent-append : (t : ℕ) (xs ys : List ℕ) → Absent t xs → Absent t ys → Absent t (xs ++ ys)
Absent-append t [] ys h k = k
Absent-append t (x ∷ xs) ys (e, h) k = (e, Absent-append t xs ys h k)

pub Absent-left : (t : ℕ) (xs ys : List ℕ) → Absent t (xs ++ ys) → Absent t xs
Absent-left t [] ys h = tt
Absent-left t (x ∷ xs) ys (e, h) = (e, Absent-left t xs ys h)

pub Absent-right : (t : ℕ) (xs ys : List ℕ) → Absent t (xs ++ ys) → Absent t ys
Absent-right t [] ys h = h
Absent-right t (x ∷ xs) ys (e, h) = Absent-right t xs ys h

-- How often a number stands in a list.
abbrev pub occurrences : ℕ → List ℕ → ℕ
occurrences a [] = 0
occurrences a (x ∷ xs) = (if a == x then 1 else 0) + occurrences a xs

pub occurrences-append :
    (a : ℕ) (xs ys : List ℕ) → occurrences a (xs ++ ys) ≡ occurrences a xs + occurrences a ys
occurrences-append a [] ys = omega arith
occurrences-append a (x ∷ xs) ys = omega (arith, occurrences-append a xs ys)

pub occurrences-Absent : (a : ℕ) (xs : List ℕ) → occurrences a xs ≡ 0 → Absent a xs
occurrences-Absent a [] none_there = tt
occurrences-Absent a (x ∷ xs) none_there = (ground arith, occurrences-Absent a xs (omega arith))

pub occurrences-Distinct : (xs : List ℕ) → ((a : ℕ) → occurrences a xs ≤ 1) → Distinct xs
occurrences-Distinct [] once = tt
occurrences-Distinct (x ∷ xs) once = (
  occurrences-Absent x xs (ground (arith, once x)),
  occurrences-Distinct xs (λ a. omega (arith, once a)),
)
