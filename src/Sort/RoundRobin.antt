-- ===== src/Sort/RoundRobin.antt =====
-- The turns of the coroutines in 1/mine/libcoro.c.
use sysprog_exercises.Prelude.{
  ℕ, zero, suc, ◌+◌, ◌≡◌, refl, Bool, false, Option, some, List, [], ◌∷◌, ◌++◌, arith, Absent,
}
use sysprog_exercises.Sort.Coroutines.{write_at}
use sysprog_exercises.Sort.Loop.{Nodes, Loop}
use sysprog_exercises.Sort.Ring.{unwritten, apart_sym}

-- A queue of coroutines: the first one has its turn, and goes to the end if it yields. At most `k` turns.
abbrev pub round_robin : ℕ → (ℕ → ℕ) → List ℕ → List ℕ
round_robin zero yields q = []
round_robin (suc k) yields [] = []
round_robin (suc k) yields (c ∷ q) = elim (yields c) [
  | zero ↦ c ∷ round_robin k yields q
  | suc n ↦ c ∷ round_robin k (write_at yields c n) (q ++ (c ∷ []))
]

-- The turns that the coroutines take in all: one more than they yield.
abbrev pub turns : (ℕ → ℕ) → List ℕ → ℕ
turns yields [] = 0
turns yields (c ∷ q) = yields c + 1 + turns yields q

abbrev pub AllFreed : (ℕ → Bool) → List ℕ → Type 0
AllFreed live [] = Unit {0}
AllFreed live (a ∷ xs) = (live a ≡ false) × AllFreed live xs

pub turns-append :
    (yields : ℕ → ℕ) (xs ys : List ℕ) → turns yields (xs ++ ys) ≡ turns yields xs + turns yields ys
turns-append yields [] ys = omega arith
turns-append yields (x ∷ xs) ys = omega (arith, turns-append yields xs ys)

pub turns_kept :
    (yields : ℕ → ℕ) (c n : ℕ) (xs : List ℕ)
    → Absent c xs
    → turns (write_at yields c n) xs ≡ turns yields xs
turns_kept yields c n [] h = refl
turns_kept yields c n (x ∷ xs) (h, hs) =
    omega (arith, unwritten yields c x n (apart_sym c x h), turns_kept yields c n xs hs)

pub AllFreed-left : (live : ℕ → Bool) (xs ys : List ℕ) → AllFreed live (xs ++ ys) → AllFreed live xs
AllFreed-left live [] ys h = tt
AllFreed-left live (x ∷ xs) ys (h, hs) = (h, AllFreed-left live xs ys hs)

pub AllFreed-last :
    (live : ℕ → Bool) (xs : List ℕ) (y : ℕ) → AllFreed live (xs ++ (y ∷ [])) → live y ≡ false
AllFreed-last live [] y (h, hs) = h
AllFreed-last live (x ∷ xs) y (h, hs) = AllFreed-last live xs y hs

-- What the loop comes to: the turns, and every node freed.
abbrev pub Ends : Loop → List ℕ → List ℕ → Option (List ℕ × Nodes) → Type 0
Ends l q log o =
    (m : Nodes) × (o ≡ some (log, m))
    × AllFreed m.is_live (l.sentinel ∷ q)
    × ((a : ℕ) → l.nodes.is_live a ≡ false → m.is_live a ≡ false)

pub round_robin-nil : (k : ℕ) (yields : ℕ → ℕ) → round_robin k yields [] ≡ []
round_robin-nil zero yields = refl
round_robin-nil (suc k) yields = refl
