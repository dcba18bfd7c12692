-- ===== src/Sort/Picks.antt =====
-- The search for the least number of the files in 1/mine/main.c.
use sysprog_exercises.Prelude.{
  ℕ, suc, ◌+◌, ◌≡◌, ◌⊎◌, inl, inr, refl, ap, ◌∙◌, true, false, Option, some, List, [], ◌∷◌, arith,
  if◌then◌else◌, Bool-cases,
}
use sysprog_exercises.Prelude.Int.{ℤ, pos, negsuc}
use sysprog_exercises.Sort.Merge.{less}
use sysprog_exercises.Sort.Ordered.{HeadFrom, IsSorted, same_int, count, less-asym}
use sysprog_exercises.Sort.Results.{int_max, total_count, least, advance_cursor}

abbrev pub AllSorted : List (List ℤ) → Type 0
AllSorted [] = Unit {0}
AllSorted (l ∷ files) = IsSorted l × AllSorted files

-- No number of the list is `INT_MAX`.
abbrev pub Below : List ℤ → Type 0
Below [] = Unit {0}
Below (x ∷ xs) = (less x int_max ≡ true) × Below xs

abbrev pub AllBelow : List (List ℤ) → Type 0
AllBelow [] = Unit {0}
AllBelow (l ∷ files) = Below l × AllBelow files

-- How often a number stands in the files.
abbrev pub count_all : ℤ → List (List ℤ) → ℕ
count_all a [] = 0
count_all a (l ∷ files) = count a l + count_all a files

-- No file begins with a number that is less.
abbrev pub HeadsFrom : ℤ → List (List ℤ) → Type 0
HeadsFrom a [] = Unit {0}
HeadsFrom a (l ∷ files) = HeadFrom a l × HeadsFrom a files

less_down : (x y z : ℤ) → less y x ≡ false → less z x ≡ true → less y z ≡ false
less_down (pos x) (pos y) (pos z) h k = ground arith
less_down (pos x) (pos y) (negsuc z) h k = refl
less_down (pos x) (negsuc y) z h k = cc
less_down (negsuc x) y (pos z) h k = cc
less_down (negsuc x) (pos y) (negsuc z) h k = refl
less_down (negsuc x) (negsuc y) (negsuc z) h k = ground arith

less_up : (x y z : ℤ) → less y x ≡ false → less x z ≡ false → less y z ≡ false
less_up (pos x) (pos y) (pos z) h k = ground arith
less_up (pos x) (pos y) (negsuc z) h k = refl
less_up (pos x) (negsuc y) z h k = cc
less_up (negsuc x) y (pos z) h k = cc
less_up (negsuc x) (pos y) (negsuc z) h k = refl
less_up (negsuc x) (negsuc y) (negsuc z) h k = ground arith

HeadsFrom-down :
    (x z : ℤ) (files : List (List ℤ)) → HeadsFrom x files → less z x ≡ true → HeadsFrom z files
HeadsFrom-down x z [] h k = tt
HeadsFrom-down x z ([] ∷ files) (h, hs) k = (tt, HeadsFrom-down x z files hs k)
HeadsFrom-down x z ((y ∷ ys) ∷ files) (h, hs) k =
    (less_down x y z h k, HeadsFrom-down x z files hs k)

-- File `k` begins with `x`, which no file begins below; what the files are behind it.
pub record Picked (files : List (List ℤ)) (x : ℤ) (k : ℕ) : Type 0 where
  pub moved : List (List ℤ)
  pub advanced : advance_cursor k files ≡ some moved
  pub moved_sorted : AllSorted moved
  pub heads : HeadsFrom x moved
  pub below : AllBelow files → AllBelow moved
  pub at_least : (b : ℤ) → HeadsFrom b files → less x b ≡ false
  pub counted : (a : ℤ) → count_all a files ≡ (if same_int a x then 1 else 0) + count_all a moved
  pub one_less : total_count files ≡ suc (total_count moved)

-- The first file is picked.
Picked-here :
    (x : ℤ) (xs : List ℤ) (files : List (List ℤ))
    → AllSorted ((x ∷ xs) ∷ files)
    → HeadsFrom x files
    → Picked ((x ∷ xs) ∷ files) x 0
Picked-here x xs files ((h, s), ss) hs = record {
  moved = xs ∷ files;
  advanced = refl;
  moved_sorted = (s, ss);
  heads = (h, hs);
  below = λ b. (b.0.1, b.1);
  at_least = λ b g. g.0;
  counted = λ a. omega arith;
  one_less = omega arith;
}

-- A file behind the first is picked.
Picked-later :
    (l : List ℤ) (files : List (List ℤ)) (x : ℤ) (k : ℕ)
    → IsSorted l
    → HeadFrom x l
    → Picked files x k
    → Picked (l ∷ files) x (suc k)
Picked-later l files x k s h p = record {
  moved = l ∷ p.moved;
  advanced = rw (p.advanced) refl;
  moved_sorted = (s, p.moved_sorted);
  heads = (h, p.heads);
  below = λ b. (b.0, p.below b.1);
  at_least = λ b g. p.at_least b g.1;
  counted = λ a. omega (arith, p.counted a);
  one_less = omega (arith, p.one_less);
}

abbrev pub Found : ℕ → List (List ℤ) → ℤ → Option ℕ → Type 0
Found j files m mj =
    ((least j files m mj ≡ (m, mj)) × HeadsFrom m files)
    ⊎ ((k : ℕ) × (x : ℤ) × (least j files m mj ≡ (x, some (j + k)))
        × (less x m ≡ true)
        × Picked files x k)

pub least-Found :
    (j : ℕ) (files : List (List ℤ)) (m : ℤ) (mj : Option ℕ) → AllSorted files → Found j files m mj
least-Found j [] m mj s = inl (refl, tt)
least-Found j ([] ∷ files) m mj (s, ss) = elim (least-Found (j + 1) files m mj ss) [
  | inl (e, h) ↦ inl (e, (tt, h))
  | inr (k, x, e, lt, p) ↦
      inr (suc k, x, e ∙ ap (λ i. (x, some i)) (omega arith), lt, Picked-later [] files x k tt tt p)
]
least-Found j ((y ∷ ys) ∷ files) m mj (s, ss) = elim (Bool-cases (less y m)) [
  | inl lt ↦ elim (least-Found (j + 1) files y (some j) ss) [
    | inl (e, h) ↦ inr (
      0,
      y,
      taken lt ∙ e ∙ ap (λ i. (y, some i)) (omega arith),
      lt,
      Picked-here y ys files (s, ss) h,
    )
    | inr (k, x, e, lt', p) ↦ inr (
      suc k,
      x,
      taken lt ∙ e ∙ ap (λ i. (x, some i)) (omega arith),
      less_trans x y m lt' lt,
      Picked-later (y ∷ ys) files x k s (less-asym x y lt') p,
    )
  ]
  | inr ge ↦ elim (least-Found (j + 1) files m mj ss) [
    | inl (e, h) ↦ inl (left_alone ge ∙ e, (ge, h))
    | inr (k, x, e, lt, p) ↦ inr (
      suc k,
      x,
      left_alone ge ∙ e ∙ ap (λ i. (x, some i)) (omega arith),
      lt,
      Picked-later (y ∷ ys) files x k s (less_down m y x ge lt) p,
    )
  ]
]
  where
    taken : less y m ≡ true → least j ((y ∷ ys) ∷ files) m mj ≡ least (j + 1) files y (some j)
    taken lt = ap (λ b. least (j + 1) files (if b then y else m) (if b then some j else mj)) lt

    left_alone : less y m ≡ false → least j ((y ∷ ys) ∷ files) m mj ≡ least (j + 1) files m mj
    left_alone ge = ap (λ b. least (j + 1) files (if b then y else m) (if b then some j else mj)) ge

    less_trans : (a b c : ℤ) → less a b ≡ true → less b c ≡ true → less a c ≡ true
    less_trans (pos a) (pos b) (pos c) h k = ground arith
    less_trans (pos a) (negsuc b) c h k = cc
    less_trans (pos a) (pos b) (negsuc c) h k = cc
    less_trans (negsuc a) b (pos c) h k = refl
    less_trans (negsuc a) (pos b) (negsuc c) h k = cc
    less_trans (negsuc a) (negsuc b) (negsuc c) h k = ground arith
