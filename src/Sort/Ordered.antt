-- ===== src/Sort/Ordered.antt =====
-- `merge_sort` of 1/mine/main.c against the order of the numbers and their counts.
use sysprog_exercises.Prelude.{
  ℕ, zero, suc, ◌+◌, ◌/◌, ◌≤◌, ◌≡◌, refl, ap, ◌∙◌, sym, Bool, true, false, List, [], ◌∷◌, ◌++◌,
  arith, length, take, drop, if◌then◌else◌, leb, ◌==◌, inl, inr, Bool-cases, length-append,
  take-append-drop, length-drop, length-take_of_le,
}
use sysprog_exercises.Prelude.Int.{ℤ, pos, negsuc}
use sysprog_exercises.Sort.Merge.{less, merge, order_two, merge_sort}

-- The first number of the list, if any, is no less than `a`.
abbrev pub HeadFrom : ℤ → List ℤ → Type 0
HeadFrom a [] = Unit {0}
HeadFrom a (x ∷ xs) = less x a ≡ false

-- No number is less than the one before it.
abbrev pub IsSorted : List ℤ → Type 0
IsSorted [] = Unit {0}
IsSorted (x ∷ xs) = HeadFrom x xs × IsSorted xs

abbrev pub same_int : ℤ → ℤ → Bool
same_int (pos m) (pos n) = m == n
same_int (negsuc m) (negsuc n) = m == n
same_int a b = false

-- How often a number stands in a list.
abbrev pub count : ℤ → List ℤ → ℕ
count a [] = 0
count a (x ∷ xs) = (if same_int a x then 1 else 0) + count a xs

pub less-asym : (a b : ℤ) → less a b ≡ true → less b a ≡ false
less-asym (pos m) (pos n) h = ground arith
less-asym (pos m) (negsuc n) h = cc
less-asym (negsuc m) (pos n) h = refl
less-asym (negsuc m) (negsuc n) h = ground arith

HeadFrom-merge :
    (k : ℕ) (a : ℤ) (l r : List ℤ) → HeadFrom a l → HeadFrom a r → HeadFrom a (merge k l r)
unfolding merge
HeadFrom-merge zero a l r hl hr = tt
HeadFrom-merge (suc k) a [] r hl hr = hr
HeadFrom-merge (suc k) a (x ∷ xs) [] hl hr = hl
HeadFrom-merge (suc k) a (x ∷ xs) (y ∷ ys) hl hr = elim (Bool-cases (less x y)) [
  | inl t ↦ rw t hl
  | inr t ↦ rw t hr
]

merge-IsSorted : (k : ℕ) (l r : List ℤ) → IsSorted l → IsSorted r → IsSorted (merge k l r)
unfolding merge
merge-IsSorted zero l r sl sr = tt
merge-IsSorted (suc k) [] r sl sr = sr
merge-IsSorted (suc k) (x ∷ xs) [] sl sr = sl
merge-IsSorted (suc k) (x ∷ xs) (y ∷ ys) sl sr = elim (Bool-cases (less x y)) [
  | inl t ↦
      rw t (
        HeadFrom-merge k x xs (y ∷ ys) sl.0 (less-asym x y t),
        merge-IsSorted k xs (y ∷ ys) sl.1 sr,
      )
  | inr t ↦ rw t (HeadFrom-merge k y (x ∷ xs) ys t sr.0, merge-IsSorted k (x ∷ xs) ys sl sr.1)
]

count-merge :
    (k : ℕ) (a : ℤ) (l r : List ℤ)
    → length l + length r ≤ k
    → count a (merge k l r) ≡ count a l + count a r
unfolding merge
count-merge zero a [] [] h = omega arith
count-merge zero a [] (y ∷ ys) h = absurd (omega arith)
count-merge zero a (x ∷ xs) r h = absurd (omega arith)
count-merge (suc k) a [] r h = omega arith
count-merge (suc k) a (x ∷ xs) [] h = omega arith
count-merge (suc k) a (x ∷ xs) (y ∷ ys) h = elim (Bool-cases (less x y)) [
  | inl t ↦ rw t (omega (arith, count-merge k a xs (y ∷ ys) (omega arith)))
  | inr t ↦ rw t (omega (arith, count-merge k a (x ∷ xs) ys (omega arith)))
]

count-append : (a : ℤ) (l r : List ℤ) → count a (l ++ r) ≡ count a l + count a r
count-append a [] r = omega arith
count-append a (x ∷ xs) r = omega (arith, count-append a xs r)

length-merge :
    (k : ℕ) (l r : List ℤ) → length l + length r ≤ k → length (merge k l r) ≡ length l + length r
unfolding merge
length-merge zero [] [] h = omega arith
length-merge zero [] (y ∷ ys) h = absurd (omega arith)
length-merge zero (x ∷ xs) r h = absurd (omega arith)
length-merge (suc k) [] r h = omega arith
length-merge (suc k) (x ∷ xs) [] h = omega arith
length-merge (suc k) (x ∷ xs) (y ∷ ys) h = elim (Bool-cases (less x y)) [
  | inl t ↦ rw t (omega (arith, length-merge k xs (y ∷ ys) (omega arith)))
  | inr t ↦ rw t (omega (arith, length-merge k (x ∷ xs) ys (omega arith)))
]

-- The numbers of `l` in order.
record SortOf (l s : List ℤ) : Type 0 where
  sorted : IsSorted s
  counts : (a : ℤ) → count a s ≡ count a l
  same_length : length s ≡ length l

SortOf-short : (l : List ℤ) → length l ≤ 1 → SortOf l l
SortOf-short [] h = record { sorted = tt; counts = λ a. refl; same_length = refl }
SortOf-short (x ∷ []) h = record { sorted = (tt, tt); counts = λ a. refl; same_length = refl }
SortOf-short (x ∷ y ∷ l) h = absurd (omega arith)

SortOf-order_two : (l : List ℤ) → length l ≡ 2 → SortOf l (order_two l)
unfolding order_two
SortOf-order_two [] h = absurd (omega arith)
SortOf-order_two (x ∷ []) h = absurd (omega arith)
SortOf-order_two (x ∷ y ∷ z ∷ l) h = absurd (omega arith)
SortOf-order_two (x ∷ y ∷ []) h = elim (Bool-cases (less y x)) [
  | inl t ↦ rw t (record {
    sorted = (less-asym y x t, (tt, tt));
    counts = λ a. omega arith;
    same_length = refl;
  })
  | inr t ↦ rw t (record { sorted = (t, (tt, tt)); counts = λ a. refl; same_length = refl })
]

SortOf-merge :
    (n : ℕ) (l left right : List ℤ)
    → SortOf (take n l) left
    → SortOf (drop n l) right
    → SortOf l (merge (length l) left right)
SortOf-merge n l left right hl hr =
    let parts : length (take n l) + length (drop n l) ≡ length l =
      sym (length-append (take n l) (drop n l)) ∙ ap length (take-append-drop n l) in
    let fits : length left + length right ≤ length l =
      omega (arith, hl.same_length, hr.same_length) in
    record {
      sorted = merge-IsSorted (length l) left right hl.sorted hr.sorted;
      counts = λ a.
          let both : count a (take n l) + count a (drop n l) ≡ count a l =
            sym (count-append a (take n l) (drop n l)) ∙ ap (count a) (take-append-drop n l) in
          omega (arith, count-merge (length l) a left right fits, hl.counts a, hr.counts a);
      same_length =
          omega (arith, length-merge (length l) left right fits, hl.same_length, hr.same_length);
    }

merge_sort-SortOf : (k : ℕ) (l : List ℤ) → length l ≤ k → SortOf l (merge_sort k l)
unfolding merge_sort
merge_sort-SortOf zero l h = SortOf-short l (omega arith)
merge_sort-SortOf (suc k) l h = elim (Bool-cases (leb (length l) 1)) [
  | inl short ↦ rw short (SortOf-short l (ground arith))
  | inr long ↦ elim (Bool-cases (length l == 2)) [
    | inl two ↦ rw (long, two) (SortOf-order_two l (ground arith))
    | inr more ↦
        let half = length l / 2 in
        let three : 3 ≤ length l = ground arith in
        let front : length (take half l) ≡ half = length-take_of_le half l (omega arith) in
        rw (long, more)
          (SortOf-merge half l _ _ (merge_sort-SortOf k (take half l) (omega arith))
            (merge_sort-SortOf k (drop half l) (omega (arith, length-drop half l))))
  ]
]

pub length-merge_sort : (k : ℕ) (l : List ℤ) → length l ≤ k → length (merge_sort k l) ≡ length l
length-merge_sort k l h = (merge_sort-SortOf k l h).same_length

-- With fuel of at least the length, `merge_sort` leaves the numbers it was given, each as often as before,
-- in an order in which none is less than the one before it.
pub merge_sort-IsSorted :
    (k : ℕ) (l : List ℤ)
    → length l ≤ k
    → IsSorted (merge_sort k l) × ((a : ℤ) → count a (merge_sort k l) ≡ count a l)
merge_sort-IsSorted k l h = let s = merge_sort-SortOf k l h in (s.sorted, s.counts)
