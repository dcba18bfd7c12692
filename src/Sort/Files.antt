-- ===== src/Sort/Files.antt =====
-- 1/mine/main.c from the numbers in its files to the merged ones.
use sysprog_exercises.Prelude.{
  ◌+◌, ◌≡◌, refl, ap, ◌∙◌, sym, true, false, Option, some, List, [], ◌∷◌, map, arith, length,
  if◌then◌else◌, inl, inr, Bool-cases, ltb,
}
use sysprog_exercises.Prelude.Int.{ℤ, pos, negsuc}
use sysprog_exercises.Sort.Merge.{less, merge_sort}
use sysprog_exercises.Sort.Ordered.{IsSorted, same_int, count, merge_sort-IsSorted}
use sysprog_exercises.Sort.Results.{int_max, total_count, merge_results}
use sysprog_exercises.Sort.Picks.{AllSorted, Below, AllBelow, count_all}
use sysprog_exercises.Sort.Merged.{merge_results-IsSorted}

-- The files behind `loop_start`, each sorted once.
abbrev pub sorted_files : List (List ℤ) → List (List ℤ)
sorted_files = map (λ l. merge_sort (length l) l)

unfoldable pub sort_files : List (List ℤ) → Option (List ℤ)
unfolding merge_results
sort_files files = merge_results (total_count (sorted_files files)) (sorted_files files)

same_int_refl : (x : ℤ) → same_int x x ≡ true
same_int_refl (pos n) = ground arith
same_int_refl (negsuc n) = ground arith

same_int-less : (a x : ℤ) → same_int a x ≡ true → less a int_max ≡ less x int_max
same_int-less (pos a) (pos x) e = ap (λ n. ltb n 2147483647) (ground arith)
same_int-less (pos a) (negsuc x) e = cc
same_int-less (negsuc a) (pos x) e = cc
same_int-less (negsuc a) (negsuc x) e = refl

-- A list below `INT_MAX` is one in which no other number stands.
count-Below : (a : ℤ) (l : List ℤ) → less a int_max ≡ false → Below l → count a l ≡ 0
count-Below a [] e b = refl
count-Below a (x ∷ xs) e (lt, b) = elim (Bool-cases (same_int a x)) [
  | inl same ↦ absurd (true_false (sym lt ∙ sym (same_int-less a x same) ∙ e))
  | inr apart ↦ rw apart (omega (arith, count-Below a xs e b))
]
  where
    true_false : true ≡ false → ⊥
    true_false e = cc

Below-counts : (l : List ℤ) → ((a : ℤ) → less a int_max ≡ false → count a l ≡ 0) → Below l
Below-counts [] h = tt
Below-counts (x ∷ xs) h = (head, Below-counts xs (λ a e. omega (arith, h a e)))
  where
    head : less x int_max ≡ true
    head = elim (Bool-cases (less x int_max)) [
      | inl lt ↦ lt
      | inr ge ↦ absurd (one_more (h x ge) (same_int_refl x))
    ]
      where
        one_more : count x (x ∷ xs) ≡ 0 → same_int x x ≡ true → ⊥
        one_more e same =
            absurd (omega (arith, e, ap (λ b. (if b then 1 else 0) + count x xs) same))

sorted_files_lem :
    (files : List (List ℤ))
    → AllSorted (sorted_files files)
      × ((a : ℤ) → count_all a (sorted_files files) ≡ count_all a files)
sorted_files_lem [] = (tt, λ a. refl)
sorted_files_lem (l ∷ files) =
    let here = merge_sort-IsSorted (length l) l (omega arith) in
    let rest = sorted_files_lem files in ((here.0, rest.0), λ a. omega (arith, here.1 a, rest.1 a))

sorted_files-AllBelow : (files : List (List ℤ)) → AllBelow files → AllBelow (sorted_files files)
sorted_files-AllBelow [] b = tt
sorted_files-AllBelow (l ∷ files) (b, bs) = (
  Below-counts (merge_sort (length l) l)
      (λ a e. (merge_sort-IsSorted (length l) l (omega arith)).1 a ∙ count-Below a l e b),
  sorted_files-AllBelow files bs,
)

-- If no number in the files is `INT_MAX`, the merge of the files' sorted results stays inside its arrays,
-- and what is printed is in order and holds each number as often as the files together.
pub sort_files-IsSorted :
    (files : List (List ℤ))
    → AllBelow files
    → (merged : List ℤ) × (sort_files files ≡ some merged)
      × IsSorted merged
      × ((a : ℤ) → count a merged ≡ count_all a files)
unfolding sort_files
sort_files-IsSorted files b =
    let s = sorted_files_lem files in
    let m = merge_results-IsSorted (sorted_files files) s.0 (sorted_files-AllBelow files b) in
    (m.0, m.1, m.2, λ a. m.3 a ∙ s.1 a)
