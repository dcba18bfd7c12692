-- ===== src/Sort/Merged.antt =====
-- The merge of the sorted files of 1/mine/main.c against their order and counts.
use sysprog_exercises.Prelude.{
  ℕ, zero, suc, ◌+◌, ◌≡◌, inl, inr, refl, ap, ◌∙◌, sym, Option, none, some, List, [], ◌∷◌, arith,
  if◌then◌else◌,
}
use sysprog_exercises.Prelude.Int.{ℤ}
use sysprog_exercises.Sort.Ordered.{HeadFrom, IsSorted, count}
use sysprog_exercises.Sort.Results.{int_max, total_count, least, advance_cursor, merge_results}
use sysprog_exercises.Sort.Picks.{AllSorted, AllBelow, count_all, HeadsFrom, least-Found}

-- No file is left with a number.
no_heads :
    (files : List (List ℤ)) → HeadsFrom int_max files → AllBelow files → total_count files ≡ 0
no_heads [] h b = refl
no_heads ([] ∷ files) (h, hs) (b, bs) = omega (arith, no_heads files hs bs)
no_heads ((x ∷ xs) ∷ files) (h, hs) ((lt, b), bs) = cc

-- What the merge makes of the files.
abbrev Merges : ℕ → List (List ℤ) → Type 0
Merges n files =
    (merged : List ℤ) × (merge_results n files ≡ some merged)
    × IsSorted merged
    × ((a : ℤ) → count a merged ≡ count_all a files)
    × ((b : ℤ) → HeadsFrom b files → HeadFrom b merged)

no_counts : (a : ℤ) (files : List (List ℤ)) → total_count files ≡ 0 → count_all a files ≡ 0
no_counts a [] e = refl
no_counts a ([] ∷ files) e = omega (arith, no_counts a files (omega arith))
no_counts a ((x ∷ xs) ∷ files) e = absurd (omega arith)

merge_results-Merges :
    (n : ℕ) (files : List (List ℤ))
    → AllSorted files
    → AllBelow files
    → total_count files ≡ n
    → Merges n files
unfolding merge_results
merge_results-Merges zero files s b e = ([], refl, tt, λ a. sym (no_counts a files e), λ b h. tt)
merge_results-Merges (suc n) files s b e = elim (least-Found 0 files int_max none s) [
  | inl (eq, h) ↦ absurd (omega (arith, no_heads files h b))
  | inr (k, x, eq, lt, p) ↦
      let rest =
        merge_results-Merges n p.moved p.moved_sorted (p.below b) (omega (arith, p.one_less)) in
      (
        x ∷ rest.0,
        round x k p.moved rest.0 (eq ∙ ap (λ i. (x, some i)) (omega arith)) p.advanced rest.1,
        (rest.4 x p.heads, rest.2),
        λ a. omega (arith, p.counted a, rest.3 a),
        λ b h. p.at_least b h,
      )
]
  where
    round :
        (x : ℤ) (k : ℕ) (moved : List (List ℤ)) (merged : List ℤ)
        → least 0 files int_max none ≡ (x, some k)
        → advance_cursor k files ≡ some moved
        → merge_results n moved ≡ some merged
        → merge_results (suc n) files ≡ some (x ∷ merged)
    round x k moved merged eq ad rs =
        ap after eq
        ∙ ap
            (λ o. elim o [
              | none ↦ none
              | some moved ↦ elim (merge_results n moved) [
                | none ↦ none
                | some merged ↦ some (x ∷ merged)
              ]
            ])
            ad
        ∙ ap (λ o. elim o [ none ↦ none | some merged ↦ some (x ∷ merged) ]) rs
      where
        after : ℤ × Option ℕ → Option (List ℤ)
        after r = elim r.1 [
          | none ↦ none
          | some j ↦ elim (advance_cursor j files) [
            | none ↦ none
            | some moved ↦ elim (merge_results n moved) [
              | none ↦ none
              | some merged ↦ some (r.0 ∷ merged)
            ]
          ]
        ]

-- If every file is in order and no number is `INT_MAX`, the merge stays inside its arrays, and its result
-- is in order and holds each number as often as the files together.
pub merge_results-IsSorted :
    (files : List (List ℤ))
    → AllSorted files
    → AllBelow files
    → (merged : List ℤ) × (merge_results (total_count files) files ≡ some merged)
      × IsSorted merged
      × ((a : ℤ) → count a merged ≡ count_all a files)
merge_results-IsSorted files s b =
    let m = merge_results-Merges (total_count files) files s b refl in (m.0, m.1, m.2, m.3)

-- If no file begins with a number below `INT_MAX`, a further round of the merge writes outside of the
-- array of cursors.
pub merge_results-max :
    (n : ℕ) (files : List (List ℤ)) → HeadsFrom int_max files → merge_results (suc n) files ≡ none
unfolding merge_results
merge_results-max n files h = ap after (none_found 0 files h)
  where
    none_found :
        (j : ℕ) (files : List (List ℤ))
        → HeadsFrom int_max files
        → least j files int_max none ≡ (int_max, none)
    none_found j [] h = refl
    none_found j ([] ∷ files) (h, hs) = none_found (j + 1) files hs
    none_found j ((y ∷ ys) ∷ files) (h, hs) =
        ap (λ b. least (j + 1) files (if b then y else int_max) (if b then some j else none)) h
        ∙ none_found (j + 1) files hs

    after : ℤ × Option ℕ → Option (List ℤ)
    after r = elim r.1 [
      | none ↦ none
      | some j ↦ elim (advance_cursor j files) [
        | none ↦ none
        | some moved ↦ elim (merge_results n moved) [
          | none ↦ none
          | some merged ↦ some (r.0 ∷ merged)
        ]
      ]
    ]
