-- ===== src/Sort/Results.antt =====
-- The end of `main` of 1/mine/main.c: the sorted files are merged by their cursors.
--
-- A file is the list of its numbers from its cursor on. `min_j` without a file is `SIZE_MAX`, at which
-- the source writes outside of `cursors`: the outcome `none`.
use sysprog_exercises.Prelude.{
  ℕ, zero, suc, ◌+◌, Option, none, some, List, [], ◌∷◌, length, if◌then◌else◌,
}
use sysprog_exercises.Prelude.Int.{ℤ, pos}
use sysprog_exercises.Sort.Merge.{less}

-- `INT_MAX`
abbrev pub int_max : ℤ
int_max = pos 2147483647

-- `total_count`
abbrev pub total_count : List (List ℤ) → ℕ
total_count [] = 0
total_count (l ∷ files) = length l + total_count files

-- The search for the least number, from file `j` on.
abbrev pub least : ℕ → List (List ℤ) → ℤ → Option ℕ → ℤ × Option ℕ
least j [] min min_j = (min, min_j)
least j ([] ∷ files) min min_j = least (j + 1) files min min_j
least j ((value ∷ rest) ∷ files) min min_j =
    least (j + 1) files (if less value min then value else min)
      (if less value min then some j else min_j)

-- `cursors[j]++`
abbrev pub advance_cursor : ℕ → List (List ℤ) → Option (List (List ℤ))
advance_cursor j [] = none
advance_cursor zero ([] ∷ files) = none
advance_cursor zero ((x ∷ xs) ∷ files) = some (xs ∷ files)
advance_cursor (suc j) (l ∷ files) = elim (advance_cursor j files) [
  | none ↦ none
  | some moved ↦ some (l ∷ moved)
]

-- `merged`, from place `t` on, with `n` places left.
unfoldable pub merge_results : ℕ → List (List ℤ) → Option (List ℤ)
merge_results zero files = some []
merge_results (suc n) files =
    let r = least 0 files int_max none in
    elim r.1 [
      | none ↦ none
      | some j ↦ elim (advance_cursor j files) [
        | none ↦ none
        | some moved ↦ elim (merge_results n moved) [
          | none ↦ none
          | some merged ↦ some (r.0 ∷ merged)
        ]
      ]
    ]
