-- ===== src/Sort/Merge.antt =====
-- `merge_sort` of 1/mine/main.c on the numbers between its two pointers.
--
-- It writes to that part of the array only, so the part is a list that is handed on. Between merges
-- it may yield to other coroutines, which work on other arrays. The merge runs on fuel, as its
-- loop does, one for each place of the buffer; the recursion on fuel of the length, which halves.
use sysprog_exercises.Prelude.{
  ℕ, zero, suc, ◌/◌, Bool, true, false, List, [], ◌∷◌, length, take, drop, if◌then◌else◌, ltb, leb,
  ◌==◌,
}
use sysprog_exercises.Prelude.Int.{ℤ, pos, negsuc}

-- `<` on `int`
abbrev pub less : ℤ → ℤ → Bool
less (pos m) (pos n) = ltb m n
less (pos m) (negsuc n) = false
less (negsuc m) (pos n) = true
less (negsuc m) (negsuc n) = ltb n m

-- What goes to the buffer from `cur1` and `cur2` on.
unfoldable pub merge : ℕ → List ℤ → List ℤ → List ℤ
merge zero left right = []
merge (suc k) [] right = right
merge (suc k) (x ∷ xs) [] = x ∷ xs
merge (suc k) (x ∷ xs) (y ∷ ys) =
    let from_left = merge k xs (y ∷ ys) in
    let from_right = merge k (x ∷ xs) ys in if less x y then x ∷ from_left else y ∷ from_right

-- Two numbers are swapped if they stand the wrong way round.
unfoldable pub order_two : List ℤ → List ℤ
order_two (x ∷ y ∷ rest) = if less y x then y ∷ x ∷ rest else x ∷ y ∷ rest
order_two other = other

unfoldable pub merge_sort : ℕ → List ℤ → List ℤ
unfolding merge order_two
merge_sort zero l = l
merge_sort (suc k) l =
    let len = length l in
    let left = merge_sort k (take (len / 2) l) in
    let right = merge_sort k (drop (len / 2) l) in
    if leb len 1 then l else (if len == 2 then order_two l else merge len left right)
