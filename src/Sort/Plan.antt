-- ===== src/Sort/Plan.antt =====
-- `merge_sort` of 1/mine/main.c on the array that a coroutine shares, one write of a part at a time.
--
-- The recursion and its bounds depend on the length alone. What it does to the array is a list of writes in
-- turn: a swap of two numbers, or the `memcpy` of a merge, behind which the source may yield.
use sysprog_exercises.Prelude.{
  ℕ, zero, suc, ◌+◌, ◌-◌, ◌/◌, ◌≤◌, ◌≡◌, refl, ap, ◌∙◌, sym, subst, List, [], ◌∷◌, ◌++◌, arith,
  length, take, drop, if◌then◌else◌, leb, ◌==◌, inl, inr, Bool-cases, length-append,
  take-append-drop, length-drop, length-take_of_le,
}
use mathlib.Core.List.{append_assoc, append-nil}
use sysprog_exercises.Prelude.Int.{ℤ}
use sysprog_exercises.Sort.Merge.{merge, order_two, merge_sort}
use sysprog_exercises.Sort.Ordered.{length-merge_sort}

-- The part's first place, and its length.
pub data Write : Type 0 where
  order_at : ℕ → Write
  merge_at : ℕ → ℕ → Write

-- The writes to the part of `len` numbers from `l` on.
unfoldable pub writes : ℕ → ℕ → ℕ → List Write
writes zero l len = []
writes (suc k) l len =
    let left = writes k l (len / 2) in
    let right = writes k (l + len / 2) (len - len / 2) in
    if leb len 1
    then []
    else (if len == 2 then order_at l ∷ [] else left ++ (right ++ (merge_at l len ∷ [])))

abbrev pub on_part : (List ℤ → List ℤ) → ℕ → ℕ → List ℤ → List ℤ
on_part f l len a = take l a ++ (f (take len (drop l a)) ++ drop len (drop l a))

-- Both halves of a part merged.
abbrev pub merge_halves : ℕ → List ℤ → List ℤ
merge_halves len part = merge len (take (len / 2) part) (drop (len / 2) part)

unfoldable pub write : Write → List ℤ → List ℤ
unfolding order_two merge
write (order_at l) a = on_part order_two l 2 a
write (merge_at l len) a = on_part (merge_halves len) l len a

abbrev pub write_all : List Write → List ℤ → List ℤ
write_all [] a = a
write_all (w ∷ ws) a = write_all ws (write w a)

write_all-append :
    (ws vs : List Write) (a : List ℤ) → write_all (ws ++ vs) a ≡ write_all vs (write_all ws a)
write_all-append [] vs a = refl
write_all-append (w ∷ ws) vs a = write_all-append ws vs (write w a)

take_front : (xs ys : List ℤ) → take (length xs) (xs ++ ys) ≡ xs
take_front [] ys = refl
take_front (x ∷ xs) ys = ap (λ r. x ∷ r) (take_front xs ys)

drop_front : (xs ys : List ℤ) → drop (length xs) (xs ++ ys) ≡ ys
drop_front [] ys = refl
drop_front (x ∷ xs) ys = drop_front xs ys

on_part_lem :
    (f : List ℤ → List ℤ) (l len : ℕ) (before part behind : List ℤ)
    → length before ≡ l
    → length part ≡ len
    → on_part f l len (before ++ (part ++ behind)) ≡ before ++ (f part ++ behind)
on_part_lem f l len before part behind at' here =
    subst (λ l. on_part f l len (before ++ (part ++ behind)) ≡ before ++ (f part ++ behind)) at'
      (subst
        (λ n.
          on_part f (length before) n (before ++ (part ++ behind)) ≡ before ++ (f part ++ behind))
        here
        (rw
          (
            take_front before (part ++ behind),
            drop_front before (part ++ behind),
            take_front part behind,
            drop_front part behind,
          )
          refl))

merge_halves_lem :
    (len : ℕ) (left right : List ℤ)
    → length left ≡ len / 2
    → merge_halves len (left ++ right) ≡ merge len left right
merge_halves_lem len left right e =
    subst (λ h. merge len (take h (left ++ right)) (drop h (left ++ right)) ≡ merge len left right)
      e (rw (take_front left right, drop_front left right) refl)

pair :
    (before part behind : List ℤ)
    → length part ≡ 2
    → write (order_at (length before)) (before ++ (part ++ behind))
      ≡ before ++ (order_two part ++ behind)
unfolding write
pair before part behind two = on_part_lem order_two (length before) 2 before part behind refl two

merges :
    (len : ℕ) (before left right behind : List ℤ)
    → length left ≡ len / 2
    → length left + length right ≡ len
    → write (merge_at (length before) len) (before ++ (left ++ (right ++ behind)))
      ≡ before ++ (merge len left right ++ behind)
unfolding write
merges len before left right behind half all =
    ap (λ a. on_part (merge_halves len) (length before) len (before ++ a))
      (sym (append_assoc left right behind))
    ∙ on_part_lem (merge_halves len) (length before) len before (left ++ right) behind refl
        (length-append left right ∙ all)
    ∙ ap (λ a. before ++ (a ++ behind)) (merge_halves_lem len left right half)

-- What the writes of a fuel come to.
abbrev Sorts : ℕ → Type 0
Sorts k =
    (before part behind : List ℤ)
    → length part ≤ k
    → write_all (writes k (length before) (length part)) (before ++ (part ++ behind))
      ≡ before ++ (merge_sort k part ++ behind)

-- The same for a part that is known by its bounds.
between :
    (k l n : ℕ) (before part behind : List ℤ)
    → Sorts k
    → length before ≡ l
    → length part ≡ n
    → n ≤ k
    → write_all (writes k l n) (before ++ (part ++ behind))
      ≡ before ++ (merge_sort k part ++ behind)
between k l n before part behind sorts at' here le =
    ap (λ l. write_all (writes k l n) (before ++ (part ++ behind))) (sym at')
    ∙ ap (λ n. write_all (writes k (length before) n) (before ++ (part ++ behind))) (sym here)
    ∙ sorts before part behind (omega arith)

module _ (k : ℕ) (before part behind : List ℤ) (sorts : Sorts k) (le : length part ≤ suc k)
    (three : 3 ≤ length part) where
  abbrev half : ℕ
  half = length part / 2

  abbrev left : List ℤ
  left = merge_sort k (take half part)

  abbrev right : List ℤ
  right = merge_sort k (drop half part)

  halves :
      write_all
        (writes k (length before) half
          ++ (writes k (length before + half) (length part - half)
              ++ (merge_at (length before) (length part) ∷ [])))
        (before ++ (part ++ behind))
      ≡ before ++ (merge (length part) left right ++ behind)
  halves =
      let front : length (take half part) ≡ half = length-take_of_le half part (omega arith) in
      let rest : length (drop half part) ≡ length part - half = length-drop half part in
      let size_left : length left ≡ half =
        length-merge_sort k (take half part) (omega arith) ∙ front in
      let size_right : length right ≡ length part - half =
        length-merge_sort k (drop half part) (omega arith) ∙ rest in
      let merged = merge_at (length before) (length part) ∷ [] in
      let second = writes k (length before + half) (length part - half) in
      let whole : before ++ (part ++ behind)
          ≡ before ++ (take half part ++ (drop half part ++ behind)) =
        ap (λ p. before ++ (p ++ behind)) (sym (take-append-drop half part))
        ∙ ap (λ p. before ++ p) (append_assoc (take half part) (drop half part) behind) in
      write_all-append (writes k (length before) half) (second ++ merged)
        (before ++ (part ++ behind))
      ∙ ap (λ a. write_all (second ++ merged) (write_all (writes k (length before) half) a)) whole
      ∙ ap (write_all (second ++ merged)) (
          between k (length before) half before (take half part) (drop half part ++ behind) sorts
            refl front (omega arith))
      ∙ write_all-append second merged (before ++ (left ++ (drop half part ++ behind)))
      ∙ ap (λ a. write_all merged (write_all second a))
          (sym (append_assoc before left (drop half part ++ behind)))
      ∙ ap (write_all merged) (
          between k (length before + half) (length part - half) (before ++ left) (drop half part)
            behind sorts (length-append before left ∙ omega (arith, size_left)) rest (omega arith)
          ∙ append_assoc before left (right ++ behind))
      ∙ merges (length part) before left right behind size_left
          (omega (arith, size_left, size_right))

-- The writes sort their part of the array as `merge_sort` does, and leave the rest.
write_all-Sorts : (k : ℕ) → Sorts k
unfolding writes merge_sort
write_all-Sorts zero before part behind le = refl
write_all-Sorts (suc k) before part behind le = elim (Bool-cases (leb (length part) 1)) [
  | inl short ↦ rw short refl
  | inr long ↦ elim (Bool-cases (length part == 2)) [
    | inl two ↦ rw (long, two) (pair before part behind (ground arith))
    | inr more ↦ rw (long, more) (halves k before part behind (write_all-Sorts k) le (ground arith))
  ]
]

-- The writes to a whole array sort it as `merge_sort` does.
pub write_all-merge_sort :
    (a : List ℤ) → write_all (writes (length a) 0 (length a)) a ≡ merge_sort (length a) a
write_all-merge_sort a =
    ap (write_all (writes (length a) 0 (length a))) (sym (append-nil a))
    ∙ write_all-Sorts (length a) [] a [] (omega arith)
    ∙ append-nil (merge_sort (length a) a)
