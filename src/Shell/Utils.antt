-- ===== src/Shell/Utils.antt =====
-- The growing list of 2/utils.c and 2/utils.h, with what lies in the memory of its spare places.
-- Allocation never fails in the model: `checked_realloc` exits then.
use sysprog_exercises.Prelude.{
  ℕ, ◌+◌, Option, none, some, List, [], ◌∷◌, ◌++◌, set, take, replicate, if◌then◌else◌, ◌==◌,
}

-- A place of `items`: as `realloc` leaves it, the `NULL` that `calloc` leaves, or an item.
pub data Cell (A : Type 0) : Type 0 where
  garbage : Cell A
  null : Cell A
  item : A → Cell A

-- `list`
pub record GrowingList (A : Type 0) : Type 0 where
  pub size : ℕ
  pub capacity : ℕ
  pub items : List (Cell A)

abbrev pub list_capacity : ℕ
list_capacity = 4

abbrev pub list_init : {A : Type 0} → GrowingList A
list_init = record { size = 0; capacity = list_capacity; items = replicate list_capacity null }

-- The first part of `list_add`.
unfoldable pub list_grow : {A : Type 0} → GrowingList A → GrowingList A
list_grow l =
    if l.size == l.capacity
    then record l {
      capacity = l.capacity + list_capacity;
      items = l.items ++ replicate list_capacity garbage;
    }
    else l

unfoldable pub list_add : {A : Type 0} → GrowingList A → A → GrowingList A
unfolding list_grow
list_add l x =
    let g = list_grow l in record g { items = set g.items g.size (item x); size = g.size + 1 }

unfoldable pub list_trim : {A : Type 0} → GrowingList A → GrowingList A
list_trim l = if l.size == 0 then l else record l { items = take l.size l.items; capacity = l.size }

-- The items that `list_free` hands to its cleaner, which passes over `NULL`; `none` if it hands on a
-- place that was never written.
unfoldable pub cleaned : {A : Type 0} → List (Cell A) → Option (List A)
cleaned [] = some []
cleaned (garbage ∷ cells) = none
cleaned (null ∷ cells) = cleaned cells
cleaned (item x ∷ cells) = elim (cleaned cells) [ none ↦ none | some xs ↦ some (x ∷ xs) ]

unfoldable pub list_free : {A : Type 0} → GrowingList A → Option (List A)
unfolding cleaned
list_free l = cleaned (take l.capacity l.items)

-- A `list_add` for each of the items.
unfoldable pub add_all : {A : Type 0} → GrowingList A → List A → GrowingList A
unfolding list_add
add_all l [] = l
add_all l (x ∷ xs) = add_all (list_add l x) xs
