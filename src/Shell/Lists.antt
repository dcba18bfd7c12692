-- ===== src/Shell/Lists.antt =====
-- The growing list of 2/utils.c against the list of the items that were added.
use mathlib.Core.List.{append_assoc, append-nil}
use sysprog_exercises.Prelude.{
  ℕ, zero, suc, ◌+◌, ◌*◌, ◌%◌, ◌<◌, ◌≡◌, ◌≢◌, refl, ap, subst, ◌∙◌, sym, none, some, true, false,
  List, [], ◌∷◌, ◌++◌, arith, length, set, take, replicate, map, length-append, ◌==◌,
}
use sysprog_exercises.Shell.Utils.{
  Cell, garbage, null, item, GrowingList, list_capacity, list_init, list_grow, list_add, list_trim,
  cleaned, list_free, add_all,
}

module _ {A : Type 0} where
  -- The places behind the items: `NULL` in the first array, never written in a longer one.
  data Spare (n : ℕ) : List (Cell A) → Type 0 where
    first : (k : ℕ) → n + k ≡ list_capacity → Spare n (replicate k null)
    later :
        (k m : ℕ) → k < list_capacity → n + k ≡ list_capacity * m → Spare n (replicate k garbage)

  -- The list holds these items.
  record Filled (l : GrowingList A) (xs : List A) : Type 0 where
    spare : List (Cell A)
    counted : l.size ≡ length xs
    cells : l.items ≡ map item xs ++ spare
    full : l.capacity ≡ length xs + length spare
    rest : Spare (length xs) spare

  length-map_item : (xs : List A) → length (map item xs) ≡ length xs
  length-map_item [] = refl
  length-map_item (x ∷ xs) = ap suc (length-map_item xs)

  length-replicate_cell : (k : ℕ) (c : Cell A) → length (replicate k c) ≡ k
  length-replicate_cell zero c = refl
  length-replicate_cell (suc k) c = ap suc (length-replicate_cell k c)

  set-end :
      (xs : List A) (c : Cell A) (cs : List (Cell A)) (x : A)
      → set (map item xs ++ (c ∷ cs)) (length xs) (item x) ≡ map item (xs ++ (x ∷ [])) ++ cs
  set-end [] c cs x = refl
  set-end (y ∷ ys) c cs x = ap (λ l. item y ∷ l) (set-end ys c cs x)

  take-items :
      (xs : List A) (cs : List (Cell A)) → take (length xs) (map item xs ++ cs) ≡ map item xs
  take-items [] [] = refl
  take-items [] (c ∷ cs) = refl
  take-items (x ∷ xs) cs = ap (λ l. item x ∷ l) (take-items xs cs)

  take-all_cells : (cs : List (Cell A)) → take (length cs) cs ≡ cs
  take-all_cells [] = refl
  take-all_cells (c ∷ cs) = ap (λ l. c ∷ l) (take-all_cells cs)

  cleaned-items : (xs : List A) → cleaned (map item xs) ≡ some xs
  unfolding cleaned
  cleaned-items [] = refl
  cleaned-items (x ∷ xs) = rw (cleaned-items xs, cleaned) refl

  cleaned-garbage :
      (xs : List A) (cs : List (Cell A)) → cleaned (map item xs ++ (garbage ∷ cs)) ≡ none
  unfolding cleaned
  cleaned-garbage [] cs = refl
  cleaned-garbage (x ∷ xs) cs = rw (cleaned-garbage xs cs, cleaned) refl

  -- An item goes to the first spare place.
  store-Filled :
      (l g : GrowingList A) (xs : List A) (x : A) (c : Cell A) (cs : List (Cell A))
      → list_grow l ≡ g
      → g.size ≡ length xs
      → g.items ≡ map item xs ++ (c ∷ cs)
      → g.capacity ≡ length xs + suc (length cs)
      → Spare (length xs + 1) cs
      → Filled (list_add l x) (xs ++ (x ∷ []))
  unfolding list_add
  store-Filled l g xs x c cs grown count cells full rest = record {
    spare = cs;
    counted = ap (λ h. h.size + 1) grown ∙ omega (arith, length-append xs (x ∷ []));
    cells =
        ap (λ h. set h.items h.size (item x)) grown
        ∙ ap (λ is. set is g.size (item x)) cells
        ∙ ap (λ n. set (map item xs ++ (c ∷ cs)) n (item x)) count
        ∙ set-end xs c cs x;
    full = ap (λ h. h.capacity) grown ∙ omega (arith, length-append xs (x ∷ []));
    rest = subst (λ n. Spare n cs) (sym (length-append xs (x ∷ []))) rest;
  }

  grow-room : (l : GrowingList A) → l.size ≢ l.capacity → list_grow l ≡ l
  unfolding list_grow
  grow-room l ne = let t : (l.size == l.capacity) ≡ false = ground arith in rw (t, list_grow) refl

  grow-full :
      (l : GrowingList A)
      → l.size ≡ l.capacity
      → list_grow l ≡ record l {
        capacity = l.capacity + list_capacity;
        items = l.items ++ replicate list_capacity garbage;
      }
  unfolding list_grow
  grow-full l e = let t : (l.size == l.capacity) ≡ true = ground arith in rw (t, list_grow) refl

  at_full :
      (l : GrowingList A) (xs : List A) (x : A) (m : ℕ)
      → l.size ≡ length xs
      → l.items ≡ map item xs ++ []
      → l.capacity ≡ length xs + 0
      → length xs ≡ list_capacity * m
      → Filled (list_add l x) (xs ++ (x ∷ []))
  at_full l xs x m count cells full e =
      store-Filled l _ xs x garbage (replicate 3 garbage) (grow-full l (omega arith)) count
        (ap (λ is. is ++ replicate list_capacity garbage) (cells ∙ append-nil (map item xs)))
        (omega arith) (later 3 (m + 1) (omega arith) (omega arith))

  add-Filled :
      (l : GrowingList A) (xs : List A) (x : A) (spare : List (Cell A))
      → l.size ≡ length xs
      → l.items ≡ map item xs ++ spare
      → l.capacity ≡ length xs + length spare
      → Spare (length xs) spare
      → Filled (list_add l x) (xs ++ (x ∷ []))
  add-Filled l xs x spare count cells full (first zero e) =
      at_full l xs x 1 count cells full (omega arith)
  add-Filled l xs x spare count cells full (later zero m lt e) =
      at_full l xs x m count cells full (omega arith)
  add-Filled l xs x spare count cells full (first (suc k) e) =
      store-Filled l l xs x null (replicate k null) (grow-room l (λ q. absurd (omega arith))) count
        cells full (first k (omega arith))
  add-Filled l xs x spare count cells full (later (suc k) m lt e) =
      store-Filled l l xs x garbage (replicate k garbage) (grow-room l (λ q. absurd (omega arith)))
        count cells full (later k m (omega arith) (omega arith))

  add_all-Filled :
      (xs ys : List A) (l : GrowingList A) → Filled l xs → Filled (add_all l ys) (xs ++ ys)
  unfolding add_all
  add_all-Filled xs [] l h = subst (Filled l) (sym (append-nil xs)) h
  add_all-Filled xs (y ∷ ys) l h =
      subst (Filled (add_all (list_add l y) ys)) (append_assoc xs (y ∷ []) ys) (
        add_all-Filled (xs ++ (y ∷ [])) ys (list_add l y)
          (add-Filled l xs y h.spare h.counted h.cells h.full h.rest))

  list_init-Filled : Filled list_init []
  list_init-Filled = record {
    spare = replicate list_capacity null;
    counted = refl;
    cells = refl;
    full = refl;
    rest = first list_capacity refl;
  }

  trim-eq :
      (l : GrowingList A)
      → l.size ≢ 0
      → list_trim l ≡ record l { items = take l.size l.items; capacity = l.size }
  unfolding list_trim
  trim-eq l ne = let t : (l.size == 0) ≡ false = ground arith in rw (t, list_trim) refl

  free-trimmed :
      (l : GrowingList A) (xs : List A)
      → length xs ≢ 0
      → Filled l xs
      → list_free (list_trim l) ≡ some xs
  unfolding list_free
  free-trimmed l xs ne h =
      ap list_free (trim-eq l (λ z. ne (sym h.counted ∙ z)))
      ∙ ap (λ n. cleaned (take n (take n l.items))) h.counted
      ∙ ap (λ is. cleaned (take (length xs) (take (length xs) is))) h.cells
      ∙ ap (λ is. cleaned (take (length xs) is)) (take-items xs h.spare)
      ∙ ap (λ n. cleaned (take n (map item xs))) (sym (length-map_item xs))
      ∙ ap cleaned (take-all_cells (map item xs))
      ∙ cleaned-items xs

  free-untrimmed :
      (l : GrowingList A) (xs : List A) (spare : List (Cell A))
      → l.items ≡ map item xs ++ spare
      → l.capacity ≡ length xs + length spare
      → Spare (length xs) spare
      → list_capacity < length xs
      → length xs % list_capacity ≢ 0
      → list_free l ≡ none
  unfolding list_free
  free-untrimmed l xs spare cells full (first k e) many off = absurd (omega arith)
  free-untrimmed l xs spare cells full (later zero m lt e) many off = absurd (omega arith)
  free-untrimmed l xs spare cells full (later (suc k) m lt e) many off =
      ap (λ n. cleaned (take n l.items)) full
      ∙ ap (λ is. cleaned (take (length xs + suc (length {A = Cell A} (replicate k garbage))) is))
          cells
      ∙ ap (λ n. cleaned (take n (map item xs ++ (garbage ∷ replicate k garbage))))
          {y = length {A = Cell A} (map item xs ++ (garbage ∷ replicate k garbage))}
          (omega (
            arith,
            length-append (map item xs) (garbage ∷ replicate k garbage),
            length-map_item xs,
          ))
      ∙ ap cleaned (take-all_cells (map item xs ++ (garbage ∷ replicate k garbage)))
      ∙ cleaned-garbage xs (replicate k garbage)

  trimmed_by :
      (l : GrowingList A) (xs : List A)
      → 0 < length xs
      → Filled l xs
      → list_trim l ≡ record { size = length xs; capacity = length xs; items = map item xs }
  trimmed_by l xs pos h =
      trim-eq l (λ z. absurd (omega (arith, h.counted)))
      ∙ ap (λ n. record { size = n; capacity = n; items = take n l.items }) h.counted
      ∙ ap (λ is. record { size = length xs; capacity = length xs; items = is })
          (ap (take (length xs)) h.cells ∙ take-items xs h.spare)

  -- What `list_add` and `list_trim` leave.
  pub trimmed :
      (xs : List A)
      → 0 < length xs
      → list_trim (add_all list_init xs)
        ≡ record { size = length xs; capacity = length xs; items = map item xs }
  trimmed xs pos =
      trimmed_by (add_all list_init xs) xs pos (add_all-Filled [] xs list_init list_init-Filled)

  -- A list that is made by `list_add` and trimmed is freed item by item, in the order of the calls, and
  -- nothing else is handed to the cleaner.
  pub list_free-list_trim : (xs : List A) → list_free (list_trim (add_all list_init xs)) ≡ some xs
  unfolding list_free list_trim add_all cleaned
  list_free-list_trim [] = refl
  list_free-list_trim (x ∷ xs) =
      free-trimmed (add_all list_init (x ∷ xs)) (x ∷ xs) (λ e. absurd (omega arith))
        (add_all-Filled [] (x ∷ xs) list_init list_init-Filled)

  -- Without the trim, a list of more items than its first array holds is freed only if the items fill
  -- the array; otherwise the cleaner is handed a place that was never written.
  list_free-untrimmed :
      (xs : List A)
      → list_capacity < length xs
      → length xs % list_capacity ≢ 0
      → list_free (add_all list_init xs) ≡ none
  list_free-untrimmed xs many off =
      let h = add_all-Filled [] xs list_init list_init-Filled in
      free-untrimmed (add_all list_init xs) xs h.spare h.cells h.full h.rest many off
