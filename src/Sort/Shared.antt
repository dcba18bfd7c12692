-- ===== src/Sort/Shared.antt =====
-- The files of 1/mine/main.c among its coroutines, when one of them goes on.
use sysprog_exercises.Prelude.{
  ℕ, zero, suc, ◌+◌, ◌≤◌, ◌<◌, ◌≡◌, ◌≢◌, ◌⊎◌, inl, inr, refl, ap, ◌∙◌, sym, subst, true, false,
  none, some, List, arith, if◌then◌else◌, ◌==◌, Bool-cases, eq_of_some,
}
use sysprog_exercises.Prelude.Int.{ℤ}
use sysprog_exercises.Sort.Ordered.{IsSorted, count}
use sysprog_exercises.Sort.Plan.{Write, write_all}
use sysprog_exercises.Sort.Coroutines.{
  FileData, Coro, searching, took, loaded, sorting, ended, write_at, first_free,
}

-- The file's result has its numbers; and they are in order.
abbrev pub Loaded : List ℤ → FileData → Type 0
Loaded numbers f = (r : List ℤ) × (f.result ≡ some r) × ((a : ℤ) → count a r ≡ count a numbers)

abbrev pub Sorted : List ℤ → FileData → Type 0
Sorted numbers f =
    (r : List ℤ) × (f.result ≡ some r) × IsSorted r × ((a : ℤ) → count a r ≡ count a numbers)

-- A property of what is at a place behind a write.
pub at_place :
    {A : Type 0} (P : A → Type 0) (f : ℕ → A) (i j : ℕ) (x : A)
    → (j ≡ i → P x)
    → (j ≢ i → P (f j))
    → P (write_at f i x j)
at_place P f i j x h k = elim (Bool-cases (j == i)) [
  | inl e ↦ subst (λ b. P (if b then x else f j)) (sym e) (h (ground arith))
  | inr e ↦ subst (λ b. P (if b then x else f j)) (sym e) (k (λ same. absurd (ground arith)))
]

-- The place up to which a coroutine has seen the files taken, and the file that it works on.
abbrev pub seen : ℕ → Coro → ℕ
seen n (searching i) = i
seen n (took i) = i
seen n (loaded i) = i
seen n (sorting i ws) = i
seen n ended = n

abbrev pub Holder : ℕ → Coro → Type 0
Holder j (took i) = i ≡ j
Holder j (loaded i) = i ≡ j
Holder j (sorting i ws) = i ≡ j
Holder j c = ⊥

-- The writes that are left on the file's array put its numbers in order.
abbrev pub Sorting : List ℤ → List Write → FileData → Type 0
Sorting numbers ws f =
    (r : List ℤ) × (f.result ≡ some r)
    × IsSorted (write_all ws r)
    × ((a : ℤ) → count a (write_all ws r) ≡ count a numbers)

abbrev pub HasNumbers : (ℕ → List ℤ) → (ℕ → FileData) → Coro → Type 0
HasNumbers numbers files (took i) = (files i).is_taken ≡ true
HasNumbers numbers files (loaded i) = ((files i).is_taken ≡ true) × Loaded (numbers i) (files i)
HasNumbers numbers files (sorting i ws) =
    ((files i).is_taken ≡ true) × Sorting (numbers i) ws (files i)
HasNumbers numbers files c = Unit {0}

module _ (n_files n_coro : ℕ) (numbers : ℕ → List ℤ) where
  abbrev pub Held : (ℕ → Coro) → ℕ → Type 0
  Held coros j = (k : ℕ) × (k < n_coro) × Holder j (coros k)

  pub record Shared (files : ℕ → FileData) (coros : ℕ → Coro) : Type 0 where
    pub same_numbers : (j : ℕ) → (files j).numbers ≡ numbers j
    pub seen_taken : (k j : ℕ) → j < seen n_files (coros k) → (files j).is_taken ≡ true
    pub has_numbers : (k : ℕ) → HasNumbers numbers files (coros k)
    pub alone : (j k l : ℕ) → Holder j (coros k) → Holder j (coros l) → k ≡ l
    pub in_work : (j : ℕ) → (files j).is_taken ≡ true → Sorted (numbers j) (files j) ⊎ Held coros j

  pub first_free-taken :
      (files : ℕ → FileData) (left i : ℕ)
      → first_free files left i ≡ none
      → (j : ℕ) → i ≤ j
      → j < i + left
      → (files j).is_taken ≡ true
  unfolding first_free
  first_free-taken files zero i e j le lt = absurd (omega arith)
  first_free-taken files (suc left) i e j le lt = elim (Bool-cases (files i).is_taken) [
    | inl t ↦ elim (Bool-cases (j == i)) [
      | inl same ↦ subst (λ m. (files m).is_taken ≡ true) {x = i} {y = j} (ground arith) t
      | inr apart ↦
          first_free-taken files left (i + 1) (sym (passed left i t) ∙ e) j (ground arith)
            (omega arith)
    ]
    | inr f ↦ absurd (some_none (sym (found left i f) ∙ e))
  ]
    where
      some_none : {m : ℕ} → some m ≡ none → ⊥
      some_none e = cc

      passed :
          (left i : ℕ)
          → (files i).is_taken ≡ true
          → first_free files (suc left) i ≡ first_free files left (i + 1)
      passed left i t = ap (λ b. if b then first_free files left (i + 1) else some i) t

      found : (left i : ℕ) → (files i).is_taken ≡ false → first_free files (suc left) i ≡ some i
      found left i f = ap (λ b. if b then first_free files left (i + 1) else some i) f

  pub first_free-free :
      (files : ℕ → FileData) (left i m : ℕ)
      → first_free files left i ≡ some m
      → (i ≤ m)
        × ((j : ℕ) → i ≤ j → j < m → (files j).is_taken ≡ true)
        × ((files m).is_taken ≡ false)
  unfolding first_free
  first_free-free files zero i m e = cc
  first_free-free files (suc left) i m e = elim (Bool-cases (files i).is_taken) [
    | inl t ↦
        let rest =
          first_free-free files left (i + 1) m
            (sym (ap (λ b. if b then first_free files left (i + 1) else some i) t) ∙ e) in
        (
          omega (arith, rest.0),
          λ j le lt. elim (Bool-cases (j == i)) [
            | inl same ↦ subst (λ m. (files m).is_taken ≡ true) {x = i} {y = j} (ground arith) t
            | inr apart ↦ rest.1 j (ground arith) lt
          ],
          rest.2,
        )
    | inr f ↦
        let here : i ≡ m =
          eq_of_some (sym (ap (λ b. if b then first_free files left (i + 1) else some i) f) ∙ e) in
        (
          omega arith,
          λ j le lt. absurd (omega arith),
          subst (λ m. (files m).is_taken ≡ false) here f,
        )
  ]

  -- A coroutine goes on, and writes to the file that it works on, or takes.
  pub changed :
      (files : ℕ → FileData) (coros : ℕ → Coro) (k j : ℕ) (f : FileData) (c : Coro)
      → Shared files coros
      → k < n_coro
      → f.numbers ≡ (files j).numbers
      → f.is_taken ≡ true
      → ((i : ℕ) → i < seen n_files c → (files i).is_taken ≡ true)
      → HasNumbers numbers (write_at files j f) c
      → ((l : ℕ) → Holder j (coros l) → l ≡ k)
      → ((i : ℕ) → Holder i c → i ≡ j)
      → ((i : ℕ) → Holder i (coros k) → i ≡ j)
      → Sorted (numbers j) f ⊎ Holder j c
      → Shared (write_at files j f) (write_at coros k c)
  changed files coros k j f c s lt num taken seen_so has sole holds only work =
      let moved = write_at files j f in
      let went = write_at coros k c in
      let still : (i : ℕ) → (files i).is_taken ≡ true → (moved i).is_taken ≡ true =
        λ i t. at_place (λ f. f.is_taken ≡ true) files j i f (λ e. taken) (λ ne. t) in
      record {
        same_numbers = λ i.
            at_place (λ f. f.numbers ≡ numbers i) files j i f
              (λ e. num ∙ s.same_numbers j ∙ ap numbers (sym e)) (λ ne. s.same_numbers i);
        seen_taken = λ l i.
            at_place (λ c. i < seen n_files c → (moved i).is_taken ≡ true) coros k l c
              (λ e less. still i (seen_so i less)) (λ ne less. still i (s.seen_taken l i less));
        has_numbers = λ l.
            at_place (HasNumbers numbers moved) coros k l c (λ e. has)
              (λ ne. numbers_kept (coros l) (λ h. ne (sole l h)) (s.has_numbers l));
        alone = λ i l m.
            at_place (λ d. Holder i d → Holder i (went m) → l ≡ m) coros k l c
              (λ e h.
                at_place (λ d. Holder i d → l ≡ m) coros k m c (λ e' h'. e ∙ sym e')
                  (λ ne h'. absurd (ne (sole m (subst (λ x. Holder x (coros m)) (holds i h) h')))))
              (λ ne h.
                at_place (λ d. Holder i d → l ≡ m) coros k m c
                  (λ e' h'. absurd (ne (sole l (subst (λ x. Holder x (coros l)) (holds i h') h))))
                  (λ ne' h'. s.alone i l m h h'));
        in_work = λ i.
            at_place (λ f. f.is_taken ≡ true → Sorted (numbers i) f ⊎ Held went i) files j i f
              (λ e t.
                subst (λ m. Sorted (numbers m) f ⊎ Held went m) (sym e)
                  (elim work [
                    | inl sorted ↦ inl sorted
                    | inr h ↦
                        inr
                          (k, lt, at_place (Holder j) coros k k c (λ e. h) (λ ne. absurd (ne refl)))
                  ]))
              (λ ne t. elim (s.in_work i t) [
                | inl sorted ↦ inl sorted
                | inr (l, less, h) ↦ inr (
                  l,
                  less,
                  at_place (Holder i) coros k l c
                      (λ e. absurd (ne (only i (subst (λ m. Holder i (coros m)) e h))))
                      (λ apart. h),
                )
              ]);
      }
    where
      numbers_kept :
          (d : Coro)
          → (Holder j d → ⊥)
          → HasNumbers numbers files d
          → HasNumbers numbers (write_at files j f) d
      numbers_kept (searching i) away h = tt
      numbers_kept (took i) away h =
          at_place (λ f. f.is_taken ≡ true) files j i f (λ e. absurd (away e)) (λ ne. h)
      numbers_kept (loaded i) away h =
          at_place (λ f. (f.is_taken ≡ true) × Loaded (numbers i) f) files j i f
            (λ e. absurd (away e)) (λ ne. h)
      numbers_kept (sorting i ws) away h =
          at_place (λ f. (f.is_taken ≡ true) × Sorting (numbers i) ws f) files j i f
            (λ e. absurd (away e)) (λ ne. h)
      numbers_kept ended away h = tt
