-- ===== src/Sort/Schedules.antt =====
-- What the coroutines of 1/mine/main.c leave behind, whatever their order.
use sysprog_exercises.Prelude.{
  ℕ, Bool, [], ◌∷◌, ◌++◌, ◌+◌, ◌*◌, ◌≤◌, ◌==◌, ◌-◌, ◌<◌, ◌≡◌, inl, inr, refl, ap, ◌∙◌, sym, subst,
  true, false, Option, none, some, List, arith, length, Bool-cases, ltb, ltb→lt, Option-cases,
}
use sysprog_exercises.Prelude.Int.{ℤ}
use mathlib.Core.List.{append_assoc, append-nil}
use sysprog_exercises.Sort.Plan.{Write, writes, write, write_all, write_all-merge_sort}
use sysprog_exercises.Sort.Ordered.{IsSorted, count, merge_sort-IsSorted}
use sysprog_exercises.Sort.Coroutines.{
  FileData, Coro, searching, took, loaded, sorting, ended, write_at, first_free, read_numbers,
  input_file, sort_step, coro_step, Run, start, goes_on,
}
use sysprog_exercises.Sort.Shared.{
  Loaded, Sorting, Sorted, at_place, seen, Holder, HasNumbers, Shared, first_free-taken,
  first_free-free, changed,
}

-- The buffer of `input_file` has room for each number that it writes.
read_numbers_lem :
    (ns buf : List ℤ) (i size : ℕ)
    → i ≤ size
    → 0 < size
    → read_numbers ns buf i size ≡ some (buf ++ ns)
unfolding read_numbers
read_numbers_lem [] buf i size le pos = ap (λ b. some b) (sym (append-nil buf))
read_numbers_lem (n ∷ ns) buf i size le pos = elim (Bool-cases (i == size)) [
  | inl full ↦
      let room : ltb i (size * 2) ≡ true = ground arith in
      rw (full, room)
        (read_numbers_lem ns (buf ++ (n ∷ [])) (i + 1) (size * 2) (ground arith) (omega arith)
          ∙ ap (λ b. some b) (append_assoc buf (n ∷ []) ns))
  | inr spare ↦
      let room : ltb i size ≡ true = ground arith in
      rw (spare, room)
        (read_numbers_lem ns (buf ++ (n ∷ [])) (i + 1) size (ground arith) pos
          ∙ ap (λ b. some b) (append_assoc buf (n ∷ []) ns))
]

input_file_lem : (ns : List ℤ) → input_file ns ≡ some ns
unfolding input_file
input_file_lem ns = read_numbers_lem ns [] 0 16 (omega arith) (omega arith)

module _ (n_files n_coro : ℕ) (numbers : ℕ → List ℤ) where
  -- A coroutine that finds no free file ends.
  ends :
      (files : ℕ → FileData) (coros : ℕ → Coro) (k i : ℕ)
      → Shared n_files n_coro numbers files coros
      → coros k ≡ searching i
      → first_free files (n_files - i) i ≡ none
      → Shared n_files n_coro numbers files (write_at coros k ended)
  ends files coros k i s here e = record {
    same_numbers = s.same_numbers;
    seen_taken = λ l j.
        at_place (λ c. j < seen n_files c → (files j).is_taken ≡ true) coros k l ended
          (λ same lt. elim (Bool-cases (ltb j i)) [
            | inl before ↦
                s.seen_taken k j (subst (λ c. j < seen n_files c) (sym here) (ltb→lt j i before))
            | inr behind ↦
                first_free-taken n_files n_coro numbers files (n_files - i) i e j (ground arith)
                  (ground arith)
          ])
          (λ ne lt. s.seen_taken l j lt);
    has_numbers = λ l.
        at_place (HasNumbers numbers files) coros k l ended (λ same. tt) (λ ne. s.has_numbers l);
    alone = λ j l m.
        at_place (λ c. Holder j c → Holder j (write_at coros k ended m) → l ≡ m) coros k l ended
          (λ same h. absurd h)
          (λ ne h.
            at_place (λ c. Holder j c → l ≡ m) coros k m ended (λ same h'. absurd h')
              (λ ne' h'. s.alone j l m h h'));
    in_work = λ j t. elim (s.in_work j t) [
      | inl sorted ↦ inl sorted
      | inr (l, less, h) ↦ inr (
        l,
        less,
        at_place (Holder j) coros k l ended (λ same. subst (Holder j) (ap coros same ∙ here) h)
            (λ ne. h),
      )
    ];
  }

  abbrev Next : (ℕ → Coro) → ℕ → Option ((ℕ → FileData) × Coro) → Type 0
  Next coros k none = Unit {0}
  Next coros k (some r) = Shared n_files n_coro numbers r.0 (write_at coros k r.1)

  -- A coroutine with a file whose array the writes that are left put in order.
  sorts :
      (files : ℕ → FileData) (coros : ℕ → Coro) (k j : ℕ) (ws : List Write) (r : List ℤ)
      → Shared n_files n_coro numbers files coros
      → k < n_coro
      → Holder j (coros k)
      → ((i : ℕ) → Holder i (coros k) → i ≡ j)
      → ((i : ℕ) → i < j → (files i).is_taken ≡ true)
      → (files j).is_taken ≡ true
      → IsSorted (write_all ws r)
      → ((a : ℤ) → count a (write_all ws r) ≡ count a (numbers j))
      → Next coros k (some (sort_step files j ws r))
  sorts files coros k j [] r s lt mine only seen_so taken sorted counts =
      changed n_files n_coro numbers files coros k j (record (files j) { result = some r })
        (searching j) s lt refl taken seen_so tt (λ l h. s.alone j l k h mine) (λ i h. absurd h)
        only (inl (r, refl, sorted, counts))
  sorts files coros k j (w ∷ ws) r s lt mine only seen_so taken sorted counts =
      let f : FileData = record (files j) { result = some (write w r) } in
      changed n_files n_coro numbers files coros k j f (sorting j ws) s lt refl taken seen_so
        (at_place (λ f. (f.is_taken ≡ true) × Sorting (numbers j) ws f) files j j f
          (λ same. (taken, (write w r, refl, sorted, counts))) (λ ne. absurd (ne refl)))
        (λ l h. s.alone j l k h mine) (λ i h. sym h) only (inr refl)

  coro_step-Next :
      (files : ℕ → FileData) (coros : ℕ → Coro) (k : ℕ) (c : Coro)
      → Shared n_files n_coro numbers files coros
      → k < n_coro
      → coros k ≡ c
      → Next coros k (coro_step n_files files c)
  unfolding coro_step
  coro_step-Next files coros k (searching i) s lt here =
      elim (Option-cases (first_free files (n_files - i) i)) [
        | inl e ↦
            subst
              (λ o. Next coros k (elim o [ none ↦ some (files, ended) | some j ↦ some (take j) ]))
              (sym e) (ends files coros k i s here e)
        | inr (m, e) ↦
            let free = first_free-free n_files n_coro numbers files (n_files - i) i m e in
            subst
              (λ o. Next coros k (elim o [ none ↦ some (files, ended) | some j ↦ some (take j) ]))
              (sym e)
              (changed n_files n_coro numbers files coros k m (record (files m) { is_taken = true })
                (took m) s lt refl refl
                (λ j less. elim (Bool-cases (ltb j i)) [
                  | inl before ↦
                      s.seen_taken k j
                        (subst (λ c. j < seen n_files c) (sym here) (ltb→lt j i before))
                  | inr behind ↦ free.1 j (ground arith) less
                ])
                (at_place (λ f. f.is_taken ≡ true) files m m (record (files m) { is_taken = true })
                  (λ same. refl) (λ ne. absurd (ne refl)))
                (λ l h. absurd (nobody m l (coros l) refl free.2 h)) (λ i h. sym h)
                (λ j h. absurd (subst (Holder j) here h)) (inr refl))
      ]
    where
      false_true : {b : Bool} → b ≡ false → b ≡ true → ⊥
      false_true e h = cc

      -- Nobody has a file that is free.
      nobody : (m l : ℕ) (c : Coro) → coros l ≡ c → (files m).is_taken ≡ false → Holder m c → ⊥
      nobody m l (took i) e f h = false_true f (
          subst (λ m. (files m).is_taken ≡ true) h
            (subst (HasNumbers numbers files) e (s.has_numbers l)))
      nobody m l (loaded i) e f h = false_true f (
          subst (λ m. (files m).is_taken ≡ true) h
            (subst (HasNumbers numbers files) e (s.has_numbers l)).0)
      nobody m l (sorting i ws) e f h = false_true f (
          subst (λ m. (files m).is_taken ≡ true) h
            (subst (HasNumbers numbers files) e (s.has_numbers l)).0)
      nobody m l (searching i) e f h = absurd h
      nobody m l ended e f h = absurd h

      take : ℕ → (ℕ → FileData) × Coro
      take j = (write_at files j (record (files j) { is_taken = true }), took j)
  coro_step-Next files coros k (took j) s lt here =
      let f : FileData = record (files j) { result = some (files j).numbers } in
      let read : Loaded (numbers j) f =
        ((files j).numbers, refl, λ a. ap (count a) (s.same_numbers j)) in
      let taken = subst (HasNumbers numbers files) here (s.has_numbers k) in
      subst
        (λ o. Next coros k (elim o [
          | none ↦ none
          | some buf ↦ some (write_at files j (record (files j) { result = some buf }), loaded j)
        ]))
        (sym (input_file_lem (files j).numbers))
        (changed n_files n_coro numbers files coros k j f (loaded j) s lt refl taken
          (λ i less. s.seen_taken k i (subst (λ c. i < seen n_files c) (sym here) less))
          (at_place (λ f. (f.is_taken ≡ true) × Loaded (numbers j) f) files j j f
            (λ same. (taken, read)) (λ ne. absurd (ne refl)))
          (λ l h. s.alone j l k h (subst (Holder j) (sym here) refl)) (λ i h. sym h)
          (λ i h. sym (subst (Holder i) here h)) (inr refl))
  coro_step-Next files coros k (loaded j) s lt here =
      let has = subst (HasNumbers numbers files) here (s.has_numbers k) in
      let r = has.1.0 in
      let sort = merge_sort-IsSorted (length r) r (omega arith) in
      let same = write_all-merge_sort r in
      subst
        (λ o. Next coros k (elim o [
          | none ↦ none
          | some a ↦ some (sort_step files j (writes (length a) 0 (length a)) a)
        ]))
        (sym has.1.1)
        (sorts files coros k j (writes (length r) 0 (length r)) r s lt
          (subst (Holder j) (sym here) refl) (λ i h. sym (subst (Holder i) here h))
          (λ i less. s.seen_taken k i (subst (λ c. i < seen n_files c) (sym here) less)) has.0
          (subst IsSorted (sym same) sort.0) (λ a. ap (count a) same ∙ sort.1 a ∙ has.1.2 a))
  coro_step-Next files coros k (sorting j ws) s lt here =
      let has = subst (HasNumbers numbers files) here (s.has_numbers k) in
      subst (λ o. Next coros k (elim o [ none ↦ none | some a ↦ some (sort_step files j ws a) ]))
        (sym has.1.1)
        (sorts files coros k j ws has.1.0 s lt (subst (Holder j) (sym here) refl)
          (λ i h. sym (subst (Holder i) here h))
          (λ i less. s.seen_taken k i (subst (λ c. i < seen n_files c) (sym here) less)) has.0
          has.1.2 has.1.3)
  coro_step-Next files coros k ended s lt here = tt

  Run-Shared :
      {files : ℕ → FileData} {coros : ℕ → Coro}
      → Run n_files n_coro numbers files coros
      → Shared n_files n_coro numbers files coros
  Run-Shared start = record {
    same_numbers = λ j. refl;
    seen_taken = λ k j lt. absurd (omega arith);
    has_numbers = λ k. tt;
    alone = λ j k l h. absurd h;
    in_work = λ j t. absurd (false_true t);
  }
    where
      false_true : false ≡ true → ⊥
      false_true e = cc
  Run-Shared (goes_on {files} {moved} {coros} {c} k lt r e) =
      subst (Next coros k) e (coro_step-Next files coros k (coros k) (Run-Shared r) lt refl)

  -- Whatever the order in which the coroutines go on, and however many there are, but one at least: once
  -- all of them have ended, the result of every file is in order and holds the numbers of that file.
  pub Run-Sorted :
      {files : ℕ → FileData} {coros : ℕ → Coro}
      → Run n_files n_coro numbers files coros
      → 0 < n_coro
      → ((k : ℕ) → k < n_coro → coros k ≡ ended)
      → (j : ℕ) → j < n_files
      → Sorted (numbers j) (files j)
  Run-Sorted {files} {coros} r some_coro all_ended j lt =
      let s = Run-Shared r in
      let taken =
        s.seen_taken 0 j (subst (λ c. j < seen n_files c) (sym (all_ended 0 some_coro)) lt) in
      elim (s.in_work j taken) [
        | inl sorted ↦ sorted
        | inr (k, less, h) ↦ absurd (subst (Holder j) (all_ended k less) h)
      ]
