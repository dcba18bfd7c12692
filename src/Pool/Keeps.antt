-- ===== src/Pool/Keeps.antt =====
-- Which changes of memory leave the tasks that are in a pool of 4/thread_pool.c in it.
use sysprog_exercises.Prelude.{
  ℕ, ◌≤◌, List, occurrences, eq_of_some, ◌≡◌, refl, ap, sym, subst, ◌∙◌, Bool, true, false, not,
  ◌&&◌, Option, none, some, arith, if◌then◌else◌, ◌==◌, inl, inr, Bool-cases, Option-cases,
}
use sysprog_exercises.Pool.Queue.{Live, put-Live}
use sysprog_exercises.Pool.Steps.{
  TaskCall, call_new, call_delete, call_detach, call_detach_finished, call_join_store,
}
use sysprog_exercises.Pool.Task.{
  Task, Memory, Status, status_free, pushed, finished, running, is_free, is_finished_status, put,
  free, with_status, Code, success, task_in_pool, Detach, detached, then_deletes,
  thread_task_delete, thread_task_detach, join_store,
}

-- A task that is queued or that a thread has.
abbrev pub is_in_pool : Status → Bool
is_in_pool pushed = true
is_in_pool running = true
is_in_pool s = false

out_of_pool :
    (s : Status) → not (is_free s) && not (is_finished_status s) ≡ false → is_in_pool s ≡ false
out_of_pool status_free e = refl
out_of_pool finished e = refl
out_of_pool pushed e = cc
out_of_pool running e = cc

finished-out : (s : Status) → is_finished_status s ≡ true → is_in_pool s ≡ false
finished-out finished e = refl
finished-out status_free e = refl
finished-out pushed e = cc
finished-out running e = cc

busy_in_pool : (s : Status) → is_free s ≡ false → is_finished_status s ≡ false → is_in_pool s ≡ true
busy_in_pool status_free e f = cc
busy_in_pool finished e f = cc
busy_in_pool pushed e f = refl
busy_in_pool running e f = refl

module _ {V : Type 0} where
  -- A task that is in the pool stays so, with its link.
  abbrev pub Stays : Option (Task V) → Option (Task V) → Type 0
  Stays none o = Unit {0}
  Stays (some x) o =
      is_in_pool x.status ≡ true
      → (y : Task V) × (o ≡ some y) × (y.next ≡ x.next) × (is_in_pool y.status ≡ true)

  abbrev pub Keeps : Memory V → Memory V → Type 0
  Keeps h k = (u : ℕ) → Stays (h u) (k u)

  pub Stays-refl : (o : Option (Task V)) → Stays o o
  Stays-refl none = tt
  Stays-refl (some x) = λ e. (x, refl, refl, e)

  pub Keeps-refl : (h : Memory V) → Keeps h h
  Keeps-refl h u = Stays-refl (h u)

  Stays-trans : (o p q : Option (Task V)) → Stays o p → Stays p q → Stays o q
  Stays-trans none p q s r = tt
  Stays-trans (some x) p q s r =
      λ e. let a = s e in let b = (subst (λ o. Stays o q) a.1 r) a.3 in (b.0, b.1, b.2 ∙ a.2, b.3)

  pub Keeps-trans : (h k l : Memory V) → Keeps h k → Keeps k l → Keeps h l
  Keeps-trans h k l s r u = Stays-trans (h u) (k u) (l u) (s u) (r u)

  -- What is at one address is replaced.
  pub Keeps-at :
      (h : Memory V) (t : ℕ) (o : Option (Task V))
      → Stays (h t) o
      → Keeps h (λ u. if u == t then o else h u)
  Keeps-at h t o s u = elim (Bool-cases (u == t)) [
    | inl same ↦
        let e : u ≡ t = ground (arith, same) in rw same (subst (λ v. Stays (h v) o) (sym e) s)
    | inr apart ↦ rw apart (Stays-refl (h u))
  ]

  Stays-out :
      (o : Option (Task V)) (x : Task V)
      → o ≡ some x
      → is_in_pool x.status ≡ false
      → (r : Option (Task V)) → Stays o r
  Stays-out o x e out r = rw e (λ i. absurd (cc))

  -- A task that is not in the pool is written, or freed.
  pub Keeps-put :
      (h : Memory V) (t : ℕ) (x y : Task V)
      → h t ≡ some x
      → is_in_pool x.status ≡ false
      → Keeps h (put h t y)
  Keeps-put h t x y e out = Keeps-at h t (some y) (Stays-out (h t) x e out (some y))

  pub Keeps-free :
      (h : Memory V) (t : ℕ) (x : Task V)
      → h t ≡ some x
      → is_in_pool x.status ≡ false
      → Keeps h (free h t)
  Keeps-free h t x e out = Keeps-at h t none (Stays-out (h t) x e out none)

  -- A task is written that stays in the pool.
  pub Keeps-in :
      (h : Memory V) (t : ℕ) (x y : Task V)
      → h t ≡ some x
      → y.next ≡ x.next
      → is_in_pool y.status ≡ true
      → Keeps h (put h t y)
  Keeps-in h t x y e n i = Keeps-at h t (some y) (rw e (λ j. (y, refl, n, i)))

  -- The task is there, and is not in the pool.
  abbrev pub HasEnded : Memory V → ℕ → Type 0
  HasEnded h t = (x : Task V) × (h t ≡ some x) × (is_in_pool x.status ≡ false)

  abbrev KeepsCode : Memory V → Option (Memory V × Code) → Type 0
  KeepsCode h none = Unit {0}
  KeepsCode h (some r) = Keeps h r.0

  abbrev KeepsDetach : Memory V → Option (Detach V) → Type 0
  KeepsDetach h none = Unit {0}
  KeepsDetach h (some (detached k c)) = Keeps h k
  KeepsDetach h (some (then_deletes k)) = Keeps h k

  thread_task_delete-Keeps : (h : Memory V) (t : ℕ) → KeepsCode h (thread_task_delete h t)
  unfolding thread_task_delete
  thread_task_delete-Keeps h t = elim (Option-cases (h t)) [
    | inl e ↦ rw e tt
    | inr (x, e) ↦ elim (Bool-cases (not (is_free x.status) && not (is_finished_status x.status))) [
      | inl used ↦ rw (e, used) (Keeps-refl h)
      | inr out ↦ rw (e, out) (Keeps-free h t x e (out_of_pool x.status out))
    ]
  ]

  thread_task_detach-Keeps : (h : Memory V) (t : ℕ) → KeepsDetach h (thread_task_detach h t)
  unfolding thread_task_detach
  thread_task_detach-Keeps h t = elim (Option-cases (h t)) [
    | inl e ↦ rw e tt
    | inr (x, e) ↦ elim (Bool-cases (is_free x.status)) [
      | inl unused ↦ rw (e, unused) (Keeps-refl h)
      | inr used ↦ elim (Bool-cases (is_finished_status x.status)) [
        | inl end ↦
            rw (e, used, end)
              (Keeps-put h t x (with_status x status_free) e (finished-out x.status end))
        | inr busy ↦
            rw (e, used, busy)
              (Keeps-in h t x (record x { is_detached = true }) e refl
                (busy_in_pool x.status used busy))
      ]
    ]
  ]

  -- The store of a join of a task that has finished.
  join_store-Keeps : (h k : Memory V) (t : ℕ) → HasEnded h t → join_store h t ≡ some k → Keeps h k
  unfolding join_store
  join_store-Keeps h k t (x, e, out) s =
      let stored : join_store h t ≡ some (put h t (with_status x finished)) = rw e refl in
      subst (Keeps h) (eq_of_some (sym stored ∙ s)) (Keeps-put h t x (with_status x finished) e out)

  -- The rules for a call while threads have the tasks `ended` in the critical section behind their
  -- function, or are about to free them: none of these is deleted, and no join leaves its wait before the
  -- task has finished.
  abbrev pub KeepsWait : List ℕ → {h k : Memory V} → TaskCall h k → Type 0
  KeepsWait ended (call_delete t s) = occurrences t ended ≡ 0
  KeepsWait ended {h} (call_join_store t s) = HasEnded h t
  KeepsWait ended c = Unit {0}

  pub TaskCall-Keeps :
      (ended : List ℕ) {h k : Memory V} (c : TaskCall h k) → KeepsWait ended c → Keeps h k
  TaskCall-Keeps ended {h} (call_new t next result function arg e s) w =
      subst (λ r. Keeps h r.0) s (Keeps-at h t _ (rw e tt))
  TaskCall-Keeps ended {h} (call_delete t s) w =
      subst (KeepsCode h) s (thread_task_delete-Keeps h t)
  TaskCall-Keeps ended {h} (call_detach t s) w =
      subst (KeepsDetach h) s (thread_task_detach-Keeps h t)
  TaskCall-Keeps ended {h} (call_detach_finished t s) w =
      subst (KeepsDetach h) s (thread_task_detach-Keeps h t)
  TaskCall-Keeps ended {h} {k} (call_join_store t s) w = join_store-Keeps h k t w s

  -- A delete of a task that is there, and every other task stays in memory.
  pub thread_task_delete-there :
      (h : Memory V) (t : ℕ)
      → Live h t
      → (r : Memory V × Code) × (thread_task_delete h t ≡ some r)
        × Keeps h r.0
        × ((u : ℕ) → (u == t) ≡ false → Live h u → Live r.0 u)
  unfolding thread_task_delete
  thread_task_delete-there h t (x, e) =
      elim (Bool-cases (not (is_free x.status) && not (is_finished_status x.status))) [
        | inl used ↦ ((h, task_in_pool), rw (e, used) refl, Keeps-refl h, λ u apart live. live)
        | inr out ↦ (
          (free h t, success),
          rw (e, out) refl,
          Keeps-free h t x e (out_of_pool x.status out),
          λ u apart live. (live.0, rw apart live.1),
        )
      ]

  -- Which tasks stay in memory.
  abbrev LiveCode : Memory V → ℕ → Option (Memory V × Code) → Type 0
  LiveCode h u none = Unit {0}
  LiveCode h u (some r) = Live h u → Live r.0 u

  abbrev LiveDetach : Memory V → ℕ → Option (Detach V) → Type 0
  LiveDetach h u none = Unit {0}
  LiveDetach h u (some (detached k c)) = Live h u → Live k u
  LiveDetach h u (some (then_deletes k)) = Live h u → Live k u

  thread_task_delete-Live :
      (h : Memory V) (t u : ℕ) → (u == t) ≡ false → LiveCode h u (thread_task_delete h t)
  unfolding thread_task_delete
  thread_task_delete-Live h t u apart = elim (Option-cases (h t)) [
    | inl e ↦ rw e tt
    | inr (x, e) ↦ elim (Bool-cases (not (is_free x.status) && not (is_finished_status x.status))) [
      | inl used ↦ rw (e, used) (λ live. live)
      | inr out ↦ rw (e, out) (λ live. (live.0, rw apart live.1))
    ]
  ]

  thread_task_detach-Live : (h : Memory V) (t u : ℕ) → LiveDetach h u (thread_task_detach h t)
  unfolding thread_task_detach
  thread_task_detach-Live h t u = elim (Option-cases (h t)) [
    | inl e ↦ rw e tt
    | inr (x, e) ↦ elim (Bool-cases (is_free x.status)) [
      | inl unused ↦ rw (e, unused) (λ live. live)
      | inr used ↦ elim (Bool-cases (is_finished_status x.status)) [
        | inl end ↦ rw (e, used, end) (put-Live h t u (with_status x status_free))
        | inr busy ↦ rw (e, used, busy) (put-Live h t u (record x { is_detached = true }))
      ]
    ]
  ]

  pub TaskCall-Live :
      (ended : List ℕ) {h k : Memory V} (c : TaskCall h k)
      → KeepsWait ended c
      → (u : ℕ) → 1 ≤ occurrences u ended
      → Live h u
      → Live k u
  unfolding join_store
  TaskCall-Live ended {h} (call_new t next result function arg e s) w u own =
      subst (λ r. Live h u → Live r.0 u) s (put-Live h t u _)
  TaskCall-Live ended {h} (call_delete t s) w u own = subst (LiveCode h u) s (
      thread_task_delete-Live h t u (elim (Bool-cases (u == t)) [
        | inl same ↦
            let at : u ≡ t = ground (arith, same) in
            absurd (omega (arith, ap (λ a. occurrences a ended) at))
        | inr apart ↦ apart
      ]))
  TaskCall-Live ended {h} (call_detach t s) w u own =
      subst (LiveDetach h u) s (thread_task_detach-Live h t u)
  TaskCall-Live ended {h} (call_detach_finished t s) w u own =
      subst (LiveDetach h u) s (thread_task_detach-Live h t u)
  TaskCall-Live ended {h} {k} (call_join_store t s) (x, e, out) u own =
      let stored : join_store h t ≡ some (put h t (with_status x finished)) = rw e refl in
      subst (λ m. Live h u → Live m u) (eq_of_some (sym stored ∙ s))
        (put-Live h t u (with_status x finished))
