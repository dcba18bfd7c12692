-- ===== src/Pool/Queue.antt =====
-- `queue` of 4/thread_pool.c: tasks linked by `next`, with a head, a tail and a size.
--
-- What `head` and `tail` point to while the queue is empty is not looked at.
use sysprog_exercises.Prelude.{
  ◌>>=◌, ℕ, ◌+◌, ◌-◌, ◌≡◌, refl, sym, ap, subst, ◌∙◌, true, false, Option, none, some, List, [],
  ◌∷◌, ◌++◌, arith, length, length-append, if◌then◌else◌, ◌==◌, inl, inr, Bool-cases, Absent,
  Distinct,
}
use sysprog_exercises.Pool.Task.{Task, Memory, put}

-- `queue`, less its mutex and condition
pub record Queue : Type 0 where
  pub head : ℕ
  pub tail : ℕ
  pub size : ℕ

abbrev pub queue_new : Queue
queue_new = record { head = 0; tail = 0; size = 0 }

module _ {V : Type 0} where
  -- `q->tail->next = task`
  unfoldable pub link : Memory V → ℕ → ℕ → Option (Memory V)
  link h tail t = do x ← h tail; some (put h tail (record x { next = t }))

  unfoldable pub queue_push_back : Memory V → Queue → ℕ → Option (Memory V × Queue)
  unfolding link
  queue_push_back h q t =
      if q.size == 0 then some (h, record { head = t; tail = t; size = q.size + 1 }) else (do
        linked ← link h q.tail t
        some (linked, record { head = q.head; tail = t; size = q.size + 1 }))

  -- The task, if there is one, and the queue behind it.
  unfoldable pub queue_pop_front : Memory V → Queue → Option (Option ℕ × Queue)
  queue_pop_front h q =
      if q.size == 0
      then some (none, q)
      else (do x ← h q.head; some (some q.head, record q { head = x.next; size = q.size - 1 }))

  -- The task `t` and the tasks `ts` are linked up to the tail.
  abbrev pub Linked : Memory V → ℕ → List ℕ → ℕ → Type 0
  Linked h t [] tail = (x : Task V) × (h t ≡ some x) × (t ≡ tail)
  Linked h t (u ∷ us) tail = (x : Task V) × (h t ≡ some x) × (x.next ≡ u) × Linked h u us tail

  abbrev pub Holds : Memory V → Queue → List ℕ → Type 0
  Holds h q [] = q.size ≡ 0
  Holds h q (t ∷ ts) = (q.size ≡ length (t ∷ ts)) × (q.head ≡ t) × Linked h t ts q.tail

-- What memory holds at an address that was written, and at another one.
pub put_same : {V : Type 0} (h : Memory V) (t : ℕ) (x : Task V) → put h t x t ≡ some x
put_same h t x = let e : (t == t) ≡ true = ground arith in ap (λ b. if b then some x else h t) e

pub put_other :
    {V : Type 0} (h : Memory V) (t u : ℕ) (x : Task V) → (u == t) ≡ false → put h t x u ≡ h u
put_other h t u x e = ap (λ b. if b then some x else h u) e

-- Memory holds a task at the address.
abbrev pub Live : {V : Type 0} → Memory V → ℕ → Type 0
Live {V} h t = (x : Task V) × (h t ≡ some x)

pub put-Live : {V : Type 0} (h : Memory V) (t u : ℕ) (x : Task V) → Live h u → Live (put h t x) u
put-Live h t u x (y, e) = elim (Bool-cases (u == t)) [
  | inl same ↦ (x, ap (λ b. if b then some x else h u) same)
  | inr apart ↦ (y, put_other h t u x apart ∙ e)
]

module _ {V : Type 0} (h : Memory V) where
  apart_tail :
      (t u : ℕ) (us : List ℕ) (tail : ℕ)
      → Linked h u us tail
      → Absent t (u ∷ us)
      → (t == tail) ≡ false
  apart_tail t u [] tail (x, e, p) (a, more) = subst (λ v. (t == v) ≡ false) p a
  apart_tail t u (v ∷ vs) tail (x, e, p, l) (a, more) = apart_tail t v vs tail l more

  tail_live :
      (t : ℕ) (ts : List ℕ) (tail : ℕ) → Linked h t ts tail → (x : Task V) × (h tail ≡ some x)
  tail_live t [] tail (x, e, p) = (x, ap h (sym p) ∙ e)
  tail_live t (u ∷ us) tail (x, e, p, l) = tail_live u us tail l

  -- A task that is linked behind the tail is the new tail.
  Linked-behind :
      (t : ℕ) (ts : List ℕ) (tail n : ℕ) (x y : Task V)
      → Linked h t ts tail
      → Distinct (t ∷ ts)
      → h tail ≡ some x
      → h n ≡ some y
      → (n == tail) ≡ false
      → Linked (put h tail (record x { next = n })) t (ts ++ (n ∷ [])) n
  Linked-behind t [] tail n x y (z, e, p) d ex ey a =
      let x' : Task V = record x { next = n } in
      let h' = put h tail x' in
      (x', ap h' p ∙ put_same h tail x', refl, (y, put_other h tail n x' a ∙ ey, refl))
  Linked-behind t (u ∷ us) tail n x y (z, e, p, l) (d, ds) ex ey a =
      let x' : Task V = record x { next = n } in
      (
        z,
        put_other h tail t x' (apart_tail t u us tail l d) ∙ e,
        p,
        Linked-behind u us tail n x y l ds ex ey a,
      )

  pub queue_push_back-Holds :
      (q : Queue) (ts : List ℕ) (t : ℕ) (y : Task V)
      → Holds h q ts
      → Distinct ts
      → Absent t ts
      → h t ≡ some y
      → (r : Memory V × Queue) × (queue_push_back h q t ≡ some r)
        × Holds r.0 r.1 (ts ++ (t ∷ []))
        × ((u : ℕ) → Live h u → Live r.0 u)
  unfolding queue_push_back link
  queue_push_back-Holds q [] t y e d a ey =
      let n : (q.size == 0) ≡ true = ground arith in
      (
        (h, record { head = t; tail = t; size = q.size + 1 }),
        rw n refl,
        (omega arith, refl, (y, ey, refl)),
        λ u live. live,
      )
  queue_push_back-Holds q (u ∷ us) t y (e, p, l) (d, ds) (a, more) ey =
      let n : (q.size == 0) ≡ false = ground arith in
      let live = tail_live u us q.tail l in
      let x' : Task V = record live.0 { next = t } in
      (
        (put h q.tail x', record { head = q.head; tail = t; size = q.size + 1 }),
        rw (n, live.1) refl,
        (
          omega (arith, length-append us (t ∷ [])),
          p,
          Linked-behind u us q.tail t live.0 y l (d, ds) live.1 ey
              (apart_tail t u us q.tail l (a, more)),
        ),
        λ u l. put-Live h q.tail u x' l,
      )

  pub queue_pop_front-Holds :
      (q : Queue) (t : ℕ) (ts : List ℕ)
      → Holds h q (t ∷ ts)
      → (q' : Queue) × (queue_pop_front h q ≡ some (some t, q')) × Holds h q' ts
  unfolding queue_pop_front
  queue_pop_front-Holds q t [] (e, p, (x, ex, same)) =
      let n : (q.size == 0) ≡ false = ground arith in
      (record q { head = x.next; size = q.size - 1 }, rw (n, p, ex) refl, omega arith)
  queue_pop_front-Holds q t (u ∷ us) (e, p, (x, ex, next, l)) =
      let n : (q.size == 0) ≡ false = ground arith in
      (record q { head = x.next; size = q.size - 1 }, rw (n, p, ex) refl, (omega arith, next, l))

  pub queue_pop_front-empty : (q : Queue) → Holds h q [] → queue_pop_front h q ≡ some (none, q)
  unfolding queue_pop_front
  queue_pop_front-empty q e = rw e refl
