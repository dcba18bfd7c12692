-- ===== src/Pool/Threads.antt =====
-- A thread's step in a pool of 4/thread_pool.c, against the owners of tasks.
use sysprog_exercises.Prelude.{
  ℕ, ◌+◌, ◌-◌, ◌≤◌, ◌≡◌, refl, ap, false, Option, some, List, [], ◌∷◌, ◌++◌, arith, ◌==◌, inl, inr,
  Bool-cases, occurrences,
}
use sysprog_exercises.Pool.Task.{Task, Memory, put, with_status, status_free, finished, running}
use sysprog_exercises.Pool.Queue.{
  Live, put-Live, Holds, queue_pop_front-Holds, queue_pop_front-empty,
}
use sysprog_exercises.Pool.Worker.{
  Worker, at_top, empty_handed, waiting, leaving, returned, took, counting, calling, ran, notifying,
  unlocking, releasing, freeing, Pool, Move, stopped, goes, take_task, finish_task, touch_task,
  free_task, worker_step,
}
use sysprog_exercises.Pool.Keeps.{
  thread_task_delete-there, Stays, Keeps, Keeps-refl, Keeps-in, Stays-refl,
}
use sysprog_exercises.Pool.Owners.{
  task_of, tasks_of, owners, occurrences-collect, occurrences-step, ended_task, ended_of, IsIn,
  Owned, Owned-moved, Owned-queue,
}

module _ {V : Type 0} (before after : List Worker) where
  -- The thread behind its step, among the others.
  abbrev pub OwnedMove : Move V → Type 0
  OwnedMove stopped = Unit {0}
  OwnedMove (goes q v) = Owned (record q { threads = before ++ (v ∷ after) })

  abbrev pub Goes : Option (Move V) → Type 0
  Goes o = (m : Move V) × (o ≡ some m) × OwnedMove m

  module _ (p : Pool V) (o : Owned p) where
    -- A thread goes on from `w` to `v` with its task, or without.
    passes :
        (w v : Worker) (k : Memory V) (n : ℕ)
        → p.threads ≡ before ++ (w ∷ after)
        → ((a : ℕ) → occurrences a (task_of v) ≤ occurrences a (task_of w))
        → ((a : ℕ)
            → occurrences a (task_of v) + occurrences a (ended_task v)
              ≤ occurrences a (task_of w) + occurrences a (ended_task w))
        → ((a : ℕ)
            → 1 ≤ owners a o.queue p.client (before ++ (v ∷ after))
            → Stays (p.memory a) (k a))
        → ((a : ℕ) → 1 ≤ occurrences a (ended_of (before ++ (v ∷ after))) → Live k a)
        → Owned (record p { memory = k; running_tasks_count = n; threads = before ++ (v ∷ after) })
    passes w v k n e fewer fewer_all stays live =
        Owned-queue p _ o refl
          (λ a. omega (arith, fewer a, occurrences-step task_of a p.threads before w v after e))
          (λ a. omega (
            arith,
            fewer_all a,
            occurrences-step task_of a p.threads before w v after e,
            occurrences-step ended_task a p.threads before w v after e,
          ))
          stays live

    -- The same where no task comes behind its store or leaves memory.
    went :
        (w v : Worker) (k : Memory V) (n : ℕ)
        → p.threads ≡ before ++ (w ∷ after)
        → ((a : ℕ) → occurrences a (task_of v) ≤ occurrences a (task_of w))
        → ((a : ℕ) → occurrences a (ended_task v) ≤ occurrences a (ended_task w))
        → Keeps p.memory k
        → ((a : ℕ) → Live p.memory a → Live k a)
        → Owned (record p { memory = k; running_tasks_count = n; threads = before ++ (v ∷ after) })
    went w v k n e fewer fewer_ended keeps live =
        passes w v k n e fewer (λ a. omega (arith, fewer a, fewer_ended a)) (λ a own. keeps a)
          (λ a own. live a (
            o.ended_live a (
              omega (
                arith,
                fewer_ended a,
                occurrences-step ended_task a p.threads before w v after e,
              ))))

    -- And where memory stays as it is.
    idles :
        (w v : Worker) (n : ℕ)
        → p.threads ≡ before ++ (w ∷ after)
        → ((a : ℕ) → occurrences a (task_of v) ≤ occurrences a (task_of w))
        → ((a : ℕ) → occurrences a (ended_task v) ≤ occurrences a (ended_task w))
        → Owned (record p { running_tasks_count = n; threads = before ++ (v ∷ after) })
    idles w v n e fewer fewer_ended =
        went w v p.memory n e fewer fewer_ended (Keeps-refl p.memory) (λ a live. live)

    pops :
        (ts : List ℕ)
        → o.queue ≡ ts
        → Holds p.memory p.tasks ts
        → p.threads ≡ before ++ (at_top ∷ after)
        → Goes (worker_step p at_top)
    unfolding worker_step take_task
    pops [] same holds e = (
      goes p empty_handed,
      rw (queue_pop_front-empty p.memory p.tasks holds) refl,
      idles at_top empty_handed p.running_tasks_count e (λ a. omega arith) (λ a. omega arith),
    )
    pops (t ∷ ts) same holds e =
        let r = queue_pop_front-Holds p.memory p.tasks t ts holds in
        let tasks =
          λ (a : ℕ). occurrences-step task_of a p.threads before at_top (took t) after e in
        let ended =
          λ (a : ℕ). occurrences-step ended_task a p.threads before at_top (took t) after e in
        (
          goes (record p { tasks = r.0 }) (took t),
          rw (r.1) refl,
          Owned-moved p _ o ts r.2 (λ a. omega (arith, ap (occurrences a) same, tasks a))
              (λ a. omega (arith, ap (occurrences a) same, tasks a, ended a)) (λ a own there. there)
              (λ a own. o.ended_live a (omega (arith, ended a))),
        )

    -- The task of a thread.
    has :
        (w : Worker) (t : ℕ)
        → p.threads ≡ before ++ (w ∷ after)
        → task_of w ≡ t ∷ []
        → IsIn p.memory t
    has w t e one = o.in_pool t (
        ground (
          arith,
          ap (λ ws. occurrences t (tasks_of ws)) e,
          occurrences-collect task_of t before w after,
          ap (occurrences t) one,
        ))

    has_ended :
        (w : Worker) (t : ℕ)
        → p.threads ≡ before ++ (w ∷ after)
        → ended_task w ≡ t ∷ []
        → Live p.memory t
    has_ended w t e one = o.ended_live t (
        ground (
          arith,
          ap (λ ws. occurrences t (ended_of ws)) e,
          occurrences-collect ended_task t before w after,
          ap (occurrences t) one,
        ))

    -- The store of a task's status behind its function.
    stores :
        (t : ℕ) (v : Worker) (y : Task V)
        → p.threads ≡ before ++ (ran t ∷ after)
        → task_of v ≡ []
        → ended_task v ≡ t ∷ []
        → Owned (record p { memory = put p.memory t y; threads = before ++ (v ∷ after) })
    stores t v y e none_left one =
        passes (ran t) v (put p.memory t y) p.running_tasks_count e
          (λ a. omega (arith, ap (occurrences a) none_left))
          (λ a. omega (arith, ap (occurrences a) none_left, ap (occurrences a) one))
          (λ a own.
            let apart : (a == t) ≡ false =
              ground (arith, o.once a, tasks a, ap (occurrences a) none_left) in
            rw apart (Stays-refl (p.memory a)))
          (λ a own. elim (Bool-cases (a == t)) [
            | inl same ↦ (y, rw same refl)
            | inr apart ↦
                put-Live p.memory t a y
                  (o.ended_live a (ground (arith, ended a, ap (occurrences a) one)))
          ])
      where
        tasks :
            (a : ℕ)
            → occurrences a (tasks_of (before ++ (v ∷ after))) + occurrences a (t ∷ [])
              ≡ occurrences a (tasks_of p.threads) + occurrences a (task_of v)
        tasks a = occurrences-step task_of a p.threads before (ran t) v after e

        ended :
            (a : ℕ)
            → occurrences a (ended_of (before ++ (v ∷ after))) + 0
              ≡ occurrences a (ended_of p.threads) + occurrences a (ended_task v)
        ended a = occurrences-step ended_task a p.threads before (ran t) v after e

    finishes : (t : ℕ) → p.threads ≡ before ++ (ran t ∷ after) → Goes (worker_step p (ran t))
    unfolding worker_step finish_task
    finishes t e =
        let at = has (ran t) t e refl in
        elim (Bool-cases at.0.is_detached) [
          | inl detached ↦ (
            goes (record p { memory = put p.memory t (with_status at.0 status_free) })
                (releasing t),
            rw (at.1, detached) refl,
            stores t (releasing t) (with_status at.0 status_free) e refl refl,
          )
          | inr kept ↦ (
            goes (record p { memory = put p.memory t (with_status at.0 finished) }) (notifying t),
            rw (at.1, kept) refl,
            stores t (notifying t) (with_status at.0 finished) e refl refl,
          )
        ]

    -- The broadcast and the unlock.
    touches :
        (t : ℕ) (w v : Worker)
        → p.threads ≡ before ++ (w ∷ after)
        → ended_task w ≡ t ∷ []
        → ((a : ℕ) → occurrences a (task_of v) ≤ occurrences a (task_of w))
        → ((a : ℕ) → occurrences a (ended_task v) ≤ occurrences a (ended_task w))
        → Goes (touch_task p t v)
    unfolding touch_task
    touches t w v e one fewer fewer_ended =
        let (x, there) = has_ended w t e one in
        (goes p v, rw there refl, idles w v p.running_tasks_count e fewer fewer_ended)

    -- The delete of a detached task.
    frees : (t : ℕ) → p.threads ≡ before ++ (freeing t ∷ after) → Goes (worker_step p (freeing t))
    unfolding worker_step free_task
    frees t e =
        let (r, same, keeps, live) =
          thread_task_delete-there p.memory t (has_ended (freeing t) t e refl) in
        (
          goes (record p { memory = r.0 }) leaving,
          rw same refl,
          passes (freeing t) leaving r.0 p.running_tasks_count e (λ a. omega arith)
              (λ a. omega arith) (λ a own. keeps a)
              (λ a own.
                let ended =
                  occurrences-step ended_task a p.threads before (freeing t) leaving after e in
                live a (ground (arith, o.once a, ended)) (o.ended_live a (omega (arith, ended)))),
        )

    -- The step of a thread follows no pointer to nothing, and every task has one owner behind it.
    pub worker_step-Owned :
        (w : Worker) → p.threads ≡ before ++ (w ∷ after) → Goes (worker_step p w)
    unfolding worker_step
    worker_step-Owned at_top e = pops o.queue refl o.holds e
    worker_step-Owned empty_handed e = elim (Bool-cases p.is_deleting) [
      | inl deleting ↦ (
        goes p returned,
        rw deleting refl,
        idles empty_handed returned p.running_tasks_count e (λ a. omega arith) (λ a. omega arith),
      )
      | inr going ↦ (
        goes p waiting,
        rw going refl,
        idles empty_handed waiting p.running_tasks_count e (λ a. omega arith) (λ a. omega arith),
      )
    ]
    worker_step-Owned waiting e = (stopped, refl, tt)
    worker_step-Owned returned e = (stopped, refl, tt)
    worker_step-Owned leaving e = (
      _,
      refl,
      idles leaving at_top (p.running_tasks_count - 1) e (λ a. omega arith) (λ a. omega arith),
    )
    worker_step-Owned (counting t) e = (
      _,
      refl,
      idles (counting t) (calling t) (p.running_tasks_count + 1) e (λ a. omega arith)
          (λ a. omega arith),
    )
    worker_step-Owned (took t) e =
        let at = has (took t) t e refl in
        let y : Task V = with_status at.0 running in
        (
          goes (record p { memory = put p.memory t y }) (counting t),
          rw (at.1) refl,
          went (took t) (counting t) (put p.memory t y) p.running_tasks_count e (λ a. omega arith)
              (λ a. omega arith) (Keeps-in p.memory t at.0 y at.1 refl refl)
              (λ a. put-Live p.memory t a y),
        )
    worker_step-Owned (calling t) e =
        let at = has (calling t) t e refl in
        let y : Task V = record at.0 { result = at.0.function at.0.arg } in
        (
          goes (record p { memory = put p.memory t y }) (ran t),
          rw (at.1) refl,
          went (calling t) (ran t) (put p.memory t y) p.running_tasks_count e (λ a. omega arith)
              (λ a. omega arith) (Keeps-in p.memory t at.0 y at.1 refl at.2)
              (λ a. put-Live p.memory t a y),
        )
    worker_step-Owned (ran t) e = finishes t e
    worker_step-Owned (notifying t) e =
        touches t (notifying t) (unlocking t) e refl (λ a. omega arith) (λ a. omega arith)
    worker_step-Owned (unlocking t) e =
        touches t (unlocking t) leaving e refl (λ a. omega arith) (λ a. omega arith)
    worker_step-Owned (releasing t) e =
        touches t (releasing t) (freeing t) e refl (λ a. omega arith) (λ a. omega arith)
    worker_step-Owned (freeing t) e = frees t e
