-- ===== src/Pool/Defects.antt =====
-- 4/thread_pool.c: a push between a thread's look at the queue and its wait, and a join that wakes up early.
use sysprog_exercises.Prelude.{
  ℕ, zero, suc, ◌+◌, ◌≡◌, refl, sym, ap, subst, ◌∙◌, true, false, none, some, List, [], ◌∷◌, ◌++◌,
  arith, if◌then◌else◌, ◌==◌, ltb,
}
use mathlib.Core.List.{append_assoc}
use sysprog_exercises.Pool.Task.{
  Task, Memory, put, free, with_status, pushed, finished, success, joined, join_end, join_store,
  join_result, thread_task_is_finished, thread_task_delete,
}
use sysprog_exercises.Pool.Queue.{Queue, queue_push_back, queue_pop_front, Holds, put_same}
use sysprog_exercises.Pool.Worker.{
  Worker, ran, notifying, finish_task, touch_task, empty_handed, waiting, returned, broadcast,
  resting, pushing, pushed_one, Pool, goes, worker_step,
}
use sysprog_exercises.Pool.Api.{push_check, push_append, push_spawn}
use sysprog_exercises.Pool.Steps.{
  works, push_checks, push_appends, push_spawns, Steps, no_steps, then_step,
}

abbrev pub replicate : ℕ → Worker → List Worker
replicate zero w = []
replicate (suc n) w = w ∷ replicate n w

broadcast-replicate : (n : ℕ) → broadcast (replicate n empty_handed) ≡ replicate n empty_handed
broadcast-replicate zero = refl
broadcast-replicate (suc n) = ap (λ ws. empty_handed ∷ ws) (broadcast-replicate n)

module _ {V : Type 0} where
  -- The threads go to wait, one behind the other.
  all_wait :
      (p : Pool V) (ws : List Worker) (n : ℕ)
      → p.is_deleting ≡ false
      → Steps
          (record p { threads = ws ++ replicate n empty_handed })
          (record p { threads = ws ++ replicate n waiting })
  unfolding worker_step
  all_wait p ws zero e = no_steps
  all_wait p ws (suc n) e =
      let rest = replicate n empty_handed in
      then_step
        (works {p = record p { threads = ws ++ (empty_handed ∷ rest) }}
          {q = record p { threads = ws ++ (empty_handed ∷ rest) }} ws rest empty_handed waiting refl
          (ap
            (λ b. some (
              goes (record p { threads = ws ++ (empty_handed ∷ rest) })
                (if b then returned else waiting)))
            e))
        (subst
          (λ l.
            Steps (record p { threads = l })
              (record p { threads = ws ++ (waiting ∷ replicate n waiting) }))
          (append_assoc ws (waiting ∷ []) rest)
          (subst
            (λ l.
              Steps (record p { threads = (ws ++ (waiting ∷ [])) ++ rest })
                (record p { threads = l }))
            (append_assoc ws (waiting ∷ []) (replicate n waiting))
            (all_wait p (ws ++ (waiting ∷ [])) n e)))

  -- If every thread of a pool has found the queue empty and does not wait yet, and there is one at least,
  -- then the broadcast of a push comes too early: there is a run of the push and of the threads behind
  -- which every thread waits, the push is over, and the task is in the queue.
  pub push_missed :
      (p : Pool V) (n t : ℕ) (x : Task V)
      → p.threads ≡ replicate (suc n) empty_handed
      → p.threads_count ≡ suc n
      → p.tasks.size ≡ 0
      → p.is_deleting ≡ false
      → p.client ≡ resting
      → p.memory t ≡ some x
      → (q : Pool V) × Steps p q
        × (q.threads ≡ replicate (suc n) waiting)
        × (q.tasks.size ≡ 1)
        × (q.client ≡ resting)
  unfolding push_check push_append queue_push_back push_spawn
  push_missed p n t x ws count size alive rest e =
      let checked : Pool V = record p {
        memory = put p.memory t (with_status x pushed);
        client = pushing t;
      } in
      let appended : Pool V = record checked {
        tasks = record { head = t; tail = t; size = p.tasks.size + 1 };
        threads = broadcast p.threads;
        client = pushed_one;
      } in
      let spawned : Pool V = record appended { client = resting } in
      let awake = ap broadcast ws ∙ broadcast-replicate (suc n) in
      let none_new : ltb p.threads_count (p.tasks.size + 1) ≡ false = ground (arith, count, size) in
      let same : push_spawn appended ≡ spawned = rw none_new refl in
      (
        record spawned { threads = replicate (suc n) waiting },
        then_step (push_checks {q = checked} {c = success} t rest (rw (size, e) refl)) (
            then_step (push_appends {q = appended} t refl (rw size refl)) (
              then_step (push_spawns {p = appended} refl) (
                subst (λ r. Steps r (record spawned { threads = replicate (suc n) waiting }))
                  (sym same)
                  (subst
                    (λ l.
                      Steps (record spawned { threads = l })
                        (record spawned { threads = replicate (suc n) waiting }))
                    (sym awake) (all_wait spawned [] (suc n) alive))))),
        refl,
        omega (arith, size),
        refl,
      )

  -- A join of the queue's first task that its wait leaves without a broadcast, as a wait on a condition
  -- may, hands over a result that no thread has stored and marks the task as finished. A delete then
  -- frees the task in the queue, and the next thread that takes a task follows the freed pointer.
  pub join_end-early :
      (h : Memory V) (q : Queue) (t : ℕ) (ts : List ℕ) (x : Task V)
      → Holds h q (t ∷ ts)
      → h t ≡ some x
      → x.status ≡ pushed
      → (k l : Memory V) × (join_end h t ≡ some (joined k x.result))
        × (thread_task_delete k t ≡ some (l, success))
        × (queue_pop_front l q ≡ none)
  unfolding join_end join_store join_result thread_task_delete queue_pop_front
  join_end-early h q t ts x holds e s =
      let k = put h t (with_status x finished) in
      let n : (q.size == 0) ≡ false = ground (arith, holds.0) in
      let same : (t == t) ≡ true = ground arith in
      (
        k,
        free k t,
        rw (e, same) refl,
        rw (put_same h t (with_status x finished)) refl,
        rw (n, holds.1, same) refl,
      )

  -- A thread has run a task that is not detached, and stores its status. From then on the program sees
  -- that the task has finished, and a delete frees it, although the thread has not yet done its broadcast
  -- and its unlock: the thread then follows the freed pointer. The program has joined with nobody.
  finish_task-polled :
      (p : Pool V) (t : ℕ) (x : Task V)
      → p.memory t ≡ some x
      → x.is_detached ≡ false
      → (q : Pool V) × (k : Memory V) × (worker_step p (ran t) ≡ some (goes q (notifying t)))
        × (thread_task_is_finished q.memory t ≡ some true)
        × (thread_task_delete q.memory t ≡ some (k, success))
        × (worker_step (record q { memory = k }) (notifying t) ≡ none)
  unfolding worker_step finish_task touch_task thread_task_is_finished thread_task_delete
  finish_task-polled p t x e d =
      let h = put p.memory t (with_status x finished) in
      let same : (t == t) ≡ true = ground arith in
      (record p { memory = h }, free h t, rw (e, d) refl, rw same refl, rw same refl, rw same refl)
