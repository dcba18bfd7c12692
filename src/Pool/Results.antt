-- ===== src/Pool/Results.antt =====
-- A thread of 4/thread_pool.c with a task, from the queue on to the top of the loop.
use sysprog_exercises.Prelude.{
  ◌>>=◌, ℕ, zero, suc, ◌+◌, ◌-◌, ◌≡◌, refl, ap, ◌∙◌, true, false, Option, none, some, arith,
  if◌then◌else◌, ◌==◌,
}
use sysprog_exercises.Pool.Task.{
  Task, Memory, put, free, is_free, with_status, status_free, finished, running, joined, success,
  thread_task_delete, join_end, join_store, join_result, thread_task_join,
}
use sysprog_exercises.Pool.Queue.{put_same, put_other}
use sysprog_exercises.Pool.Worker.{
  Worker, at_top, took, counting, calling, ran, notifying, unlocking, releasing, freeing, leaving,
  goes, stopped, Pool, finish_task, touch_task, free_task, worker_step,
}

module _ {V : Type 0} where
  -- Steps of one thread.
  unfoldable pub run_thread : ℕ → Pool V → Worker → Option (Pool V × Worker)
  unfolding worker_step
  run_thread zero p w = some (p, w)
  run_thread (suc n) p w = do
    m ← worker_step p w
    elim m [ stopped ↦ none | goes q v ↦ run_thread n q v ]

  one_step :
      (n : ℕ) (p q : Pool V) (w v : Worker)
      → worker_step p w ≡ some (goes q v)
      → run_thread (suc n) p w ≡ run_thread n q v
  unfolding run_thread
  one_step n p q w v e =
      ap (λ o. o >>= (λ m. elim m [ stopped ↦ none | goes q v ↦ run_thread n q v ])) e

  -- A join of a finished task.
  join_finished :
      (h : Memory V) (t : ℕ) (x : Task V)
      → h t ≡ some x
      → x.status ≡ finished
      → thread_task_join h t ≡ some (joined (put h t (with_status x finished)) x.result)
  unfolding thread_task_join join_end join_store join_result
  join_finished h t x e f = let same : (t == t) ≡ true = ground arith in rw (e, f, same) refl

  -- A thread that took a task which stays in memory and is not detached runs it in seven steps: it comes
  -- back to the top of its loop, the count of running tasks is what it was, and a join of the task then
  -- does not wait and hands over what the task's function makes of its argument.
  pub run_thread-joined :
      (p : Pool V) (t : ℕ) (x : Task V)
      → p.memory t ≡ some x
      → x.is_detached ≡ false
      → (q : Pool V) × (run_thread 7 p (took t) ≡ some (q, at_top))
        × (q.running_tasks_count ≡ p.running_tasks_count)
        × (q.tasks ≡ p.tasks)
        × (k : Memory V) × (thread_task_join q.memory t ≡ some (joined k (x.function x.arg)))
  unfolding run_thread worker_step finish_task touch_task
  run_thread-joined p t x e d =
      let x1 : Task V = with_status x running in
      let p1 : Pool V = record p { memory = put p.memory t x1 } in
      let p2 : Pool V = record p1 { running_tasks_count = p.running_tasks_count + 1 } in
      let x3 : Task V = record x1 { result = x.function x.arg } in
      let p3 : Pool V = record p2 { memory = put p1.memory t x3 } in
      let x4 : Task V = with_status x3 finished in
      let p4 : Pool V = record p3 { memory = put p3.memory t x4 } in
      let p5 : Pool V = record p4 { running_tasks_count = p4.running_tasks_count - 1 } in
      let there = put_same p3.memory t x4 in
      (
        p5,
        one_step 6 p p1 (took t) (counting t) (rw e refl)
            ∙ one_step 5 p1 p2 (counting t) (calling t) refl
            ∙ one_step 4 p2 p3 (calling t) (ran t) (rw (put_same p.memory t x1) refl)
            ∙ one_step 3 p3 p4 (ran t) (notifying t) (rw (put_same p1.memory t x3, d) refl)
            ∙ one_step 2 p4 p4 (notifying t) (unlocking t) (rw there refl)
            ∙ one_step 1 p4 p4 (unlocking t) leaving (rw there refl)
            ∙ one_step 0 p4 p5 leaving at_top refl,
        omega arith,
        refl,
        put p4.memory t (with_status x4 finished),
        join_finished p4.memory t x4 there refl,
      )

  delete_free :
      (h : Memory V) (t : ℕ) (x : Task V)
      → h t ≡ some x
      → is_free x.status ≡ true
      → thread_task_delete h t ≡ some (free h t, success)
  unfolding thread_task_delete
  delete_free h t x e f = rw (e, f) refl

  -- A thread that took a task which is in memory and detached runs it in seven steps, and frees it: it
  -- comes back to the top of its loop, the counts are what they were, nothing is at the task's address,
  -- and all other tasks are as they were.
  pub run_thread-freed :
      (p : Pool V) (t : ℕ) (x : Task V)
      → p.memory t ≡ some x
      → x.is_detached ≡ true
      → (q : Pool V) × (run_thread 7 p (took t) ≡ some (q, at_top))
        × (q.running_tasks_count ≡ p.running_tasks_count)
        × (q.memory t ≡ none)
        × ((u : ℕ) → (u == t) ≡ false → q.memory u ≡ p.memory u)
  unfolding run_thread worker_step finish_task touch_task free_task
  run_thread-freed p t x e d =
      let x1 : Task V = with_status x running in
      let p1 : Pool V = record p { memory = put p.memory t x1 } in
      let p2 : Pool V = record p1 { running_tasks_count = p.running_tasks_count + 1 } in
      let x3 : Task V = record x1 { result = x.function x.arg } in
      let p3 : Pool V = record p2 { memory = put p1.memory t x3 } in
      let x4 : Task V = with_status x3 status_free in
      let h4 : Memory V = put p3.memory t x4 in
      let p4 : Pool V = record p3 { memory = h4 } in
      let p5 : Pool V = record p4 { memory = free h4 t } in
      let p6 : Pool V = record p5 { running_tasks_count = p5.running_tasks_count - 1 } in
      let there = put_same p3.memory t x4 in
      let same : (t == t) ≡ true = ground arith in
      (
        p6,
        one_step 6 p p1 (took t) (counting t) (rw e refl)
            ∙ one_step 5 p1 p2 (counting t) (calling t) refl
            ∙ one_step 4 p2 p3 (calling t) (ran t) (rw (put_same p.memory t x1) refl)
            ∙ one_step 3 p3 p4 (ran t) (releasing t) (rw (put_same p1.memory t x3, d) refl)
            ∙ one_step 2 p4 p4 (releasing t) (freeing t) (rw there refl)
            ∙ one_step 1 p4 p5 (freeing t) leaving (
                ap (λ o. o >>= (λ r. some (goes (record p4 { memory = r.0 }) leaving)))
                  (delete_free h4 t x4 there refl))
            ∙ one_step 0 p5 p6 leaving at_top refl,
        omega arith,
        ap (λ b. if b then none else h4 t) same,
        λ u apart.
            ap (λ b. if b then none else h4 u) apart
            ∙ put_other p3.memory t u x4 apart
            ∙ put_other p1.memory t u x3 apart
            ∙ put_other p.memory t u x1 apart,
      )
