-- ===== src/Pool/Steps.antt =====
-- The runs of a pool: the steps of its threads and of one thread of the program, in any order.
use sysprog_exercises.Prelude.{ℕ, ◌≡◌, none, some, List, ◌∷◌, ◌++◌}
use sysprog_exercises.Pool.Task.{
  Memory, Code, success, detached, then_deletes, thread_task_new, thread_task_delete,
  thread_task_detach, join_store,
}
use sysprog_exercises.Pool.Worker.{
  Worker, at_top, waiting, resting, pushing, pushed_one, Pool, goes, worker_step,
}
use sysprog_exercises.Pool.Api.{thread_pool_new, push_check, push_append, push_spawn, delete_begin}

module _ {V : Type 0} where
  -- What the accesses of the functions on a task may do to memory: a detach of a finished task goes on with
  -- a delete, and a join, timed or not, stores the status behind its critical section.
  pub data TaskCall : Memory V → Memory V → Type 0 where
    call_new :
        {h k : Memory V} {c : Code} (t next : ℕ) (result : V) (function : V → V) (arg : V)
        → h t ≡ none
        → thread_task_new h t next result function arg ≡ (k, c)
        → TaskCall h k
    call_delete :
        {h k : Memory V} {c : Code} (t : ℕ) → thread_task_delete h t ≡ some (k, c) → TaskCall h k
    call_detach :
        {h k : Memory V} {c : Code} (t : ℕ)
        → thread_task_detach h t ≡ some (detached k c)
        → TaskCall h k
    call_detach_finished :
        {h k : Memory V} (t : ℕ) → thread_task_detach h t ≡ some (then_deletes k) → TaskCall h k
    call_join_store : {h k : Memory V} (t : ℕ) → join_store h t ≡ some k → TaskCall h k

  pub data Step : Pool V → Pool V → Type 0 where
    works :
        {p q : Pool V} (before after : List Worker) (w v : Worker)
        → p.threads ≡ before ++ (w ∷ after)
        → worker_step p w ≡ some (goes q v)
        → Step p (record q { threads = before ++ (v ∷ after) })
    wakes :
        {p : Pool V} (before after : List Worker)
        → p.threads ≡ before ++ (waiting ∷ after)
        → Step p (record p { threads = before ++ (at_top ∷ after) })
    push_checks :
        {p q : Pool V} {c : Code} (t : ℕ)
        → p.client ≡ resting
        → push_check p t ≡ some (q, c)
        → Step p q
    push_appends :
        {p q : Pool V} (t : ℕ) → p.client ≡ pushing t → push_append p t ≡ some q → Step p q
    push_spawns : {p : Pool V} → p.client ≡ pushed_one → Step p (push_spawn p)
    deletes : {p q : Pool V} {c : Code} → p.client ≡ resting → delete_begin p ≡ (q, c) → Step p q
    calls_task :
        {p : Pool V} {k : Memory V} → TaskCall p.memory k → Step p (record p { memory = k })

  -- The states that a pool comes to.
  pub data Reach : Pool V → Type 0 where
    created :
        {p : Pool V} (h : Memory V) (max_thread_count : ℕ)
        → thread_pool_new h max_thread_count ≡ (some p, success)
        → Reach p
    onward : {p q : Pool V} → Reach p → Step p q → Reach q

  pub data Steps : Pool V → Pool V → Type 0 where
    no_steps : {p : Pool V} → Steps p p
    then_step : {p q r : Pool V} → Step p q → Steps q r → Steps p r
