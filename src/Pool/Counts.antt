-- ===== src/Pool/Counts.antt =====
-- The counts of a pool against its threads, over every order of steps.
use sysprog_exercises.Prelude.{subst}
use sysprog_exercises.Pool.Worker.{Pool}
use sysprog_exercises.Pool.Steps.{
  Step, works, wakes, push_checks, push_appends, push_spawns, deletes, calls_task, Reach, created,
  onward,
}
use sysprog_exercises.Pool.Counted.{Counted, works-Counted, MovedBy-goes, wakes-Counted}
use sysprog_exercises.Pool.Limits.{
  All, Kept, Deleted, Created, push_check-Counted, push_append-Counted, push_spawn-Counted,
  delete_begin-Counted, thread_pool_new-Counted,
}

module _ {V : Type 0} where
  Step-Counted : (p q : Pool V) → Counted p → Step p q → Counted q
  Step-Counted p q c (works {q = r} before after w v e s) =
      works-Counted p r before after w v c e (MovedBy-goes p r w v s)
  Step-Counted p q c (wakes before after e) = wakes-Counted p before after c e
  Step-Counted p q c (push_checks t e s) = subst All s (push_check-Counted p t c e)
  Step-Counted p q c (push_appends t e s) = subst Kept s (push_append-Counted p t c e)
  Step-Counted p q c (push_spawns e) = push_spawn-Counted p c e
  Step-Counted p q c (deletes e s) = subst Deleted s (delete_begin-Counted p c)
  Step-Counted p q c (calls_task k) = record {
    threads_length = c.threads_length;
    threads_max = c.threads_max;
    max_bound = c.max_bound;
    running_counted = c.running_counted;
    tasks_bound = c.tasks_bound;
  }

  -- Whatever the order of the steps of the threads and of the program, in every state of a pool the
  -- count of threads is the number of its threads and at most the maximum that the pool was created
  -- with, which is at most 20; the count of running tasks is the number of threads that run one; and at
  -- most 100000 tasks are in the queue, the one of a push that has passed its check included.
  pub Reach-Counted : {p : Pool V} → Reach p → Counted p
  Reach-Counted (created {p} h n e) = subst Created e (thread_pool_new-Counted h n)
  Reach-Counted (onward {p} {q} r s) = Step-Counted p q (Reach-Counted r) s
