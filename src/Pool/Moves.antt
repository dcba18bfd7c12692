-- ===== src/Pool/Moves.antt =====
-- How a thread's step moves the counts of its pool.
use sysprog_exercises.Prelude.{
  ◌>>=◌, ℕ, ◌+◌, ◌-◌, ◌≤◌, ◌≡◌, refl, Bool, true, false, Option, none, some, arith, ◌==◌,
  if◌then◌else◌,
}
use sysprog_exercises.Pool.Task.{
  Task, Memory, Code, put, with_status, status_free, finished, running, thread_task_delete,
}
use sysprog_exercises.Pool.Queue.{Queue, queue_pop_front}
use sysprog_exercises.Pool.Worker.{
  Worker, at_top, empty_handed, waiting, leaving, returned, took, counting, calling, ran, notifying,
  unlocking, releasing, freeing, Pool, Move, goes, take_task, finish_task, touch_task, free_task,
  worker_step,
}

-- A thread that is counted as running a task.
abbrev pub counted : Worker → ℕ
counted (calling t) = 1
counted (ran t) = 1
counted (notifying t) = 1
counted (unlocking t) = 1
counted (releasing t) = 1
counted (freeing t) = 1
counted leaving = 1
counted w = 0

abbrev Fewer : Queue → Option (Option ℕ × Queue) → Type 0
Fewer q none = Unit {0}
Fewer q (some r) = r.1.size ≤ q.size

module _ {V : Type 0} where
  -- What a thread's step leaves as it is, and how the counts move with it.
  pub record Moved (p q : Pool V) (w v : Worker) : Type 0 where
    pub same_count : q.threads_count ≡ p.threads_count
    pub same_max : q.max_threads_count ≡ p.max_threads_count
    pub same_client : q.client ≡ p.client
    pub fewer_tasks : q.tasks.size ≤ p.tasks.size
    pub moved_running :
        counted w ≤ p.running_tasks_count
        → q.running_tasks_count + counted w ≡ p.running_tasks_count + counted v

  abbrev pub MovedBy : Pool V → Worker → Option (Move V) → Type 0
  MovedBy p w (some (goes q v)) = Moved p q w v
  MovedBy p w o = Unit {0}

  -- A step that changes memory alone, and keeps the count of its thread.
  only_memory :
      (p : Pool V) (w v : Worker) (h : Memory V)
      → counted w ≡ counted v
      → Moved p (record p { memory = h }) w v
  only_memory p w v h e = record {
    same_count = refl;
    same_max = refl;
    same_client = refl;
    fewer_tasks = omega arith;
    moved_running = λ le. omega arith;
  }

  on_task :
      (p : Pool V) (w v : Worker) (o : Option (Task V)) (change : Task V → Memory V)
      → counted w ≡ counted v
      → MovedBy p w (o >>= (λ x. some (goes (record p { memory = change x }) v)))
  on_task p w v none change e = tt
  on_task p w v (some x) change e = only_memory p w v (change x) e

  queue_pop_front-Fewer : (h : Memory V) (q : Queue) → Fewer q (queue_pop_front h q)
  unfolding queue_pop_front
  queue_pop_front-Fewer h q = by_size (q.size == 0) (h q.head)
    where
      by_size :
          (b : Bool) (o : Option (Task V))
          → Fewer q (
              if b
              then some (none, q)
              else (o >>= (λ (x : Task V).
                  some (some q.head, record q { head = x.next; size = q.size - 1 }))))
      by_size true o = omega arith
      by_size false none = tt
      by_size false (some x) = omega arith

  taken :
      (p : Pool V) (o : Option (Option ℕ × Queue))
      → Fewer p.tasks o
      → MovedBy p at_top (
          o >>= (λ r.
            some (
              goes
                (record p { tasks = r.1 })
                (elim r.0 [ none ↦ empty_handed | some t ↦ took t ]))))
  taken p none f = tt
  taken p (some (none, q)) f = record {
    same_count = refl;
    same_max = refl;
    same_client = refl;
    fewer_tasks = f;
    moved_running = λ le. refl;
  }
  taken p (some (some t, q)) f = record {
    same_count = refl;
    same_max = refl;
    same_client = refl;
    fewer_tasks = f;
    moved_running = λ le. refl;
  }

  finish_task-MovedBy : (p : Pool V) (t : ℕ) → MovedBy p (ran t) (finish_task p t)
  unfolding finish_task
  finish_task-MovedBy p t = on (p.memory t)
    where
      section :
          (b : Bool) (h k : Memory V)
          → MovedBy p (ran t) (
              if b
              then some (goes (record p { memory = h }) (releasing t))
              else some (goes (record p { memory = k }) (notifying t)))
      section true h k = only_memory p (ran t) (releasing t) h refl
      section false h k = only_memory p (ran t) (notifying t) k refl

      on :
          (o : Option (Task V))
          → MovedBy p (ran t) (
              o >>= (λ (x : Task V).
                if x.is_detached
                then some (
                    goes
                      (record p { memory = put p.memory t (with_status x status_free) })
                      (releasing t))
                else some (
                    goes
                      (record p { memory = put p.memory t (with_status x finished) })
                      (notifying t))))
      on none = tt
      on (some x) =
          section x.is_detached (put p.memory t (with_status x status_free))
            (put p.memory t (with_status x finished))

  touch_task-MovedBy :
      (p : Pool V) (t : ℕ) (w v : Worker) → counted w ≡ counted v → MovedBy p w (touch_task p t v)
  unfolding touch_task
  touch_task-MovedBy p t w v e = on_task p w v (p.memory t) (λ x. p.memory) e

  free_task-MovedBy : (p : Pool V) (t : ℕ) → MovedBy p (freeing t) (free_task p t)
  unfolding free_task
  free_task-MovedBy p t = deleted (thread_task_delete p.memory t)
    where
      deleted :
          (o : Option (Memory V × Code))
          → MovedBy p (freeing t) (o >>= (λ r. some (goes (record p { memory = r.0 }) leaving)))
      deleted none = tt
      deleted (some r) = only_memory p (freeing t) leaving r.0 refl

  pub worker_step-MovedBy : (p : Pool V) (w : Worker) → MovedBy p w (worker_step p w)
  unfolding worker_step take_task
  worker_step-MovedBy p at_top =
      taken p (queue_pop_front p.memory p.tasks) (queue_pop_front-Fewer p.memory p.tasks)
  worker_step-MovedBy p empty_handed = by_flag p.is_deleting
    where
      by_flag : (b : Bool) → Moved p p empty_handed (if b then returned else waiting)
      by_flag true = only_memory p empty_handed returned p.memory refl
      by_flag false = only_memory p empty_handed waiting p.memory refl
  worker_step-MovedBy p waiting = tt
  worker_step-MovedBy p leaving = record {
    same_count = refl;
    same_max = refl;
    same_client = refl;
    fewer_tasks = omega arith;
    moved_running = λ le. omega arith;
  }
  worker_step-MovedBy p returned = tt
  worker_step-MovedBy p (took t) =
      on_task p (took t) (counting t) (p.memory t) (λ x. put p.memory t (with_status x running))
        refl
  worker_step-MovedBy p (counting t) = record {
    same_count = refl;
    same_max = refl;
    same_client = refl;
    fewer_tasks = omega arith;
    moved_running = λ le. omega arith;
  }
  worker_step-MovedBy p (calling t) =
      on_task p (calling t) (ran t) (p.memory t)
        (λ x. put p.memory t (record x { result = x.function x.arg })) refl
  worker_step-MovedBy p (ran t) = finish_task-MovedBy p t
  worker_step-MovedBy p (notifying t) = touch_task-MovedBy p t (notifying t) (unlocking t) refl
  worker_step-MovedBy p (unlocking t) = touch_task-MovedBy p t (unlocking t) leaving refl
  worker_step-MovedBy p (releasing t) = touch_task-MovedBy p t (releasing t) (freeing t) refl
  worker_step-MovedBy p (freeing t) = free_task-MovedBy p t
