-- ===== src/Pool/Worker.antt =====
-- `worker_function` of 4/thread_pool.c, a thread's place in it and its step from there.
--
-- A step is one access to the state that threads share: an atomic operation, a critical section, or the
-- call of the task's function. The section behind that call is split at its accesses to the task, since
-- `thread_task_delete` does not take the mutex.
use sysprog_exercises.Prelude.{
  ◌>>=◌, ℕ, ◌+◌, ◌-◌, Bool, Option, none, some, List, if◌then◌else◌, map,
}
use sysprog_exercises.Pool.Task.{
  Memory, put, with_status, status_free, finished, running, thread_task_delete,
}
use sysprog_exercises.Pool.Queue.{Queue, queue_pop_front}

-- Where a thread is: at the top of the loop, behind `queue_pop_front` without a task, in
-- `pthread_cond_wait`; with a task before its status is set, before it is counted, before its function
-- is called, and with the result; behind the store of FINISHED before the broadcast, and before the
-- unlock; behind the store of FREE before the unlock, and before the delete; in front of the count, and
-- behind the return.
pub data Worker : Type 0 where
  at_top empty_handed waiting leaving returned : Worker
  took counting calling ran notifying unlocking releasing freeing : ℕ → Worker

-- Where the program is in `thread_pool_push_task`: nowhere, in front of `queue_push_back`, behind it.
pub data Client : Type 0 where
  resting pushed_one : Client
  pushing : ℕ → Client

-- `thread_pool`, with its threads and the memory that its tasks are in
pub record Pool (V : Type 0) : Type 0 where
  pub memory : Memory V
  pub tasks : Queue
  pub threads_count : ℕ
  pub max_threads_count : ℕ
  pub is_deleting : Bool
  pub running_tasks_count : ℕ
  pub threads : List Worker
  pub client : Client

-- A wake-up: by `pthread_cond_broadcast` of `empty_lock` every thread that waits goes to the top.
abbrev pub wake : Worker → Worker
wake waiting = at_top
wake w = w

abbrev pub broadcast : List Worker → List Worker
broadcast = map wake

-- What a step comes to: the thread is stopped, or goes on.
pub data Move (V : Type 0) : Type 0 where
  stopped : Move V
  goes : Pool V → Worker → Move V

module _ {V : Type 0} where
  unfoldable pub take_task : Pool V → Option (Move V)
  unfolding queue_pop_front
  take_task p = do
    r ← queue_pop_front p.memory p.tasks
    some (goes (record p { tasks = r.1 }) (elim r.0 [ none ↦ empty_handed | some t ↦ took t ]))

  -- The critical section behind the call, up to the store of the status.
  unfoldable pub finish_task : Pool V → ℕ → Option (Move V)
  finish_task p t = do
    x ← p.memory t
    (if x.is_detached
        then some
            (goes (record p { memory = put p.memory t (with_status x status_free) }) (releasing t))
        else some
            (goes (record p { memory = put p.memory t (with_status x finished) }) (notifying t)))

  -- `pthread_cond_broadcast` and `pthread_mutex_unlock` on what the task holds.
  unfoldable pub touch_task : Pool V → ℕ → Worker → Option (Move V)
  touch_task p t w = do x ← p.memory t; some (goes p w)

  unfoldable pub free_task : Pool V → ℕ → Option (Move V)
  unfolding thread_task_delete
  free_task p t = do
    r ← thread_task_delete p.memory t
    some (goes (record p { memory = r.0 }) leaving)

  unfoldable pub worker_step : Pool V → Worker → Option (Move V)
  unfolding take_task finish_task touch_task free_task
  worker_step p at_top = take_task p
  worker_step p empty_handed = some (goes p (if p.is_deleting then returned else waiting))
  worker_step p waiting = some stopped
  worker_step p (took t) = do
    x ← p.memory t
    some (goes (record p { memory = put p.memory t (with_status x running) }) (counting t))
  worker_step p (counting t) =
      some (goes (record p { running_tasks_count = p.running_tasks_count + 1 }) (calling t))
  worker_step p (calling t) = do
    x ← p.memory t
    some (
        goes (record p { memory = put p.memory t (record x { result = x.function x.arg }) })
          (ran t))
  worker_step p (ran t) = finish_task p t
  worker_step p (notifying t) = touch_task p t (unlocking t)
  worker_step p (unlocking t) = touch_task p t leaving
  worker_step p (releasing t) = touch_task p t (freeing t)
  worker_step p (freeing t) = free_task p t
  worker_step p leaving =
      some (goes (record p { running_tasks_count = p.running_tasks_count - 1 }) at_top)
  worker_step p returned = some stopped
