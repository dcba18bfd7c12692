-- ===== src/Pool/Api.antt =====
-- The functions on a pool of 4/thread_pool.c.
use sysprog_exercises.Prelude.{
  ◌>>=◌, ℕ, ◌+◌, Bool, true, false, not, ◌&&◌, ◌||◌, Option, none, some, List, [], ◌∷◌, ◌++◌,
  if◌then◌else◌, ltb, ◌==◌,
}
use sysprog_exercises.Pool.Task.{
  Memory, put, with_status, pushed, Code, success, invalid_argument, too_many_tasks, has_tasks,
}
use sysprog_exercises.Pool.Queue.{queue_new, queue_push_back}
use sysprog_exercises.Pool.Worker.{
  Worker, at_top, returned, resting, pushing, pushed_one, Pool, broadcast,
}

-- `TPOOL_MAX_THREADS` and `TPOOL_MAX_TASKS`
abbrev pub max_threads : ℕ
max_threads = 20

abbrev pub max_tasks : ℕ
max_tasks = 100000

module _ {V : Type 0} where
  -- A pool in the memory of the program, or an error.
  unfoldable pub thread_pool_new : Memory V → ℕ → Option (Pool V) × Code
  thread_pool_new h max_thread_count =
      if max_thread_count == 0 || ltb max_threads max_thread_count
      then (none, invalid_argument)
      else (
        some (record {
          memory = h;
          tasks = queue_new;
          threads_count = 0;
          max_threads_count = max_thread_count;
          is_deleting = false;
          running_tasks_count = 0;
          threads = [];
          client = resting;
        }),
        success,
      )

  abbrev pub thread_pool_thread_count : Pool V → ℕ
  thread_pool_thread_count p = p.threads_count

  -- `thread_pool_push_task` up to `queue_push_back`.
  unfoldable pub push_check : Pool V → ℕ → Option (Pool V × Code)
  push_check p t = if p.tasks.size == max_tasks then some (p, too_many_tasks) else (do
    x ← p.memory t
    some (record p { memory = put p.memory t (with_status x pushed); client = pushing t }, success))

  -- `queue_push_back` with its broadcast.
  unfoldable pub push_append : Pool V → ℕ → Option (Pool V)
  unfolding queue_push_back
  push_append p t = do
    r ← queue_push_back p.memory p.tasks t
    some
        (record p { memory = r.0; tasks = r.1; threads = broadcast p.threads; client = pushed_one })

  -- The rest, with `pthread_create`.
  unfoldable pub push_spawn : Pool V → Pool V
  push_spawn p =
      if ltb p.threads_count p.tasks.size && ltb p.threads_count p.max_threads_count
      then record p {
        threads_count = p.threads_count + 1;
        threads = p.threads ++ (at_top ∷ []);
        client = resting;
      }
      else record p { client = resting }

  -- `thread_pool_delete` up to `pthread_join`.
  unfoldable pub delete_begin : Pool V → Pool V × Code
  delete_begin p =
      if not (p.tasks.size == 0) || not (p.running_tasks_count == 0)
      then (p, has_tasks)
      else (record p { is_deleting = true; threads = broadcast p.threads }, success)

-- Whether `pthread_join` has returned for every thread.
abbrev pub all_returned : List Worker → Bool
all_returned [] = true
all_returned (returned ∷ ws) = all_returned ws
all_returned (w ∷ ws) = false
