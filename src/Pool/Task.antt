-- ===== src/Pool/Task.antt =====
-- The tasks of 4/thread_pool.c: their records in memory, and the functions on a task.
--
-- A task has an address; memory holds what an address points to, or nothing for one that was never
-- given out or was freed. `none` is the outcome of following such an address. A critical section is
-- one step. A function that has to wait is cut in two: up to the wait, and from a wake-up on, which need
-- not come from a worker.
use sysprog_exercises.Prelude.{
  ◌>>=◌, ℕ, Bool, true, false, not, ◌&&◌, Option, none, some, if◌then◌else◌, ◌==◌,
}

-- `enum thread_poool_errcode`, less TPOOL_ERR_NOT_IMPLEMENTED, and EXIT_SUCCESS
pub data Code : Type 0 where
  success invalid_argument too_many_tasks has_tasks task_not_pushed task_in_pool timed_out : Code

-- TASK_STATUS_FREE and the others
pub data Status : Type 0 where
  status_free pushed finished running : Status

abbrev pub is_free : Status → Bool
is_free status_free = true
is_free s = false

abbrev pub is_finished_status : Status → Bool
is_finished_status finished = true
is_finished_status s = false

abbrev pub is_running_status : Status → Bool
is_running_status running = true
is_running_status s = false

-- `thread_task`, less its mutex and condition; `next` is an address
pub record Task (V : Type 0) : Type 0 where
  pub function : V → V
  pub arg : V
  pub next : ℕ
  pub status : Status
  pub result : V
  pub is_detached : Bool

abbrev pub Memory : Type 0 → Type 0
Memory V = ℕ → Option (Task V)

-- A write to an address, and `free`.
abbrev pub put : {V : Type 0} → Memory V → ℕ → Task V → Memory V
put h t x = λ a. if a == t then some x else h a

abbrev pub free : {V : Type 0} → Memory V → ℕ → Memory V
free h t = λ a. if a == t then none else h a

abbrev pub with_status : {V : Type 0} → Task V → Status → Task V
with_status x s = record x { status = s }

-- `malloc` is a parameter: it gave out the address `t`, where `next` and `result` hold what they hold.
abbrev pub thread_task_new : {V : Type 0} → Memory V → ℕ → ℕ → V → (V → V) → V → Memory V × Code
thread_task_new h t next result function arg = (
  put h t (record {
    function = function;
    arg = arg;
    next = next;
    status = status_free;
    result = result;
    is_detached = false;
  }),
  success,
)

module _ {V : Type 0} (h : Memory V) (t : ℕ) where
  unfoldable pub thread_task_is_finished : Option Bool
  thread_task_is_finished = do x ← h t; some (is_finished_status x.status)

  unfoldable pub thread_task_is_running : Option Bool
  thread_task_is_running = do x ← h t; some (is_running_status x.status)

  unfoldable pub thread_task_delete : Option (Memory V × Code)
  thread_task_delete = do
    x ← h t
    if not (is_free x.status) && not (is_finished_status x.status)
        then some (h, task_in_pool)
        else some (free h t, success)

-- How a join goes on: it refuses, has the result, or waits.
pub data Join (V : Type 0) : Type 0 where
  refused : Code → Join V
  joined : Memory V → V → Join V
  waits : Join V

-- How a detach goes on: it returns, or deletes the task.
pub data Detach (V : Type 0) : Type 0 where
  detached : Memory V → Code → Detach V
  then_deletes : Memory V → Detach V

module _ {V : Type 0} (h : Memory V) (t : ℕ) where
  -- The store behind the critical section, and the read of the result behind that.
  unfoldable pub join_store : Option (Memory V)
  join_store = do x ← h t; some (put h t (with_status x finished))

  unfoldable pub join_result : Option V
  join_result = do x ← h t; some x.result

module _ {V : Type 0} (h : Memory V) (t : ℕ) where
  -- Behind the wait, or without one, where no other thread comes in between.
  unfoldable pub join_end : Option (Join V)
  unfolding join_store join_result
  join_end = do k ← join_store h t; v ← join_result k t; some (joined k v)

  unfoldable pub thread_task_join : Option (Join V)
  unfolding join_end
  thread_task_join = do
    x ← h t
    if is_free x.status
        then some (refused task_not_pushed)
        else (if not (is_finished_status x.status) then some waits else join_end)

  -- `below_zero` tells whether the timeout is.
  unfoldable pub thread_task_timed_join : Bool → Option (Join V)
  unfolding thread_task_join
  thread_task_timed_join below_zero =
      if below_zero then some (refused timed_out) else thread_task_join

  -- Behind the wait, which came to `ETIMEDOUT` or not.
  unfoldable pub timed_join_end : Bool → Option (Join V)
  unfolding join_end
  timed_join_end etimedout = if etimedout then some (refused timed_out) else join_end

  -- Up to the unlock; a finished task is then deleted.
  unfoldable pub thread_task_detach : Option (Detach V)
  thread_task_detach = do
    x ← h t
    if is_free x.status
        then some (detached h task_not_pushed)
        else (if is_finished_status x.status
            then some (then_deletes (put h t (with_status x status_free)))
            else some (detached (put h t (record x { is_detached = true })) success))
