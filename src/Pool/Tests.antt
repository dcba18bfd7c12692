-- ===== src/Pool/Tests.antt =====
-- The theorems on the thread pool of 4/ at a sample pool.
use sysprog_exercises.Prelude.{
  Option, ltb, if◌then◌else◌, ◌%◌, ◌/◌, ◌⊎◌, eq_of_some, ℕ, zero, suc, ◌≡◌, refl, arith, Bool, true,
  false, none, some, List, [], ◌∷◌, ◌==◌,
}
use sysprog_exercises.Pool.Timeout.{
  Timespec, Doubles, init_timespec, IsDeadline, Overflows, init_timespec-IsDeadline, second,
  time_max,
}
use sysprog_exercises.Pool.Task.{
  Task, Memory, Status, pushed, status_free, success, put, joined, join_end, thread_task_join,
  thread_task_delete,
}
use sysprog_exercises.Pool.Queue.{Queue, queue_new, queue_push_back, queue_pop_front}
use sysprog_exercises.Pool.Fifo.{Call, push_back, pop_front, run_calls, fifo, run_calls-fifo}
use sysprog_exercises.Pool.Worker.{
  Worker, at_top, empty_handed, waiting, took, resting, pushing, pushed_one, Pool,
}
use sysprog_exercises.Pool.Api.{thread_pool_new, push_check, push_append, push_spawn}
use sysprog_exercises.Pool.Steps.{
  Reach, created, onward, push_checks, push_appends, push_spawns, Steps,
}
use sysprog_exercises.Pool.Counted.{Counted}
use sysprog_exercises.Pool.Counts.{Reach-Counted}
use sysprog_exercises.Pool.Results.{run_thread, run_thread-joined, run_thread-freed}
use sysprog_exercises.Pool.Defects.{replicate, push_missed, join_end-early}

-- Tasks that add one, with a `next` that nobody wrote.
abbrev sample_task : Status → Bool → Task ℕ
sample_task s b = record {
  function = suc;
  arg = 41;
  next = 77;
  status = s;
  result = 0;
  is_detached = b;
}

abbrev sample_memory : Memory ℕ
sample_memory t = elim t [
  | zero ↦ none
  | suc zero ↦ some (sample_task pushed false)
  | suc (suc zero) ↦ some (sample_task pushed true)
  | suc (suc (suc u)) ↦ some (sample_task status_free false)
]

-- A pool of two threads at most.
abbrev sample_pool : Pool ℕ
sample_pool = record {
  memory = sample_memory;
  tasks = queue_new;
  threads_count = 0;
  max_threads_count = 2;
  is_deleting = false;
  running_tasks_count = 0;
  threads = [];
  client = resting;
}

-- Timeouts in whole nanoseconds, or infinity.
abbrev nanos_or_infinity : Doubles (Option ℕ)
nanos_or_infinity = record {
  modf = λ d. elim d [ none ↦ (some 0, none) | some x ↦ (some (x % second), some (x / second)) ];
  times_1e9 = λ d. d;
  to_time_t = λ d. elim d [ none ↦ none | some x ↦ if ltb time_max x then none else some x ];
  to_long = λ d. d;
}

abbrev sample_clock : Timespec
sample_clock = record { tv_sec = 5; tv_nsec = 900000000 }

init_timespec-IsDeadline_example :
    ((t : Timespec) × (init_timespec nanos_or_infinity sample_clock (some 1200000000) ≡ some t)
      × IsDeadline nanos_or_infinity sample_clock (some 1200000000) t)
    ⊎ (init_timespec nanos_or_infinity sample_clock (some 1200000000) ≡ none)
      × Overflows nanos_or_infinity sample_clock (some 1200000000)
init_timespec-IsDeadline_example =
    init_timespec-IsDeadline nanos_or_infinity sample_clock (some 1200000000) (omega arith)
      (λ n e. omega (arith, eq_of_some e))

carried_deadline :
    init_timespec nanos_or_infinity sample_clock (some 1200000000)
    ≡ some (record { tv_sec = 7; tv_nsec = 100000000 })
unfolding init_timespec
carried_deadline = refl

infinite_timeout : init_timespec nanos_or_infinity sample_clock none ≡ none
unfolding init_timespec
infinite_timeout = refl

abbrev sample_calls : List Call
sample_calls =
    push_back 1 ∷ push_back 3 ∷ pop_front ∷ push_back 2 ∷ pop_front ∷ pop_front ∷ pop_front ∷ []

run_calls-fifo_example :
    run_calls sample_memory queue_new sample_calls ≡ some (fifo [] sample_calls)
run_calls-fifo_example = run_calls-fifo sample_memory queue_new [] sample_calls refl tt (
  (sample_task pushed false, refl),
  tt,
  (
    (sample_task status_free false, refl),
    (refl, tt),
    ((sample_task pushed true, refl), (refl, tt), tt),
  ),
)

run_thread-joined_example :
    (q : Pool ℕ) × (run_thread 7 sample_pool (took 1) ≡ some (q, at_top))
    × (q.running_tasks_count ≡ 0)
    × (q.tasks ≡ queue_new)
    × (k : Memory ℕ) × (thread_task_join q.memory 1 ≡ some (joined k 42))
run_thread-joined_example = run_thread-joined sample_pool 1 (sample_task pushed false) refl refl

run_thread-freed_example :
    (q : Pool ℕ) × (run_thread 7 sample_pool (took 2) ≡ some (q, at_top))
    × (q.running_tasks_count ≡ 0)
    × (q.memory 2 ≡ none)
    × ((u : ℕ) → (u == 2) ≡ false → q.memory u ≡ sample_memory u)
run_thread-freed_example = run_thread-freed sample_pool 2 (sample_task pushed true) refl refl

abbrev one_idle : Pool ℕ
one_idle = record sample_pool { threads_count = 1; threads = empty_handed ∷ [] }

push_missed_example :
    (q : Pool ℕ) × Steps one_idle q
    × (q.threads ≡ replicate 1 waiting)
    × (q.tasks.size ≡ 1)
    × (q.client ≡ resting)
push_missed_example =
    push_missed one_idle 0 3 (sample_task status_free false) refl refl refl refl refl refl

abbrev one_queued : Queue
one_queued = record { head = 1; tail = 1; size = 1 }

join_end-early_example :
    (k l : Memory ℕ) × (join_end sample_memory 1 ≡ some (joined k 0))
    × (thread_task_delete k 1 ≡ some (l, success))
    × (queue_pop_front l one_queued ≡ none)
join_end-early_example =
    join_end-early sample_memory one_queued 1 [] (sample_task pushed false)
      (refl, refl, (sample_task pushed false, refl, refl)) refl refl

-- A pool of two threads with a task pushed.
abbrev checked : Pool ℕ
checked = record sample_pool {
  memory = put sample_memory 3 (sample_task pushed false);
  client = pushing 3;
}

abbrev appended : Pool ℕ
appended = record checked { tasks = record { head = 3; tail = 3; size = 1 }; client = pushed_one }

sample-Reach : Reach (push_spawn appended)
unfolding thread_pool_new push_check push_append queue_push_back
sample-Reach =
    onward
      (onward
        (onward (created {p = sample_pool} sample_memory 2 refl)
          (push_checks {q = checked} {c = success} 3 refl refl))
        (push_appends {q = appended} 3 refl refl))
      (push_spawns {p = appended} refl)

Reach-Counted_example : Counted (push_spawn appended)
Reach-Counted_example = Reach-Counted sample-Reach
