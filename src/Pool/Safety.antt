-- ===== src/Pool/Safety.antt =====
-- Programs that keep to the rules of 4/thread_pool.h, and what a pool then never does.
use sysprog_exercises.Prelude.{ℕ, ◌≡◌, Option, none, some}
use sysprog_exercises.Pool.Task.{Memory, Code, success}
use sysprog_exercises.Pool.Worker.{Worker, Pool}
use sysprog_exercises.Pool.Api.{thread_pool_new}
use sysprog_exercises.Pool.Steps.{Step, push_checks, calls_task}
use sysprog_exercises.Pool.Keeps.{HasEnded, KeepsWait}
use sysprog_exercises.Pool.Owners.{ended_of, Owned}
use sysprog_exercises.Prelude.{occurrences}

module _ {V : Type 0} where
  -- The rules: a task is pushed that is there and is neither queued nor running, and no join leaves its
  -- wait before the task has finished. Nor is a task pushed again or deleted while a thread is between its
  -- store of the status and its unlock, or its delete: a join that takes the task's mutex comes behind
  -- these, but `thread_task_is_finished` does not tell.
  abbrev pub KeepsRules : {p q : Pool V} → Step p q → Type 0
  KeepsRules {p} (push_checks t e s) =
      HasEnded p.memory t × (occurrences t (ended_of p.threads) ≡ 0)
  KeepsRules {p} (calls_task c) = KeepsWait (ended_of p.threads) c
  KeepsRules s = Unit {0}

  -- The states that a pool comes to under a program that keeps the rules.
  pub data RuledReach : Pool V → Type 0 where
    begun :
        {p : Pool V} (h : Memory V) (max_thread_count : ℕ)
        → thread_pool_new h max_thread_count ≡ (some p, success)
        → RuledReach p
    further : {p q : Pool V} → RuledReach p → (s : Step p q) → KeepsRules s → RuledReach q

  abbrev OwnedNew : Option (Pool V) × Code → Type 0
  OwnedNew r = elim r.0 [ none ↦ Unit {0} | some p ↦ Owned p ]
