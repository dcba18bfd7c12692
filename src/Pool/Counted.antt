-- ===== src/Pool/Counted.antt =====
-- The counts of a pool against its threads, at a thread's step.
use sysprog_exercises.Prelude.{
  ℕ, suc, ◌+◌, ◌≤◌, ◌≡◌, refl, ap, ◌∙◌, subst, some, List, [], ◌∷◌, ◌++◌, arith, length,
  length-append,
}
use sysprog_exercises.Pool.Worker.{
  Worker, at_top, empty_handed, waiting, leaving, returned, took, counting, calling, ran, notifying,
  unlocking, releasing, freeing, Client, pushing, Pool, wake, broadcast, goes, worker_step,
}
use sysprog_exercises.Pool.Moves.{counted, Moved, MovedBy, worker_step-MovedBy}

abbrev pub all_counted : List Worker → ℕ
all_counted [] = 0
all_counted (w ∷ ws) = counted w + all_counted ws

-- The place in the queue that a push has been granted.
abbrev pub granted : Client → ℕ
granted (pushing t) = 1
granted c = 0

pub record Counted {V : Type 0} (p : Pool V) : Type 0 where
  pub threads_length : length p.threads ≡ p.threads_count
  pub threads_max : p.threads_count ≤ p.max_threads_count
  pub max_bound : p.max_threads_count ≤ 20
  pub running_counted : p.running_tasks_count ≡ all_counted p.threads
  pub tasks_bound : p.tasks.size + granted p.client ≤ 100000

pub all_counted-append :
    (ws vs : List Worker) → all_counted (ws ++ vs) ≡ all_counted ws + all_counted vs
all_counted-append [] vs = omega arith
all_counted-append (w ∷ ws) vs = omega (arith, all_counted-append ws vs)

counted-wake : (w : Worker) → counted (wake w) ≡ counted w
counted-wake at_top = refl
counted-wake empty_handed = refl
counted-wake waiting = refl
counted-wake leaving = refl
counted-wake returned = refl
counted-wake (took t) = refl
counted-wake (counting t) = refl
counted-wake (calling t) = refl
counted-wake (ran t) = refl
counted-wake (notifying t) = refl
counted-wake (unlocking t) = refl
counted-wake (releasing t) = refl
counted-wake (freeing t) = refl

pub broadcast_counts :
    (ws : List Worker)
    → (length (broadcast ws) ≡ length ws) × (all_counted (broadcast ws) ≡ all_counted ws)
broadcast_counts [] = (refl, refl)
broadcast_counts (w ∷ ws) =
    (ap suc (broadcast_counts ws).0, omega (arith, counted-wake w, broadcast_counts ws))

module _ {V : Type 0} where
  pub works-Counted :
      (p q : Pool V) (before after : List Worker) (w v : Worker)
      → Counted p
      → p.threads ≡ before ++ (w ∷ after)
      → Moved p q w v
      → Counted (record q { threads = before ++ (v ∷ after) })
  works-Counted p q before after w v c e m =
      let was : all_counted p.threads ≡ all_counted before + (counted w + all_counted after) =
        ap all_counted e ∙ all_counted-append before (w ∷ after) in
      let now = all_counted-append before (v ∷ after) in
      let moved = m.moved_running (omega (arith, was, c.running_counted)) in
      record {
        threads_length = omega (
          arith,
          ap length e,
          length-append before (w ∷ after),
          length-append before (v ∷ after),
          c.threads_length,
          m.same_count,
        );
        threads_max = omega (arith, m.same_count, m.same_max, c.threads_max);
        max_bound = omega (arith, m.same_max, c.max_bound);
        running_counted = omega (arith, was, now, moved, c.running_counted);
        tasks_bound = omega (arith, m.fewer_tasks, ap granted m.same_client, c.tasks_bound);
      }

  pub MovedBy-goes :
      (p q : Pool V) (w v : Worker) → worker_step p w ≡ some (goes q v) → Moved p q w v
  MovedBy-goes p q w v e = subst (MovedBy p w) e (worker_step-MovedBy p w)

  pub wakes-Counted :
      (p : Pool V) (before after : List Worker)
      → Counted p
      → p.threads ≡ before ++ (waiting ∷ after)
      → Counted (record p { threads = before ++ (at_top ∷ after) })
  wakes-Counted p before after c e = works-Counted p p before after waiting at_top c e (record {
    same_count = refl;
    same_max = refl;
    same_client = refl;
    fewer_tasks = omega arith;
    moved_running = λ le. refl;
  })
