-- ===== src/Pool/Limits.antt =====
-- The counts of a pool at the functions on it.
use sysprog_exercises.Prelude.{
  ◌>>=◌, ℕ, ◌+◌, ◌≡◌, refl, ap, sym, subst, Bool, true, false, Option, none, some, [], ◌∷◌, ◌++◌,
  arith, length-append, inl, inr, Bool-cases, not, ◌&&◌, ◌||◌, ltb, ltb→lt, ◌==◌, if◌then◌else◌,
}
use sysprog_exercises.Pool.Task.{
  Task, Memory, Code, success, invalid_argument, too_many_tasks, has_tasks, pushed, put,
  with_status,
}
use sysprog_exercises.Pool.Queue.{Queue, queue_new, link, queue_push_back}
use sysprog_exercises.Pool.Worker.{at_top, resting, pushing, pushed_one, Pool, broadcast}
use sysprog_exercises.Pool.Api.{
  max_tasks, max_threads, thread_pool_new, push_check, push_append, push_spawn, delete_begin,
}
use sysprog_exercises.Pool.Counted.{granted, Counted, all_counted-append, broadcast_counts}

module _ {V : Type 0} where
  abbrev pub All : Option (Pool V × Code) → Type 0
  All none = Unit {0}
  All (some r) = Counted r.0

  pub push_check-Counted :
      (p : Pool V) (t : ℕ) → Counted p → p.client ≡ resting → All (push_check p t)
  unfolding push_check
  push_check-Counted p t c rest = elim (Bool-cases (p.tasks.size == max_tasks)) [
    | inl full ↦
        subst All (sym (ap (λ b. if b then some (p, too_many_tasks) else write (p.memory t)) full))
          c
    | inr room ↦
        subst All (sym (ap (λ b. if b then some (p, too_many_tasks) else write (p.memory t)) room))
          (written room (p.memory t))
  ]
    where
      write : Option (Task V) → Option (Pool V × Code)
      write o = o >>= (λ (x : Task V). some (
        record p { memory = put p.memory t (with_status x pushed); client = pushing t },
        success,
      ))

      written : (p.tasks.size == max_tasks) ≡ false → (o : Option (Task V)) → All (write o)
      written room none = tt
      written room (some x) = record {
        threads_length = c.threads_length;
        threads_max = c.threads_max;
        max_bound = c.max_bound;
        running_counted = c.running_counted;
        tasks_bound = ground (arith, c.tasks_bound, room);
      }

  abbrev OneMore : Option (Memory V × Queue) → ℕ → Type 0
  OneMore none n = Unit {0}
  OneMore (some r) n = r.1.size ≡ n + 1

  queue_push_back-OneMore :
      (h : Memory V) (q : Queue) (t : ℕ) → OneMore (queue_push_back h q t) q.size
  unfolding queue_push_back
  queue_push_back-OneMore h q t = by_size (q.size == 0) (link h q.tail t)
    where
      by_size :
          (b : Bool) (o : Option (Memory V))
          → OneMore
              (if b
                then some (h, record { head = t; tail = t; size = q.size + 1 })
                else (o >>= (λ linked.
                    some (linked, record { head = q.head; tail = t; size = q.size + 1 }))))
              q.size
      by_size true o = refl
      by_size false none = tt
      by_size false (some linked) = refl

  abbrev pub Kept : Option (Pool V) → Type 0
  Kept none = Unit {0}
  Kept (some q) = Counted q

  pub push_append-Counted :
      (p : Pool V) (t : ℕ) → Counted p → p.client ≡ pushing t → Kept (push_append p t)
  unfolding push_append
  push_append-Counted p t c e =
      appended (queue_push_back p.memory p.tasks t) (queue_push_back-OneMore p.memory p.tasks t)
    where
      appended :
          (o : Option (Memory V × Queue))
          → OneMore o p.tasks.size
          → Kept (
              o >>= (λ r. some (record p {
                memory = r.0;
                tasks = r.1;
                threads = broadcast p.threads;
                client = pushed_one;
              })))
      appended none m = tt
      appended (some r) m = record {
        threads_length = omega (arith, broadcast_counts p.threads, c.threads_length);
        threads_max = c.threads_max;
        max_bound = c.max_bound;
        running_counted = omega (arith, broadcast_counts p.threads, c.running_counted);
        tasks_bound = omega (arith, c.tasks_bound, m, ap granted e);
      }

  pub push_spawn-Counted : (p : Pool V) → Counted p → p.client ≡ pushed_one → Counted (push_spawn p)
  unfolding push_spawn
  push_spawn-Counted p c e =
      by_room (ltb p.threads_count p.tasks.size) (ltb p.threads_count p.max_threads_count) refl
    where
      at_rest : Counted (record p { client = resting })
      at_rest = record {
        threads_length = c.threads_length;
        threads_max = c.threads_max;
        max_bound = c.max_bound;
        running_counted = c.running_counted;
        tasks_bound = omega (arith, c.tasks_bound);
      }

      by_room :
          (a b : Bool)
          → ltb p.threads_count p.max_threads_count ≡ b
          → Counted (
              if a && b
              then record p {
                threads_count = p.threads_count + 1;
                threads = p.threads ++ (at_top ∷ []);
                client = resting;
              }
              else record p { client = resting })
      by_room true true lt = record {
        threads_length = omega (arith, length-append p.threads (at_top ∷ []), c.threads_length);
        threads_max = omega (arith, ltb→lt p.threads_count p.max_threads_count lt);
        max_bound = c.max_bound;
        running_counted =
            omega (arith, all_counted-append p.threads (at_top ∷ []), c.running_counted);
        tasks_bound = omega (arith, c.tasks_bound);
      }
      by_room true false lt = at_rest
      by_room false b lt = at_rest

  abbrev pub Deleted : Pool V × Code → Type 0
  Deleted r = Counted r.0

  pub delete_begin-Counted : (p : Pool V) → Counted p → Counted (delete_begin p).0
  unfolding delete_begin
  delete_begin-Counted p c = by_tasks (not (p.tasks.size == 0) || not (p.running_tasks_count == 0))
    where
      by_tasks :
          (b : Bool)
          → Deleted (
              if b
              then (p, has_tasks)
              else (record p { is_deleting = true; threads = broadcast p.threads }, success))
      by_tasks true = c
      by_tasks false = record {
        threads_length = omega (arith, broadcast_counts p.threads, c.threads_length);
        threads_max = c.threads_max;
        max_bound = c.max_bound;
        running_counted = omega (arith, broadcast_counts p.threads, c.running_counted);
        tasks_bound = c.tasks_bound;
      }

  abbrev pub Created : Option (Pool V) × Code → Type 0
  Created r = Kept r.0

  pub thread_pool_new-Counted : (h : Memory V) (n : ℕ) → Created (thread_pool_new h n)
  unfolding thread_pool_new
  thread_pool_new-Counted h n = by_bounds (n == 0) (ltb max_threads n) refl
    where
      by_bounds :
          (a b : Bool)
          → ltb max_threads n ≡ b
          → Created (
              if a || b then (none, invalid_argument) else (
                some (record {
                  memory = h;
                  tasks = queue_new;
                  threads_count = 0;
                  max_threads_count = n;
                  is_deleting = false;
                  running_tasks_count = 0;
                  threads = [];
                  client = resting;
                }),
                success,
              ))
      by_bounds true b e = tt
      by_bounds false true e = tt
      by_bounds false false e = record {
        threads_length = refl;
        threads_max = omega arith;
        max_bound = ground (arith, e);
        running_counted = refl;
        tasks_bound = omega arith;
      }
