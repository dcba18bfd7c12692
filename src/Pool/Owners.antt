-- ===== src/Pool/Owners.antt =====
-- Who has a task in a pool of 4/thread_pool.c: the queue, a push under way, or a thread.
use sysprog_exercises.Prelude.{
  ℕ, ◌+◌, ◌≤◌, ◌≡◌, refl, sym, subst, ap, ◌∙◌, true, some, List, [], ◌∷◌, ◌++◌, arith, eq_of_some,
  occurrences, occurrences-append,
}
use sysprog_exercises.Pool.Task.{Task, Memory}
use sysprog_exercises.Pool.Queue.{Live, Queue, Linked, Holds}
use sysprog_exercises.Pool.Worker.{
  Worker, at_top, empty_handed, waiting, leaving, returned, took, counting, calling, ran, notifying,
  unlocking, releasing, freeing, Client, pushing, Pool, wake, broadcast,
}
use sysprog_exercises.Pool.Keeps.{is_in_pool, Stays}

-- The task that a thread has up to the store of its status, and the one of a push.
abbrev pub task_of : Worker → List ℕ
task_of (took t) = t ∷ []
task_of (counting t) = t ∷ []
task_of (calling t) = t ∷ []
task_of (ran t) = t ∷ []
task_of w = []

-- The task that a thread has behind the store of its status.
abbrev pub ended_task : Worker → List ℕ
ended_task (notifying t) = t ∷ []
ended_task (unlocking t) = t ∷ []
ended_task (releasing t) = t ∷ []
ended_task (freeing t) = t ∷ []
ended_task w = []

abbrev pub collect : (Worker → List ℕ) → List Worker → List ℕ
collect f [] = []
collect f (w ∷ ws) = f w ++ collect f ws

abbrev pub tasks_of : List Worker → List ℕ
tasks_of = collect task_of

abbrev pub ended_of : List Worker → List ℕ
ended_of = collect ended_task

abbrev pub task_pushed : Client → List ℕ
task_pushed (pushing t) = t ∷ []
task_pushed c = []

-- How many have the task `a`.
abbrev pub owners : ℕ → List ℕ → Client → List Worker → ℕ
owners a queue c ws =
    occurrences a queue + (occurrences a (task_pushed c) + occurrences a (tasks_of ws))

pub occurrences-collect :
    (f : Worker → List ℕ) (a : ℕ) (ws : List Worker) (w : Worker) (vs : List Worker)
    → occurrences a (collect f (ws ++ (w ∷ vs)))
      ≡ occurrences a (collect f ws) + (occurrences a (f w) + occurrences a (collect f vs))
occurrences-collect f a [] w vs = omega (arith, occurrences-append a (f w) (collect f vs))
occurrences-collect f a (x ∷ ws) w vs = omega (
  arith,
  occurrences-append a (f x) (collect f (ws ++ (w ∷ vs))),
  occurrences-append a (f x) (collect f ws),
  occurrences-collect f a ws w vs,
)

-- One thread among the others, before and behind its step.
pub occurrences-step :
    (f : Worker → List ℕ) (a : ℕ) (threads ws : List Worker) (w v : Worker) (vs : List Worker)
    → threads ≡ ws ++ (w ∷ vs)
    → occurrences a (collect f (ws ++ (v ∷ vs))) + occurrences a (f w)
      ≡ occurrences a (collect f threads) + occurrences a (f v)
occurrences-step f a threads ws w v vs e = omega (
  arith,
  ap (λ l. occurrences a (collect f l)) e,
  occurrences-collect f a ws w vs,
  occurrences-collect f a ws v vs,
)

task_of-wake : (w : Worker) → task_of (wake w) ≡ task_of w
task_of-wake at_top = refl
task_of-wake empty_handed = refl
task_of-wake waiting = refl
task_of-wake leaving = refl
task_of-wake returned = refl
task_of-wake (took t) = refl
task_of-wake (counting t) = refl
task_of-wake (calling t) = refl
task_of-wake (ran t) = refl
task_of-wake (notifying t) = refl
task_of-wake (unlocking t) = refl
task_of-wake (releasing t) = refl
task_of-wake (freeing t) = refl

ended_task-wake : (w : Worker) → ended_task (wake w) ≡ ended_task w
ended_task-wake at_top = refl
ended_task-wake empty_handed = refl
ended_task-wake waiting = refl
ended_task-wake leaving = refl
ended_task-wake returned = refl
ended_task-wake (took t) = refl
ended_task-wake (counting t) = refl
ended_task-wake (calling t) = refl
ended_task-wake (ran t) = refl
ended_task-wake (notifying t) = refl
ended_task-wake (unlocking t) = refl
ended_task-wake (releasing t) = refl
ended_task-wake (freeing t) = refl

collect-broadcast :
    (f : Worker → List ℕ)
    → ((w : Worker) → f (wake w) ≡ f w)
    → (ws : List Worker) → collect f (broadcast ws) ≡ collect f ws
collect-broadcast f same [] = refl
collect-broadcast f same (w ∷ ws) = rw (same w, collect-broadcast f same ws) refl

pub tasks_of-broadcast : (ws : List Worker) → tasks_of (broadcast ws) ≡ tasks_of ws
tasks_of-broadcast = collect-broadcast task_of task_of-wake

pub ended_of-broadcast : (ws : List Worker) → ended_of (broadcast ws) ≡ ended_of ws
ended_of-broadcast = collect-broadcast ended_task ended_task-wake

module _ {V : Type 0} where
  abbrev pub IsIn : Memory V → ℕ → Type 0
  IsIn h a = (x : Task V) × (h a ≡ some x) × (is_in_pool x.status ≡ true)

  pub IsIn-Stays : (h k : Memory V) (a : ℕ) → Stays (h a) (k a) → IsIn h a → IsIn k a
  IsIn-Stays h k a s (x, e, i) = let r = (subst (λ o. Stays o (k a)) e s) i in (r.0, r.1, r.3)

  -- The tasks of the queue are linked, and nobody else has them. Each task has one owner at most, a thread
  -- behind the store of its status included. It is in memory and in the pool up to that store, and in
  -- memory behind it.
  pub record Owned (p : Pool V) : Type 0 where
    pub queue : List ℕ
    pub holds : Holds p.memory p.tasks queue
    pub once : (a : ℕ) → owners a queue p.client p.threads + occurrences a (ended_of p.threads) ≤ 1
    pub in_pool : (a : ℕ) → 1 ≤ owners a queue p.client p.threads → IsIn p.memory a
    pub ended_live : (a : ℕ) → 1 ≤ occurrences a (ended_of p.threads) → Live p.memory a

  -- The link of a task in the pool.
  next_kept :
      (h k : Memory V) (a : ℕ)
      → IsIn h a
      → Stays (h a) (k a)
      → (x : Task V) → h a ≡ some x
      → (y : Task V) × (k a ≡ some y) × (y.next ≡ x.next)
  next_kept h k a (z, f, i) s x e =
      let same : z ≡ x = eq_of_some (sym f ∙ e) in
      let r = (subst (λ o. Stays o (k a)) f s) i in (r.0, r.1, r.2 ∙ ap (λ z. z.next) same)

  Linked-kept :
      (h k : Memory V) (t : ℕ) (ts : List ℕ) (tail : ℕ)
      → ((a : ℕ) → 1 ≤ occurrences a (t ∷ ts) → IsIn h a × Stays (h a) (k a))
      → Linked h t ts tail
      → Linked k t ts tail
  Linked-kept h k t [] tail f (x, e, p) =
      let own = f t (ground arith) in let r = next_kept h k t own.0 own.1 x e in (r.0, r.1, p)
  Linked-kept h k t (u ∷ us) tail f (x, e, p, l) =
      let own = f t (ground arith) in
      let r = next_kept h k t own.0 own.1 x e in
      (r.0, r.1, r.2 ∙ p, Linked-kept h k u us tail (λ a o. f a (omega arith)) l)

  pub Holds-kept :
      (h k : Memory V) (q : Queue) (ts : List ℕ)
      → ((a : ℕ) → 1 ≤ occurrences a ts → IsIn h a × Stays (h a) (k a))
      → Holds h q ts
      → Holds k q ts
  Holds-kept h k q [] f e = e
  Holds-kept h k q (t ∷ ts) f (e, p, l) = (e, p, Linked-kept h k t ts q.tail f l)

  -- Tasks move between owners, or lose one.
  pub Owned-moved :
      (p q : Pool V) (o : Owned p) (queue : List ℕ)
      → Holds q.memory q.tasks queue
      → ((a : ℕ) → owners a queue q.client q.threads ≤ owners a o.queue p.client p.threads)
      → ((a : ℕ)
          → owners a queue q.client q.threads + occurrences a (ended_of q.threads)
            ≤ owners a o.queue p.client p.threads + occurrences a (ended_of p.threads))
      → ((a : ℕ) → 1 ≤ owners a queue q.client q.threads → IsIn p.memory a → IsIn q.memory a)
      → ((a : ℕ) → 1 ≤ occurrences a (ended_of q.threads) → Live q.memory a)
      → Owned q
  Owned-moved p q o queue holds fewer fewer_all kept live = record {
    queue = queue;
    holds = holds;
    once = λ a. omega (arith, fewer_all a, o.once a);
    in_pool = λ a some_owner. kept a some_owner (o.in_pool a (omega (arith, fewer a)));
    ended_live = live;
  }

  -- The queue stays as it is.
  pub Owned-queue :
      (p q : Pool V) (o : Owned p)
      → q.tasks ≡ p.tasks
      → ((a : ℕ) → owners a o.queue q.client q.threads ≤ owners a o.queue p.client p.threads)
      → ((a : ℕ)
          → owners a o.queue q.client q.threads + occurrences a (ended_of q.threads)
            ≤ owners a o.queue p.client p.threads + occurrences a (ended_of p.threads))
      → ((a : ℕ) → 1 ≤ owners a o.queue q.client q.threads → Stays (p.memory a) (q.memory a))
      → ((a : ℕ) → 1 ≤ occurrences a (ended_of q.threads) → Live q.memory a)
      → Owned q
  Owned-queue p q o same fewer fewer_all stays live =
      Owned-moved p q o o.queue
        (subst (λ tasks. Holds q.memory tasks o.queue) (sym same)
          (Holds-kept p.memory q.memory p.tasks o.queue
            (λ a here. (o.in_pool a (omega arith), stays a (omega arith))) o.holds))
        fewer fewer_all (λ a own. IsIn-Stays p.memory q.memory a (stays a own)) live
