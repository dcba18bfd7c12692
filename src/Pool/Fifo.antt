-- ===== src/Pool/Fifo.antt =====
-- The queue of 4/thread_pool.c as a first-in first-out queue, over sequences of calls.
use sysprog_exercises.Prelude.{
  ◌>>=◌, ℕ, arith, ◌≡◌, refl, Option, none, some, List, [], ◌∷◌, ◌++◌, Absent, Distinct,
}
use sysprog_exercises.Pool.Task.{Memory}
use sysprog_exercises.Pool.Queue.{
  Queue, queue_push_back, queue_pop_front, Holds, Live, queue_push_back-Holds,
  queue_pop_front-Holds, queue_pop_front-empty,
}

pub data Call : Type 0 where
  push_back : ℕ → Call
  pop_front : Call

module _ {V : Type 0} where
  -- The answers of the calls, in turn.
  unfoldable pub run_calls : Memory V → Queue → List Call → Option (List (Option ℕ))
  unfolding queue_push_back queue_pop_front
  run_calls h q [] = some []
  run_calls h q (push_back t ∷ cs) = do r ← queue_push_back h q t; run_calls r.0 r.1 cs
  run_calls h q (pop_front ∷ cs) = do
    r ← queue_pop_front h q
    rest ← run_calls h r.1 cs
    some (r.0 ∷ rest)

-- The same of a list.
abbrev pub fifo : List ℕ → List Call → List (Option ℕ)
fifo ts [] = []
fifo ts (push_back t ∷ cs) = fifo (ts ++ (t ∷ [])) cs
fifo [] (pop_front ∷ cs) = none ∷ fifo [] cs
fifo (t ∷ ts) (pop_front ∷ cs) = some t ∷ fifo ts cs

-- The calls only push tasks that memory holds and that the queue does not.
abbrev pub Proper : {V : Type 0} → Memory V → List ℕ → List Call → Type 0
Proper h ts [] = Unit {0}
Proper h ts (push_back t ∷ cs) = Live h t × Absent t ts × Proper h (ts ++ (t ∷ [])) cs
Proper h [] (pop_front ∷ cs) = Proper h [] cs
Proper h (t ∷ ts) (pop_front ∷ cs) = Proper h ts cs

Distinct-behind : (ts : List ℕ) (t : ℕ) → Distinct ts → Absent t ts → Distinct (ts ++ (t ∷ []))
Distinct-behind [] t d a = (tt, tt)
Distinct-behind (u ∷ us) t (d, ds) (a, more) = (behind us d, Distinct-behind us t ds more)
  where
    behind : (us : List ℕ) → Absent u us → Absent u (us ++ (t ∷ []))
    behind [] d = (ground (arith, a), tt)
    behind (v ∷ vs) (d, ds) = (d, behind vs ds)

module _ {V : Type 0} where
  Proper-kept :
      (h k : Memory V) (ts : List ℕ) (cs : List Call)
      → ((u : ℕ) → Live h u → Live k u)
      → Proper h ts cs
      → Proper k ts cs
  Proper-kept h k ts [] f p = tt
  Proper-kept h k ts (push_back t ∷ cs) f (l, a, p) =
      (f t l, a, Proper-kept h k (ts ++ (t ∷ [])) cs f p)
  Proper-kept h k [] (pop_front ∷ cs) f p = Proper-kept h k [] cs f p
  Proper-kept h k (t ∷ ts) (pop_front ∷ cs) f p = Proper-kept h k ts cs f p

  -- On a queue that holds distinct tasks, any calls that push only tasks that memory holds and that are
  -- not in the queue follow no dangling pointer, whatever `next` a task came with, and get the answers of
  -- a first-in first-out list.
  pub run_calls-fifo :
      (h : Memory V) (q : Queue) (ts : List ℕ) (cs : List Call)
      → Holds h q ts
      → Distinct ts
      → Proper h ts cs
      → run_calls h q cs ≡ some (fifo ts cs)
  unfolding run_calls
  run_calls-fifo h q ts [] holds d p = refl
  run_calls-fifo h q ts (push_back t ∷ cs) holds d ((x, e), a, p) =
      let r = queue_push_back-Holds h q ts t x holds d a e in
      rw (r.1) (
        run_calls-fifo r.0.0 r.0.1 (ts ++ (t ∷ [])) cs r.2 (Distinct-behind ts t d a)
          (Proper-kept h r.0.0 (ts ++ (t ∷ [])) cs r.3 p))
  run_calls-fifo h q [] (pop_front ∷ cs) holds d p =
      rw (queue_pop_front-empty h q holds, run_calls-fifo h q [] cs holds d p) refl
  run_calls-fifo h q (t ∷ ts) (pop_front ∷ cs) holds (d, ds) p =
      let r = queue_pop_front-Holds h q t ts holds in
      rw (r.1, run_calls-fifo h r.0 ts cs r.2 ds p) refl
