-- ===== src/Sort/Shares.antt =====
-- How often each coroutine of 1/mine/libcoro.c has a turn, and the loop from its start to its end.
use sysprog_exercises.Prelude.{
  occurrences, ℕ, zero, suc, ◌+◌, ◌≤◌, ◌≡◌, refl, ap, true, some, List, [], ◌∷◌, ◌++◌, arith,
  if◌then◌else◌, ◌==◌, Absent, Distinct,
}
use sysprog_exercises.Sort.Coroutines.{write_at}
use sysprog_exercises.Sort.Loop.{Nodes, Loop, loop_init, loop_start}
use sysprog_exercises.Sort.Ring.{written, unwritten, apart_sym, IsRing}
use sysprog_exercises.Sort.RoundRobin.{round_robin, turns, turns-append, turns_kept, AllFreed}
use sysprog_exercises.Sort.Created.{create_all, create_all-IsRing, loop_start-Ends, Distinct-create}

-- The turns of `a` that the coroutines `q` take.
abbrev pub share : ℕ → (ℕ → ℕ) → List ℕ → ℕ
share a yields [] = 0
share a yields (c ∷ q) = (if a == c then yields c + 1 else 0) + share a yields q

share-append :
    (a : ℕ) (yields : ℕ → ℕ) (xs ys : List ℕ)
    → share a yields (xs ++ ys) ≡ share a yields xs + share a yields ys
share-append a yields [] ys = omega arith
share-append a yields (x ∷ xs) ys = omega (arith, share-append a yields xs ys)

share_kept :
    (a : ℕ) (yields : ℕ → ℕ) (c n : ℕ) (xs : List ℕ)
    → Absent c xs
    → share a (write_at yields c n) xs ≡ share a yields xs
share_kept a yields c n [] h = refl
share_kept a yields c n (x ∷ xs) (h, hs) =
    let here = unwritten yields c x n (apart_sym c x h) in
    omega (arith, ap (λ y. if a == x then y + 1 else 0) here, share_kept a yields c n xs hs)

module _ (a : ℕ) where
  -- With a turn for each that is due, each coroutine has its share.
  round_robin-share :
      (k : ℕ) (yields : ℕ → ℕ) (q : List ℕ)
      → Distinct q
      → turns yields q ≤ k
      → occurrences a (round_robin k yields q) ≡ share a yields q
  round_robin-share zero yields [] d le = refl
  round_robin-share zero yields (c ∷ q) d le = absurd (omega arith)
  round_robin-share (suc k) yields [] d le = refl
  round_robin-share (suc k) yields (c ∷ q) (h, d) le =
      by_yields (yields c) refl (round_robin-share k)
    where
      by_yields :
          (y : ℕ)
          → yields c ≡ y
          → ((yields : ℕ → ℕ) (q : List ℕ)
              → Distinct q
              → turns yields q ≤ k
              → occurrences a (round_robin k yields q) ≡ share a yields q)
          → occurrences a (elim y [
            | zero ↦ c ∷ round_robin k yields q
            | suc n ↦ c ∷ round_robin k (write_at yields c n) (q ++ (c ∷ []))
          ])
            ≡ share a yields (c ∷ q)
      by_yields zero e rest =
          omega (arith, rest yields q d (omega arith), ap (λ y. if a == c then y + 1 else 0) e)
      by_yields (suc n) e rest =
          let left = write_at yields c n in
          let work : turns left (q ++ (c ∷ [])) ≤ k =
            omega (
              arith,
              turns-append left q (c ∷ []),
              turns_kept yields c n q h,
              written yields c n,
            ) in
          let again = rest left (q ++ (c ∷ [])) (Distinct-create q c d h) work in
          let mine = share-append a left q (c ∷ []) in
          let others = share_kept a yields c n q h in
          ground (arith, again, mine, others, e, written yields c n)

-- For coroutines that each yield a number of times and then return: the loop that is made with them ends.
-- They have their turns round robin, each one more than it yields; no freed node is followed, and in the
-- end every node and the sentinel are freed.
pub loop_start-round_robin :
    (m : Nodes) (sentinel unset : ℕ) (coros : List ℕ) (yields : ℕ → ℕ)
    → Absent sentinel coros
    → Distinct coros
    → (l : Loop) × (log : List ℕ) × (end : Nodes) × (create_all (loop_init m sentinel unset) coros
        ≡ some l)
      × (loop_start (turns yields coros) yields l ≡ some (log, end))
      × (log ≡ round_robin (turns yields coros) yields coros)
      × ((a : ℕ) → occurrences a log ≡ share a yields coros)
      × AllFreed end.is_live (sentinel ∷ coros)
loop_start-round_robin m sentinel unset coros yields apart d =
    let l = loop_init m sentinel unset in
    let empty : IsRing l.nodes sentinel [] = record {
      chain = (written m.next sentinel sentinel, written m.prev sentinel sentinel);
      sentinel_live = written m.is_live sentinel true;
      all_live = tt;
      sentinel_apart = tt;
      distinct = tt;
    } in
    let made = create_all-IsRing l [] coros empty apart d in
    let ended =
      loop_start-Ends (turns yields coros) yields (record l { nodes = made.0 }) coros made.2
        (omega arith) in
    (
      record l { nodes = made.0 },
      round_robin (turns yields coros) yields coros,
      ended.0,
      made.1,
      ended.1,
      refl,
      λ a. round_robin-share a (turns yields coros) yields coros d (omega arith),
      ended.2,
    )
