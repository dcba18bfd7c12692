-- ===== src/Sort/Running.antt =====
-- The loop of 1/mine/libcoro.c on a ring, turn by turn.
use mathlib.Core.List.{append-nil}
use sysprog_exercises.Prelude.{
  ◌>>=◌, ℕ, zero, suc, ◌≤◌, ◌≡◌, ◌⊎◌, refl, ap, ◌∙◌, sym, subst, Bool, true, false, Option, none,
  some, List, [], ◌∷◌, ◌++◌, arith, if◌then◌else◌, ◌==◌, inl, inr, Bool-cases, Absent-append,
}
use sysprog_exercises.Sort.Coroutines.{write_at}
use sysprog_exercises.Sort.Loop.{Nodes, Loop, load, free_node, coro_yield, coro_returned, run_coros}
use sysprog_exercises.Sort.Ring.{written, unwritten, apart_sym, IsRing}
use sysprog_exercises.Sort.Turns.{IsAt, behind, behind-turns, coro_yield-to, coro_yield-IsAt}
use sysprog_exercises.Sort.Returned.{without, Distinct-at, IsRing-without, coro_returned-to}
use sysprog_exercises.Sort.RoundRobin.{
  round_robin, turns, turns-append, turns_kept, AllFreed-left, AllFreed-last, Ends, round_robin-nil,
}

-- The test of the loop, with a coroutine left and with none.
module _ (m : Nodes) (s : ℕ) {A : Type 0} (last more : Option A) where
  abbrev tested : Option A
  tested = load m.next m s >>= (λ first. elim (first == s) [ true ↦ last | false ↦ more ])

  tested-more : (x : ℕ) (xs : List ℕ) → IsRing m s (x ∷ xs) → tested ≡ more
  tested-more x xs r =
      let apart = apart_sym s x r.sentinel_apart.0 in
      ap
        (λ b.
          (if b then some (m.next s) else none)
          >>= (λ first. elim (first == s) [ true ↦ last | false ↦ more ]))
        r.sentinel_live
      ∙ ap (λ first. elim (first == s) [ true ↦ last | false ↦ more ]) r.chain.0
      ∙ ap (λ b. elim b [ true ↦ last | false ↦ more ]) apart

  tested-last : IsRing m s [] → tested ≡ last
  tested-last r =
      let same : (s == s) ≡ true = ground arith in
      ap
        (λ b.
          (if b then some (m.next s) else none)
          >>= (λ first. elim (first == s) [ true ↦ last | false ↦ more ]))
        r.sentinel_live
      ∙ ap (λ first. elim (first == s) [ true ↦ last | false ↦ more ]) r.chain.0
      ∙ ap (λ b. elim b [ true ↦ last | false ↦ more ]) same

freed_stays : (live : ℕ → Bool) (c a : ℕ) → live a ≡ false → write_at live c false a ≡ false
freed_stays live c a e = elim (Bool-cases (a == c)) [
  | inl same ↦ ap (λ b. if b then false else live a) same
  | inr apart ↦ unwritten live c a false apart ∙ e
]

-- A turn in front of the rest.
abbrev taken : Loop → List ℕ × Nodes → Option (List ℕ × Nodes)
taken l r = some (l.current_coro_node ∷ r.0, r.1)

in_front :
    (l : Loop) (c : ℕ) (log : List ℕ) (o : Option (List ℕ × Nodes)) (m : Nodes)
    → l.current_coro_node ≡ c
    → o ≡ some (log, m)
    → (o >>= taken l) ≡ some (c ∷ log, m)
in_front l c log o m e f = ap (λ o. o >>= taken l) f ∙ ap (λ a. some (a ∷ log, m)) e

-- Behind a return the rest of the ring is left.
IsAt-returned :
    (l : Loop) (before : List ℕ) (c : ℕ) (after : List ℕ)
    → IsAt l before c after
    → (after ++ before ≡ [])
      ⊎ ((b : List ℕ) × (d : ℕ) × (a : List ℕ) × IsAt
            (record l {
              nodes = without l.nodes c;
              current_coro_node = (behind before c after).1.0;
            })
            b
            d
            a
          × (d ∷ (a ++ b) ≡ after ++ before)
          × (b ++ (d ∷ a) ≡ before ++ after))
IsAt-returned l before c (b ∷ after) at' = inr (
  before,
  b,
  after,
  record {
    ring = IsRing-without l.nodes l.sentinel before c (b ∷ after) at'.ring;
    is_current = refl;
  },
  refl,
  refl,
)
IsAt-returned l [] c [] at' = inl refl
IsAt-returned l (f ∷ before) c [] at' =
    let same = append-nil (f ∷ before) in
    inr (
      [],
      f,
      before,
      record {
        ring =
            subst (IsRing (without l.nodes c) l.sentinel) same
              (IsRing-without l.nodes l.sentinel (f ∷ before) c [] at'.ring);
        is_current = refl;
      },
      same,
      sym same,
    )

nothing_left : (before after : List ℕ) → after ++ before ≡ [] → before ++ after ≡ []
nothing_left [] [] e = refl
nothing_left [] (b ∷ after) e = cc
nothing_left (f ∷ before) [] e = cc
nothing_left (f ∷ before) (b ∷ after) e = cc

IsRing-first :
    (m : Nodes) (s : ℕ) (b : List ℕ) (d : ℕ) (a : List ℕ)
    → IsRing m s (b ++ (d ∷ a))
    → (x : ℕ) × (xs : List ℕ) × IsRing m s (x ∷ xs)
IsRing-first m s [] d a r = (d, a, r)
IsRing-first m s (x ∷ b) d a r = (x, b ++ (d ∷ a), r)

-- The rest of the turns, in fewer than all.
abbrev pub Rest : ℕ → Type 0
Rest k =
    (yields : ℕ → ℕ) (l : Loop) (before : List ℕ) (c : ℕ) (after : List ℕ)
    → IsAt l before c after
    → turns yields (c ∷ (after ++ before)) ≤ k
    → Ends l (c ∷ (after ++ before)) (round_robin k yields (c ∷ (after ++ before)))
        (run_coros k yields l)

module _ (k : ℕ) (yields : ℕ → ℕ) (l : Loop) (before : List ℕ) (c : ℕ) (after : List ℕ)
    (at' : IsAt l before c after) where
  abbrev went : Loop
  went = record l { nodes = without l.nodes c; current_coro_node = (behind before c after).1.0 }

  abbrev on_return : Loop → Option (List ℕ × Nodes)
  on_return l' = load l'.nodes.next l'.nodes l'.sentinel >>= (λ first. elim (first == l'.sentinel) [
    | true ↦ some (l.current_coro_node ∷ [], free_node l'.nodes l'.sentinel)
    | false ↦ run_coros k yields l' >>= taken l
  ])

  return_last :
      after ++ before ≡ []
      → Ends l (c ∷ (after ++ before)) (c ∷ round_robin k yields (after ++ before)) (on_return went)
  return_last e =
      let r =
        subst (IsRing (without l.nodes c) l.sentinel) (nothing_left before after e)
          (IsRing-without l.nodes l.sentinel before c after at'.ring) in
      let m = free_node (without l.nodes c) l.sentinel in
      let cc_free = freed_stays went.nodes.is_live l.sentinel c (written l.nodes.is_live c false) in
      subst (λ q. Ends l (c ∷ q) (c ∷ round_robin k yields q) (on_return went)) (sym e)
        (
          m,
          tested-last (without l.nodes c) l.sentinel (some (l.current_coro_node ∷ [], m))
                (run_coros k yields went >>= taken l) r
              ∙ ap (λ a. some (a ∷ [], m)) at'.is_current
              ∙ ap (λ log. some (c ∷ log, m)) (sym (round_robin-nil k yields)),
          (written went.nodes.is_live l.sentinel false, (cc_free, tt)),
          λ a dead.
              freed_stays went.nodes.is_live l.sentinel a (freed_stays l.nodes.is_live c a dead),
        )

  return_more :
      (b : List ℕ) (d : ℕ) (a : List ℕ)
      → IsAt went b d a
      → d ∷ (a ++ b) ≡ after ++ before
      → Ends went (d ∷ (a ++ b)) (round_robin k yields (d ∷ (a ++ b))) (run_coros k yields went)
      → Ends l (c ∷ (after ++ before)) (c ∷ round_robin k yields (after ++ before)) (on_return went)
  return_more b d a there same (m, e, (s, fs), stays) =
      let first = IsRing-first (without l.nodes c) l.sentinel b d a there.ring in
      subst (λ q. Ends l (c ∷ q) (c ∷ round_robin k yields q) (on_return went)) same
        (
          m,
          tested-more (without l.nodes c) l.sentinel
                (some (l.current_coro_node ∷ [], free_node (without l.nodes c) l.sentinel))
                (run_coros k yields went >>= taken l) first.0 first.1 first.2
              ∙ in_front l c (round_robin k yields (d ∷ (a ++ b))) (run_coros k yields went) m
                  at'.is_current e,
          (s, (stays c (written l.nodes.is_live c false), fs)),
          λ u dead. stays u (freed_stays l.nodes.is_live c u dead),
        )

  zero_turn :
      Rest k
      → yields c ≡ 0
      → turns yields (c ∷ (after ++ before)) ≤ suc k
      → Ends l
          (c ∷ (after ++ before))
          (c ∷ round_robin k yields (after ++ before))
          (coro_returned l >>= on_return)
  zero_turn rest e le =
      subst
        (λ o.
          Ends l (c ∷ (after ++ before)) (c ∷ round_robin k yields (after ++ before))
            (o >>= on_return))
        (sym (coro_returned-to l before c after at'))
        (elim (IsAt-returned l before c after at') [
          | inl done ↦ return_last done
          | inr (b, d, a, there, same, list) ↦
              return_more b d a there same
                (rest yields went b d a there (omega (arith, ap (turns yields) same)))
        ])

  suc_turn :
      (n : ℕ)
      → Rest k
      → yields c ≡ suc n
      → turns yields (c ∷ (after ++ before)) ≤ suc k
      → Ends l
          (c ∷ (after ++ before))
          (c ∷ round_robin k (write_at yields c n) ((after ++ before) ++ (c ∷ [])))
          (coro_yield l
            >>= (λ l'. run_coros k (write_at yields l.current_coro_node n) l' >>= taken l))
  suc_turn n rest e le =
      let q = after ++ before in
      let b = behind before c after in
      let yielded : Loop = record l { current_coro_node = b.1.0 } in
      let same : b.1.0 ∷ (b.1.1 ++ b.0) ≡ q ++ (c ∷ []) = behind-turns l before c after in
      let left = write_at yields c n in
      let at_ring = Distinct-at before c after at'.ring.distinct in
      let work : turns left (b.1.0 ∷ (b.1.1 ++ b.0)) ≤ k = omega (
        arith,
        ap (turns left) same,
        turns-append left q (c ∷ []),
        written yields c n,
        turns_kept yields c n q (Absent-append c after before at_ring.0 at_ring.1),
      ) in
      let (m, f, (s, fs), stays) =
        subst (λ q. Ends yielded q (round_robin k left q) (run_coros k left yielded)) same
          (rest left yielded b.0 b.1.0 b.1.1 (coro_yield-IsAt l before c after at') work) in
      (
        m,
        ap (λ o. o >>= (λ l'. run_coros k (write_at yields l.current_coro_node n) l' >>= taken l))
              (coro_yield-to l before c after at')
            ∙ ap (λ a. run_coros k (write_at yields a n) yielded >>= taken l) at'.is_current
            ∙ in_front l c (round_robin k left (q ++ (c ∷ []))) (run_coros k left yielded) m
                at'.is_current f,
        (s, (AllFreed-last m.is_live q c fs, AllFreed-left m.is_live q (c ∷ []) fs)),
        stays,
      )

pub run_coros-Ends : (k : ℕ) → Rest k
unfolding run_coros
run_coros-Ends zero yields l before c after at' le = absurd (omega arith)
run_coros-Ends (suc k) yields l before c after at' le =
    subst (λ a. Ends l (c ∷ q) (turned (yields c)) (turn (yields a))) (sym at'.is_current)
      (by_yields (yields c) refl (run_coros-Ends k) le)
  where
    q : List ℕ
    q = after ++ before

    turn : ℕ → Option (List ℕ × Nodes)
    turn y = elim y [
      | zero ↦ coro_returned l >>= on_return k yields l before c after at'
      | suc n ↦
          coro_yield l
          >>= (λ l'. run_coros k (write_at yields l.current_coro_node n) l' >>= taken l)
    ]

    turned : ℕ → List ℕ
    turned y = elim y [
      | zero ↦ c ∷ round_robin k yields q
      | suc n ↦ c ∷ round_robin k (write_at yields c n) (q ++ (c ∷ []))
    ]

    by_yields :
        (y : ℕ)
        → yields c ≡ y
        → Rest k
        → turns yields (c ∷ q) ≤ suc k
        → Ends l (c ∷ q) (turned y) (turn y)
    by_yields zero e rest le = zero_turn k yields l before c after at' rest e le
    by_yields (suc n) e rest le = suc_turn k yields l before c after at' n rest e le
