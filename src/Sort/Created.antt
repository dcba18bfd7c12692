-- ===== src/Sort/Created.antt =====
-- 1/mine/libcoro.c from `loop_init` to the end of `loop_start`.
use sysprog_exercises.Prelude.{
  ◌>>=◌, ℕ, zero, suc, ◌≤◌, ◌≡◌, refl, ap, ◌∙◌, sym, subst, Bool, true, false, Option, some, List,
  [], ◌∷◌, ◌++◌, arith, if◌then◌else◌, ◌==◌, inl, inr, Bool-cases, Absent, Distinct, Absent-append,
  Absent-right,
}
use mathlib.Core.List.{append_assoc, append-nil}
use sysprog_exercises.Sort.Coroutines.{write_at}
use sysprog_exercises.Sort.Loop.{Nodes, Loop, free_node, coro_create, run_coros, loop_start}
use sysprog_exercises.Sort.Ring.{Chain, AllLive, written, unwritten, apart_sym, IsRing}
use sysprog_exercises.Sort.Turns.{IsAt}
use sysprog_exercises.Sort.Running.{run_coros-Ends}
use sysprog_exercises.Sort.RoundRobin.{round_robin, turns, AllFreed, Ends}

module _ (next prev : ℕ → ℕ) (n : ℕ) where
  -- A node at the end of a chain.
  Chain-create :
      (a : ℕ) (xs : List ℕ) (z : ℕ)
      → (n == a) ≡ false
      → Absent n xs
      → (n == z) ≡ false
      → Distinct (a ∷ xs)
      → Absent z xs
      → Chain next prev a xs z
      → Chain
          (write_at (write_at next n z) (prev z) n)
          (write_at (write_at prev n (prev z)) z n)
          a
          (xs ++ (n ∷ []))
          z
  Chain-create a [] z na nx nz d zs (e, f) =
      let n_last : (n == prev z) ≡ false = subst (λ p. (n == p) ≡ false) (sym f) na in
      (
        ap (λ p. write_at (write_at next n z) p n a) f ∙ written (write_at next n z) a n,
        unwritten (write_at prev n (prev z)) z n n nz ∙ written prev n (prev z) ∙ f,
        (
          unwritten (write_at next n z) (prev z) n n n_last ∙ written next n z,
          written (write_at prev n (prev z)) z n,
        ),
      )
  Chain-create a (b ∷ xs) z na (nb, nx) nz ((ab, ax), d) (zb, zs) (e, f, l) =
      let apart = last_apart b xs ab ax l in
      (
        unwritten (write_at next n z) (prev z) a n apart
            ∙ unwritten next n a z (apart_sym n a na)
            ∙ e,
        unwritten (write_at prev n (prev z)) z b n (apart_sym z b zb)
            ∙ unwritten prev n b (prev z) (apart_sym n b nb)
            ∙ f,
        Chain-create b xs z nb nx nz d zs l,
      )
    where
      last_apart :
          (b : ℕ) (xs : List ℕ)
          → (a == b) ≡ false
          → Absent a xs
          → Chain next prev b xs z
          → (a == prev z) ≡ false
      last_apart b [] ab ax (e, f) = subst (λ p. (a == p) ≡ false) (sym f) ab
      last_apart b (x ∷ xs) ab (h, hs) (e, f, l) = last_apart x xs h hs l

last_live :
    (next prev : ℕ → ℕ) (live : ℕ → Bool) (a : ℕ) (xs : List ℕ) (z : ℕ)
    → Chain next prev a xs z
    → live a ≡ true
    → AllLive live xs
    → live (prev z) ≡ true
last_live next prev live a [] z (e, f) h hs = ap live f ∙ h
last_live next prev live a (x ∷ xs) z (e, f, l) h (k, ks) = last_live next prev live x xs z l k ks

stays_live : (live : ℕ → Bool) (n a : ℕ) → live a ≡ true → write_at live n true a ≡ true
stays_live live n a e = elim (Bool-cases (a == n)) [
  | inl same ↦ ap (λ b. if b then true else live a) same
  | inr apart ↦ unwritten live n a true apart ∙ e
]

AllLive-create :
    (live : ℕ → Bool) (n : ℕ) (xs : List ℕ)
    → AllLive live xs
    → AllLive (write_at live n true) (xs ++ (n ∷ []))
AllLive-create live n [] h = (written live n true, tt)
AllLive-create live n (x ∷ xs) (h, hs) = (stays_live live n x h, AllLive-create live n xs hs)

pub Distinct-create : (xs : List ℕ) (n : ℕ) → Distinct xs → Absent n xs → Distinct (xs ++ (n ∷ []))
Distinct-create [] n d h = (tt, tt)
Distinct-create (x ∷ xs) n (xd, d) (nx, h) =
    (Absent-append x xs (n ∷ []) xd (apart_sym n x nx, tt), Distinct-create xs n d h)

-- A new node is the last one of the ring.
coro_create-IsRing :
    (l : Loop) (xs : List ℕ) (n : ℕ)
    → IsRing l.nodes l.sentinel xs
    → (n == l.sentinel) ≡ false
    → Absent n xs
    → (m : Nodes) × (coro_create l n ≡ some (record l { nodes = m }))
      × IsRing m l.sentinel (xs ++ (n ∷ []))
unfolding coro_create
coro_create-IsRing l xs n r ns nx =
    let m = l.nodes in
    let s = l.sentinel in
    let last = m.prev s in
    let live = last_live m.next m.prev m.is_live s xs s r.chain r.sentinel_live r.all_live in
    (
      record {
        next = write_at (write_at m.next n s) last n;
        prev = write_at (write_at m.prev n last) s n;
        is_live = write_at m.is_live n true;
      },
      rw
          (
            r.sentinel_live,
            stays_live m.is_live n last live,
            stays_live m.is_live n s r.sentinel_live,
          )
          refl,
      record {
        chain =
            Chain-create m.next m.prev n s xs s ns nx ns (r.sentinel_apart, r.distinct)
              r.sentinel_apart r.chain;
        sentinel_live = stays_live m.is_live n s r.sentinel_live;
        all_live = AllLive-create m.is_live n xs r.all_live;
        sentinel_apart = Absent-append s xs (n ∷ []) r.sentinel_apart (apart_sym n s ns, tt);
        distinct = Distinct-create xs n r.distinct nx;
      },
    )

-- The calls of `coro_create` in `main`, of which `malloc` gives out the addresses.
unfoldable pub create_all : Loop → List ℕ → Option Loop
unfolding coro_create
create_all l [] = some l
create_all l (n ∷ ns) = coro_create l n >>= (λ l'. create_all l' ns)

pub create_all-IsRing :
    (l : Loop) (xs ns : List ℕ)
    → IsRing l.nodes l.sentinel xs
    → Absent l.sentinel ns
    → Distinct (xs ++ ns)
    → (m : Nodes) × (create_all l ns ≡ some (record l { nodes = m }))
      × IsRing m l.sentinel (xs ++ ns)
unfolding create_all
create_all-IsRing l xs [] r sn d =
    (l.nodes, refl, subst (IsRing l.nodes l.sentinel) (sym (append-nil xs)) r)
create_all-IsRing l xs (n ∷ ns) r (sn, sns) d =
    let one = coro_create-IsRing l xs n r (apart_sym l.sentinel n sn) (new_one xs d) in
    let same = append_assoc xs (n ∷ []) ns in
    let rest =
      create_all-IsRing (record l { nodes = one.0 }) (xs ++ (n ∷ [])) ns one.2 sns
        (subst Distinct (sym same) d) in
    (
      rest.0,
      ap (λ o. o >>= (λ l'. create_all l' ns)) one.1 ∙ rest.1,
      subst (IsRing rest.0 l.sentinel) same rest.2,
    )
  where
    new_one : (xs : List ℕ) → Distinct (xs ++ (n ∷ ns)) → Absent n xs
    new_one [] d = tt
    new_one (x ∷ xs) (h, d) = (apart_sym x n (Absent-right x xs (n ∷ ns) h).0, new_one xs d)

pub loop_start-Ends :
    (k : ℕ) (yields : ℕ → ℕ) (l : Loop) (xs : List ℕ)
    → IsRing l.nodes l.sentinel xs
    → turns yields xs ≤ k
    → (m : Nodes) × (loop_start k yields l ≡ some (round_robin k yields xs, m))
      × AllFreed m.is_live (l.sentinel ∷ xs)
unfolding loop_start
loop_start-Ends zero yields l [] r le =
    let same : (l.sentinel == l.sentinel) ≡ true = ground arith in
    (
      free_node l.nodes l.sentinel,
      rw (r.sentinel_live, r.chain.0, same) refl,
      (written l.nodes.is_live l.sentinel false, tt),
    )
loop_start-Ends (suc k) yields l [] r le =
    let same : (l.sentinel == l.sentinel) ≡ true = ground arith in
    (
      free_node l.nodes l.sentinel,
      rw (r.sentinel_live, r.chain.0, same) refl,
      (written l.nodes.is_live l.sentinel false, tt),
    )
loop_start-Ends k yields l (x ∷ xs) r le =
    let apart = apart_sym l.sentinel x r.sentinel_apart.0 in
    let same = append-nil xs in
    let begun : Loop = record l { current_coro_node = x } in
    let at' : IsAt begun [] x xs = record { ring = r; is_current = refl } in
    let ends =
      subst (λ q. Ends begun (x ∷ q) (round_robin k yields (x ∷ q)) (run_coros k yields begun)) same
        (run_coros-Ends k yields begun [] x xs at' (omega (arith, ap (turns yields) same))) in
    (ends.0, rw (r.sentinel_live, r.chain.0, apart) ends.1, ends.2)
