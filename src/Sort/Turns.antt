-- ===== src/Sort/Turns.antt =====
-- `coro_yield` and the end of a coroutine in 1/mine/libcoro.c on a ring of nodes.
use mathlib.Core.List.{append_assoc, append-nil}
use sysprog_exercises.Prelude.{
  ℕ, ◌≡◌, refl, ap, ◌∙◌, sym, subst, Bool, true, false, some, List, [], ◌∷◌, ◌++◌, arith, ◌==◌,
  Absent-right,
}
use sysprog_exercises.Sort.Loop.{Loop, go_on, coro_yield}
use sysprog_exercises.Sort.Ring.{AllLive, apart_sym, next_in, IsRing}

-- A loop whose current node has the nodes `before` and `after` it.
pub record IsAt (l : Loop) (before : List ℕ) (current : ℕ) (after : List ℕ) : Type 0 where
  pub ring : IsRing l.nodes l.sentinel (before ++ (current ∷ after))
  pub is_current : l.current_coro_node ≡ current

module _ (live : ℕ → Bool) where
  pub AllLive-at :
      (before : List ℕ) (c : ℕ) (after : List ℕ)
      → AllLive live (before ++ (c ∷ after))
      → live c ≡ true
  AllLive-at [] c after (h, hs) = h
  AllLive-at (b ∷ before) c after (h, hs) = AllLive-at before c after hs

-- Where the loop goes on: behind the current node, or at the first one.
abbrev pub behind : List ℕ → ℕ → List ℕ → List ℕ × (ℕ × List ℕ)
behind before c (b ∷ after) = (before ++ (c ∷ []), (b, after))
behind [] c [] = ([], (c, []))
behind (f ∷ before) c [] = ([], (f, before ++ (c ∷ [])))

module _ (l : Loop) where
  go_behind :
      (c b : ℕ)
      → l.current_coro_node ≡ c
      → l.nodes.is_live c ≡ true
      → l.nodes.next c ≡ b
      → (b == l.sentinel) ≡ false
      → go_on l ≡ some (record l { current_coro_node = b })
  unfolding go_on
  go_behind c b e live next apart = ground (arith, e, live, next, apart)

  go_around :
      (c f : ℕ)
      → l.current_coro_node ≡ c
      → l.nodes.is_live c ≡ true
      → l.nodes.next c ≡ l.sentinel
      → l.nodes.is_live l.sentinel ≡ true
      → l.nodes.next l.sentinel ≡ f
      → go_on l ≡ some (record l { current_coro_node = f })
  unfolding go_on
  go_around c f e live next root first = ground (arith, e, live, next, root, first)

  pub go_on-to :
      (before : List ℕ) (c : ℕ) (after : List ℕ)
      → IsAt l before c after
      → go_on l ≡ some (record l { current_coro_node = (behind before c after).1.0 })
  go_on-to before c (b ∷ after) at' =
      let r = at'.ring in
      go_behind c b at'.is_current (AllLive-at l.nodes.is_live before c (b ∷ after) r.all_live)
        (next_in l.nodes.next l.nodes.prev l.sentinel before c (b ∷ after) l.sentinel r.chain).0
        (apart_sym l.sentinel b
          (Absent-right l.sentinel before (c ∷ b ∷ after) r.sentinel_apart).1.0)
  go_on-to [] c [] at' =
      let r = at'.ring in
      go_around c c at'.is_current r.all_live.0 r.chain.2.0 r.sentinel_live r.chain.0
  go_on-to (f ∷ before) c [] at' =
      let r = at'.ring in
      go_around c f at'.is_current (AllLive-at l.nodes.is_live (f ∷ before) c [] r.all_live)
        (next_in l.nodes.next l.nodes.prev l.sentinel (f ∷ before) c [] l.sentinel r.chain).0
        r.sentinel_live r.chain.0

  -- `coro_yield` with one coroutine, and with more.
  yield_alone : (c : ℕ) → IsAt l [] c [] → coro_yield l ≡ some l
  unfolding coro_yield
  yield_alone c at' =
      let r = at'.ring in ground (arith, r.chain.0, r.chain.2.0, r.sentinel_live, r.all_live.0)

  yield_more :
      (x y : ℕ)
      → l.nodes.is_live l.sentinel ≡ true
      → l.nodes.next l.sentinel ≡ x
      → l.nodes.is_live x ≡ true
      → l.nodes.next x ≡ y
      → (l.sentinel == y) ≡ false
      → coro_yield l ≡ go_on l
  unfolding coro_yield
  yield_more x y root first live second apart = ground (arith, root, first, live, second, apart)

  pub coro_yield-to :
      (before : List ℕ) (c : ℕ) (after : List ℕ)
      → IsAt l before c after
      → coro_yield l ≡ some (record l { current_coro_node = (behind before c after).1.0 })
  coro_yield-to [] c [] at' =
      yield_alone c at' ∙ ap (λ a. some (record l { current_coro_node = a })) at'.is_current
  coro_yield-to [] c (b ∷ after) at' =
      let r = at'.ring in
      yield_more c b r.sentinel_live r.chain.0 r.all_live.0 r.chain.2.0 r.sentinel_apart.1.0
      ∙ go_on-to [] c (b ∷ after) at'
  coro_yield-to (f ∷ []) c after at' =
      let r = at'.ring in
      yield_more f c r.sentinel_live r.chain.0 r.all_live.0 r.chain.2.0 r.sentinel_apart.1.0
      ∙ go_on-to (f ∷ []) c after at'
  coro_yield-to (f ∷ g ∷ before) c after at' =
      let r = at'.ring in
      yield_more f g r.sentinel_live r.chain.0 r.all_live.0 r.chain.2.0 r.sentinel_apart.1.0
      ∙ go_on-to (f ∷ g ∷ before) c after at'

  -- The nodes stay where they are.
  behind-list :
      (before : List ℕ) (c : ℕ) (after : List ℕ)
      → (let b = behind before c after in b.0 ++ (b.1.0 ∷ b.1.1)) ≡ before ++ (c ∷ after)
  behind-list before c (b ∷ after) = append_assoc before (c ∷ []) (b ∷ after)
  behind-list [] c [] = refl
  behind-list (f ∷ before) c [] = refl

  -- The turns that are left, in order: the one of the current coroutine is now the last.
  pub behind-turns :
      (before : List ℕ) (c : ℕ) (after : List ℕ)
      → (let b = behind before c after in b.1.0 ∷ (b.1.1 ++ b.0)) ≡ (after ++ before) ++ (c ∷ [])
  behind-turns before c (b ∷ after) = ap (λ xs. b ∷ xs) (sym (append_assoc after before (c ∷ [])))
  behind-turns [] c [] = refl
  behind-turns (f ∷ before) c [] = ap (λ xs. f ∷ xs) (append-nil (before ++ (c ∷ [])))

  pub coro_yield-IsAt :
      (before : List ℕ) (c : ℕ) (after : List ℕ)
      → IsAt l before c after
      → (let b = behind before c after in
          IsAt (record l { current_coro_node = b.1.0 }) b.0 b.1.0 b.1.1)
  coro_yield-IsAt before c after at' = record {
    ring = subst (IsRing l.nodes l.sentinel) (sym (behind-list before c after)) at'.ring;
    is_current = refl;
  }
