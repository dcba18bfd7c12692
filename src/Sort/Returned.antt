-- ===== src/Sort/Returned.antt =====
-- The round of `loop_start` in 1/mine/libcoro.c behind a coroutine that has returned.
use sysprog_exercises.Prelude.{
  ◌>>=◌, ℕ, ◌≡◌, refl, ap, ◌∙◌, Bool, true, false, Option, some, List, [], ◌∷◌, ◌++◌, ◌==◌, Absent,
  Distinct, Absent-append, Absent-left, Absent-right,
}
use sysprog_exercises.Sort.Coroutines.{write_at}
use sysprog_exercises.Sort.Loop.{Nodes, Loop, free_node, unlink_node, coro_returned}
use sysprog_exercises.Sort.Ring.{
  Chain, AllLive, unwritten, apart_sym, prev_apart, Chain-unlink_node, IsRing,
}
use sysprog_exercises.Sort.Turns.{IsAt, behind, AllLive-at, go_on-to}

pub Distinct-at :
    (before : List ℕ) (c : ℕ) (after : List ℕ)
    → Distinct (before ++ (c ∷ after))
    → Absent c after × Absent c before
Distinct-at [] c after (h, d) = (h, tt)
Distinct-at (b ∷ before) c after (h, d) =
    let rest = Distinct-at before c after d in
    (rest.0, (apart_sym b c (Absent-right b before (c ∷ after) h).0, rest.1))

Absent-without :
    (t : ℕ) (before : List ℕ) (c : ℕ) (after : List ℕ)
    → Absent t (before ++ (c ∷ after))
    → Absent t (before ++ after)
Absent-without t before c after h =
    Absent-append t before after (Absent-left t before (c ∷ after) h)
      (Absent-right t before (c ∷ after) h).1

Distinct-without :
    (before : List ℕ) (c : ℕ) (after : List ℕ)
    → Distinct (before ++ (c ∷ after))
    → Distinct (before ++ after)
Distinct-without [] c after (h, d) = d
Distinct-without (b ∷ before) c after (h, d) =
    (Absent-without b before c after h, Distinct-without before c after d)

module _ (live : ℕ → Bool) where
  AllLive-kept :
      (c : ℕ) (xs : List ℕ) → Absent c xs → AllLive live xs → AllLive (write_at live c false) xs
  AllLive-kept c [] h l = tt
  AllLive-kept c (x ∷ xs) (h, hs) (l, ls) =
      (unwritten live c x false (apart_sym c x h) ∙ l, AllLive-kept c xs hs ls)

  AllLive-without :
      (before : List ℕ) (c : ℕ) (after : List ℕ)
      → AllLive live (before ++ (c ∷ after))
      → AllLive live (before ++ after)
  AllLive-without [] c after (h, hs) = hs
  AllLive-without (b ∷ before) c after (h, hs) = (h, AllLive-without before c after hs)

  module _ (next prev : ℕ → ℕ) where
    prev_live :
        (a : ℕ) (before : List ℕ) (c : ℕ) (after : List ℕ) (z : ℕ)
        → Chain next prev a (before ++ (c ∷ after)) z
        → live a ≡ true
        → AllLive live (before ++ (c ∷ after))
        → live (prev c) ≡ true
    prev_live a [] c after z (e, f, l) h hs = ap live f ∙ h
    prev_live a (b ∷ before) c after z (e, f, l) h (k, ks) = prev_live b before c after z l k ks

    next_live :
        (a : ℕ) (before : List ℕ) (c : ℕ) (after : List ℕ) (z : ℕ)
        → Chain next prev a (before ++ (c ∷ after)) z
        → live z ≡ true
        → AllLive live (before ++ (c ∷ after))
        → live (next c) ≡ true
    next_live a [] c [] z (e, f, (g, h)) k hs = ap live g ∙ k
    next_live a [] c (b ∷ after) z (e, f, (g, h, l)) k (hc, (hb, hs)) = ap live g ∙ hb
    next_live a (b ∷ before) c after z (e, f, l) k (h, hs) = next_live b before c after z l k hs

-- The nodes without one, and it freed.
abbrev pub without : Nodes → ℕ → Nodes
without m c =
    free_node
      (record m {
        next = write_at m.next (m.prev c) (m.next c);
        prev = write_at m.prev (m.next c) (m.prev c);
      })
      c

unlink_node-to :
    (m : Nodes) (c : ℕ)
    → m.is_live c ≡ true
    → m.is_live (m.prev c) ≡ true
    → m.is_live (m.next c) ≡ true
    → (c == m.prev c) ≡ false
    → unlink_node m c ≡ some (without m c)
unfolding unlink_node
unlink_node-to m c live before after apart = rw (live, before, apart, live, after) refl

pub IsRing-without :
    (m : Nodes) (s : ℕ) (before : List ℕ) (c : ℕ) (after : List ℕ)
    → IsRing m s (before ++ (c ∷ after))
    → IsRing (without m c) s (before ++ after)
IsRing-without m s before c after r =
    let at' = Distinct-at before c after r.distinct in
    record {
      chain =
          Chain-unlink_node m.next m.prev s before c after s (r.sentinel_apart, r.distinct)
            r.sentinel_apart r.chain;
      sentinel_live =
          unwritten m.is_live c s false (Absent-right s before (c ∷ after) r.sentinel_apart).0
          ∙ r.sentinel_live;
      all_live =
          AllLive-kept m.is_live c (before ++ after) (Absent-append c before after at'.1 at'.0)
            (AllLive-without m.is_live before c after r.all_live);
      sentinel_apart = Absent-without s before c after r.sentinel_apart;
      distinct = Distinct-without before c after r.distinct;
    }

pub coro_returned-to :
    (l : Loop) (before : List ℕ) (c : ℕ) (after : List ℕ)
    → IsAt l before c after
    → coro_returned l
      ≡ some
          (record l { nodes = without l.nodes c; current_coro_node = (behind before c after).1.0 })
unfolding coro_returned
coro_returned-to l before c after at' =
    let r = at'.ring in
    let m = l.nodes in
    let live = AllLive-at m.is_live before c after r.all_live in
    let apart =
      prev_apart m.next m.prev l.sentinel c before c after l.sentinel r.chain
        (apart_sym l.sentinel c (Absent-right l.sentinel before (c ∷ after) r.sentinel_apart).0)
        (Distinct-at before c after r.distinct).1 in
    ap (λ o. o >>= unlinked) (go_on-to l before c after at')
    ∙ ap
        (λ a.
          unlink_node m a
          >>= (λ n. some (record l { nodes = n; current_coro_node = (behind before c after).1.0 })))
        at'.is_current
    ∙ ap
        (λ o.
          o
          >>= (λ n. some (record l { nodes = n; current_coro_node = (behind before c after).1.0 })))
        (unlink_node-to m c live
          (prev_live m.is_live m.next m.prev l.sentinel before c after l.sentinel r.chain
            r.sentinel_live r.all_live)
          (next_live m.is_live m.next m.prev l.sentinel before c after l.sentinel r.chain
            r.sentinel_live r.all_live)
          apart)
  where
    unlinked : Loop → Option Loop
    unlinked went =
        unlink_node went.nodes l.current_coro_node >>= (λ n. some (record went { nodes = n }))
