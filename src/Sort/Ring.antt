-- ===== src/Sort/Ring.antt =====
-- The ring of nodes of 1/mine/libcoro.c as a list.
use sysprog_exercises.Prelude.{
  ℕ, ◌≡◌, ap, ◌∙◌, sym, subst, Bool, true, false, List, [], ◌∷◌, ◌++◌, arith, if◌then◌else◌, ◌==◌,
  Absent, Distinct, Absent-left, Absent-right,
}
use sysprog_exercises.Sort.Coroutines.{write_at}
use sysprog_exercises.Sort.Loop.{Nodes}

-- From `a` through the nodes `xs` to `z`, linked both ways.
abbrev pub Chain : (ℕ → ℕ) → (ℕ → ℕ) → ℕ → List ℕ → ℕ → Type 0
Chain next prev a [] z = (next a ≡ z) × (prev z ≡ a)
Chain next prev a (b ∷ xs) z = (next a ≡ b) × (prev b ≡ a) × Chain next prev b xs z

abbrev pub AllLive : (ℕ → Bool) → List ℕ → Type 0
AllLive live [] = Unit {0}
AllLive live (a ∷ xs) = (live a ≡ true) × AllLive live xs

-- What is at a place that was written, and at another one.
pub written : {A : Type 0} (f : ℕ → A) (i : ℕ) (x : A) → write_at f i x i ≡ x
written f i x = let e : (i == i) ≡ true = ground arith in ap (λ b. if b then x else f i) e

pub unwritten :
    {A : Type 0} (f : ℕ → A) (i j : ℕ) (x : A) → (j == i) ≡ false → write_at f i x j ≡ f j
unwritten f i j x e = ap (λ b. if b then x else f j) e

pub apart_sym : (a b : ℕ) → (a == b) ≡ false → (b == a) ≡ false
apart_sym a b e = ground arith

module _ (next prev : ℕ → ℕ) where
  -- Writes outside of a chain.
  pub Chain-kept :
      (p n v w a : ℕ) (xs : List ℕ) (z : ℕ)
      → (p == a) ≡ false
      → Absent p xs
      → Absent n xs
      → (n == z) ≡ false
      → Chain next prev a xs z
      → Chain (write_at next p v) (write_at prev n w) a xs z
  Chain-kept p n v w a [] z pa px nx nz (e, f) =
      (unwritten next p a v (apart_sym p a pa) ∙ e, unwritten prev n z w (apart_sym n z nz) ∙ f)
  Chain-kept p n v w a (b ∷ xs) z pa (pb, px) (nb, nx) nz (e, f, c) = (
    unwritten next p a v (apart_sym p a pa) ∙ e,
    unwritten prev n b w (apart_sym n b nb) ∙ f,
    Chain-kept p n v w b xs z pb px nx nz c,
  )

  -- The neighbours of a node in a chain.
  pub next_in :
      (a : ℕ) (before : List ℕ) (c : ℕ) (after : List ℕ) (z : ℕ)
      → Chain next prev a (before ++ (c ∷ after)) z
      → Chain next prev c after z
  next_in a [] c after z (e, f, l) = l
  next_in a (b ∷ before) c after z (e, f, l) = next_in b before c after z l

  pub prev_apart :
      (a y : ℕ) (before : List ℕ) (c : ℕ) (after : List ℕ) (z : ℕ)
      → Chain next prev a (before ++ (c ∷ after)) z
      → (y == a) ≡ false
      → Absent y before
      → (y == prev c) ≡ false
  prev_apart a y [] c after z (e, f, l) ya yb = subst (λ v. (y == v) ≡ false) (sym f) ya
  prev_apart a y (b ∷ before) c after z (e, f, l) ya (yb, ys) =
      prev_apart b y before c after z l yb ys

  next_apart :
      (c y : ℕ) (after : List ℕ) (z : ℕ)
      → Chain next prev c after z
      → Absent y after
      → (y == z) ≡ false
      → (y == next c) ≡ false
  next_apart c y [] z (e, f) h k = subst (λ v. (y == v) ≡ false) (sym e) k
  next_apart c y (b ∷ after) z (e, f, l) (h, hs) k = subst (λ v. (y == v) ≡ false) (sym e) h

  -- A node leaves the chain.
  pub Chain-unlink_node :
      (a : ℕ) (before : List ℕ) (c : ℕ) (after : List ℕ) (z : ℕ)
      → Distinct (a ∷ before ++ (c ∷ after))
      → Absent z (before ++ (c ∷ after))
      → Chain next prev a (before ++ (c ∷ after)) z
      → Chain
          (write_at next (prev c) (next c))
          (write_at prev (next c) (prev c))
          a
          (before ++ after)
          z
  Chain-unlink_node a [] c [] z d zs (e, f, (g, h)) = (
    ap (λ p. write_at next p (next c) a) f ∙ written next a (next c) ∙ g,
    ap (λ n. write_at prev n (prev c) z) g ∙ written prev z (prev c) ∙ f,
  )
  Chain-unlink_node a [] c (b ∷ after) z ((ac, (ab, aa)), ((cb, cs), (ba, d))) (zc, (zb, zs))
        (e, f, (g, h, l)) =
      (
        ap (λ p. write_at next p (next c) a) f ∙ written next a (next c) ∙ g,
        ap (λ n. write_at prev n (prev c) b) g ∙ written prev b (prev c) ∙ f,
        subst (λ p. Chain (write_at next p (next c)) (write_at prev (next c) (prev c)) b after z)
            (sym f)
            (subst (λ n. Chain (write_at next a (next c)) (write_at prev n (prev c)) b after z)
              (sym g) (Chain-kept a b (next c) (prev c) b after z ab aa ba (apart_sym z b zb) l)),
      )
  Chain-unlink_node a (x ∷ before) c after z ((ax, more), (xs, d)) (zx, zs) (e, f, l) =
      let go = prev_apart x a before c after z l ax (Absent-left a before (c ∷ after) more) in
      let back =
        next_apart c x after z (next_in x before c after z l)
          (Absent-right x before (c ∷ after) xs).1 (apart_sym z x zx) in
      (
        unwritten next (prev c) a (next c) go ∙ e,
        unwritten prev (next c) x (prev c) back ∙ f,
        Chain-unlink_node x before c after z (xs, d) zs l,
      )

-- The loop's ring: its sentinel, the nodes behind it in turn, and no others.
pub record IsRing (m : Nodes) (s : ℕ) (xs : List ℕ) : Type 0 where
  pub chain : Chain m.next m.prev s xs s
  pub sentinel_live : m.is_live s ≡ true
  pub all_live : AllLive m.is_live xs
  pub sentinel_apart : Absent s xs
  pub distinct : Distinct xs
