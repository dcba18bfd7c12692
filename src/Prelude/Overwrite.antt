-- ===== src/Prelude/Overwrite.antt =====
-- `memcpy` into a list: `overwrite xs a ys` puts `ys` over `xs` from position `a` on, and makes the
-- list longer where `ys` reaches past its end.
use Prim.Native.Nat.{ℕ, zero, suc, ◌+◌, ◌≤◌}
use mathlib.Core.Path.{◌≡◌, refl, ap, ◌∙◌}
use mathlib.Core.Logic.{◌⊎◌, inl, inr}
use mathlib.Core.List.{List, [], ◌∷◌, ◌++◌}
use native.Mathlib.Omega.{arith}
use sysprog_exercises.Prelude.Lists.{length, take, drop, take_self}

module _ {ℓ} {A : Type ℓ} where
  abbrev pub overlay : List A → List A → List A
  overlay xs [] = xs
  overlay [] (y ∷ ys) = y ∷ ys
  overlay (x ∷ xs) (y ∷ ys) = y ∷ overlay xs ys

  abbrev pub overwrite : List A → ℕ → List A → List A
  overwrite xs zero ys = overlay xs ys
  overwrite [] (suc a) ys = ys
  overwrite (x ∷ xs) (suc a) ys = x ∷ overwrite xs a ys

  length-overlay : (xs ys : List A) → length ys ≤ length xs → length (overlay xs ys) ≡ length xs
  length-overlay xs [] h = refl
  length-overlay [] (y ∷ ys) h = absurd (omega arith)
  length-overlay (x ∷ xs) (y ∷ ys) h = ap suc (length-overlay xs ys (omega arith))

  -- Inside the list its length stays.
  pub length-overwrite :
      (xs : List A) (a : ℕ) (ys : List A)
      → a + length ys ≤ length xs
      → length (overwrite xs a ys) ≡ length xs
  length-overwrite xs zero ys h = length-overlay xs ys (omega arith)
  length-overwrite [] (suc a) ys h = absurd (omega arith)
  length-overwrite (x ∷ xs) (suc a) ys h = ap suc (length-overwrite xs a ys (omega arith))

  overlay-append :
      (xs zs ys : List A) → length ys ≤ length xs → overlay (xs ++ zs) ys ≡ overlay xs ys ++ zs
  overlay-append [] zs [] h = refl
  overlay-append (x ∷ xs) zs [] h = refl
  overlay-append [] zs (y ∷ ys) h = absurd (omega arith)
  overlay-append (x ∷ xs) zs (y ∷ ys) h = ap (λ r. y ∷ r) (overlay-append xs zs ys (omega arith))

  pub overwrite-append_left :
      (xs zs : List A) (a : ℕ) (ys : List A)
      → a + length ys ≤ length xs
      → overwrite (xs ++ zs) a ys ≡ overwrite xs a ys ++ zs
  overwrite-append_left xs zs zero ys h = overlay-append xs zs ys (omega arith)
  overwrite-append_left [] zs (suc a) ys h = absurd (omega arith)
  overwrite-append_left (x ∷ xs) zs (suc a) ys h =
      ap (λ r. x ∷ r) (overwrite-append_left xs zs a ys (omega arith))

  pub overwrite-append_right :
      (xs zs : List A) (a m : ℕ) (ys : List A)
      → m ≡ length xs + a
      → overwrite (xs ++ zs) m ys ≡ xs ++ overwrite zs a ys
  overwrite-append_right [] zs a m ys h = ap (λ k. overwrite zs k ys) (omega arith)
  overwrite-append_right (x ∷ xs) zs a zero ys h = absurd (omega arith)
  overwrite-append_right (x ∷ xs) zs a (suc m) ys h =
      ap (λ r. x ∷ r) (overwrite-append_right xs zs a m ys (omega arith))

  overlay-overwrite :
      (xs ys zs : List A) → overwrite (overlay xs ys) (length ys) zs ≡ overlay xs (ys ++ zs)
  overlay-overwrite xs [] zs = refl
  overlay-overwrite [] (y ∷ []) [] = refl
  overlay-overwrite [] (y ∷ []) (z ∷ zs) = refl
  overlay-overwrite [] (y ∷ w ∷ ys) zs = ap (λ r. y ∷ r) (overlay-overwrite [] (w ∷ ys) zs)
  overlay-overwrite (x ∷ xs) (y ∷ ys) zs = ap (λ r. y ∷ r) (overlay-overwrite xs ys zs)

  -- Two writes in a row are one.
  pub overwrite-overwrite :
      (xs : List A) (a m : ℕ) (ys zs : List A)
      → a ≤ length xs
      → m ≡ a + length ys
      → overwrite (overwrite xs a ys) m zs ≡ overwrite xs a (ys ++ zs)
  overwrite-overwrite xs zero m ys zs h e =
      ap (λ k. overwrite (overlay xs ys) k zs) (omega arith) ∙ overlay-overwrite xs ys zs
  overwrite-overwrite [] (suc a) m ys zs h e = absurd (omega arith)
  overwrite-overwrite (x ∷ xs) (suc a) zero ys zs h e = absurd (omega arith)
  overwrite-overwrite (x ∷ xs) (suc a) (suc m) ys zs h e =
      ap (λ r. x ∷ r) (overwrite-overwrite xs a m ys zs (omega arith) (omega arith))

  overlay-nil : (ys : List A) → overlay [] ys ≡ ys
  overlay-nil [] = refl
  overlay-nil (y ∷ ys) = refl

  take-overlay :
      (n m : ℕ) (xs ys : List A)
      → n ≤ length xs
      → length ys ≤ length xs
      → n ≤ m
      → length ys ≤ m
      → (m ≡ n) ⊎ (m ≡ length ys)
      → take m (overlay xs ys) ≡ overlay (take n xs) ys
  take-overlay n m xs [] h k p q e = ap (λ j. take j xs) (omega arith)
  take-overlay n m [] (y ∷ ys) h k p q e = absurd (omega arith)
  take-overlay n zero (x ∷ xs) (y ∷ ys) h k p q e = absurd (omega arith)
  take-overlay zero (suc m) (x ∷ xs) (y ∷ ys) h k p q e =
      ap (λ r. y ∷ r)
        (take-overlay zero m xs ys (omega arith) (omega arith) (omega arith) (omega arith)
            (inr (omega arith))
          ∙ overlay-nil ys)
  take-overlay (suc n) (suc m) (x ∷ xs) (y ∷ ys) h k p q e =
      ap (λ r. y ∷ r)
        (take-overlay n m xs ys (omega arith) (omega arith) (omega arith) (omega arith)
          (elim e [ inl a ↦ inl (omega arith) | inr b ↦ inr (omega arith) ]))

  -- The occupied prefix grows to the larger of its own end and the end of what was written.
  pub take-overwrite :
      (n m a : ℕ) (xs ys : List A)
      → n ≤ length xs
      → a ≤ n
      → a + length ys ≤ length xs
      → n ≤ m
      → a + length ys ≤ m
      → (m ≡ n) ⊎ (m ≡ a + length ys)
      → take m (overwrite xs a ys) ≡ overwrite (take n xs) a ys
  take-overwrite n m zero xs ys h l k p q e =
      take-overlay n m xs ys h (omega arith) p (omega arith)
        (elim e [ inl a ↦ inl a | inr b ↦ inr (omega arith) ])
  take-overwrite n m (suc a) [] ys h l k p q e = absurd (omega arith)
  take-overwrite zero m (suc a) (x ∷ xs) ys h l k p q e = absurd (omega arith)
  take-overwrite (suc n) zero (suc a) (x ∷ xs) ys h l k p q e = absurd (omega arith)
  take-overwrite (suc n) (suc m) (suc a) (x ∷ xs) ys h l k p q e =
      ap (λ r. x ∷ r)
        (take-overwrite n m a xs ys (omega arith) (omega arith) (omega arith) (omega arith)
          (omega arith) (elim e [ inl u ↦ inl (omega arith) | inr v ↦ inr (omega arith) ]))

  -- What was written is read back.
  pub drop-overwrite :
      (xs : List A) (a : ℕ) (ys : List A)
      → a ≤ length xs
      → take (length ys) (drop a (overwrite xs a ys)) ≡ ys
  drop-overwrite xs zero ys h = go xs ys
    where
      go : (xs ys : List A) → take (length ys) (overlay xs ys) ≡ ys
      go xs [] = refl
      go [] (y ∷ ys) = ap (λ r. y ∷ r) (take_self (length ys) ys refl)
      go (x ∷ xs) (y ∷ ys) = ap (λ r. y ∷ r) (go xs ys)
  drop-overwrite [] (suc a) ys h = absurd (omega arith)
  drop-overwrite (x ∷ xs) (suc a) ys h = drop-overwrite xs a ys (omega arith)

  -- Nothing in front of the position changes.
  pub take-overwrite_before :
      (xs : List A) (a : ℕ) (ys : List A) → a ≤ length xs → take a (overwrite xs a ys) ≡ take a xs
  take-overwrite_before xs zero ys h = refl
  take-overwrite_before [] (suc a) ys h = absurd (omega arith)
  take-overwrite_before (x ∷ xs) (suc a) ys h =
      ap (λ r. x ∷ r) (take-overwrite_before xs a ys (omega arith))

  pub overwrite-nil : (xs : List A) (a : ℕ) → overwrite xs a [] ≡ xs
  overwrite-nil xs zero = refl
  overwrite-nil [] (suc a) = refl
  overwrite-nil (x ∷ xs) (suc a) = ap (λ r. x ∷ r) (overwrite-nil xs a)
