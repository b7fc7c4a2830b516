-- ===== src/Common/Slices.antt =====
-- Go byte slices as lists: `xs[o:o+n]`, and `copy(xs[o:], bs)`.
use Prim.Native.Nat.{ℕ, zero, suc, ◌+◌, ◌-◌, ◌≤◌}
use mathlib.Core.Path.{◌≡◌, refl, ap, ◌∙◌}
use mathlib.Core.List.{List, [], ◌∷◌}
use native.Mathlib.Omega.{arith}
use bdr.Common.Lists.{length, take, drop, length-take, length-drop}

module _ {ℓ} {A : Type ℓ} where
  -- The `n` elements from `o` on; fewer where the list ends.
  abbrev pub slice : ℕ → ℕ → List A → List A
  slice o n xs = take n (drop o xs)

  -- `bs` written over `xs` from `o` on; what does not fit is dropped.
  abbrev pub overlay : List A → ℕ → List A → List A
  overlay [] o bs = []
  overlay (x ∷ xs) zero [] = x ∷ xs
  overlay (x ∷ xs) zero (b ∷ bs) = b ∷ overlay xs zero bs
  overlay (x ∷ xs) (suc o) bs = x ∷ overlay xs o bs

  pub length-overlay : (xs : List A) (o : ℕ) (bs : List A) → length (overlay xs o bs) ≡ length xs
  length-overlay [] o bs = refl
  length-overlay (x ∷ xs) zero [] = refl
  length-overlay (x ∷ xs) zero (b ∷ bs) = ap suc (length-overlay xs zero bs)
  length-overlay (x ∷ xs) (suc o) bs = ap suc (length-overlay xs o bs)

  pub overlay-nil : (xs : List A) (o : ℕ) → overlay xs o [] ≡ xs
  overlay-nil [] o = refl
  overlay-nil (x ∷ xs) zero = refl
  overlay-nil (x ∷ xs) (suc o) = ap (◌∷◌ x) (overlay-nil xs o)

  pub length-slice : (o n : ℕ) (xs : List A) → o + n ≤ length xs → length (slice o n xs) ≡ n
  length-slice o n xs h = omega (arith, length-take n (drop o xs), length-drop o xs)

  -- What was written is read back.
  pub slice-overlay :
      (xs : List A) (o : ℕ) (bs : List A)
      → o + length bs ≤ length xs
      → slice o (length bs) (overlay xs o bs) ≡ bs
  slice-overlay [] zero [] h = refl
  slice-overlay [] zero (b ∷ bs) h = absurd (omega arith)
  slice-overlay [] (suc o) bs h = absurd (omega arith)
  slice-overlay (x ∷ xs) zero [] h = refl
  slice-overlay (x ∷ xs) zero (b ∷ bs) h = ap (◌∷◌ b) (slice-overlay xs zero bs (omega arith))
  slice-overlay (x ∷ xs) (suc o) bs h = slice-overlay xs o bs (omega arith)

  slice-overlay_zero :
      (xs bs : List A) (p n : ℕ) → length bs ≤ p → slice p n (overlay xs 0 bs) ≡ slice p n xs
  slice-overlay_zero [] bs p n h = refl
  slice-overlay_zero (x ∷ xs) [] p n h = refl
  slice-overlay_zero (x ∷ xs) (b ∷ bs) zero n h = absurd (omega arith)
  slice-overlay_zero (x ∷ xs) (b ∷ bs) (suc p) n h = slice-overlay_zero xs bs p n (omega arith)

  -- A write elsewhere is not seen: behind the slice, or in front of it.
  pub slice-overlay_before :
      (xs : List A) (o : ℕ) (bs : List A) (p n : ℕ)
      → p + n ≤ o
      → slice p n (overlay xs o bs) ≡ slice p n xs
  slice-overlay_before [] o bs p n h = refl
  slice-overlay_before (x ∷ xs) zero bs zero zero h = refl
  slice-overlay_before (x ∷ xs) zero bs zero (suc n) h = absurd (omega arith)
  slice-overlay_before (x ∷ xs) zero bs (suc p) n h = absurd (omega arith)
  slice-overlay_before (x ∷ xs) (suc o) bs zero zero h = refl
  slice-overlay_before (x ∷ xs) (suc o) bs zero (suc n) h =
      ap (◌∷◌ x) (slice-overlay_before xs o bs zero n (omega arith))
  slice-overlay_before (x ∷ xs) (suc o) bs (suc p) n h =
      slice-overlay_before xs o bs p n (omega arith)

  pub slice-overlay_after :
      (xs : List A) (o : ℕ) (bs : List A) (p n : ℕ)
      → o + length bs ≤ p
      → slice p n (overlay xs o bs) ≡ slice p n xs
  slice-overlay_after xs zero bs p n h = slice-overlay_zero xs bs p n (omega arith)
  slice-overlay_after [] (suc o) bs p n h = refl
  slice-overlay_after (x ∷ xs) (suc o) bs zero n h = absurd (omega arith)
  slice-overlay_after (x ∷ xs) (suc o) bs (suc p) n h =
      slice-overlay_after xs o bs p n (omega arith)

  pub take-take : (m n : ℕ) (xs : List A) → m ≤ n → take m (take n xs) ≡ take m xs
  take-take zero n xs h = refl
  take-take (suc m) zero xs h = absurd (omega arith)
  take-take (suc m) (suc n) [] h = refl
  take-take (suc m) (suc n) (x ∷ xs) h = ap (◌∷◌ x) (take-take m n xs (omega arith))

  drop-take : (o n k : ℕ) (xs : List A) → k ≡ o + n → drop o (take k xs) ≡ take n (drop o xs)
  drop-take zero n k xs e = ap (λ j. take j xs) (omega arith)
  drop-take (suc o) n zero xs e = absurd (omega arith)
  drop-take (suc o) zero (suc k) [] e = refl
  drop-take (suc o) (suc n) (suc k) [] e = refl
  drop-take (suc o) n (suc k) (x ∷ xs) e = drop-take o n k xs (omega arith)

  drop-drop : (o p q : ℕ) (xs : List A) → q ≡ p + o → drop o (drop p xs) ≡ drop q xs
  drop-drop o zero q xs e = ap (λ j. drop j xs) (omega arith)
  drop-drop o (suc p) zero xs e = absurd (omega arith)
  drop-drop zero (suc p) (suc q) [] e = refl
  drop-drop (suc o) (suc p) (suc q) [] e = refl
  drop-drop o (suc p) (suc q) (x ∷ xs) e = drop-drop o p q xs (omega arith)

  -- A slice of a slice.
  pub slice-slice :
      (o m p n : ℕ) (xs : List A) → o + m ≤ n → slice o m (slice p n xs) ≡ slice (p + o) m xs
  slice-slice o m p n xs h =
      ap (take m) (drop-take o (n - o) n (drop p xs) (omega arith))
      ∙ take-take m (n - o) (drop o (drop p xs)) (omega arith)
      ∙ ap (take m) (drop-drop o p (p + o) xs refl)
