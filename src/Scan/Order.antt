-- ===== src/Scan/Order.antt =====
-- The goroutines deliver blocks in any order: what is needed of them does not depend on it.
use bdr.Common.{[], ◌∷◌, ℕ, ◌≡◌, ◌<◌, List, length, get_elem?, All, inl, inr, ◌⊎◌}
use bdr.Networking.{Extent}
use bdr.Device.Overlays.{apply_all}
use bdr.Scan.Blocks.{IsInside, IsCovered, IsTrue, apply_all-IsTrue}
use mathlib.Core.List.{Perm, Permᴰ}
use mathlib.Core.Path.{subst}
use mathlib.Core.Logic.{∥∥₁_elim}

All-Permᴰ {ℓ} : {A : Type ℓ} (P : A → Type 0) {xs ys : List A} → Permᴰ xs ys → All P xs → All P ys
All-Permᴰ P Permᴰ.nil h = tt
All-Permᴰ P (Permᴰ.cons e p) (h, hs) = (subst P e h, All-Permᴰ P p hs)
All-Permᴰ P (Permᴰ.swap e e') (h, (h', hs)) = (subst P e' h', (subst P e h, hs))
All-Permᴰ P (Permᴰ.trans p q) h = All-Permᴰ P q (All-Permᴰ P p h)

IsCovered-Permᴰ : (p : ℕ) {xs ys : List Extent} → Permᴰ xs ys → IsCovered p xs → IsCovered p ys
IsCovered-Permᴰ p Permᴰ.nil h = h
IsCovered-Permᴰ p (Permᴰ.cons e q) (inl h) = inl (subst (IsInside p) e h)
IsCovered-Permᴰ p (Permᴰ.cons e q) (inr h) = inr (IsCovered-Permᴰ p q h)
IsCovered-Permᴰ p (Permᴰ.swap e e') (inl h) = inr (inl (subst (IsInside p) e h))
IsCovered-Permᴰ p (Permᴰ.swap e e') (inr (inl h)) = inl (subst (IsInside p) e' h)
IsCovered-Permᴰ p (Permᴰ.swap e e') (inr (inr h)) = inr (inr h)
IsCovered-Permᴰ p (Permᴰ.trans q r) h = IsCovered-Permᴰ p r (IsCovered-Permᴰ p q h)

All-IsProp {ℓ} :
    {A : Type ℓ} (P : A → Type 0) → ((a : A) → IsProp (P a)) → (xs : List A) → IsProp (All P xs)
All-IsProp P prop [] = λ h h' i. tt
All-IsProp P prop (x ∷ xs) = λ (h, hs) (h', hs') i. (prop x h h' i, All-IsProp P prop xs hs hs' i)

-- What holds of all items holds of them in any order.
pub All-Perm {ℓ} :
    {A : Type ℓ} (P : A → Type 0) (xs ys : List A)
    → ((a : A) → IsProp (P a))
    → Perm xs ys
    → All P xs
    → All P ys
All-Perm P xs ys prop perm h = ∥∥₁_elim perm (All-IsProp P prop ys) (λ q. All-Permᴰ P q h)

contents-prop : (c c' : List ℕ) → IsProp (c ≡ c')
contents-prop c c' = let s : IsSet (List ℕ) = hlevel in s c c'

-- In whatever order the writes arrive.
pub apply_all-perm :
    (src t : List ℕ) (xs ys : List Extent)
    → length t ≡ length src
    → All (IsTrue src) xs
    → ((p : ℕ) → p < length src → (get_elem? t p ≡ get_elem? src p) ⊎ IsCovered p xs)
    → Perm xs ys
    → apply_all t ys ≡ src
apply_all-perm src t xs ys e true_to all perm =
    ∥∥₁_elim perm (contents-prop (apply_all t ys) src) λ q.
      apply_all-IsTrue src t ys e (All-Permᴰ (IsTrue src) q true_to)
        λ p h. elim (all p h) [ inl same ↦ inl same | inr c ↦ inr (IsCovered-Permᴰ p q c) ]
