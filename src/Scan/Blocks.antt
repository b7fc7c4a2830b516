-- ===== src/Scan/Blocks.antt =====
-- Writes that are true to a source: wherever they go, they bring what the source has there.
use bdr.Common.{
  ℕ, zero, suc, ◌+◌, ◌≤◌, ◌<◌, ◌≡◌, refl, sym, ◌∙◌, ap, arith, List, [], ◌∷◌, length, get_elem?,
  get_elem?_ext, slice, overlay, length-overlay, All, inl, inr, ◌⊎◌, none,
}
use bdr.Networking.{Extent}
use bdr.Device.Overlays.{
  apply_all, length-apply_all, IsOutside, get_elem?-overlay_outside, get_elem?-overlay_inside,
}
use native.Mathlib.Decide.{dec_lt}

abbrev pub IsInside : ℕ → Extent → Type 0
IsInside p x = (x.offset ≤ p) × (p < x.offset + length x.bytes)

-- Some of the writes goes over place `p`.
abbrev pub IsCovered : ℕ → List Extent → Type 0
IsCovered p [] = ⊥
IsCovered p (x ∷ xs) = IsInside p x ⊎ IsCovered p xs

-- The bytes are those of the source, and lie on it.
abbrev pub IsTrue : List ℕ → Extent → Type 0
IsTrue src x =
    (x.bytes ≡ slice x.offset (length x.bytes) src) × (x.offset + length x.bytes ≤ length src)

-- Writing the source's own bytes over it changes nothing.
overlay-slice : (src : List ℕ) (o n : ℕ) → overlay src o (slice o n src) ≡ src
overlay-slice [] o n = refl
overlay-slice (x ∷ xs) zero zero = refl
overlay-slice (x ∷ xs) zero (suc n) = ap (◌∷◌ x) (overlay-slice xs zero n)
overlay-slice (x ∷ xs) (suc o) n = ap (◌∷◌ x) (overlay-slice xs o n)

place_cases : (p : ℕ) (x : Extent) → IsInside p x ⊎ IsOutside p x.offset (length x.bytes)
place_cases p x = grind arith

overlay-IsTrue :
    (src t : List ℕ) (x : Extent) (p : ℕ)
    → length t ≡ length src
    → IsTrue src x
    → (get_elem? t p ≡ get_elem? src p) ⊎ IsInside p x
    → get_elem? (overlay t x.offset x.bytes) p ≡ get_elem? src p
overlay-IsTrue src t x p e (b, h) agrees = elim (place_cases p x) [
  | inl (lo, hi) ↦
      get_elem?-overlay_inside t src x.offset x.bytes p e lo hi
      ∙ ap (λ z. get_elem? z p)
          (ap (overlay src x.offset) b ∙ overlay-slice src x.offset (length x.bytes))
  | inr out ↦ elim agrees [
    | inl same ↦ get_elem?-overlay_outside t x.offset x.bytes p out ∙ same
    | inr inside ↦ absurd (both p x inside out)
  ]
]
  where
    both : (p : ℕ) (x : Extent) → IsInside p x → IsOutside p x.offset (length x.bytes) → ⊥
    both p x (lo, hi) (inl h) = omega arith
    both p x (lo, hi) (inr h) = omega arith

-- Where the contents agree with the source, or a write goes, they agree after the writes.
pub get_elem?-apply_all :
    (src t : List ℕ) (xs : List Extent) (p : ℕ)
    → length t ≡ length src
    → All (IsTrue src) xs
    → (get_elem? t p ≡ get_elem? src p) ⊎ IsCovered p xs
    → get_elem? (apply_all t xs) p ≡ get_elem? src p
unfolding apply_all
get_elem?-apply_all src t [] p e true_to (inl same) = same
get_elem?-apply_all src t [] p e true_to (inr c) = absurd c
get_elem?-apply_all src t (x ∷ xs) p e (tx, true_to) (inl same) =
    get_elem?-apply_all src (overlay t x.offset x.bytes) xs p
      (length-overlay t x.offset x.bytes ∙ e) true_to
      (inl (overlay-IsTrue src t x p e tx (inl same)))
get_elem?-apply_all src t (x ∷ xs) p e (tx, true_to) (inr (inl inside)) =
    get_elem?-apply_all src (overlay t x.offset x.bytes) xs p
      (length-overlay t x.offset x.bytes ∙ e) true_to
      (inl (overlay-IsTrue src t x p e tx (inr inside)))
get_elem?-apply_all src t (x ∷ xs) p e (tx, true_to) (inr (inr c)) =
    get_elem?-apply_all src (overlay t x.offset x.bytes) xs p
      (length-overlay t x.offset x.bytes ∙ e) true_to (inr c)

get_elem?-behind : (c : List ℕ) (p : ℕ) → length c ≤ p → get_elem? c p ≡ none
get_elem?-behind [] p h = refl
get_elem?-behind (x ∷ c) zero h = absurd (omega arith)
get_elem?-behind (x ∷ c) (suc p) h = get_elem?-behind c p (omega arith)

-- True writes that go over every place where the contents differ make them the source.
pub apply_all-IsTrue :
    (src t : List ℕ) (xs : List Extent)
    → length t ≡ length src
    → All (IsTrue src) xs
    → ((p : ℕ) → p < length src → (get_elem? t p ≡ get_elem? src p) ⊎ IsCovered p xs)
    → apply_all t xs ≡ src
apply_all-IsTrue src t xs e true_to all = get_elem?_ext (apply_all t xs) src place
  where
    n : length (apply_all t xs) ≡ length src
    n = length-apply_all t xs ∙ e

    place : (p : ℕ) → get_elem? (apply_all t xs) p ≡ get_elem? src p
    place p = elim (dec_lt p (length src)) [
      | yes h ↦ get_elem?-apply_all src t xs p e true_to (all p h)
      | no h ↦
          get_elem?-behind (apply_all t xs) p (omega (arith, n))
          ∙ sym (get_elem?-behind src p (omega arith))
    ]

-- A block that both contents share.
pub get_elem?_of_slice :
    (xs ys : List ℕ) (o n p : ℕ)
    → length xs ≡ length ys
    → slice o n xs ≡ slice o n ys
    → o ≤ p
    → p < o + n
    → get_elem? xs p ≡ get_elem? ys p
get_elem?_of_slice [] [] o n p e s lo hi = refl
get_elem?_of_slice [] (y ∷ ys) o n p e s lo hi = absurd (omega arith)
get_elem?_of_slice (x ∷ xs) [] o n p e s lo hi = absurd (omega arith)
get_elem?_of_slice (x ∷ xs) (y ∷ ys) zero zero p e s lo hi = absurd (omega arith)
get_elem?_of_slice (x ∷ xs) (y ∷ ys) zero (suc n) zero e s lo hi = cc
get_elem?_of_slice (x ∷ xs) (y ∷ ys) zero (suc n) (suc p) e s lo hi =
    get_elem?_of_slice xs ys zero n p (omega arith) (cc) (omega arith) (omega arith)
get_elem?_of_slice (x ∷ xs) (y ∷ ys) (suc o) n zero e s lo hi = absurd (omega arith)
get_elem?_of_slice (x ∷ xs) (y ∷ ys) (suc o) n (suc p) e s lo hi =
    get_elem?_of_slice xs ys o n p (omega arith) s (omega arith) (omega arith)
