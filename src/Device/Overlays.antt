-- ===== src/Device/Overlays.antt =====
-- Sequences of writes to one device, and writing the same sequence again after part of it.
use bdr.Common.{
  ℕ, zero, suc, ◌+◌, ◌≤◌, ◌<◌, ◌≡◌, refl, sym, ◌∙◌, arith, List, [], ◌∷◌, ◌++◌, length, get_elem?,
  take, overlay, length-overlay, length-take, get_elem?_ext, inl, inr, ◌⊎◌,
}
use bdr.Networking.{Extent}

-- The bytes that the size counts.
abbrev pub trimmed : Extent → Extent
trimmed x = record x { bytes = take x.size x.bytes }

-- The device after the writes, in order.
unfoldable pub apply_all : List ℕ → List Extent → List ℕ
apply_all c [] = c
apply_all c (x ∷ xs) = apply_all (overlay c x.offset x.bytes) xs

pub length-apply_all : (c : List ℕ) (xs : List Extent) → length (apply_all c xs) ≡ length c
unfolding apply_all
length-apply_all c [] = refl
length-apply_all c (x ∷ xs) =
    length-apply_all (overlay c x.offset x.bytes) xs ∙ length-overlay c x.offset x.bytes

pub apply_all-append :
    (c : List ℕ) (xs ys : List Extent) → apply_all c (xs ++ ys) ≡ apply_all (apply_all c xs) ys
unfolding apply_all
apply_all-append c [] ys = refl
apply_all-append c (x ∷ xs) ys = apply_all-append (overlay c x.offset x.bytes) xs ys

-- Place `p` lies outside the bytes that are written.
abbrev pub IsOutside : ℕ → ℕ → ℕ → Type 0
IsOutside p o n = (p < o) ⊎ (o + n ≤ p)

abbrev pub IsUntouched : ℕ → List Extent → Type 0
IsUntouched p [] = Unit {0}
IsUntouched p (x ∷ xs) = IsOutside p x.offset (length x.bytes) × IsUntouched p xs

-- The two contents differ at most where the writes go.
pub record Agree (xs : List Extent) (c c' : List ℕ) : Type 0 where
  pub length : length c ≡ length c'
  pub outside : (p : ℕ) → IsUntouched p xs → get_elem? c p ≡ get_elem? c' p

pub get_elem?-overlay_outside :
    (c : List ℕ) (o : ℕ) (bs : List ℕ) (p : ℕ)
    → IsOutside p o (length bs)
    → get_elem? (overlay c o bs) p ≡ get_elem? c p
get_elem?-overlay_outside [] o bs p h = refl
get_elem?-overlay_outside (x ∷ c) zero [] p h = refl
get_elem?-overlay_outside (x ∷ c) zero (b ∷ bs) zero h = absurd (omega arith)
get_elem?-overlay_outside (x ∷ c) zero (b ∷ bs) (suc p) h =
    get_elem?-overlay_outside c zero bs p (inr (omega arith))
get_elem?-overlay_outside (x ∷ c) (suc o) bs zero h = refl
get_elem?-overlay_outside (x ∷ c) (suc o) bs (suc p) (inl h) =
    get_elem?-overlay_outside c o bs p (inl (omega arith))
get_elem?-overlay_outside (x ∷ c) (suc o) bs (suc p) (inr h) =
    get_elem?-overlay_outside c o bs p (inr (omega arith))

pub get_elem?-overlay_inside :
    (c c' : List ℕ) (o : ℕ) (bs : List ℕ) (p : ℕ)
    → length c ≡ length c'
    → o ≤ p
    → p < o + length bs
    → get_elem? (overlay c o bs) p ≡ get_elem? (overlay c' o bs) p
get_elem?-overlay_inside [] [] o bs p e lo hi = refl
get_elem?-overlay_inside [] (y ∷ c') o bs p e lo hi = absurd (omega arith)
get_elem?-overlay_inside (x ∷ c) [] o bs p e lo hi = absurd (omega arith)
get_elem?-overlay_inside (x ∷ c) (y ∷ c') zero [] p e lo hi = absurd (omega arith)
get_elem?-overlay_inside (x ∷ c) (y ∷ c') zero (b ∷ bs) zero e lo hi = refl
get_elem?-overlay_inside (x ∷ c) (y ∷ c') zero (b ∷ bs) (suc p) e lo hi =
    get_elem?-overlay_inside c c' zero bs p (omega arith) (omega arith) (omega arith)
get_elem?-overlay_inside (x ∷ c) (y ∷ c') (suc o) bs zero e lo hi = absurd (omega arith)
get_elem?-overlay_inside (x ∷ c) (y ∷ c') (suc o) bs (suc p) e lo hi =
    get_elem?-overlay_inside c c' o bs p (omega arith) (omega arith) (omega arith)

pub Agree-refl : (xs : List Extent) (c : List ℕ) → Agree xs c c
Agree-refl xs c = record { length = refl; outside = λ p h. refl }

pub Agree-trans :
    (xs : List Extent) (c c' c'' : List ℕ) → Agree xs c c' → Agree xs c' c'' → Agree xs c c''
Agree-trans xs c c' c'' a b = record {
  length = a.length ∙ b.length;
  outside = λ p h. a.outside p h ∙ b.outside p h;
}

inside_or_IsOutside : (p o n : ℕ) → ((o ≤ p) × (p < o + n)) ⊎ IsOutside p o n
inside_or_IsOutside p o n = grind arith

-- Writing the first of the sequence to both makes them agree off the rest.
Agree-overlay :
    (x : Extent) (xs : List Extent) (c c' : List ℕ)
    → Agree (x ∷ xs) c c'
    → Agree xs (overlay c x.offset x.bytes) (overlay c' x.offset x.bytes)
Agree-overlay x xs c c' a = record {
  length = length-overlay c x.offset x.bytes ∙ a.length ∙ sym (length-overlay c' x.offset x.bytes);
  outside = λ p h. elim (inside_or_IsOutside p x.offset (length x.bytes)) [
    | inl (lo, hi) ↦ get_elem?-overlay_inside c c' x.offset x.bytes p a.length lo hi
    | inr out ↦
        get_elem?-overlay_outside c x.offset x.bytes p out
        ∙ a.outside p (out, h)
        ∙ sym (get_elem?-overlay_outside c' x.offset x.bytes p out)
  ];
}

-- The whole sequence wipes the difference out.
pub apply_all-Agree :
    (xs : List Extent) (c c' : List ℕ) → Agree xs c c' → apply_all c xs ≡ apply_all c' xs
unfolding apply_all
apply_all-Agree [] c c' a = get_elem?_ext c c' (λ i. a.outside i tt)
apply_all-Agree (x ∷ xs) c c' a =
    apply_all-Agree xs (overlay c x.offset x.bytes) (overlay c' x.offset x.bytes)
      (Agree-overlay x xs c c' a)

pub IsUntouched-append :
    (p : ℕ) (xs ys : List Extent) → IsUntouched p (xs ++ ys) → IsUntouched p xs × IsUntouched p ys
IsUntouched-append p [] ys h = (tt, h)
IsUntouched-append p (x ∷ xs) ys (o, h) = let (l, r) = IsUntouched-append p xs ys h in ((o, l), r)

-- Every place that `xs` writes is one that `all` writes.
abbrev pub WritesWithin : List Extent → List Extent → Type 0
WritesWithin xs all = (p : ℕ) → IsUntouched p all → IsUntouched p xs

-- The first part of one of the writes changes only what the sequence writes.
pub Agree-part :
    (all xs : List Extent) (n : ℕ) (x : Extent) (c : List ℕ)
    → WritesWithin (x ∷ xs) all
    → Agree all c (overlay c x.offset (take n x.bytes))
Agree-part all xs n x c sub = record {
  length = sym (length-overlay c x.offset (take n x.bytes));
  outside =
      λ p u. sym (get_elem?-overlay_outside c x.offset (take n x.bytes) p (shorter p (sub p u).0));
}
  where
    shorter :
        (p : ℕ)
        → IsOutside p x.offset (length x.bytes)
        → IsOutside p x.offset (length (take n x.bytes))
    shorter p (inl h) = inl h
    shorter p (inr h) = inr (omega (arith, length-take n x.bytes))

pub Agree-whole :
    (all xs : List Extent) (x : Extent) (c : List ℕ)
    → WritesWithin (x ∷ xs) all
    → Agree all c (overlay c x.offset x.bytes)
Agree-whole all xs x c sub = record {
  length = sym (length-overlay c x.offset x.bytes);
  outside = λ p u. sym (get_elem?-overlay_outside c x.offset x.bytes p (sub p u).0);
}

-- All of some writes of the sequence.
pub Agree-apply_all :
    (all xs : List Extent) (c c' : List ℕ)
    → WritesWithin xs all
    → c' ≡ apply_all c xs
    → Agree all c c'
unfolding apply_all
Agree-apply_all all [] c c' sub e = rw e (Agree-refl all c)
Agree-apply_all all (x ∷ xs) c c' sub e =
    Agree-trans all c (overlay c x.offset x.bytes) c' (Agree-whole all xs x c sub)
      (Agree-apply_all all xs (overlay c x.offset x.bytes) c' (λ p u. (sub p u).1) e)
