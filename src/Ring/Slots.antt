-- ===== src/Ring/Slots.antt =====
-- A run of slots of the ring of kern/ring-buffer.c, which goes on at the beginning of the buffer
-- where it reaches the end.
use bdr.Common.{
  ℕ, suc, ◌+◌, ◌*◌, ◌%◌, ◌≤◌, ◌<◌, ◌≡◌, ◌≢◌, sym, ap, arith, List, [], ◌∷◌, ◌++◌, length, mod-ne,
  mod_suc, inl, inr, ◌⊎◌,
}
use native.Mathlib.Nat.{mod-lt}
use bdr.Section.Slots.{rows}
use bdr.Ring.{slot_size}
use bdr.Ring.Window.{Write, IsAt, IsSmall, store_write, store-IsAt_apart}

-- The byte at which slot `o` of a ring of `n` slots begins, where `o` runs on past the end.
abbrev pub byte_of : ℕ → ℕ → ℕ → ℕ
byte_of page_size n o = o % n * slot_size page_size

-- From slot `o` on the buffer holds these writes, and each is small enough for its slot.
abbrev pub Slots : ℕ → ℕ → List ℕ → ℕ → List Write → Type 0
Slots page_size n buffer o [] = Unit {0}
Slots page_size n buffer o (w ∷ ws) =
    (IsAt buffer (byte_of page_size n o) w × IsSmall page_size w)
    × Slots page_size n buffer (suc o) ws

module _ (page_size n : ℕ) (buffer : List ℕ) where
  -- Only the remainder of the first slot matters.
  pub Slots-mod :
      (o p : ℕ) (ws : List Write)
      → o % n ≡ p % n
      → Slots page_size n buffer o ws
      → Slots page_size n buffer p ws
  Slots-mod o p [] e h = tt
  Slots-mod o p (w ∷ ws) e ((k, small), h) =
      ((rw e at k, small), Slots-mod (suc o) (suc p) ws (mod_suc o p n e) h)

  pub Slots-append :
      (o p : ℕ) (xs ys : List Write)
      → p ≡ o + length xs
      → Slots page_size n buffer o xs
      → Slots page_size n buffer p ys
      → Slots page_size n buffer o (xs ++ ys)
  Slots-append o p [] ys e h k = Slots-mod p o ys (ap (λ j. j % n) (omega arith)) k
  Slots-append o p (x ∷ xs) ys e (h, hs) k = (h, Slots-append (suc o) p xs ys (omega arith) hs k)

  pub Slots-split :
      (o p : ℕ) (xs ys : List Write)
      → p ≡ o + length xs
      → Slots page_size n buffer o (xs ++ ys)
      → Slots page_size n buffer o xs × Slots page_size n buffer p ys
  Slots-split o p [] ys e k = (tt, Slots-mod o p ys (ap (λ j. j % n) (omega arith)) k)
  Slots-split o p (x ∷ xs) ys e (h, hs) =
      let (l, r) = Slots-split (suc o) p xs ys (omega arith) hs in ((h, l), r)

-- Different slots lie apart.
apart : (i j s : ℕ) → i ≢ j → (i * s + s ≤ j * s) ⊎ (j * s + s ≤ i * s)
apart i j s ne = elim (sides i j ne) [ inl h ↦ inl (rows i j s h) | inr h ↦ inr (rows j i s h) ]
  where
    sides : (i j : ℕ) → i ≢ j → (i < j) ⊎ (j < i)
    sides i j ne = grind arith

pub byte_of-le :
    (page_size n o : ℕ)
    → 0 < n
    → byte_of page_size n o + slot_size page_size ≤ n * slot_size page_size
byte_of-le page_size n o pos = rows (o % n) n (slot_size page_size) (mod-lt o pos)

-- A slot behind the run, less than one round on, is none of its slots.
pub Slots-store :
    (page_size n : ℕ) (buffer : List ℕ) (o p : ℕ) (w : Write) (ws : List Write)
    → 0 < n
    → IsSmall page_size w
    → o + length ws ≤ p
    → p < o + n
    → Slots page_size n buffer o ws
    → Slots page_size n (store_write (byte_of page_size n p) w buffer) o ws
Slots-store page_size n buffer o p w [] pos small lo hi h = tt
Slots-store page_size n buffer o p w (v ∷ ws) pos small lo hi ((k, fit), h) =
    let far =
      apart (p % n) (o % n) (slot_size page_size)
        (λ e. mod-ne o p n pos (omega arith) hi (sym e)) in
    (
      (
        store-IsAt_apart page_size (byte_of page_size n p) w buffer (byte_of page_size n o) v small
            fit far k,
        fit,
      ),
      Slots-store page_size n buffer (suc o) p w ws pos small (omega arith) (omega arith) h,
    )
