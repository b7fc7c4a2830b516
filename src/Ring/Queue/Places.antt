-- ===== src/Ring/Queue/Places.antt =====
-- The arithmetic of kern/ring-buffer.c: where the next write goes, and when the ring is full.
use bdr.Common.{
  ℕ, ◌+◌, ◌%◌, ◌^◌, ◌≤◌, ◌<◌, ◌≡◌, ◌≢◌, sym, ap, ◌∙◌, arith, u64, ◌==◌, true, false, mod-ne,
}
use native.Mathlib.Nat.{mod-add-mod, mod-lt, mod-eq_of_lt, add-mod_right}

-- The sum does not wrap in 64 bits, and the remainder may be taken once.
pub place_of : (n o j : ℕ) → 0 < n → n < 2 ^ 63 → j ≤ n → u64 (o % n + j) % n ≡ (o + j) % n
place_of n o j pos small le =
    let b : o % n < n = mod-lt o pos in ap (λ m. m % n) (omega (arith, b)) ∙ mod-add-mod o n j

pub ne→== : (a b : ℕ) → a ≢ b → (a == b) ≡ false
ne→== a b h = ground arith

pub eq→== : (a b : ℕ) → a ≡ b → (a == b) ≡ true
eq→== a b h = ground arith

-- With a slot to spare the next place is not the reader's.
pub at_last_no : (n last k : ℕ) → last < n → 0 < k → k < n → ((last + k) % n == last) ≡ false
at_last_no n last k h pos le = ne→== ((last + k) % n) last (λ e.
    mod-ne last (last + k) n (omega arith) (omega arith) (omega arith) (mod-eq_of_lt h ∙ sym e))

pub at_last_yes : (n last k : ℕ) → last < n → k ≡ n → ((last + k) % n == last) ≡ true
at_last_yes n last k h e =
    eq→== ((last + k) % n) last (ap (λ j. (last + j) % n) e ∙ add-mod_right last n ∙ mod-eq_of_lt h)
