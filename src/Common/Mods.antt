-- ===== src/Common/Mods.antt =====
-- Remainders under a modulus that is not a numeral: places in a ring.
use Prim.Native.Nat.{ℕ, suc, ◌+◌, ◌-◌, ◌%◌, ◌≤◌, ◌<◌}
use mathlib.Core.Path.{◌≡◌, sym, ap, ◌∙◌}
use mathlib.Core.Logic.{◌≢◌, ◌⊎◌, inl, inr}
use native.Mathlib.Nat.{mod-add-mod, mod-lt, mod-eq_of_lt, mod-eq-sub-mod}
use native.Mathlib.Omega.{arith}

below_or_above : (a m : ℕ) → (a < m) ⊎ (m ≤ a)
below_or_above a m = grind arith

-- The remainder of a sum of two numbers that are below the modulus.
mod_cases :
    (r d m : ℕ) → r < m → d < m → (((r + d) % m ≡ r + d) × (r + d < m)) ⊎ ((r + d) % m + m ≡ r + d)
mod_cases r d m h k = elim (below_or_above (r + d) m) [
  | inl b ↦ inl (mod-eq_of_lt b, b)
  | inr b ↦
      let e : (r + d) % m ≡ r + d - m = mod-eq-sub-mod b ∙ mod-eq_of_lt (omega arith) in
      inr (omega (arith, e))
]

-- Numbers that are less than the modulus apart have different remainders.
pub mod-ne : (a b m : ℕ) → 0 < m → a < b → b < a + m → a % m ≢ b % m
mod-ne a b m pos lo hi e =
    let d = b - a in
    let same : b % m ≡ (a % m + d) % m = ap (λ j. j % m) (omega arith) ∙ sym (mod-add-mod a m d) in
    elim (mod_cases (a % m) d m (mod-lt a pos) (omega arith)) [
      | inl (f, h) ↦ omega (arith, f, same, e)
      | inr f ↦ omega (arith, f, same, e)
    ]

pub mod_suc : (o p m : ℕ) → o % m ≡ p % m → suc o % m ≡ suc p % m
mod_suc o p m e =
    ap (λ j. j % m) (omega arith)
    ∙ sym (mod-add-mod o m 1)
    ∙ ap (λ j. (j + 1) % m) e
    ∙ mod-add-mod p m 1
    ∙ ap (λ j. j % m) (omega arith)
