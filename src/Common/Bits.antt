-- ===== src/Common/Bits.antt =====
-- The lowest binary digit under `&` and `|`, at variables.
use Prim.Native.Nat.{ℕ, zero, suc, ◌+◌, ◌*◌, ◌/◌, ◌%◌, ◌^◌, ◌≤◌, ◌<◌, min, max, bit_and, bit_or}
use Prim.Native.Nat.{digits, bit_and-bitwise, bit_or-bitwise}
use mathlib.Core.Path.{◌≡◌, refl, sym}
use native.Mathlib.Omega.{arith}

-- The digit recursions that `bit_and` and `bit_or` stand for; `n` counts digits to go.
abbrev ands : ℕ → ℕ → ℕ → ℕ
ands = digits (λ b. zero) min

abbrev ors : ℕ → ℕ → ℕ → ℕ
ors = digits (λ b. b) max

ands-le : (n a b : ℕ) → ands n a b ≤ a
ands-le zero a b = omega arith
ands-le (suc n) zero b = omega arith
ands-le (suc n) (suc a) b = omega (arith, ands-le n (suc a / 2) (b / 2))

ands-zero : (n a : ℕ) → ands n a 0 ≡ 0
ands-zero zero a = refl
ands-zero (suc n) zero = refl
ands-zero (suc n) (suc a) = omega (arith, ands-zero n (suc a / 2))

ors-zero : (n a : ℕ) → a ≤ n → ors n a 0 ≡ a
ors-zero zero a h = omega arith
ors-zero (suc n) zero h = refl
ors-zero (suc n) (suc a) h = omega (arith, ors-zero n (suc a / 2) (omega arith))

pub bit_and-le : (a b : ℕ) → bit_and a b ≤ a
bit_and-le a b = omega (arith, bit_and-bitwise a b, ands-le a a b)

pub bit_and-one : (a : ℕ) → bit_and a 1 ≡ a % 2
bit_and-one zero = refl
bit_and-one (suc a) = omega (arith, bit_and-bitwise (suc a) 1, ands-zero a (suc a / 2))

pub bit_and-even : (a b : ℕ) → b % 2 ≡ 0 → bit_and a b % 2 ≡ 0
bit_and-even zero b h = omega (arith, bit_and-le 0 b)
bit_and-even (suc a) b h = omega (arith, bit_and-bitwise (suc a) b)

pub bit_or-one : (a : ℕ) → bit_or a 1 ≡ a / 2 * 2 + 1
bit_or-one zero = refl
bit_or-one (suc a) = omega (arith, bit_or-bitwise (suc a) 1, ors-zero a (suc a / 2) (omega arith))

-- Digits to go beyond those of the first number change nothing.
ors_spare : (a b n m : ℕ) → a ≤ n → a ≤ m → ors n a b ≡ ors m a b
ors_spare zero b zero zero h k = refl
ors_spare zero b zero (suc m) h k = refl
ors_spare zero b (suc n) zero h k = refl
ors_spare zero b (suc n) (suc m) h k = refl
ors_spare (suc a) b zero m h k = absurd (omega arith)
ors_spare (suc a) b (suc n) zero h k = absurd (omega arith)
ors_spare (suc a) b (suc n) (suc m) h k =
    omega (arith, ors_spare (suc a / 2) (b / 2) n m (omega arith) (omega arith))

pub zero-bit_or : (b : ℕ) → bit_or 0 b ≡ b
zero-bit_or b = bit_or-bitwise 0 b

pub bit_or-zero : (a : ℕ) → bit_or a 0 ≡ a
bit_or-zero a = omega (arith, bit_or-bitwise a 0, ors-zero a a (omega arith))

bit_or_step : (a b : ℕ) → bit_or a b ≡ bit_or (a / 2) (b / 2) * 2 + max (a % 2) (b % 2)
bit_or_step zero b = omega (arith, zero-bit_or b, zero-bit_or (b / 2))
bit_or_step (suc a) b = omega (
  arith,
  bit_or-bitwise (suc a) b,
  bit_or-bitwise (suc a / 2) (b / 2),
  ors_spare (suc a / 2) (b / 2) a (suc a / 2) (omega arith) (omega arith),
)

doubled : (x k : ℕ) → x * 2 ^ suc k ≡ 2 * (x * 2 ^ k)
doubled x k = grind arith

-- The bits below the `k`-th and the others are combined apart.
pub bit_or_split :
    (k x y a b : ℕ)
    → a < 2 ^ k
    → b < 2 ^ k
    → bit_or (x * 2 ^ k + a) (y * 2 ^ k + b) ≡ bit_or x y * 2 ^ k + bit_or a b
bit_or_split zero x y a b p q =
    let ea : a ≡ 0 = omega arith in
    let eb : b ≡ 0 = omega arith in
    rw (ea, eb)
      (let ex : x * 1 + 0 ≡ x = omega arith in
        let ey : y * 1 + 0 ≡ y = omega arith in rw (ex, ey) (omega (arith, zero-bit_or 0)))
bit_or_split (suc k) x y a b p q =
    let dx = doubled x k in
    let dy = doubled y k in
    let hx : (x * 2 ^ suc k + a) / 2 ≡ x * 2 ^ k + a / 2 = omega (arith, dx) in
    let hy : (y * 2 ^ suc k + b) / 2 ≡ y * 2 ^ k + b / 2 = omega (arith, dy) in
    let sum = bit_or_step (x * 2 ^ suc k + a) (y * 2 ^ suc k + b) in
    let sum' = rw (hx, hy) at sum in
    omega (
      arith,
      sum',
      dx,
      dy,
      doubled (bit_or x y) k,
      doubled 1 k,
      bit_or_step a b,
      bit_or_split k x y (a / 2) (b / 2) (omega (arith, doubled 1 k)) (omega (arith, doubled 1 k)),
    )

-- A number without bits below the `k`-th, and one with no others.
pub bit_or_low : (k x m lo : ℕ) → m ≡ x * 2 ^ k → lo < 2 ^ k → bit_or m lo ≡ m + lo
bit_or_low k x m lo e h =
    let pos : 0 < 2 ^ k = omega (arith, h) in
    let split = bit_or_split k x 0 0 lo pos h in
    let en : x * 2 ^ k + 0 ≡ m = omega (arith, e) in
    let el : 0 * 2 ^ k + lo ≡ lo = omega arith in
    let split' = rw (en, el, bit_or-zero x, zero-bit_or lo) at split in omega (arith, split', e)

-- The bits from the `k`-th on are put over a number that has some there, and some below.
pub bit_or_high :
    (k x y m n lo : ℕ)
    → m ≡ x * 2 ^ k + lo
    → n ≡ y * 2 ^ k
    → lo < 2 ^ k
    → bit_or m n ≡ bit_or x y * 2 ^ k + lo
bit_or_high k x y m n lo e f h =
    let pos : 0 < 2 ^ k = omega (arith, h) in
    let split = bit_or_split k x y lo 0 h pos in
    let en : y * 2 ^ k + 0 ≡ n = omega (arith, f) in
    let split' = rw (sym e, en, bit_or-zero lo) at split in split'
