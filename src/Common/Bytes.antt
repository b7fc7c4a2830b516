-- ===== src/Common/Bytes.antt =====
-- Big-endian words of encoding/binary, and the fixed widths.
use Prim.Native.Nat.{ℕ, zero, suc, ◌+◌, ◌*◌, ◌/◌, ◌%◌, ◌^◌, ◌<◌}
use mathlib.Core.Path.{◌≡◌}
use mathlib.Core.List.{List, [], ◌∷◌}
use native.Mathlib.Omega.{arith}

abbrev pub u64 : ℕ → ℕ
u64 n = n % 2 ^ 64

abbrev pub u32 : ℕ → ℕ
u32 n = n % 2 ^ 32

-- The `k` low bytes of `n`, highest first: `binary.BigEndian.PutUint64` is `be 8`.
abbrev pub be : ℕ → ℕ → List ℕ
be zero n = []
be (suc k) n = (n / 256 ^ k % 256) ∷ be k n

-- `binary.BigEndian.Uint64` on a slice of eight bytes.
abbrev pub from_be : ℕ → List ℕ → ℕ
from_be acc [] = acc
from_be acc (b ∷ bs) = from_be (acc * 256 + b) bs

pub from_be-be_u64 : (n : ℕ) → n < 2 ^ 64 → from_be 0 (be 8 n) ≡ n
from_be-be_u64 n h = omega arith

pub from_be-be_u32 : (n : ℕ) → n < 2 ^ 32 → from_be 0 (be 4 n) ≡ n
from_be-be_u32 n h = omega arith

-- Little-endian words: `binary.LittleEndian`, and what the kernel stores on such a machine.
abbrev pub le : ℕ → ℕ → List ℕ
le zero n = []
le (suc k) n = (n % 256) ∷ le k (n / 256)

abbrev pub from_le : List ℕ → ℕ
from_le [] = 0
from_le (b ∷ bs) = b + 256 * from_le bs

pub from_le-le_u32 : (n : ℕ) → n < 2 ^ 32 → from_le (le 4 n) ≡ n
from_le-le_u32 n h = omega arith
