-- ===== src/Scan/Plan.antt =====
-- The offsets of a scan cut a disk into blocks that leave no place out.
use bdr.Common.{
  ℕ, zero, suc, ◌+◌, ◌-◌, ◌*◌, ◌^◌, ◌≤◌, ◌<◌, ◌≡◌, refl, sym, ap, arith, List, [], ◌∷◌, length,
  slice, take, drop, All, inl, inr, u64, ltb, lt→ltb, Bool-cases, ltb→lt, min, length-take,
  length-drop, map,
}
use bdr.Networking.{Extent}
use bdr.Scan.{offsets, enough}
use bdr.Scan.Blocks.{IsCovered, IsTrue}
use native.Mathlib.Nat.{div-add-mod, mod-lt}
use native.Mathlib.Decide.{dec_lt}

-- The source's block at an offset.
abbrev pub block_of : List ℕ → ℕ → ℕ → Extent
block_of src step o = record {
  offset = o;
  size = length (slice o step src);
  bytes = slice o step src;
}

pub take-length-take : (n : ℕ) (xs : List ℕ) → take (length (take n xs)) xs ≡ take n xs
take-length-take zero xs = refl
take-length-take (suc n) [] = refl
take-length-take (suc n) (x ∷ xs) = ap (◌∷◌ x) (take-length-take n xs)

pub length-block_of :
    (src : List ℕ) (step o : ℕ) → length (slice o step src) ≡ min step (length src - o)
length-block_of src step o = omega (arith, length-take step (drop o src), length-drop o src)

pub block_of-IsTrue :
    (src : List ℕ) (step o : ℕ) → o < length src → IsTrue src (block_of src step o)
block_of-IsTrue src step o h =
    (sym (take-length-take step (drop o src)), omega (arith, length-block_of src step o))

-- All offsets lie on the disk.
pub offsets-below : (fuel off total step : ℕ) → All (λ o. o < total) (offsets fuel off total step)
unfolding offsets
offsets-below zero off total step = tt
offsets-below (suc fuel) off total step = elim (Bool-cases (ltb off total)) [
  | inl e ↦ rw e (ltb→lt off total e, offsets-below fuel (u64 (off + step)) total step)
  | inr e ↦ rw e tt
]

pub offsets-cover :
    (fuel off step : ℕ) (src : List ℕ) (p : ℕ)
    → length src < 2 ^ 64
    → 0 < step
    → length src < off + fuel * step
    → off ≤ p
    → p < length src
    → IsCovered p (map (block_of src step) (offsets fuel off (length src) step))
unfolding offsets
offsets-cover zero off step src p small pos fuel lo hi = absurd (omega arith)
offsets-cover (suc fuel) off step src p small pos enough lo hi =
    rw (lt→ltb off (length src) (omega arith)) (elim (dec_lt p (off + step)) [
      | yes h ↦ inl (lo, omega (arith, length-block_of src step off))
      | no h ↦
          let e : u64 (off + step) ≡ off + step = omega arith in
          inr (
            rw e
              (offsets-cover fuel (off + step) step src p small pos (omega arith) (omega arith) hi))
    ])

-- The fuel of `enough` reaches the end.
pub enough_fuel : (total step : ℕ) → 0 < step → total < 0 + enough total step * step
enough_fuel total step h = omega (arith, div-add-mod total step, mod-lt total h)
