-- ===== src/Device/Faults.antt =====
-- What a call does on a device that shows no fault, in range.
use bdr.Common.{ℕ, zero, suc, ◌+◌, ◌^◌, ◌≤◌, ◌<◌, ◌≡◌, refl, arith, List, [], ◌∷◌, length}
use bdr.Common.{
  slice, overlay, ok, err, device, length-slice, overlay-nil, take, take-length, ◌⊎◌, inl, inr, ap,
  sym, none, some, leb, ◌==◌, Bool-cases, Outcome, Option, dropped, if◌then◌else◌, false,
}
use bdr.Device.{Disk, sound, write_at, write_device, next_fault, read_full, sync}

pub write_at-sound :
    (bs : List ℕ) (off : ℕ) (c : List ℕ)
    → off + length bs ≤ length c
    → length c < 2 ^ 63
    → write_at bs off (sound c) ≡ (ok tt, sound (overlay c off bs))
unfolding write_at
write_at-sound [] off c h small = ground (arith, overlay-nil c off)
write_at-sound (b ∷ bs) off c h small = ground arith

pub read_full-sound :
    (n off : ℕ) (c : List ℕ)
    → off + n ≤ length c
    → length c < 2 ^ 63
    → read_full n off (sound c) ≡ (ok (slice off n c), sound c)
unfolding read_full
read_full-sound zero off c h small = ground arith
read_full-sound (suc n) off c h small = ground (arith, length-slice off (suc n) c)

pub sync-sound : (c : List ℕ) → sync (sound c) ≡ (ok tt, sound c)
unfolding sync
sync-sound c = refl

-- A write of `bs` over `c` succeeded and is whole, or failed and is a first part of it.
abbrev pub Wrote : List ℕ → List ℕ → ℕ → Outcome (Unit {0}) × Disk → Type 0
Wrote c bs off r =
    ((r.0 ≡ ok tt) × (r.1.content ≡ overlay c off bs))
    ⊎ ((n : ℕ) × (r.0 ≡ err device) × (r.1.content ≡ overlay c off (take n bs)))

write_device-Wrote :
    (f : Option ℕ) (bs : List ℕ) (off : ℕ) (d : Disk)
    → Wrote d.content bs off (write_device f bs off d)
write_device-Wrote none bs off d = elim (Bool-cases (leb (off + length bs) (length d.content))) [
  | inl e ↦ rw e (inl (refl, refl))
  | inr e ↦ rw e (inr (length bs, refl, ap (overlay d.content off) (sym (take-length bs))))
]
write_device-Wrote (some n) bs off d = inr (n, refl, refl)

suc_not_zero : (n : ℕ) → (suc n == 0) ≡ false
suc_not_zero n = ground arith

-- So it goes on every plan of faults.
pub write_at-Wrote : (bs : List ℕ) (off : ℕ) (d : Disk) → Wrote d.content bs off (write_at bs off d)
unfolding write_at
write_at-Wrote bs off d = elim (Bool-cases (leb (2 ^ 63) off)) [
  | inl e ↦ rw e (inr (0, refl, sym (overlay-nil d.content off)))
  | inr e ↦ rw e (nonempty bs)
]
  where
    nonempty :
        (bs : List ℕ)
        → Wrote d.content bs off
            (if length bs == 0 then (ok tt, d) else write_device (next_fault d.plan) bs off d)
    nonempty [] = inl (refl, sym (overlay-nil d.content off))
    nonempty (b ∷ bs) =
        rw (suc_not_zero (length bs)) (write_device-Wrote (next_fault d.plan) (b ∷ bs) off d)

-- A `Sync` whose error is dropped goes on, whatever happens, with the same contents.
pub ignore_sync : (d : Disk) → dropped (sync d).0 ≡ ok tt
unfolding sync
ignore_sync d = ground arith

pub content-sync : (d : Disk) → (sync d).1.content ≡ d.content
unfolding sync
content-sync d = refl
