-- ===== src/Device.antt =====
-- An `*os.File` open on a block device: `ReadAt`, `WriteAt` and `Sync`, which the Go standard
-- library gives, with the faults that a device may show.
use bdr.Common.{ℕ, ◌+◌, ◌^◌, Bool, true, false, if◌then◌else◌, ltb, leb, ◌==◌}
use bdr.Common.{List, [], ◌∷◌, Option, none, some, length, take, drop, slice, overlay}
use bdr.Common.{M, Outcome, ok, err, Error, device}
pub mod Faults
pub mod Overlays

-- The contents have a fixed length. `plan` says how each call that reaches the device goes, in
-- order: `none` is a success, `some n` a failure behind the first `n` bytes. With the plan used
-- up all calls succeed. What a successful call wrote is kept; a volatile cache is not modelled.
pub record Disk : Type 0 where
  pub content : List ℕ
  pub plan : List (Option ℕ)

-- A device whose calls succeed wherever they stay in range.
abbrev pub sound : List ℕ → Disk
sound bs = record { content = bs; plan = [] }

abbrev pub next_fault : List (Option ℕ) → Option ℕ
next_fault [] = none
next_fault (f ∷ fs) = f

abbrev pub later_plan : List (Option ℕ) → List (Option ℕ)
later_plan [] = []
later_plan (f ∷ fs) = fs

-- `WriteAt(bs, int64(off))` at an offset below 2 ^ 63: a write past the end is cut there and fails.
abbrev pub write_device : Option ℕ → List ℕ → ℕ → Disk → Outcome (Unit {0}) × Disk
write_device none bs off d = (
  if leb (off + length bs) (length d.content) then ok tt else err device,
  record { content = overlay d.content off bs; plan = later_plan d.plan },
)
write_device (some n) bs off d =
    (err device, record { content = overlay d.content off (take n bs); plan = later_plan d.plan })

-- `int64(off)` is negative from 2 ^ 63 on, which `WriteAt` refuses; no bytes make no call.
unfoldable pub write_at : List ℕ → ℕ → M Disk (Unit {0})
write_at bs off d =
    if leb (2 ^ 63) off
    then (err device, d)
    else if length bs == 0
    then (ok tt, d)
    else write_device (next_fault d.plan) bs off d

-- How `ReadAt` ends: all bytes, `io.EOF` behind fewer, or another error.
pub data ReadEnd : Type 0 where
  full eof failed : ReadEnd

abbrev pub read_device : Option ℕ → ℕ → ℕ → Disk → (List ℕ × ReadEnd) × Disk
read_device none n off d =
    let bs = slice off n d.content in
    ((bs, if length bs == n then full else eof), record d { plan = later_plan d.plan })
read_device (some k) n off d = (
  (slice off (if ltb k n then k else n) d.content, failed),
  record d { plan = later_plan d.plan },
)

unfoldable pub read_at : ℕ → ℕ → Disk → (List ℕ × ReadEnd) × Disk
read_at n off d =
    if leb (2 ^ 63) off
    then (([], failed), d)
    else if n == 0
    then (([], full), d)
    else read_device (next_fault d.plan) n off d

abbrev pub read_outcome : List ℕ → ReadEnd → Outcome (List ℕ)
read_outcome bs full = ok bs
read_outcome bs eof = err device
read_outcome bs failed = err device

-- `ReadAt` where any error, `io.EOF` too, is an error to the caller.
unfoldable pub read_full : ℕ → ℕ → M Disk (List ℕ)
unfolding read_at
read_full n off d = let (r, d') = read_at n off d in (read_outcome r.0 r.1, d')

abbrev pub sync_outcome : Option ℕ → Outcome (Unit {0})
sync_outcome none = ok tt
sync_outcome (some n) = err device

unfoldable pub sync : M Disk (Unit {0})
sync d = (sync_outcome (next_fault d.plan), record d { plan = later_plan d.plan })

-- `os.OpenFile` of the device's path, and `utils.GetDeviceSize`, which asks the kernel: either may
-- fail, and neither changes the contents.
unfoldable pub open_file : M Disk (Unit {0})
unfolding sync
open_file d = sync d

abbrev pub size_outcome : Option ℕ → ℕ → Outcome ℕ
size_outcome none n = ok n
size_outcome (some k) n = err device

unfoldable pub get_device_size : M Disk ℕ
get_device_size d =
    (size_outcome (next_fault d.plan) (length d.content), record d { plan = later_plan d.plan })
