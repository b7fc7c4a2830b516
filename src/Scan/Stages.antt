-- ===== src/Scan/Stages.antt =====
-- The stages of a scan and of a full replication, for one block on sound devices.
use bdr.Common.{
  ℕ, zero, suc, ◌+◌, ◌^◌, ◌≤◌, ◌<◌, ◌≡◌, refl, ap, arith, List, [], ◌∷◌, length, slice, drop,
  overlay, All, u32, false, not, ◌==◌, if◌then◌else◌, length-slice, some, Option, map, replicate,
}
use bdr.Device.{Disk, sound, read_at, full, eof}
use bdr.Scan.{
  hash_task, ResultItem, check_hash, CheckResult, correct, equal, replicate_block, item_size,
  collect, info_of,
}
use bdr.Scan.Plan.{block_of, length-block_of, take-length-take}
use native.Mathlib.Decide.{dec_le}

read_at-full :
    (n off : ℕ) (c : List ℕ)
    → off + n ≤ length c
    → length c < 2 ^ 63
    → read_at n off (sound c) ≡ ((slice off n c, full), sound c)
unfolding read_at
read_at-full zero off c h small = ground arith
read_at-full (suc n) off c h small = ground (arith, length-slice off (suc n) c)

read_at-eof :
    (n off : ℕ) (c : List ℕ)
    → off < length c
    → length c < off + n
    → length c < 2 ^ 63
    → read_at n off (sound c) ≡ ((slice off n c, eof), sound c)
unfolding read_at
read_at-eof n off c lo hi small = ground (arith, length-block_of c n off)

-- The server's result for a block of the replica.
abbrev pub result_of : (List ℕ → ℕ) → List ℕ → ℕ → ℕ → ResultItem
result_of hash t step o = record {
  offset = o;
  size = length (slice o step t);
  hash = hash (slice o step t);
  failed = false;
}

not_empty : (n : ℕ) → 0 < n → (n == 0) ≡ false
not_empty n h = ground arith

pub hash_task-sound :
    (hash : List ℕ → ℕ) (step o : ℕ) (t : List ℕ)
    → o < length t
    → length t < 2 ^ 63
    → 0 < step
    → step < 2 ^ 32
    → hash_task hash step o (sound t) ≡ (some (result_of hash t step o), sound t)
unfolding hash_task
hash_task-sound hash step o t h small pos word =
    let len = length-block_of t step o in
    let n : u32 (length (slice o step t)) ≡ length (slice o step t) = omega (arith, len) in
    let e = not_empty (length (slice o step t)) (omega (arith, len)) in
    elim (dec_le (o + step) (length t)) [
      | yes fits ↦ rw (read_at-full step o t fits small) (rw (e, n) refl)
      | no cut ↦ rw (read_at-eof step o t h (omega arith) small) (rw (e, n) refl)
    ]

overlay-all : (bs : List ℕ) (k : ℕ) → length bs ≡ k → overlay (replicate k 0) 0 bs ≡ bs
overlay-all [] zero e = refl
overlay-all [] (suc k) e = absurd (omega arith)
overlay-all (b ∷ bs) zero e = absurd (omega arith)
overlay-all (b ∷ bs) (suc k) e = ap (◌∷◌ b) (overlay-all bs k (omega arith))

-- A read of as many bytes as the block has gives the block.
read_block :
    (src : List ℕ) (step o n : ℕ)
    → o < length src
    → length src < 2 ^ 63
    → length (slice o step src) ≡ n
    → read_at n o (sound src) ≡ ((slice o step src, full), sound src)
read_block src step o n h small e =
    let s : slice o n src ≡ slice o step src = rw e at (take-length-take step (drop o src)) in
    rw s at (read_at-full n o src (omega (arith, length-block_of src step o)) small)

abbrev pub verdict : (List ℕ → ℕ) → List ℕ → List ℕ → ℕ → ℕ → CheckResult
verdict hash src t step o =
    if not (hash (slice o step src) == hash (slice o step t))
    then correct (block_of src step o)
    else equal

pub check_hash-sound :
    (hash : List ℕ → ℕ) (step o : ℕ) (src t : List ℕ)
    → length t ≡ length src
    → o < length src
    → length src < 2 ^ 63
    → check_hash hash (info_of (result_of hash t step o)) (sound src)
      ≡ (verdict hash src t step o, sound src)
unfolding check_hash
check_hash-sound hash step o src t e h small =
    let len : length (slice o step src) ≡ length (slice o step t) =
      omega (arith, length-block_of src step o, length-block_of t step o) in
    rw (read_block src step o (length (slice o step t)) h small len)
      (rw (overlay-all (slice o step src) (length (slice o step t)) len, ← len) refl)

pub replicate_block-sound :
    (step o : ℕ) (src : List ℕ)
    → o < length src
    → length src < 2 ^ 63
    → step < 2 ^ 32
    → replicate_block step (length src) o (sound src) ≡ (some (block_of src step o), sound src)
unfolding replicate_block
replicate_block-sound step o src h small word =
    let size : item_size step (length src) o ≡ length (slice o step src) =
      ground (arith, length-block_of src step o) in
    rw (size, read_block src step o (length (slice o step src)) h small refl)
      (rw (overlay-all (slice o step src) (length (slice o step src)) refl) refl)

-- A stage whose items all succeed.
pub collect_sound {ℓ} :
    {A : Type ℓ} (task : ℕ → Disk → Option A × Disk) (f : ℕ → A) (d : Disk) (P : ℕ → Type 0)
    → ((o : ℕ) → P o → task o d ≡ (some (f o), d))
    → (os : List ℕ) → All P os
    → collect task os d ≡ (map f os, d)
unfolding collect
collect_sound task f d P ok [] h = refl
collect_sound task f d P ok (o ∷ os) (h, hs) = rw (ok o h, collect_sound task f d P ok os hs) refl
