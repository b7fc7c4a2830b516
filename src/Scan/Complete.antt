-- ===== src/Scan/Complete.antt =====
-- All blocks of a full replication, and of a full scan, of user/server/server.go and
-- user/client/client.go.
use bdr.Common.{
  ℕ, ◌^◌, ◌<◌, ◌≡◌, refl, sym, ◌∙◌, ap, arith, List, [], ◌∷◌, length, get_elem?, slice, All, inl,
  inr, ◌⊎◌, Bool-cases, true, ◌==◌, map,
}
use bdr.Device.{sound}
use bdr.Networking.{Extent}
use bdr.Device.Overlays.{apply_all}
use bdr.Scan.{
  offsets, enough, hash_task, ResultItem, correct_of, replicate_block, collect, cons_some,
  corrections, info_of,
}
use bdr.Scan.Blocks.{IsCovered, IsTrue, get_elem?_of_slice}
use bdr.Scan.Plan.{
  block_of, length-block_of, block_of-IsTrue, offsets-below, offsets-cover, enough_fuel,
}
use bdr.Scan.Order.{apply_all-perm}
use bdr.Scan.Stages.{
  result_of, verdict, hash_task-sound, check_hash-sound, replicate_block-sound, collect_sound,
}
use mathlib.Core.List.{Perm}

blocks-IsTrue :
    (src : List ℕ) (step : ℕ) (os : List ℕ)
    → All (λ o. o < length src) os
    → All (IsTrue src) (map (block_of src step) os)
blocks-IsTrue src step [] h = tt
blocks-IsTrue src step (o ∷ os) (h, hs) =
    (block_of-IsTrue src step o h, blocks-IsTrue src step os hs)

-- The whole disk, cut by `step`.
abbrev pub all_offsets : ℕ → ℕ → List ℕ
all_offsets total step = offsets (enough total step) 0 total step

-- The blocks that the client reads from a source for a full replication.
abbrev pub replication : List ℕ → ℕ → List Extent
replication src step =
    (collect (replicate_block step (length src)) (all_offsets (length src) step) (sound src)).0

replication-block_of :
    (src : List ℕ) (step : ℕ)
    → length src < 2 ^ 63
    → step < 2 ^ 32
    → replication src step ≡ map (block_of src step) (all_offsets (length src) step)
replication-block_of src step small word =
    let below = offsets-below (enough (length src) step) 0 (length src) step in
    ap (λ r. r.0)
      (collect_sound (replicate_block step (length src)) (block_of src step) (sound src)
        (λ o. o < length src) (λ o h. replicate_block-sound step o src h small word)
        (all_offsets (length src) step) below)

pub replication-IsTrue :
    (src : List ℕ) (step : ℕ)
    → length src < 2 ^ 63
    → step < 2 ^ 32
    → All (IsTrue src) (replication src step)
replication-IsTrue src step small word = rw (replication-block_of src step small word) (
    blocks-IsTrue src step (all_offsets (length src) step)
      (offsets-below (enough (length src) step) 0 (length src) step))

-- `InitReplication` and `HandleReplicationPackets`: the blocks that the client reads from the source,
-- written to a replica of the same size in whatever order the goroutines deliver them, make the
-- replica equal to the source. The source can be read and does not change meanwhile, and a block is
-- shorter than 2 ^ 32 bytes.
pub replication_complete :
    (src t : List ℕ) (step : ℕ) (delivered : List Extent)
    → length t ≡ length src
    → length src < 2 ^ 63
    → 0 < step
    → step < 2 ^ 32
    → Perm (replication src step) delivered
    → apply_all t delivered ≡ src
replication_complete src t step delivered e small pos word perm =
    let os = all_offsets (length src) step in
    let below = offsets-below (enough (length src) step) 0 (length src) step in
    apply_all-perm src t (map (block_of src step) os) delivered e (blocks-IsTrue src step os below)
      (λ p h. inr (
        offsets-cover (enough (length src) step) 0 step src p (omega arith) pos
          (enough_fuel (length src) step pos) (omega arith) h))
      (rw (replication-block_of src step small word) at perm)

-- The blocks whose hashes differ.
differing : (List ℕ → ℕ) → List ℕ → List ℕ → ℕ → List ℕ → List Extent
differing hash src t step [] = []
differing hash src t step (o ∷ os) =
    cons_some (correct_of (verdict hash src t step o)) (differing hash src t step os)

corrections-differing :
    (hash : List ℕ → ℕ) (src t : List ℕ) (step : ℕ) (os : List ℕ)
    → length t ≡ length src
    → length src < 2 ^ 63
    → All (λ o. o < length src) os
    → corrections hash (map info_of (map (result_of hash t step) os)) (sound src)
      ≡ (differing hash src t step os, sound src)
unfolding corrections differing
corrections-differing hash src t step [] e small h = refl
corrections-differing hash src t step (o ∷ os) e small (h, hs) =
    rw
      (
        check_hash-sound hash step o src t e h small,
        corrections-differing hash src t step os e small hs,
      )
      refl

-- A property of every block of the source is one of those that are sent.
differing-All :
    (hash : List ℕ → ℕ) (src t : List ℕ) (step : ℕ) (P : Extent → Type 0) (os : List ℕ)
    → ((o : ℕ) → o < length src → P (block_of src step o))
    → All (λ o. o < length src) os
    → All P (differing hash src t step os)
unfolding differing
differing-All hash src t step P [] every h = tt
differing-All hash src t step P (o ∷ os) every (h, hs) =
    elim (Bool-cases (hash (slice o step src) == hash (slice o step t))) [
      | inl e ↦ rw e (differing-All hash src t step P os every hs)
      | inr e ↦ rw e (every o h, differing-All hash src t step P os every hs)
    ]

-- No two different blocks at one place of the two disks have the same hash.
abbrev pub NoCollision : (List ℕ → ℕ) → List ℕ → List ℕ → ℕ → Type 0
NoCollision hash src t step =
    (o : ℕ) → hash (slice o step src) ≡ hash (slice o step t) → slice o step src ≡ slice o step t

eq_of_test : (a b : ℕ) → (a == b) ≡ true → a ≡ b
eq_of_test a b h = ground arith

differing-IsCovered :
    (hash : List ℕ → ℕ) (src t : List ℕ) (step : ℕ) (os : List ℕ) (p : ℕ)
    → NoCollision hash src t step
    → length t ≡ length src
    → IsCovered p (map (block_of src step) os)
    → (get_elem? t p ≡ get_elem? src p) ⊎ IsCovered p (differing hash src t step os)
unfolding differing
differing-IsCovered hash src t step [] p inj e c = inr c
differing-IsCovered hash src t step (o ∷ os) p inj e (inl (lo, hi)) =
    elim (Bool-cases (hash (slice o step src) == hash (slice o step t))) [
      | inl same ↦
          let b = inj o (eq_of_test _ _ same) in
          inl (
            get_elem?_of_slice t src o step p e (sym b) lo
              (omega (arith, length-block_of src step o)))
      | inr other ↦ rw other (inr (inl (lo, hi)))
    ]
differing-IsCovered hash src t step (o ∷ os) p inj e (inr c) =
    elim (differing-IsCovered hash src t step os p inj e c) [
      | inl same ↦ inl same
      | inr c' ↦ elim (Bool-cases (hash (slice o step src) == hash (slice o step t))) [
        | inl t ↦ rw t (inr c')
        | inr f ↦ rw f (inr (inr c'))
      ]
    ]

-- The server's results for the whole replica, and the blocks that the client sends for their hashes.
abbrev pub results : (List ℕ → ℕ) → List ℕ → ℕ → List ResultItem
results hash t step = (collect (hash_task hash step) (all_offsets (length t) step) (sound t)).0

abbrev pub scan : (List ℕ → ℕ) → List ℕ → List ℕ → ℕ → List Extent
scan hash src t step = (corrections hash (map info_of (results hash t step)) (sound src)).0

pub results-result_of :
    (hash : List ℕ → ℕ) (src t : List ℕ) (step : ℕ)
    → length t ≡ length src
    → length src < 2 ^ 63
    → 0 < step
    → step < 2 ^ 32
    → results hash t step ≡ map (result_of hash t step) (all_offsets (length src) step)
results-result_of hash src t step e small pos word =
    let os = all_offsets (length src) step in
    let below = offsets-below (enough (length src) step) 0 (length src) step in
    ap (λ n. (collect (hash_task hash step) (all_offsets n step) (sound t)).0) e
    ∙ ap (λ r. r.0)
        (collect_sound (hash_task hash step) (result_of hash t step) (sound t) (λ o. o < length src)
          (λ o h. hash_task-sound hash step o t (omega arith) (omega arith) pos word) os below)

scan-differing :
    (hash : List ℕ → ℕ) (src t : List ℕ) (step : ℕ)
    → length t ≡ length src
    → length src < 2 ^ 63
    → 0 < step
    → step < 2 ^ 32
    → scan hash src t step ≡ differing hash src t step (all_offsets (length src) step)
scan-differing hash src t step e small pos word =
    ap (λ rs. (corrections hash (map info_of rs) (sound src)).0)
      (results-result_of hash src t step e small pos word)
    ∙ ap (λ r. r.0)
        (corrections-differing hash src t step (all_offsets (length src) step) e small
          (offsets-below (enough (length src) step) 0 (length src) step))

pub scan-All :
    (hash : List ℕ → ℕ) (src t : List ℕ) (step : ℕ) (P : Extent → Type 0)
    → ((o : ℕ) → o < length src → P (block_of src step o))
    → length t ≡ length src
    → length src < 2 ^ 63
    → 0 < step
    → step < 2 ^ 32
    → All P (scan hash src t step)
scan-All hash src t step P every e small pos word =
    rw (scan-differing hash src t step e small pos word) (
      differing-All hash src t step P (all_offsets (length src) step) every
        (offsets-below (enough (length src) step) 0 (length src) step))

pub scan-IsTrue :
    (hash : List ℕ → ℕ) (src t : List ℕ) (step : ℕ)
    → length t ≡ length src
    → length src < 2 ^ 63
    → 0 < step
    → step < 2 ^ 32
    → All (IsTrue src) (scan hash src t step)
scan-IsTrue hash src t step = scan-All hash src t step (IsTrue src) (block_of-IsTrue src step)

-- `HashDisk` and `InitHashing`: the correct blocks that a scan finds, written to the replica in
-- whatever order they arrive, make it equal to the source, if no two different blocks at one place
-- have the same hash. Both disks have one size, can be read and do not change meanwhile.
pub scan_complete :
    (hash : List ℕ → ℕ) (src t : List ℕ) (step : ℕ) (delivered : List Extent)
    → NoCollision hash src t step
    → length t ≡ length src
    → length src < 2 ^ 63
    → 0 < step
    → step < 2 ^ 32
    → Perm (scan hash src t step) delivered
    → apply_all t delivered ≡ src
scan_complete hash src t step delivered inj e small pos word perm =
    let os = all_offsets (length src) step in
    let below = offsets-below (enough (length src) step) 0 (length src) step in
    apply_all-perm src t (differing hash src t step os) delivered e
      (differing-All hash src t step (IsTrue src) os (block_of-IsTrue src step) below)
      (λ p h. differing-IsCovered hash src t step os p inj e (
        offsets-cover (enough (length src) step) 0 step src p (omega arith) pos
          (enough_fuel (length src) step pos) (omega arith) h))
      (rw (scan-differing hash src t step e small pos word) at perm)
