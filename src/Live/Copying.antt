-- ===== src/Live/Copying.antt =====
-- `HandleCorrectPackets` and `HandleReplicationPackets` of user/server/server.go, given the blocks
-- that the client sends.
use bdr.Common.{
  ℕ, ◌^◌, ◌<◌, ◌≡◌, refl, ◌∙◌, ap, List, [], ◌∷◌, map, length, ok, All, length-overlay, overlay,
}
use bdr.Device.{sync}
use bdr.Device.Faults.{write_at-sound}
use bdr.Device.Overlays.{apply_all}
use bdr.Networking.{Extent}
use bdr.Server.{Server}
use bdr.Replica.Copies.{InRange, with_target}
use bdr.Scan.{correct_block_packet, replication_packet}
use bdr.Scan.Blocks.{IsTrue}
use bdr.Scan.Order.{All-Perm}
use bdr.Scan.Complete.{
  NoCollision, scan, scan-IsTrue, scan_complete, replication, replication-IsTrue,
  replication_complete,
}
use bdr.Live.{handle_correct_packets, handle_replication_packets, replication_rounds}
use mathlib.Core.List.{Perm}
use native.Mathlib.Bridge.{le_prop}

handle_correct_packets_sound :
    (xs : List Extent) (s : Server) (t : List ℕ)
    → All (InRange (length t)) xs
    → length t < 2 ^ 63
    → handle_correct_packets (map correct_block_packet xs) (with_target s t)
      ≡ (ok tt, with_target s (apply_all t xs))
unfolding handle_correct_packets apply_all
handle_correct_packets_sound [] s t fits small = refl
handle_correct_packets_sound (x ∷ xs) s t (fit, fits) small =
    let n = length-overlay t x.offset x.bytes in
    rw (write_at-sound x.bytes x.offset t fit small)
      (handle_correct_packets_sound xs s (overlay t x.offset x.bytes) (rw n fits) (rw n small))

replication_rounds_sound :
    (xs : List Extent) (s : Server) (t : List ℕ)
    → All (InRange (length t)) xs
    → length t < 2 ^ 63
    → replication_rounds (map replication_packet xs) (with_target s t)
      ≡ (ok tt, with_target s (apply_all t xs))
unfolding replication_rounds apply_all
replication_rounds_sound [] s t fits small = refl
replication_rounds_sound (x ∷ xs) s t (fit, fits) small =
    let n = length-overlay t x.offset x.bytes in
    rw (write_at-sound x.bytes x.offset t fit small)
      (replication_rounds_sound xs s (overlay t x.offset x.bytes) (rw n fits) (rw n small))

InRange-IsProp : (n : ℕ) (x : Extent) → IsProp (InRange n x)
InRange-IsProp n x = le_prop

All-InRange :
    (src : List ℕ) (xs : List Extent) → All (IsTrue src) xs → All (InRange (length src)) xs
All-InRange src [] h = tt
All-InRange src (x ∷ xs) ((b, fit), h) = (fit, All-InRange src xs h)

pub delivered-InRange :
    (src t : List ℕ) (xs ys : List Extent)
    → length t ≡ length src
    → All (IsTrue src) xs
    → Perm xs ys
    → All (InRange (length t)) ys
delivered-InRange src t xs ys e h perm = rw e (
    All-Perm (InRange (length src)) xs ys (InRange-IsProp (length src)) perm (All-InRange src xs h))

-- A full scan without a journal: `HandleCorrectPackets`, given the correct blocks that client and
-- server find, in any order, makes the replica a copy of the source. Both disks have one size, work
-- and do not change otherwise, and no two different blocks at one place have the same hash.
pub full_scan :
    (hash : List ℕ → ℕ) (src t : List ℕ) (step : ℕ) (delivered : List Extent) (s : Server)
    → NoCollision hash src t step
    → length t ≡ length src
    → length src < 2 ^ 63
    → 0 < step
    → step < 2 ^ 32
    → Perm (scan hash src t step) delivered
    → handle_correct_packets (map correct_block_packet delivered) (with_target s t)
      ≡ (ok tt, with_target s src)
full_scan hash src t step delivered s inj e small pos word perm =
    let fits =
      delivered-InRange src t (scan hash src t step) delivered e
        (scan-IsTrue hash src t step e small pos word) perm in
    handle_correct_packets_sound delivered s t fits (rw e small)
    ∙ ap (λ c. (ok tt, with_target s c))
        (scan_complete hash src t step delivered inj e small pos word perm)

-- A full replication: `HandleReplicationPackets`, given the blocks that `InitReplication` reads, in
-- any order, makes the replica a copy of the source. Both disks have one size, work and do not
-- change otherwise.
pub full_replication :
    (src t : List ℕ) (step : ℕ) (delivered : List Extent) (s : Server)
    → length t ≡ length src
    → length src < 2 ^ 63
    → 0 < step
    → step < 2 ^ 32
    → Perm (replication src step) delivered
    → handle_replication_packets (map replication_packet delivered) (with_target s t)
      ≡ (ok tt, with_target s src)
unfolding handle_replication_packets sync
full_replication src t step delivered s e small pos word perm =
    let fits =
      delivered-InRange src t (replication src step) delivered e
        (replication-IsTrue src step small word) perm in
    rw
      (
        replication_rounds_sound delivered s t fits (rw e small),
        replication_complete src t step delivered e small pos word perm,
      )
      refl
