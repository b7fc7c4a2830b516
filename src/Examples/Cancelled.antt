-- ===== src/Examples/Cancelled.antt =====
-- The theorem on a cancelled scan, at disks of a few bytes.
use bdr.Common.{ℕ, ◌≡◌, refl, arith, true, false, List, [], ◌∷◌, ◌++◌, map, ok, ◌>>◌}
use bdr.Device.{sound}
use bdr.Networking.{PacketType, create_info_packet}
use bdr.Header.{set_invalid_flag}
use bdr.Journal.Contents.{Contains}
use bdr.Journal.Reset.{journal_at}
use bdr.Replica.Recovery.{server_at}
use bdr.Replica.Intake.{block, packet_of}
use bdr.Scan.{ResultItem}
use bdr.Session.{hash_disk, begin_hash_disk, dispatch}
use bdr.Session.Feed.{hashing_at}
use bdr.Session.Finish.{Finished}
use bdr.Session.Start.{begun, begin_hash_disk-Contains, dispatch_all}
use bdr.Session.Cancelled.{all_packets, cancelled_scan-drops}
use bdr.Examples.{
  header, empty, empty-Contains, half, half-Contains, replica, first_block, first_write,
}
use bdr.Examples.Scans.{stale}
use bdr.Examples.Sessions.{idle, hashing_server, differing_block}

-- A scan of a journal with entries begins, and is cancelled behind two results.
begun_half :
    (c : List ℕ) × (begin_hash_disk
        (server_at hashing_server (sound replica) (journal_at header half 128 1 1))
      ≡ (ok tt, begun hashing_server (sound replica) (set_invalid_flag header) c 128))
    × Contains (set_invalid_flag header) c [] []
begun_half =
    begin_hash_disk-Contains hashing_server (sound replica) header half 128 (first_block ∷ [])
      (first_write ∷ []) half-Contains refl refl

abbrev results : List ResultItem
results =
    record { offset = 0; size = 2; hash = 7; failed = false }
    ∷ record { offset = 2; size = 0; hash = 0; failed = true }
    ∷ []

cancelled_example :
    let s1 = begun hashing_server (sound replica) (set_invalid_flag header) begun_half.0 128 in
    (hash_disk true results
        (server_at hashing_server (sound replica) (journal_at header half 128 1 1))
      ≡ (
        ok tt,
        record s1 {
          sent =
              s1.sent
              ++ (all_packets results ++ create_info_packet PacketType.info_hashing_completed ∷ []);
        },
      ))
    × Finished stale (
        (dispatch (create_info_packet PacketType.info_hashing_completed)
            >> dispatch_all (map (λ x. packet_of (block x)) (differing_block ∷ [])))
          (hashing_at idle hashing_server (sound stale) header 128 empty [] [] []))
cancelled_example =
    cancelled_scan-drops true results
      (server_at hashing_server (sound replica) (journal_at header half 128 1 1))
      (begun hashing_server (sound replica) (set_invalid_flag header) begun_half.0 128) idle
      hashing_server stale header 128 empty (differing_block ∷ []) begun_half.1 refl refl
      empty-Contains refl (omega arith)
