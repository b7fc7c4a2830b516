-- ===== src/Examples/Sessions.antt =====
-- Theorems on whole scans and on the writing goroutine, at replicas of a few bytes.
use bdr.Common.{◌≡◌, refl, arith, true, false, List, [], ◌∷◌, map, some, none, ok, ◌>>◌}
use bdr.Device.{Disk, sound}
use bdr.Device.Overlays.{trimmed, apply_all}
use bdr.Networking.{Extent, PacketType, create_info_packet}
use bdr.Header.{set_invalid_flag}
use bdr.Journal.{layout}
use bdr.Server.{Server, State}
use bdr.Replica.Copies.{with_target}
use bdr.Replica.Intake.{block, write, packet_of}
use bdr.Scan.{correct_block_packet, offsets, collect, hash_task, corrections, check_hash}
use bdr.Scan.Complete.{scan}
use bdr.Live.{handle_write_packets, handle_correct_packets}
use bdr.Live.Retries.{handle_write_packets-Made}
use bdr.Live.Copying.{full_scan}
use bdr.Session.{Session, dispatch}
use bdr.Session.Feed.{Event, receives, takes, entries, feed, hashing_at}
use bdr.Session.Room.{HasRoom}
use bdr.Session.Finish.{Finished, journalled_scan, scan_session}
use bdr.Examples.{
  header, empty, empty-Contains, replica, faulty, server, first_block, first_write, second_write,
  first_block-Fits, first_write-Fits, second_write-Fits,
}
use bdr.Examples.Scans.{source, stale, spelled, spelled-NoCollision}
use mathlib.Core.List.{Perm}
use mathlib.Core.List.Perm as Rearranged

write_packets_example :
    (d' : Disk) × (handle_write_packets 4
        (map (λ x. packet_of (write x)) (first_write ∷ second_write ∷ []))
        (record server { target = faulty })
      ≡ some (ok tt, record server { target = d' }))
    × (d'.content ≡ apply_all replica (map trimmed (first_write ∷ second_write ∷ [])))
write_packets_example =
    handle_write_packets-Made 4 (first_write ∷ second_write ∷ []) server replica
      (none ∷ none ∷ some 1 ∷ []) refl (omega arith)
      ((omega arith, omega arith), ((omega arith, omega arith), tt)) (omega arith)

full_scan_example :
    handle_correct_packets
      (map correct_block_packet (scan spelled source stale 2))
      (with_target server stale)
    ≡ (ok tt, with_target server source)
full_scan_example =
    full_scan spelled source stale 2 (scan spelled source stale 2) server spelled-NoCollision refl
      (omega arith) (omega arith) (omega arith) (Rearranged.refl (scan spelled source stale 2))

-- A session without packets, in the hashing state and in a full scan.
abbrev pub hashing_server : Server
hashing_server = record server { state = State.hashing }

abbrev pub idle : Session
idle = record {
  server = record server { state = State.destroying_replica };
  journal_queue = [];
  journal_worker = false;
  write_queue = [];
  correct_queue = [];
  replication_queue = [];
  replication_worker = false;
  scan_requested = true;
}

abbrev events : List Event
events =
    receives (write first_write)
    ∷ takes
    ∷ receives (block first_block)
    ∷ takes
    ∷ receives (write second_write)
    ∷ []

events-HasRoom : HasRoom header [] [] (entries events)
unfolding set_invalid_flag layout
events-HasRoom = record {
  storable = (
    (first_write-Fits, omega arith, (omega arith, omega arith)),
    (
      (first_block-Fits, omega arith, (omega arith, omega arith)),
      ((second_write-Fits, omega arith, (omega arith, omega arith)), tt),
    ),
  );
  blocks = omega arith;
  writes = omega arith;
}

journalled_scan_example :
    Finished (apply_all replica (first_block ∷ first_write ∷ second_write ∷ [])) (
      (feed events >> dispatch (create_info_packet PacketType.info_hashing_completed))
        (hashing_at idle hashing_server (sound replica) header 128 empty [] [] []))
journalled_scan_example =
    journalled_scan events idle hashing_server replica header 128 empty empty-Contains refl
      events-HasRoom (omega arith, (omega arith, (omega arith, tt))) (omega arith)

-- The block in which `source` and `stale` differ, and a write that follows it.
abbrev pub differing_block : Extent
differing_block = record { offset = 0; size = 2; bytes = 1 ∷ 2 ∷ [] }

pub scan_value : scan spelled source stale 2 ≡ differing_block ∷ []
unfolding offsets collect hash_task corrections check_hash
scan_value = refl

abbrev second_byte : Extent
second_byte = record { offset = 1; size = 1; bytes = 7 ∷ [] }

abbrev scan_events : List Event
scan_events = receives (write second_byte) ∷ receives (block differing_block) ∷ takes ∷ []

scan_events-HasRoom : HasRoom header [] [] (entries scan_events)
unfolding set_invalid_flag layout
scan_events-HasRoom = record {
  storable = (
    (omega arith, omega arith, (omega arith, omega arith)),
    ((omega arith, omega arith, (omega arith, omega arith)), tt),
  );
  blocks = omega arith;
  writes = omega arith;
}

scan_blocks : Perm (scan spelled source stale 2) (differing_block ∷ [])
scan_blocks = rw scan_value (Rearranged.refl (differing_block ∷ []))

scan_session_example : Finished (apply_all source (second_byte ∷ [])) (
    (feed scan_events >> dispatch (create_info_packet PacketType.info_hashing_completed))
      (hashing_at idle hashing_server (sound stale) header 128 empty [] [] []))
scan_session_example =
    scan_session spelled source 2 scan_events idle hashing_server stale header 128 empty
      empty-Contains refl scan_events-HasRoom spelled-NoCollision refl (omega arith) (omega arith)
      (omega arith) scan_blocks (omega arith, tt)
