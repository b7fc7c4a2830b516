-- ===== src/Live.antt =====
-- user/server/server.go: the goroutines that write packets straight to the replica,
-- `HandleWritePackets`, `HandleCorrectPackets` and `HandleReplicationPackets`.
use bdr.Common.{
  ℕ, zero, suc, Bool, true, false, if◌then◌else◌, List, [], ◌∷◌, Option, none, some, M, Outcome, ok,
  err, panic, pure, ignore, ◌>>=◌, ◌>>◌,
}
use bdr.Networking.{Extent, Packet, Payload, write_info, correct_block_info, replication_block_info}
use bdr.Device.{Disk, write_at, sync}
use bdr.Server.{Server, State, writing, on_target, data_to_write}
use bdr.Replica.{write_correct_block_to_replica}
pub mod Retries
pub mod Copying

-- The loop that tries a write until it succeeds; `none` when `fuel` attempts have failed.
abbrev tried : Outcome (Unit {0}) → Disk → Option Disk → Option Disk
tried (ok _) d rest = some d
tried (err e) d rest = rest
tried panic d rest = none

unfoldable pub write_until : ℕ → List ℕ → ℕ → Disk → Option Disk
write_until zero bs off d = none
write_until (suc fuel) bs off d =
    let rest = write_until fuel bs off (write_at bs off d).1 in
    tried (write_at bs off d).0 (write_at bs off d).1 rest

abbrev pub is_writing : State → Bool
is_writing writing = true
is_writing _ = false

-- The zero value that a failed type assertion leaves.
abbrev zero_info : Extent
zero_info = record { offset = 0; size = 0; bytes = [] }

abbrev pub write_info_of : Payload → Extent
write_info_of (write_info info) = info
write_info_of _ = zero_info

abbrev correct_info_of : Payload → Extent
correct_info_of (correct_block_info info) = info
correct_info_of _ = zero_info

abbrev synced : Option Disk → Server → Option (Outcome (Unit {0}) × Server)
synced none s = none
synced (some d) s = some (ok tt, record s { target = (sync d).1 })

abbrev write_data : ℕ → ℕ → Outcome (List ℕ) → Server → Option (Outcome (Unit {0}) × Server)
write_data fuel off (ok bs) s = synced (write_until fuel bs off s.target) s
write_data fuel off (err e) s = some (err e, s)
write_data fuel off panic s = some (panic, s)

-- One round of `HandleWritePackets`.
unfoldable pub handle_write_packet : ℕ → Packet → Server → Option (Outcome (Unit {0}) × Server)
handle_write_packet fuel packet s =
    let info = write_info_of packet.payload in
    if is_writing s.state
    then write_data fuel info.offset (data_to_write info) s
    else some (ok tt, s)

abbrev go_on :
    Option (Outcome (Unit {0}) × Server)
    → (Server → Option (Outcome (Unit {0}) × Server))
    → Option (Outcome (Unit {0}) × Server)
go_on none k = none
go_on (some (ok _, s)) k = k s
go_on (some (err e, s)) k = some (err e, s)
go_on (some (panic, s)) k = some (panic, s)

unfoldable pub handle_write_packets :
    ℕ → List Packet → Server → Option (Outcome (Unit {0}) × Server)
handle_write_packets fuel [] s = some (ok tt, s)
handle_write_packets fuel (packet ∷ packets) s =
    go_on (handle_write_packet fuel packet s) (handle_write_packets fuel packets)

-- `HandleCorrectPackets`: an error of the replica is only printed.
unfoldable pub handle_correct_packets : List Packet → M Server (Unit {0})
unfolding write_correct_block_to_replica
handle_correct_packets [] = pure tt
handle_correct_packets (packet ∷ packets) = do
  ignore (write_correct_block_to_replica (correct_info_of packet.payload))
  handle_correct_packets packets

-- One packet of `HandleReplicationPackets`, whose workers take them in any order.
unfoldable pub handle_replication_packet : Payload → M Server (Unit {0})
handle_replication_packet (replication_block_info info) =
    ignore (on_target (write_at info.bytes info.offset))
handle_replication_packet _ = pure tt

unfoldable pub replication_rounds : List Packet → M Server (Unit {0})
unfolding handle_replication_packet
replication_rounds [] = pure tt
replication_rounds (packet ∷ packets) =
    handle_replication_packet packet.payload >> replication_rounds packets

-- With the queue closed, and the final `Sync`.
unfoldable pub handle_replication_packets : List Packet → M Server (Unit {0})
handle_replication_packets packets = do replication_rounds packets; ignore (on_target sync)
