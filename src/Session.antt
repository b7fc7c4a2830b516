-- ===== src/Session.antt =====
-- user/server/server.go: the loop of `HandleClient` over the client's packets, the queues that it
-- fills, and what its goroutines take from them.
use bdr.Common.{
  Bool, true, false, not, ◌&&◌, if◌then◌else◌, List, [], ◌∷◌, ◌++◌, M, ok, pure, ignore, on_error,
  get_state, ◌>>=◌, ◌>>◌,
}
use bdr.Networking
use bdr.Networking.{Packet, PacketType, create_info_packet}
use bdr.Journal.{Journal, reset_to}
use bdr.Scan.{ResultItem, result_packets}
use bdr.Server.{Server, State, on_journal, set_state, send_packet, link_ok}
use bdr.Replica.{
  handle_journal_packet, handle_journal_packets, handle_journal_writing, is_destroying,
}
use bdr.Live.{handle_replication_packets}
pub mod Room
pub mod Feed
pub mod Finish
pub mod Start
pub mod Workers
pub mod End
pub mod Cancelled

-- The channels are the packets that wait in them; their capacity, which makes a sender wait, is left
-- out. A worker flag says that a goroutine takes packets from the channel, and `scan_requested`
-- that `HashDisk` was started.
pub record Session : Type 0 where
  pub server : Server
  pub journal_queue : List Packet
  pub journal_worker : Bool
  pub write_queue : List Packet
  pub correct_queue : List Packet
  pub replication_queue : List Packet
  pub replication_worker : Bool
  pub scan_requested : Bool

-- The queues and workers of a client that has just been accepted.
abbrev pub begin_session : Server → Session
begin_session s = record {
  server = s;
  journal_queue = [];
  journal_worker = false;
  write_queue = [];
  correct_queue = [];
  replication_queue = [];
  replication_worker = false;
  scan_requested = false;
}

abbrev pub on_server : M Server (Unit {0}) → M Session (Unit {0})
on_server m v = let (o, s) = m v.server in (o, record v { server = s })

abbrev pub change : (Session → Session) → M Session (Unit {0})
change f v = (ok tt, f v)

abbrev pub where_taken : Bool → M Server (Unit {0}) → M Server (Unit {0})
where_taken true m = m
where_taken false m = pure tt

-- `close(journalQueue); journalWg.Wait()`, and the new channel.
unfoldable pub drain_journal : M Session (Unit {0})
drain_journal = do
  v ← get_state
  on_server (where_taken v.journal_worker (handle_journal_packets v.journal_queue))
  change (λ v. record v { journal_queue = []; journal_worker = false })

-- The same of `replicationQueue`.
unfoldable pub drain_replication : M Session (Unit {0})
drain_replication = do
  v ← get_state
  on_server (where_taken v.replication_worker (handle_replication_packets v.replication_queue))
  change (λ v. record v { replication_queue = []; replication_worker = false })

-- What becomes of a buffer write and of a correct block, by the server's state.
abbrev pub route_write : State → Packet → Session → Session
route_write State.hashing packet v = record v { journal_queue = v.journal_queue ++ packet ∷ [] }
route_write State.writing packet v = record v { write_queue = v.write_queue ++ packet ∷ [] }
route_write _ packet v = v

abbrev pub route_block : State → Packet → Session → Session
route_block State.hashing packet v = record v { journal_queue = v.journal_queue ++ packet ∷ [] }
route_block State.destroying_replica packet v = record v {
  correct_queue = v.correct_queue ++ packet ∷ [];
}
route_block _ packet v = v

unfoldable pub dispatch_by : PacketType → Packet → M Session (Unit {0})
unfolding drain_journal drain_replication
dispatch_by PacketType.cmd_start_hashing packet = do
  on_server (set_state State.hashing)
  drain_journal
  change (λ v. record v { journal_worker = true; scan_requested = true })
dispatch_by PacketType.payload_buffer_write packet =
    change (λ v. route_write v.server.state packet v)
dispatch_by PacketType.payload_correct_block packet =
    change (λ v. route_block v.server.state packet v)
dispatch_by PacketType.payload_replication_block packet =
    change (λ v. record v { replication_queue = v.replication_queue ++ packet ∷ [] })
dispatch_by PacketType.info_hashing_completed packet = do
  drain_journal
  on_server handle_journal_writing
  on_server (set_state State.writing)
dispatch_by PacketType.info_replication_completed packet = do
  drain_replication
  on_server (set_state State.writing)
dispatch_by PacketType.info_start_replication packet = do
  on_server (set_state State.replicating)
  drain_replication
  change (λ v. record v { replication_worker = true })
dispatch_by PacketType.cmd_start_full_scan packet = do
  on_server (set_state State.destroying_replica)
  change (λ v. record v { scan_requested = true })
dispatch_by _ packet = pure tt

-- One round of the loop, with a packet that was decoded.
unfoldable pub dispatch : Packet → M Session (Unit {0})
unfolding dispatch_by
dispatch packet = dispatch_by packet.packet_type packet

-- The beginning of `HashDisk`: the journal is reset, and the client is told.
unfoldable pub begin_hash_disk : M Server (Unit {0})
begin_hash_disk = do
  s ← get_state
  if is_destroying s.state
      then pure tt
      else ignore (on_journal (reset_to s.journal.write_offset s.journal.correct_offset))
  ignore (send_packet (create_info_packet PacketType.info_start_hashing))

-- `Encode` of a hash; an error of a closed connection is not reported.
abbrev pub send_hash : Bool → Packet → M Server (Unit {0})
send_hash closed packet =
    on_error (send_packet packet)
      (if closed then pure tt else ignore (send_packet (create_info_packet PacketType.err_hash)))

abbrev pub send_each : Bool → List Packet → M Server (Unit {0})
send_each closed [] = pure tt
send_each closed (packet ∷ []) = send_hash closed packet
send_each closed (packet ∷ next ∷ packets) = do
  ignore (send_packet packet)
  send_each closed (next ∷ packets)

unfoldable pub send_results : Bool → List ResultItem → M Server (Unit {0})
send_results closed [] = pure tt
send_results closed (r ∷ results) =
    send_each closed (result_packets r) >> send_results closed results

-- The first packet cannot be sent, since the connection is closed.
abbrev pub stops : Bool → List Bool → Bool
stops closed link = closed && not (link_ok link)

-- `HashDisk` with the results that its senders have taken when they end, because there are no more or
-- because the scan is cancelled; `closed` says what kind of error a failed call of `Encode` gives.
unfoldable pub hash_disk : Bool → List ResultItem → M Server (Unit {0})
unfolding begin_hash_disk send_results
hash_disk closed results = do
  s ← get_state
  begin_hash_disk
  if stops closed s.link then pure tt else (do
    send_results closed results
    ignore (send_packet (create_info_packet PacketType.info_hashing_completed)))

-- `HandleJournalPackets` takes the next packet, if there is one.
abbrev pub take_packet : Bool → List Packet → M Session (Unit {0})
take_packet false packets = pure tt
take_packet true [] = pure tt
take_packet true (packet ∷ packets) = do
  change (λ v. record v { journal_queue = packets })
  on_server (handle_journal_packet packet)

unfoldable pub work_journal : M Session (Unit {0})
work_journal v = take_packet v.journal_worker v.journal_queue v
