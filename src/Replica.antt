-- ===== src/Replica.antt =====
-- user/server/server.go: what the server writes into its journal, and from the journal to the
-- replica: `WriteCorrectBlockToJournal` to `CheckJournal`, and `HandleJournal…`.
pub mod Puts
pub mod Copies
pub mod Recovery
pub mod Restart
pub mod Intake
pub mod Overflow
pub mod Whole
use bdr.Common.{ℕ, zero, suc, ◌+◌, Bool, true, false, if◌then◌else◌, M, Outcome, ok, err, panic}
use bdr.Common.{pure, throw, lift, or_error, ignore, on_error, get_state, ◌>>=◌, ◌>>◌, u64}
use bdr.Common.{List, [], ◌∷◌, bad_payload, server_failure}
use bdr.Networking.{Extent, Packet, PacketType, Payload, create_info_packet, err_journal_overflow}
use bdr.Networking.{write_info, correct_block_info, payload_buffer_write, payload_correct_block}
use bdr.Networking.{write_info_size, correct_block_byte_size, InitInfo}
use bdr.Device.{Disk, write_at, sync}
use bdr.Journal.{Journal, validate, invalidate, write_correct_block, read_correct_block}
use bdr.Journal.{write_buffer_write, read_buffer_write, new_journal, init_without_clearing}
use bdr.Journal.{open_journal, is_valid_journal}
use bdr.Server.{Server, State, destroying_replica, journal_overflow, on_target, on_journal}
use bdr.Server.{on_journal_path, set_state, set_journal, send_packet, data_to_write}

unfoldable pub write_correct_block_to_journal : Extent → M Server (Unit {0})
write_correct_block_to_journal block = on_journal do
  j ← get_state
  write_correct_block j.correct_offset block
  λ j. (ok tt, record j { correct_offset = u64 (j.correct_offset + 1) })

unfoldable pub write_buffer_write_to_journal : Extent → M Server (Unit {0})
write_buffer_write_to_journal write = on_journal do
  j ← get_state
  write_buffer_write j.write_offset write
  λ j. (ok tt, record j { write_offset = u64 (j.write_offset + 1) })

abbrev as_write_info : Payload → M Server Extent
as_write_info (write_info info) = pure info
as_write_info _ = throw bad_payload

abbrev as_correct_block : Payload → M Server Extent
as_correct_block (correct_block_info info) = pure info
as_correct_block _ = throw bad_payload

unfoldable pub handle_journal_buffer_write : Packet → M Server (Unit {0})
handle_journal_buffer_write packet = do
  info ← as_write_info packet.payload
  or_error server_failure (write_buffer_write_to_journal info)

unfoldable pub handle_journal_correct_block : Packet → M Server (Unit {0})
handle_journal_correct_block packet = do
  info ← as_correct_block packet.payload
  or_error server_failure (write_correct_block_to_journal info)

-- The client is told, and the state says that the journal is of no use.
unfoldable pub report_overflow : M Server (Unit {0})
report_overflow = do
  ignore (send_packet (create_info_packet err_journal_overflow))
  set_state journal_overflow

unfoldable pub journal_packet : PacketType → Packet → M Server (Unit {0})
unfolding report_overflow
journal_packet payload_buffer_write packet =
    on_error (handle_journal_buffer_write packet) report_overflow
journal_packet payload_correct_block packet =
    on_error (handle_journal_correct_block packet) report_overflow
journal_packet _ packet = pure tt

abbrev pub has_overflown : State → Bool
has_overflown journal_overflow = true
has_overflown _ = false

-- One round of the loop of `HandleJournalPackets`.
unfoldable pub handle_journal_packet : Packet → M Server (Unit {0})
unfolding journal_packet
handle_journal_packet packet = do
  s ← get_state
  if has_overflown s.state then pure tt else journal_packet packet.packet_type packet

-- The loop itself, over the packets that the queue hands out until it is closed.
unfoldable pub handle_journal_packets : List Packet → M Server (Unit {0})
handle_journal_packets [] = pure tt
handle_journal_packets (packet ∷ packets) =
    handle_journal_packet packet >> handle_journal_packets packets

-- The first loop of `WriteJournalToReplica`, at entry `i` with `rounds` to go.
unfoldable pub replay_blocks : ℕ → ℕ → M Server (Unit {0})
replay_blocks zero i = pure tt
replay_blocks (suc rounds) i = do
  block ← or_error server_failure (on_journal (read_correct_block i))
  or_error server_failure (on_target (write_at block.bytes block.offset))
  replay_blocks rounds (i + 1)

-- Its second loop.
unfoldable pub replay_writes : ℕ → ℕ → M Server (Unit {0})
replay_writes zero i = pure tt
replay_writes (suc rounds) i = do
  write ← or_error server_failure (on_journal (read_buffer_write i))
  bytes ← lift (data_to_write write)
  or_error server_failure (on_target (write_at bytes write.offset))
  ignore (on_target sync)
  replay_writes rounds (i + 1)

unfoldable pub write_journal_to_replica : M Server (Unit {0})
write_journal_to_replica = do
  ignore (on_journal validate)
  s ← get_state
  replay_blocks s.journal.correct_offset 0
  ignore (on_target sync)
  replay_writes s.journal.write_offset 0
  or_error server_failure (on_journal invalidate)

abbrev pub is_destroying : State → Bool
is_destroying destroying_replica = true
is_destroying _ = false

unfoldable pub handle_journal_writing : M Server (Unit {0})
handle_journal_writing = do
  s ← get_state
  if is_destroying s.state
      then pure tt
      else on_error write_journal_to_replica
          (ignore (send_packet (create_info_packet err_journal_overflow)))

-- The new journal becomes the server's when its header is on the disk.
abbrev pub initialised : Outcome (Unit {0}) → Journal → M Server (Unit {0})
initialised (ok _) jrn = set_journal jrn
initialised (err e) jrn = on_journal_path (λ d. (err e, jrn.disk))
initialised panic jrn = on_journal_path (λ d. (panic, jrn.disk))

unfoldable pub create_journal : M Server (Unit {0})
create_journal = do
  s ← get_state
  jrn ←
      on_journal_path
        (new_journal s.client_info.buffer_byte_size write_info_size correct_block_byte_size)
  let (o, jrn') = init_without_clearing jrn
  initialised o jrn'

unfoldable pub write_correct_block_to_replica : Extent → M Server (Unit {0})
write_correct_block_to_replica block =
    or_error server_failure (on_target (write_at block.bytes block.offset))

unfoldable pub write_buffer_write_to_replica : Extent → M Server (Unit {0})
write_buffer_write_to_replica write = do
  bytes ← lift (data_to_write write)
  or_error server_failure (on_target (write_at bytes write.offset))
  ignore (on_target sync)

-- The loops of `CopyJournalToReplica`, which drop the errors of the replica.
unfoldable pub copy_blocks : ℕ → ℕ → M Server (Unit {0})
unfolding write_correct_block_to_replica
copy_blocks zero i = pure tt
copy_blocks (suc rounds) i = do
  block ← or_error server_failure (on_journal (read_correct_block i))
  ignore (write_correct_block_to_replica block)
  copy_blocks rounds (i + 1)

unfoldable pub copy_writes : ℕ → ℕ → M Server (Unit {0})
unfolding write_buffer_write_to_replica
copy_writes zero i = pure tt
copy_writes (suc rounds) i = do
  write ← or_error server_failure (on_journal (read_buffer_write i))
  ignore (write_buffer_write_to_replica write)
  copy_writes rounds (i + 1)

-- `jrn`, a local variable of `CheckJournal`, is the journal field here: the server has no other
-- journal yet.
unfoldable pub copy_journal_to_replica : M Server (Unit {0})
copy_journal_to_replica = do
  s ← get_state
  copy_blocks s.journal.correct_offset 0
  ignore (on_target sync)
  copy_writes s.journal.write_offset 0
  ignore (on_journal invalidate)

-- What `CheckJournal` does with the result of `OpenJournal`.
unfoldable pub check_opened : Outcome Journal → M Server (Unit {0})
check_opened (ok jrn) = do
  set_journal jrn
  if is_valid_journal jrn then or_error server_failure copy_journal_to_replica else pure tt
check_opened (err e) = pure tt
check_opened panic = lift panic

unfoldable pub check_journal : M Server (Unit {0})
unfolding check_opened
check_journal s =
    let (o, d) = open_journal s.journal.disk in
    let j : Journal = s.journal in check_opened o (record s { journal = record j { disk = d } })
