-- ===== src/Replica/Overflow.antt =====
-- `HandleJournalPackets` of user/server/server.go, when the journal has no room left.
use bdr.Common.{◌≤◌, ◌≡◌, refl, List, [], ◌∷◌, ◌++◌, ok, true, false}
use bdr.Networking.{Packet, create_info_packet, err_journal_overflow}
use bdr.Section.{write_section, correct_section}
use bdr.Section.Slots.{write_slot_full}
use bdr.Journal.{Journal, write_correct_block, write_buffer_write}
use bdr.Server.{Server, journal_overflow, send_packet}
use bdr.Replica.{
  has_overflown, handle_journal_packet, handle_journal_packets, handle_journal_buffer_write,
  handle_journal_correct_block, write_buffer_write_to_journal, write_correct_block_to_journal,
}
use bdr.Replica.Intake.{Entry, block, write, packet_of}

-- The section that the entry goes to has its last offset behind its end.
abbrev pub IsFull : Journal → Entry → Type 0
IsFull j (block x) = j.header.corr_blocks_count ≤ j.correct_offset
IsFull j (write x) = j.header.buf_writes_count ≤ j.write_offset

-- The server after it reported the overflow over a link that works.
abbrev pub overflown : Server → Server
overflown s = record s {
  state = journal_overflow;
  sent = s.sent ++ create_info_packet err_journal_overflow ∷ [];
}

-- When its section is full, a packet is not stored, whatever the devices do: the server sends the
-- overflow packet (the link has no failure ahead) and goes over to the overflow state; journal and
-- replica stay as they are.
pub handle_journal_packet-full :
    (s : Server) (e : Entry)
    → has_overflown s.state ≡ false
    → s.link ≡ []
    → IsFull s.journal e
    → handle_journal_packet (packet_of e) s ≡ (ok tt, overflown s)
unfolding handle_journal_packet handle_journal_buffer_write handle_journal_correct_block
    write_buffer_write_to_journal write_correct_block_to_journal write_buffer_write
    write_correct_block send_packet
handle_journal_packet-full s (block x) live link full =
    let j : Journal = s.journal in
    rw (live, write_slot_full (correct_section j.header) j.correct_offset x j.disk full, link) refl
handle_journal_packet-full s (write x) live link full =
    let j : Journal = s.journal in
    rw (live, write_slot_full (write_section j.header) j.write_offset x j.disk full, link) refl

-- In the overflow state every packet is dropped: the server stays as it is.
handle_journal_packets-overflow :
    (s : Server) (packets : List Packet)
    → has_overflown s.state ≡ true
    → handle_journal_packets packets s ≡ (ok tt, s)
unfolding handle_journal_packets handle_journal_packet
handle_journal_packets-overflow s [] over = refl
handle_journal_packets-overflow s (p ∷ ps) over =
    rw over (handle_journal_packets-overflow s ps over)
