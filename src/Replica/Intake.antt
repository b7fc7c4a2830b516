-- ===== src/Replica/Intake.antt =====
-- `HandleJournalPackets` of user/server/server.go, while the journal has room.
use bdr.Common.{
  ℕ, suc, ◌+◌, ◌^◌, ◌≤◌, ◌<◌, ◌≡◌, ◌≢◌, refl, arith, List, [], ◌∷◌, ◌++◌, map, length, ok, false,
  overlay, length-append, u64, All, Outcome,
}
use mathlib.Core.List.{append-nil, append_assoc}
use bdr.Device.{Disk, sound}
use bdr.Device.Overlays.{trimmed}
use bdr.Networking.{
  Extent, Packet, payload_buffer_write, payload_correct_block, write_info, correct_block_info,
}
use bdr.Header.{Header}
use bdr.Slot.RoundTrip.{Fits, slot_bytes}
use bdr.Section.{write_section, correct_section}
use bdr.Section.Slots.{at, HasBytes, write_slot-sound, write_slot-trimmed}
use bdr.Journal.{write_correct_block, write_buffer_write}
use bdr.Journal.Contents.{Contains, Contains-block, Contains-write}
use bdr.Journal.Reset.{journal_at}
use bdr.Server.{Server}
use bdr.Replica.{
  has_overflown, handle_journal_packet, handle_journal_packets, handle_journal_buffer_write,
  handle_journal_correct_block, write_buffer_write_to_journal, write_correct_block_to_journal,
}
use bdr.Replica.Recovery.{server_at}

-- What the client sends into the journal.
pub data Entry : Type 0 where
  block write : Extent → Entry

abbrev pub packet_of : Entry → Packet
packet_of (block x) = record { packet_type = payload_correct_block; payload = correct_block_info x }
packet_of (write x) = record { packet_type = payload_buffer_write; payload = write_info x }

-- What is stored: as many bytes as the size says.
abbrev pub blocks_of : List Entry → List Extent
blocks_of [] = []
blocks_of (block x ∷ es) = trimmed x ∷ blocks_of es
blocks_of (write x ∷ es) = blocks_of es

abbrev pub writes_of : List Entry → List Extent
writes_of [] = []
writes_of (block x ∷ es) = writes_of es
writes_of (write x ∷ es) = trimmed x ∷ writes_of es

-- The entry has the bytes that its size counts, they fit the slot, and it is not empty.
abbrev pub IsStorable : Header → Entry → Type 0
IsStorable h (block x) = Fits h.corr_block_byte_size (trimmed x) × (x.size ≢ 0) × HasBytes x
IsStorable h (write x) = Fits h.buf_write_byte_size (trimmed x) × (x.size ≢ 0) × HasBytes x

-- The contents of the journal's device after one more entry.
abbrev pub add_block : Header → List ℕ → ℕ → Extent → List ℕ
add_block h c k x = overlay c (at (correct_section h) k) (slot_bytes h.corr_block_byte_size x)

abbrev pub add_write : Header → List ℕ → ℕ → Extent → List ℕ
add_write h c k x = overlay c (at (write_section h) k) (slot_bytes h.buf_write_byte_size x)

u64_suc : (k n : ℕ) → k < n → n < 2 ^ 64 → u64 (k + 1) ≡ suc k
u64_suc k n h small = omega arith

handle_block :
    (s : Server) (d : Disk) (h : Header) (c : List ℕ) (n w : ℕ) (bs ws : List Extent) (x : Extent)
    → Contains h c bs ws
    → has_overflown s.state ≡ false
    → length bs < h.corr_blocks_count
    → Fits h.corr_block_byte_size (trimmed x)
    → HasBytes x
    → handle_journal_packet (packet_of (block x)) (server_at s d (journal_at h c n w (length bs)))
      ≡ (
        ok tt,
        server_at s d (journal_at h (add_block h c (length bs) (trimmed x)) n w (suc (length bs))),
      )
unfolding handle_journal_packet handle_journal_correct_block write_correct_block_to_journal
    write_correct_block
handle_block s d h c n w bs ws x k live room f bytes =
    rw
      (
        live,
        write_slot-trimmed (correct_section h) (length bs) x (sound c) bytes,
        write_slot-sound (correct_section h) (length bs) (trimmed x) c k.laid_out.corrects room f,
        u64_suc (length bs) h.corr_blocks_count room k.laid_out.u64.corr_blocks_count,
      )
      refl

handle_write :
    (s : Server) (d : Disk) (h : Header) (c : List ℕ) (n b : ℕ) (bs ws : List Extent) (x : Extent)
    → Contains h c bs ws
    → has_overflown s.state ≡ false
    → length ws < h.buf_writes_count
    → Fits h.buf_write_byte_size (trimmed x)
    → HasBytes x
    → handle_journal_packet (packet_of (write x)) (server_at s d (journal_at h c n (length ws) b))
      ≡ (
        ok tt,
        server_at s d (journal_at h (add_write h c (length ws) (trimmed x)) n (suc (length ws)) b),
      )
unfolding handle_journal_packet handle_journal_buffer_write write_buffer_write_to_journal
    write_buffer_write
handle_write s d h c n b bs ws x k live room f bytes =
    rw
      (
        live,
        write_slot-trimmed (write_section h) (length ws) x (sound c) bytes,
        write_slot-sound (write_section h) (length ws) (trimmed x) c k.laid_out.writes room f,
        u64_suc (length ws) h.buf_writes_count room k.laid_out.u64.buf_writes_count,
      )
      refl

-- The packets went into the journal, and nothing else of the server changed.
abbrev pub Stored :
    Server → Disk → Header → ℕ → List Extent → List Extent → Outcome (Unit {0}) × Server → Type 0
Stored s d h n bs ws r =
    (c : List ℕ) × (r ≡ (ok tt, server_at s d (journal_at h c n (length ws) (length bs))))
    × Contains h c bs ws

-- From a journal with room for them, the correct blocks and the buffer writes that the client sends
-- are appended to their sections in the order in which they come, in whatever way the two kinds are
-- mixed, each with as many bytes as its size says; nothing is reported to the client, and the replica is not touched.
pub handle_journal_packets-Stored :
    (s : Server) (d : Disk) (h : Header) (c : List ℕ) (n : ℕ) (bs ws : List Extent)
    (es : List Entry)
    → Contains h c bs ws
    → has_overflown s.state ≡ false
    → All (IsStorable h) es
    → length bs + length (blocks_of es) ≤ h.corr_blocks_count
    → length ws + length (writes_of es) ≤ h.buf_writes_count
    → Stored s d h n (bs ++ blocks_of es) (ws ++ writes_of es) (
        handle_journal_packets
          (map packet_of es)
          (server_at s d (journal_at h c n (length ws) (length bs))))
unfolding handle_journal_packets
handle_journal_packets-Stored s d h c n bs ws [] k live fit hb hw =
    rw (append-nil bs, append-nil ws) (c, refl, k)
handle_journal_packets-Stored s d h c n bs ws (block x ∷ es) k live ((f, v, bytes), fit) hb hw =
    let c' = add_block h c (length bs) (trimmed x) in
    let k' = Contains-block h c bs ws (trimmed x) k (omega arith) f v in
    let e = length-append bs (trimmed x ∷ []) in
    let one : suc (length bs) ≡ length (bs ++ trimmed x ∷ []) = omega (arith, e) in
    let rest =
      handle_journal_packets-Stored s d h c' n (bs ++ trimmed x ∷ []) ws es k' live fit
        (omega (arith, e)) hw in
    rw (handle_block s d h c n (length ws) bs ws x k live (omega arith) f bytes, one)
      (rw (append_assoc bs (trimmed x ∷ []) (blocks_of es)) at rest)
handle_journal_packets-Stored s d h c n bs ws (write x ∷ es) k live ((f, v, bytes), fit) hb hw =
    let c' = add_write h c (length ws) (trimmed x) in
    let k' = Contains-write h c bs ws (trimmed x) k (omega arith) f v in
    let e = length-append ws (trimmed x ∷ []) in
    let one : suc (length ws) ≡ length (ws ++ trimmed x ∷ []) = omega (arith, e) in
    let rest =
      handle_journal_packets-Stored s d h c' n bs (ws ++ trimmed x ∷ []) es k' live fit hb
        (omega (arith, e)) in
    rw (handle_write s d h c n (length bs) bs ws x k live (omega arith) f bytes, one)
      (rw (append_assoc ws (trimmed x ∷ []) (writes_of es)) at rest)
