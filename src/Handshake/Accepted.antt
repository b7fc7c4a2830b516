-- ===== src/Handshake/Accepted.antt =====
-- The beginning of `HandleClient` of user/server/server.go, with an init packet.
use bdr.Common.{ℕ, ◌≡◌, ◌≢◌, refl, arith, true, false, List, [], ◌∷◌, ◌++◌, length, some, ok, ◌==◌}
use bdr.Device.{Disk, sound, get_device_size}
use bdr.Networking.{
  InitInfo, Packet, PacketType, init_info, create_info_packet, write_info_size,
  correct_block_byte_size,
}
use bdr.Header.{Header, set_invalid_flag}
use bdr.Journal.{Journal, layout, init_without_clearing}
use bdr.Journal.Reset.{journal_at, with_header, invalidate_sound}
use bdr.Journal.Layout.{AreSizes, layout-IsLaidOut, new_journal-sound}
use bdr.Server.{Server, State, send_packet}
use bdr.Replica.{create_journal}
use bdr.Replica.Recovery.{server_at}
use bdr.Handshake.{wait_for_init_info, check_valid_sizes, handshake}

abbrev pub init_packet : InitInfo → Packet
init_packet info = record { packet_type = PacketType.info_init; payload = init_info info }

-- The journal that a client with this buffer gets on a device of `n` bytes.
abbrev pub client_header : ℕ → InitInfo → Header
client_header n info = layout n info.buffer_byte_size write_info_size correct_block_byte_size

-- The server that serves the client.
abbrev pub serving : Server → Disk → List ℕ → InitInfo → Server
serving s d c info =
    let h = set_invalid_flag (client_header (length c) info) in
    let s' : Server = record s { state = State.writing; client_info = info } in
    server_at s' d
      (journal_at h (with_header h c) (length c) h.buf_writes_count h.corr_blocks_count)

create_journal_done :
    (s : Server) (d : Disk) (c : List ℕ) (j : Journal)
    → AreSizes (length c) s.client_info.buffer_byte_size write_info_size correct_block_byte_size
    → create_journal (server_at s d (record j { disk = sound c })) ≡ (
      ok tt,
      let h = set_invalid_flag (client_header (length c) s.client_info) in
          server_at s d
            (journal_at h (with_header h c) (length c) h.buf_writes_count h.corr_blocks_count),
    )
unfolding create_journal init_without_clearing set_invalid_flag
create_journal_done s d c j sizes =
    let size = s.client_info.buffer_byte_size in
    let h = client_header (length c) s.client_info in
    rw
      (
        new_journal-sound c size write_info_size correct_block_byte_size sizes,
        invalidate_sound h c (length c) h.buf_writes_count h.corr_blocks_count
            (layout-IsLaidOut (length c) size write_info_size correct_block_byte_size sizes),
      )
      refl

same_size : (a b : ℕ) → a ≡ b → (a == b) ≡ true
same_size a b e = ground arith

other_size : (a b : ℕ) → a ≢ b → (a == b) ≡ false
other_size a b e = ground arith

-- A client whose device is as large as the replica, and whose buffer fits on the journal's device
-- behind the header, is accepted when the devices work: the server is in the writing state, and its
-- journal has the layout for the client's buffer and is not valid. Nothing is sent.
pub handshake-serving :
    (s : Server) (t c : List ℕ) (j : Journal) (info : InitInfo)
    → length t ≡ info.device_size
    → AreSizes (length c) info.buffer_byte_size write_info_size correct_block_byte_size
    → handshake (some (init_packet info)) (server_at s (sound t) (record j { disk = sound c }))
      ≡ (ok true, serving s (sound t) c info)
unfolding handshake wait_for_init_info check_valid_sizes get_device_size
handshake-serving s t c j info e sizes =
    let s' : Server = record s { state = State.writing; client_info = info } in
    rw (same_size (length t) info.device_size e, create_journal_done s' (sound t) c j sizes) refl

-- A client whose device has another size than the replica, which works, is told so over a link that
-- works, and is not accepted; replica and journal are not touched.
pub handshake-refused :
    (s : Server) (t : List ℕ) (info : InitInfo)
    → length t ≢ info.device_size
    → s.link ≡ []
    → handshake (some (init_packet info)) (record s { target = sound t }) ≡ (
      ok false,
      record s {
        target = sound t;
        state = State.disconnected;
        client_info = info;
        sent = s.sent ++ create_info_packet PacketType.err_invalid_sizes ∷ [];
      },
    )
unfolding handshake wait_for_init_info check_valid_sizes get_device_size send_packet
handshake-refused s t info e link = rw (other_size (length t) info.device_size e, link) refl
