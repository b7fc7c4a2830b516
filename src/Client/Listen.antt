-- ===== src/Client/Listen.antt =====
-- user/client/client.go: the goroutine that listens to the server, `ReceivePacket`, `ListenPackets` and
-- `reconnectToServer`, and what `InitHashing` does with one hash.
use bdr.Common.{
  ℕ, zero, suc, Bool, true, false, if◌then◌else◌, List, [], ◌∷◌, ◌++◌, Option, none, some, Outcome,
  ok, err, panic, length, u64,
}
use bdr.Networking.{InitInfo, Packet, PacketType, Payload, hash_info, init_info, info_init}
use bdr.Device.{Disk}
use bdr.Scan.{CheckResult, rescan, equal, correct, check_hash, correct_block_packet}
use bdr.Benchmark.{record_reconnection}
use bdr.Client.{
  Client, State, hashing, writing, replicating, reconnecting, Change, changed, Dial, connects,
  refused, unsized, unsent, check_termination, set_state, initiate_shutdown, start_hashing,
  send_packet,
}
use bdr.Client.Buffer.{R, process_buffer}

-- The packet of `SendInitPacket`, and of a new connection.
abbrev pub init_packet : Client → Packet
init_packet c =
    let info : InitInfo = record {
      device_size = u64 (length c.under.content);
      write_info_size = c.target_info.write_info_size;
      buffer_byte_size = c.target_info.buffer_byte_size;
    } in
    record { packet_type = info_init; payload = init_info info }

-- The new connection is there, and the init packet is sent on it.
abbrev pub reconnected : State → Client → Client
reconnected reconnecting c =
    set_state reconnecting (record c { sent = c.sent ++ init_packet c ∷ [] })
reconnected hashing c = start_hashing (record c { sent = c.sent ++ init_packet c ∷ [] })
reconnected replicating c = start_hashing (record c { sent = c.sent ++ init_packet c ∷ [] })
reconnected writing c = start_hashing (record c { sent = c.sent ++ init_packet c ∷ [] })

abbrev pub reconnect_attempts : List Dial → State → Client → Client
reconnect_attempts [] past c = if check_termination c then c else reconnected past c
reconnect_attempts (connects ∷ dials) past c =
    if check_termination c then c else reconnected past (record c { dials = dials })
reconnect_attempts (refused ch ∷ dials) past c =
    let rest = reconnect_attempts dials past (record (changed ch c) { dials = dials }) in
    if check_termination c then c else rest
reconnect_attempts (unsized ch ∷ dials) past c =
    let rest = reconnect_attempts dials past (record (changed ch c) { dials = dials }) in
    if check_termination c then c else rest
reconnect_attempts (unsent ch ∷ dials) past c =
    let c' = record (changed ch c) { dials = dials } in
    let rest = reconnect_attempts dials past c' in
    if check_termination c then c else if check_termination c' then c' else rest

unfoldable pub reconnect_to_server : Client → Client
reconnect_to_server c =
    let c1 = set_state reconnecting c in
    reconnect_attempts c.dials c.state (record c1 { stats = record_reconnection c1.stats })

-- How `Decode` goes: a packet, a timeout, `io.EOF`, or another error.
pub data Incoming : Type 0 where
  arrived : Packet → Incoming
  timed_out closed broken : Change → Incoming

-- What a call of `ReceivePacket` leaves in its packet; nothing when the client terminates.
pub record Receipt : Type 0 where
  pub packet : Option Packet
  pub incoming : List Incoming
  pub client : Client

abbrev pub receipt : Option Packet → List Incoming → Client → Option Receipt
receipt packet incoming c = some (record { packet = packet; incoming = incoming; client = c })

-- `none` is a call that goes on waiting, with nothing more to come.
unfoldable pub receive_packet : List Incoming → Client → Option Receipt
unfolding reconnect_to_server
receive_packet [] c = if check_termination c then receipt none [] c else none
receive_packet (arrived packet ∷ incoming) c =
    if check_termination c
    then receipt none (arrived packet ∷ incoming) c
    else receipt (some packet) incoming c
receive_packet (timed_out ch ∷ incoming) c =
    let rest = receive_packet incoming (changed ch c) in
    if check_termination c then receipt none (timed_out ch ∷ incoming) c else rest
receive_packet (closed ch ∷ incoming) c =
    let c' = changed ch c in
    let rest = receive_packet incoming (reconnect_to_server c') in
    if check_termination c
    then receipt none (closed ch ∷ incoming) c
    else if check_termination c'
    then receipt none incoming c'
    else rest
receive_packet (broken ch ∷ incoming) c =
    let c' = changed ch c in
    let rest = receive_packet incoming c' in
    if check_termination c
    then receipt none (broken ch ∷ incoming) c
    else if check_termination c'
    then receipt none incoming c'
    else rest

-- `hash_queue` is what waits in the channel, and `hashing` says that `InitHashing` takes from it. The
-- capacity of the channel is left out.
pub record Listener : Type 0 where
  pub client : Client
  pub hash_queue : List Packet
  pub hashing : Bool

module _ (hash : List ℕ → ℕ) where
  abbrev pub after_check : CheckResult × Disk → Client → Client
  after_check (rescan, d) c = start_hashing (record c { under = d })
  after_check (equal, d) c = record c { under = d }
  after_check (correct x, d) c = send_packet (correct_block_packet x) (record c { under = d })

  abbrev check_payload : Payload → Client → Client
  check_payload (hash_info info) c = after_check (check_hash hash info c.under) c
  check_payload _ c = start_hashing c

  -- The three stages of `InitHashing`, for the packets of the channel in their order.
  unfoldable pub check_hashes : List Packet → Client → Client
  unfolding check_hash start_hashing send_packet
  check_hashes [] c = c
  check_hashes (packet ∷ packets) c = check_hashes packets (check_payload packet.payload c)

  -- `close(hashQueue); hashWg.Wait()`, and a new channel.
  unfoldable pub drain_hashes : Listener → Listener
  unfolding check_hashes
  drain_hashes l = record {
    client = if l.hashing then check_hashes l.hash_queue l.client else l.client;
    hash_queue = [];
    hashing = false;
  }

  -- Whether the listener goes on.
  abbrev pub listener_after : Listener → R (Unit {0}) → Option (Outcome Bool × Listener)
  listener_after l none = none
  listener_after l (some (ok _, c)) = some (ok true, record l { client = c })
  listener_after l (some (err e, c)) = some (err e, record l { client = c })
  listener_after l (some (panic, c)) = some (panic, record l { client = c })

  abbrev shut_down : Listener → Listener
  shut_down l = record l { client = initiate_shutdown l.client }

  unfoldable pub dispatch_by : PacketType → Packet → Listener → Option (Outcome Bool × Listener)
  unfolding drain_hashes process_buffer
  dispatch_by PacketType.info_start_hashing packet l =
      let l' = drain_hashes l in some (ok true, record l' { hashing = true })
  dispatch_by PacketType.payload_hash packet l =
      some (ok true, record l { hash_queue = l.hash_queue ++ packet ∷ [] })
  dispatch_by PacketType.info_hashing_completed packet l =
      let l' = drain_hashes l in listener_after l' (process_buffer l'.client)
  dispatch_by PacketType.err_journal_overflow packet l =
      let l' = drain_hashes l in some (ok false, shut_down l')
  dispatch_by PacketType.err_init packet l = some (ok true, shut_down l)
  dispatch_by PacketType.err_invalid_sizes packet l = some (ok true, shut_down l)
  dispatch_by PacketType.err_journal_create packet l = some (ok true, shut_down l)
  dispatch_by _ packet l = some (ok true, l)

  unfoldable pub dispatch : Packet → Listener → Option (Outcome Bool × Listener)
  unfolding dispatch_by
  dispatch packet l = dispatch_by packet.packet_type packet l

  -- `ListenPackets`, until it ends; `none` when it goes on waiting.
  abbrev pub listen_rest :
      Option (Outcome Bool × Listener)
      → (Listener → Option (Outcome (Unit {0}) × Listener))
      → Option (Outcome (Unit {0}) × Listener)
  listen_rest none k = none
  listen_rest (some (ok true, l)) k = k l
  listen_rest (some (ok false, l)) k = some (ok tt, l)
  listen_rest (some (err e, l)) k = some (err e, l)
  listen_rest (some (panic, l)) k = some (panic, l)

  -- The packet that came, or the zero value, which no case of `ListenPackets` looks at.
  abbrev pub dispatch_received : Option Packet → Listener → Option (Outcome Bool × Listener)
  dispatch_received (some packet) l = dispatch packet l
  dispatch_received none l = some (ok true, l)

  abbrev pub after_receipt :
      Option Receipt
      → Listener
      → (List Incoming → Listener → Option (Outcome (Unit {0}) × Listener))
      → Option (Outcome (Unit {0}) × Listener)
  after_receipt none l k = none
  after_receipt (some rc) l k =
      let l' = record l { client = rc.client } in
      if check_termination rc.client
      then some (ok tt, drain_hashes l')
      else listen_rest (dispatch_received rc.packet l') (k rc.incoming)

  -- Each round that goes on takes something that has come in.
  unfoldable pub listen_packets :
      ℕ → List Incoming → Listener → Option (Outcome (Unit {0}) × Listener)
  unfolding receive_packet dispatch
  listen_packets zero incoming l = none
  listen_packets (suc fuel) incoming l =
      after_receipt (receive_packet incoming l.client) l (listen_packets fuel)
