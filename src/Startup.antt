-- ===== src/Startup.antt =====
-- A client that is started, by user/client/client.go, against a server that waits for one, by
-- user/server/server.go: the packets that `main` and `Run` send first, and what `HandleClient` makes of
-- them.
use bdr.Common.{
  ℕ, ◌≡◌, ◌≢◌, refl, false, sym, ap, ◌∙◌, subst, true, List, [], ◌∷◌, ◌++◌, length, some, ok, u64,
  length-overlay,
}
use bdr.Device.{Disk, sound}
use bdr.Networking.{
  Packet, PacketType, InitInfo, create_info_packet, cmd_start_hashing, write_info_size,
  correct_block_byte_size,
}
use bdr.Header.{header_bytes, Header, set_invalid_flag}
use bdr.Journal.{Journal}
use bdr.Journal.Contents.{Contains, IsLaidOut}
use bdr.Journal.Layout.{AreSizes, layout-IsLaidOut}
use bdr.Journal.Reset.{with_header, set_invalid_flag-IsLaidOut}
use bdr.Server.{Server, State}
use bdr.Replica.Recovery.{server_at}
use bdr.Handshake.{handshake}
use bdr.Handshake.Accepted.{client_header, serving, handshake-serving, handshake-refused}
use bdr.Session.{Session, begin_session, dispatch}
use bdr.Session.Feed.{hashing_at}
use bdr.Session.Start.{begun, begin_hash_disk-fresh}
use bdr.Config.Client.{Flags, new_config}
use bdr.Client.{Client, hashing, initiate_shutdown}
use bdr.Client.Listen.{init_packet, Listener, arrived, listen_packets}
use bdr.Client.Start.{World, start, finish_run}
use bdr.Client.Start.Opened.{AsksForScan, Opens, fresh_client, everything, nothing, start-Restarts}
use bdr.Chardev.{Context, IsDocumented, target_info_of}
use bdr.Visits.{receives, hashes, run_session}

-- What the client tells the server first.
abbrev pub told : Context → Disk → InitInfo
told x d =
    let t = target_info_of x in
    record {
      device_size = u64 (length d.content);
      write_info_size = t.write_info_size;
      buffer_byte_size = t.buffer_byte_size;
    }

-- The server has begun the scan that the client asks for, with an empty journal.
abbrev pub Begins : Server → List ℕ → ℕ → Session → Type 0
Begins s t n v =
    (h : Header) × (c : List ℕ) × (s' : Server) × (v
      ≡ hashing_at (begin_session s') s' (sound t) h n c [] [] [])
    × Contains h c [] []
    × (s'.state ≡ State.hashing)
    × (s'.sent ≡ s.sent ++ create_info_packet PacketType.info_start_hashing ∷ [])

serving-Begins :
    (s : Server) (t c : List ℕ) (info : InitInfo)
    → AreSizes (length c) info.buffer_byte_size write_info_size correct_block_byte_size
    → s.link ≡ []
    → (v : Session) × (run_session
          (receives (create_info_packet cmd_start_hashing) ∷ hashes ∷ [])
          (begin_session (serving s (sound t) c info))
        ≡ (ok tt, v))
      × Begins s t (length c) v
unfolding run_session dispatch
serving-Begins s t c info sizes link =
    let h0 = client_header (length c) info in
    let h = set_invalid_flag h0 in
    let same : length (with_header h c) ≡ length c = length-overlay c 0 (header_bytes h) in
    let laid : IsLaidOut h (length (with_header h c)) = subst (IsLaidOut h) (sym same) (
      set_invalid_flag-IsLaidOut h0 (length c) (
        layout-IsLaidOut (length c) info.buffer_byte_size write_info_size correct_block_byte_size
          sizes)) in
    let s1 : Server = record s { state = State.hashing; client_info = info } in
    let (c', e, k) =
      begin_hash_disk-fresh s1 (sound t) h (with_header h c) (length c) laid refl link in
    let s2 = begun s1 (sound t) (set_invalid_flag h) c' (length c) in
    (
      hashing_at (begin_session s2) s2 (sound t) (set_invalid_flag h) (length c) c' [] [] [],
      rw e refl,
      (set_invalid_flag h, c', s2, refl, k, refl, refl),
    )

-- A client is started with arguments that are accepted and without a flag against the scan, and its
-- calls succeed (those of `Encode` and `ioctl` after harmless failures); the server waits for a client
-- with devices and a link that work, its replica is as large as the source, and the client's buffer
-- fits on the journal's device. Then the client holds all it needs, has sent two packets and is in the
-- hashing state. The server accepts the client by the first packet, and by the second, once `HashDisk`
-- has begun, it is hashing with an empty journal and a goroutine that fills it, has told the client,
-- and has left the replica as it was.
pub start_up :
    (encode : ℕ → ℕ → ℕ → ℕ → ℕ) (flags : Flags) (w : World) (x : Context) (d : Disk) (s : Server)
    (t c : List ℕ) (j : Journal)
    → IsDocumented encode
    → AsksForScan flags
    → Opens w x d
    → length t ≡ u64 (length d.content)
    → AreSizes (length c) (told x d).buffer_byte_size write_info_size correct_block_byte_size
    → s.link ≡ []
    → (client : Client) × (hello : Packet) × (ask : Packet) × (s' : Server) × (v : Session) × (start
          encode flags w nothing
        ≡ (ok client, everything))
      × (client.sent ≡ hello ∷ ask ∷ [])
      × (client.state ≡ hashing)
      × (handshake (some hello) (server_at s (sound t) (record j { disk = sound c }))
          ≡ (ok true, s'))
      × (run_session (receives ask ∷ hashes ∷ []) (begin_session s') ≡ (ok tt, v))
      × Begins s t (length c) v
start_up encode flags w x d s t c j documented asks opens same sizes link =
    let (c0, c1, started, (link0, e, _), (link1, ioctls, f, _, _)) =
      start-Restarts encode documented flags w x d asks opens in
    let (v, served, begins) = serving-Begins s t c (told x d) sizes link in
    (
      c1,
      init_packet (fresh_client (new_config flags) w x d),
      create_info_packet cmd_start_hashing,
      serving s (sound t) c (told x d),
      v,
      started,
      ap (λ z. z.sent) f ∙ ap (λ z. z.sent ++ create_info_packet cmd_start_hashing ∷ []) e,
      ap (λ z. z.state) f,
      handshake-serving s t c j (told x d) same sizes,
      served,
      begins,
    )

abbrev pub listener : Client → Listener
listener c = record { client = c; hash_queue = []; hashing = false }

-- A listener that hears that it is refused stops, and shuts the client down.
listen_packets-Refused :
    (hash : List ℕ → ℕ) (c : Client)
    → c.terminated ≡ false
    → listen_packets hash 2
        (arrived (create_info_packet PacketType.err_invalid_sizes) ∷ [])
        (listener c)
      ≡ some (ok tt, listener (initiate_shutdown c))
unfolding listen_packets
listen_packets-Refused hash c up = rw up refl

-- The same client, but the replica has another size than the source: the server refuses the client by
-- its first packet, with one packet that says so, and neither its replica nor its journal is touched.
-- When the client hears of it, its listener ends, it shuts down, and the end of `Run` closes all that
-- it has opened.
pub refused :
    (encode : ℕ → ℕ → ℕ → ℕ → ℕ) (hash : List ℕ → ℕ) (flags : Flags) (w : World) (x : Context)
    (d : Disk) (s : Server) (t : List ℕ)
    → IsDocumented encode
    → AsksForScan flags
    → Opens w x d
    → length t ≢ u64 (length d.content)
    → s.link ≡ []
    → (client : Client) × (hello : Packet) × (ask : Packet) × (s' : Server) × (refusal : Packet)
      × (start encode flags w nothing ≡ (ok client, everything))
      × (client.sent ≡ hello ∷ ask ∷ [])
      × (handshake (some hello) (record s { target = sound t }) ≡ (ok false, s'))
      × (s'.sent ≡ s.sent ++ refusal ∷ [])
      × (s'.target ≡ sound t)
      × (s'.journal ≡ s.journal)
      × (s'.state ≡ State.disconnected)
      × (listen_packets hash 2 (arrived refusal ∷ []) (listener client)
          ≡ some (ok tt, listener (initiate_shutdown client)))
      × (finish_run (initiate_shutdown client, everything) ≡ (initiate_shutdown client, nothing))
unfolding finish_run
refused encode hash flags w x d s t documented asks opens other link =
    let (c0, c1, started, (_, e, _), (_, _, f, _, _)) =
      start-Restarts encode documented flags w x d asks opens in
    (
      c1,
      init_packet (fresh_client (new_config flags) w x d),
      create_info_packet cmd_start_hashing,
      record s {
        target = sound t;
        state = State.disconnected;
        client_info = told x d;
        sent = s.sent ++ create_info_packet PacketType.err_invalid_sizes ∷ [];
      },
      create_info_packet PacketType.err_invalid_sizes,
      started,
      ap (λ z. z.sent) f ∙ ap (λ z. z.sent ++ create_info_packet cmd_start_hashing ∷ []) e,
      handshake-refused s t (told x d) other link,
      refl,
      refl,
      refl,
      refl,
      listen_packets-Refused hash c1 (ap (λ z. z.terminated) f ∙ ap (λ z. z.terminated) e),
      refl,
    )
