-- ===== src/Examples/Starts.antt =====
-- Theorems on the start of client and server, and on the numbers of the ioctls.

use bdr.Common.{
  ℕ, ◌+◌, ◌*◌, ◌^◌, ◌≤◌, ◌≡◌, ◌↔◌, refl, arith, true, false, List, [], ◌∷◌, ◌++◌, none, some, ok,
  overlay, take,
}
use bdr.Device.{sound, sync, write_at}
use bdr.Networking.{Packet}
use bdr.Server.{Server, State, send_packet}
use bdr.Journal.Reset.{journal_at}
use bdr.Replica.Recovery.{server_at}
use bdr.Handshake.{handshake, wait_for_init_info}
use bdr.Session.{Session, begin_session}
use bdr.Config.{required, default_port}
use bdr.Config.Client.{Flags, new_config, validate_args}
use bdr.Config.Server as ServerConfig
use bdr.Config.Complete.{Given, client_args-Given}
use bdr.Client.{Client, Attempt, fails, hashing}
use bdr.Client.Buffer.{get_buffer_info_byte_offset}
use bdr.Client.Start.{World, new_client, start}
use bdr.Client.Start.Opened.{Opens, nothing, everything, Ends, new_client-Ends, AsksForScan}
use bdr.Ioctl.{write_test_value, number}
use bdr.Ring.{put, update_unsafe}
use bdr.Chardev.{target_info_of, Context, Call, active, IsDocumented, selected}
use bdr.Chardev.Served.{selected-number, get_buffer_info_byte_offset-within}
use bdr.Visits.{
  Visit, Shared, receives, hashes, run_session, writes, handle_client, linger, linger_all,
}
use bdr.Connections.{Accept, terminates, failed, connection, meanwhile, handle_connections, idle}
use bdr.Connections.Serving.{Follows, serve_all, handle_connections-serve_all}
use bdr.Connections.Start
use bdr.Session.Workers.{work_writes}
use bdr.Session.Workers.Late.{packets_of}
use bdr.Startup.{Begins, start_up, refused, listener}
use bdr.Pause.{pause, resume}
use bdr.Ring.{reset_ring}
use bdr.Replica.Copies.{with_target}
use bdr.Session.Start.{dispatch_all}
use bdr.Scan.Complete.{replication}
use bdr.Client.Listen.{arrived, listen_packets}
use bdr.Client.Replicate.{init_replication, replicates-copies}
use bdr.Client.{full_replicate, initiate_shutdown, writing}
use bdr.Client.Start.{finish_run}
use bdr.Examples.Scans.{source, stale}
use mathlib.Core.List.Perm as Rearranged
use bdr.Examples.{header, replica, server, blank, second_write}
use bdr.Examples.Buffers.{client}
use bdr.Examples.Rings.{waiting_ring}

abbrev encode : ℕ → ℕ → ℕ → ℕ → ℕ
encode dir t nr size = dir * 2 ^ 30 + size * 2 ^ 16 + t * 2 ^ 8 + nr

encode-IsDocumented : IsDocumented encode
encode-IsDocumented dir t nr size hd ht hn hs = refl

abbrev module_context : Context
module_context = record { page_size = 4; ring = waiting_ring; status = active; overflow_bits = 8 }

abbrev plain_call : Call
plain_call = record { copies = true; interrupted = false; offset = 0 }

selected_example : selected encode (number write_test_value) ≡ some write_test_value
selected_example = selected-number encode encode-IsDocumented write_test_value

within_example :
    (begin : ℕ) × (get_buffer_info_byte_offset client waiting_ring.info 2 ≡ ok begin)
    × (begin + client.target_info.write_info_size ≤ client.target_info.buffer_byte_size)
unfolding target_info_of put update_unsafe
within_example =
    get_buffer_info_byte_offset-within (record module_context { overflow_bits = 0 }) client
      waiting_ring.info 2 refl refl (omega arith) (omega arith)

client_args_example : (validate_args (some "a") none (some "required") (some 1) ≡ none) ↔ (
    Given required (some "a")
    × Given required none
    × Given required (some "required")
    × Given default_port (some 1))
client_args_example = client_args-Given (some "a") none (some "required") (some 1)

abbrev flags : Flags
flags = record {
  control_device = some "/dev/bdr";
  source_device = some "/dev/source";
  address = some "10.0.0.1";
  port = some 8000;
  verbose = some true;
  debug = none;
  no_print = none;
  no_replication = none;
  benchmark = none;
  full_scan = none;
  full_replication = none;
}

-- The first packet and the first reset are tried twice.
abbrev trouble : Attempt
trouble = fails (record { terminates = false; reconnects = false })

abbrev world : World
world = record {
  char_device = some module_context;
  call = plain_call;
  maps = true;
  dials = true;
  under = some (sound replica);
  sized = true;
  kernel = [];
  link = trouble ∷ [];
  ioctls = trouble ∷ [];
  redials = [];
}

-- The connection is refused.
refused_example :
    Ends (new_client encode (new_config flags) (record world { dials = false }) nothing)
refused_example = new_client-Ends encode (new_config flags) (record world { dials = false })

flags-AsksForScan : AsksForScan flags
unfolding new_config validate_args
flags-AsksForScan = (refl, refl, refl, refl)

world-Opens : Opens world module_context (sound replica)
world-Opens = record {
  char_device = refl;
  under = refl;
  copies = refl;
  maps = refl;
  dials = refl;
  sized = refl;
  link = ((refl, refl), tt);
  ioctls = ((refl, refl), tt);
}

abbrev sum : List ℕ → ℕ
sum [] = 0
sum (x ∷ xs) = x + sum xs

start_up_example :
    (client : Client) × (hello : Packet) × (ask : Packet) × (s' : Server) × (v : Session) × (start
        encode flags world nothing
      ≡ (ok client, everything))
    × (client.sent ≡ hello ∷ ask ∷ [])
    × (client.state ≡ hashing)
    × (handshake (some hello) (
          server_at server
            (sound replica)
            (record (journal_at header blank 128 0 0) { disk = sound blank }))
        ≡ (ok true, s'))
    × (run_session (receives ask ∷ hashes ∷ []) (begin_session s') ≡ (ok tt, v))
    × Begins server replica 128 v
unfolding target_info_of put update_unsafe
start_up_example =
    start_up encode flags world module_context (sound replica) server replica blank
      (journal_at header blank 128 0 0) encode-IsDocumented flags-AsksForScan world-Opens refl
      (omega arith) refl

-- The replica is one byte larger.
refused_start_example :
    (client : Client) × (hello : Packet) × (ask : Packet) × (s' : Server) × (refusal : Packet)
    × (start encode flags world nothing ≡ (ok client, everything))
    × (client.sent ≡ hello ∷ ask ∷ [])
    × (handshake (some hello) (record server { target = sound (7 ∷ replica) }) ≡ (ok false, s'))
    × (s'.sent ≡ refusal ∷ [])
    × (s'.target ≡ sound (7 ∷ replica))
    × (s'.journal ≡ server.journal)
    × (s'.state ≡ State.disconnected)
    × (listen_packets sum 2 (arrived refusal ∷ []) (listener client)
        ≡ some (ok tt, listener (initiate_shutdown client)))
    × (finish_run (initiate_shutdown client, everything) ≡ (initiate_shutdown client, nothing))
refused_start_example =
    refused encode sum flags world module_context (sound replica) server (7 ∷ replica)
      encode-IsDocumented flags-AsksForScan world-Opens (omega arith) refl

replicates_example :
    let c' = init_replication (replication source 2) (full_replicate client) in
    (packets : List Packet) × (c'.sent ≡ client.sent ++ packets)
    × (dispatch_all packets (begin_session (with_target server stale))
        ≡ (ok tt, begin_session (record server { target = sound source; state = State.writing })))
    × (c'.state ≡ writing)
    × (c'.monitor ≡ resume (pause client.monitor))
    × (c'.ring ≡ reset_ring client.ring)
replicates_example =
    replicates-copies source stale 2 (replication source 2) client server refl ((refl, refl), tt)
      ((refl, refl), ((refl, refl), tt)) refl (omega arith) (omega arith) (omega arith)
      (Rearranged.refl (replication source 2))

abbrev server_flags : ServerConfig.Flags
server_flags = record {
  port = some 8000;
  address = some "10.0.0.1";
  target_device = some "/dev/replica";
  journal = some "/dev/journal";
  verbose = none;
  debug = none;
  no_print = none;
  benchmark = none;
}

-- The journal's path is a plain file.
abbrev server_world : Start.World
server_world = record {
  target_mode = some (2 ^ 26);
  journal_mode = some 420;
  target = some (sound replica);
  listens = true;
  journal = journal_at header blank 128 0 0;
  link = [];
}

server_start_example :
    Start.Ends server_flags server_world (Start.start server_flags server_world Start.nothing)
server_start_example = Start.start-Ends server_flags server_world

-- A client that sends no packet, while the goroutine of an earlier one goes on, a failed accept, and
-- another one.
abbrev silent : Visit
silent = record { early = (0, writes) ∷ []; first = none; events = [] }

abbrev rounds : List Accept
rounds = connection 7 silent ∷ failed ∷ meanwhile 0 writes ∷ connection 7 silent ∷ terminates ∷ []

-- One buffer write is left behind.
abbrev one_left : Shared
one_left = record {
  server = server;
  behind = record { trying = none; writes = packets_of (second_write ∷ []); blocks = [] } ∷ [];
}

rounds_example : Follows (handle_connections rounds (idle one_left)) (serve_all rounds one_left)
rounds_example = handle_connections-serve_all rounds one_left

-- The write is made while the next client's first packet is waited for.
late_write :
    (handle_connections rounds (idle one_left)).1.shared.server.target.content
    ≡ overlay replica second_write.offset (take second_write.size second_write.bytes)
unfolding handle_connections handle_client linger_all linger work_writes sync write_at handshake
    wait_for_init_info send_packet
late_write = refl
