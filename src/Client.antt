-- ===== src/Client.antt =====
-- user/client/client.go: the client's state, and the steps that its goroutines share.
use bdr.Common.{ℕ, Bool, true, false, if◌then◌else◌, ◌||◌, List, [], ◌∷◌, ◌++◌}
use bdr.Networking.{
  InitInfo, Packet, PacketType, create_info_packet, cmd_start_hashing, cmd_start_full_scan,
  info_start_replication,
}
use bdr.Config.Client.{Config}
use bdr.Device.{Disk}
use bdr.Pause.{PauseController, pause}
use bdr.Benchmark.{BenchmarkStats}
use bdr.Ring.{BufferInfo, Ring, read_routine, reset_ring}
use bdr.Ring.Queue.Reading.{Put}
pub mod Buffer
pub mod Sending
pub mod Endless
pub mod Window
pub mod Process
pub mod Monitor
pub mod Rescan
pub mod Completion
pub mod Delivery
pub mod Listen
pub mod Reconnect
pub mod Hashes
pub mod Repair
pub mod Start
pub mod Replicate

pub data State : Type 0 where
  hashing writing replicating reconnecting : State

pub record TargetInfo : Type 0 where
  pub page_size : ℕ
  pub write_info_size : ℕ
  pub buffer_byte_size : ℕ
  pub bitmap_byte_size : ℕ

-- What other goroutines have done by the time that an attempt has failed: closed `TermChan`, or gone
-- into StateReconnecting.
pub record Change : Type 0 where
  pub terminates : Bool
  pub reconnects : Bool

-- How a call goes that is tried again when it fails.
pub data Attempt : Type 0 where
  works : Attempt
  fails : Change → Attempt

-- How one attempt to reconnect goes: the dial, the size of the device or the first packet fails.
pub data Dial : Type 0 where
  connects : Dial
  refused unsized unsent : Change → Dial

-- `ring` is what the kernel keeps behind `CharDevFile` and `Buf`, and `kernel` the puts that it makes
-- before each of the client's next looks at the buffer. `sent` is what `Encoder` put on the wire;
-- `link` and `ioctls` say how the next calls of `Encode` and of `ioctl` go, and all of them succeed
-- once the list is used up; so do the attempts to reconnect with `dials`. `terminated` says that `TermChan` is closed.
pub record Client : Type 0 where
  pub target_info : TargetInfo
  pub under : Disk
  pub ring : Ring
  pub kernel : List (List Put)
  pub state : State
  pub monitor : PauseController
  pub terminated : Bool
  pub stats : BenchmarkStats
  pub sent : List Packet
  pub link : List Attempt
  pub ioctls : List Attempt
  pub dials : List Dial

-- `CheckTermination`.
abbrev pub check_termination : Client → Bool
check_termination c = c.terminated

abbrev pub set_state : State → Client → Client
set_state state c = record c { state = state }

abbrev pub initiate_shutdown : Client → Client
initiate_shutdown c = record c { terminated = true }

abbrev pub changed : Change → Client → Client
changed ch c = record c {
  terminated = c.terminated || ch.terminates;
  state = if ch.reconnects then reconnecting else c.state;
}

abbrev pub delivered : Packet → List Attempt → Client → Client
delivered packet link c = record c { sent = c.sent ++ packet ∷ []; link = link }

-- `SendPacket`: what is left of `link` is tried, until a call succeeds or the client terminates.
abbrev pub send_attempts : List Attempt → Packet → Client → Client
send_attempts [] packet c = delivered packet [] c
send_attempts (works ∷ link) packet c = delivered packet link c
send_attempts (fails ch ∷ link) packet c =
    let c' = changed ch c in
    let rest = send_attempts link packet c' in
    if check_termination c' then record c' { link = link } else rest

unfoldable pub send_packet : Packet → Client → Client
send_packet packet c = send_attempts c.link packet c

-- The commands of ioctl.go that the client gives, and what they do in the kernel module.
pub data Command : Type 0 where
  read_buffer_info reset_buffer : Command

-- The zero value of `var bufferInfo BufferInfo`.
abbrev pub zero_info : BufferInfo
zero_info = record { offset = 0; length = 0; last = 0; flags = 0; max_writes = 0 }

unfoldable pub execute_ioctl : Command → Ring → BufferInfo × Ring
execute_ioctl read_buffer_info r = read_routine r
execute_ioctl reset_buffer r = (zero_info, reset_ring r)

abbrev pub executed : BufferInfo × Ring → List Attempt → Client → BufferInfo × Client
executed (info, r) ioctls c = (info, record c { ring = r; ioctls = ioctls })

-- `ServeIOCTL`, with the value that the pointer argument has then.
abbrev pub serve_attempts : List Attempt → Command → Client → BufferInfo × Client
serve_attempts [] cmd c =
    if check_termination c then (zero_info, c) else executed (execute_ioctl cmd c.ring) [] c
serve_attempts (works ∷ ioctls) cmd c =
    if check_termination c then (zero_info, c) else executed (execute_ioctl cmd c.ring) ioctls c
serve_attempts (fails ch ∷ ioctls) cmd c =
    let c' = record (changed ch c) { ioctls = ioctls } in
    let rest = serve_attempts ioctls cmd c' in
    if check_termination c
    then (zero_info, c)
    else if check_termination c'
    then (zero_info, c')
    else rest

unfoldable pub serve_ioctl : Command → Client → BufferInfo × Client
unfolding execute_ioctl
serve_ioctl cmd c = serve_attempts c.ioctls cmd c

abbrev pub reset_buffer_ioctl : Client → Client
reset_buffer_ioctl c = (serve_ioctl reset_buffer c).1

abbrev pub pause_monitor : Client → Client
pause_monitor c = record c { monitor = pause c.monitor }

unfoldable pub start_hashing : Client → Client
unfolding send_packet
start_hashing c =
    let c1 = set_state hashing (pause_monitor (reset_buffer_ioctl c)) in
    send_packet (create_info_packet cmd_start_hashing) c1

abbrev pub full_scan : Client → Client
full_scan c =
    let c1 = set_state hashing (pause_monitor (reset_buffer_ioctl c)) in
    send_packet (create_info_packet cmd_start_full_scan) c1

unfoldable pub full_replicate : Client → Client
unfolding send_packet
full_replicate c =
    let c1 = set_state replicating (pause_monitor (reset_buffer_ioctl c)) in
    send_packet (create_info_packet info_start_replication) c1

-- What `Run` starts with, by the flags.
unfoldable pub begin_run : Config → Client → Client
unfolding full_replicate start_hashing
begin_run config c =
    if config.full_scan
    then full_scan c
    else if config.full_replicate
    then full_replicate c
    else if config.initial_replication
    then start_hashing c
    else c
