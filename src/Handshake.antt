-- ===== src/Handshake.antt =====
-- user/server/server.go: the beginning of `HandleClient`, `WaitForInitInfo` and `CheckValidSizes`.
use bdr.Common.{
  Bool, true, false, if◌then◌else◌, Option, none, some, M, Outcome, ok, err, panic, pure, throw,
  ignore, get_state, or_error, ◌>>=◌, ◌>>◌, ◌==◌, server_failure, bad_payload,
}
use bdr.Networking.{InitInfo, Packet, PacketType, Payload, init_info, create_info_packet}
use bdr.Device.{get_device_size}
use bdr.Server.{Server, State, on_target, set_state, send_packet}
use bdr.Replica.{create_journal}
pub mod Accepted

-- The packet is an init packet.
abbrev is_init : PacketType → Bool
is_init PacketType.info_init = true
is_init _ = false

abbrev as_init_info : Payload → M Server InitInfo
as_init_info (init_info info) = pure info
as_init_info _ = throw bad_payload

abbrev set_client_info : InitInfo → M Server (Unit {0})
set_client_info info s = (ok tt, record s { client_info = info })

-- `none` is a failure of `Decode`.
unfoldable pub wait_for_init_info : Option Packet → M Server (Unit {0})
wait_for_init_info none = throw server_failure
wait_for_init_info (some packet) = do
  if is_init packet.packet_type then pure tt else throw bad_payload
  info ← as_init_info packet.payload
  set_client_info info

unfoldable pub check_valid_sizes : M Server (Unit {0})
check_valid_sizes = do
  device_size ← or_error server_failure (on_target get_device_size)
  s ← get_state
  if device_size == s.client_info.device_size then pure tt else throw server_failure

-- `if err := step(); err != nil { send the packet; return }`, and else what follows: the result says
-- whether the client is accepted.
abbrev checked : Outcome (Unit {0}) → PacketType → M Server Bool → M Server Bool
checked (ok _) refusal rest = rest
checked (err e) refusal rest = do
  ignore (send_packet (create_info_packet refusal))
  set_state State.disconnected
  pure false
checked panic refusal rest = λ s. (panic, s)

abbrev guard : M Server (Unit {0}) → PacketType → M Server Bool → M Server Bool
guard step refusal rest s = let (o, s') = step s in checked o refusal rest s'

unfoldable pub handshake : Option Packet → M Server Bool
handshake packet = do
  set_state State.writing
  guard (wait_for_init_info packet) PacketType.err_init (
      guard check_valid_sizes PacketType.err_invalid_sizes
        (guard create_journal PacketType.err_journal_create (pure true)))
