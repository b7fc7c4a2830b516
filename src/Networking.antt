-- ===== src/Networking.antt =====
-- user/networking/networking.go: the packets that client and server exchange.
use bdr.Common.{ℕ, ◌+◌, ◌*◌, ◌==◌, Bool, List, not}

abbrev pub hashed_space_base : ℕ
hashed_space_base = 1024 * 256 * 1

abbrev pub write_info_size : ℕ
write_info_size = 4108

abbrev pub correct_block_byte_size : ℕ
correct_block_byte_size = 8 + 4 + hashed_space_base

-- `WriteInfo`, `CorrectBlockInfo` and `ReplicationBlockInfo` have the same three fields: `Offset`,
-- a uint64, `Size`, a uint32, and `Data`, the bytes. (A nil slice is the empty list.)
pub record Extent : Type 0 where
  pub offset : ℕ
  pub size : ℕ
  pub bytes : List ℕ

-- `IsValid` of both `WriteInfo` and `CorrectBlockInfo`.
abbrev pub is_valid : Extent → Bool
is_valid info = not (info.size == 0)

pub record InitInfo : Type 0 where
  pub device_size : ℕ
  pub write_info_size : ℕ
  pub buffer_byte_size : ℕ

pub record HashInfo : Type 0 where
  pub offset : ℕ
  pub size : ℕ
  pub hash : ℕ

-- The uint32 codes, by name; `unknown` is any code that the list does not have.
pub data PacketType : Type 0 where
  cmd_start_hashing cmd_start_full_scan cmd_start_full_replication : PacketType
  info_hashing_completed info_start_hashing info_init : PacketType
  info_replication_completed info_start_replication : PacketType
  err_init err_invalid_sizes err_hash err_journal_create err_journal_overflow : PacketType
  payload_buffer_write payload_hash payload_correct_block payload_replication_block : PacketType
  unknown : ℕ → PacketType

-- The dynamic type of `Payload any` is one that `RegisterGobPackets` registers, or nil.
pub data Payload : Type 0 where
  no_payload : Payload
  write_info : Extent → Payload
  correct_block_info : Extent → Payload
  replication_block_info : Extent → Payload
  hash_info : HashInfo → Payload
  init_info : InitInfo → Payload

pub record Packet : Type 0 where
  pub packet_type : PacketType
  pub payload : Payload

-- `CreateInfoPacket` of server.go and of client.go.
abbrev pub create_info_packet : PacketType → Packet
create_info_packet t = record { packet_type = t; payload = no_payload }
