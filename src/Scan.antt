-- ===== src/Scan.antt =====
-- Scans and full replication, block by block: `HashDisk` of user/server/server.go, `InitHashing`
-- and `InitReplication` of user/client/client.go. The goroutines of a stage take its items from a
-- channel in any order; each function here is what one of them does with one item.
use bdr.Common.{
  ℕ, zero, suc, ◌+◌, ◌-◌, ◌/◌, Bool, List, [], ◌∷◌, ◌++◌, Option, none, some, if◌then◌else◌,
}
use bdr.Common.{ltb, ◌==◌, not, length, replicate, overlay, u64, u32, map}
use bdr.Networking.{Extent, HashInfo, Packet, create_info_packet, hashed_space_base}
use bdr.Networking.{err_hash, payload_hash, hash_info, payload_correct_block, correct_block_info}
use bdr.Networking.{payload_replication_block, replication_block_info}
use bdr.Device.{Disk, read_at, ReadEnd, full, eof, failed}
pub mod Blocks
pub mod Plan
pub mod Order
pub mod Stages
pub mod Complete

-- `for offset := uint64(0); offset < total; offset += step`, with fuel for the rounds.
unfoldable pub offsets : ℕ → ℕ → ℕ → ℕ → List ℕ
offsets zero off total step = []
offsets (suc fuel) off total step =
    let rest = offsets fuel (u64 (off + step)) total step in
    if ltb off total then off ∷ rest else []

-- One round for every block, and one to stop.
abbrev pub enough : ℕ → ℕ → ℕ
enough total step = total / step + 1

-- A `resultItem` of `HashDisk`.
pub record ResultItem : Type 0 where
  pub offset : ℕ
  pub size : ℕ
  pub hash : ℕ
  pub failed : Bool

module _ (hash : List ℕ → ℕ) where
  -- A block that was read: nothing at the end of the disk, else its hash. (`hash` is xxh3.)
  abbrev hashed : ℕ → List ℕ × ReadEnd → Option ResultItem
  hashed off (bs, failed) = some (record { offset = off; size = 0; hash = 0; failed = Bool.true })
  hashed off (bs, _) =
      if length bs == 0
      then none
      else some
          (record { offset = off; size = u32 (length bs); hash = hash bs; failed = Bool.false })

  -- The server's two stages for the task at `off`.
  unfoldable pub hash_task : ℕ → ℕ → Disk → Option ResultItem × Disk
  unfolding read_at
  hash_task read_size off d = let (r, d') = read_at read_size off d in (hashed off r, d')

-- What `HashDisk` sends for a result: after an error, an error packet and then the hash all the same.
unfoldable pub result_packets : ResultItem → List Packet
result_packets r =
    let info : HashInfo = record { offset = r.offset; size = r.size; hash = r.hash } in
    let packet : Packet = record { packet_type = payload_hash; payload = hash_info info } in
    if r.failed then create_info_packet err_hash ∷ packet ∷ [] else packet ∷ []

-- What the client does with one hash of the server.
pub data CheckResult : Type 0 where
  rescan : CheckResult
  equal : CheckResult
  correct : Extent → CheckResult

module _ (hash : List ℕ → ℕ) where
  -- `buf`, of `info.Size` zeros, was read into; a short read leaves zeros behind.
  abbrev compared : HashInfo → List ℕ × ReadEnd → CheckResult
  compared info (bs, failed) = rescan
  compared info (bs, _) =
      let buf = overlay (replicate info.size 0) 0 bs in
      if not (hash buf == info.hash)
      then correct (record { offset = info.offset; size = info.size; bytes = buf })
      else equal

  unfoldable pub check_hash : HashInfo → Disk → CheckResult × Disk
  unfolding read_at
  check_hash info d = let (r, d') = read_at info.size info.offset d in (compared info r, d')

-- `InitReplication`: the block at `offset`, the last one shorter, and the packet that it becomes.
abbrev pub item_size : ℕ → ℕ → ℕ → ℕ
item_size block_size disk_size offset =
    if ltb disk_size (u64 (offset + u32 block_size))
    then u32 (disk_size - offset)
    else u32 block_size

abbrev replicated : ℕ → ℕ → List ℕ × ReadEnd → Option Extent
replicated offset size (bs, failed) = none
replicated offset size (bs, _) =
    some (record { offset = offset; size = size; bytes = overlay (replicate size 0) 0 bs })

unfoldable pub replicate_block : ℕ → ℕ → ℕ → Disk → Option Extent × Disk
unfolding read_at
replicate_block block_size disk_size offset d =
    let size = item_size block_size disk_size offset in
    let (r, d') = read_at size offset d in (replicated offset size r, d')

-- `SendCorrectBlock` and `SendReplicationBlock`.
abbrev pub correct_block_packet : Extent → Packet
correct_block_packet x = record {
  packet_type = payload_correct_block;
  payload = correct_block_info x;
}

abbrev pub replication_packet : Extent → Packet
replication_packet x = record {
  packet_type = payload_replication_block;
  payload = replication_block_info x;
}

abbrev pub cons_some {ℓ} : {A : Type ℓ} → Option A → List A → List A
cons_some none xs = xs
cons_some (some a) xs = a ∷ xs

-- All items of a stage, in the order of their offsets.
unfoldable pub collect {ℓ} :
    {A : Type ℓ} → (ℕ → Disk → Option A × Disk) → List ℕ → Disk → List A × Disk
collect task [] d = ([], d)
collect task (o ∷ os) d =
    let (r, d1) = task o d in let (rs, d2) = collect task os d1 in (cons_some r rs, d2)

-- The hashes of the results, as the client gets them.
abbrev pub info_of : ResultItem → HashInfo
info_of r = record { offset = r.offset; size = r.size; hash = r.hash }

abbrev pub correct_of : CheckResult → Option Extent
correct_of rescan = none
correct_of equal = none
correct_of (correct x) = some x

-- The correct blocks that the client sends for the hashes it is given.
unfoldable pub corrections : (List ℕ → ℕ) → List HashInfo → Disk → List Extent × Disk
corrections hash [] d = ([], d)
corrections hash (info ∷ infos) d =
    let (r, d1) = check_hash hash info d in
    let (xs, d2) = corrections hash infos d1 in (cons_some (correct_of r) xs, d2)
