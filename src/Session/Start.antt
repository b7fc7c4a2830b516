-- ===== src/Session/Start.antt =====
-- How a scan begins: `HashDisk` resets the journal.
use bdr.Common.{ℕ, ◌≡◌, refl, false, List, [], ◌∷◌, ◌++◌, length, ok, M, pure, ◌>>◌, arith}
use bdr.Device.{Disk}
use bdr.Networking.{Extent, Packet, PacketType, create_info_packet}
use bdr.Header.{Header, set_invalid_flag}
use bdr.Journal.Contents.{IsLaidOut, Contains}
use bdr.Journal.Reset.{journal_at, reset_content, reset_to_sound, reset_content-Contains}
use bdr.Server.{Server, send_packet}
use bdr.Replica.{is_destroying}
use bdr.Replica.Recovery.{server_at}
use bdr.Session.{Session, dispatch, begin_hash_disk}

-- The server when the scan has begun over a link that works, with this header and device.
abbrev pub begun : Server → Disk → Header → List ℕ → ℕ → Server
begun s d h c n =
    let told : Server = record s {
      sent = s.sent ++ create_info_packet PacketType.info_start_hashing ∷ [];
    } in
    server_at told d (journal_at h c n 0 0)

-- When a scan with the journal begins, over a link that works, the journal is emptied and not valid,
-- whatever it held, and the client is told; the replica is not touched.
pub begin_hash_disk-Contains :
    (s : Server) (d : Disk) (h : Header) (c : List ℕ) (n : ℕ) (bs ws : List Extent)
    → Contains h c bs ws
    → is_destroying s.state ≡ false
    → s.link ≡ []
    → (c' : List ℕ) × (begin_hash_disk (server_at s d (journal_at h c n (length ws) (length bs)))
        ≡ (ok tt, begun s d (set_invalid_flag h) c' n))
      × Contains (set_invalid_flag h) c' [] []
unfolding begin_hash_disk send_packet
begin_hash_disk-Contains s d h c n bs ws k live link =
    let hw = k.writes.capped in
    let hk = k.blocks.capped in
    (
      reset_content h (length ws) (length bs) c,
      rw
          (
            live,
            reset_to_sound h c n (length ws) (length bs) (length ws) (length bs) k.laid_out hw hk,
            link,
          )
          refl,
      reset_content-Contains h c (length ws) (length bs) k.laid_out hw hk k.writes.empty
          k.blocks.empty,
    )

-- The same with a journal that `NewJournal` has just laid out, whatever its device held.
pub begin_hash_disk-fresh :
    (s : Server) (d : Disk) (h : Header) (c : List ℕ) (n : ℕ)
    → IsLaidOut h (length c)
    → is_destroying s.state ≡ false
    → s.link ≡ []
    → (c' : List ℕ) × (begin_hash_disk
          (server_at s d (journal_at h c n h.buf_writes_count h.corr_blocks_count))
        ≡ (ok tt, begun s d (set_invalid_flag h) c' n))
      × Contains (set_invalid_flag h) c' [] []
unfolding begin_hash_disk send_packet
begin_hash_disk-fresh s d h c n laid live link =
    let w = h.buf_writes_count in
    let k = h.corr_blocks_count in
    (
      reset_content h w k c,
      rw (live, reset_to_sound h c n w k w k laid (omega arith) (omega arith), link) refl,
      reset_content-Contains h c w k laid (omega arith) (omega arith)
          (λ j lo hi. absurd (omega arith)) (λ j lo hi. absurd (omega arith)),
    )

unfoldable pub dispatch_all : List Packet → M Session (Unit {0})
dispatch_all [] = pure tt
dispatch_all (packet ∷ packets) = dispatch packet >> dispatch_all packets
