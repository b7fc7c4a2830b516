-- ===== src/Replica/Whole.antt =====
-- `WriteJournalToReplica` where nothing fails.
use bdr.Common.{ℕ, ◌^◌, ◌<◌, ◌≡◌, refl, List, ◌++◌, length, ok, All}
use bdr.Device.{sound, sync}
use bdr.Device.Overlays.{apply_all, apply_all-append, length-apply_all}
use bdr.Networking.{Extent}
use bdr.Header.{Header, set_valid_flag}
use bdr.Journal.Contents.{Contains}
use bdr.Journal.Reset.{
  journal_at, with_header, validate_sound, invalidate_sound, Contains-set_valid_flag,
}
use bdr.Server.{Server}
use bdr.Replica.{write_journal_to_replica}
use bdr.Replica.Copies.{InRange, replay_blocks_sound, replay_writes_sound}
use bdr.Replica.Recovery.{server_at, validated, revoked, Contains-Reads}
use bdr.Replica.Restart.{All-append_left}

-- On sound devices `WriteJournalToReplica` puts all blocks and then all writes on the replica, where
-- they lie, and ends with the journal not valid.
pub write_journal_to_replica-sound :
    (s : Server) (t : List ℕ) (h : Header) (c : List ℕ) (n : ℕ) (bs ws : List Extent)
    → Contains h c bs ws
    → All (InRange (length t)) (bs ++ ws)
    → length t < 2 ^ 63
    → write_journal_to_replica (server_at s (sound t) (journal_at h c n (length ws) (length bs)))
      ≡ (
        ok tt,
        server_at s (sound (apply_all t (bs ++ ws))) (
            revoked
              (set_valid_flag h)
              (with_header (set_valid_flag h) c)
              n
              (length ws)
              (length bs)),
      )
unfolding write_journal_to_replica sync
write_journal_to_replica-sound s t h c n bs ws k fits small =
    let hv = set_valid_flag h in
    let cv = with_header hv c in
    let kv = Contains-set_valid_flag h c bs ws k in
    let j = validated h c n (length ws) (length bs) in
    let (rb, rws) = Contains-Reads hv cv n (length ws) (length bs) bs ws kv in
    let (fb, fw) = All-append_left (InRange (length t)) bs ws fits in
    let t1 = apply_all t bs in
    let n1 : length t1 ≡ length t = length-apply_all t bs in
    rw
      (
        validate_sound h c n (length ws) (length bs) k.laid_out,
        replay_blocks_sound bs 0 (server_at s (sound t) j) t rb fb small,
        replay_writes_sound ws 0 (server_at s (sound t1) j) t1 rws (rw n1 fw) (rw n1 small),
        invalidate_sound hv cv n (length ws) (length bs) kv.laid_out,
        apply_all-append t bs ws,
      )
      refl
