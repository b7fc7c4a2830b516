-- ===== src/Replica/Recovery.antt =====
-- `WriteJournalToReplica` on every plan of faults of the replica, and `CheckJournal` after it.
use bdr.Common.{
  ℕ, ◌+◌, ◌≤◌, ◌≡◌, refl, sym, ◌∙◌, ap, arith, List, [], ◌∷◌, ◌++◌, length, ok, err, Outcome,
  Outcome-cases, inl, inr, ◌⊎◌, Error,
}
use bdr.Device.{Disk, sync}
use bdr.Device.Faults.{ignore_sync, content-sync}
use bdr.Device.Overlays.{
  apply_all, apply_all-append, Agree, Agree-trans, Agree-apply_all, WritesWithin,
  IsUntouched-append,
}
use bdr.Networking.{Extent}
use bdr.Header.{Header, set_valid_flag, set_invalid_flag}
use bdr.Slot.RoundTrip.{deserialize_info-slot_bytes}
use bdr.Section.{write_section, correct_section}
use bdr.Section.Log.{HoldsFrom}
use bdr.Section.Slots.{IsPlaced, read_slot-sound}
use bdr.Journal.{Journal, invalidate, read_correct_block, read_buffer_write}
use bdr.Journal.Contents.{Contains}
use bdr.Journal.Reset.{
  journal_at, with_header, validate_sound, invalidate_sound, Contains-set_valid_flag,
}
use bdr.Common.{M, ignore, or_error, server_failure, ◌>>◌}
use bdr.Server.{Server, on_target, on_journal}
use bdr.Replica.{replay_writes, write_journal_to_replica}
use bdr.Replica.Puts.{
  Reads, Put, put_blocks, put_writes, put_blocks-Put, put_writes-Put, replay_blocks-put,
  replay_writes-put,
}

Reads-blocks :
    (h : Header) (c : List ℕ) (n w k i : ℕ) (bs : List Extent)
    → IsPlaced (correct_section h) (length c)
    → HoldsFrom (correct_section h) c i bs
    → i + length bs ≤ h.corr_blocks_count
    → Reads read_correct_block (journal_at h c n w k) i bs
unfolding read_correct_block
Reads-blocks h c n w k i [] p holds cap = tt
Reads-blocks h c n w k i (x ∷ xs) p (e, f, v, rest) cap = (
  rw
      (
        read_slot-sound (correct_section h) i c p (omega arith),
        e,
        deserialize_info-slot_bytes h.corr_block_byte_size x f,
      )
      refl,
  f.all,
  Reads-blocks h c n w k (i + 1) xs p rest (omega arith),
)

Reads-writes :
    (h : Header) (c : List ℕ) (n w k i : ℕ) (ws : List Extent)
    → IsPlaced (write_section h) (length c)
    → HoldsFrom (write_section h) c i ws
    → i + length ws ≤ h.buf_writes_count
    → Reads read_buffer_write (journal_at h c n w k) i ws
unfolding read_buffer_write
Reads-writes h c n w k i [] p holds cap = tt
Reads-writes h c n w k i (x ∷ xs) p (e, f, v, rest) cap = (
  rw
      (
        read_slot-sound (write_section h) i c p (omega arith),
        e,
        deserialize_info-slot_bytes h.buf_write_byte_size x f,
      )
      refl,
  f.all,
  Reads-writes h c n w k (i + 1) xs p rest (omega arith),
)

pub Contains-Reads :
    (h : Header) (c : List ℕ) (n w k : ℕ) (bs ws : List Extent)
    → Contains h c bs ws
    → Reads read_correct_block (journal_at h c n w k) 0 bs
      × Reads read_buffer_write (journal_at h c n w k) 0 ws
Contains-Reads h c n w k bs ws holds = (
  Reads-blocks h c n w k 0 bs holds.blocks.placed holds.blocks.holds (omega (arith, holds.blocks)),
  Reads-writes h c n w k 0 ws holds.writes.placed holds.writes.holds (omega (arith, holds.writes)),
)

abbrev pub server_at : Server → Disk → Journal → Server
server_at s d j = record s { target = d; journal = j }

-- The header and the device with the flag set, and then cleared again.
abbrev pub validated : Header → List ℕ → ℕ → ℕ → ℕ → Journal
validated h c n w k = journal_at (set_valid_flag h) (with_header (set_valid_flag h) c) n w k

abbrev pub revoked : Header → List ℕ → ℕ → ℕ → ℕ → Journal
revoked h c n w k = let hi = set_invalid_flag h in journal_at hi (with_header hi c) n w k

within_left : (bs ws : List Extent) → WritesWithin bs (bs ++ ws)
within_left bs ws p u = (IsUntouched-append p bs ws u).0

within_right : (bs ws : List Extent) → WritesWithin ws (bs ++ ws)
within_right bs ws p u = (IsUntouched-append p bs ws u).1

-- How `WriteJournalToReplica` ends.
abbrev pub Replayed :
    Header → List ℕ → ℕ → List Extent → List Extent → Disk → Outcome (Unit {0}) → Server → Type 0
Replayed h c n bs ws d o s' =
    ((o ≡ ok tt)
      × (s'.target.content ≡ apply_all d.content (bs ++ ws))
      × (s'.journal
          ≡ revoked (set_valid_flag h) (with_header (set_valid_flag h) c) n (length ws)
              (length bs)))
    ⊎ ((e : Error) × (o ≡ err e)
        × Agree (bs ++ ws) d.content s'.target.content
        × (s'.journal ≡ validated h c n (length ws) (length bs)))

-- Behind the loop over the correct blocks.
abbrev second_half : ℕ → M Server (Unit {0})
second_half w = do
  ignore (on_target sync)
  replay_writes w 0
  or_error server_failure (on_journal invalidate)

second_half-Replayed :
    (s : Server) (d d1 : Disk) (h : Header) (c : List ℕ) (n : ℕ) (bs ws : List Extent)
    → Contains h c bs ws
    → d1.content ≡ apply_all d.content bs
    → Agree (bs ++ ws) d.content d1.content
    → let r = second_half (length ws) (server_at s d1 (validated h c n (length ws) (length bs))) in
      Replayed h c n bs ws d r.0 r.1
second_half-Replayed s d d1 h c n bs ws k e1 a =
    let hv = set_valid_flag h in
    let cv = with_header hv c in
    let k1 = Contains-set_valid_flag h c bs ws k in
    let j1 = validated h c n (length ws) (length bs) in
    let reads = Contains-Reads hv cv n (length ws) (length bs) bs ws k1 in
    let d2 : Disk = (sync d1).1 in
    let p = put_writes ws d2 in
    let put : Put (bs ++ ws) ws d1.content p.0 p.1.content =
      rw (content-sync d1) at (put_writes-Put (bs ++ ws) ws d2 (within_right bs ws)) in
    rw (ignore_sync d1, replay_writes-put ws 0 (server_at s d2 j1) reads.1)
      (elim (Outcome-cases p.0) [
        | inl e ↦
            rw (e, invalidate_sound hv cv n (length ws) (length bs) k1.laid_out)
              (inl (
                refl,
                rw e at put ∙ ap (λ z. apply_all z ws) e1 ∙ sym (apply_all-append d.content bs ws),
                refl,
              ))
        | inr (inl (x, e)) ↦ rw e (
            inr (
              x,
              refl,
              Agree-trans (bs ++ ws) d.content d1.content p.1.content a (rw e at put),
              refl,
            ))
        | inr (inr e) ↦ absurd (rw e at put)
      ])

-- On every plan of faults of the replica, `WriteJournalToReplica` either makes all writes and
-- takes the valid flag back, or fails with the journal still marked valid and the replica changed
-- only where the journal has bytes for it.
pub write_journal_to_replica-Replayed :
    (s : Server) (d : Disk) (h : Header) (c : List ℕ) (n : ℕ) (bs ws : List Extent)
    → Contains h c bs ws
    → let r = write_journal_to_replica (server_at s d (journal_at h c n (length ws) (length bs))) in
      Replayed h c n bs ws d r.0 r.1
unfolding write_journal_to_replica
write_journal_to_replica-Replayed s d h c n bs ws k =
    let k1 = Contains-set_valid_flag h c bs ws k in
    let j1 = validated h c n (length ws) (length bs) in
    let reads =
      Contains-Reads (set_valid_flag h) (with_header (set_valid_flag h) c) n (length ws) (length bs)
        bs ws k1 in
    let p = put_blocks bs d in
    let put = put_blocks-Put (bs ++ ws) bs d (within_left bs ws) in
    rw
      (
        validate_sound h c n (length ws) (length bs) k.laid_out,
        replay_blocks-put bs 0 (server_at s d j1) reads.0,
      )
      (elim (Outcome-cases p.0) [
        | inl e ↦
            let done : p.1.content ≡ apply_all d.content bs = rw e at put in
            rw e (
              second_half-Replayed s d p.1 h c n bs ws k done
                (Agree-apply_all (bs ++ ws) bs d.content p.1.content (within_left bs ws) done))
        | inr (inl (x, e)) ↦ rw e (inr (x, refl, rw e at put, refl))
        | inr (inr e) ↦ absurd (rw e at put)
      ])
