-- ===== src/Replica/Restart.antt =====
-- `CheckJournal` when the server starts again.
use bdr.Common.{
  ℕ, ◌^◌, ◌<◌, ◌≡◌, refl, sym, ap, List, [], ◌∷◌, ◌++◌, length, ok, Outcome, inl, inr, true, false,
  All,
}
use bdr.Device.{Disk, sound, sync}
use bdr.Device.Overlays.{apply_all, apply_all-append, apply_all-Agree, length-apply_all}
use bdr.Networking.{Extent}
use bdr.Header.{Header, set_valid_flag, set_invalid_flag, header_is_valid}
use bdr.Header.Flags.{header_is_valid-set_valid_flag, header_is_valid-set_invalid_flag}
use bdr.Journal.{Journal, is_valid_journal}
use bdr.Journal.Contents.{Contains}
use bdr.Journal.Reset.{
  journal_at, with_header, invalidate_sound, Contains-set_valid_flag, Contains-set_invalid_flag,
}
use bdr.Journal.Open.{open_journal-room, open_journal-full}
use bdr.Server.{Server}
use bdr.Replica.{write_journal_to_replica, check_journal, copy_journal_to_replica}
use bdr.Replica.Copies.{InRange, copy_blocks_sound, copy_writes_sound}
use bdr.Replica.Recovery.{
  server_at, revoked, Replayed, Contains-Reads, write_journal_to_replica-Replayed,
}

pub All-append_left {ℓ} :
    {A : Type ℓ} (P : A → Type 0) (xs ys : List A) → All P (xs ++ ys) → All P xs × All P ys
All-append_left P [] ys h = (tt, h)
All-append_left P (x ∷ xs) ys (p, h) = let (l, r) = All-append_left P xs ys h in ((p, l), r)

-- `CopyJournalToReplica` on sound devices puts all blocks and then all writes on the replica, where
-- they lie, and takes the valid flag back.
pub copy_journal_to_replica-sound :
    (s : Server) (t : List ℕ) (h : Header) (c : List ℕ) (n : ℕ) (bs ws : List Extent)
    → Contains h c bs ws
    → All (InRange (length t)) (bs ++ ws)
    → length t < 2 ^ 63
    → copy_journal_to_replica (server_at s (sound t) (journal_at h c n (length ws) (length bs))) ≡ (
      ok tt,
      server_at s (sound (apply_all t (bs ++ ws))) (revoked h c n (length ws) (length bs)),
    )
unfolding copy_journal_to_replica sync
copy_journal_to_replica-sound s t h c n bs ws k fits small =
    let j = journal_at h c n (length ws) (length bs) in
    let (rb, rws) = Contains-Reads h c n (length ws) (length bs) bs ws k in
    let (fb, fw) = All-append_left (InRange (length t)) bs ws fits in
    let t1 = apply_all t bs in
    let n1 : length t1 ≡ length t = length-apply_all t bs in
    rw
      (
        copy_blocks_sound bs 0 (server_at s (sound t) j) t rb fb small,
        copy_writes_sound ws 0 (server_at s (sound t1) j) t1 rws (rw n1 fw) (rw n1 small),
        invalidate_sound h c n (length ws) (length bs) k.laid_out,
        apply_all-append t bs ws,
      )
      refl

-- On sound devices `CheckJournal` copies a journal that is marked valid and has room in both sections
-- to the replica, all blocks and then all writes, and takes the valid flag back; the entries lie on
-- the replica.
pub check_journal-valid :
    (s : Server) (t : List ℕ) (h h0 : Header) (c : List ℕ) (n0 w0 k0 : ℕ) (bs ws : List Extent)
    → Contains h c bs ws
    → header_is_valid h ≡ true
    → length bs < h.corr_blocks_count
    → length ws < h.buf_writes_count
    → All (InRange (length t)) (bs ++ ws)
    → length t < 2 ^ 63
    → check_journal (server_at s (sound t) (journal_at h0 c n0 w0 k0)) ≡ (
      ok tt,
      server_at s (sound (apply_all t (bs ++ ws))) (revoked h c (length c) (length ws) (length bs)),
    )
unfolding check_journal is_valid_journal
check_journal-valid s t h h0 c n0 w0 k0 bs ws k valid hb hw fits small =
    rw
      (
        open_journal-room h c bs ws k hb hw,
        valid,
        copy_journal_to_replica-sound s t h c (length c) bs ws k fits small,
      )
      refl

-- `CheckJournal` leaves the replica alone, whatever faults it has ahead, and the journal's device,
-- when the journal has room in both sections and is not marked valid.
pub check_journal-invalid :
    (s : Server) (t : Disk) (h h0 : Header) (c : List ℕ) (n0 w0 k0 : ℕ) (bs ws : List Extent)
    → Contains h c bs ws
    → header_is_valid h ≡ false
    → length bs < h.corr_blocks_count
    → length ws < h.buf_writes_count
    → check_journal (server_at s t (journal_at h0 c n0 w0 k0))
      ≡ (ok tt, server_at s t (journal_at h c (length c) (length ws) (length bs)))
unfolding check_journal is_valid_journal
check_journal-invalid s t h h0 c n0 w0 k0 bs ws k invalid hb hw =
    rw (open_journal-room h c bs ws k hb hw, invalid) refl

-- `CheckJournal` copies nothing of a journal whose write section is full, marked valid or not; it
-- returns without an error, and the server stays as it is.
pub check_journal-full :
    (s : Server) (t : Disk) (h h0 : Header) (c : List ℕ) (n0 w0 k0 : ℕ) (bs ws : List Extent)
    → Contains h c bs ws
    → length ws ≡ h.buf_writes_count
    → check_journal (server_at s t (journal_at h0 c n0 w0 k0))
      ≡ (ok tt, server_at s t (journal_at h0 c n0 w0 k0))
unfolding check_journal
check_journal-full s t h h0 c n0 w0 k0 bs ws k hw = rw (open_journal-full h c bs ws k hw) refl

-- The server started again, with devices that work.
abbrev pub restarted : Server → Server
restarted s =
    server_at s (sound s.target.content)
      (let j : Journal = s.journal in record j { disk = sound s.journal.disk.content })

restarted-eq :
    (s : Server) (h : Header) (c : List ℕ) (n w k : ℕ)
    → s.journal ≡ journal_at h c n w k
    → restarted s ≡ server_at s (sound s.target.content) (journal_at h c n w k)
restarted-eq s h c n w k e =
    ap
      (λ (j : Journal).
        server_at s (sound s.target.content) (record j { disk = sound j.disk.content }))
      e

check_journal-Replayed :
    (s : Server) (d : Disk) (h : Header) (c : List ℕ) (n : ℕ) (bs ws : List Extent)
    (o : Outcome (Unit {0}))
    → Contains h c bs ws
    → length bs < h.corr_blocks_count
    → length ws < h.buf_writes_count
    → All (InRange (length d.content)) (bs ++ ws)
    → length d.content < 2 ^ 63
    → Replayed h c n bs ws d o s
    → let r = check_journal (restarted s) in
      (r.0 ≡ ok tt) × (r.1.target.content ≡ apply_all d.content (bs ++ ws))
unfolding set_valid_flag set_invalid_flag
check_journal-Replayed s d h c n bs ws o k hb hw fits small (inl (e, t, j)) =
    let hv = set_valid_flag h in
    let cv = with_header hv c in
    let hi = set_invalid_flag hv in
    let ci = with_header hi cv in
    let ki = Contains-set_invalid_flag hv cv bs ws (Contains-set_valid_flag h c bs ws k) in
    rw
      (
        restarted-eq s hi ci n (length ws) (length bs) j,
        check_journal-invalid s (sound s.target.content) hi hi ci n (length ws) (length bs) bs ws ki
            (header_is_valid-set_invalid_flag hv) hb hw,
      )
      (refl, t)
check_journal-Replayed s d h c n bs ws o k hb hw fits small (inr (x, e, a, j)) =
    let hv = set_valid_flag h in
    let cv = with_header hv c in
    let kv = Contains-set_valid_flag h c bs ws k in
    let t = s.target.content in
    rw
      (
        restarted-eq s hv cv n (length ws) (length bs) j,
        check_journal-valid s t hv hv cv n (length ws) (length bs) bs ws kv
            (header_is_valid-set_valid_flag h) hb hw (rw a.length at fits) (rw a.length at small),
      )
      (refl, sym (apply_all-Agree (bs ++ ws) d.content t a))

-- A server whose replica fails at any call while `WriteJournalToReplica` runs, even in the middle of
-- a write, has after a restart with working devices the replica that an undisturbed run gives: all
-- correct blocks and then all buffer writes, in order. The journal's device works throughout, the
-- journal has room left in both sections, and its entries lie on the replica.
pub crash_recovery :
    (s : Server) (d : Disk) (h : Header) (c : List ℕ) (n : ℕ) (bs ws : List Extent)
    → Contains h c bs ws
    → length bs < h.corr_blocks_count
    → length ws < h.buf_writes_count
    → All (InRange (length d.content)) (bs ++ ws)
    → length d.content < 2 ^ 63
    → let s1 =
        (write_journal_to_replica (server_at s d (journal_at h c n (length ws) (length bs)))).1 in
      let r = check_journal (restarted s1) in
      (r.0 ≡ ok tt) × (r.1.target.content ≡ apply_all d.content (bs ++ ws))
crash_recovery s d h c n bs ws k hb hw fits small =
    let r = write_journal_to_replica (server_at s d (journal_at h c n (length ws) (length bs))) in
    check_journal-Replayed r.1 d h c n bs ws r.0 k hb hw fits small
      (write_journal_to_replica-Replayed s d h c n bs ws k)
