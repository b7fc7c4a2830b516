-- ===== src/Session/Finish.antt =====
-- A scan with the journal, from its first packet to the copy that `WriteJournalToReplica` makes.
use bdr.Common.{
  ℕ, ◌^◌, ◌<◌, ◌≡◌, refl, ◌∙◌, ap, ap₂, false, List, [], ◌∷◌, ◌++◌, length, ok, Outcome, All, ◌>>◌,
}
use mathlib.Core.List.{Perm}
use bdr.Device.{sound}
use bdr.Device.Overlays.{apply_all, apply_all-append}
use bdr.Networking.{Extent, PacketType, create_info_packet}
use bdr.Header.{Header}
use bdr.Journal.Contents.{Contains}
use bdr.Journal.Reset.{journal_at}
use bdr.Server.{Server, State}
use bdr.Replica.{handle_journal_writing, is_destroying}
use bdr.Replica.Recovery.{server_at}
use bdr.Replica.Copies.{InRange}
use bdr.Replica.Whole.{write_journal_to_replica-sound}
use bdr.Replica.Intake.{Entry, blocks_of, writes_of, handle_journal_packets-Stored}
use bdr.Scan.Complete.{NoCollision, scan, scan-IsTrue, scan_complete}
use bdr.Live.Copying.{delivered-InRange}
use bdr.Session.{Session, dispatch}
use bdr.Session.Room.{HasRoom}
use bdr.Session.Feed.{Event, entries, feed, hashing_at, feed-Fed, not_overflown}

-- Everything is on the replica, and packets are written to it directly again.
abbrev pub Finished : List ℕ → Outcome (Unit {0}) × Session → Type 0
Finished c r = (r.0 ≡ ok tt) × (r.1.server.target.content ≡ c) × (r.1.server.state ≡ State.writing)

not_destroying : (state : State) → state ≡ State.hashing → is_destroying state ≡ false
not_destroying state e = rw e refl

handle_journal_writing_done :
    (s : Server) (t : List ℕ) (h : Header) (c : List ℕ) (n : ℕ) (bs ws : List Extent)
    → s.state ≡ State.hashing
    → Contains h c bs ws
    → All (InRange (length t)) (bs ++ ws)
    → length t < 2 ^ 63
    → let r =
        handle_journal_writing (server_at s (sound t) (journal_at h c n (length ws) (length bs))) in
      (r.0 ≡ ok tt) × (r.1.target.content ≡ apply_all t (bs ++ ws))
unfolding handle_journal_writing
handle_journal_writing_done s t h c n bs ws live k fits small =
    rw (not_destroying s.state live, write_journal_to_replica-sound s t h c n bs ws k fits small)
      (refl, refl)

pub completed :
    (v : Session) (s : Server) (t : List ℕ) (h : Header) (n : ℕ) (c : List ℕ) (bs ws : List Extent)
    (waiting : List Entry)
    → Contains h c bs ws
    → s.state ≡ State.hashing
    → HasRoom h bs ws waiting
    → All (InRange (length t)) ((bs ++ blocks_of waiting) ++ (ws ++ writes_of waiting))
    → length t < 2 ^ 63
    → Finished (apply_all t ((bs ++ blocks_of waiting) ++ (ws ++ writes_of waiting))) (
        dispatch
          (create_info_packet PacketType.info_hashing_completed)
          (hashing_at v s (sound t) h n c bs ws waiting))
unfolding dispatch
completed v s t h n c bs ws waiting k live room fits small =
    let (c', r, k') =
      handle_journal_packets-Stored s (sound t) h c n bs ws waiting k (not_overflown s.state live)
        room.storable room.blocks room.writes in
    let (o, e) =
      handle_journal_writing_done s t h c' n (bs ++ blocks_of waiting) (ws ++ writes_of waiting)
        live k' fits small in
    rw r (rw o (refl, e, refl))

-- The session is hashing, with an empty journal and nothing waiting. In whatever order the client's
-- correct blocks and buffer writes come in and are taken from the queue: when the client then says
-- that hashing is complete, all blocks and, over them, all writes, in their order, are on the replica,
-- and the session is in the writing state. There is room for the entries in the journal, they lie on
-- the replica, and the devices work.
pub journalled_scan :
    (events : List Event) (v : Session) (s : Server) (t : List ℕ) (h : Header) (n : ℕ) (c : List ℕ)
    → Contains h c [] []
    → s.state ≡ State.hashing
    → HasRoom h [] [] (entries events)
    → All (InRange (length t)) (blocks_of (entries events) ++ writes_of (entries events))
    → length t < 2 ^ 63
    → Finished (apply_all t (blocks_of (entries events) ++ writes_of (entries events))) (
        (feed events >> dispatch (create_info_packet PacketType.info_hashing_completed))
          (hashing_at v s (sound t) h n c [] [] []))
journalled_scan events v s t h n c k live room fits small =
    let all_b = blocks_of (entries events) in
    let all_w = writes_of (entries events) in
    let (c', bs, ws, waiting, r, k', room', tb, tw) =
      feed-Fed events v s (sound t) h n c [] [] [] all_b all_w k live room refl refl in
    let (o, e, w) = completed v s t h n c' bs ws waiting k' live room' (rw (tb, tw) fits) small in
    rw r (o, e ∙ ap₂ (λ x y. apply_all t (x ++ y)) tb tw, w)

All-append {ℓ} :
    {A : Type ℓ} (P : A → Type 0) (xs ys : List A) → All P xs → All P ys → All P (xs ++ ys)
All-append P [] ys h k = k
All-append P (x ∷ xs) ys (p, h) k = (p, All-append P xs ys h k)

-- The session is hashing, with an empty journal and nothing waiting, and correct blocks and buffer
-- writes come in and are taken from the queue in whatever order. If the correct blocks are, in any
-- order, those that a scan finds, then when the client says that hashing is complete the replica is
-- the source as it was at the time of the scan, with the buffer writes over it, in their order, and
-- the session is in the writing state. No two different blocks at one place have the same hash, the
-- disks have one size and the devices work, the journal has room and the writes lie on the replica.
pub scan_session :
    (hash : List ℕ → ℕ) (src : List ℕ) (step : ℕ) (events : List Event) (v : Session) (s : Server)
    (t : List ℕ) (h : Header) (n : ℕ) (c : List ℕ)
    → Contains h c [] []
    → s.state ≡ State.hashing
    → HasRoom h [] [] (entries events)
    → NoCollision hash src t step
    → length t ≡ length src
    → length src < 2 ^ 63
    → 0 < step
    → step < 2 ^ 32
    → Perm (scan hash src t step) (blocks_of (entries events))
    → All (InRange (length t)) (writes_of (entries events))
    → Finished (apply_all src (writes_of (entries events))) (
        (feed events >> dispatch (create_info_packet PacketType.info_hashing_completed))
          (hashing_at v s (sound t) h n c [] [] []))
scan_session hash src step events v s t h n c k live room inj e small pos word perm fits =
    let all_b = blocks_of (entries events) in
    let all_w = writes_of (entries events) in
    let in_range =
      delivered-InRange src t (scan hash src t step) all_b e
        (scan-IsTrue hash src t step e small pos word) perm in
    let (o, same, state) =
      journalled_scan events v s t h n c k live room
        (All-append (InRange (length t)) all_b all_w in_range fits) (rw e small) in
    (
      o,
      same
          ∙ apply_all-append t all_b all_w
          ∙ ap (λ z. apply_all z all_w)
              (scan_complete hash src t step all_b inj e small pos word perm),
      state,
    )
