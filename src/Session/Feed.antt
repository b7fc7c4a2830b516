-- ===== src/Session/Feed.antt =====
-- A session that is hashing, while the client's packets come in and `HandleJournalPackets` takes them
-- out of the queue, in any interleaving.
use bdr.Common.{
  ℕ, ◌≡◌, refl, sym, ◌∙◌, true, false, List, [], ◌∷◌, ◌++◌, map, length, ok, err, panic, Outcome,
  and_then, pure, M, ◌>>◌,
}
use mathlib.Core.List.{append-nil, append_assoc, map-append}
use mathlib.Core.Path.{subst}
use bdr.Device.{Disk}
use bdr.Networking.{Extent, Packet}
use bdr.Header.{Header}
use bdr.Journal.Contents.{Contains}
use bdr.Journal.Reset.{journal_at}
use bdr.Server.{Server, State}
use bdr.Replica.{handle_journal_packet, handle_journal_packets, has_overflown}
use bdr.Replica.Recovery.{server_at}
use bdr.Replica.Intake.{
  Entry, block, write, packet_of, blocks_of, writes_of, handle_journal_packets-Stored,
}
use bdr.Session.{Session, dispatch, work_journal}
use bdr.Session.Room.{HasRoom, HasRoom-cons, total_blocks, total_writes}

-- What may happen next.
pub data Event : Type 0 where
  receives : Entry → Event
  takes : Event

abbrev pub entries : List Event → List Entry
entries [] = []
entries (receives e ∷ events) = e ∷ entries events
entries (takes ∷ events) = entries events

abbrev happens : Event → M Session (Unit {0})
happens (receives e) = dispatch (packet_of e)
happens takes = work_journal

unfoldable pub feed : List Event → M Session (Unit {0})
feed [] = pure tt
feed (event ∷ events) = happens event >> feed events

-- The session with these entries in the journal, and those waiting in the queue.
abbrev pub hashing_at :
    Session → Server → Disk → Header → ℕ → List ℕ → List Extent → List Extent → List Entry → Session
hashing_at v s d h n c bs ws waiting = record v {
  server = server_at s d (journal_at h c n (length ws) (length bs));
  journal_queue = map packet_of waiting;
  journal_worker = true;
}

and_then-pure : {S : Type 0} (o : Outcome (Unit {0})) (s : S) → and_then o s (λ _. pure tt) ≡ (o, s)
and_then-pure (ok _) s = refl
and_then-pure (err e) s = refl
and_then-pure panic s = refl

handle_journal_packets_one :
    (p : Packet) (s : Server) → handle_journal_packets (p ∷ []) s ≡ handle_journal_packet p s
unfolding handle_journal_packets
handle_journal_packets_one p s = let r = handle_journal_packet p s in and_then-pure r.0 r.1

-- How the events end: each entry is in the journal or waits, and none is lost or out of its order.
abbrev pub Fed :
    Session
    → Server
    → Disk
    → Header
    → ℕ
    → List Extent
    → List Extent
    → Outcome (Unit {0}) × Session
    → Type 0
Fed v s d h n all_blocks all_writes r =
    (c : List ℕ) × (bs : List Extent) × (ws : List Extent) × (waiting : List Entry) × (r
      ≡ (ok tt, hashing_at v s d h n c bs ws waiting))
    × Contains h c bs ws
    × HasRoom h bs ws waiting
    × (bs ++ blocks_of waiting ≡ all_blocks)
    × (ws ++ writes_of waiting ≡ all_writes)

dispatch-queue :
    (v : Session) (s : Server) (d : Disk) (h : Header) (n : ℕ) (c : List ℕ) (bs ws : List Extent)
    (waiting : List Entry) (e : Entry)
    → s.state ≡ State.hashing
    → dispatch (packet_of e) (hashing_at v s d h n c bs ws waiting)
      ≡ (ok tt, hashing_at v s d h n c bs ws (waiting ++ e ∷ []))
unfolding dispatch
dispatch-queue v s d h n c bs ws waiting (block x) live =
    rw (live, map-append packet_of waiting (block x ∷ [])) refl
dispatch-queue v s d h n c bs ws waiting (write x) live =
    rw (live, map-append packet_of waiting (write x ∷ [])) refl

pub not_overflown : (state : State) → state ≡ State.hashing → has_overflown state ≡ false
not_overflown state e = rw e refl

work-Stored :
    (v : Session) (s : Server) (d : Disk) (h : Header) (n : ℕ) (c : List ℕ) (bs ws : List Extent)
    (e : Entry) (waiting : List Entry)
    → Contains h c bs ws
    → s.state ≡ State.hashing
    → HasRoom h bs ws (e ∷ [])
    → (c' : List ℕ) × (work_journal (hashing_at v s d h n c bs ws (e ∷ waiting)) ≡ (
      ok tt,
      hashing_at v s d h n c' (bs ++ blocks_of (e ∷ [])) (ws ++ writes_of (e ∷ [])) waiting,
    ))
      × Contains h c' (bs ++ blocks_of (e ∷ [])) (ws ++ writes_of (e ∷ []))
unfolding work_journal
work-Stored v s d h n c bs ws e waiting k live room =
    let srv : Server = server_at s d (journal_at h c n (length ws) (length bs)) in
    let (c', r, k') =
      handle_journal_packets-Stored s d h c n bs ws (e ∷ []) k (not_overflown s.state live)
        room.storable room.blocks room.writes in
    let one = sym (handle_journal_packets_one (packet_of e) srv) ∙ r in (c', rw one refl, k')

work_empty :
    (v : Session) (s : Server) (d : Disk) (h : Header) (n : ℕ) (c : List ℕ) (bs ws : List Extent)
    → work_journal (hashing_at v s d h n c bs ws []) ≡ (ok tt, hashing_at v s d h n c bs ws [])
unfolding work_journal
work_empty v s d h n c bs ws = refl

Fed-receive :
    (events : List Event) (v : Session) (s : Server) (d : Disk) (h : Header) (n : ℕ) (c : List ℕ)
    (bs ws : List Extent) (waiting : List Entry) (e : Entry) (all_b all_w : List Extent)
    → s.state ≡ State.hashing
    → Fed v s d h n all_b all_w (feed events (hashing_at v s d h n c bs ws (waiting ++ e ∷ [])))
    → Fed v s d h n all_b all_w (feed (receives e ∷ events) (hashing_at v s d h n c bs ws waiting))
unfolding feed
Fed-receive events v s d h n c bs ws waiting e all_b all_w live =
    subst
      (λ r.
        Fed v s d h n all_b all_w (feed events (hashing_at v s d h n c bs ws (waiting ++ e ∷ [])))
        → Fed v s d h n all_b all_w (and_then r.0 r.1 (λ _. feed events)))
      (sym (dispatch-queue v s d h n c bs ws waiting e live)) (λ fed. fed)

Fed-take :
    (events : List Event) (v v1 v2 : Session) (s : Server) (d : Disk) (h : Header) (n : ℕ)
    (all_b all_w : List Extent)
    → work_journal v1 ≡ (ok tt, v2)
    → Fed v s d h n all_b all_w (feed events v2)
    → Fed v s d h n all_b all_w (feed (takes ∷ events) v1)
unfolding feed
Fed-take events v v1 v2 s d h n all_b all_w e =
    subst
      (λ r.
        Fed v s d h n all_b all_w (feed events v2)
        → Fed v s d h n all_b all_w (and_then r.0 r.1 (λ _. feed events)))
      (sym e) (λ fed. fed)

Fed-end :
    (v : Session) (s : Server) (d : Disk) (h : Header) (n : ℕ) (c : List ℕ) (bs ws : List Extent)
    (waiting : List Entry) (all_b all_w : List Extent)
    → Contains h c bs ws
    → HasRoom h bs ws waiting
    → bs ++ blocks_of waiting ≡ all_b
    → ws ++ writes_of waiting ≡ all_w
    → Fed v s d h n all_b all_w (feed [] (hashing_at v s d h n c bs ws waiting))
unfolding feed
Fed-end v s d h n c bs ws waiting all_b all_w k room tb tw =
    (c, bs, ws, waiting, refl, k, room, tb, tw)

-- Whatever the order in which packets come in and are taken, with room for all of them: no step
-- fails, and each entry is stored in its section or still waits, in the order in which they came.
pub feed-Fed :
    (events : List Event) (v : Session) (s : Server) (d : Disk) (h : Header) (n : ℕ) (c : List ℕ)
    (bs ws : List Extent) (waiting : List Entry) (all_b all_w : List Extent)
    → Contains h c bs ws
    → s.state ≡ State.hashing
    → HasRoom h bs ws (waiting ++ entries events)
    → bs ++ blocks_of (waiting ++ entries events) ≡ all_b
    → ws ++ writes_of (waiting ++ entries events) ≡ all_w
    → Fed v s d h n all_b all_w (feed events (hashing_at v s d h n c bs ws waiting))
feed-Fed [] v s d h n c bs ws waiting all_b all_w k live room tb tw =
    let e = append-nil waiting in
    Fed-end v s d h n c bs ws waiting all_b all_w k (rw e at room) (rw e at tb) (rw e at tw)
feed-Fed (receives e ∷ events) v s d h n c bs ws waiting all_b all_w k live room tb tw =
    let a = append_assoc waiting (e ∷ []) (entries events) in
    Fed-receive events v s d h n c bs ws waiting e all_b all_w live (
      feed-Fed events v s d h n c bs ws (waiting ++ e ∷ []) all_b all_w k live (rw a room) (rw a tb)
        (rw a tw))
feed-Fed (takes ∷ events) v s d h n c bs ws [] all_b all_w k live room tb tw =
    Fed-take events v (hashing_at v s d h n c bs ws []) (hashing_at v s d h n c bs ws []) s d h n
      all_b all_w (work_empty v s d h n c bs ws)
      (feed-Fed events v s d h n c bs ws [] all_b all_w k live room tb tw)
feed-Fed (takes ∷ events) v s d h n c bs ws (e ∷ waiting) all_b all_w k live room tb tw =
    let es = waiting ++ entries events in
    let (first, rest) = HasRoom-cons h bs ws e es room in
    let (c', r, k') = work-Stored v s d h n c bs ws e waiting k live first in
    Fed-take events v (hashing_at v s d h n c bs ws (e ∷ waiting))
      (hashing_at v s d h n c' (bs ++ blocks_of (e ∷ [])) (ws ++ writes_of (e ∷ [])) waiting) s d h
      n all_b all_w r
      (feed-Fed events v s d h n c' (bs ++ blocks_of (e ∷ [])) (ws ++ writes_of (e ∷ [])) waiting
        all_b all_w k' live rest (total_blocks bs e es all_b tb) (total_writes ws e es all_w tw))
