-- ===== src/Session/End.antt =====
-- The end of `HandleClient` of user/server/server.go, when the connection is lost or the server
-- terminates: it waits for the goroutines of the journal and of a full replication, closes the queues of
-- the two that nothing waits for (Session.Workers), and the server is disconnected.
use bdr.Common.{
  ℕ, ◌^◌, ◌<◌, ◌≡◌, refl, false, List, [], ◌++◌, map, length, Option, none, M, All, ok, ◌>>◌,
}
use bdr.Device.{Disk}
use bdr.Device.Overlays.{trimmed, apply_all}
use bdr.Networking.{Extent, Packet}
use bdr.Header.{Header}
use bdr.Journal.Contents.{Contains}
use bdr.Journal.Reset.{journal_at}
use bdr.Server.{Server, State, set_state}
use bdr.Replica.Recovery.{server_at}
use bdr.Replica.Intake.{Entry, blocks_of, writes_of, handle_journal_packets-Stored}
use bdr.Live.Retries.{IsWrite}
use bdr.Session.{Session, on_server, drain_journal, drain_replication}
use bdr.Session.Room.{HasRoom}
use bdr.Session.Feed.{hashing_at, not_overflown}
use bdr.Session.Workers.{Pending, Workers}
use bdr.Session.Workers.Late.{Works, working_at, packets_of, made-Works, dropped-Works}

-- The deferred calls, and the closed channels before them. `childWg` counts only the goroutines that have
-- not begun yet, so that what waits in the queues of writes and correct blocks still waits.
unfoldable pub end_session : M Session (Unit {0})
unfolding drain_journal drain_replication
end_session = do drain_replication; drain_journal; on_server (set_state State.disconnected)

-- What the goroutines that go on have; `trying` is the write that is tried just now.
abbrev pub left_behind : Option Pending → Session → Workers
left_behind trying v = record { trying = trying; writes = v.write_queue; blocks = v.correct_queue }

-- A session that is hashing, with these entries in the journal and these in the queue, and buffer writes
-- that are still queued from before the scan.
abbrev pub scanning_at :
    Session
    → Server
    → Disk
    → Header
    → ℕ
    → List ℕ
    → List Extent
    → List Extent
    → List Entry
    → List Packet
    → Session
scanning_at v s d h n c bs ws waiting queued = record (hashing_at v s d h n c bs ws waiting) {
  replication_queue = [];
  replication_worker = false;
  correct_queue = [];
  write_queue = queued;
}

-- The server behind the session: the entries are in the journal, and the replica is as it was.
abbrev pub ended_at : Server → Disk → Header → ℕ → List ℕ → ℕ → ℕ → Server
ended_at s d h n c w b = record (server_at s d (journal_at h c n w b)) {
  state = State.disconnected;
}

module _ (v : Session) (s : Server) (d : Disk) (h : Header) (n : ℕ) (c : List ℕ)
    (bs ws : List Extent) (waiting : List Entry) (queued : List Packet) where
  end_session-Ended :
      Contains h c bs ws
      → s.state ≡ State.hashing
      → HasRoom h bs ws waiting
      → (c' : List ℕ) × (v' : Session) × (end_session (scanning_at v s d h n c bs ws waiting queued)
          ≡ (ok tt, v'))
        × (v'.server
            ≡ ended_at s d h n c'
                (length (ws ++ writes_of waiting))
                (length (bs ++ blocks_of waiting)))
        × (left_behind none v' ≡ record { trying = none; writes = queued; blocks = [] })
        × Contains h c' (bs ++ blocks_of waiting) (ws ++ writes_of waiting)
  unfolding end_session
  end_session-Ended k live room =
      let (c', r, k') =
        handle_journal_packets-Stored s d h c n bs ws waiting k (not_overflown s.state live)
          room.storable room.blocks room.writes in
      (
        c',
        record (scanning_at v s d h n c bs ws waiting queued) {
          server =
              ended_at s d h n c' (length (ws ++ writes_of waiting))
                (length (bs ++ blocks_of waiting));
          journal_queue = [];
          journal_worker = false;
        },
        rw r refl,
        refl,
        refl,
        k',
      )

-- What a server with this replica and what is left behind may come to: the goroutine ends with
-- nothing left of the buffer writes, and the replica has these contents.
abbrev pub Leads : Server → Workers → List ℕ → Type 0
Leads s w t =
    (d' : Disk) × Works (record { server = s; workers = w }) (working_at s d' none [] w.blocks)
    × (d'.content ≡ t)

pub lost_client :
    (v : Session) (s : Server) (t : List ℕ) (plan : List (Option ℕ)) (h : Header) (n : ℕ)
    (c : List ℕ) (bs ws : List Extent) (waiting : List Entry) (xs : List Extent)
    → Contains h c bs ws
    → s.state ≡ State.hashing
    → HasRoom h bs ws waiting
    → All (IsWrite (length t)) xs
    → length t < 2 ^ 63
    → let d : Disk = record { content = t; plan = plan } in
      (c' : List ℕ) × (v' : Session) × (end_session
          (scanning_at v s d h n c bs ws waiting (packets_of xs))
        ≡ (ok tt, v'))
      × (v'.server
          ≡ ended_at s d h n c'
              (length (ws ++ writes_of waiting))
              (length (bs ++ blocks_of waiting)))
      × Contains h c' (bs ++ blocks_of waiting) (ws ++ writes_of waiting)
      × Leads v'.server (left_behind none v') t
      × Leads
          (record v'.server { state = State.writing })
          (left_behind none v')
          (apply_all t (map trimmed xs))
lost_client v s t plan h n c bs ws waiting xs k live room fits small =
    let d : Disk = record { content = t; plan = plan } in
    let (c', v', r, e, w, k') =
      end_session-Ended v s d h n c bs ws waiting (packets_of xs) k live room in
    let ended =
      ended_at s d h n c' (length (ws ++ writes_of waiting)) (length (bs ++ blocks_of waiting)) in
    let again = record ended { state = State.writing } in
    let (d', worked, same) = made-Works xs again t plan [] refl fits small in
    (
      c',
      v',
      r,
      e,
      k',
      rw (e, w) (d, dropped-Works xs ended d [] refl, refl),
      rw (e, w) (d', worked, same),
    )
