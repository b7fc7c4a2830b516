-- ===== src/Visits.antt =====
-- user/server/server.go: the whole of `HandleClient`, with the goroutines that earlier clients have left
-- behind.
use bdr.Common.{
  ℕ, zero, suc, Bool, true, false, List, [], ◌∷◌, Option, none, M, Outcome, ok, err, panic, pure,
  ◌>>◌,
}
use bdr.Networking.{Packet}
use bdr.Server.{Server, State, set_state}
use bdr.Handshake.{handshake}
use bdr.Session.{Session, begin_session, on_server, change, dispatch, begin_hash_disk, work_journal}
use bdr.Session.End.{end_session, left_behind}
use bdr.Session.Workers.{Pending, Workers, Working, work_writes, work_blocks}

-- What happens to a session: a packet is decoded, `HandleJournalPackets` takes one, or the goroutine
-- of `HashDisk` begins.
pub data Step : Type 0 where
  receives : Packet → Step
  takes hashes : Step

abbrev hash_if : Bool → M Session (Unit {0})
hash_if true = do change (λ v. record v { scan_requested = false }); on_server begin_hash_disk
hash_if false = pure tt

abbrev pub happens : Step → M Session (Unit {0})
happens (receives packet) = dispatch packet
happens takes = work_journal
happens hashes = λ v. hash_if v.scan_requested v

unfoldable pub run_session : List Step → M Session (Unit {0})
run_session [] = pure tt
run_session (step ∷ steps) = happens step >> run_session steps

-- Which of the two goroutines of a session goes on.
pub data Task : Type 0 where
  writes blocks : Task

abbrev work : Task → M Working (Unit {0})
work writes = work_writes
work blocks = work_blocks

-- The server, and what the goroutines of earlier clients still have to do.
pub record Shared : Type 0 where
  pub server : Server
  pub behind : List Workers

abbrev with_first : Outcome (Unit {0}) × Working → List Workers → Outcome (Unit {0}) × Shared
with_first (o, x) ws = (o, record { server = x.server; behind = x.workers ∷ ws })

abbrev with_rest : Workers → Outcome (Unit {0}) × Shared → Outcome (Unit {0}) × Shared
with_rest w (o, x) = (o, record x { behind = w ∷ x.behind })

abbrev linger_among : ℕ → Task → List Workers → Server → Outcome (Unit {0}) × Shared
linger_among n task [] s = (ok tt, record { server = s; behind = [] })
linger_among zero task (w ∷ ws) s = with_first (work task (record { server = s; workers = w })) ws
linger_among (suc n) task (w ∷ ws) s = with_rest w (linger_among n task ws s)

-- A goroutine of the `n`-th of the earlier clients goes on.
unfoldable pub linger : ℕ → Task → M Shared (Unit {0})
linger n task x = linger_among n task x.behind x.server

unfoldable pub linger_all : List (ℕ × Task) → M Shared (Unit {0})
linger_all [] = pure tt
linger_all ((n, task) ∷ rest) = linger n task >> linger_all rest

-- A session among what is left of earlier ones; `trying` is the buffer write that it tries just now.
pub record Visited : Type 0 where
  pub session : Session
  pub trying : Option Pending
  pub behind : List Workers

-- What happens while a client is served: a step of its session, or of one of the goroutines that write
-- to the replica, its own or those of earlier clients.
pub data Event : Type 0 where
  proceeds : Step → Event
  own : Task → Event
  lingers : ℕ → Task → Event

abbrev on_session : M Session (Unit {0}) → M Visited (Unit {0})
on_session m x = let (o, v) = m x.session in (o, record x { session = v })

abbrev with_own : Outcome (Unit {0}) × Working → Visited → Outcome (Unit {0}) × Visited
with_own (o, y) x = (
  o,
  record x {
    session = record x.session {
      server = y.server;
      write_queue = y.workers.writes;
      correct_queue = y.workers.blocks;
    };
    trying = y.workers.trying;
  },
)

abbrev work_own : Task → M Visited (Unit {0})
work_own task x =
    let own_workers = left_behind x.trying x.session in
    with_own (work task (record { server = x.session.server; workers = own_workers })) x

abbrev with_shared : Outcome (Unit {0}) × Shared → Visited → Outcome (Unit {0}) × Visited
with_shared (o, y) x =
    (o, record x { session = record x.session { server = y.server }; behind = y.behind })

abbrev occurs : Event → M Visited (Unit {0})
occurs (proceeds step) = on_session (happens step)
occurs (own task) = work_own task
occurs (lingers n task) =
    λ x. with_shared (linger n task (record { server = x.session.server; behind = x.behind })) x

unfoldable pub run_visit : List Event → M Visited (Unit {0})
unfolding linger
run_visit [] = pure tt
run_visit (event ∷ events) = occurs event >> run_visit events

-- A client: what lingers while its first packet is waited for, that packet, if it can be decoded, and
-- what happens until its connection is lost or the server terminates.
pub record Visit : Type 0 where
  pub early : List (ℕ × Task)
  pub first : Option Packet
  pub events : List Event

-- The goroutines of the session that goes on without it join those of earlier ones.
abbrev joined : Outcome (Unit {0}) × Visited → Outcome (Unit {0}) × Shared
joined (o, x) =
    (o, record { server = x.session.server; behind = left_behind x.trying x.session ∷ x.behind })

abbrev when_accepted :
    List Event → List Workers → Outcome Bool × Server → Outcome (Unit {0}) × Shared
when_accepted events ws (ok true, s) = joined (
    (run_visit events >> on_session end_session)
      (record { session = begin_session s; trying = none; behind = ws }))
when_accepted events ws (ok false, s) = (ok tt, record { server = s; behind = ws })
when_accepted events ws (err e, s) = (err e, record { server = s; behind = ws })
when_accepted events ws (panic, s) = (panic, record { server = s; behind = ws })

abbrev enter : M Shared (Unit {0})
enter x = let (o, s) = set_state State.writing x.server in (o, record x { server = s })

-- `HandleClient`, less the socket.
unfoldable pub handle_client : Visit → M Shared (Unit {0})
unfolding run_visit
handle_client visit = do
  enter
  linger_all visit.early
  λ x. when_accepted visit.events x.behind (handshake visit.first x.server)
