-- ===== src/Connections.antt =====
-- user/server/server.go: `HandleConnections`, which accepts one client after the other, `Close`, and `Run`. Sockets are numbers.
pub mod Serving
pub mod Start
use bdr.Common.{
  ℕ, Bool, true, false, if◌then◌else◌, ◌==◌, List, [], ◌∷◌, Option, none, some, M, Outcome, ok, err,
  panic,
}
use bdr.Server.{Server}
use bdr.Replica.{check_journal}
use bdr.Visits.{Task, Shared, linger, Visit, handle_client}

-- What one round of `HandleConnections` meets; `meanwhile`, a goroutine of an earlier client goes on
-- before it.
pub data Accept : Type 0 where
  terminates closed failed : Accept
  connection : ℕ → Visit → Accept
  meanwhile : ℕ → Task → Accept

-- `conn` is `Conn`, and `sockets` are those that are open.
pub record Listener : Type 0 where
  pub shared : Shared
  pub conn : Option ℕ
  pub connected : Bool
  pub sockets : List ℕ

abbrev pub without : ℕ → List ℕ → List ℕ
without id [] = []
without id (socket ∷ sockets) =
    if socket == id then without id sockets else socket ∷ without id sockets

abbrev pub close_socket : Option ℕ → List ℕ → List ℕ
close_socket none sockets = sockets
close_socket (some id) sockets = without id sockets

unfoldable pub close_client_conn : Listener → Listener
close_client_conn l = record l {
  connected = false;
  conn = none;
  sockets = close_socket l.conn l.sockets;
}

-- The connection is set up.
abbrev pub connect : ℕ → Listener → Listener
connect id l = record l { conn = some id; connected = true; sockets = id ∷ l.sockets }

-- A connection that comes while a client is connected is closed.
abbrev turn_away : ℕ → Listener → Listener
turn_away id l = record l { sockets = without id (id ∷ l.sockets) }

-- The deferred calls of `HandleClient`, and the next round; a panic ends the process.
abbrev pub next_round :
    Outcome (Unit {0}) × Shared → Listener → M Listener (Unit {0}) → Outcome (Unit {0}) × Listener
next_round (ok _, x) l rest = rest (close_client_conn (record l { shared = x }))
next_round (err e, x) l rest = rest (close_client_conn (record l { shared = x }))
next_round (panic, x) l rest = (panic, record l { shared = x })

abbrev pub next_step :
    Outcome (Unit {0}) × Shared → Listener → M Listener (Unit {0}) → Outcome (Unit {0}) × Listener
next_step (ok _, x) l rest = rest (record l { shared = x })
next_step (err e, x) l rest = rest (record l { shared = x })
next_step (panic, x) l rest = (panic, record l { shared = x })

-- With the list used up the goroutine waits in `Accept`.
unfoldable pub handle_connections : List Accept → M Listener (Unit {0})
unfolding handle_client close_client_conn linger
handle_connections [] l = (ok tt, l)
handle_connections (terminates ∷ rounds) l = (ok tt, l)
handle_connections (closed ∷ rounds) l = (ok tt, l)
handle_connections (failed ∷ rounds) l = handle_connections rounds l
handle_connections (meanwhile n task ∷ rounds) l =
    next_step (linger n task l.shared) l (handle_connections rounds)
handle_connections (connection id visit ∷ rounds) l = elim l.connected [
  | true ↦ handle_connections rounds (turn_away id l)
  | false ↦ next_round (handle_client visit l.shared) (connect id l) (handle_connections rounds)
]

-- `Close`, on the sockets.
unfoldable pub close : Listener → Listener
close l = record l { conn = none; sockets = close_socket l.conn l.sockets }

abbrev pub idle : Shared → Listener
idle x = record { shared = x; conn = none; connected = false; sockets = [] }

abbrev pub alone : Server → Shared
alone s = record { server = s; behind = [] }

abbrev stopped : Outcome (Unit {0}) × Listener → Outcome (Unit {0}) × Listener
stopped (o, l) = (o, close l)

abbrev when_checked : List Accept → Outcome (Unit {0}) × Server → Outcome (Unit {0}) × Listener
when_checked rounds (ok _, s) = stopped (handle_connections rounds (idle (alone s)))
when_checked rounds (err e, s) = (err e, idle (alone s))
when_checked rounds (panic, s) = (panic, idle (alone s))

-- `Run`: the journal is checked before the first connection is accepted.
unfoldable pub run : List Accept → Server → Outcome (Unit {0}) × Listener
unfolding handle_connections close
run rounds s = when_checked rounds (check_journal s)
