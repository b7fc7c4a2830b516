-- ===== src/Connections/Serving.antt =====
-- `HandleConnections` of user/server/server.go against a server that has no sockets.
use bdr.Common.{ℕ, ◌≡◌, refl, true, ◌==◌, List, [], ◌∷◌, M, Outcome, ok, err, panic, arith}
use bdr.Visits.{Shared, linger, handle_client}
use bdr.Connections.{
  Accept, terminates, closed, failed, connection, meanwhile, Listener, connect, next_round,
  next_step, close_client_conn, handle_connections, idle,
}

abbrev then_serve : Outcome (Unit {0}) × Shared → M Shared (Unit {0}) → Outcome (Unit {0}) × Shared
then_serve (ok _, x) rest = rest x
then_serve (err e, x) rest = rest x
then_serve (panic, x) rest = (panic, x)

-- Every client is handled, one after the other, until the listener is closed or the server terminates.
unfoldable pub serve_all : List Accept → M Shared (Unit {0})
serve_all [] x = (ok tt, x)
serve_all (terminates ∷ rounds) x = (ok tt, x)
serve_all (closed ∷ rounds) x = (ok tt, x)
serve_all (failed ∷ rounds) x = serve_all rounds x
serve_all (meanwhile n task ∷ rounds) x = then_serve (linger n task x) (serve_all rounds)
serve_all (connection id visit ∷ rounds) x = then_serve (handle_client visit x) (serve_all rounds)

-- The same end: a panic with the same server, or the same server with no connection and no socket left.
abbrev pub Follows : Outcome (Unit {0}) × Listener → Outcome (Unit {0}) × Shared → Type 0
Follows (ok _, l) (ok _, x) = l ≡ idle x
Follows (ok _, l) (err e, x) = ⊥
Follows (ok _, l) (panic, x) = ⊥
Follows (err e, l) r = ⊥
Follows (panic, l) (ok _, x) = ⊥
Follows (panic, l) (err e, x) = ⊥
Follows (panic, l) (panic, x) = l.shared ≡ x

same_socket : (id : ℕ) → (id == id) ≡ true
same_socket id = ground arith

-- When its client has left, the listener is idle again.
close_client_conn-idle :
    (id : ℕ) (x y : Shared)
    → close_client_conn (record (connect id (idle x)) { shared = y }) ≡ idle y
unfolding close_client_conn
close_client_conn-idle id x y = rw (same_socket id) refl

module _ (rounds : List Accept)
    (later : (x : Shared) → Follows (handle_connections rounds (idle x)) (serve_all rounds x)) where
  next_round-Follows :
      (r : Outcome (Unit {0}) × Shared) (id : ℕ) (x : Shared)
      → Follows
          (next_round r (connect id (idle x)) (handle_connections rounds))
          (then_serve r (serve_all rounds))
  next_round-Follows (ok _, y) id x = rw (close_client_conn-idle id x y) (later y)
  next_round-Follows (err e, y) id x = rw (close_client_conn-idle id x y) (later y)
  next_round-Follows (panic, y) id x = refl

  next_step-Follows :
      (r : Outcome (Unit {0}) × Shared) (x : Shared)
      → Follows (next_step r (idle x) (handle_connections rounds)) (then_serve r (serve_all rounds))
  next_step-Follows (ok _, y) x = later y
  next_step-Follows (err e, y) x = later y
  next_step-Follows (panic, y) x = refl

-- Whatever comes in, and whatever the goroutines of earlier clients do meanwhile, a listener without a
-- connection is through with `HandleClient` for a client before it accepts the next, turns none away,
-- and has no connection and no socket left when it ends without a panic.
pub handle_connections-serve_all :
    (rounds : List Accept) (x : Shared)
    → Follows (handle_connections rounds (idle x)) (serve_all rounds x)
unfolding handle_connections serve_all
handle_connections-serve_all [] x = refl
handle_connections-serve_all (terminates ∷ rounds) x = refl
handle_connections-serve_all (closed ∷ rounds) x = refl
handle_connections-serve_all (failed ∷ rounds) x = handle_connections-serve_all rounds x
handle_connections-serve_all (meanwhile n task ∷ rounds) x =
    next_step-Follows rounds (handle_connections-serve_all rounds) (linger n task x) x
handle_connections-serve_all (connection id visit ∷ rounds) x =
    next_round-Follows rounds (handle_connections-serve_all rounds) (handle_client visit x) id x
