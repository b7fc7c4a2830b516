-- ===== src/Client/Endless.antt =====
-- The loop of `SendPacket` of user/client/client.go on a link that may fail for ever: how each of the
-- endlessly many attempts would go.
use bdr.Common.{
  ℕ, zero, suc, ◌≡◌, refl, true, false, Bool-cases, inl, inr, List, [], ◌∷◌, ◌++◌, Option, none,
  some, if◌then◌else◌,
}
use bdr.Networking.{Packet}
use bdr.Client.{Client, Attempt, works, fails, changed, check_termination}

-- How attempts go, the first being `plan 0`.
abbrev pub Attempts : Type 0
Attempts = ℕ → Attempt

abbrev pub later : Attempts → Attempts
later plan i = plan (suc i)

-- The packet is on the wire.
abbrev pub sent_now : Packet → Client → Client
sent_now packet c = record c { sent = c.sent ++ packet ∷ [] }

abbrev send_round : Attempt → Packet → Client → (Client → Option Client) → Option Client
send_round works packet c rest = some (sent_now packet c)
send_round (fails ch) packet c rest =
    let c' = changed ch c in let on = rest c' in if check_termination c' then some c' else on

-- `SendPacket`, which is still in its loop after `fuel` attempts where there is no result.
unfoldable pub send_loop : ℕ → Attempts → Packet → Client → Option Client
send_loop zero plan packet c = none
send_loop (suc fuel) plan packet c =
    let rest = send_loop fuel (later plan) packet in send_round (plan 0) packet c rest

-- The first of so many attempts that succeeds, or in whose course the client terminates.
abbrev or_else : Attempt → Option Attempt → Option Attempt
or_else works rest = some works
or_else (fails ch) rest = if ch.terminates then some (fails ch) else rest

unfoldable pub first_decisive : ℕ → Attempts → Option Attempt
first_decisive zero plan = none
first_decisive (suc fuel) plan =
    let rest = first_decisive fuel (later plan) in or_else (plan 0) rest

-- Without such an attempt the loop goes on. After one that succeeds the packet has been sent, once, and
-- the client goes on; after one in whose course the client terminates nothing has been sent.
abbrev pub Comes : Option Attempt → Packet → List Packet → Option Client → Type 0
Comes none packet sent r = r ≡ none
Comes (some works) packet sent r =
    (c : Client) × (r ≡ some c) × (c.sent ≡ sent ++ packet ∷ []) × (c.terminated ≡ false)
Comes (some (fails ch)) packet sent r =
    (c : Client) × (r ≡ some c) × (c.sent ≡ sent) × (c.terminated ≡ true)

send_round-Comes :
    (a : Attempt) (o : Option Attempt) (packet : Packet) (c : Client)
    (rest : Client → Option Client)
    → c.terminated ≡ false
    → ((c' : Client) → c'.terminated ≡ false → Comes o packet c'.sent (rest c'))
    → Comes (or_else a o) packet c.sent (send_round a packet c rest)
send_round-Comes works o packet c rest open_ h = (_, refl, refl, open_)
send_round-Comes (fails ch) o packet c rest open_ h = elim (Bool-cases ch.terminates) [
  | inl e ↦ rw (open_, e) (_, refl, refl, refl)
  | inr e ↦ rw (open_, e) (h _ refl)
]

-- Whatever becomes of each of endlessly many attempts: within any number of them `SendPacket` of a client
-- that has not terminated is through exactly if one has succeeded or the client has terminated meanwhile,
-- and the first such attempt decides whether the packet is on the wire, once, or nothing was sent. On a
-- link that fails for ever it never returns while the client does not terminate.
pub send_loop-Comes :
    (fuel : ℕ) (plan : Attempts) (packet : Packet) (c : Client)
    → c.terminated ≡ false
    → Comes (first_decisive fuel plan) packet c.sent (send_loop fuel plan packet c)
unfolding send_loop first_decisive
send_loop-Comes zero plan packet c open_ = refl
send_loop-Comes (suc fuel) plan packet c open_ =
    send_round-Comes (plan 0) (first_decisive fuel (later plan)) packet c
      (send_loop fuel (later plan) packet) open_
      (λ c' open'. send_loop-Comes fuel (later plan) packet c' open')

-- A link that works after finitely many failures, as `Client` has it.
abbrev pub plan_of : List Attempt → Attempts
plan_of [] i = works
plan_of (a ∷ link) zero = a
plan_of (a ∷ link) (suc i) = plan_of link i
