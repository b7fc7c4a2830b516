-- ===== src/Client/Sending.antt =====
-- The retries of user/client/client.go: what `SendPacket`, `ServeIOCTL` and the loop around `Encode`
-- come to.
use bdr.Common.{
  ◌≡◌, refl, subst, sym, ap, ◌∙◌, Bool, true, false, if◌then◌else◌, ◌||◌, List, [], ◌∷◌, All,
  if_false,
}
use bdr.Networking.{Packet}
use bdr.Ring.{BufferInfo}
use bdr.Client.{
  Client, Change, Attempt, works, fails, changed, delivered, send_attempts, send_packet, Command,
  serve_attempts, serve_ioctl, execute_ioctl, executed, zero_info,
}
use bdr.Client.Buffer.{write_attempts, send_write, is_reconnecting}

-- While a failed call is repeated, the client is not shut down and does not lose its connection.
abbrev pub IsHarmless : Attempt → Type 0
IsHarmless works = Unit {0}
IsHarmless (fails ch) = (ch.terminates ≡ false) × (ch.reconnects ≡ false)

or_false : (b : Bool) → (b || false) ≡ b
or_false true = refl
or_false false = refl

pub changed-IsHarmless :
    (ch : Change) (c : Client) → ch.terminates ≡ false → ch.reconnects ≡ false → changed ch c ≡ c
changed-IsHarmless ch c e f =
    rw (e, f) (ap (λ b. record c { terminated = b }) (or_false c.terminated))

-- The packet was put on the wire, once, and nothing else but the plan of the link changed.
abbrev pub Delivers : Packet → Client → Client → Type 0
Delivers packet c c' = (link : List Attempt) × (c' ≡ delivered packet link c) × All IsHarmless link

send_attempts-Delivers :
    (link : List Attempt) (packet : Packet) (c : Client)
    → c.terminated ≡ false
    → All IsHarmless link
    → Delivers packet c (send_attempts link packet c)
send_attempts-Delivers [] packet c open_ h = ([], refl, tt)
send_attempts-Delivers (works ∷ link) packet c open_ (_, h) = (link, refl, h)
send_attempts-Delivers (fails ch ∷ link) packet c open_ ((e, f), h) =
    subst (Delivers packet c)
      (sym (
        ap (λ c'. if c'.terminated then record c' { link = link } else send_attempts link packet c')
          (changed-IsHarmless ch c e f)
        ∙ if_false (record c { link = link }) (send_attempts link packet c) open_))
      (send_attempts-Delivers link packet c open_ h)

pub send_packet-Delivers :
    (packet : Packet) (c : Client)
    → c.terminated ≡ false
    → All IsHarmless c.link
    → Delivers packet c (send_packet packet c)
unfolding send_packet
send_packet-Delivers packet c open_ h = send_attempts-Delivers c.link packet c open_ h

-- The same of a write, and the loop goes on.
abbrev pub WriteDelivers : Packet → Client → Bool × Client → Type 0
WriteDelivers packet c r =
    (link : List Attempt) × (r ≡ (true, delivered packet link c)) × All IsHarmless link

neither : (a b : Bool) → a ≡ false → b ≡ false → (a || b) ≡ false
neither a b e f = rw (e, f) refl

write_attempts-Delivers :
    (link : List Attempt) (packet : Packet) (c : Client)
    → c.terminated ≡ false
    → is_reconnecting c.state ≡ false
    → All IsHarmless link
    → WriteDelivers packet c (write_attempts link packet c)
write_attempts-Delivers [] packet c open_ on h = ([], refl, tt)
write_attempts-Delivers (works ∷ link) packet c open_ on (_, h) = (link, refl, h)
write_attempts-Delivers (fails ch ∷ link) packet c open_ on ((e, f), h) =
    subst (WriteDelivers packet c)
      (sym (
        ap
          (λ c'.
            if is_reconnecting c'.state || c'.terminated
            then (false, record c' { link = link })
            else write_attempts link packet c')
          (changed-IsHarmless ch c e f)
        ∙ if_false (false, record c { link = link }) (write_attempts link packet c)
            (neither (is_reconnecting c.state) c.terminated on open_)))
      (write_attempts-Delivers link packet c open_ on h)

pub send_write-Delivers :
    (packet : Packet) (c : Client)
    → c.terminated ≡ false
    → is_reconnecting c.state ≡ false
    → All IsHarmless c.link
    → (link : List Attempt) × (send_write packet c ≡ (true, delivered packet link c))
      × All IsHarmless link
unfolding send_write
send_write-Delivers packet c open_ on h = write_attempts-Delivers c.link packet c open_ on h

-- The command takes effect once.
abbrev pub Executes : Command → Client → BufferInfo × Client → Type 0
Executes cmd c r =
    (ioctls : List Attempt) × (r ≡ executed (execute_ioctl cmd c.ring) ioctls c)
    × All IsHarmless ioctls

serve_attempts-Executes :
    (ioctls : List Attempt) (cmd : Command) (c : Client)
    → c.terminated ≡ false
    → All IsHarmless ioctls
    → Executes cmd c (serve_attempts ioctls cmd c)
serve_attempts-Executes [] cmd c open_ h = ([], if_false _ _ open_, tt)
serve_attempts-Executes (works ∷ ioctls) cmd c open_ (_, h) = (ioctls, if_false _ _ open_, h)
serve_attempts-Executes (fails ch ∷ ioctls) cmd c open_ ((e, f), h) =
    subst (Executes cmd c)
      (sym (
        if_false _ _ open_
        ∙ ap
            (λ c'.
              if c'.terminated
              then (zero_info, record c' { ioctls = ioctls })
              else serve_attempts ioctls cmd (record c' { ioctls = ioctls }))
            (changed-IsHarmless ch c e f)
        ∙ if_false (zero_info, record c { ioctls = ioctls }) _ open_))
      (serve_attempts-Executes ioctls cmd (record c { ioctls = ioctls }) open_ h)

pub serve_ioctl-Executes :
    (cmd : Command) (c : Client)
    → c.terminated ≡ false
    → All IsHarmless c.ioctls
    → Executes cmd c (serve_ioctl cmd c)
unfolding serve_ioctl
serve_ioctl-Executes cmd c open_ h = serve_attempts-Executes c.ioctls cmd c open_ h
