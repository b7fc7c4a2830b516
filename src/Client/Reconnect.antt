-- ===== src/Client/Reconnect.antt =====
-- `reconnectToServer` of user/client/client.go: what a lost connection ends in.
use bdr.Common.{
  ℕ, ◌≡◌, refl, sym, ap, ◌∙◌, subst, false, if◌then◌else◌, List, [], ◌∷◌, ◌++◌, All, if_false,
}
use bdr.Benchmark.{record_reconnection}
use bdr.Ring.Queue.{Queue, holding, Refines}
use bdr.Ring.Queue.Refine.{reset-Simulates}
use bdr.Client.{
  Client, State, hashing, writing, replicating, reconnecting, Dial, connects, refused, unsized,
  unsent, start_hashing,
}
use bdr.Client.Buffer.{is_reconnecting}
use bdr.Client.Listen.{init_packet, reconnected, reconnect_attempts, reconnect_to_server}
use bdr.Client.Sending.{IsHarmless, changed-IsHarmless}
use bdr.Client.Rescan.{Restarts, start_hashing-Restarts}

-- Nobody shuts the client down while it tries to reconnect.
abbrev pub IsPatient : Dial → Type 0
IsPatient connects = Unit {0}
IsPatient (refused ch) = (ch.terminates ≡ false) × (ch.reconnects ≡ false)
IsPatient (unsized ch) = (ch.terminates ≡ false) × (ch.reconnects ≡ false)
IsPatient (unsent ch) = (ch.terminates ≡ false) × (ch.reconnects ≡ false)

-- One attempt got through.
abbrev Connects : State → Client → Client → Type 0
Connects past c c' = (dials : List Dial) × (c' ≡ reconnected past (record c { dials = dials }))

reconnect_attempts-Connects :
    (dials : List Dial) (past : State) (c : Client)
    → c.terminated ≡ false
    → All IsPatient dials
    → Connects past c (reconnect_attempts dials past c)
reconnect_attempts-Connects [] past c up h = (c.dials, if_false _ _ up)
reconnect_attempts-Connects (connects ∷ dials) past c up h = (dials, if_false _ _ up)
reconnect_attempts-Connects (refused ch ∷ dials) past c up ((e, f), h) =
    subst (Connects past c)
      (sym (
        if_false _ _ up
        ∙ ap (λ d. reconnect_attempts dials past (record d { dials = dials }))
            (changed-IsHarmless ch c e f)))
      (reconnect_attempts-Connects dials past (record c { dials = dials }) up h)
reconnect_attempts-Connects (unsized ch ∷ dials) past c up ((e, f), h) =
    subst (Connects past c)
      (sym (
        if_false _ _ up
        ∙ ap (λ d. reconnect_attempts dials past (record d { dials = dials }))
            (changed-IsHarmless ch c e f)))
      (reconnect_attempts-Connects dials past (record c { dials = dials }) up h)
reconnect_attempts-Connects (unsent ch ∷ dials) past c up ((e, f), h) =
    subst (Connects past c)
      (sym (
        if_false _ _ up
        ∙ ap
            (λ d.
              if d.terminated
              then record d { dials = dials }
              else reconnect_attempts dials past (record d { dials = dials }))
            (changed-IsHarmless ch c e f)
        ∙ if_false (record c { dials = dials }) _ up))
      (reconnect_attempts-Connects dials past (record c { dials = dials }) up h)

reconnected-start_hashing :
    (past : State) (c : Client)
    → is_reconnecting past ≡ false
    → reconnected past c ≡ start_hashing (record c { sent = c.sent ++ init_packet c ∷ [] })
reconnected-start_hashing hashing c e = refl
reconnected-start_hashing writing c e = refl
reconnected-start_hashing replicating c e = refl
reconnected-start_hashing reconnecting c e = cc

-- The client as a new connection finds it: the attempts are counted, and the init packet is sent.
abbrev pub connected_client : Client → List Dial → Client
connected_client c dials = record c {
  state = reconnecting;
  stats = record_reconnection c.stats;
  dials = dials;
  sent = c.sent ++ init_packet c ∷ [];
}

-- A client that has lost its connection while it was writing, hashing or replicating connects again,
-- whichever of finitely many dials, sizes and first packets fail, and then has sent the init packet
-- and, behind it, the command to hash, once each; the ring, overflown or not, is reset to an empty one,
-- the monitor is told to pause, and the state is `hashing`. The link and the ioctl fail finitely often,
-- and nobody shuts the client down.
pub reconnect_to_server-Restarts :
    (c : Client) (n : ℕ) (q : Queue)
    → is_reconnecting c.state ≡ false
    → c.terminated ≡ false
    → All IsPatient c.dials
    → All IsHarmless c.link
    → All IsHarmless c.ioctls
    → Refines c.target_info.page_size n c.ring q
    → (dials : List Dial) × Restarts (connected_client c dials) (reconnect_to_server c)
      × Refines c.target_info.page_size n (reconnect_to_server c).ring (holding [] [])
unfolding reconnect_to_server
reconnect_to_server-Restarts c n q was up patient link ioctls k =
    let c1 = record c { state = reconnecting; stats = record_reconnection c.stats } in
    let (dials, e) = reconnect_attempts-Connects c.dials c.state c1 up patient in
    let (link', ioctls', f, h, g) =
      start_hashing-Restarts (connected_client c dials) up link ioctls in
    let same = e ∙ reconnected-start_hashing c.state (record c1 { dials = dials }) was ∙ f in
    let (_, empty) = reset-Simulates c.target_info.page_size n c.ring q k in
    (
      dials,
      (link', ioctls', same, h, g),
      subst (λ c'. Refines c.target_info.page_size n c'.ring (holding [] [])) (sym same) empty,
    )
