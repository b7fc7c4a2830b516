-- ===== src/Client/Replicate.antt =====
-- `FullReplicate`, `InitReplication` and `SendReplicationBlock` of user/client/client.go, and what the
-- loop of `HandleClient` of user/server/server.go makes of their packets.
use mathlib.Core.List.{Perm, append_assoc, append-nil}
use bdr.Common.{
  ℕ, ◌<◌, ◌^◌, ◌≡◌, refl, sym, ap, ◌∙◌, true, false, if◌then◌else◌, List, [], ◌∷◌, ◌++◌, map,
  length, ok, All, if_false,
}
use bdr.Device.{sound}
use bdr.Networking.{
  Extent, Packet, create_info_packet, info_start_replication, info_replication_completed,
}
use bdr.Pause.{pause, resume}
use bdr.Ring.{reset_ring}
use bdr.Scan.{replication_packet}
use bdr.Scan.Complete.{replication}
use bdr.Server.{Server, State}
use bdr.Replica.Copies.{with_target}
use bdr.Live.Copying.{full_replication}
use bdr.Session.{Session, begin_session, dispatch}
use bdr.Session.Start.{dispatch_all}
use bdr.Client.{
  Client, Attempt, check_termination, set_state, writing, replicating, send_packet, full_replicate,
  reset_buffer, execute_ioctl,
}
use bdr.Client.Buffer.{resume_monitor}
use bdr.Client.Sending.{IsHarmless, serve_ioctl-Executes, send_packet-Delivers}

-- The blocks in the order in which the workers send them, until the client terminates.
unfoldable pub send_blocks : List Extent → Client → Client
send_blocks [] c = c
send_blocks (x ∷ blocks) c =
    let rest = send_blocks blocks (send_packet (replication_packet x) c) in
    if check_termination c then c else rest

-- The end of `InitReplication`, behind its workers.
unfoldable pub init_replication : List Extent → Client → Client
unfolding send_blocks
init_replication blocks c =
    let c1 = send_packet (create_info_packet info_replication_completed) (send_blocks blocks c) in
    resume_monitor (set_state writing c1)

-- Only the wire and the plan of the link have changed.
abbrev Sends : List Packet → Client → Client → Type 0
Sends packets c c' =
    (link : List Attempt) × (c' ≡ record c { sent = c.sent ++ packets; link = link })
    × All IsHarmless link

send_blocks-Sends :
    (blocks : List Extent) (c : Client)
    → c.terminated ≡ false
    → All IsHarmless c.link
    → Sends (map replication_packet blocks) c (send_blocks blocks c)
unfolding send_blocks
send_blocks-Sends [] c up h = (c.link, ap (λ z. record c { sent = z }) (sym (append-nil c.sent)), h)
send_blocks-Sends (x ∷ blocks) c up h =
    let (link, e, h1) = send_packet-Delivers (replication_packet x) c up h in
    let c1 : Client = record c { sent = c.sent ++ replication_packet x ∷ []; link = link } in
    let (link', f, h2) = send_blocks-Sends blocks c1 up h1 in
    (
      link',
      if_false _ _ up
          ∙ ap (send_blocks blocks) e
          ∙ f
          ∙ ap (λ z. record c { sent = z; link = link' })
              (append_assoc c.sent (replication_packet x ∷ []) (map replication_packet blocks)),
      h2,
    )

-- The packets of a full replication.
abbrev pub replication_packets : List Extent → List Packet
replication_packets blocks =
    create_info_packet info_start_replication
    ∷ (map replication_packet blocks ++ create_info_packet info_replication_completed ∷ [])

replicates-Sends :
    (blocks : List Extent) (c : Client)
    → c.terminated ≡ false
    → All IsHarmless c.link
    → All IsHarmless c.ioctls
    → let c' = init_replication blocks (full_replicate c) in
      (c'.sent ≡ c.sent ++ replication_packets blocks)
      × (c'.state ≡ writing)
      × (c'.monitor ≡ resume (pause c.monitor))
      × (c'.ring ≡ reset_ring c.ring)
unfolding init_replication full_replicate execute_ioctl
replicates-Sends blocks c up link ioctls =
    let start = create_info_packet info_start_replication in
    let end = create_info_packet info_replication_completed in
    let items = map replication_packet blocks in
    let (ioctls', e, _) = serve_ioctl-Executes reset_buffer c up ioctls in
    let c1 : Client = record c {
      ring = reset_ring c.ring;
      ioctls = ioctls';
      state = replicating;
      monitor = pause c.monitor;
    } in
    let (link1, f, h1) = send_packet-Delivers start c1 up link in
    let c2 : Client = record c1 { sent = c.sent ++ start ∷ []; link = link1 } in
    let (link2, g, h2) = send_blocks-Sends blocks c2 up h1 in
    let c3 : Client = record c2 { sent = c2.sent ++ items; link = link2 } in
    let (_, i, _) = send_packet-Delivers end c3 up h2 in
    let whole =
      ap
        (λ r. send_packet end (
          send_blocks blocks
            (send_packet start (record r.1 { state = replicating; monitor = pause r.1.monitor }))))
        e
      ∙ ap (λ z. send_packet end (send_blocks blocks z)) f
      ∙ ap (send_packet end) g
      ∙ i in
    (
      ap (λ z. z.sent) whole
          ∙ append_assoc (c.sent ++ start ∷ []) items (end ∷ [])
          ∙ append_assoc c.sent (start ∷ []) (items ++ end ∷ []),
      refl,
      ap (λ z. resume z.monitor) whole,
      ap (λ z. z.ring) whole,
    )

queued :
    (xs : List Extent) (packets : List Packet) (v : Session)
    → dispatch_all (map replication_packet xs ++ packets) v
      ≡ dispatch_all packets
          (record v { replication_queue = v.replication_queue ++ map replication_packet xs })
unfolding dispatch_all dispatch
queued [] packets v =
    ap (λ z. dispatch_all packets (record v { replication_queue = z }))
      (sym (append-nil v.replication_queue))
queued (x ∷ xs) packets v =
    queued xs packets
      (record v { replication_queue = v.replication_queue ++ replication_packet x ∷ [] })
    ∙ ap (λ z. dispatch_all packets (record v { replication_queue = z }))
        (append_assoc v.replication_queue (replication_packet x ∷ []) (map replication_packet xs))

served-Copies :
    (src t : List ℕ) (step : ℕ) (blocks : List Extent) (s : Server)
    → length t ≡ length src
    → length src < 2 ^ 63
    → 0 < step
    → step < 2 ^ 32
    → Perm (replication src step) blocks
    → dispatch_all (replication_packets blocks) (begin_session (with_target s t))
      ≡ (ok tt, begin_session (record s { target = sound src; state = State.writing }))
unfolding dispatch_all dispatch
served-Copies src t step blocks s e small pos word perm =
    let s1 : Server = record s { state = State.replicating } in
    let v : Session = record (begin_session (with_target s1 t)) { replication_worker = true } in
    queued blocks (create_info_packet info_replication_completed ∷ []) v
    ∙ rw (full_replication src t step blocks s1 e small pos word perm) refl

-- A client replicates the whole disk: it does not terminate meanwhile and its failed calls are
-- harmless, source and replica have one size, work and do not change otherwise, and the workers send
-- all blocks in some order. What it sends from then on makes a session that has just begun a copy of
-- the source on the replica, in the writing state and with empty queues. The client goes back to the
-- writing state, with its ring emptied at the start and its monitor resumed.
pub replicates-copies :
    (src t : List ℕ) (step : ℕ) (blocks : List Extent) (c : Client) (s : Server)
    → c.terminated ≡ false
    → All IsHarmless c.link
    → All IsHarmless c.ioctls
    → length t ≡ length src
    → length src < 2 ^ 63
    → 0 < step
    → step < 2 ^ 32
    → Perm (replication src step) blocks
    → let c' = init_replication blocks (full_replicate c) in
      (packets : List Packet) × (c'.sent ≡ c.sent ++ packets)
      × (dispatch_all packets (begin_session (with_target s t))
          ≡ (ok tt, begin_session (record s { target = sound src; state = State.writing })))
      × (c'.state ≡ writing)
      × (c'.monitor ≡ resume (pause c.monitor))
      × (c'.ring ≡ reset_ring c.ring)
replicates-copies src t step blocks c s up link ioctls e small pos word perm =
    let (sent, state, monitor, ring) = replicates-Sends blocks c up link ioctls in
    (
      replication_packets blocks,
      sent,
      served-Copies src t step blocks s e small pos word perm,
      state,
      monitor,
      ring,
    )
