-- ===== src/Client/Rescan.antt =====
-- `StartHashing` of user/client/client.go, and how `MonitorChanges` and `ProcessBuffer` come to it.
use bdr.Common.{
  ℕ, ◌≡◌, sym, ap, subst, ◌∙◌, true, false, not, List, [], ◌∷◌, ◌++◌, some, ok, All, if_false,
  if_true,
}
use bdr.Networking.{create_info_packet, cmd_start_hashing}
use bdr.Pause.{pause}
use bdr.Benchmark.{record_buffer_overflow}
use bdr.Ring.{BufferInfo, check_overflow, has_new_writes, read_routine}
use bdr.Ring.Window.{Write}
use bdr.Ring.Queue.{holding, overflown, Refines}
use bdr.Ring.Queue.Reading.{read_routine-Lost}
use bdr.Client.{
  Client, Attempt, serve_ioctl, read_buffer_info, reset_buffer, send_packet, execute_ioctl,
  start_hashing, hashing,
}
use bdr.Client.Buffer.{monitor_changes, send_buffer, process_buffer, rescanned, after_buffer}
use bdr.Client.Sending.{IsHarmless, serve_ioctl-Executes, send_packet-Delivers}
use bdr.Ring.{reset_ring}
use bdr.Ring.Queue.Refine.{reset-Simulates}
use bdr.Client.Monitor.{has_new_writes_true}

-- `StartHashing` has taken effect: the ring is reset, the monitor is told to pause, and the server is
-- asked for its hashes.
abbrev pub restarted : Client → List Attempt → List Attempt → Client
restarted c link ioctls = record c {
  ring = reset_ring c.ring;
  state = hashing;
  monitor = pause c.monitor;
  sent = c.sent ++ create_info_packet cmd_start_hashing ∷ [];
  link = link;
  ioctls = ioctls;
}

abbrev pub Restarts : Client → Client → Type 0
Restarts c c' =
    (link : List Attempt) × (ioctls : List Attempt) × (c' ≡ restarted c link ioctls)
    × All IsHarmless link
    × All IsHarmless ioctls

pub start_hashing-Restarts :
    (c : Client)
    → c.terminated ≡ false
    → All IsHarmless c.link
    → All IsHarmless c.ioctls
    → Restarts c (start_hashing c)
unfolding start_hashing execute_ioctl
start_hashing-Restarts c up link ioctls =
    let (ioctls', e, h) = serve_ioctl-Executes reset_buffer c up ioctls in
    let c1 = record c {
      ring = reset_ring c.ring;
      ioctls = ioctls';
      state = hashing;
      monitor = pause c.monitor;
    } in
    let (link', f, k) = send_packet-Delivers (create_info_packet cmd_start_hashing) c1 up link in
    (
      link',
      ioctls',
      ap
            (λ r.
              send_packet (create_info_packet cmd_start_hashing)
                (record r.1 { state = hashing; monitor = pause r.1.monitor }))
            e
          ∙ f,
      k,
      h,
    )

-- A new scan has begun, on an empty ring.
abbrev pub Rescans : Client → ℕ → Client → Type 0
Rescans c n c' = Restarts c c' × Refines c.target_info.page_size n c'.ring (holding [] [])

start_hashing-Rescans :
    (c c0 : Client) (n : ℕ) (old : List Write) (ioctls : List Attempt)
    → c0 ≡ record c { ioctls = ioctls }
    → c.terminated ≡ false
    → All IsHarmless c.link
    → All IsHarmless ioctls
    → Refines c.target_info.page_size n c.ring (overflown old)
    → Rescans c n (start_hashing c0)
start_hashing-Rescans c c0 n old ioctls e up link harmless k =
    let (link', ioctls', f, h, g) =
      start_hashing-Restarts (record c { ioctls = ioctls }) up link harmless in
    let (_, empty) = reset-Simulates c.target_info.page_size n c.ring (overflown old) k in
    let same = ap start_hashing e ∙ f in
    (
      (link', ioctls', same, h, g),
      subst (λ c'. Refines c.target_info.page_size n c'.ring (holding [] [])) (sym same) empty,
    )

-- A ring that has overflown is found out: the call of the client tells of new writes and of the loss.
abbrev Finds : Client → BufferInfo × Client → Type 0
Finds c r =
    (not (has_new_writes r.0) ≡ false)
    × (check_overflow r.0 ≡ true)
    × ((ioctls : List Attempt) × (r.1 ≡ record c { ioctls = ioctls }) × All IsHarmless ioctls)

serve_ioctl-Finds :
    (c : Client) (n : ℕ) (old : List Write)
    → c.terminated ≡ false
    → All IsHarmless c.ioctls
    → Refines c.target_info.page_size n c.ring (overflown old)
    → Finds c (serve_ioctl read_buffer_info c)
unfolding execute_ioctl
serve_ioctl-Finds c n old up harmless k =
    let (ioctls, e, h) = serve_ioctl-Executes read_buffer_info c up harmless in
    let told = read_routine-Lost c.target_info.page_size n c.ring old k in
    subst (Finds c) (sym e) (
      has_new_writes_true (read_routine c.ring).0 told.length,
      told.flags,
      (ioctls, ap (λ r. record c { ring = r; ioctls = ioctls }) told.ring, h),
    )

-- A round of `MonitorChanges` on a ring that has overflown counts the overflow and starts a new scan:
-- the ring is reset to an empty one, the monitor is told to pause, the state is `hashing`, and the
-- command to hash is on the wire, once; the link and the ioctl fail finitely often, without a shutdown
-- or a reconnection.
pub monitor_changes-Rescans :
    (c : Client) (n : ℕ) (old : List Write)
    → c.terminated ≡ false
    → All IsHarmless c.link
    → All IsHarmless c.ioctls
    → Refines c.target_info.page_size n c.ring (overflown old)
    → (c' : Client) × (monitor_changes c ≡ some (ok rescanned, c'))
      × Rescans (record c { stats = record_buffer_overflow c.stats }) n c'
unfolding monitor_changes
monitor_changes-Rescans c n old up link harmless k =
    let (some_new, flags, (ioctls, e, h)) = serve_ioctl-Finds c n old up harmless k in
    let c1 = (serve_ioctl read_buffer_info c).1 in
    let count : Client → Client = λ d. record d { stats = record_buffer_overflow d.stats } in
    let counted = record c { stats = record_buffer_overflow c.stats } in
    (
      _,
      if_false _ _ some_new ∙ if_true _ _ flags,
      start_hashing-Rescans counted (record c1 { stats = record_buffer_overflow c1.stats }) n old
          ioctls (ap count e) up link h k,
    )

-- The end of a scan: on a ring that has overflown meanwhile `ProcessBuffer` starts a new scan, on an
-- empty ring and with the monitor told to pause, and does not tell the server that hashing is
-- complete; the link and the ioctl fail finitely often, without a shutdown or a reconnection.
pub process_buffer-Rescans :
    (c : Client) (n : ℕ) (old : List Write)
    → c.terminated ≡ false
    → All IsHarmless c.link
    → All IsHarmless c.ioctls
    → Refines c.target_info.page_size n c.ring (overflown old)
    → (c' : Client) × (process_buffer c ≡ some (ok tt, c')) × Rescans c n c'
unfolding process_buffer send_buffer
process_buffer-Rescans c n old up link harmless k =
    let (some_new, flags, (ioctls, e, h)) = serve_ioctl-Finds c n old up harmless k in
    let c1 = (serve_ioctl read_buffer_info c).1 in
    (
      _,
      ap after_buffer (if_false _ _ some_new ∙ if_true _ _ flags),
      start_hashing-Rescans c c1 n old ioctls e up link h k,
    )
