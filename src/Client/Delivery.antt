-- ===== src/Client/Delivery.antt =====
-- The way of a write from the ring, through `MonitorChanges` of user/client/client.go and
-- `HandleWritePackets` of user/server/server.go, to the replica.
use bdr.Common.{
  ℕ, ◌+◌, ◌*◌, ◌^◌, ◌≤◌, ◌<◌, ◌≡◌, refl, sym, ap, ap₂, ◌∙◌, true, List, [], ◌∷◌, ◌++◌, map, Option,
  some, ok, length, All, subst,
}
use bdr.Networking.{Extent}
use bdr.Device.{Disk}
use bdr.Device.Overlays.{trimmed, apply_all}
use bdr.Ring.Window.{Write}
use bdr.Ring.Queue.{holding, Refines}
use bdr.Client.{Client}
use bdr.Client.Buffer.{monitor_changes, processed, write_packet}
use bdr.Client.Window.{extent_of, Carries}
use bdr.Client.Process.{IsSteady, AllCarry}
use bdr.Client.Monitor.{IsReady, monitor_changes-Passes}
use bdr.Server.{Server}
use bdr.Live.{handle_write_packets, is_writing}
use bdr.Live.Retries.{IsWrite, handle_write_packets-Made}

-- The write lies on a device of `n` bytes.
abbrev pub LiesWithin : ℕ → Write → Type 0
LiesWithin n w = 512 * w.sector + length w.bytes ≤ n

Carries-IsWrite : (n : ℕ) (x : Extent) (w : Write) → Carries x w → LiesWithin n w → IsWrite n x
Carries-IsWrite n x w (e, (long, small)) within =
    (subst (λ (y : Extent). y.offset + length y.bytes ≤ n) (sym e) within, long)

AllCarry-IsWrite :
    (n : ℕ) (xs : List Extent) (ws : List Write)
    → AllCarry xs ws
    → All (LiesWithin n) ws
    → All (IsWrite n) xs
AllCarry-IsWrite n [] ws h k = tt
AllCarry-IsWrite n (x ∷ xs) [] h k = absurd h
AllCarry-IsWrite n (x ∷ xs) (w ∷ ws) (h, hs) (k, ks) =
    (Carries-IsWrite n x w h k, AllCarry-IsWrite n xs ws hs ks)

pub AllCarry-trimmed :
    (xs : List Extent) (ws : List Write) → AllCarry xs ws → map trimmed xs ≡ map extent_of ws
AllCarry-trimmed [] [] h = refl
AllCarry-trimmed [] (w ∷ ws) h = absurd h
AllCarry-trimmed (x ∷ xs) [] h = absurd h
AllCarry-trimmed (x ∷ xs) (w ∷ ws) ((e, long), hs) = ap₂ ◌∷◌ e (AllCarry-trimmed xs ws hs)

-- Live replication, from the ring to the replica: the packets that a round of `MonitorChanges` sends
-- for the writes in the ring make the same writes, in the same order, on the replica, once a server
-- in the writing state has handled them. The link, the ioctl and the replica fail finitely often
-- (the replica less often than `fuel`), the client is not shut down, reconnected or paused, the kernel
-- may put more writes meanwhile, and the writes lie on the device.
pub live_replication :
    (c : Client) (n : ℕ) (old new : List Write) (fuel : ℕ) (s : Server) (t : List ℕ)
    (plan : List (Option ℕ))
    → IsSteady n true c
    → IsReady c
    → Refines c.target_info.page_size n c.ring (holding old new)
    → 0 < length new
    → is_writing s.state ≡ true
    → length plan < fuel
    → length t < 2 ^ 63
    → All (LiesWithin (length t)) new
    → (c' : Client) × (xs : List Extent) × (d' : Disk) × (monitor_changes c
        ≡ some (ok processed, c'))
      × (c'.sent ≡ c.sent ++ map write_packet xs)
      × (handle_write_packets fuel
            (map write_packet xs)
            (record s { target = record { content = t; plan = plan } })
          ≡ some (ok tt, record s { target = d' }))
      × (d'.content ≡ apply_all t (map extent_of new))
live_replication c n old new fuel s t plan st ready k some_new live h small within =
    let (xs, r, kernel, link, ioctls, e, carry, _, _) =
      monitor_changes-Passes c n old new st ready k some_new in
    let (d', f, same) =
      handle_write_packets-Made fuel xs s t plan live h
        (AllCarry-IsWrite (length t) xs new carry within) small in
    (_, xs, d', e, refl, f, same ∙ ap (apply_all t) (AllCarry-trimmed xs new carry))
