-- ===== src/Client/Monitor.antt =====
-- `MonitorChanges`, `SendBuffer` and `ProcessBuffer` of user/client/client.go on a ring that holds
-- writes, and on one that has lost some.
use bdr.Common.{
  ℕ, ◌<◌, ◌≡◌, refl, sym, ap, subst, ◌∙◌, arith, Bool, true, false, not, List, [], ◌++◌, map, some,
  ok, length, All, if_false,
}
use bdr.Networking.{Extent, Packet}
use bdr.Ring.{BufferInfo, Ring, check_overflow, has_new_writes, read_routine}
use bdr.Ring.Window.{Write}
use bdr.Ring.Queue.{Queue, holding, reading, Refines}
use bdr.Ring.Queue.Places.{ne→==}
use bdr.Ring.Queue.Reading.{Put, read_routine-Read}
use bdr.Client.{Client, Attempt, serve_ioctl, read_buffer_info, execute_ioctl}
use bdr.Client.Buffer.{
  process_buffer_info, process_from, monitor_changes, and_value, write_packet, R, processed,
}
use bdr.Client.Sending.{IsHarmless, serve_ioctl-Executes}
use bdr.Client.Process.{IsSteady, IsKernel, AllCarry, process_from-Sends}

-- What a pass over the buffer changes of the client.
abbrev pub passed :
    Client → Ring → List (List Put) → List Packet → List Attempt → List Attempt → Client
passed c r kernel sent link ioctls = record c {
  ring = r;
  kernel = kernel;
  sent = sent;
  link = link;
  ioctls = ioctls;
}

-- The client is up, its calls succeed in the end, and the kernel puts parts of pages.
pub record IsReady (c : Client) : Type 0 where
  pub link : All IsHarmless c.link
  pub ioctls : All IsHarmless c.ioctls
  pub puts : IsKernel c.target_info.page_size c.kernel

-- The call returned `a`, with one packet sent for each write, in their order; what the ring has for
-- the reader now are these writes, and the client can go on.
abbrev pub Passes : {A : Type 0} → Client → ℕ → List Write → A → R A → Type 0
Passes c n new a res =
    (xs : List Extent) × (r : Ring) × (kernel : List (List Put)) × (link : List Attempt)
    × (ioctls : List Attempt) × (res
        ≡ some (ok a, passed c r kernel (c.sent ++ map write_packet xs) link ioctls))
    × AllCarry xs new
    × ((q : Queue) × (reading q ≡ new) × Refines c.target_info.page_size n r q)
    × IsReady (passed c r kernel (c.sent ++ map write_packet xs) link ioctls)

-- The client asks for the writes and goes through them.
abbrev pub Taken : Client → ℕ → List Write → Bool → BufferInfo × Client → Type 0
Taken c n new main_loop r =
    (r.0.length ≡ length new)
    × (check_overflow r.0 ≡ false)
    × Passes c n new tt (process_buffer_info r.0 main_loop r.1)

pub serve_ioctl-Taken :
    (c : Client) (n : ℕ) (old new : List Write) (main_loop : Bool)
    → IsSteady n main_loop c
    → IsReady c
    → Refines c.target_info.page_size n c.ring (holding old new)
    → Taken c n new main_loop (serve_ioctl read_buffer_info c)
unfolding execute_ioctl process_buffer_info
serve_ioctl-Taken c n old new main_loop st ready k =
    let page_size = c.target_info.page_size in
    let (ioctls, e, harmless) = serve_ioctl-Executes read_buffer_info c st.up ready.ioctls in
    let told = read_routine-Read page_size n c.ring old new k in
    let info = (read_routine c.ring).0 in
    let r1 = (read_routine c.ring).1 in
    let c1 = record c { ring = r1; ioctls = ioctls } in
    let st1 : IsSteady n main_loop c1 = record {
      slot = st.slot;
      small = st.small;
      up = st.up;
      connected = st.connected;
      unpaused = st.unpaused;
    } in
    let (xs, r, kernel, link, done, carry, (q, same, k', _), later, harmless') =
      process_from-Sends c1 n info main_loop new [] new 0 r1 c.kernel c.sent c.link st1
        told.max_writes refl refl (holding new [], refl, told.ring, told.last) ready.puts
        ready.link in
    subst (Taken c n new main_loop) (sym e) (
      told.length,
      told.flags,
      (
        xs,
        r,
        kernel,
        link,
        ioctls,
        ap (λ k. process_from k 0 info main_loop c1) told.length ∙ done,
        carry,
        (q, same, k'),
        record { link = harmless'; ioctls = harmless; puts = later },
      ),
    )

pub has_new_writes_true : (info : BufferInfo) → 0 < info.length → not (has_new_writes info) ≡ false
has_new_writes_true info h = rw (ne→== info.length 0 (omega arith)) refl

pub and_value-Passes :
    {A : Type 0} (a : A) (c : Client) (n : ℕ) (new : List Write) (res : R (Unit {0}))
    → Passes c n new tt res
    → Passes c n new a (and_value a res)
and_value-Passes a c n new res (xs, r, kernel, link, ioctls, e, carry, queue, ready) =
    (xs, r, kernel, link, ioctls, ap (and_value a) e, carry, queue, ready)

-- A round of `MonitorChanges` behind the pause, on a ring with new writes that is not overflown,
-- returns, with one packet on the wire for each of these writes, in their order, each with the bytes
-- that the kernel put, whatever the kernel puts into the ring during the round; the link and the ioctl
-- fail finitely often, without a shutdown or a reconnection, and nobody pauses the monitor.
pub monitor_changes-Passes :
    (c : Client) (n : ℕ) (old new : List Write)
    → IsSteady n true c
    → IsReady c
    → Refines c.target_info.page_size n c.ring (holding old new)
    → 0 < length new
    → Passes c n new processed (monitor_changes c)
unfolding monitor_changes
monitor_changes-Passes c n old new st ready k some_new =
    let (info, c1) = serve_ioctl read_buffer_info c in
    let (len, flags, passes) = serve_ioctl-Taken c n old new true st ready k in
    subst (Passes c n new processed)
      (sym (if_false _ _ (has_new_writes_true info (omega (arith, len))) ∙ if_false _ _ flags))
      (and_value-Passes processed c n new (process_buffer_info info true c1) passes)
