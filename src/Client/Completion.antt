-- ===== src/Client/Completion.antt =====
-- `SendBuffer` and `ProcessBuffer` of user/client/client.go on a ring that has lost no write: the end
-- of a scan.
use bdr.Common.{
  ℕ, ◌<◌, ◌≡◌, refl, sym, ap, subst, ◌∙◌, arith, true, false, not, ◌==◌, List, [], ◌∷◌, ◌++◌, map,
  some, ok, length, if_false, if_true,
}
use bdr.Networking.{Extent, create_info_packet, info_hashing_completed}
use bdr.Pause.{resume}
use bdr.Ring.{has_new_writes, read_routine}
use bdr.Ring.Window.{Write}
use bdr.Ring.Queue.{holding, Refines}
use bdr.Ring.Queue.Reading.{read_routine-Read}
use bdr.Client.{Client, serve_ioctl, read_buffer_info, execute_ioctl, writing}
use bdr.Client.Buffer.{process_buffer_info, send_buffer, process_buffer, write_packet, after_buffer}
use bdr.Client.Sending.{serve_ioctl-Executes, send_packet-Delivers}
use bdr.Client.Monitor.{
  Passes, IsReady, passed, serve_ioctl-Taken, and_value-Passes, has_new_writes_true,
}
use mathlib.Core.List.{append-nil}
use bdr.Client.Process.{IsSteady, AllCarry}

send_buffer_some :
    (c : Client) (n : ℕ) (old new : List Write)
    → IsSteady n false c
    → IsReady c
    → Refines c.target_info.page_size n c.ring (holding old new)
    → 0 < length new
    → Passes c n new true (send_buffer c)
unfolding send_buffer
send_buffer_some c n old new st ready k some_new =
    let (info, c1) = serve_ioctl read_buffer_info c in
    let (len, flags, passes) = serve_ioctl-Taken c n old new false st ready k in
    subst (Passes c n new true)
      (sym (if_false _ _ (has_new_writes_true info (omega (arith, len))) ∙ if_false _ _ flags))
      (and_value-Passes true c n new (process_buffer_info info false c1) passes)

send_buffer_none :
    (c : Client) (n : ℕ) (old : List Write)
    → IsSteady n false c
    → IsReady c
    → Refines c.target_info.page_size n c.ring (holding old [])
    → Passes c n [] true (send_buffer c)
unfolding send_buffer execute_ioctl
send_buffer_none c n old st ready k =
    let (ioctls, e, harmless) = serve_ioctl-Executes read_buffer_info c st.up ready.ioctls in
    let told = read_routine-Read c.target_info.page_size n c.ring old [] k in
    let none_new : not (has_new_writes (serve_ioctl read_buffer_info c).0) ≡ true =
      ap (λ r. not (has_new_writes r.0)) e ∙ ap (λ m. not (not (m == 0))) told.length in
    (
      [],
      (read_routine c.ring).1,
      c.kernel,
      c.link,
      ioctls,
      if_true _ _ none_new
          ∙ ap (λ r. some (ok true, r.1)) e
          ∙ ap (λ s. some (ok true, passed c (read_routine c.ring).1 c.kernel s c.link ioctls))
              (sym (append-nil c.sent)),
      tt,
      (holding [] [], refl, told.ring),
      record { link = ready.link; ioctls = harmless; puts = ready.puts },
    )

send_buffer-Passes :
    (c : Client) (n : ℕ) (old new : List Write)
    → IsSteady n false c
    → IsReady c
    → Refines c.target_info.page_size n c.ring (holding old new)
    → Passes c n new true (send_buffer c)
send_buffer-Passes c n old [] st ready k = send_buffer_none c n old st ready k
send_buffer-Passes c n old (w ∷ ws) st ready k =
    send_buffer_some c n old (w ∷ ws) st ready k (omega arith)

-- The end of a scan: on a ring that has not overflown `ProcessBuffer` returns; it has sent one packet
-- for each write that waited in the ring, in their order and with the bytes that the kernel put,
-- and behind them, once, that hashing is complete; the state is `writing` and the monitor is told to
-- go on, paused or not before. The link and the ioctl fail finitely often, without a shutdown or a
-- reconnection, and the kernel may put more writes meanwhile.
pub process_buffer-Completes :
    (c : Client) (n : ℕ) (old new : List Write)
    → IsSteady n false c
    → IsReady c
    → Refines c.target_info.page_size n c.ring (holding old new)
    → (c' : Client) × (xs : List Extent) × (process_buffer c ≡ some (ok tt, c'))
      × (c'.sent
          ≡ (c.sent ++ map write_packet xs) ++ create_info_packet info_hashing_completed ∷ [])
      × AllCarry xs new
      × (c'.state ≡ writing)
      × (c'.monitor ≡ resume c.monitor)
unfolding process_buffer
process_buffer-Completes c n old new st ready k =
    let (xs, r, kernel, link, ioctls, e, carry, _, ready') =
      send_buffer-Passes c n old new st ready k in
    let c1 = passed c r kernel (c.sent ++ map write_packet xs) link ioctls in
    let (link', f, _) =
      send_packet-Delivers (create_info_packet info_hashing_completed)
        (record c1 { state = writing; monitor = resume c.monitor }) st.up ready'.link in
    (
      _,
      xs,
      ap after_buffer e,
      ap (λ c. c.sent) f,
      carry,
      ap (λ c. c.state) f,
      ap (λ c. c.monitor) f,
    )
