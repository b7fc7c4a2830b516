-- ===== src/Client/Process.antt =====
-- `ProcessBufferInfo` of user/client/client.go, while the kernel goes on putting writes into the ring.
use bdr.Common.{
  ℕ, suc, ◌*◌, ◌^◌, ◌<◌, ◌≡◌, refl, sym, ap, ◌∙◌, subst, arith, Bool, true, false, ◌&&◌,
  if◌then◌else◌, List, [], ◌∷◌, ◌++◌, map, some, ok, length, All, if_false, length-append,
}
use mathlib.Core.List.{append-nil, append_assoc}
use bdr.Networking.{Extent, Packet}
use bdr.Pause.{is_paused}
use bdr.Pause.Safety.{is_paused-kept}
use bdr.Ring.{BufferInfo, Ring, slot_size}
use bdr.Ring.Window.{Write}
use bdr.Ring.Queue.{Queue, reading, Refines, IsPossible}
use bdr.Ring.Queue.Reading.{
  Put, operation_of, after_puts, after_puts-last, Reader, after_puts-reading, Refines-Reader,
}
use bdr.Client.{Client, Attempt, delivered}
use bdr.Client.Buffer.{
  process_from, read_entry, send_write, send_entry, after_send, write_packet, look_paused,
  kernel_puts, next_puts, later_puts, is_reconnecting, R,
}
use bdr.Client.Sending.{IsHarmless, send_write-Delivers}
use bdr.Client.Window.{Carries, read_entry-Carries}

-- One write that is not skipped, decoded and sent.
process_step :
    (k i : ℕ) (info : BufferInfo) (main_loop : Bool) (d c1 c2 : Client) (b : Bool) (x : Extent)
    → look_paused (kernel_puts d) ≡ (b, c1)
    → (b && main_loop) ≡ false
    → read_entry info i c1 ≡ ok (some x)
    → send_write (write_packet x) c1 ≡ (true, c2)
    → process_from (suc k) i info main_loop d ≡ process_from k (suc i) info main_loop c2
unfolding process_from
process_step k i info main_loop d c1 c2 b x e f g h =
    ap
      (λ r.
        if r.0 && main_loop
        then some (ok tt, r.1)
        else send_entry (read_entry info i r.1) r.1 (process_from k (suc i) info main_loop))
      e
    ∙ if_false _ _ f
    ∙ ap (λ o. send_entry o c1 (process_from k (suc i) info main_loop)) g
    ∙ ap (λ r. after_send r (process_from k (suc i) info main_loop)) h

process_done :
    (i : ℕ) (info : BufferInfo) (main_loop : Bool) (d : Client)
    → process_from 0 i info main_loop d ≡ some (ok tt, d)
unfolding process_from
process_done i info main_loop d = refl

-- The client in the loop: what changes of `c`.
abbrev pub during : Client → Ring → List (List Put) → List Packet → List Attempt → Client
during c r kernel sent link = record c { ring = r; kernel = kernel; sent = sent; link = link }

-- The kernel names a part of a page in every put.
abbrev pub IsKernel : ℕ → List (List Put) → Type 0
IsKernel page_size kernel = All (All (λ p. IsPossible page_size (operation_of p))) kernel

-- The reader's writes are in the ring, from slot `first` on.
abbrev pub Reads : ℕ → ℕ → ℕ → List Write → Ring → Type 0
Reads page_size n first all r =
    (q : Queue) × (reading q ≡ all) × Refines page_size n r q × (r.info.last ≡ first)

-- The loop is neither left nor stuck: the client is up, and the monitor is not paused or does not care.
pub record IsSteady (n : ℕ) (main_loop : Bool) (c : Client) : Type 0 where
  pub slot : c.target_info.write_info_size ≡ slot_size c.target_info.page_size
  pub small : n * slot_size c.target_info.page_size < 2 ^ 63
  pub up : c.terminated ≡ false
  pub connected : is_reconnecting c.state ≡ false
  pub unpaused : ((is_paused c.monitor).0 && main_loop) ≡ false

-- One packet for each write, in their order.
abbrev pub AllCarry : List Extent → List Write → Type 0
AllCarry [] [] = Unit {0}
AllCarry [] (w ∷ ws) = ⊥
AllCarry (x ∷ xs) [] = ⊥
AllCarry (x ∷ xs) (w ∷ ws) = Carries x w × AllCarry xs ws

-- The loop came to its end, and has sent the writes.
abbrev pub Sends : Client → ℕ → ℕ → List Write → List Write → List Packet → R (Unit {0}) → Type 0
Sends c n first all ws sent res =
    (xs : List Extent) × (r : Ring) × (kernel : List (List Put)) × (link : List Attempt) × (res
      ≡ some (ok tt, during c r kernel (sent ++ map write_packet xs) link))
    × AllCarry xs ws
    × Reads c.target_info.page_size n first all r
    × IsKernel c.target_info.page_size kernel
    × All IsHarmless link

next_puts-IsPossible :
    (page_size : ℕ) (kernel : List (List Put))
    → IsKernel page_size kernel
    → All (λ p. IsPossible page_size (operation_of p)) (next_puts kernel)
      × IsKernel page_size (later_puts kernel)
next_puts-IsPossible page_size [] h = (tt, tt)
next_puts-IsPossible page_size (ps ∷ kernel) (h, hs) = (h, hs)

-- Puts do not take the reader's writes away.
Reads-puts :
    (page_size n first : ℕ) (all : List Write) (ps : List Put) (r : Ring)
    → All (λ p. IsPossible page_size (operation_of p)) ps
    → Reads page_size n first all r
    → Reads page_size n first all (after_puts page_size ps r)
Reads-puts page_size n first all ps r h (q, e, k, f) =
    let (q', same, k') = after_puts-reading page_size n ps r q h k in
    (q', same ∙ e, k', after_puts-last page_size ps r ∙ f)

look_paused-during :
    (c : Client) (r : Ring) (kernel : List (List Put)) (sent : List Packet) (link : List Attempt)
    → look_paused (kernel_puts (during c r kernel sent link)) ≡ (
      (is_paused c.monitor).0,
      during c
          (after_puts c.target_info.page_size (next_puts kernel) r)
          (later_puts kernel)
          sent
          link,
    )
look_paused-during c r kernel sent link =
    ap
      (λ p. (
        (is_paused c.monitor).0,
        record c {
          ring = after_puts c.target_info.page_size (next_puts kernel) r;
          kernel = later_puts kernel;
          sent = sent;
          link = link;
          monitor = p;
        },
      ))
      (is_paused-kept c.monitor)

pub process_from-Sends :
    (c : Client) (n : ℕ) (info : BufferInfo) (main_loop : Bool) (all past ws : List Write) (i : ℕ)
    (r : Ring) (kernel : List (List Put)) (sent : List Packet) (link : List Attempt)
    → IsSteady n main_loop c
    → info.max_writes ≡ n
    → past ++ ws ≡ all
    → i ≡ length past
    → Reads c.target_info.page_size n info.offset all r
    → IsKernel c.target_info.page_size kernel
    → All IsHarmless link
    → Sends c n info.offset all ws sent
        (process_from (length ws) i info main_loop (during c r kernel sent link))
process_from-Sends c n info main_loop all past [] i r kernel sent link st most split at reads puts
      h =
    (
      [],
      r,
      kernel,
      link,
      process_done i info main_loop (during c r kernel sent link)
          ∙ ap (λ s. some (ok tt, during c r kernel s link)) (sym (append-nil sent)),
      tt,
      reads,
      puts,
      h,
    )
process_from-Sends c n info main_loop all past (w ∷ ws) i r kernel sent link st most split at reads
      puts h =
    let page_size = c.target_info.page_size in
    let (free, later) = next_puts-IsPossible page_size kernel puts in
    let r1 = after_puts page_size (next_puts kernel) r in
    let (q, e, k, f) = Reads-puts page_size n info.offset all (next_puts kernel) r free reads in
    let c1 = during c r1 (later_puts kernel) sent link in
    let reader : Reader page_size n r1 (past ++ w ∷ ws) =
      subst (Reader page_size n r1) (e ∙ sym split) (Refines-Reader page_size n r1 q k) in
    let (x, got, carries) =
      read_entry-Carries c1 info n past w ws st.small st.slot most (sym f) reader in
    let (link', put, h') = send_write-Delivers (write_packet x) c1 st.up st.connected h in
    let step =
      process_step (length ws) i info main_loop (during c r kernel sent link) c1
        (delivered (write_packet x) link' c1) (is_paused c.monitor).0 x
        (look_paused-during c r kernel sent link) st.unpaused
        (ap (λ j. read_entry info j c1) at ∙ got) put in
    let (xs, r', kernel', link'', e', carry, kept, later', h'') =
      process_from-Sends c n info main_loop all (past ++ w ∷ []) ws (suc i) r1 (later_puts kernel)
        (sent ++ write_packet x ∷ []) link' st most (append_assoc past (w ∷ []) ws ∙ split)
        (omega (arith, at, length-append past (w ∷ []))) (q, e, k, f) later h' in
    (
      x ∷ xs,
      r',
      kernel',
      link'',
      step
          ∙ e'
          ∙ ap (λ s. some (ok tt, during c r' kernel' s link''))
              (append_assoc sent (write_packet x ∷ []) (map write_packet xs)),
      (carries, carry),
      kept,
      later',
      h'',
    )
