-- ===== src/Live/Retries.antt =====
-- `HandleWritePackets` on a replica that fails a number of times, and then works.
use bdr.Common.{
  ℕ, zero, suc, ◌+◌, ◌^◌, ◌≤◌, ◌<◌, ◌≡◌, refl, sym, ◌∙◌, ap, arith, List, [], ◌∷◌, map, length,
  overlay, take, ok, err, some, none, Option, All, length-overlay, le→ltb, overlay-nil, true,
  device,
}
use bdr.Device.{Disk, write_at, sync, next_fault, later_plan}
use bdr.Device.Overlays.{trimmed, apply_all, apply_all-Agree, Agree-part}
use bdr.Networking.{Extent}
use bdr.Server.{Server}
use bdr.Replica.Copies.{InRange}
use bdr.Replica.Intake.{packet_of, write}
use bdr.Live.{write_until, handle_write_packet, handle_write_packets, is_writing}

-- A first part of the bytes that an earlier attempt left is written over.
pub overlay-part :
    (c : List ℕ) (off n : ℕ) (bs : List ℕ)
    → overlay (overlay c off (take n bs)) off bs ≡ overlay c off bs
unfolding apply_all
overlay-part c off n bs =
    let x : Extent = record { offset = off; size = 0; bytes = bs } in
    sym (
      apply_all-Agree (x ∷ []) c (overlay c off (take n bs))
        (Agree-part (x ∷ []) [] n x c (λ p u. u)))

-- The loop ended with the whole write made, and with no more failures ahead than before.
abbrev pub Made : Disk → List ℕ → Option Disk → Type 0
Made d c r = (d' : Disk) × (r ≡ some d') × (d'.content ≡ c) × (length d'.plan ≤ length d.plan)

pub write_at_works :
    (b : ℕ) (bs : List ℕ) (off : ℕ) (d : Disk)
    → off + suc (length bs) ≤ length d.content
    → length d.content < 2 ^ 63
    → next_fault d.plan ≡ none
    → write_at (b ∷ bs) off d
      ≡ (ok tt, record { content = overlay d.content off (b ∷ bs); plan = later_plan d.plan })
unfolding write_at
write_at_works b bs off d fits small e = rw e (ground arith)

pub write_at_fails :
    (b : ℕ) (bs : List ℕ) (off n : ℕ) (c : List ℕ) (plan : List (Option ℕ))
    → off < 2 ^ 63
    → write_at (b ∷ bs) off (record { content = c; plan = some n ∷ plan })
      ≡ (err device, record { content = overlay c off (take n (b ∷ bs)); plan = plan })
unfolding write_at
write_at_fails b bs off n c plan small = ground arith

pub write_at_empty : (off : ℕ) (d : Disk) → off < 2 ^ 63 → write_at [] off d ≡ (ok tt, d)
unfolding write_at
write_at_empty off d small = ground arith

-- The loop ends after as many attempts as the device has failures ahead, and one.
pub write_until-Made :
    (fuel : ℕ) (bs : List ℕ) (off : ℕ) (c : List ℕ) (plan : List (Option ℕ))
    → length plan < fuel
    → off + length bs ≤ length c
    → length c < 2 ^ 63
    → let d : Disk = record { content = c; plan = plan } in
      Made d (overlay c off bs) (write_until fuel bs off d)
unfolding write_until
write_until-Made zero bs off c plan h fits small = absurd (omega arith)
write_until-Made (suc fuel) [] off c plan h fits small =
    rw (write_at_empty off (record { content = c; plan = plan }) (omega arith))
      (_, refl, sym (overlay-nil c off), omega arith)
write_until-Made (suc fuel) (b ∷ bs) off c [] h fits small =
    let d : Disk = record { content = c; plan = [] } in
    rw (write_at_works b bs off d fits small refl) (_, refl, refl, omega arith)
write_until-Made (suc fuel) (b ∷ bs) off c (none ∷ plan) h fits small =
    let d : Disk = record { content = c; plan = none ∷ plan } in
    rw (write_at_works b bs off d fits small refl) (_, refl, refl, omega arith)
write_until-Made (suc fuel) (b ∷ bs) off c (some n ∷ plan) h fits small =
    let c1 = overlay c off (take n (b ∷ bs)) in
    let len : length c1 ≡ length c = length-overlay c off (take n (b ∷ bs)) in
    let (d', e, same, le) =
      write_until-Made fuel (b ∷ bs) off c1 plan (omega arith) (rw len fits) (rw len small) in
    rw (write_at_fails b bs off n c plan (omega arith))
      (d', e, same ∙ overlay-part c off n (b ∷ bs), omega arith)

-- A buffer write as the client sends it: no fewer bytes than its size says, and those lie on the
-- replica. The client sends a page with every write.
abbrev pub IsWrite : ℕ → Extent → Type 0
IsWrite n x = InRange n (trimmed x) × (x.size ≤ length x.bytes)

later_plan-length : (plan : List (Option ℕ)) → length (later_plan plan) ≤ length plan
later_plan-length [] = omega arith
later_plan-length (f ∷ plan) = omega arith

handle_write_packet_done :
    (fuel : ℕ) (x : Extent) (s : Server) (d d' : Disk)
    → is_writing s.state ≡ true
    → x.size ≤ length x.bytes
    → write_until fuel (take x.size x.bytes) x.offset d ≡ some d'
    → handle_write_packet fuel (packet_of (write x)) (record s { target = d })
      ≡ some (ok tt, record s { target = (sync d').1 })
unfolding handle_write_packet
handle_write_packet_done fuel x s d d' live e made =
    rw (live, le→ltb (length x.bytes) x.size e, made) refl

-- On a replica that fails at most `fuel - 1` more times, at any call and in the middle of writes,
-- `HandleWritePackets` of a server in the writing state ends the retries of each of its packets
-- within `fuel` attempts, and then has made all writes, in order, each with as many bytes as its size
-- says.
pub handle_write_packets-Made :
    (fuel : ℕ) (xs : List Extent) (s : Server) (c : List ℕ) (plan : List (Option ℕ))
    → is_writing s.state ≡ true
    → length plan < fuel
    → All (IsWrite (length c)) xs
    → length c < 2 ^ 63
    → (d' : Disk) × (handle_write_packets fuel
          (map (λ x. packet_of (write x)) xs)
          (record s { target = record { content = c; plan = plan } })
        ≡ some (ok tt, record s { target = d' }))
      × (d'.content ≡ apply_all c (map trimmed xs))
unfolding handle_write_packets apply_all sync
handle_write_packets-Made fuel [] s c plan live h fits small = (_, refl, refl)
handle_write_packets-Made fuel (x ∷ xs) s c plan live h ((fit, size), fits) small =
    let d : Disk = record { content = c; plan = plan } in
    let bs = take x.size x.bytes in
    let (d1, e, same, le) = write_until-Made fuel bs x.offset c plan h fit small in
    let len : length d1.content ≡ length c = ap length same ∙ length-overlay c x.offset bs in
    let (d', es, end) =
      handle_write_packets-Made fuel xs s d1.content (later_plan d1.plan) live
        (omega (arith, later_plan-length d1.plan)) (rw len fits) (rw len small) in
    (
      d',
      rw (handle_write_packet_done fuel x s d d1 live size e) es,
      end ∙ ap (λ z. apply_all z (map trimmed xs)) same,
    )
