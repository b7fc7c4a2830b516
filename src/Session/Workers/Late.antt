-- ===== src/Session/Workers/Late.antt =====
-- What `HandleWritePackets` makes of the buffer writes in its queue when it goes on by itself.
use bdr.Common.{
  ℕ, ◌+◌, ◌^◌, ◌≤◌, ◌<◌, ◌≡◌, refl, sym, ◌∙◌, ap, arith, List, [], ◌∷◌, map, length, overlay, take,
  ok, some, none, Option, All, length-overlay, le→ltb, overlay-nil, true, false, Outcome,
}
use bdr.Device.{Disk, sync}
use bdr.Device.Overlays.{trimmed, apply_all}
use bdr.Networking.{Extent, Packet}
use bdr.Server.{Server}
use bdr.Replica.Intake.{packet_of, write}
use bdr.Live.{is_writing}
use bdr.Live.Retries.{IsWrite, overlay-part, write_at_works, write_at_fails, write_at_empty}
use bdr.Session.Workers.{Pending, Working, try_write, work_writes}

-- Steps of the goroutine, one after the other.
pub data Works : Working → Working → Type 0 where
  rests : {x : Working} → Works x x
  works : {x y z : Working} → work_writes x ≡ (ok tt, y) → Works y z → Works x z

Works-trans : {x y z : Working} → Works x y → Works y z → Works x z
Works-trans rests b = b
Works-trans (works e a) b = works e (Works-trans a b)

-- The server with this replica, and these writes in the goroutine's hands.
abbrev pub working_at : Server → Disk → Option Pending → List Packet → List Packet → Working
working_at s d trying packets blocks = record {
  server = record s { target = d };
  workers = record { trying = trying; writes = packets; blocks = blocks };
}

abbrev pub packets_of : List Extent → List Packet
packets_of xs = map (λ x. packet_of (write x)) xs

-- In another state than `writing` the goroutine drops the writes that it takes.
pub dropped-Works :
    (xs : List Extent) (s : Server) (d : Disk) (blocks : List Packet)
    → is_writing s.state ≡ false
    → Works (working_at s d none (packets_of xs) blocks) (working_at s d none [] blocks)
unfolding work_writes
dropped-Works [] s d blocks e = rests
dropped-Works (x ∷ xs) s d blocks e = works (rw e refl) (dropped-Works xs s d blocks e)

module _ (s : Server) (packets blocks : List Packet) where
  -- The loop has begun with one attempt, and ends with the whole write made.
  abbrev Tried : List ℕ → Outcome (Unit {0}) × Working → Type 0
  Tried c r =
      (y : Working) × (d' : Disk) × (r ≡ (ok tt, y))
      × Works y (working_at s d' none packets blocks)
      × (d'.content ≡ c)

  try_write-Tried :
      (o : Option Pending) (bs : List ℕ) (off : ℕ) (c : List ℕ) (plan : List (Option ℕ))
      → off + length bs ≤ length c
      → length c < 2 ^ 63
      → Tried (overlay c off bs) (
          try_write
            (record { offset = off; bytes = bs })
            (working_at s (record { content = c; plan = plan }) o packets blocks))
  unfolding try_write sync work_writes
  try_write-Tried o [] off c plan fits small =
      rw (write_at_empty off (record { content = c; plan = plan }) (omega arith))
        (_, _, refl, rests, sym (overlay-nil c off))
  try_write-Tried o (b ∷ bs) off c [] fits small =
      rw (write_at_works b bs off (record { content = c; plan = [] }) fits small refl)
        (_, _, refl, rests, refl)
  try_write-Tried o (b ∷ bs) off c (none ∷ plan) fits small =
      rw (write_at_works b bs off (record { content = c; plan = none ∷ plan }) fits small refl)
        (_, _, refl, rests, refl)
  try_write-Tried o (b ∷ bs) off c (some n ∷ plan) fits small =
      let c1 = overlay c off (take n (b ∷ bs)) in
      let len : length c1 ≡ length c = length-overlay c off (take n (b ∷ bs)) in
      let p : Pending = record { offset = off; bytes = b ∷ bs } in
      let (y, d', e, w, same) =
        try_write-Tried (some p) (b ∷ bs) off c1 plan (rw len fits) (rw len small) in
      rw (write_at_fails b bs off n c plan (omega arith))
        (_, d', refl, works e w, same ∙ overlay-part c off n (b ∷ bs))

-- In the writing state it makes all of them, whatever fails of the replica meanwhile.
pub made-Works :
    (xs : List Extent) (s : Server) (c : List ℕ) (plan : List (Option ℕ)) (blocks : List Packet)
    → is_writing s.state ≡ true
    → All (IsWrite (length c)) xs
    → length c < 2 ^ 63
    → (d' : Disk) × Works
        (working_at s (record { content = c; plan = plan }) none (packets_of xs) blocks)
        (working_at s d' none [] blocks)
      × (d'.content ≡ apply_all c (map trimmed xs))
unfolding work_writes apply_all
made-Works [] s c plan blocks live fits small = (_, rests, refl)
made-Works (x ∷ xs) s c plan blocks live ((fit, size), fits) small =
    let bs = take x.size x.bytes in
    let (y, d1, e, w, same) =
      try_write-Tried s (packets_of xs) blocks none bs x.offset c plan fit small in
    let len : length d1.content ≡ length c = ap length same ∙ length-overlay c x.offset bs in
    let (d', ws, end) =
      made-Works xs s d1.content d1.plan blocks live (rw len fits) (rw len small) in
    (
      d',
      works (rw (live, le→ltb (length x.bytes) x.size size) e) (Works-trans w ws),
      end ∙ ap (λ z. apply_all z (map trimmed xs)) same,
    )
