-- ===== src/Ring/Queue/Reading.antt =====
-- A reader of the ring of kern/ring-buffer.c that is not yet done when more writes come.
use bdr.Common.{
  suc, true, false, ◌*◌, ◌≤◌, ◌<◌, ◌^◌, arith, ap, Bool-cases, ltb, u64, inl, inr, ℕ, ◌+◌, ◌%◌, ◌≡◌,
  refl, ◌∙◌, List, [], ◌∷◌, length, All,
}
use bdr.Ring.{
  slot_size, Ring, BufferInfo, put, update_unsafe, is_at_last, read_routine, check_overflow,
}
use bdr.Ring.Window.{Write}
use bdr.Ring.Queue.{
  Facts, Queue, holding, overflown, Operation, put_page, reading, ring_at, Refines, IsPossible,
  queue_step, ring_step, slots_from, window,
}
use bdr.Ring.Slots.{Slots, Slots-split}
use bdr.Ring.Queue.Contents.{Facts-read, slots_from-Slots}
use bdr.Ring.Queue.Runs.{ring_step-Simulates}
use bdr.Ring.Queue.Refine.{read_lost, read_sound}

-- A put of part of a page.
pub record Put : Type 0 where
  pub sector : ℕ
  pub page : List ℕ
  pub page_offset : ℕ
  pub len : ℕ

abbrev pub operation_of : Put → Operation
operation_of p = put_page p.sector p.page p.page_offset p.len

-- The ring after some puts.
abbrev pub after_puts : ℕ → List Put → Ring → Ring
after_puts page_size [] r = r
after_puts page_size (p ∷ ps) r = after_puts page_size ps (ring_step page_size (operation_of p) r).1

-- What a reader of the ring relies on, whether or not the ring has overflown behind its back.
pub record Reader (page_size n : ℕ) (r : Ring) (ws : List Write) : Type 0 where
  pub positive : 0 < n
  pub small : n < 2 ^ 63
  pub word : page_size < 2 ^ 32
  pub place : r.info.last < n
  pub storage : n * slot_size page_size ≤ length r.buffer
  pub room : length ws < n
  pub slots : Slots page_size n r.buffer r.info.last ws

Facts-Reader :
    (page_size n last : ℕ) (buffer : List ℕ) (old new : List Write) (r : Ring)
    → r.info.last ≡ last
    → r.buffer ≡ buffer
    → Facts page_size n last buffer old new
    → Reader page_size n r old
Facts-Reader page_size n last buffer old new r e g f = record {
  positive = f.positive;
  small = f.small;
  word = f.word;
  place = rw e f.place;
  storage = rw g f.storage;
  room = omega (arith, f.room);
  slots =
      rw (e, g) (Slots-split page_size n buffer last (last + length old) old new refl f.slots).0;
}

pub Refines-Reader :
    (page_size n : ℕ) (r : Ring) (q : Queue)
    → Refines page_size n r q
    → Reader page_size n r (reading q)
Refines-Reader page_size n r (holding old new) (last, buffer, e, f) =
    Facts-Reader page_size n last buffer old new r (ap (λ r. r.info.last) e) (ap (λ r. r.buffer) e)
      f
Refines-Reader page_size n r (overflown old) (last, new, buffer, e, f) =
    Facts-Reader page_size n last buffer old [] r (ap (λ r. r.info.last) e) (ap (λ r. r.buffer) e) f

-- What the reader took, found again.
reading-kept :
    (page_size n : ℕ) (r : Ring) (q : Queue)
    → Refines page_size n r q
    → slots_from page_size n r.buffer r.info.last (length (reading q)) ≡ reading q
reading-kept page_size n r q k =
    slots_from-Slots page_size n r.buffer r.info.last (reading q)
      (Refines-Reader page_size n r q k).slots

update_unsafe-last : (info : BufferInfo) → (update_unsafe info).last ≡ info.last
unfolding update_unsafe
update_unsafe-last info =
    elim (Bool-cases (is_at_last (record info { length = u64 (info.length + 1) }))) [
      | inl e ↦ rw e refl
      | inr e ↦ rw e refl
    ]

-- No put moves the reader's place.
put-last :
    (page_size sector size : ℕ) (page : List ℕ) (o len : ℕ) (r : Ring)
    → (put page_size sector size page o len r).1.info.last ≡ r.info.last
unfolding put
put-last page_size sector size page o len r = elim (Bool-cases (check_overflow r.info)) [
  | inl e ↦ rw e refl
  | inr e ↦ elim (Bool-cases (check_overflow (update_unsafe r.info))) [
    | inl f ↦ rw (e, f) (update_unsafe-last r.info)
    | inr f ↦ rw (e, f) (update_unsafe-last r.info)
  ]
]

pub after_puts-last :
    (page_size : ℕ) (ps : List Put) (r : Ring) → (after_puts page_size ps r).info.last ≡ r.info.last
after_puts-last page_size [] r = refl
after_puts-last page_size (p ∷ ps) r =
    after_puts-last page_size ps (ring_step page_size (operation_of p) r).1
    ∙ put-last page_size p.sector p.len p.page p.page_offset p.len r

reading-put :
    (n : ℕ) (p : Put) (q : Queue) → reading (queue_step n (operation_of p) q).1 ≡ reading q
reading-put n p (overflown old) = refl
reading-put n p (holding old new) = elim (Bool-cases (ltb (length old + length new + 1) n)) [
  | inl e ↦ rw e refl
  | inr e ↦ rw e refl
]

pub after_puts-reading :
    (page_size n : ℕ) (ps : List Put) (r : Ring) (q : Queue)
    → All (λ p. IsPossible page_size (operation_of p)) ps
    → Refines page_size n r q
    → (q' : Queue) × (reading q' ≡ reading q) × Refines page_size n (after_puts page_size ps r) q'
after_puts-reading page_size n [] r q h k = (q, refl, k)
after_puts-reading page_size n (p ∷ ps) r q (h, hs) k =
    let (e, k') = ring_step-Simulates page_size n (operation_of p) r q h k in
    let (q', f, k'') =
      after_puts-reading page_size n ps (ring_step page_size (operation_of p) r).1
        (queue_step n (operation_of p) q).1 hs k' in
    (q', f ∙ reading-put n p q, k'')

-- While the reader goes through what it got, puts do not touch it: whatever the kernel puts into
-- the ring after the reader's call, also where the ring overflows then, the information that the
-- call returned leads to exactly the writes that were waiting, in order.
pub window-after_puts :
    (page_size n : ℕ) (r : Ring) (old new : List Write) (ps : List Put)
    → Refines page_size n r (holding old new)
    → All (λ p. IsPossible page_size (operation_of p)) ps
    → window page_size (read_routine r).0 (after_puts page_size ps (read_routine r).1).buffer ≡ new
window-after_puts page_size n r old new ps (last, buffer, e, f) h =
    let r0 = ring_at n last (length old) (length new) 0 buffer in
    let r1 = ring_at n ((last + length old) % n) (length new) 0 0 buffer in
    let k : Refines page_size n r1 (holding new []) =
      ((last + length old) % n, buffer, refl, Facts-read page_size n last buffer old new f) in
    let (q', same, k') = after_puts-reading page_size n ps r1 (holding new []) h k in
    let kept = reading-kept page_size n (after_puts page_size ps r1) q' k' in
    rw (e, read_sound page_size n last (length old) (length new) buffer f.small f.room)
      (rw (same, after_puts-last page_size ps r1) at kept)

-- What a reader learns, and the ring it leaves behind.
pub record Read (page_size n : ℕ) (new : List Write) (res : BufferInfo × Ring) : Type 0 where
  pub max_writes : res.0.max_writes ≡ n
  pub length : res.0.length ≡ length new
  pub flags : check_overflow res.0 ≡ false
  pub last : res.1.info.last ≡ res.0.offset
  pub ring : Refines page_size n res.1 (holding new [])

pub read_routine-Read :
    (page_size n : ℕ) (r : Ring) (old new : List Write)
    → Refines page_size n r (holding old new)
    → Read page_size n new (read_routine r)
read_routine-Read page_size n r old new (last, buffer, e, f) =
    rw (e, read_sound page_size n last (length old) (length new) buffer f.small f.room)
      (record {
        max_writes = refl;
        length = refl;
        flags = refl;
        last = refl;
        ring =
            ((last + length old) % n, buffer, refl, Facts-read page_size n last buffer old new f);
      })

-- A ring that has overflown tells so, and has writes.
pub record Lost (page_size n : ℕ) (r : Ring) (old : List Write) (res : BufferInfo × Ring)
    : Type 0 where
  pub length : 0 < res.0.length
  pub flags : check_overflow res.0 ≡ true
  pub ring : res.1 ≡ r

pub read_routine-Lost :
    (page_size n : ℕ) (r : Ring) (old : List Write)
    → Refines page_size n r (overflown old)
    → Lost page_size n r old (read_routine r)
read_routine-Lost page_size n r old (last, new, buffer, e, f) =
    rw (e, read_lost n last (length old) (suc new) buffer)
      (record { length = omega arith; flags = refl; ring = refl })
