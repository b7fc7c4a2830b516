-- ===== src/Ring/Queue.antt =====
-- What the ring of kern/ring-buffer.c promises: a queue of at most one write less than it has slots,
-- whose reader takes all writes at once and keeps them until it reads again.
use bdr.Common.{
  ℕ, zero, suc, ◌+◌, ◌*◌, ◌%◌, ◌^◌, ◌≤◌, ◌<◌, ◌≡◌, refl, arith, List, [], ◌∷◌, ◌++◌, length, Bool,
  true, false, if◌then◌else◌, ltb, slice, from_le, u64,
}
use bdr.Ring.{BufferInfo, Ring, slot_size, check_overflow, put, read_routine, reset_ring}
use bdr.Ring.Window.{Write, IsSmall}
use bdr.Ring.Slots.{Slots, byte_of}
pub mod Places
pub mod Contents
pub mod Refine
pub mod Runs
pub mod Reading

-- The writes that the last reader took, and those that came since; or what is left of it where a
-- write was lost.
pub data Queue : Type 0 where
  holding : List Write → List Write → Queue
  overflown : List Write → Queue

-- `bio_vec`, as `bdr_put_write_to_buffer` of kern/main.c passes it on, or what the client asks for.
pub data Operation : Type 0 where
  put_page : ℕ → List ℕ → ℕ → ℕ → Operation
  read reset : Operation

pub data Output : Type 0 where
  taken : Bool → Output
  writes : List Write → Output
  lost done : Output

abbrev pub write_of : ℕ → List ℕ → ℕ → ℕ → Write
write_of sector page page_offset len = record {
  sector = sector;
  bytes = slice page_offset len page;
}

abbrev pub reading : Queue → List Write
reading (holding old new) = old
reading (overflown old) = old

abbrev pub enqueue : ℕ → Write → Queue → Output × Queue
enqueue n w (overflown old) = (taken false, overflown old)
enqueue n w (holding old new) =
    if ltb (length old + length new + 1) n
    then (taken true, holding old (new ++ w ∷ []))
    else (taken false, overflown old)

abbrev pub dequeue : Queue → Output × Queue
dequeue (overflown old) = (lost, overflown old)
dequeue (holding old new) = (writes new, holding new [])

-- One operation on a queue for a ring of `n` slots.
abbrev pub queue_step : ℕ → Operation → Queue → Output × Queue
queue_step n (put_page sector page page_offset len) q =
    enqueue n (write_of sector page page_offset len) q
queue_step n read q = dequeue q
queue_step n reset q = (done, holding [] [])

-- The write that stands in the slot at byte `p`.
abbrev pub slot_at : List ℕ → ℕ → Write
slot_at buffer p = record {
  sector = from_le (slice p 4 buffer);
  bytes = slice (p + 8) (from_le (slice (p + 4) 4 buffer)) buffer;
}

abbrev pub slots_from : ℕ → ℕ → List ℕ → ℕ → ℕ → List Write
slots_from page_size n buffer o zero = []
slots_from page_size n buffer o (suc k) =
    slot_at buffer (byte_of page_size n o) ∷ slots_from page_size n buffer (suc o) k

-- The writes that a reader finds in the buffer, by the information it got.
abbrev pub window : ℕ → BufferInfo → List ℕ → List Write
window page_size info buffer = slots_from page_size info.max_writes buffer info.offset info.length

abbrev pub observed : ℕ → BufferInfo × Ring → Output × Ring
observed page_size (info, r) =
    (if check_overflow info then lost else writes (window page_size info r.buffer), r)

abbrev pub put_outcome : Bool × Ring → Output × Ring
put_outcome (b, r) = (taken b, r)

abbrev pub ring_step : ℕ → Operation → Ring → Output × Ring
ring_step page_size (put_page sector page page_offset len) r =
    put_outcome (put page_size sector len page page_offset len r)
ring_step page_size read r = observed page_size (read_routine r)
ring_step page_size reset r = (done, reset_ring r)

-- The outputs of a sequence of operations.
abbrev pub queue_run : ℕ → List Operation → Queue → List Output
queue_run n [] q = []
queue_run n (op ∷ ops) q = let (o, q') = queue_step n op q in o ∷ queue_run n ops q'

abbrev pub ring_run : ℕ → List Operation → Ring → List Output
ring_run page_size [] r = []
ring_run page_size (op ∷ ops) r =
    let (o, r') = ring_step page_size op r in o ∷ ring_run page_size ops r'

-- The ring, with `old` writes being read and `new` ones behind them.
abbrev pub ring_at : ℕ → ℕ → ℕ → ℕ → ℕ → List ℕ → Ring
ring_at n last old new flags buffer = record {
  info = record {
    offset = (last + old) % n;
    length = new;
    last = last;
    flags = flags;
    max_writes = n;
  };
  buffer = buffer;
}

pub record Facts (page_size n last : ℕ) (buffer : List ℕ) (old new : List Write) : Type 0 where
  pub positive : 0 < n
  pub small : n < 2 ^ 63
  pub word : page_size < 2 ^ 32
  pub place : last < n
  pub storage : n * slot_size page_size ≤ length buffer
  pub room : length old + length new < n
  pub slots : Slots page_size n buffer last (old ++ new)

-- The ring stands for the queue.
abbrev pub Refines : ℕ → ℕ → Ring → Queue → Type 0
Refines page_size n r (holding old new) =
    (last : ℕ) × (buffer : List ℕ) × (r ≡ ring_at n last (length old) (length new) 0 buffer)
    × Facts page_size n last buffer old new
Refines page_size n r (overflown old) =
    (last : ℕ) × (new : ℕ) × (buffer : List ℕ) × (r
      ≡ ring_at n last (length old) (suc new) 1 buffer)
    × Facts page_size n last buffer old []

-- A put comes with a page, of which it names a part.
abbrev pub IsPossible : ℕ → Operation → Type 0
IsPossible page_size (put_page sector page page_offset len) =
    (sector < 2 ^ 32) × (page_offset + len ≤ page_size) × (length page ≡ page_size)
IsPossible page_size read = Unit {0}
IsPossible page_size reset = Unit {0}
