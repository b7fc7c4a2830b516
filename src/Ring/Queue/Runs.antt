-- ===== src/Ring/Queue/Runs.antt =====
-- Sequences of operations on the ring of kern/ring-buffer.c, from `bdr_ring_buffer_init` on.
use bdr.Common.{ℕ, ◌*◌, ◌^◌, ◌≤◌, ◌<◌, ◌≡◌, refl, sym, ap₂, arith, List, [], ◌∷◌, length, some, All}
use bdr.Ring.{Ring, slot_size, init}
use bdr.Ring.Queue.{
  Queue, holding, Operation, put_page, read, reset, Refines, IsPossible, queue_step, ring_step,
  queue_run, ring_run,
}
use bdr.Ring.Queue.Places.{ne→==}
use bdr.Ring.Queue.Refine.{Simulates, put_page-Simulates, read-Simulates, reset-Simulates, origin}

pub ring_step-Simulates :
    (page_size n : ℕ) (op : Operation) (r : Ring) (q : Queue)
    → IsPossible page_size op
    → Refines page_size n r q
    → Simulates page_size n (ring_step page_size op r) (queue_step n op q)
ring_step-Simulates page_size n (put_page sector page o len) r q h k =
    put_page-Simulates page_size n sector page o len r q h k
ring_step-Simulates page_size n read r q h k = read-Simulates page_size n r q k
ring_step-Simulates page_size n reset r q h k = reset-Simulates page_size n r q k

pub ring_run-Refines :
    (page_size n : ℕ) (ops : List Operation) (r : Ring) (q : Queue)
    → All (IsPossible page_size) ops
    → Refines page_size n r q
    → ring_run page_size ops r ≡ queue_run n ops q
ring_run-Refines page_size n [] r q h k = refl
ring_run-Refines page_size n (op ∷ ops) r q (h, hs) k =
    let (e, k') = ring_step-Simulates page_size n op r q h k in
    ap₂ ◌∷◌ e
      (ring_run-Refines page_size n ops (ring_step page_size op r).1 (queue_step n op q).1 hs k')

init-Refines :
    (page_size n : ℕ) (storage : List ℕ)
    → 0 < n
    → n < 2 ^ 63
    → page_size < 2 ^ 32
    → n * slot_size page_size ≤ length storage
    → (r : Ring) × (init n storage ≡ some r) × Refines page_size n r (holding [] [])
unfolding init
init-Refines page_size n storage pos small word fit = rw (ne→== n 0 (omega arith)) (
  _,
  refl,
  (
    0,
    storage,
    sym (origin n storage pos),
    record {
      positive = pos;
      small = small;
      word = word;
      place = pos;
      storage = fit;
      room = pos;
      slots = tt;
    },
  ),
)

-- A ring of `n` slots behaves as a queue, from its initialisation on and over every sequence of
-- puts, reads and resets: each put is taken where the writes that the reader got last, those that
-- wait and the new one are fewer than `n`, and is refused, with all later ones until a reset, where
-- they are not; each read finds in the buffer exactly the writes since the one before, in order, or
-- that writes were lost. Puts name at most a page, sectors have 32 bits, and the storage has room.
pub ring_run-queue_run :
    (page_size n : ℕ) (storage : List ℕ) (ops : List Operation)
    → 0 < n
    → n < 2 ^ 63
    → page_size < 2 ^ 32
    → n * slot_size page_size ≤ length storage
    → All (IsPossible page_size) ops
    → (r : Ring) × (init n storage ≡ some r)
      × (ring_run page_size ops r ≡ queue_run n ops (holding [] []))
ring_run-queue_run page_size n storage ops pos small word fit h =
    let (r, e, k) = init-Refines page_size n storage pos small word fit in
    (r, e, ring_run-Refines page_size n ops r (holding [] []) h k)
