-- ===== src/Examples/Rings.antt =====
-- Theorems on the ring, with three slots and pages of four bytes.
use bdr.Common.{ℕ, ◌≡◌, refl, arith, List, [], ◌∷◌, some, replicate}
use bdr.Ring.{Ring, init, read_routine}
use bdr.Ring.Window.{Write}
use bdr.Ring.Queue.{
  holding, overflown, Operation, IsPossible, read, reset, Refines, ring_run, queue_run, ring_step,
  window, write_of, ring_at,
}
use bdr.Ring.Queue.Runs.{ring_run-queue_run, ring_step-Simulates}
use bdr.Ring.Queue.Reading.{Put, operation_of, after_puts, window-after_puts}

abbrev pub storage : List ℕ
storage = replicate 36 0

abbrev pub first_page : List ℕ
first_page = 1 ∷ 2 ∷ 3 ∷ 4 ∷ []

abbrev pub put_two : Put
put_two = record { sector = 0; page = first_page; page_offset = 1; len = 2 }

abbrev pub put_three : Put
put_three = record { sector = 0; page = first_page; page_offset = 0; len = 3 }

pub two_IsPossible : IsPossible 4 (operation_of put_two)
two_IsPossible = (omega arith, omega arith, refl)

pub three_IsPossible : IsPossible 4 (operation_of put_three)
three_IsPossible = (omega arith, omega arith, refl)

-- Two puts, a read, and one put too many.
abbrev operations : List Operation
operations =
    operation_of put_two
    ∷ operation_of put_three
    ∷ read
    ∷ operation_of put_two
    ∷ read
    ∷ operation_of put_three
    ∷ operation_of put_two
    ∷ reset
    ∷ []

ring_run_example :
    (r : Ring) × (init 3 storage ≡ some r)
    × (ring_run 4 operations r ≡ queue_run 3 operations (holding [] []))
ring_run_example =
    ring_run-queue_run 4 3 storage operations (omega arith) (omega arith) (omega arith)
      (omega arith)
      (
        two_IsPossible,
        (
          three_IsPossible,
          (tt, (two_IsPossible, (tt, (three_IsPossible, (two_IsPossible, (tt, tt)))))),
        ),
      )

-- A ring with one write that waits, and one that has overflown.
abbrev pub empty_ring : Ring
empty_ring = ring_at 3 0 0 0 0 storage

pub empty_ring-Refines : Refines 4 3 empty_ring (holding [] [])
empty_ring-Refines = (
  0,
  storage,
  refl,
  record {
    positive = omega arith;
    small = omega arith;
    word = omega arith;
    place = omega arith;
    storage = omega arith;
    room = omega arith;
    slots = tt;
  },
)

abbrev pub one_write : Write
one_write = write_of 0 first_page 1 2

abbrev pub waiting_ring : Ring
waiting_ring = (ring_step 4 (operation_of put_two) empty_ring).1

pub waiting_ring-Refines : Refines 4 3 waiting_ring (holding [] (one_write ∷ []))
waiting_ring-Refines =
    (ring_step-Simulates 4 3 (operation_of put_two) empty_ring (holding [] []) two_IsPossible
      empty_ring-Refines).1

abbrev pub full_ring : Ring
full_ring =
    (ring_step 4 (operation_of put_three) (ring_step 4 (operation_of put_three) waiting_ring).1).1

pub full_ring-Refines : Refines 4 3 full_ring (overflown [])
full_ring-Refines =
    let r = (ring_step 4 (operation_of put_three) waiting_ring).1 in
    let k =
      (ring_step-Simulates 4 3 (operation_of put_three) waiting_ring (holding [] (one_write ∷ []))
        three_IsPossible waiting_ring-Refines).1 in
    (ring_step-Simulates 4 3 (operation_of put_three) r
      (holding [] (one_write ∷ write_of 0 first_page 0 3 ∷ [])) three_IsPossible k).1

window_example :
    window 4
      (read_routine waiting_ring).0
      (after_puts 4 (put_three ∷ put_three ∷ []) (read_routine waiting_ring).1).buffer
    ≡ one_write ∷ []
window_example =
    window-after_puts 4 3 waiting_ring [] (one_write ∷ []) (put_three ∷ put_three ∷ [])
      waiting_ring-Refines (three_IsPossible, (three_IsPossible, tt))
