-- ===== src/Ring/Queue/Refine.antt =====
-- The operations of kern/ring-buffer.c, one by one and in sequences, against the queue.
use bdr.Common.{
  ℕ, suc, ◌+◌, ◌-◌, ◌%◌, ◌^◌, ◌≤◌, ◌<◌, ◌≡◌, refl, sym, ap, arith, List, [], ◌∷◌, length, true,
  false, min, slice, u64, length-slice, length-append, lt→ltb, le→ltb, inl, inr, ◌⊎◌,
}
use native.Mathlib.Nat.{mod-add-mod, mod-eq_of_lt}
use bdr.Ring.{Ring, put, update_unsafe, fill, read_routine, reset_ring}
use bdr.Ring.Window.{IsSmall, store_write}
use bdr.Ring.Slots.{byte_of}
use bdr.Ring.Queue.{
  Queue, holding, overflown, Output, put_page, read, reset, write_of, ring_at, Refines, IsPossible,
  queue_step, ring_step, writes,
}
use bdr.Ring.Queue.Contents.{Facts-put, Facts-lost, Facts-empty, Facts-read, read_window}
use bdr.Ring.Queue.Places.{place_of, at_last_no, at_last_yes}

-- The part of the page that a put names is copied whole.
copied_whole :
    (page_size : ℕ) (page : List ℕ) (o len : ℕ)
    → o + len ≤ page_size
    → slice o (min len (page_size - o)) page ≡ slice o len page
copied_whole page_size page o len h = ap (λ j. slice o j page) (omega arith)

module _ (page_size n last k j : ℕ) (buffer : List ℕ) where
  put_room :
      (sector : ℕ) (page : List ℕ) (o len : ℕ)
      → n < 2 ^ 63
      → last < n
      → k + j + 1 < n
      → o + len ≤ page_size
      → length page ≡ page_size
      → put page_size sector len page o len (ring_at n last k j 0 buffer) ≡ (
        true,
        ring_at n last k
            (suc j)
            0
            (store_write (byte_of page_size n (last + k + j)) (write_of sector page o len) buffer),
      )
  unfolding put update_unsafe fill
  put_room sector page o len small place room fit whole =
      let one : u64 (j + 1) ≡ suc j = omega arith in
      let sum : (last + k + suc j) % n ≡ (last + (k + j + 1)) % n = ap (λ m. m % n) (omega arith) in
      rw
        (
          one,
          place_of n (last + k) (suc j) (omega arith) small (omega arith),
          sum,
          at_last_no n last (k + j + 1) place (omega arith) room,
          place_of n (last + k) j (omega arith) small (omega arith),
          copied_whole page_size page o len fit,
          length-slice o len page (omega arith),
        )
        refl

  put_full :
      (sector : ℕ) (page : List ℕ) (o len : ℕ)
      → n < 2 ^ 63
      → last < n
      → k + j + 1 ≡ n
      → put page_size sector len page o len (ring_at n last k j 0 buffer)
        ≡ (false, ring_at n last k (suc j) 1 buffer)
  unfolding put update_unsafe fill
  put_full sector page o len small place room =
      let one : u64 (j + 1) ≡ suc j = omega arith in
      let sum : (last + k + suc j) % n ≡ (last + (k + j + 1)) % n = ap (λ m. m % n) (omega arith) in
      rw
        (
          one,
          place_of n (last + k) (suc j) (omega arith) small (omega arith),
          sum,
          at_last_yes n last (k + j + 1) place room,
        )
        refl

  pub read_sound :
      n < 2 ^ 63
      → k + j < n
      → read_routine (ring_at n last k j 0 buffer)
        ≡ ((ring_at n last k j 0 buffer).info, ring_at n ((last + k) % n) j 0 0 buffer)
  unfolding read_routine
  read_sound small room =
      rw (place_of n (last + k) j (omega arith) small (omega arith), mod-add-mod (last + k) n j)
        refl

-- The same output, and states that stand for each other.
abbrev pub Simulates : ℕ → ℕ → Output × Ring → Output × Queue → Type 0
Simulates page_size n (o, r) (o', q) = (o ≡ o') × Refines page_size n r q

full_or_room : (k j n : ℕ) → k + j < n → (k + j + 1 < n) ⊎ (k + j + 1 ≡ n)
full_or_room k j n h = grind arith

pub put_page-Simulates :
    (page_size n : ℕ) (sector : ℕ) (page : List ℕ) (o len : ℕ) (r : Ring) (q : Queue)
    → IsPossible page_size (put_page sector page o len)
    → Refines page_size n r q
    → Simulates page_size n
        (ring_step page_size (put_page sector page o len) r)
        (queue_step n (put_page sector page o len) q)
unfolding put
put_page-Simulates page_size n sector page o len r (overflown old) h (last, new, buffer, e, f) =
    rw e (refl, (last, new, buffer, refl, f))
put_page-Simulates page_size n sector page o len r (holding old new) (word, fit, whole)
      (last, buffer, e, f) =
    elim (full_or_room (length old) (length new) n f.room) [
      | inl room ↦
          let w = write_of sector page o len in
          let small : IsSmall page_size w = record {
            sector = word;
            bytes = omega (arith, length-slice o len page (omega arith));
          } in
          let stored =
            store_write (byte_of page_size n (last + length old + length new)) w buffer in
          rw
            (
              e,
              put_room page_size n last (length old) (length new) buffer sector page o len f.small
                  f.place room fit whole,
              lt→ltb (length old + length new + 1) n room,
            )
            (
              refl,
              (
                last,
                stored,
                ap (λ j. ring_at n last (length old) j 0 stored)
                    (omega (arith, length-append new (w ∷ []))),
                Facts-put page_size n last buffer old new w f small room,
              ),
            )
      | inr full ↦
          rw
            (
              e,
              put_full page_size n last (length old) (length new) buffer sector page o len f.small
                  f.place full,
              le→ltb (length old + length new + 1) n (omega arith),
            )
            (refl, (last, length new, buffer, refl, Facts-lost page_size n last buffer old new f))
    ]

pub read_lost :
    (n last k j : ℕ) (buffer : List ℕ)
    → read_routine (ring_at n last k j 1 buffer)
      ≡ ((ring_at n last k j 1 buffer).info, ring_at n last k j 1 buffer)
unfolding read_routine
read_lost n last k j buffer = refl

pub read-Simulates :
    (page_size n : ℕ) (r : Ring) (q : Queue)
    → Refines page_size n r q
    → Simulates page_size n (ring_step page_size read r) (queue_step n read q)
read-Simulates page_size n r (overflown old) (last, new, buffer, e, f) =
    rw (e, read_lost n last (length old) (suc new) buffer) (refl, (last, new, buffer, refl, f))
read-Simulates page_size n r (holding old new) (last, buffer, e, f) =
    rw (e, read_sound page_size n last (length old) (length new) buffer f.small f.room)
      (
        ap writes (read_window page_size n last buffer old new f),
        ((last + length old) % n, buffer, refl, Facts-read page_size n last buffer old new f),
      )

pub origin :
    (n : ℕ) (buffer : List ℕ)
    → 0 < n
    → ring_at n 0 0 0 0 buffer ≡ record {
      info = record { offset = 0; length = 0; last = 0; flags = 0; max_writes = n };
      buffer = buffer;
    }
origin n buffer pos =
    ap
      (λ o. record {
        info = record { offset = o; length = 0; last = 0; flags = 0; max_writes = n };
        buffer = buffer;
      })
      (mod-eq_of_lt pos)

pub reset-Simulates :
    (page_size n : ℕ) (r : Ring) (q : Queue)
    → Refines page_size n r q
    → Simulates page_size n (ring_step page_size reset r) (queue_step n reset q)
unfolding reset_ring
reset-Simulates page_size n r (overflown old) (last, new, buffer, e, f) = rw e (
  refl,
  (0, buffer, sym (origin n buffer f.positive), Facts-empty page_size n last buffer old [] f),
)
reset-Simulates page_size n r (holding old new) (last, buffer, e, f) = rw e (
  refl,
  (0, buffer, sym (origin n buffer f.positive), Facts-empty page_size n last buffer old new f),
)
