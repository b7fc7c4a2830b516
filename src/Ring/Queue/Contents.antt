-- ===== src/Ring/Queue/Contents.antt =====
-- What the ring of kern/ring-buffer.c holds behind a write, a read and a reset.
use bdr.Common.{
  ℕ, suc, ◌+◌, ◌%◌, ◌<◌, ◌≡◌, refl, sym, ap₂, arith, List, [], ◌∷◌, ◌++◌, length, length-append,
}
use mathlib.Core.List.{append-nil, append_assoc}
use native.Mathlib.Nat.{mod-lt, mod-mod}
use bdr.Ring.Window.{Write, IsAt, IsSmall, store_write, store-IsAt, length-store}
use bdr.Ring.Slots.{Slots, Slots-append, Slots-split, Slots-store, Slots-mod, byte_of, byte_of-le}
use bdr.Ring.Queue.{Facts, slots_from, slot_at}

pub Facts-put :
    (page_size n last : ℕ) (buffer : List ℕ) (old new : List Write) (w : Write)
    → Facts page_size n last buffer old new
    → IsSmall page_size w
    → length old + length new + 1 < n
    → Facts page_size n last
        (store_write (byte_of page_size n (last + length old + length new)) w buffer)
        old
        (new ++ w ∷ [])
Facts-put page_size n last buffer old new w f small room =
    let p = byte_of page_size n (last + length old + length new) in
    let e : length (old ++ new) ≡ length old + length new = length-append old new in
    record {
      positive = f.positive;
      small = f.small;
      word = f.word;
      place = f.place;
      storage = omega (arith, length-store p w buffer, f.storage);
      room = omega (arith, length-append new (w ∷ []));
      slots = rw (sym (append_assoc old new (w ∷ []))) (
          Slots-append page_size n (store_write p w buffer) last (last + length old + length new)
            (old ++ new) (w ∷ []) (omega (arith, e))
            (Slots-store page_size n buffer last (last + length old + length new) w (old ++ new)
              f.positive small (omega (arith, e)) (omega arith) f.slots)
            (
              (
                store-IsAt page_size p w buffer small f.word (
                    omega (
                      arith,
                      byte_of-le page_size n (last + length old + length new) f.positive,
                      f.storage,
                    )),
                small,
              ),
              tt,
            ));
    }

-- What the reader took stays when all else is lost.
pub Facts-lost :
    (page_size n last : ℕ) (buffer : List ℕ) (old new : List Write)
    → Facts page_size n last buffer old new
    → Facts page_size n last buffer old []
Facts-lost page_size n last buffer old new f = record {
  positive = f.positive;
  small = f.small;
  word = f.word;
  place = f.place;
  storage = f.storage;
  room = omega (arith, f.room);
  slots =
      rw (append-nil old)
        (Slots-split page_size n buffer last (last + length old) old new refl f.slots).0;
}

pub Facts-empty :
    (page_size n last : ℕ) (buffer : List ℕ) (old new : List Write)
    → Facts page_size n last buffer old new
    → Facts page_size n 0 buffer [] []
Facts-empty page_size n last buffer old new f = record {
  positive = f.positive;
  small = f.small;
  word = f.word;
  place = f.positive;
  storage = f.storage;
  room = f.positive;
  slots = tt;
}

-- The reader goes on to the writes behind.
pub Facts-read :
    (page_size n last : ℕ) (buffer : List ℕ) (old new : List Write)
    → Facts page_size n last buffer old new
    → Facts page_size n ((last + length old) % n) buffer new []
Facts-read page_size n last buffer old new f = record {
  positive = f.positive;
  small = f.small;
  word = f.word;
  place = mod-lt (last + length old) f.positive;
  storage = f.storage;
  room = omega (arith, f.room);
  slots = rw (append-nil new) (
      Slots-mod page_size n buffer (last + length old) ((last + length old) % n) new
        (sym (mod-mod (last + length old) n))
        (Slots-split page_size n buffer last (last + length old) old new refl f.slots).1);
}

IsAt-slot_at : (buffer : List ℕ) (p : ℕ) (w : Write) → IsAt buffer p w → slot_at buffer p ≡ w
IsAt-slot_at buffer p w k = rw (k.sector, k.size, k.bytes) refl

-- The reader finds the writes that stand there.
pub slots_from-Slots :
    (page_size n : ℕ) (buffer : List ℕ) (o : ℕ) (ws : List Write)
    → Slots page_size n buffer o ws
    → slots_from page_size n buffer o (length ws) ≡ ws
slots_from-Slots page_size n buffer o [] h = refl
slots_from-Slots page_size n buffer o (w ∷ ws) ((k, small), h) =
    ap₂ ◌∷◌ (IsAt-slot_at buffer (byte_of page_size n o) w k)
      (slots_from-Slots page_size n buffer (suc o) ws h)

pub read_window :
    (page_size n last : ℕ) (buffer : List ℕ) (old new : List Write)
    → Facts page_size n last buffer old new
    → slots_from page_size n buffer ((last + length old) % n) (length new) ≡ new
read_window page_size n last buffer old new f =
    slots_from-Slots page_size n buffer ((last + length old) % n) new (
      Slots-mod page_size n buffer (last + length old) ((last + length old) % n) new
        (sym (mod-mod (last + length old) n))
        (Slots-split page_size n buffer last (last + length old) old new refl f.slots).1)
