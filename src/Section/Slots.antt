-- ===== src/Section/Slots.antt =====
-- Entries of one section of the journal on a sound device: where they lie, and what is read back.
use bdr.Common.{
  replicate, ℕ, ◌+◌, ◌*◌, ◌^◌, ◌≤◌, ◌<◌, ◌≡◌, refl, arith, List, length, slice, overlay, ok, err,
  invalid_size, slice-overlay, slice-overlay_before, slice-overlay_after, le→leb, lt→leb, inl, inr,
  ◌⊎◌,
}
use bdr.Device.{Disk, sound}
use bdr.Device.Faults.{write_at-sound, read_full-sound, sync-sound}
use bdr.Networking.{Extent}
use bdr.Device.Overlays.{trimmed}
use bdr.Slot.{deserialize_info}
use bdr.Slot.RoundTrip.{
  Fits, slot_bytes, length-slot_bytes, serialize_info-Fits, serialize_info-trimmed,
}
use bdr.Section.{Section, slot_offset, write_slot, read_slot}

-- The section lies on a device of `n` bytes, and its entries have room for their two fields.
pub record IsPlaced (sec : Section) (n : ℕ) : Type 0 where
  pub within : sec.start + sec.count * sec.byte_size ≤ n
  pub small : n < 2 ^ 63
  pub room : 12 ≤ sec.byte_size

-- Where entry `i` begins, and the bytes that stand there.
abbrev pub at : Section → ℕ → ℕ
at sec i = sec.start + i * sec.byte_size

abbrev pub entry : Section → ℕ → List ℕ → List ℕ
entry sec i c = slice (at sec i) sec.byte_size c

pub rows : (i c s : ℕ) → i < c → i * s + s ≤ c * s
rows i c s h = grind arith

pub at-le :
    (sec : Section) (n i : ℕ) → IsPlaced sec n → i < sec.count → at sec i + sec.byte_size ≤ n
at-le sec n i p h = omega (arith, rows i sec.count sec.byte_size h, p)

-- On a placed section the uint64 arithmetic of the offset does not wrap.
pub slot_offset_exact :
    (sec : Section) (n i : ℕ) → IsPlaced sec n → i < sec.count → slot_offset sec i ≡ at sec i
unfolding slot_offset
slot_offset_exact sec n i p h = omega (arith, at-le sec n i p h, p)

pub read_slot-sound :
    (sec : Section) (i : ℕ) (c : List ℕ)
    → IsPlaced sec (length c)
    → i < sec.count
    → read_slot sec i (sound c) ≡ (deserialize_info (entry sec i c), sound c)
unfolding read_slot
read_slot-sound sec i c p h =
    rw
      (
        lt→leb sec.count i h,
        slot_offset_exact sec (length c) i p h,
        read_full-sound sec.byte_size (at sec i) c (at-le sec (length c) i p h) p.small,
      )
      refl

pub write_slot-sound :
    (sec : Section) (i : ℕ) (info : Extent) (c : List ℕ)
    → IsPlaced sec (length c)
    → i < sec.count
    → Fits sec.byte_size info
    → write_slot sec i info (sound c)
      ≡ (ok tt, sound (overlay c (at sec i) (slot_bytes sec.byte_size info)))
unfolding write_slot
write_slot-sound sec i info c p h f =
    rw
      (
        lt→leb sec.count i h,
        serialize_info-Fits sec.byte_size info f,
        slot_offset_exact sec (length c) i p h,
        write_at-sound (slot_bytes sec.byte_size info) (at sec i) c
            (omega (arith, at-le sec (length c) i p h, length-slot_bytes sec.byte_size info))
            p.small,
      )
      (sync-sound _)

-- An entry is stored with as many bytes as its size says.
abbrev pub HasBytes : Extent → Type 0
HasBytes x = (x.size ≤ length x.bytes) × (length x.bytes < 2 ^ 32)

pub write_slot-trimmed :
    (sec : Section) (i : ℕ) (info : Extent) (d : Disk)
    → HasBytes info
    → write_slot sec i info d ≡ write_slot sec i (trimmed info) d
unfolding write_slot
write_slot-trimmed sec i info d (long, small) =
    rw (serialize_info-trimmed info (replicate sec.byte_size 0) small long) refl

pub write_slot_full :
    (sec : Section) (i : ℕ) (info : Extent) (d : Disk)
    → sec.count ≤ i
    → write_slot sec i info d ≡ (err invalid_size, d)
unfolding write_slot
write_slot_full sec i info d h = rw (le→leb sec.count i h)

-- The entry that was written, and every other one.
pub entry-overlay :
    (sec : Section) (i : ℕ) (bs c : List ℕ)
    → length bs ≡ sec.byte_size
    → at sec i + sec.byte_size ≤ length c
    → entry sec i (overlay c (at sec i) bs) ≡ bs
entry-overlay sec i bs c e h = rw e at (slice-overlay c (at sec i) bs (omega arith))

pub entry-overlay_ne :
    (sec : Section) (i j : ℕ) (bs c : List ℕ)
    → length bs ≡ sec.byte_size
    → (i < j) ⊎ (j < i)
    → entry sec j (overlay c (at sec i) bs) ≡ entry sec j c
entry-overlay_ne sec i j bs c e (inl h) =
    slice-overlay_after c (at sec i) bs (at sec j) sec.byte_size
      (omega (arith, rows i j sec.byte_size h))
entry-overlay_ne sec i j bs c e (inr h) =
    slice-overlay_before c (at sec i) bs (at sec j) sec.byte_size
      (omega (arith, rows j i sec.byte_size h))
