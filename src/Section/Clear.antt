-- ===== src/Section/Clear.antt =====
-- Clearing a section of the journal on a sound device.
use bdr.Common.{
  ℕ, zero, suc, ◌+◌, ◌*◌, ◌≤◌, ◌<◌, ◌≡◌, refl, ◌∙◌, arith, List, [], length, slice, overlay, ok,
  inl, inr, ◌⊎◌, length-overlay, slice-overlay_before, slice-overlay_after, le→ltb,
}
use bdr.Device.{sound}
use native.Mathlib.Decide.{dec_lt}
use bdr.Device.Faults.{write_at-sound}
use bdr.Slot.{invalid_info}
use bdr.Slot.RoundTrip.{slot_bytes, length-slot_bytes, serialize_info-Fits}
use bdr.Section.{Section, clear_from, clear_slots, clear_slots_to}
use bdr.Section.Slots.{
  IsPlaced, at, entry, at-le, rows, slot_offset_exact, entry-overlay, entry-overlay_ne,
}
use bdr.Section.Log.{IsLog, EmptyFrom, invalid_info-Fits}

-- The contents after `rounds` entries from `i` on are overwritten by `bs`.
pub cleared : Section → List ℕ → ℕ → ℕ → List ℕ → List ℕ
cleared sec bs zero i c = c
cleared sec bs (suc rounds) i c = cleared sec bs rounds (i + 1) (overlay c (at sec i) bs)

length-cleared :
    (sec : Section) (bs : List ℕ) (rounds i : ℕ) (c : List ℕ)
    → length (cleared sec bs rounds i c) ≡ length c
unfolding cleared
length-cleared sec bs zero i c = refl
length-cleared sec bs (suc rounds) i c =
    length-cleared sec bs rounds (i + 1) (overlay c (at sec i) bs) ∙ length-overlay c (at sec i) bs

clear_from-sound :
    (sec : Section) (bs : List ℕ) (rounds i : ℕ) (c : List ℕ)
    → IsPlaced sec (length c)
    → length bs ≡ sec.byte_size
    → i + rounds ≤ sec.count
    → clear_from sec bs rounds i (sound c) ≡ (ok tt, sound (cleared sec bs rounds i c))
unfolding clear_from cleared
clear_from-sound sec bs zero i c p e h = refl
clear_from-sound sec bs (suc rounds) i c p e h =
    let hi : i < sec.count = omega arith in
    rw
      (
        slot_offset_exact sec (length c) i p hi,
        write_at-sound bs (at sec i) c (omega (arith, at-le sec (length c) i p hi)) p.small,
      )
      (clear_from-sound sec bs rounds (i + 1) (overlay c (at sec i) bs)
        (rw (length-overlay c (at sec i) bs) p) e (omega arith))

entry-cleared_before :
    (sec : Section) (bs : List ℕ) (rounds i j : ℕ) (c : List ℕ)
    → length bs ≡ sec.byte_size
    → j < i
    → entry sec j (cleared sec bs rounds i c) ≡ entry sec j c
unfolding cleared
entry-cleared_before sec bs zero i j c e h = refl
entry-cleared_before sec bs (suc rounds) i j c e h =
    entry-cleared_before sec bs rounds (i + 1) j (overlay c (at sec i) bs) e (omega arith)
    ∙ entry-overlay_ne sec i j bs c e (inr h)

entry-cleared_after :
    (sec : Section) (bs : List ℕ) (rounds i j : ℕ) (c : List ℕ)
    → length bs ≡ sec.byte_size
    → i + rounds ≤ j
    → entry sec j (cleared sec bs rounds i c) ≡ entry sec j c
unfolding cleared
entry-cleared_after sec bs zero i j c e h = refl
entry-cleared_after sec bs (suc rounds) i j c e h =
    entry-cleared_after sec bs rounds (i + 1) j (overlay c (at sec i) bs) e (omega arith)
    ∙ entry-overlay_ne sec i j bs c e (inl (omega arith))

entry-cleared :
    (sec : Section) (bs : List ℕ) (rounds i k : ℕ) (c : List ℕ)
    → IsPlaced sec (length c)
    → length bs ≡ sec.byte_size
    → i + rounds ≤ sec.count
    → k < rounds
    → entry sec (i + k) (cleared sec bs rounds i c) ≡ bs
unfolding cleared
entry-cleared sec bs zero i k c p e h hk = absurd (omega arith)
entry-cleared sec bs (suc rounds) i zero c p e h hk =
    let k0 : i + 0 ≡ i = omega arith in
    rw k0 (
      entry-cleared_before sec bs rounds (i + 1) i (overlay c (at sec i) bs) e (omega arith)
      ∙ entry-overlay sec i bs c e (at-le sec (length c) i p (omega arith)))
entry-cleared sec bs (suc rounds) i (suc k) c p e h hk =
    let k0 : i + suc k ≡ i + 1 + k = omega arith in
    rw k0 (
      entry-cleared sec bs rounds (i + 1) k (overlay c (at sec i) bs)
        (rw (length-overlay c (at sec i) bs) p) e (omega arith) (omega arith))

-- Bytes in front of the section, or behind it, stay.
slice-cleared :
    (sec : Section) (bs : List ℕ) (rounds i : ℕ) (c : List ℕ) (o n : ℕ)
    → length bs ≡ sec.byte_size
    → i + rounds ≤ sec.count
    → (o + n ≤ sec.start) ⊎ (sec.start + sec.count * sec.byte_size ≤ o)
    → slice o n (cleared sec bs rounds i c) ≡ slice o n c
unfolding cleared
slice-cleared sec bs zero i c o n e h away = refl
slice-cleared sec bs (suc rounds) i c o n e h (inl away) =
    slice-cleared sec bs rounds (i + 1) (overlay c (at sec i) bs) o n e (omega arith) (inl away)
    ∙ slice-overlay_before c (at sec i) bs o n (omega arith)
slice-cleared sec bs (suc rounds) i c o n e h (inr away) =
    slice-cleared sec bs rounds (i + 1) (overlay c (at sec i) bs) o n e (omega arith) (inr away)
    ∙ slice-overlay_after c (at sec i) bs o n
        (omega (arith, rows i sec.count sec.byte_size (omega arith)))

-- The contents after the first `n` entries were cleared.
pub clear_content : Section → ℕ → List ℕ → List ℕ
clear_content sec n c = cleared sec (slot_bytes sec.byte_size invalid_info) n 0 c

pub length-clear_content :
    (sec : Section) (n : ℕ) (c : List ℕ) → length (clear_content sec n c) ≡ length c
unfolding clear_content
length-clear_content sec n c = length-cleared sec _ n 0 c

pub clear_slots-sound :
    (sec : Section) (n : ℕ) (c : List ℕ)
    → IsPlaced sec (length c)
    → n ≤ sec.count
    → clear_slots sec n (sound c) ≡ (ok tt, sound (clear_content sec n c))
unfolding clear_slots clear_content
clear_slots-sound sec n c p h =
    rw (serialize_info-Fits sec.byte_size invalid_info (invalid_info-Fits sec.byte_size p.room))
      (clear_from-sound sec _ n 0 c p (length-slot_bytes sec.byte_size invalid_info) (omega arith))

pub clear_slots_to-sound :
    (sec : Section) (n : ℕ) (c : List ℕ)
    → IsPlaced sec (length c)
    → n ≤ sec.count
    → clear_slots_to sec n (sound c) ≡ (ok tt, sound (clear_content sec n c))
unfolding clear_slots_to
clear_slots_to-sound sec n c p h = rw (le→ltb sec.count n h) (clear_slots-sound sec n c p h)

pub slice-clear_content :
    (sec : Section) (n : ℕ) (c : List ℕ) (o k : ℕ)
    → n ≤ sec.count
    → (o + k ≤ sec.start) ⊎ (sec.start + sec.count * sec.byte_size ≤ o)
    → slice o k (clear_content sec n c) ≡ slice o k c
unfolding clear_content
slice-clear_content sec n c o k h away =
    slice-cleared sec _ n 0 c o k (length-slot_bytes sec.byte_size invalid_info) (omega arith) away

-- Cleared up to where entries were written, the section is the empty log.
pub IsLog-clear_content :
    (sec : Section) (n : ℕ) (c : List ℕ)
    → IsPlaced sec (length c)
    → n ≤ sec.count
    → EmptyFrom sec c n
    → IsLog sec (clear_content sec n c) []
unfolding clear_content
IsLog-clear_content sec n c p h empty = record {
  placed = rw (length-cleared sec (slot_bytes sec.byte_size invalid_info) n 0 c) p;
  capped = omega arith;
  holds = tt;
  empty = λ j hj hc. elim (dec_lt j n) [
    | yes before ↦
        let k0 : 0 + j ≡ j = omega arith in
        rw k0 at (
          entry-cleared sec _ n 0 j c p (length-slot_bytes sec.byte_size invalid_info) (omega arith)
            before)
    | no behind ↦
        entry-cleared_after sec _ n 0 j c (length-slot_bytes sec.byte_size invalid_info)
          (omega arith)
        ∙ empty j (omega arith) hc
  ];
}
