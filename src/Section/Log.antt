-- ===== src/Section/Log.antt =====
-- A section as a log: the entries written since it was cleared, and empty entries behind them.
use bdr.Common.{
  ℕ, zero, suc, ◌+◌, ◌*◌, ◌≤◌, ◌<◌, ◌≡◌, ◌≢◌, ap, ◌∙◌, arith, List, [], ◌∷◌, ◌++◌, length, overlay,
  ok, inl, inr, ◌⊎◌, length-overlay, slice-overlay_after, slice-overlay_before, length-append, some,
  get_elem?,
}
use bdr.Device.{sound}
use bdr.Networking.{Extent}
use bdr.Slot.{deserialize_info, invalid_info}
use bdr.Slot.RoundTrip.{Fits, slot_bytes, length-slot_bytes, deserialize_info-slot_bytes}
use bdr.Section.{Section, read_slot}
use bdr.Section.Slots.{
  IsPlaced, at, entry, rows, at-le, read_slot-sound, entry-overlay, entry-overlay_ne,
}

-- The entries from `i` on are those of the list, each of them valid.
abbrev pub HoldsFrom : Section → List ℕ → ℕ → List Extent → Type 0
HoldsFrom sec c i [] = Unit {0}
HoldsFrom sec c i (x ∷ xs) =
    (entry sec i c ≡ slot_bytes sec.byte_size x)
    × Fits sec.byte_size x
    × (x.size ≢ 0)
    × HoldsFrom sec c (i + 1) xs

-- The entries from `k` on are empty.
abbrev pub EmptyFrom : Section → List ℕ → ℕ → Type 0
EmptyFrom sec c k =
    (j : ℕ) → k ≤ j → j < sec.count → entry sec j c ≡ slot_bytes sec.byte_size invalid_info

pub record IsLog (sec : Section) (c : List ℕ) (infos : List Extent) : Type 0 where
  pub placed : IsPlaced sec (length c)
  pub capped : length infos ≤ sec.count
  pub holds : HoldsFrom sec c 0 infos
  pub empty : EmptyFrom sec c (length infos)

pub invalid_info-Fits : (k : ℕ) → 12 ≤ k → Fits k invalid_info
invalid_info-Fits k h = omega arith

-- A change that leaves the entries of a section alone leaves its log alone.
pub HoldsFrom-same :
    (sec : Section) (c c' : List ℕ) (i n : ℕ) (infos : List Extent)
    → i + length infos ≤ n
    → ((j : ℕ) → j < n → entry sec j c' ≡ entry sec j c)
    → HoldsFrom sec c i infos
    → HoldsFrom sec c' i infos
HoldsFrom-same sec c c' i n [] h same holds = tt
HoldsFrom-same sec c c' i n (x ∷ xs) h same (e, f, v, rest) =
    (same i (omega arith) ∙ e, f, v, HoldsFrom-same sec c c' (i + 1) n xs (omega arith) same rest)

HoldsFrom-append :
    (sec : Section) (c : List ℕ) (i : ℕ) (infos : List Extent) (x : Extent)
    → HoldsFrom sec c i infos
    → entry sec (i + length infos) c ≡ slot_bytes sec.byte_size x
    → Fits sec.byte_size x
    → x.size ≢ 0
    → HoldsFrom sec c i (infos ++ x ∷ [])
HoldsFrom-append sec c i [] x holds e f v = let k : i + 0 ≡ i = omega arith in (rw k at e, f, v, tt)
HoldsFrom-append sec c i (y ∷ ys) x (e0, f0, v0, rest) e f v =
    let k : i + suc (length ys) ≡ i + 1 + length ys = omega arith in
    (e0, f0, v0, HoldsFrom-append sec c (i + 1) ys x rest (rw k at e) f v)

-- A write behind the last entry appends to the log.
pub IsLog-append :
    (sec : Section) (c : List ℕ) (infos : List Extent) (x : Extent)
    → IsLog sec c infos
    → length infos < sec.count
    → Fits sec.byte_size x
    → x.size ≢ 0
    → IsLog sec (overlay c (at sec (length infos)) (slot_bytes sec.byte_size x)) (infos ++ x ∷ [])
IsLog-append sec c infos x log h f v =
    let k = length infos in
    let bs = slot_bytes sec.byte_size x in
    let c' = overlay c (at sec k) bs in
    let len : length bs ≡ sec.byte_size = length-slot_bytes sec.byte_size x in
    record {
      placed = rw (length-overlay c (at sec k) bs) log.placed;
      capped = omega (arith, length-append infos (x ∷ []));
      holds =
          HoldsFrom-append sec c' 0 infos x
            (HoldsFrom-same sec c c' 0 k infos (omega arith)
              (λ j hj. entry-overlay_ne sec k j bs c len (inr hj)) log.holds)
            (let e : 0 + k ≡ k = omega arith in
              rw e (entry-overlay sec k bs c len (at-le sec (length c) k log.placed h)))
            f v;
      empty = λ j hj hc.
          let hj' : k < j = omega (arith, length-append infos (x ∷ [])) in
          entry-overlay_ne sec k j bs c len (inl hj') ∙ log.empty j (omega arith) hc;
    }

-- Reading back.
pub read_slot-HoldsFrom :
    (sec : Section) (c : List ℕ) (infos : List Extent) (i k : ℕ) (x : Extent)
    → IsPlaced sec (length c)
    → HoldsFrom sec c i infos
    → i + length infos ≤ sec.count
    → get_elem? infos k ≡ some x
    → read_slot sec (i + k) (sound c) ≡ (ok x, sound c)
read_slot-HoldsFrom sec c [] i k x p holds h g = absurd (cc)
read_slot-HoldsFrom sec c (y ∷ ys) i zero x p (e, f, v, rest) h g =
    let k0 : i + 0 ≡ i = omega arith in
    rw k0 (
      read_slot-sound sec i c p (omega arith)
      ∙ ap (λ o. (o, sound c))
          (ap deserialize_info e ∙ deserialize_info-slot_bytes sec.byte_size y f ∙ ap ok (cc)))
read_slot-HoldsFrom sec c (y ∷ ys) i (suc k) x p (e, f, v, rest) h g =
    let k0 : i + suc k ≡ i + 1 + k = omega arith in
    rw k0 (read_slot-HoldsFrom sec c ys (i + 1) k x p rest (omega arith) g)

pub read_slot-EmptyFrom :
    (sec : Section) (c : List ℕ) (k j : ℕ)
    → IsPlaced sec (length c)
    → EmptyFrom sec c k
    → k ≤ j
    → j < sec.count
    → read_slot sec j (sound c) ≡ (ok invalid_info, sound c)
read_slot-EmptyFrom sec c k j p empty hk hj =
    read_slot-sound sec j c p hj
    ∙ ap (λ o. (o, sound c))
        (ap deserialize_info (empty j hk hj)
          ∙ deserialize_info-slot_bytes sec.byte_size invalid_info
              (invalid_info-Fits sec.byte_size p.room))

-- A change behind, in front of or between the entries of a section leaves its log.
pub IsLog-same :
    (sec : Section) (c c' : List ℕ) (infos : List Extent)
    → length c' ≡ length c
    → ((j : ℕ) → j < sec.count → entry sec j c' ≡ entry sec j c)
    → IsLog sec c infos
    → IsLog sec c' infos
IsLog-same sec c c' infos e same log = record {
  placed = rw e log.placed;
  capped = log.capped;
  holds = HoldsFrom-same sec c c' 0 sec.count infos (omega (arith, log)) same log.holds;
  empty = λ j hj hc. same j hc ∙ log.empty j hj hc;
}

pub IsLog-overlay :
    (sec : Section) (c : List ℕ) (o : ℕ) (bs : List ℕ) (infos : List Extent)
    → (o + length bs ≤ sec.start) ⊎ (sec.start + sec.count * sec.byte_size ≤ o)
    → IsLog sec c infos
    → IsLog sec (overlay c o bs) infos
IsLog-overlay sec c o bs infos (inl away) =
    IsLog-same sec c (overlay c o bs) infos (length-overlay c o bs)
      λ j hj. slice-overlay_after c o bs (at sec j) sec.byte_size (omega arith)
IsLog-overlay sec c o bs infos (inr away) =
    IsLog-same sec c (overlay c o bs) infos (length-overlay c o bs) λ j hj.
      slice-overlay_before c o bs (at sec j) sec.byte_size
        (omega (arith, rows j sec.count sec.byte_size hj))
