-- ===== src/Section/Find.antt =====
-- `FindFirstAvailable…` of user/journal/journal.go on a log.
use bdr.Common.{
  ℕ, zero, suc, ◌+◌, ◌<◌, ◌≡◌, ◌≢◌, refl, ap, ◌∙◌, arith, List, [], ◌∷◌, length, ok, err, Error,
  true,
}
use bdr.Device.{sound}
use bdr.Networking.{Extent, is_valid}
use bdr.Slot.{deserialize_info}
use bdr.Slot.RoundTrip.{deserialize_info-slot_bytes}
use bdr.Section.{Section, find_from, find_first}
use bdr.Section.Slots.{IsPlaced, read_slot-sound}
use bdr.Section.Log.{HoldsFrom, EmptyFrom, IsLog, read_slot-EmptyFrom}

is_valid_of_size : (x : Extent) → x.size ≢ 0 → is_valid x ≡ true
is_valid_of_size x h = ground arith

find_from-room :
    (e : Error) (sec : Section) (c : List ℕ) (infos : List Extent) (rounds i k : ℕ)
    → IsPlaced sec (length c)
    → HoldsFrom sec c i infos
    → EmptyFrom sec c k
    → i + length infos ≡ k
    → i + rounds ≡ sec.count
    → k < sec.count
    → find_from e sec rounds i (sound c) ≡ (ok k, sound c)
unfolding find_from
find_from-room e sec c infos zero i k p holds empty hk hr h = absurd (omega arith)
find_from-room e sec c [] (suc rounds) i k p holds empty hk hr h =
    let e0 : i ≡ k = omega arith in
    rw (read_slot-EmptyFrom sec c k i p empty (omega arith) (omega arith)) (rw e0)
find_from-room e sec c (x ∷ xs) (suc rounds) i k p (s, f, v, rest) empty hk hr h =
    let loaded =
      read_slot-sound sec i c p (omega arith)
      ∙ ap (λ o. (o, sound c))
          (ap deserialize_info s ∙ deserialize_info-slot_bytes sec.byte_size x f) in
    rw (loaded, is_valid_of_size x v)
      (find_from-room e sec c xs rounds (i + 1) k p rest empty (omega arith) (omega arith) h)

find_from-full :
    (e : Error) (sec : Section) (c : List ℕ) (infos : List Extent) (rounds i : ℕ)
    → IsPlaced sec (length c)
    → HoldsFrom sec c i infos
    → i + length infos ≡ sec.count
    → length infos ≡ rounds
    → find_from e sec rounds i (sound c) ≡ (err e, sound c)
unfolding find_from
find_from-full e sec c [] zero i p holds hk hr = refl
find_from-full e sec c [] (suc rounds) i p holds hk hr = absurd (omega arith)
find_from-full e sec c (x ∷ xs) zero i p holds hk hr = absurd (omega arith)
find_from-full e sec c (x ∷ xs) (suc rounds) i p (s, f, v, rest) hk hr =
    let loaded =
      read_slot-sound sec i c p (omega arith)
      ∙ ap (λ o. (o, sound c))
          (ap deserialize_info s ∙ deserialize_info-slot_bytes sec.byte_size x f) in
    rw (loaded, is_valid_of_size x v)
      (find_from-full e sec c xs rounds (i + 1) p rest (omega arith) (omega arith))

-- On a log with room, the index behind its last entry.
pub find_first-room :
    (e : Error) (sec : Section) (c : List ℕ) (infos : List Extent)
    → IsLog sec c infos
    → length infos < sec.count
    → find_first e sec (sound c) ≡ (ok (length infos), sound c)
unfolding find_first
find_first-room e sec c infos log h =
    find_from-room e sec c infos sec.count 0 (length infos) log.placed log.holds log.empty
      (omega arith) (omega arith) h

-- On a full log, the error.
pub find_first-full :
    (e : Error) (sec : Section) (c : List ℕ) (infos : List Extent)
    → IsLog sec c infos
    → length infos ≡ sec.count
    → find_first e sec (sound c) ≡ (err e, sound c)
unfolding find_first
find_first-full e sec c infos log h =
    find_from-full e sec c infos sec.count 0 log.placed log.holds (omega arith) h
