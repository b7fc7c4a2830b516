-- ===== src/Slot/RoundTrip.antt =====
-- One entry of user/journal/journal.go, serialised and deserialised again.
use bdr.Common.{
  Bool, not, ◌&&◌, ◌==◌, if◌then◌else◌, ltb, take, length-take, take-take, sym, panic, Outcome, ℕ,
  zero, suc, ◌+◌, ◌-◌, ◌^◌, ◌≤◌, ◌<◌, ◌≡◌, refl, ◌∙◌, ap, arith, List, [], ◌∷◌, length, replicate,
  overlay, slice, be, from_be, ok,
}
use bdr.Common.{
  from_be-be_u64, from_be-be_u32, slice-overlay, slice-overlay_before, length-overlay, take-length,
  length-replicate, overlay-nil,
}
use bdr.Networking.{Extent}
use bdr.Device.Overlays.{trimmed}
use bdr.Slot.{data_size, tail_fits, serialize_info, deserialize_info}

-- What the program puts into an entry of `k` bytes: a uint64, a uint32 and that many bytes.
pub record Fits (k : ℕ) (info : Extent) : Type 0 where
  pub offset : info.offset < 2 ^ 64
  pub size : info.size < 2 ^ 32 - 12
  pub all : length info.bytes ≡ info.size
  pub room : 12 + info.size ≤ k

-- The bytes of an entry, and then zeros.
unfoldable pub slot_bytes : ℕ → Extent → List ℕ
slot_bytes k info =
    overlay (overlay (overlay (replicate k 0) 0 (be 8 info.offset)) 8 (be 4 info.size)) 12
      info.bytes

length-overlays :
    (z a b c : List ℕ) → length (overlay (overlay (overlay z 0 a) 8 b) 12 c) ≡ length z
length-overlays z a b c =
    length-overlay _ 12 c ∙ length-overlay (overlay z 0 a) 8 b ∙ length-overlay z 0 a

pub length-slot_bytes : (k : ℕ) (info : Extent) → length (slot_bytes k info) ≡ k
unfolding slot_bytes
length-slot_bytes k info =
    length-overlays (replicate k 0) (be 8 info.offset) (be 4 info.size) info.bytes
    ∙ length-replicate k 0

-- Three fields of 8, 4 and any number of bytes, written one behind the other.
slice-overlays :
    (z a b c : List ℕ)
    → length a ≡ 8
    → length b ≡ 4
    → 12 + length c ≤ length z
    → let w = overlay (overlay (overlay z 0 a) 8 b) 12 c in
      (slice 0 8 w ≡ a) × (slice 8 4 w ≡ b) × (slice 12 (length c) w ≡ c)
slice-overlays z a b c la lb h =
    let w1 = overlay z 0 a in
    let w2 = overlay w1 8 b in
    (
      slice-overlay_before w2 12 c 0 8 (omega arith)
          ∙ slice-overlay_before w1 8 b 0 8 (omega arith)
          ∙ rw la at (slice-overlay z 0 a (omega arith)),
      slice-overlay_before w2 12 c 8 4 (omega arith)
          ∙ rw lb at (slice-overlay w1 8 b (omega (arith, length-overlay z 0 a))),
      slice-overlay w2 12 c (omega (arith, length-overlay w1 8 b, length-overlay z 0 a)),
    )

serialize_parts :
    (k offset size : ℕ) (bs : List ℕ)
    → let info : Extent = record { offset = offset; size = size; bytes = bs } in
      Fits k info → serialize_info info (replicate k 0) ≡ ok (slot_bytes k info)
unfolding serialize_info slot_bytes
serialize_parts k offset size [] f =
    let head = overlay (overlay (replicate k 0) 0 (be 8 offset)) 8 (be 4 size) in
    ground (arith, f, length-replicate {A = ℕ} k 0, overlay-nil head 12)
serialize_parts k offset size (b ∷ bs) f =
    ground (arith, f, length-replicate {A = ℕ} k 0, take-length (b ∷ bs))

-- An entry that fits is written whole, without a panic.
pub serialize_info-Fits :
    (k : ℕ) (info : Extent)
    → Fits k info
    → serialize_info info (replicate k 0) ≡ ok (slot_bytes k info)
serialize_info-Fits k info f = serialize_parts k info.offset info.size info.bytes f

deserialize_fields :
    (w : List ℕ) (offset size : ℕ)
    → from_be 0 (slice 0 8 w) ≡ offset
    → from_be 0 (slice 8 4 w) ≡ size
    → 12 + size ≤ length w
    → size < 2 ^ 32 - 12
    → deserialize_info w ≡ ok (record { offset = offset; size = size; bytes = slice 12 size w })
unfolding deserialize_info
deserialize_fields w offset zero p q h s = ground arith
deserialize_fields w offset (suc n) p q h s = ground arith

pub deserialize_info-slot_bytes :
    (k : ℕ) (info : Extent) → Fits k info → deserialize_info (slot_bytes k info) ≡ ok info
unfolding slot_bytes
deserialize_info-slot_bytes k info f =
    let w = slot_bytes k info in
    let (s0, s8, s12) =
      slice-overlays (replicate k 0) (be 8 info.offset) (be 4 info.size) info.bytes refl refl
        (omega (arith, length-replicate {A = ℕ} k 0)) in
    deserialize_fields w info.offset info.size
      (ap (from_be 0) s0 ∙ from_be-be_u64 info.offset f.offset)
      (ap (from_be 0) s8 ∙ from_be-be_u32 info.size (omega arith))
      (omega (arith, length-slot_bytes k info)) f.size
    ∙ ap (λ bs. ok (record { offset = info.offset; size = info.size; bytes = bs }))
        (rw f.all at s12)

-- An entry with a uint64 offset and its size in bytes, of no more bytes than the slot has room for
-- behind the 12 of its head, is serialised into an empty slot without a panic, and the whole slot
-- deserialises to it.
deserialize_info-serialize_info :
    (k : ℕ) (info : Extent)
    → Fits k info
    → (w : List ℕ) × (serialize_info info (replicate k 0) ≡ ok w)
      × (length w ≡ k)
      × (deserialize_info w ≡ ok info)
deserialize_info-serialize_info k info f = (
  slot_bytes k info,
  serialize_info-Fits k info f,
  length-slot_bytes k info,
  deserialize_info-slot_bytes k info f,
)

-- What is written depends on the bytes that the size counts.
abbrev serialize_with : ℕ → ℕ → List ℕ → Bool → ℕ → List ℕ → Outcome (List ℕ)
serialize_with offset size buffer some_data n tail =
    let head = overlay (overlay buffer 0 (be 8 offset)) 8 (be 4 size) in
    if ltb (length buffer) 12
    then panic
    else if some_data
    then if tail_fits n buffer then ok (overlay head 12 tail) else panic
    else ok head

abbrev has_data : Extent → Bool
has_data info = not (info.size == 0) && not (length info.bytes == 0)

serialize_parts_of :
    (info : Extent) (buffer : List ℕ) (b : Bool) (n : ℕ) (tail : List ℕ)
    → has_data info ≡ b
    → data_size info ≡ n
    → take n info.bytes ≡ tail
    → serialize_info info buffer ≡ serialize_with info.offset info.size buffer b n tail
unfolding serialize_info
serialize_parts_of info buffer b n tail e f g = rw (← g, ← f, ← e) refl

data_size_exact :
    (info : Extent)
    → length info.bytes < 2 ^ 32
    → info.size ≤ length info.bytes
    → data_size info ≡ info.size
data_size_exact info small long = ground arith

same_data :
    (size n m : ℕ)
    → size ≤ n
    → m ≡ size
    → (not (size == 0) && not (m == 0)) ≡ (not (size == 0) && not (n == 0))
same_data size n m long e = ground arith

-- Bytes behind those that the size counts are not written.
pub serialize_info-trimmed :
    (info : Extent) (buffer : List ℕ)
    → length info.bytes < 2 ^ 32
    → info.size ≤ length info.bytes
    → serialize_info info buffer ≡ serialize_info (trimmed info) buffer
serialize_info-trimmed info buffer small long =
    let bs = take info.size info.bytes in
    let len : length bs ≡ info.size = omega (arith, length-take info.size info.bytes) in
    serialize_parts_of info buffer (has_data info) info.size bs refl
      (data_size_exact info small long) refl
    ∙ sym (
        serialize_parts_of (trimmed info) buffer (has_data info) info.size bs
          (same_data info.size (length info.bytes) (length bs) long len)
          (data_size_exact (trimmed info) (omega arith) (omega arith))
          (take-take info.size info.size info.bytes (omega arith)))
