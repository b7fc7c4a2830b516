-- ===== src/Client/Window.antt =====
-- `ProcessBufferInfo` of user/client/client.go, entry by entry: what the client decodes from a slot.
use bdr.Common.{
  ℕ, ◌+◌, ◌*◌, ◌^◌, ◌≤◌, ◌<◌, ◌≡◌, refl, ap, ◌∙◌, arith, List, ◌∷◌, ◌++◌, some, ok, length, slice,
  take, from_le, u64, length-slice, slice-slice, le→ltb, if_false, length-append, take-take, drop,
}
use bdr.Networking.{Extent}
use bdr.Device.Overlays.{trimmed}
use bdr.Ring.{BufferInfo, slot_size}
use bdr.Section.Slots.{HasBytes}
use bdr.Ring.Window.{Write, IsAt, IsSmall}
use bdr.Ring.Slots.{Slots-split, byte_of, byte_of-le}
use bdr.Ring.Queue.Places.{ne→==}
use bdr.Ring.Queue.Reading.{Reader}
use bdr.Client.{Client}
use bdr.Client.Buffer.{
  decode_entry, read_entry, decoded, bytes_from, get_buffer_info_byte_offset, entry_bytes,
}

-- The write that a packet is to carry.
abbrev pub extent_of : Write → Extent
extent_of w = record { offset = 512 * w.sector; size = length w.bytes; bytes = w.bytes }

-- The packet's payload has the bytes of the write, and no fewer than its size says.
abbrev pub Carries : Extent → Write → Type 0
Carries x w = (trimmed x ≡ extent_of w) × HasBytes x

abbrev extent : ℕ → ℕ → List ℕ → Extent
extent o n bs = record { offset = o; size = n; bytes = bs }

extent_path :
    {o o' n n' : ℕ} {bs bs' : List ℕ}
    → o ≡ o'
    → n ≡ n'
    → bs ≡ bs'
    → extent o n bs ≡ extent o' n' bs'
extent_path e f g = rw (e, f, g) refl

decode_entry-Carries :
    (page_size p : ℕ) (buffer : List ℕ) (w : Write)
    → IsAt buffer p w
    → IsSmall page_size w
    → page_size < 2 ^ 32
    → p + slot_size page_size ≤ length buffer
    → (x : Extent) × (decode_entry page_size (slice p (8 + page_size) buffer) ≡ some x)
      × Carries x w
unfolding decode_entry
decode_entry-Carries page_size p buffer w k small word fit =
    let slot = slice p (8 + page_size) buffer in
    let whole = length-slice p (8 + page_size) buffer fit in
    let sector : from_le (slice 0 4 slot) ≡ w.sector =
      ap from_le (
        slice-slice 0 4 p (8 + page_size) buffer (omega arith)
        ∙ ap (λ j. slice j 4 buffer) (omega arith))
      ∙ k.sector in
    let size : from_le (slice 4 4 slot) ≡ length w.bytes =
      ap from_le (slice-slice 4 4 p (8 + page_size) buffer (omega arith)) ∙ k.size in
    let page : slice 8 page_size slot ≡ slice (p + 8) page_size buffer =
      slice-slice 8 page_size p (8 + page_size) buffer (omega arith) in
    let bytes : take (length w.bytes) (slice 8 page_size slot) ≡ w.bytes =
      ap (take (length w.bytes)) page
      ∙ take-take (length w.bytes) page_size (drop (p + 8) buffer) small.bytes
      ∙ k.bytes in
    let long = length-slice (p + 8) page_size buffer (omega arith) in
    (
      _,
      if_false _ _ (le→ltb (length slot) (8 + page_size) (omega (arith, whole))),
      (
        extent_path (omega (arith, sector, small.sector)) size
            (ap (λ n. take n (slice 8 page_size slot)) size ∙ bytes),
        (
          omega (arith, size, small.bytes, long, ap length page),
          omega (arith, long, ap length page),
        ),
      ),
    )

-- The byte at which the client looks for write `i`: nothing wraps in 64 bits.
get_buffer_info_byte_offset_exact :
    (c : Client) (info : BufferInfo) (n i first page_size : ℕ)
    → 0 < n
    → n < 2 ^ 63
    → n * slot_size page_size < 2 ^ 63
    → c.target_info.write_info_size ≡ slot_size page_size
    → info.max_writes ≡ n
    → info.offset ≡ first
    → first < n
    → i < n
    → get_buffer_info_byte_offset c info i ≡ ok (byte_of page_size n (first + i))
unfolding get_buffer_info_byte_offset
get_buffer_info_byte_offset_exact c info n i first page_size pos few small slot most place before
      inside =
    let fit = byte_of-le page_size n (first + i) pos in
    let sum : u64 (first + i) ≡ first + i = omega arith in
    rw (most, place, slot, ne→== n 0 (omega arith), sum) (ap ok (omega (arith, fit)))

entry_bytes_exact :
    (c : Client) (p page_size : ℕ)
    → c.target_info.write_info_size ≡ slot_size page_size
    → p + slot_size page_size ≤ length c.ring.buffer
    → p + slot_size page_size < 2 ^ 63
    → entry_bytes c p ≡ ok (slice p (8 + page_size) c.ring.buffer)
entry_bytes_exact c p page_size slot fit small =
    let end : u64 (p + slot_size page_size) ≡ p + slot_size page_size = omega arith in
    rw
      (
        slot,
        end,
        le→ltb (p + slot_size page_size) p (omega arith),
        le→ltb (length c.ring.buffer) (p + slot_size page_size) fit,
      )
      refl

read_entry_steps :
    (c : Client) (info : BufferInfo) (i p : ℕ) (bytes : List ℕ) (x : Extent)
    → get_buffer_info_byte_offset c info i ≡ ok p
    → entry_bytes c p ≡ ok bytes
    → decode_entry c.target_info.page_size bytes ≡ some x
    → read_entry info i c ≡ ok (some x)
unfolding read_entry
read_entry_steps c info i p bytes x e f g =
    ap (λ o. decoded c.target_info.page_size (bytes_from c o)) e
    ∙ ap (decoded c.target_info.page_size) f
    ∙ ap ok g

pub read_entry-Carries :
    (c : Client) (info : BufferInfo) (n : ℕ) (past : List Write) (w : Write) (ws : List Write)
    → let page_size = c.target_info.page_size in
      n * slot_size page_size < 2 ^ 63
      → c.target_info.write_info_size ≡ slot_size page_size
      → info.max_writes ≡ n
      → info.offset ≡ c.ring.info.last
      → Reader page_size n c.ring (past ++ w ∷ ws)
      → (x : Extent) × (read_entry info (length past) c ≡ ok (some x)) × Carries x w
read_entry-Carries c info n past w ws small slot most place reader =
    let page_size = c.target_info.page_size in
    let first = c.ring.info.last in
    let i = length past in
    let p = byte_of page_size n (first + i) in
    let fit = byte_of-le page_size n (first + i) reader.positive in
    let ((k, tiny), _) =
      (Slots-split page_size n c.ring.buffer first (first + i) past (w ∷ ws) refl reader.slots).1 in
    let (x, e, carries) =
      decode_entry-Carries page_size p c.ring.buffer w k tiny reader.word
        (omega (arith, fit, reader.storage)) in
    (
      x,
      read_entry_steps c info i p (slice p (8 + page_size) c.ring.buffer) x
          (get_buffer_info_byte_offset_exact c info n i first page_size reader.positive reader.small
            small slot most place reader.place
            (omega (arith, reader.room, length-append past (w ∷ ws))))
          (entry_bytes_exact c p page_size slot (omega (arith, fit, reader.storage))
            (omega (arith, fit, small)))
          e,
      carries,
    )
