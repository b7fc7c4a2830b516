-- ===== src/Slot.antt =====
-- user/journal/journal.go: one entry of the journal. `serializeCorrectBlockInfo` and
-- `serializeWriteInfo` are the same code at two types of the same fields, as are
-- `deserializeCorrectBlockInfo` and `deserializeWriteInfo`; each pair is one function here.
use bdr.Common.{
  ℕ, ◌+◌, ◌<◌, Bool, ◌==◌, ◌&&◌, ◌||◌, not, if◌then◌else◌, ltb, List, [], length, take,
}
use bdr.Common.{slice, overlay, be, from_be, u32, Outcome, ok, panic}
use bdr.Networking.{Extent}
pub mod RoundTrip

-- `uint32(len(info.Data))`, cut to `info.Size`.
abbrev data_size : Extent → ℕ
data_size info = let n = u32 (length info.bytes) in if ltb info.size n then info.size else n

-- The slice `buffer[12:12+n]` with its uint32 end is in bounds.
abbrev tail_fits : ℕ → List ℕ → Bool
tail_fits n buffer = not (ltb (u32 (12 + n)) 12 || ltb (length buffer) (u32 (12 + n)))

-- A slice expression out of bounds is a panic: `buffer[0:8]`, `buffer[8:12]`, `buffer[12:12+n]`.
unfoldable pub serialize_info : Extent → List ℕ → Outcome (List ℕ)
serialize_info info buffer =
    let head = overlay (overlay buffer 0 (be 8 info.offset)) 8 (be 4 info.size) in
    if ltb (length buffer) 12
    then panic
    else if not (info.size == 0) && not (length info.bytes == 0)
    then if tail_fits (data_size info) buffer
      then ok (overlay head 12 (take (data_size info) info.bytes))
      else panic
    else ok head

unfoldable pub deserialize_info : List ℕ → Outcome Extent
deserialize_info buffer =
    let offset = from_be 0 (slice 0 8 buffer) in
    let size = from_be 0 (slice 8 4 buffer) in
    if ltb (length buffer) 12
    then panic
    else if size == 0
    then ok (record { offset = offset; size = size; bytes = [] })
    else if tail_fits size buffer
    then ok (record { offset = offset; size = size; bytes = slice 12 size buffer })
    else panic

-- `GetInvalidWrite` and `GetInvalidCorrectBlock`.
abbrev pub invalid_info : Extent
invalid_info = record { offset = 0; size = 0; bytes = [] }
