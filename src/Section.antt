-- ===== src/Section.antt =====
-- user/journal/journal.go: the two sections of the journal, the correct blocks and the buffer
-- writes. Each has entries of one size; the two halves of the code differ only in the header's
-- fields that they read, so each pair of functions is one function over a section.
use bdr.Common.{ℕ, zero, suc, ◌+◌, ◌*◌, List, replicate, Error, invalid_size, io_failure, u64, leb}
use bdr.Common.{ltb, if◌then◌else◌, M, pure, throw, lift, or_error, ◌>>=◌, ◌>>◌}
use bdr.Networking.{Extent, is_valid}
use bdr.Device.{Disk, write_at, read_full, sync}
use bdr.Header.{Header}
use bdr.Slot.{serialize_info, deserialize_info, invalid_info}
pub mod Slots
pub mod Log
pub mod Find
pub mod Clear

pub record Section : Type 0 where
  pub start : ℕ
  pub byte_size : ℕ
  pub count : ℕ

abbrev pub write_section : Header → Section
write_section h = record {
  start = h.buf_writes_start_offset;
  byte_size = h.buf_write_byte_size;
  count = h.buf_writes_count;
}

abbrev pub correct_section : Header → Section
correct_section h = record {
  start = h.corr_blocks_start_offset;
  byte_size = h.corr_block_byte_size;
  count = h.corr_blocks_count;
}

-- `start + index*byteSize` in uint64.
unfoldable pub slot_offset : Section → ℕ → ℕ
slot_offset sec index = u64 (sec.start + u64 (index * sec.byte_size))

-- `WriteCorrectBlock`, `WriteBufferWrite`.
unfoldable pub write_slot : Section → ℕ → Extent → M Disk (Unit {0})
write_slot sec index info =
    let store = do
      buffer ← lift (serialize_info info (replicate sec.byte_size 0))
      or_error io_failure (write_at buffer (slot_offset sec index))
      sync
    in if leb sec.count index then throw invalid_size else store

-- `ReadCorrectBlock`, `ReadBufferWrite`.
unfoldable pub read_slot : Section → ℕ → M Disk Extent
read_slot sec index =
    let load = do
      buffer ← or_error io_failure (read_full sec.byte_size (slot_offset sec index))
      lift (deserialize_info buffer)
    in if leb sec.count index then throw invalid_size else load

-- The loop of the four clearing functions, at `i` with `rounds` to go.
unfoldable pub clear_from : Section → List ℕ → ℕ → ℕ → M Disk (Unit {0})
clear_from sec buffer zero i = pure tt
clear_from sec buffer (suc rounds) i =
    or_error io_failure (write_at buffer (slot_offset sec i))
    >> clear_from sec buffer rounds (i + 1)

-- `ClearCorrectBlockSection`, `ClearWriteSection` with `n` the section's count.
unfoldable pub clear_slots : Section → ℕ → M Disk (Unit {0})
clear_slots sec n = do
  buffer ← lift (serialize_info invalid_info (replicate sec.byte_size 0))
  clear_from sec buffer n 0

-- `ClearCorrectBlockSectionTo`, `ClearWriteSectionTo`.
unfoldable pub clear_slots_to : Section → ℕ → M Disk (Unit {0})
clear_slots_to sec n = if ltb sec.count n then throw invalid_size else clear_slots sec n

-- The loop of `FindFirstAvailableCorrectBlock` and `FindFirstAvailableBufferWrite`.
unfoldable pub find_from : Error → Section → ℕ → ℕ → M Disk ℕ
find_from none_left sec zero i = throw none_left
find_from none_left sec (suc rounds) i =
    let next = find_from none_left sec rounds (i + 1) in
    read_slot sec i >>= λ info. if is_valid info then next else pure i

unfoldable pub find_first : Error → Section → M Disk ℕ
find_first none_left sec = find_from none_left sec sec.count 0
