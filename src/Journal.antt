-- ===== src/Journal.antt =====
-- user/journal/journal.go: the journal on its own device, `Journal` and its methods.
pub mod Contents
pub mod Reset
pub mod Layout
pub mod Open
use bdr.Common.{ℕ, ◌+◌, ◌-◌, ◌/◌, ◌^◌, u64, ltb, ◌==◌, ◌||◌, Bool, if◌then◌else◌, M, pure}
use bdr.Common.{throw, get_state, ◌>>=◌, ◌>>◌, invalid_magic, invalid_size, no_write_slot}
use bdr.Common.{no_block_slot, ok}
use bdr.Networking.{Extent}
use bdr.Device.{Disk, open_file, get_device_size}
use bdr.Header.{Header, set_valid_flag, set_invalid_flag, header_is_valid, header_equals}
use bdr.Header.{write_header, read_header, verify_magic, bdr_magic, get_header_byte_size}
use bdr.Section.{write_section, correct_section, write_slot, read_slot, clear_slots}
use bdr.Section.{clear_slots_to, find_first}

pub record Journal : Type 0 where
  pub disk : Disk
  pub disk_size : ℕ
  pub write_offset : ℕ
  pub correct_offset : ℕ
  pub header : Header

-- A call on `j.disk`.
abbrev pub on_disk : {A : Type 0} → (Header → M Disk A) → M Journal A
on_disk m j = let (o, d) = m j.header j.disk in (o, record j { disk = d })

-- An assignment to the journal's fields.
abbrev pub modify : (Journal → Journal) → M Journal (Unit {0})
modify f j = (ok tt, f j)

unfoldable pub is_valid_journal : Journal → Bool
unfolding header_is_valid
is_valid_journal j = header_is_valid j.header

unfoldable pub invalidate : M Journal (Unit {0})
invalidate = do modify (λ j. record j { header = set_invalid_flag j.header }); on_disk write_header

unfoldable pub validate : M Journal (Unit {0})
validate = do modify (λ j. record j { header = set_valid_flag j.header }); on_disk write_header

unfoldable pub write_correct_block : ℕ → Extent → M Journal (Unit {0})
write_correct_block index block = on_disk (λ h. write_slot (correct_section h) index block)

unfoldable pub read_correct_block : ℕ → M Journal Extent
read_correct_block index = on_disk (λ h. read_slot (correct_section h) index)

unfoldable pub write_buffer_write : ℕ → Extent → M Journal (Unit {0})
write_buffer_write index write = on_disk (λ h. write_slot (write_section h) index write)

unfoldable pub read_buffer_write : ℕ → M Journal Extent
read_buffer_write index = on_disk (λ h. read_slot (write_section h) index)

unfoldable pub clear_correct_block_section : M Journal (Unit {0})
clear_correct_block_section = on_disk (λ h. clear_slots (correct_section h) h.corr_blocks_count)

unfoldable pub clear_write_section : M Journal (Unit {0})
clear_write_section = on_disk (λ h. clear_slots (write_section h) h.buf_writes_count)

unfoldable pub reset_offsets : M Journal (Unit {0})
reset_offsets = modify (λ j. record j { write_offset = 0; correct_offset = 0 })

unfoldable pub reset_to : ℕ → ℕ → M Journal (Unit {0})
unfolding reset_offsets
reset_to buffer_write_off correct_block_off = do
  invalidate
  on_disk (λ h. clear_slots_to (write_section h) buffer_write_off)
  on_disk (λ h. clear_slots_to (correct_section h) correct_block_off)
  reset_offsets

unfoldable pub reset : M Journal (Unit {0})
unfolding reset_offsets
reset = do invalidate; clear_write_section; clear_correct_block_section; reset_offsets

unfoldable pub init : M Journal (Unit {0})
init = do clear_write_section; clear_correct_block_section; invalidate

unfoldable pub init_without_clearing : M Journal (Unit {0})
init_without_clearing = invalidate

-- `OpenJournal`: the file at the path is the device, and `diskSize` what the kernel says of it.
unfoldable pub open_journal : M Disk Journal
open_journal = do
  open_file
  h ← read_header
  if verify_magic h.magic then pure tt else throw invalid_magic
  size ← get_device_size
  first_write ← find_first no_write_slot (write_section h)
  first_buffer ← find_first no_block_slot (correct_section h)
  d ← get_state
  pure (record {
    disk = d;
    disk_size = size;
    write_offset = first_write;
    correct_offset = first_buffer;
    header = h;
  })

-- `ValidateJournal`: the header is that of the journal given.
unfoldable pub validate_journal : Journal → M Disk (Bool × Journal)
unfolding header_equals
validate_journal journal = do
  found ← open_journal
  pure (header_equals journal.header found.header, found)

-- a - b in uint64.
abbrev pub sub_u64 : ℕ → ℕ → ℕ
sub_u64 a b = u64 (a + 2 ^ 64 - b)

unfoldable pub layout : ℕ → ℕ → ℕ → ℕ → Header
layout disk_size section_buf_writes_size buf_write_byte_size corr_block_byte_size =
    let header_size = get_header_byte_size in
    let section_cor_blocks_size = sub_u64 (sub_u64 disk_size header_size) section_buf_writes_size in
    record {
      magic = bdr_magic;
      buf_write_byte_size = buf_write_byte_size;
      buf_writes_count = section_buf_writes_size / buf_write_byte_size;
      buf_writes_start_offset = header_size;
      corr_block_byte_size = corr_block_byte_size;
      corr_blocks_count = section_cor_blocks_size / corr_block_byte_size;
      corr_blocks_start_offset = u64 (header_size + section_buf_writes_size);
      flags = 0;
    }

-- `NewJournal`: nothing is written yet, and both offsets start at their section's count.
unfoldable pub new_journal : ℕ → ℕ → ℕ → M Disk Journal
unfolding layout
new_journal section_buf_writes_size buf_write_byte_size corr_block_byte_size = do
  open_file
  disk_size ← get_device_size
  if ltb (sub_u64 disk_size get_header_byte_size) section_buf_writes_size
        || section_buf_writes_size == 0
      then throw invalid_size
      else pure tt
  if corr_block_byte_size == 0 || buf_write_byte_size == 0 then throw invalid_size else pure tt
  d ← get_state
  let h = layout disk_size section_buf_writes_size buf_write_byte_size corr_block_byte_size
  pure (record {
    disk = d;
    disk_size = disk_size;
    write_offset = h.buf_writes_count;
    correct_offset = h.corr_blocks_count;
    header = h;
  })
