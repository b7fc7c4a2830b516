-- ===== src/Header.antt =====
-- user/journal/journal.go: the journal's header, its flags, and its 64 bytes on the disk.
use bdr.Common.{ℕ, ◌+◌, ◌-◌, ◌*◌, ◌/◌, ◌%◌, ◌^◌, bit_and, bit_or, Bool, not, ◌==◌, ◌&&◌}
use bdr.Common.{List, replicate, slice, overlay, be, from_be, u64, M, pure, or_error, io_failure}
use bdr.Common.{◌>>=◌, ◌>>◌}
use bdr.Device.{Disk, write_at, read_full, sync}
pub mod RoundTrip
pub mod Flags

abbrev pub bdr_magic : ℕ
bdr_magic = 0x4244525F52504C43

abbrev pub journal_valid_flag : ℕ
journal_valid_flag = 1

pub record Header : Type 0 where
  pub magic : ℕ
  pub buf_write_byte_size : ℕ
  pub buf_writes_count : ℕ
  pub buf_writes_start_offset : ℕ
  pub corr_block_byte_size : ℕ
  pub corr_blocks_count : ℕ
  pub corr_blocks_start_offset : ℕ
  pub flags : ℕ

abbrev pub get_header_byte_size : ℕ
get_header_byte_size = 64

abbrev pub verify_magic : ℕ → Bool
verify_magic magic = bdr_magic == magic

unfoldable pub get_buf_write_section_byte_size : Header → ℕ
get_buf_write_section_byte_size h = u64 (h.buf_write_byte_size * h.buf_writes_count)

unfoldable pub get_corr_block_section_byte_size : Header → ℕ
get_corr_block_section_byte_size h = u64 (h.corr_block_byte_size * h.corr_blocks_count)

-- `h.flags |= JournalValidFlag`, and `h.flags &= ^uint64(JournalValidFlag)`.
unfoldable pub set_valid_flag : Header → Header
set_valid_flag h = record h { flags = bit_or h.flags journal_valid_flag }

unfoldable pub set_invalid_flag : Header → Header
set_invalid_flag h = record h { flags = bit_and h.flags (2 ^ 64 - 1 - journal_valid_flag) }

unfoldable pub header_is_valid : Header → Bool
header_is_valid h = not (bit_and h.flags journal_valid_flag == 0)

-- The comparison of `Journal.Equals`, which leaves the flags out; both headers are there.
unfoldable pub header_equals : Header → Header → Bool
header_equals a b =
    a.magic == b.magic
    && (a.buf_write_byte_size == b.buf_write_byte_size
        && (a.buf_writes_count == b.buf_writes_count
            && (a.buf_writes_start_offset == b.buf_writes_start_offset
                && (a.corr_block_byte_size == b.corr_block_byte_size
                    && (a.corr_blocks_count == b.corr_blocks_count
                        && a.corr_blocks_start_offset == b.corr_blocks_start_offset)))))

-- `binary.BigEndian.PutUint64(buf[off:off+8], x)`.
abbrev put_uint64 : List ℕ → ℕ → ℕ → List ℕ
put_uint64 buf off x = overlay buf off (be 8 x)

unfoldable pub header_bytes : Header → List ℕ
header_bytes h =
    let b0 = put_uint64 (replicate get_header_byte_size 0) 0 h.magic in
    let b1 = put_uint64 b0 8 h.buf_write_byte_size in
    let b2 = put_uint64 b1 16 h.buf_writes_count in
    let b3 = put_uint64 b2 24 h.buf_writes_start_offset in
    let b4 = put_uint64 b3 32 h.corr_block_byte_size in
    let b5 = put_uint64 b4 40 h.corr_blocks_count in
    let b6 = put_uint64 b5 48 h.corr_blocks_start_offset in put_uint64 b6 56 h.flags

unfoldable pub write_header : Header → M Disk (Unit {0})
write_header h = do or_error io_failure (write_at (header_bytes h) 0); or_error io_failure sync

-- `binary.BigEndian.Uint64(buf[off:off+8])`.
abbrev get_uint64 : List ℕ → ℕ → ℕ
get_uint64 buf off = from_be 0 (slice off 8 buf)

unfoldable pub parse_header : List ℕ → Header
parse_header bs = record {
  magic = get_uint64 bs 0;
  buf_write_byte_size = get_uint64 bs 8;
  buf_writes_count = get_uint64 bs 16;
  buf_writes_start_offset = get_uint64 bs 24;
  corr_block_byte_size = get_uint64 bs 32;
  corr_blocks_count = get_uint64 bs 40;
  corr_blocks_start_offset = get_uint64 bs 48;
  flags = get_uint64 bs 56;
}

unfoldable pub read_header : M Disk Header
read_header = do bs ← or_error io_failure (read_full get_header_byte_size 0); pure (parse_header bs)
