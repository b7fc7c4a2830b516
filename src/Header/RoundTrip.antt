-- ===== src/Header/RoundTrip.antt =====
-- `WriteHeader` and then `ReadHeader`, of user/journal/journal.go.
use bdr.Common.{ℕ, ◌^◌, ◌≤◌, ◌<◌, ◌≡◌, refl, arith, List, length, slice, overlay, ok}
use bdr.Common.{from_be-be_u64, slice-overlay, length-overlay, ◌∙◌, ap}
use bdr.Device.{sound}
use bdr.Device.Faults.{write_at-sound, read_full-sound, sync-sound}
use bdr.Header.{Header, header_bytes, parse_header, write_header, read_header}

-- Every field is a uint64.
pub record IsU64 (h : Header) : Type 0 where
  pub magic : h.magic < 2 ^ 64
  pub buf_write_byte_size : h.buf_write_byte_size < 2 ^ 64
  pub buf_writes_count : h.buf_writes_count < 2 ^ 64
  pub buf_writes_start_offset : h.buf_writes_start_offset < 2 ^ 64
  pub corr_block_byte_size : h.corr_block_byte_size < 2 ^ 64
  pub corr_blocks_count : h.corr_blocks_count < 2 ^ 64
  pub corr_blocks_start_offset : h.corr_blocks_start_offset < 2 ^ 64
  pub flags : h.flags < 2 ^ 64

pub length-header_bytes : (h : Header) → length (header_bytes h) ≡ 64
unfolding header_bytes
length-header_bytes h = refl

-- The eight fields survive the way through their 64 bytes, if each is a uint64.
pub parse_header-header_bytes : (h : Header) → IsU64 h → parse_header (header_bytes h) ≡ h
unfolding parse_header header_bytes
parse_header-header_bytes h u = λ i. record {
  magic = from_be-be_u64 h.magic u.magic i;
  buf_write_byte_size = from_be-be_u64 h.buf_write_byte_size u.buf_write_byte_size i;
  buf_writes_count = from_be-be_u64 h.buf_writes_count u.buf_writes_count i;
  buf_writes_start_offset = from_be-be_u64 h.buf_writes_start_offset u.buf_writes_start_offset i;
  corr_block_byte_size = from_be-be_u64 h.corr_block_byte_size u.corr_block_byte_size i;
  corr_blocks_count = from_be-be_u64 h.corr_blocks_count u.corr_blocks_count i;
  corr_blocks_start_offset = from_be-be_u64 h.corr_blocks_start_offset u.corr_blocks_start_offset i;
  flags = from_be-be_u64 h.flags u.flags i;
}

pub write_header-sound :
    (h : Header) (c : List ℕ)
    → 64 ≤ length c
    → length c < 2 ^ 63
    → write_header h (sound c) ≡ (ok tt, sound (overlay c 0 (header_bytes h)))
unfolding write_header
write_header-sound h c fits small = ground (
  arith,
  length-header_bytes h,
  write_at-sound (header_bytes h) 0 c,
  sync-sound (overlay c 0 (header_bytes h)),
)

pub read_header-sound :
    (c : List ℕ)
    → 64 ≤ length c
    → length c < 2 ^ 63
    → read_header (sound c) ≡ (ok (parse_header (slice 0 64 c)), sound c)
unfolding read_header
read_header-sound c fits small = ground (arith, read_full-sound 64 0 c)

-- On a sound device of at least 64 bytes, `ReadHeader` finds the header that `WriteHeader` put there,
-- if each of its fields is a uint64.
pub read_header-write_header :
    (h : Header) (c : List ℕ)
    → IsU64 h
    → 64 ≤ length c
    → length c < 2 ^ 63
    → let r = write_header h (sound c) in (r.0 ≡ ok tt) × (read_header r.1 ≡ (ok h, r.1))
read_header-write_header h c u fits small =
    let c' = overlay c 0 (header_bytes h) in
    let n : length c' ≡ length c = length-overlay c 0 (header_bytes h) in
    let s : slice 0 64 c' ≡ header_bytes h =
      rw (length-header_bytes h) at
        (slice-overlay c 0 (header_bytes h) (omega (arith, length-header_bytes h))) in
    rw (write_header-sound h c fits small) (
      refl,
      read_header-sound c' (rw n fits) (rw n small)
          ∙ ap (λ x. (ok x, sound c')) (ap parse_header s ∙ parse_header-header_bytes h u),
    )
