-- ===== src/Ring.antt =====
-- kern/ring-buffer.c: the ring of writes that the kernel module shares with the client, on a
-- little-endian machine. `page_size` is PAGE_SIZE.
use bdr.Common.{
  ℕ, ◌+◌, ◌-◌, ◌*◌, ◌%◌, min, bit_and, bit_or, Bool, true, false, not, if◌then◌else◌, ◌==◌, List,
  Option, none, some, slice, overlay, le, u64,
}
pub mod Window
pub mod Slots
pub mod Queue

-- `struct bdr_buffer_info`, which the client's `BufferInfo` mirrors.
pub record BufferInfo : Type 0 where
  pub offset : ℕ
  pub length : ℕ
  pub last : ℕ
  pub flags : ℕ
  pub max_writes : ℕ

-- `buffer` is the memory that both sides map.
pub record Ring : Type 0 where
  pub info : BufferInfo
  pub buffer : List ℕ

-- `sizeof(struct bdr_write_info)`: a sector and a size of 32 bits each, and a page.
abbrev pub slot_size : ℕ → ℕ
slot_size page_size = 8 + page_size

-- BDR_OVERFLOWN_BUFFER_FLAG, and the client's `CheckOverflow`.
abbrev pub check_overflow : BufferInfo → Bool
check_overflow info = not (bit_and info.flags 1 == 0)

abbrev pub has_new_writes : BufferInfo → Bool
has_new_writes info = not (info.length == 0)

-- `storage` is what `vmalloc` gives; `none` is -EINVAL.
unfoldable pub init : ℕ → List ℕ → Option Ring
init max_writes storage =
    if max_writes == 0
    then none
    else some (record {
      info = record { offset = 0; length = 0; last = 0; flags = 0; max_writes = max_writes };
      buffer = storage;
    })

abbrev pub is_at_last : BufferInfo → Bool
is_at_last info = u64 (info.offset + info.length) % info.max_writes == info.last

abbrev pub flagged : BufferInfo → BufferInfo
flagged info = if is_at_last info then record info { flags = bit_or info.flags 1 } else info

-- `bdr_ring_buffer_update_unsafe`.
unfoldable pub update_unsafe : BufferInfo → BufferInfo
update_unsafe info = flagged (record info { length = u64 (info.length + 1) })

-- The slot at byte `p` is filled: a sector, a size, and the bytes that `memcpy` copies.
abbrev pub store : ℕ → ℕ → ℕ → List ℕ → List ℕ → List ℕ
store p sector size copied buffer =
    overlay (overlay (overlay buffer p (le 4 sector)) (p + 4) (le 4 size)) (p + 8) copied

unfoldable pub fill : ℕ → BufferInfo → ℕ → ℕ → List ℕ → List ℕ → List ℕ
fill page_size info sector size copied buffer =
    let slot = u64 (info.offset + info.length) % info.max_writes in
    store (slot * slot_size page_size) sector size copied buffer

-- `bdr_ring_buffer_put`, of `len` bytes at `page_offset` of a page; false is -ENOSPC. The fields of the
-- ring are updated under its lock, and the slot is filled then.
unfoldable pub put : ℕ → ℕ → ℕ → List ℕ → ℕ → ℕ → Ring → Bool × Ring
put page_size sector size page page_offset len r =
    let info' = update_unsafe r.info in
    let copied = slice page_offset (min len (page_size - page_offset)) page in
    if check_overflow r.info
    then (false, r)
    else if check_overflow info'
    then (false, record r { info = info' })
    else (true, record { info = info'; buffer = fill page_size r.info sector size copied r.buffer })

-- `bdr_buffer_read_routine`: what the reader is told, and the ring after it.
abbrev pub advance : BufferInfo → BufferInfo
advance info = record info {
  last = info.offset;
  offset = u64 (info.offset + info.length) % info.max_writes;
  length = 0;
}

unfoldable pub read_routine : Ring → BufferInfo × Ring
read_routine r = (r.info, if check_overflow r.info then r else record r { info = advance r.info })

-- `bdr_ring_buffer_reset`.
unfoldable pub reset_ring : Ring → Ring
reset_ring r = record {
  info = record { offset = 0; length = 0; last = 0; flags = 0; max_writes = r.info.max_writes };
  buffer = r.buffer;
}
