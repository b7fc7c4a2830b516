-- ===== src/Journal/Open.antt =====
-- `OpenJournal` on a sound device that holds a journal.
use bdr.Common.{
  ℕ, ◌+◌, ◌<◌, ◌≡◌, refl, ◌∙◌, ap, arith, List, length, ok, err, true, no_write_slot, no_block_slot,
  get_elem?, some,
}
use bdr.Device.{sound, open_file, get_device_size}
use bdr.Networking.{Extent}
use bdr.Header.{Header, read_header, verify_magic, bdr_magic, parse_header}
use bdr.Header.RoundTrip.{read_header-sound, parse_header-header_bytes}
use bdr.Section.{write_section, correct_section}
use bdr.Section.Log.{read_slot-HoldsFrom}
use bdr.Section.Find.{find_first-room, find_first-full}
use bdr.Journal.{open_journal, read_correct_block, read_buffer_write}
use bdr.Journal.Contents.{Contains, header_fits}
use bdr.Journal.Reset.{journal_at}

pub read_header-Contains :
    (h : Header) (c : List ℕ) (bs ws : List Extent)
    → Contains h c bs ws
    → read_header (sound c) ≡ (ok h, sound c)
read_header-Contains h c bs ws k =
    read_header-sound c (header_fits h (length c) k.laid_out) k.laid_out.writes.small
    ∙ ap (λ x. (ok x, sound c))
        (ap parse_header k.stored ∙ parse_header-header_bytes h k.laid_out.u64)

magic_refl : (m : ℕ) → m ≡ bdr_magic → verify_magic m ≡ true
magic_refl m e = rw e

-- On a sound device whose journal has room in both sections, `OpenJournal` gives the header and, as
-- the two offsets, the numbers of entries in the sections.
pub open_journal-room :
    (h : Header) (c : List ℕ) (bs ws : List Extent)
    → Contains h c bs ws
    → length bs < h.corr_blocks_count
    → length ws < h.buf_writes_count
    → open_journal (sound c) ≡ (ok (journal_at h c (length c) (length ws) (length bs)), sound c)
unfolding open_journal open_file get_device_size
open_journal-room h c bs ws k hb hw =
    rw
      (
        read_header-Contains h c bs ws k,
        magic_refl h.magic k.laid_out.magic,
        find_first-room no_write_slot (write_section h) c ws k.writes hw,
        find_first-room no_block_slot (correct_section h) c bs k.blocks hb,
      )
      refl

-- On a sound device whose journal has a full write section, `OpenJournal` fails.
pub open_journal-full :
    (h : Header) (c : List ℕ) (bs ws : List Extent)
    → Contains h c bs ws
    → length ws ≡ h.buf_writes_count
    → open_journal (sound c) ≡ (err no_write_slot, sound c)
unfolding open_journal open_file get_device_size
open_journal-full h c bs ws k hw =
    rw
      (
        read_header-Contains h c bs ws k,
        magic_refl h.magic k.laid_out.magic,
        find_first-full no_write_slot (write_section h) c ws k.writes hw,
      )
      refl

pub open_journal-full_blocks :
    (h : Header) (c : List ℕ) (bs ws : List Extent)
    → Contains h c bs ws
    → length ws < h.buf_writes_count
    → length bs ≡ h.corr_blocks_count
    → open_journal (sound c) ≡ (err no_block_slot, sound c)
unfolding open_journal open_file get_device_size
open_journal-full_blocks h c bs ws k hw hb =
    rw
      (
        read_header-Contains h c bs ws k,
        magic_refl h.magic k.laid_out.magic,
        find_first-room no_write_slot (write_section h) c ws k.writes hw,
        find_first-full no_block_slot (correct_section h) c bs k.blocks hb,
      )
      refl

-- On a sound device, `ReadCorrectBlock(i)` gives the `i`-th of the blocks that the journal contains.
read_correct_block-Contains :
    (h : Header) (c : List ℕ) (n w k i : ℕ) (bs ws : List Extent) (x : Extent)
    → Contains h c bs ws
    → get_elem? bs i ≡ some x
    → read_correct_block i (journal_at h c n w k) ≡ (ok x, journal_at h c n w k)
unfolding read_correct_block
read_correct_block-Contains h c n w k i bs ws x holds g =
    let i0 : 0 + i ≡ i = omega arith in
    rw
      (rw i0 at (
        read_slot-HoldsFrom (correct_section h) c bs 0 i x holds.blocks.placed holds.blocks.holds
          (omega (arith, holds.blocks)) g))
      refl

-- On a sound device, `ReadBufferWrite(i)` gives the `i`-th of the writes that the journal contains.
read_buffer_write-Contains :
    (h : Header) (c : List ℕ) (n w k i : ℕ) (bs ws : List Extent) (x : Extent)
    → Contains h c bs ws
    → get_elem? ws i ≡ some x
    → read_buffer_write i (journal_at h c n w k) ≡ (ok x, journal_at h c n w k)
unfolding read_buffer_write
read_buffer_write-Contains h c n w k i bs ws x holds g =
    let i0 : 0 + i ≡ i = omega arith in
    rw
      (rw i0 at (
        read_slot-HoldsFrom (write_section h) c ws 0 i x holds.writes.placed holds.writes.holds
          (omega (arith, holds.writes)) g))
      refl
