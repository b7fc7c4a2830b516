-- ===== src/Journal/Contents.antt =====
-- What a journal holds: its header on the disk, and the logs of its two sections.
use bdr.Common.{
  ℕ, ◌+◌, ◌*◌, ◌≤◌, ◌<◌, ◌≡◌, ◌≢◌, ◌∙◌, arith, List, [], ◌∷◌, ◌++◌, length, slice, overlay, inl,
  inr, slice-overlay, slice-overlay_before, length-overlay,
}
use bdr.Networking.{Extent}
use bdr.Header.{Header, header_bytes, bdr_magic}
use bdr.Header.RoundTrip.{IsU64, length-header_bytes}
use bdr.Slot.RoundTrip.{Fits, slot_bytes, length-slot_bytes}
use bdr.Section.{write_section, correct_section}
use bdr.Section.Slots.{IsPlaced, at, at-le}
use bdr.Section.Log.{IsLog, IsLog-append, IsLog-overlay}

-- Header first, then the buffer writes, then the correct blocks, all on the device.
pub record IsLaidOut (h : Header) (n : ℕ) : Type 0 where
  pub u64 : IsU64 h
  pub magic : h.magic ≡ bdr_magic
  pub behind_header : 64 ≤ h.buf_writes_start_offset
  pub behind_writes :
      h.buf_writes_start_offset + h.buf_writes_count * h.buf_write_byte_size
      ≤ h.corr_blocks_start_offset
  pub writes : IsPlaced (write_section h) n
  pub corrects : IsPlaced (correct_section h) n

-- The device has this header, and exactly these entries.
pub record Contains (h : Header) (c : List ℕ) (bs ws : List Extent) : Type 0 where
  pub laid_out : IsLaidOut h (length c)
  pub stored : slice 0 64 c ≡ header_bytes h
  pub blocks : IsLog (correct_section h) c bs
  pub writes : IsLog (write_section h) c ws

pub header_fits : (h : Header) (n : ℕ) → IsLaidOut h n → 64 ≤ n
header_fits h n l = omega (arith, l.behind_header, l.writes.within)

-- Another header of the same layout, written over the one that stands there.
pub Contains-header :
    (h h' : Header) (c : List ℕ) (bs ws : List Extent)
    → Contains h c bs ws
    → IsLaidOut h' (length c)
    → correct_section h' ≡ correct_section h
    → write_section h' ≡ write_section h
    → Contains h' (overlay c 0 (header_bytes h')) bs ws
Contains-header h h' c bs ws k l ec ew =
    let hb = header_bytes h' in
    let len : length hb ≡ 64 = length-header_bytes h' in
    record {
      laid_out = rw (length-overlay c 0 hb) l;
      stored = rw len at (slice-overlay c 0 hb (omega (arith, header_fits h' (length c) l)));
      blocks =
          rw ec (
            IsLog-overlay (correct_section h) c 0 hb bs (inl (omega (arith, k.laid_out))) k.blocks);
      writes =
          rw ew
            (IsLog-overlay (write_section h) c 0 hb ws (inl (omega (arith, k.laid_out))) k.writes);
    }

-- One more correct block, and one more buffer write.
pub Contains-block :
    (h : Header) (c : List ℕ) (bs ws : List Extent) (x : Extent)
    → Contains h c bs ws
    → length bs < h.corr_blocks_count
    → Fits h.corr_block_byte_size x
    → x.size ≢ 0
    → Contains h
        (overlay c (at (correct_section h) (length bs)) (slot_bytes h.corr_block_byte_size x))
        (bs ++ x ∷ [])
        ws
Contains-block h c bs ws x k room f v =
    let sec = correct_section h in
    let w = slot_bytes h.corr_block_byte_size x in
    record {
      laid_out = rw (length-overlay c (at sec (length bs)) w) k.laid_out;
      stored =
          slice-overlay_before c (at sec (length bs)) w 0 64 (omega (arith, k.laid_out)) ∙ k.stored;
      blocks = IsLog-append sec c bs x k.blocks room f v;
      writes =
          IsLog-overlay (write_section h) c (at sec (length bs)) w ws
            (inr (omega (arith, k.laid_out))) k.writes;
    }

pub Contains-write :
    (h : Header) (c : List ℕ) (bs ws : List Extent) (x : Extent)
    → Contains h c bs ws
    → length ws < h.buf_writes_count
    → Fits h.buf_write_byte_size x
    → x.size ≢ 0
    → Contains h
        (overlay c (at (write_section h) (length ws)) (slot_bytes h.buf_write_byte_size x))
        bs
        (ws ++ x ∷ [])
Contains-write h c bs ws x k room f v =
    let sec = write_section h in
    let w = slot_bytes h.buf_write_byte_size x in
    let len : length w ≡ h.buf_write_byte_size = length-slot_bytes h.buf_write_byte_size x in
    let end =
      at-le sec (sec.start + sec.count * sec.byte_size) (length ws)
        (record {
          within = omega arith;
          small = omega (arith, k.laid_out, k.laid_out.corrects);
          room = k.laid_out.writes.room;
        })
        room in
    record {
      laid_out = rw (length-overlay c (at sec (length ws)) w) k.laid_out;
      stored =
          slice-overlay_before c (at sec (length ws)) w 0 64 (omega (arith, k.laid_out)) ∙ k.stored;
      blocks =
          IsLog-overlay (correct_section h) c (at sec (length ws)) w bs
            (inl (omega (arith, k.laid_out))) k.blocks;
      writes = IsLog-append sec c ws x k.writes room f v;
    }
