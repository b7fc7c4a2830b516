-- ===== src/Journal/Reset.antt =====
-- Validating, invalidating and resetting a journal on a sound device.
use bdr.Common.{
  false, ℕ, ◌≤◌, ◌≡◌, refl, ◌∙◌, arith, List, [], length, overlay, ok, inl, inr, slice-overlay,
  slice-overlay_after, length-overlay,
}
use bdr.Device.{sound}
use bdr.Networking.{Extent}
use bdr.Header.{Header, header_bytes, set_valid_flag, set_invalid_flag}
use bdr.Header.RoundTrip.{length-header_bytes, write_header-sound}
use bdr.Header.Flags.{
  set_valid_flag-IsU64, set_invalid_flag-IsU64, header_is_valid-set_invalid_flag,
}
use bdr.Section.{write_section, correct_section}
use bdr.Section.Slots.{at, rows}
use bdr.Section.Log.{IsLog-same, EmptyFrom}
use bdr.Section.Clear.{
  clear_content, length-clear_content, clear_slots_to-sound, slice-clear_content,
  IsLog-clear_content,
}
use bdr.Journal.{Journal, validate, invalidate, reset_to, is_valid_journal}
use bdr.Journal.Contents.{IsLaidOut, Contains, Contains-header, header_fits}

-- A journal on a device without faults.
abbrev pub journal_at : Header → List ℕ → ℕ → ℕ → ℕ → Journal
journal_at h c n w k = record {
  disk = sound c;
  disk_size = n;
  write_offset = w;
  correct_offset = k;
  header = h;
}

pub set_valid_flag-IsLaidOut : (h : Header) (n : ℕ) → IsLaidOut h n → IsLaidOut (set_valid_flag h) n
unfolding set_valid_flag
set_valid_flag-IsLaidOut h n l = record {
  u64 = unfold set_valid_flag in set_valid_flag-IsU64 h l.u64;
  magic = l.magic;
  behind_header = l.behind_header;
  behind_writes = l.behind_writes;
  writes = l.writes;
  corrects = l.corrects;
}

pub set_invalid_flag-IsLaidOut :
    (h : Header) (n : ℕ) → IsLaidOut h n → IsLaidOut (set_invalid_flag h) n
unfolding set_invalid_flag
set_invalid_flag-IsLaidOut h n l = record {
  u64 = set_invalid_flag-IsU64 h l.u64;
  magic = l.magic;
  behind_header = l.behind_header;
  behind_writes = l.behind_writes;
  writes = l.writes;
  corrects = l.corrects;
}

abbrev pub with_header : Header → List ℕ → List ℕ
with_header h c = overlay c 0 (header_bytes h)

pub validate_sound :
    (h : Header) (c : List ℕ) (n w k : ℕ)
    → IsLaidOut h (length c)
    → validate (journal_at h c n w k)
      ≡ (ok tt, journal_at (set_valid_flag h) (with_header (set_valid_flag h) c) n w k)
unfolding validate
validate_sound h c n w k l =
    rw (write_header-sound (set_valid_flag h) c (header_fits h (length c) l) l.writes.small) refl

pub invalidate_sound :
    (h : Header) (c : List ℕ) (n w k : ℕ)
    → IsLaidOut h (length c)
    → invalidate (journal_at h c n w k)
      ≡ (ok tt, journal_at (set_invalid_flag h) (with_header (set_invalid_flag h) c) n w k)
unfolding invalidate
invalidate_sound h c n w k l =
    rw (write_header-sound (set_invalid_flag h) c (header_fits h (length c) l) l.writes.small) refl

pub Contains-set_valid_flag :
    (h : Header) (c : List ℕ) (bs ws : List Extent)
    → Contains h c bs ws
    → Contains (set_valid_flag h) (with_header (set_valid_flag h) c) bs ws
unfolding set_valid_flag
Contains-set_valid_flag h c bs ws k =
    Contains-header h (set_valid_flag h) c bs ws k
      (set_valid_flag-IsLaidOut h (length c) k.laid_out) refl refl

pub Contains-set_invalid_flag :
    (h : Header) (c : List ℕ) (bs ws : List Extent)
    → Contains h c bs ws
    → Contains (set_invalid_flag h) (with_header (set_invalid_flag h) c) bs ws
unfolding set_invalid_flag
Contains-set_invalid_flag h c bs ws k =
    Contains-header h (set_invalid_flag h) c bs ws k
      (set_invalid_flag-IsLaidOut h (length c) k.laid_out) refl refl

-- The device after `ResetTo`.
abbrev pub reset_content : Header → ℕ → ℕ → List ℕ → List ℕ
reset_content h w k c =
    clear_content (correct_section h) k
      (clear_content (write_section h) w (with_header (set_invalid_flag h) c))

pub reset_content-Contains :
    (h : Header) (c : List ℕ) (w k : ℕ)
    → IsLaidOut h (length c)
    → w ≤ h.buf_writes_count
    → k ≤ h.corr_blocks_count
    → EmptyFrom (write_section h) c w
    → EmptyFrom (correct_section h) c k
    → Contains (set_invalid_flag h) (reset_content h w k c) [] []
unfolding set_invalid_flag
reset_content-Contains h c w k l hw hk ew ek =
    let ws = write_section h in
    let cs = correct_section h in
    let hb = header_bytes (set_invalid_flag h) in
    let c1 = overlay c 0 hb in
    let c2 = clear_content ws w c1 in
    let c3 = clear_content cs k c2 in
    let len : length hb ≡ 64 = length-header_bytes (set_invalid_flag h) in
    let n1 : length c1 ≡ length c = length-overlay c 0 hb in
    let n2 : length c2 ≡ length c = length-clear_content ws w c1 ∙ n1 in
    let n3 : length c3 ≡ length c2 = length-clear_content cs k c2 in
    let log2 = IsLog-clear_content ws w c1 (rw n1 l.writes) hw (λ j hj hc.
      slice-overlay_after c 0 hb (at ws j) ws.byte_size (omega (arith, l)) ∙ ew j hj hc) in
    record {
      laid_out = rw (n3, n2) (set_invalid_flag-IsLaidOut h (length c) l);
      stored =
          slice-clear_content cs k c2 0 64 hk (inl (omega (arith, l)))
          ∙ slice-clear_content ws w c1 0 64 hw (inl (omega (arith, l)))
          ∙ rw len at (slice-overlay c 0 hb (omega (arith, header_fits h (length c) l)));
      blocks = IsLog-clear_content cs k c2 (rw n2 l.corrects) hk (λ j hj hc.
          slice-clear_content ws w c1 (at cs j) cs.byte_size hw (inr (omega (arith, l)))
          ∙ slice-overlay_after c 0 hb (at cs j) cs.byte_size (omega (arith, l))
          ∙ ek j hj hc);
      writes =
          IsLog-same ws c2 c3 [] n3
            (λ j hj.
              slice-clear_content cs k c2 (at ws j) ws.byte_size hk
                (inl (omega (arith, l, rows j ws.count ws.byte_size hj))))
            log2;
    }

-- `ResetTo` on a sound device.
pub reset_to_sound :
    (h : Header) (c : List ℕ) (n w k w0 k0 : ℕ)
    → IsLaidOut h (length c)
    → w ≤ h.buf_writes_count
    → k ≤ h.corr_blocks_count
    → reset_to w k (journal_at h c n w0 k0)
      ≡ (ok tt, journal_at (set_invalid_flag h) (reset_content h w k c) n 0 0)
unfolding reset_to set_invalid_flag
reset_to_sound h c n w k w0 k0 l hw hk =
    let c1 = with_header (set_invalid_flag h) c in
    let c2 = clear_content (write_section h) w c1 in
    let n1 : length c1 ≡ length c = length-overlay c 0 (header_bytes (set_invalid_flag h)) in
    let n2 : length c2 ≡ length c = length-clear_content (write_section h) w c1 ∙ n1 in
    let s1 = clear_slots_to-sound (write_section h) w c1 (rw n1 l.writes) hw in
    let s2 = clear_slots_to-sound (correct_section h) k c2 (rw n2 l.corrects) hk in
    rw (invalidate_sound h c n w0 k0 l, s1, s2) refl

-- `ResetTo` with the journal's own offsets, on a sound device: the journal is then not valid and
-- both of its sections are empty, whatever they held.
reset_to-Contains :
    (h : Header) (c : List ℕ) (n : ℕ) (bs ws : List Extent)
    → Contains h c bs ws
    → let r = reset_to (length ws) (length bs) (journal_at h c n (length ws) (length bs)) in
      (r.0 ≡ ok tt)
      × (is_valid_journal r.1 ≡ false)
      × Contains r.1.header r.1.disk.content [] []
      × (r.1.write_offset ≡ 0)
      × (r.1.correct_offset ≡ 0)
unfolding is_valid_journal
reset_to-Contains h c n bs ws k =
    let hw : length ws ≤ h.buf_writes_count = k.writes.capped in
    let hk : length bs ≤ h.corr_blocks_count = k.blocks.capped in
    rw (reset_to_sound h c n (length ws) (length bs) (length ws) (length bs) k.laid_out hw hk) (
      refl,
      header_is_valid-set_invalid_flag h,
      reset_content-Contains h c (length ws) (length bs) k.laid_out hw hk k.writes.empty
          k.blocks.empty,
      refl,
      refl,
    )

-- The same with both offsets at the end of their sections, whatever the device had there.
pub reset_to-fresh :
    (h : Header) (c : List ℕ) (n : ℕ)
    → IsLaidOut h (length c)
    → let r =
        reset_to h.buf_writes_count h.corr_blocks_count
          (journal_at h c n h.buf_writes_count h.corr_blocks_count) in
      (r.0 ≡ ok tt) × Contains r.1.header r.1.disk.content [] []
reset_to-fresh h c n l =
    let hw : h.buf_writes_count ≤ h.buf_writes_count = omega arith in
    let hk : h.corr_blocks_count ≤ h.corr_blocks_count = omega arith in
    rw
      (reset_to_sound h c n h.buf_writes_count h.corr_blocks_count h.buf_writes_count
        h.corr_blocks_count l hw hk)
      (
        refl,
        reset_content-Contains h c h.buf_writes_count h.corr_blocks_count l hw hk
            (λ j lo hi. absurd (omega arith)) (λ j lo hi. absurd (omega arith)),
      )
