-- ===== src/Ring/Window.antt =====
-- The slots of the ring of kern/ring-buffer.c: what is written to one, and a run of them that wraps
-- around the end of the buffer.
use bdr.Common.{
  ℕ, ◌+◌, ◌^◌, ◌≤◌, ◌<◌, ◌≡◌, ap, ◌∙◌, arith, List, length, slice, overlay, le, from_le,
  from_le-le_u32, slice-overlay, slice-overlay_before, slice-overlay_after, length-overlay, inl,
  inr, ◌⊎◌,
}
use bdr.Ring.{slot_size, store}

-- What the kernel records of one write.
pub record Write : Type 0 where
  pub sector : ℕ
  pub bytes : List ℕ

-- The write stands in the slot that begins at byte `p`.
pub record IsAt (buffer : List ℕ) (p : ℕ) (w : Write) : Type 0 where
  pub sector : from_le (slice p 4 buffer) ≡ w.sector
  pub size : from_le (slice (p + 4) 4 buffer) ≡ length w.bytes
  pub bytes : slice (p + 8) (length w.bytes) buffer ≡ w.bytes

-- The write has a sector of 32 bits, and at most a page of bytes.
pub record IsSmall (page_size : ℕ) (w : Write) : Type 0 where
  pub sector : w.sector < 2 ^ 32
  pub bytes : length w.bytes ≤ page_size

abbrev pub store_write : ℕ → Write → List ℕ → List ℕ
store_write p w buffer = store p w.sector (length w.bytes) w.bytes buffer

pub length-store :
    (p : ℕ) (w : Write) (buffer : List ℕ) → length (store_write p w buffer) ≡ length buffer
length-store p w buffer =
    length-overlay _ (p + 8) w.bytes
    ∙ length-overlay _ (p + 4) (le 4 (length w.bytes))
    ∙ length-overlay buffer p (le 4 w.sector)

slice-store_apart :
    (page_size p : ℕ) (w : Write) (buffer : List ℕ) (q n : ℕ)
    → IsSmall page_size w
    → (p + slot_size page_size ≤ q) ⊎ (q + n ≤ p)
    → slice q n (store_write p w buffer) ≡ slice q n buffer
slice-store_apart page_size p w buffer q n small (inl h) =
    slice-overlay_after _ (p + 8) w.bytes q n (omega (arith, small.bytes))
    ∙ slice-overlay_after _ (p + 4) (le 4 (length w.bytes)) q n (omega arith)
    ∙ slice-overlay_after buffer p (le 4 w.sector) q n (omega arith)
slice-store_apart page_size p w buffer q n small (inr h) =
    slice-overlay_before _ (p + 8) w.bytes q n (omega arith)
    ∙ slice-overlay_before _ (p + 4) (le 4 (length w.bytes)) q n (omega arith)
    ∙ slice-overlay_before buffer p (le 4 w.sector) q n (omega arith)

pub store-IsAt :
    (page_size p : ℕ) (w : Write) (buffer : List ℕ)
    → IsSmall page_size w
    → page_size < 2 ^ 32
    → p + slot_size page_size ≤ length buffer
    → IsAt (store_write p w buffer) p w
store-IsAt page_size p w buffer small word fit = record {
  sector =
      ap from_le (
        slice-overlay_before _ (p + 8) w.bytes p 4 (omega arith)
        ∙ slice-overlay_before _ (p + 4) (le 4 (length w.bytes)) p 4 (omega arith)
        ∙ slice-overlay buffer p (le 4 w.sector) (omega arith))
      ∙ from_le-le_u32 w.sector small.sector;
  size =
      ap from_le (
        slice-overlay_before _ (p + 8) w.bytes (p + 4) 4 (omega arith)
        ∙ slice-overlay (overlay buffer p (le 4 w.sector)) (p + 4) (le 4 (length w.bytes))
            (omega (arith, length-overlay buffer p (le 4 w.sector))))
      ∙ from_le-le_u32 (length w.bytes) (omega (arith, small.bytes));
  bytes = slice-overlay _ (p + 8) w.bytes (
      omega (
        arith,
        small.bytes,
        length-overlay (overlay buffer p (le 4 w.sector)) (p + 4) (le 4 (length w.bytes)),
        length-overlay buffer p (le 4 w.sector),
      ));
}

-- The other slots keep what stands in them.
pub store-IsAt_apart :
    (page_size p : ℕ) (w : Write) (buffer : List ℕ) (q : ℕ) (v : Write)
    → IsSmall page_size w
    → IsSmall page_size v
    → (p + slot_size page_size ≤ q) ⊎ (q + slot_size page_size ≤ p)
    → IsAt buffer q v
    → IsAt (store_write p w buffer) q v
store-IsAt_apart page_size p w buffer q v small fit apart k = record {
  sector = ap from_le (slice-store_apart page_size p w buffer q 4 small (grind arith)) ∙ k.sector;
  size = ap from_le (slice-store_apart page_size p w buffer (q + 4) 4 small (grind arith)) ∙ k.size;
  bytes =
      slice-store_apart page_size p w buffer (q + 8) (length v.bytes) small
        (grind (arith, fit.bytes))
      ∙ k.bytes;
}
