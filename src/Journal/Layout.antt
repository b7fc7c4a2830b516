-- ===== src/Journal/Layout.antt =====
-- `NewJournal`: the layout that it computes, and when it is sound.
use bdr.Common.{ℕ, ◌-◌, ◌*◌, ◌/◌, ◌^◌, ◌≤◌, ◌<◌, ◌≡◌, arith, length, List, ok, []}
use bdr.Device.{sound, open_file, get_device_size}
use bdr.Journal.{Journal, layout, new_journal, reset_to}
use bdr.Journal.Contents.{IsLaidOut, Contains}
use bdr.Journal.Reset.{journal_at, reset_to-fresh}
use native.Mathlib.Nat.{div-add-mod}

-- What `NewJournal` wants of its arguments on a device of `n` bytes, and what the entries need.
pub record AreSizes (n section write block : ℕ) : Type 0 where
  pub header : 64 ≤ n
  pub small : n < 2 ^ 63
  pub some : 0 < section
  pub fits : section ≤ n - 64
  pub write_room : 12 ≤ write
  pub block_room : 12 ≤ block
  pub write_u64 : write < 2 ^ 64
  pub block_u64 : block < 2 ^ 64

div-mul-le : (a b : ℕ) → a / b * b ≤ a
div-mul-le a b = omega (arith, div-add-mod a b)

-- With a write section that fits behind the header and entries of at least 12 bytes, the header that
-- `NewJournal` computes puts header, buffer writes and correct blocks behind each other and on the
-- device, without a wrap-around of uint64.
pub layout-IsLaidOut :
    (n section write block : ℕ)
    → AreSizes n section write block
    → IsLaidOut (layout n section write block) n
unfolding layout
layout-IsLaidOut n section write block s =
    ground (arith, div-mul-le section write, div-mul-le (n - 64 - section) block)

-- `NewJournal` on a sound device, with arguments that fit it.
pub new_journal-sound :
    (c : List ℕ) (section write block : ℕ)
    → AreSizes (length c) section write block
    → let h = layout (length c) section write block in
      new_journal section write block (sound c)
      ≡ (ok (journal_at h c (length c) h.buf_writes_count h.corr_blocks_count), sound c)
unfolding new_journal open_file get_device_size
new_journal-sound c section write block s = ground arith

-- On a sound device with room for the header and the write section, with entry sizes of at least 12
-- bytes: `NewJournal` succeeds and writes nothing, and `ResetTo` with the offsets that it set makes
-- the device an empty journal, whatever it held.
new_journal-reset_to :
    (c : List ℕ) (section write block : ℕ)
    → AreSizes (length c) section write block
    → (j : Journal) × (new_journal section write block (sound c) ≡ (ok j, sound c))
      × (let r = reset_to j.write_offset j.correct_offset j in
          (r.0 ≡ ok tt) × Contains r.1.header r.1.disk.content [] [])
new_journal-reset_to c section write block s =
    let h = layout (length c) section write block in
    (
      journal_at h c (length c) h.buf_writes_count h.corr_blocks_count,
      new_journal-sound c section write block s,
      reset_to-fresh h c (length c) (layout-IsLaidOut (length c) section write block s),
    )
