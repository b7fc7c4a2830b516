-- ===== src/Examples/Journals.antt =====
-- Theorems on headers, entries and journals, at small journals.
use bdr.Common.{◌≡◌, arith, [], ◌∷◌, length, ok}
use bdr.Device.{sound}
use bdr.Header.{set_invalid_flag, write_header, read_header}
use bdr.Header.RoundTrip.{IsU64, read_header-write_header}
use bdr.Slot.RoundTrip.{}
use bdr.Journal.{layout, open_journal}
use bdr.Journal.Contents.{IsLaidOut}
use bdr.Journal.Reset.{journal_at}
use bdr.Journal.Layout.{layout-IsLaidOut}
use bdr.Journal.Open.{open_journal-room}
use bdr.Examples.{
  blank, sizes, fresh, fresh-IsLaidOut, header, half, half-Contains, first_block, first_write,
}

fresh-IsU64 : IsU64 fresh
fresh-IsU64 = fresh-IsLaidOut.u64

read_header-write_header_example :
    let r = write_header fresh (sound blank) in (r.0 ≡ ok tt) × (read_header r.1 ≡ (ok fresh, r.1))
read_header-write_header_example =
    read_header-write_header fresh blank fresh-IsU64 (omega arith) (omega arith)

layout_example : IsLaidOut (layout 128 32 16 16) 128
layout_example = layout-IsLaidOut 128 32 16 16 sizes

open_example :
    open_journal (sound half) ≡ (ok (journal_at header half (length half) 1 1), sound half)
unfolding set_invalid_flag layout
open_example =
    open_journal-room header half (first_block ∷ []) (first_write ∷ []) half-Contains (omega arith)
      (omega arith)
