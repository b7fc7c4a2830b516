-- ===== src/Examples.antt =====
-- Small disks and journals, and the theorems applied to them.
use bdr.Common.{ℕ, ◌^◌, ◌≡◌, refl, arith, List, [], ◌∷◌, replicate, length, Option, none, some}
use bdr.Device.{Disk, sound}
use bdr.Networking.{Extent, InitInfo}
use bdr.Header.{Header, set_invalid_flag}
use bdr.Header.RoundTrip.{IsU64}
use bdr.Slot.RoundTrip.{Fits, slot_bytes}
use bdr.Section.{write_section, correct_section}
use bdr.Section.Slots.{at}
use bdr.Journal.{Journal, layout}
use bdr.Journal.Contents.{IsLaidOut, Contains, Contains-block, Contains-write}
use bdr.Journal.Reset.{journal_at, reset_content, reset_content-Contains}
use bdr.Journal.Layout.{AreSizes, layout-IsLaidOut}
use bdr.Server.{Server, State, writing}
use bdr.Replica.Intake.{add_block, add_write}
pub mod Journals
pub mod Servers
pub mod Scans
pub mod Waits
pub mod Sessions
pub mod Rings
pub mod Buffers
pub mod Listeners
pub mod Repairs
pub mod Starts
pub mod Cancelled

-- A device of 128 bytes: the header, two buffer writes of 16 bytes, and two correct blocks of 16.
abbrev pub blank : List ℕ
blank = replicate 128 7

pub sizes : AreSizes (length blank) 32 16 16
sizes = omega arith

abbrev pub fresh : Header
fresh = layout (length blank) 32 16 16

pub fresh-IsLaidOut : IsLaidOut fresh (length blank)
fresh-IsLaidOut = layout-IsLaidOut (length blank) 32 16 16 sizes

-- The same journal after its first reset, then with one correct block, and with a buffer write too.
abbrev pub header : Header
header = set_invalid_flag fresh

abbrev pub empty : List ℕ
empty = reset_content fresh 2 2 blank

pub empty-Contains : Contains header empty [] []
unfolding layout
empty-Contains =
    reset_content-Contains fresh blank 2 2 fresh-IsLaidOut (omega arith) (omega arith)
      (λ j lo hi. absurd (omega arith)) (λ j lo hi. absurd (omega arith))

abbrev pub first_block : Extent
first_block = record { offset = 0; size = 4; bytes = 1 ∷ 2 ∷ 3 ∷ 4 ∷ [] }

abbrev pub first_write : Extent
first_write = record { offset = 2; size = 2; bytes = 8 ∷ 9 ∷ [] }

abbrev pub second_write : Extent
second_write = record { offset = 5; size = 1; bytes = 6 ∷ [] }

pub first_block-Fits : Fits 16 first_block
first_block-Fits = omega arith

pub first_write-Fits : Fits 16 first_write
first_write-Fits = omega arith

pub second_write-Fits : Fits 16 second_write
second_write-Fits = omega arith

abbrev pub with_block : List ℕ
with_block = add_block header empty 0 first_block

pub with_block-Contains : Contains header with_block (first_block ∷ []) []
unfolding set_invalid_flag layout
with_block-Contains =
    Contains-block header empty [] [] first_block empty-Contains (omega arith) first_block-Fits
      (omega arith)

abbrev pub half : List ℕ
half = add_write header with_block 0 first_write

pub half-Contains : Contains header half (first_block ∷ []) (first_write ∷ [])
unfolding set_invalid_flag layout
half-Contains =
    Contains-write header with_block (first_block ∷ []) [] first_write with_block-Contains
      (omega arith) first_write-Fits (omega arith)

-- No room for a third buffer write.
abbrev pub filled : List ℕ
filled = add_write header half 1 second_write

pub filled-Contains : Contains header filled (first_block ∷ []) (first_write ∷ second_write ∷ [])
unfolding set_invalid_flag layout
filled-Contains =
    Contains-write header half (first_block ∷ []) (first_write ∷ []) second_write half-Contains
      (omega arith) second_write-Fits (omega arith)

abbrev pub replica : List ℕ
replica = replicate 8 0

-- Its second write to the device fails behind one byte.
abbrev pub faulty : Disk
faulty = record { content = replica; plan = none ∷ none ∷ some 1 ∷ [] }

abbrev pub server : Server
server = record {
  target = sound replica;
  journal = journal_at header empty 128 0 0;
  state = writing;
  client_info = record { device_size = 8; write_info_size = 4108; buffer_byte_size = 32 };
  sent = [];
  link = [];
}
