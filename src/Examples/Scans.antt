-- ===== src/Examples/Scans.antt =====
-- Theorems on scans and on full replication, at disks of three bytes.
use bdr.Common.{ℕ, zero, suc, ◌≡◌, refl, arith, List, [], ◌∷◌, from_be}
use bdr.Device.{sound}
use bdr.Device.Overlays.{apply_all}
use bdr.Networking.{Extent}
use bdr.Scan.{replicate_block, collect}
use bdr.Scan.Complete.{all_offsets, NoCollision, scan, scan_complete}
use mathlib.Core.List.Perm

abbrev pub source : List ℕ
source = 1 ∷ 2 ∷ 3 ∷ []

abbrev pub stale : List ℕ
stale = 1 ∷ 5 ∷ 3 ∷ []

-- The number that the bytes of a block spell, as its hash.
abbrev pub spelled : List ℕ → ℕ
spelled = from_be 0

pub spelled-NoCollision : NoCollision spelled source stale 2
spelled-NoCollision zero e = absurd (omega arith)
spelled-NoCollision (suc zero) e = absurd (omega arith)
spelled-NoCollision (suc (suc zero)) e = refl
spelled-NoCollision (suc (suc (suc o))) e = refl

scan_example : apply_all stale (scan spelled source stale 2) ≡ source
scan_example =
    scan_complete spelled source stale 2 (scan spelled source stale 2) spelled-NoCollision refl
      (omega arith) (omega arith) (omega arith) (Perm.refl (scan spelled source stale 2))

-- The blocks that are read from the source.
abbrev blocks_read : List Extent
blocks_read = (collect (replicate_block 2 3) (all_offsets 3 2) (sound source)).0
