-- ===== src/Examples/Repairs.antt =====
-- The theorem on a whole scan, with the disks of Examples/Scans and the write of Examples/Rings.
use bdr.Common.{ap, length, refl, arith, true, false, [], ◌∷◌, map, ◌>>◌}
use bdr.Device.{sound}
use bdr.Device.Overlays.{apply_all}
use bdr.Networking.{Extent, PacketType, create_info_packet}
use bdr.Header.{set_invalid_flag}
use bdr.Journal.{layout}
use bdr.Scan.Complete.{scan}
use bdr.Session.{dispatch}
use bdr.Session.Feed.{feed, hashing_at}
use bdr.Session.Finish.{Finished}
use bdr.Client.Window.{extent_of}
use bdr.Client.Process.{AllCarry}
use bdr.Client.Repair.{sent_entries, interleaved, HasSlots, scan_repairs}
use bdr.Examples.{header, empty, empty-Contains}
use bdr.Examples.Rings.{one_write}
use bdr.Examples.Scans.{source, stale, spelled, spelled-NoCollision}
use bdr.Examples.Sessions.{scan_value, idle, hashing_server}

-- The write of two bytes, in a packet of a whole page.
abbrev page_packet : Extent
page_packet = record { offset = 0; size = 2; bytes = 2 ∷ 3 ∷ 9 ∷ 9 ∷ [] }

page_packet-AllCarry : AllCarry (page_packet ∷ []) (one_write ∷ [])
page_packet-AllCarry = ((refl, (omega arith, omega arith)), tt)

header-HasSlots : HasSlots header 2 4
unfolding set_invalid_flag layout
header-HasSlots = record {
  block_word = omega arith;
  block_room = omega arith;
  page_word = omega arith;
  page_room = omega arith;
}

repairs_example : Finished (apply_all source (map extent_of (one_write ∷ []))) (
    (feed (
          interleaved
            (false ∷ true ∷ [])
            (sent_entries (scan spelled source stale 2) (page_packet ∷ [])))
        >> dispatch (create_info_packet PacketType.info_hashing_completed))
      (hashing_at idle hashing_server (sound stale) header 128 empty [] [] []))
unfolding set_invalid_flag layout
repairs_example =
    scan_repairs spelled source stale 2 4 (page_packet ∷ []) (one_write ∷ []) (false ∷ true ∷ [])
      idle hashing_server header 128 empty page_packet-AllCarry empty-Contains refl header-HasSlots
      (omega (arith, ap length scan_value)) (omega arith) (omega arith, tt) (omega arith, tt)
      spelled-NoCollision refl (omega arith) (omega arith)
