-- ===== src/Examples/Listeners.antt =====
-- Theorems on the client's listener, with the client of Examples/Buffers.
use bdr.Common.{◌≡◌, refl, arith, true, false, List, [], ◌∷◌, ◌++◌, some, ok, map}
use bdr.Networking.{Extent, create_info_packet, info_hashing_completed}
use bdr.Pause.{resume}
use bdr.Ring.Queue.{holding, overflown, Refines}
use bdr.Scan.{correct_block_packet}
use bdr.Scan.Complete.{scan}
use bdr.Client.{Client, Dial, refused, unsized, unsent, writing}
use bdr.Client.Buffer.{write_packet}
use bdr.Client.Process.{AllCarry}
use bdr.Client.Rescan.{Restarts}
use bdr.Client.Listen.{Listener, dispatch, reconnect_to_server}
use bdr.Client.Reconnect.{connected_client, reconnect_to_server-Restarts}
use bdr.Client.Hashes.{scanning, dispatch-scan}
use bdr.Examples.Buffers.{client, paused_client, paused_client-IsReady, paused_client-IsSteady}
use bdr.Examples.Rings.{one_write, waiting_ring-Refines, full_ring, full_ring-Refines}
use bdr.Examples.Scans.{source, stale, spelled}

-- The ring has overflown, and the first attempts to reconnect fail.
abbrev lost_client : Client
lost_client = record client {
  ring = full_ring;
  dials =
      refused (record { terminates = false; reconnects = false })
      ∷ unsized (record { terminates = false; reconnects = false })
      ∷ unsent (record { terminates = false; reconnects = false })
      ∷ [];
}

reconnect_example :
    (dials : List Dial) × Restarts
      (connected_client lost_client dials)
      (reconnect_to_server lost_client)
    × Refines 4 3 (reconnect_to_server lost_client).ring (holding [] [])
reconnect_example =
    reconnect_to_server-Restarts lost_client 3 (overflown []) refl refl
      ((refl, refl), ((refl, refl), ((refl, refl), tt))) ((refl, refl), tt)
      ((refl, refl), ((refl, refl), tt)) full_ring-Refines

dispatch_example :
    (l : Listener) × (xs : List Extent) × (dispatch spelled
        (create_info_packet info_hashing_completed)
        (scanning spelled paused_client source stale 2)
      ≡ some (ok true, l))
    × (l.client.sent
        ≡ ((paused_client.sent ++ map correct_block_packet (scan spelled source stale 2))
            ++ map write_packet xs)
          ++ create_info_packet info_hashing_completed ∷ [])
    × AllCarry xs (one_write ∷ [])
    × (l.client.state ≡ writing)
    × (l.client.monitor ≡ resume paused_client.monitor)
    × (l.hash_queue ≡ [])
dispatch_example =
    dispatch-scan spelled source stale 2 paused_client 3 [] (one_write ∷ []) refl (omega arith)
      (omega arith) (omega arith) paused_client-IsSteady paused_client-IsReady waiting_ring-Refines

-- The connection is lost, and then the server refuses the client.
