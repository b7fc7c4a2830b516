-- ===== src/Examples/Buffers.antt =====
-- Theorems on the client's buffer, with the rings of Examples/Rings.
use bdr.Common.{◌≡◌, ◌==◌, refl, arith, true, false, List, [], ◌∷◌, ◌++◌, some, ok, map}
use bdr.Networking.{Extent, create_info_packet, cmd_start_hashing, info_hashing_completed}
use bdr.Device.{Disk, sound}
use bdr.Device.Overlays.{apply_all}
use bdr.Pause.{new_pause_controller, pause, resume, is_paused}
use bdr.Benchmark.{new_benchmark_stats, record_buffer_overflow}
use bdr.Client.{Client, TargetInfo, Attempt, fails, writing, hashing}
use bdr.Client.Buffer.{monitor_changes, process_buffer, write_packet, processed, rescanned}
use bdr.Client.Endless.{Attempts, first_decisive, send_loop, Comes, send_loop-Comes}
use bdr.Client.Window.{extent_of}
use bdr.Client.Process.{IsSteady, AllCarry}
use bdr.Client.Monitor.{IsReady, Passes, monitor_changes-Passes}
use bdr.Client.Rescan.{Rescans, monitor_changes-Rescans, process_buffer-Rescans}
use bdr.Client.Completion.{process_buffer-Completes}
use bdr.Client.Delivery.{live_replication}
use bdr.Live.{handle_write_packets}
use bdr.Examples.{replica, server}
use bdr.Examples.Rings.{
  put_three, three_IsPossible, waiting_ring, waiting_ring-Refines, full_ring, full_ring-Refines,
  one_write,
}

abbrev target : TargetInfo
target = record { page_size = 4; write_info_size = 12; buffer_byte_size = 36; bitmap_byte_size = 0 }

-- Both the link and the ioctl fail at first, and the kernel puts a write before the client looks.
abbrev trouble : Attempt
trouble = fails (record { terminates = false; reconnects = false })

abbrev pub client : Client
client = record {
  target_info = target;
  under = sound [];
  ring = waiting_ring;
  kernel = (put_three ∷ []) ∷ [];
  state = writing;
  monitor = new_pause_controller;
  terminated = false;
  stats = new_benchmark_stats true;
  sent = [];
  link = trouble ∷ [];
  ioctls = trouble ∷ trouble ∷ [];
  dials = [];
}

abbrev full_client : Client
full_client = record client { ring = full_ring }

client-IsReady : IsReady client
client-IsReady = record {
  link = ((refl, refl), tt);
  ioctls = ((refl, refl), ((refl, refl), tt));
  puts = ((three_IsPossible, tt), tt);
}

client-IsSteady : IsSteady 3 true client
unfolding is_paused new_pause_controller
client-IsSteady = record {
  slot = refl;
  small = omega arith;
  up = refl;
  connected = refl;
  unpaused = refl;
}

monitor_example : Passes client 3 (one_write ∷ []) processed (monitor_changes client)
monitor_example =
    monitor_changes-Passes client 3 [] (one_write ∷ []) client-IsSteady client-IsReady
      waiting_ring-Refines (omega arith)

rescan_example :
    (c' : Client) × (monitor_changes full_client ≡ some (ok rescanned, c'))
    × Rescans (record full_client { stats = record_buffer_overflow full_client.stats }) 3 c'
rescan_example =
    monitor_changes-Rescans full_client 3 [] refl ((refl, refl), tt)
      ((refl, refl), ((refl, refl), tt)) full_ring-Refines

again_example :
    (c' : Client) × (process_buffer full_client ≡ some (ok tt, c')) × Rescans full_client 3 c'
again_example =
    process_buffer-Rescans full_client 3 [] refl ((refl, refl), tt)
      ((refl, refl), ((refl, refl), tt)) full_ring-Refines

-- The monitor waits while the scan goes on.
abbrev pub paused_client : Client
paused_client = record client { state = hashing; monitor = pause new_pause_controller }

pub paused_client-IsReady : IsReady paused_client
paused_client-IsReady = record {
  link = ((refl, refl), tt);
  ioctls = ((refl, refl), ((refl, refl), tt));
  puts = ((three_IsPossible, tt), tt);
}

pub paused_client-IsSteady : IsSteady 3 false paused_client
unfolding is_paused pause
paused_client-IsSteady = record {
  slot = refl;
  small = omega arith;
  up = refl;
  connected = refl;
  unpaused = refl;
}

completion_example :
    (c' : Client) × (xs : List Extent) × (process_buffer paused_client ≡ some (ok tt, c'))
    × (c'.sent
        ≡ (paused_client.sent ++ map write_packet xs)
          ++ create_info_packet info_hashing_completed ∷ [])
    × AllCarry xs (one_write ∷ [])
    × (c'.state ≡ writing)
    × (c'.monitor ≡ resume paused_client.monitor)
completion_example =
    process_buffer-Completes paused_client 3 [] (one_write ∷ []) paused_client-IsSteady
      paused_client-IsReady waiting_ring-Refines

-- Every attempt fails, and the client terminates in the course of the third one.
abbrev dead : Attempts
dead i = fails (record { terminates = i == 2; reconnects = false })

loop_example :
    Comes
      (first_decisive 5 dead)
      (create_info_packet cmd_start_hashing)
      client.sent
      (send_loop 5 dead (create_info_packet cmd_start_hashing) client)
loop_example = send_loop-Comes 5 dead (create_info_packet cmd_start_hashing) client refl

-- The replica fails once, in the middle of the write.
live_example :
    (c' : Client) × (xs : List Extent) × (d' : Disk) × (monitor_changes client
      ≡ some (ok processed, c'))
    × (c'.sent ≡ client.sent ++ map write_packet xs)
    × (handle_write_packets 2
          (map write_packet xs)
          (record server { target = record { content = replica; plan = some 1 ∷ [] } })
        ≡ some (ok tt, record server { target = d' }))
    × (d'.content ≡ apply_all replica (map extent_of (one_write ∷ [])))
live_example =
    live_replication client 3 [] (one_write ∷ []) 2 server replica (some 1 ∷ []) client-IsSteady
      client-IsReady waiting_ring-Refines (omega arith) refl (omega arith) (omega arith)
      (omega arith, tt)
