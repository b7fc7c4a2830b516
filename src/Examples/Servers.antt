-- ===== src/Examples/Servers.antt =====
-- Theorems on the server's journal and replica, at a replica of eight bytes.
use bdr.Common.{ℕ, ◌≡◌, refl, arith, List, [], ◌∷◌, map, length, ok}
use bdr.Device.{sound}
use bdr.Device.Overlays.{apply_all}
use bdr.Header.{set_invalid_flag, set_valid_flag}
use bdr.Header.Flags.{header_is_valid-set_valid_flag}
use bdr.Journal.{layout}
use bdr.Journal.Reset.{journal_at, with_header, Contains-set_valid_flag}
use bdr.Server.{Server}
use bdr.Replica.{
  write_journal_to_replica, check_journal, handle_journal_packets, handle_journal_packet,
}
use bdr.Replica.Recovery.{server_at, revoked, Replayed, write_journal_to_replica-Replayed}
use bdr.Replica.Restart.{check_journal-valid, check_journal-full, restarted, crash_recovery}
use bdr.Replica.Intake.{block, write, Entry, packet_of, Stored, handle_journal_packets-Stored}
use bdr.Replica.Overflow.{overflown, handle_journal_packet-full}
use bdr.Examples.{
  header, empty, empty-Contains, half, half-Contains, filled, filled-Contains, replica, faulty,
  server,
}
use bdr.Examples.{
  first_block, first_write, second_write, first_block-Fits, first_write-Fits, second_write-Fits,
}

crash_recovery_example :
    let s1 =
      (write_journal_to_replica (server_at server faulty (journal_at header half 128 1 1))).1 in
    let r = check_journal (restarted s1) in
    (r.0 ≡ ok tt) × (r.1.target.content ≡ apply_all replica (first_block ∷ first_write ∷ []))
unfolding set_invalid_flag layout
crash_recovery_example =
    crash_recovery server faulty header half 128 (first_block ∷ []) (first_write ∷ []) half-Contains
      (omega arith) (omega arith) (omega arith, (omega arith, tt)) (omega arith)

replay_example :
    let r = write_journal_to_replica (server_at server faulty (journal_at header half 128 1 1)) in
    Replayed header half 128 (first_block ∷ []) (first_write ∷ []) faulty r.0 r.1
replay_example =
    write_journal_to_replica-Replayed server faulty header half 128 (first_block ∷ [])
      (first_write ∷ []) half-Contains

-- The half full journal, marked valid.
abbrev marked : List ℕ
marked = with_header (set_valid_flag header) half

check_valid_example :
    check_journal (server_at server (sound replica) (journal_at header marked 128 0 0)) ≡ (
      ok tt,
      server_at server
          (sound (apply_all replica (first_block ∷ first_write ∷ [])))
          (revoked (set_valid_flag header) marked (length marked) 1 1),
    )
unfolding set_invalid_flag set_valid_flag layout
check_valid_example =
    check_journal-valid server replica (set_valid_flag header) header marked 128 0 0
      (first_block ∷ []) (first_write ∷ [])
      (Contains-set_valid_flag header half (first_block ∷ []) (first_write ∷ []) half-Contains)
      (header_is_valid-set_valid_flag header) (omega arith) (omega arith)
      (omega arith, (omega arith, tt)) (omega arith)

check_full_example :
    check_journal (server_at server (sound replica) (journal_at header filled 128 0 0))
    ≡ (ok tt, server_at server (sound replica) (journal_at header filled 128 0 0))
unfolding set_invalid_flag layout
check_full_example =
    check_journal-full server (sound replica) header header filled 128 0 0 (first_block ∷ [])
      (first_write ∷ second_write ∷ []) filled-Contains refl

-- A buffer write comes before a correct block.
abbrev entries : List Entry
entries = write first_write ∷ block first_block ∷ write second_write ∷ []

intake_example :
    Stored server (sound replica) header 128 (first_block ∷ []) (first_write ∷ second_write ∷ []) (
      handle_journal_packets
        (map packet_of entries)
        (server_at server (sound replica) (journal_at header empty 128 0 0)))
unfolding set_invalid_flag layout
intake_example =
    handle_journal_packets-Stored server (sound replica) header empty 128 [] [] entries
      empty-Contains refl
      (
        (first_write-Fits, omega arith, (omega arith, omega arith)),
        (
          (first_block-Fits, omega arith, (omega arith, omega arith)),
          ((second_write-Fits, omega arith, (omega arith, omega arith)), tt),
        ),
      )
      (omega arith) (omega arith)

-- The server with no room for a buffer write.
abbrev full_server : Server
full_server = server_at server (sound replica) (journal_at header filled 128 2 1)

full_example :
    handle_journal_packet (packet_of (write first_write)) full_server
    ≡ (ok tt, overflown full_server)
unfolding set_invalid_flag layout
full_example = handle_journal_packet-full full_server (write first_write) refl refl (omega arith)
