-- ===== src/Session/Workers.antt =====
-- The two goroutines of a session that nothing waits for, `HandleWritePackets` and
-- `HandleCorrectPackets` of user/server/server.go: both call `wg.Done()` first, so that they go on after
-- `HandleClient` has returned, until their closed queues are empty. Their steps are one attempt of a
-- write, and one correct block.
use bdr.Common.{ℕ, if◌then◌else◌, List, [], ◌∷◌, Option, none, some, M, Outcome, ok, err, panic}
use bdr.Networking.{Packet}
use bdr.Device.{Disk, write_at, sync}
use bdr.Server.{Server, data_to_write}
use bdr.Live.{write_info_of, is_writing, handle_correct_packets}
pub mod Late

-- A write whose loop has begun: `dataToWrite` (`bytes`), and where it goes.
pub record Pending : Type 0 where
  pub offset : ℕ
  pub bytes : List ℕ

-- `trying` is the write that is tried until it succeeds; the queues are what is still to be taken.
pub record Workers : Type 0 where
  pub trying : Option Pending
  pub writes : List Packet
  pub blocks : List Packet

-- The goroutines and what they share with the rest of the server.
pub record Working : Type 0 where
  pub server : Server
  pub workers : Workers

abbrev tried_once : Pending → Outcome (Unit {0}) × Disk → Working → Outcome (Unit {0}) × Working
tried_once p (ok _, d) x = (
  ok tt,
  record {
    server = record x.server { target = (sync d).1 };
    workers = record x.workers { trying = none };
  },
)
tried_once p (err e, d) x = (
  ok tt,
  record {
    server = record x.server { target = d };
    workers = record x.workers { trying = some p };
  },
)
tried_once p (panic, d) x = (panic, x)

-- One round of the inner loop.
unfoldable pub try_write : Pending → M Working (Unit {0})
try_write p x = tried_once p (write_at p.bytes p.offset x.server.target) x

abbrev try_data : ℕ → Outcome (List ℕ) → M Working (Unit {0})
unfolding try_write
try_data off (ok bs) x = try_write (record { offset = off; bytes = bs }) x
try_data off (err e) x = (err e, x)
try_data off panic x = (panic, x)

-- The next packet: the state is looked at once, before the first attempt.
abbrev take_write : List Packet → M Working (Unit {0})
take_write [] x = (ok tt, x)
take_write (packet ∷ packets) x =
    let y = record x { workers = record x.workers { writes = packets } } in
    let info = write_info_of packet.payload in
    if is_writing x.server.state then try_data info.offset (data_to_write info) y else (ok tt, y)

abbrev try_or_take : Option Pending → M Working (Unit {0})
unfolding try_write
try_or_take (some p) x = try_write p x
try_or_take none x = take_write x.workers.writes x

-- `HandleWritePackets` goes on.
unfoldable pub work_writes : M Working (Unit {0})
unfolding try_write
work_writes x = try_or_take x.workers.trying x

abbrev on_server : Outcome (Unit {0}) × Server → Working → Outcome (Unit {0}) × Working
on_server (o, s) x = (o, record x { server = s })

abbrev take_block : List Packet → M Working (Unit {0})
take_block [] x = (ok tt, x)
take_block (packet ∷ packets) x =
    on_server (handle_correct_packets (packet ∷ []) x.server)
      (record x { workers = record x.workers { blocks = packets } })

-- `HandleCorrectPackets` goes on.
unfoldable pub work_blocks : M Working (Unit {0})
work_blocks x = take_block x.workers.blocks x
