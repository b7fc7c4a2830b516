-- ===== src/Lib.antt =====
-- bdr replicates a block device: a kernel module keeps the writes to the source in a ring
-- buffer, the client (user/client) sends them over the network, and the server (user/server)
-- writes them to the replica. When the buffer overflows, client and server compare the hashes of
-- all blocks, and the server keeps the correct blocks and the new writes in a journal
-- (user/journal) on a third device, which it writes to the replica when it is complete, and
-- copies there when it starts again after a crash.
--
-- Which file models what:
--   Common            numbers, tests, lists, slices of bytes, results with errors and panics
--   Device            the devices: contents, and a plan of which calls fail and where
--   Networking        user/networking/networking.go: the packets
--   Header            user/journal/journal.go: Header, WriteHeader, ReadHeader, the valid flag
--   Slot              user/journal/journal.go: serializeWriteInfo ... deserializeCorrectBlockInfo
--   Section           user/journal/journal.go: the entries of one section, clearing, FindFirst...
--   Journal           user/journal/journal.go: Journal and its methods, OpenJournal, NewJournal
--   Server            user/server/server.go: the server's state, SendPacket
--   Replica           user/server/server.go: HandleJournal..., WriteJournalToReplica, CheckJournal
--   Scan              HashDisk of user/server/server.go, InitHashing and InitReplication of
--                     user/client/client.go
--   Live              user/server/server.go: HandleWritePackets, HandleCorrectPackets,
--                     HandleReplicationPackets
--   Session           user/server/server.go: the loop of HandleClient and its queues, the start of
--                     HashDisk; Session.End is the end of HandleClient, and
--                     Session.Workers the goroutines that go on after it
--   Handshake         user/server/server.go: WaitForInitInfo, CheckValidSizes, the beginning of
--                     HandleClient
--   Ring              kern/ring-buffer.c: the ring of writes; Ring.Queue is the queue that it is
--                     for its users
--   Client            user/client/client.go: the client's state, SendPacket, ServeIOCTL and the
--                     commands that start a scan
--   Client.Buffer     user/client/client.go: ProcessBufferInfo, MonitorChanges, SendBuffer and
--                     ProcessBuffer
--   Client.Listen     user/client/client.go: ReceivePacket, reconnectToServer, ListenPackets and
--                     InitHashing
--   Client.Endless    user/client/client.go: the loop of SendPacket when a link may fail for ever
--   Client.Start      user/client/client.go: NewClient, SendInitPacket, main and the end of Run
--   Config            user/client/config.go and user/server/config.go
--   Ioctl             user/client/ioctl.go: the command numbers and their names
--   Chardev           kern/main.c and kern/ioctl.c: bdr_chardev_ioctl
--   Visits            user/server/server.go: all of HandleClient, with the goroutines that earlier
--                     clients have left behind
--   Connections       user/server/server.go: NewServer, main, Run and HandleConnections
--   Startup           a client that is started against a server that waits
--   Benchmark         user/benchmark/benchmark.go: the counters
--   Pause             user/pause/pause.go
--   Examples          small disks, and the theorems applied to them
--
-- A function of the source that changes an object is a function from the object's state to an
-- outcome (a result, an error or a panic) and the next state. The two kinds of journal entries
-- have the same code twice in the source and share one function over a section here. Every
-- uint64 and uint32 operation that may wrap is written with its remainder. A write to a device
-- that fails may have changed any number of its first bytes.
--
-- Loops over a section run over the count of its entries. The loop over the offsets of a disk
-- runs on fuel, total / step + 1 rounds, which reaches the end. The loop that tries a write to
-- the replica until it succeeds runs on fuel too, and needs one attempt more than the replica
-- has failures ahead; in Session.Workers each of its attempts is a step instead, so that a
-- replica may fail for ever. Goroutines that share a channel are a list of items that may be
-- delivered in any order, or, in Session, steps of the goroutines in any interleaving.
--
-- The hash function is a parameter, with the assumption that no two different blocks at one
-- place of the two disks have the same hash. The client's calls of Encode and of ioctl follow a
-- plan too: a finite list of attempts that fail, with what other goroutines have done by then,
-- behind which all succeed; so do the attempts to reconnect. Only Client.Endless has a link that
-- may fail for ever. What the client receives is a list
-- too, and ListenPackets runs on fuel, one round for each packet that it takes and one to end.
-- The kernel puts writes into the ring between any two looks of the client at the buffer; a put
-- fills its slot and moves the counters in one step.
--
-- The macro _IOC of the kernel's headers is a parameter, with the layout that the kernel
-- documents for command numbers as an assumption. The command line is what pflag has parsed of
-- it. How the calls of the start go (opening files, Mmap, Dial, Listen, Stat) is a record of
-- their results.
--
-- Not modelled: gob, printing, signals, the statistics ticker, and the rest of the kernel
-- module. A device keeps what a successful write gave it; a volatile cache that a power
-- failure empties is not modelled.
pub mod Common
pub mod Device
pub mod Networking
pub mod Header
pub mod Slot
pub mod Section
pub mod Journal
pub mod Server
pub mod Replica
pub mod Scan
pub mod Live
pub mod Session
pub mod Handshake
pub mod Pause
pub mod Ring
pub mod Benchmark
pub mod Client
pub mod Examples
pub mod Ioctl
pub mod Chardev
pub mod Config
pub mod Connections
pub mod Visits
pub mod Startup
