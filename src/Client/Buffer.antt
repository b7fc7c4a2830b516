-- ===== src/Client/Buffer.antt =====
-- user/client/client.go: how the client takes the writes out of the buffer that it shares with the
-- kernel, `ProcessBufferInfo`, `SendBuffer`, `ProcessBuffer` and `MonitorChanges`.
use bdr.Common.{
  ℕ, zero, suc, ◌+◌, ◌*◌, ◌%◌, Bool, true, false, if◌then◌else◌, ◌&&◌, ◌||◌, not, ltb, ◌==◌, List,
  [], ◌∷◌, Option, none, some, Outcome, ok, err, panic, slice, length, from_le, u64,
}
use bdr.Networking.{
  Extent, Packet, payload_buffer_write, write_info, create_info_packet, info_hashing_completed,
}
use bdr.Pause.{Wait, returned, waiting, is_paused, wait_if_paused, resume}
use bdr.Benchmark.{record_buffer_overflow}
use bdr.Ring.{BufferInfo, check_overflow, has_new_writes}
use bdr.Ring.Queue.Reading.{Put, after_puts}
use bdr.Client.{
  Client, State, hashing, writing, replicating, reconnecting, Attempt, works, fails, changed,
  delivered, check_termination, set_state, send_packet, serve_ioctl, read_buffer_info,
  start_hashing,
}

-- `none` is a call that does not return as long as `TermChan` is open.
abbrev pub R : Type 0 → Type 0
R A = Option (Outcome A × Client)

-- `%` by zero is a panic.
unfoldable pub get_buffer_info_byte_offset : Client → BufferInfo → ℕ → Outcome ℕ
get_buffer_info_byte_offset c info off =
    if info.max_writes == 0
    then panic
    else ok (u64 (u64 (info.offset + off) % info.max_writes * c.target_info.write_info_size))

-- `c.Buf[bufBegin:bufEnd]`.
abbrev pub entry_bytes : Client → ℕ → Outcome (List ℕ)
entry_bytes c begin =
    let end = u64 (begin + c.target_info.write_info_size) in
    if ltb end begin || ltb (length c.ring.buffer) end
    then panic
    else ok (slice begin c.target_info.write_info_size c.ring.buffer)

-- What `binary.Read` and `io.ReadFull` take from the reader: a sector, a size and a page; `none` where
-- it ends too early.
unfoldable pub decode_entry : ℕ → List ℕ → Option Extent
decode_entry page_size bytes =
    if ltb (length bytes) (8 + page_size)
    then none
    else some (record {
      offset = u64 (512 * from_le (slice 0 4 bytes));
      size = from_le (slice 4 4 bytes);
      bytes = slice 8 page_size bytes;
    })

abbrev pub decoded : ℕ → Outcome (List ℕ) → Outcome (Option Extent)
decoded page_size (ok bytes) = ok (decode_entry page_size bytes)
decoded page_size (err e) = err e
decoded page_size panic = panic

abbrev pub bytes_from : Client → Outcome ℕ → Outcome (List ℕ)
bytes_from c (ok begin) = entry_bytes c begin
bytes_from c (err e) = err e
bytes_from c panic = panic

-- Write `i` of the information, as a packet's payload.
unfoldable pub read_entry : BufferInfo → ℕ → Client → Outcome (Option Extent)
unfolding get_buffer_info_byte_offset decode_entry
read_entry info i c =
    decoded c.target_info.page_size (bytes_from c (get_buffer_info_byte_offset c info i))

abbrev pub write_packet : Extent → Packet
write_packet x = record { packet_type = payload_buffer_write; payload = write_info x }

abbrev pub is_reconnecting : State → Bool
is_reconnecting reconnecting = true
is_reconnecting hashing = false
is_reconnecting writing = false
is_reconnecting replicating = false

-- The loop around `Encode`: true when the packet is sent, false where the function returns.
abbrev pub write_attempts : List Attempt → Packet → Client → Bool × Client
write_attempts [] packet c = (true, delivered packet [] c)
write_attempts (works ∷ link) packet c = (true, delivered packet link c)
write_attempts (fails ch ∷ link) packet c =
    let c' = changed ch c in
    let rest = write_attempts link packet c' in
    if is_reconnecting c'.state || check_termination c'
    then (false, record c' { link = link })
    else rest

unfoldable pub send_write : Packet → Client → Bool × Client
send_write packet c = write_attempts c.link packet c

abbrev pub after_send : Bool × Client → (Client → R (Unit {0})) → R (Unit {0})
after_send (true, c) rest = rest c
after_send (false, c) rest = some (ok tt, c)

-- A write that can not be decoded is decoded again and again.
abbrev pub send_entry : Outcome (Option Extent) → Client → (Client → R (Unit {0})) → R (Unit {0})
send_entry (ok none) c rest = if check_termination c then some (ok tt, c) else none
send_entry (ok (some x)) c rest = after_send (send_write (write_packet x) c) rest
send_entry (err e) c rest = some (err e, c)
send_entry panic c rest = some (panic, c)

abbrev pub next_puts : List (List Put) → List Put
next_puts [] = []
next_puts (ps ∷ kernel) = ps

abbrev pub later_puts : List (List Put) → List (List Put)
later_puts [] = []
later_puts (ps ∷ kernel) = kernel

-- The kernel goes on putting writes into the ring meanwhile.
abbrev pub kernel_puts : Client → Client
kernel_puts c = record c {
  ring = after_puts c.target_info.page_size (next_puts c.kernel) c.ring;
  kernel = later_puts c.kernel;
}

abbrev pub look_paused : Client → Bool × Client
look_paused c = let (b, p) = is_paused c.monitor in (b, record c { monitor = p })

-- The loop of `ProcessBufferInfo` from write `i` on, with `k` to go.
unfoldable pub process_from : ℕ → ℕ → BufferInfo → Bool → Client → R (Unit {0})
unfolding read_entry send_write
process_from zero i info main_loop c = some (ok tt, c)
process_from (suc k) i info main_loop c =
    let (paused, c1) = look_paused (kernel_puts c) in
    let sent = send_entry (read_entry info i c1) c1 (process_from k (suc i) info main_loop) in
    if paused && main_loop then some (ok tt, c1) else sent

unfoldable pub process_buffer_info : BufferInfo → Bool → Client → R (Unit {0})
unfolding process_from
process_buffer_info info main_loop c = process_from info.length 0 info main_loop c

abbrev pub and_value : {A : Type 0} → A → R (Unit {0}) → R A
and_value a none = none
and_value a (some (ok _, c)) = some (ok a, c)
and_value a (some (err e, c)) = some (err e, c)
and_value a (some (panic, c)) = some (panic, c)

-- How a round of `MonitorChanges` ends.
pub data Round : Type 0 where
  stopped blocked polled rescanned processed : Round

-- A round behind `WaitIfPaused`.
unfoldable pub monitor_changes : Client → R Round
unfolding serve_ioctl process_buffer_info start_hashing
monitor_changes c =
    let (info, c1) = serve_ioctl read_buffer_info c in
    let c2 = record c1 { stats = record_buffer_overflow c1.stats } in
    if not (has_new_writes info)
    then some (ok polled, c1)
    else if check_overflow info
    then some (ok rescanned, start_hashing c2)
    else and_value processed (process_buffer_info info true c1)

abbrev waited_round : Wait → Client → R Round
waited_round (returned true) c = some (ok stopped, c)
waited_round (returned false) c = monitor_changes c
waited_round waiting c = some (ok blocked, c)

-- A whole round; `choice` is that of the `select` of `WaitIfPaused`.
unfoldable pub monitor_round : Bool → Client → R Round
unfolding monitor_changes
monitor_round choice c =
    let (w, p) = wait_if_paused c.terminated choice c.monitor in
    waited_round w (record c { monitor = p })

unfoldable pub send_buffer : Client → R Bool
unfolding serve_ioctl process_buffer_info
send_buffer c =
    let (info, c1) = serve_ioctl read_buffer_info c in
    if not (has_new_writes info)
    then some (ok true, c1)
    else if check_overflow info
    then some (ok false, c1)
    else and_value true (process_buffer_info info false c1)

abbrev pub resume_monitor : Client → Client
resume_monitor c = record c { monitor = resume c.monitor }

abbrev pub completed : Client → Client
completed c =
    send_packet (create_info_packet info_hashing_completed) (resume_monitor (set_state writing c))

abbrev pub after_buffer : R Bool → R (Unit {0})
after_buffer none = none
after_buffer (some (ok true, c)) = some (ok tt, completed c)
after_buffer (some (ok false, c)) = some (ok tt, start_hashing c)
after_buffer (some (err e, c)) = some (err e, c)
after_buffer (some (panic, c)) = some (panic, c)

unfoldable pub process_buffer : Client → R (Unit {0})
unfolding send_buffer
process_buffer c = after_buffer (send_buffer c)
