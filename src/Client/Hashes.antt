-- ===== src/Client/Hashes.antt =====
-- A scan at the client of user/client/client.go: the listener has got the server's hashes, and then the
-- server says that hashing is complete.
use bdr.Common.{
  ℕ, ◌^◌, ◌<◌, ◌≡◌, ◌≢◌, refl, sym, ap, ◌∙◌, subst, true, false, ◌==◌, List, [], ◌∷◌, ◌++◌, map,
  some, ok, length, slice, All, Bool-cases, inl, inr,
}
use mathlib.Core.List.{append-nil, append_assoc}
use bdr.Networking.{
  Extent, Packet, HashInfo, payload_hash, hash_info, create_info_packet, info_hashing_completed,
}
use bdr.Device.{sound}
use bdr.Pause.{resume}
use bdr.Scan.{
  CheckResult, rescan, equal, correct, check_hash, correct_block_packet, corrections, info_of,
  cons_some, correct_of,
}
use bdr.Scan.Stages.{result_of, verdict, check_hash-sound}
use bdr.Ring.Window.{Write}
use bdr.Ring.Queue.{holding, Refines}
use bdr.Scan.Plan.{offsets-below}
use bdr.Scan.Complete.{results, scan, results-result_of, all_offsets}
use bdr.Scan.{enough}
use bdr.Client.{Client, Attempt, writing}
use bdr.Client.Buffer.{write_packet, process_buffer}
use bdr.Client.Sending.{IsHarmless, send_packet-Delivers}
use bdr.Client.Process.{IsSteady, AllCarry}
use bdr.Client.Monitor.{IsReady}
use bdr.Client.Completion.{process_buffer-Completes}
use bdr.Client.Listen.{Listener, after_check, check_hashes, drain_hashes, dispatch, listener_after}

abbrev pub hash_packet : HashInfo → Packet
hash_packet info = record { packet_type = payload_hash; payload = hash_info info }

-- The client among the hashes: what it reads does not change.
abbrev pub checking : Client → List ℕ → List Packet → List Attempt → Client
checking c src sent link = record c { under = sound src; sent = sent; link = link }

-- What the client sends for one hash.
abbrev packets_of : CheckResult → List Packet
packets_of rescan = []
packets_of equal = []
packets_of (correct x) = correct_block_packet x ∷ []

packets_of-cons_some :
    (v : CheckResult) (xs : List Extent)
    → map correct_block_packet (cons_some (correct_of v) xs)
      ≡ packets_of v ++ map correct_block_packet xs
packets_of-cons_some rescan xs = refl
packets_of-cons_some equal xs = refl
packets_of-cons_some (correct x) xs = refl

verdict-ne_rescan :
    (hash : List ℕ → ℕ) (src t : List ℕ) (step o : ℕ) → verdict hash src t step o ≢ rescan
verdict-ne_rescan hash src t step o e =
    elim (Bool-cases (hash (slice o step src) == hash (slice o step t))) [
      | inl same ↦ cc (rw same at e)
      | inr other ↦ cc (rw other at e)
    ]

-- The client has sent `packets` more, and its link still works in the end.
abbrev Sent : Client → List ℕ → List Packet → Client → Type 0
Sent c src sent c' = (link : List Attempt) × (c' ≡ checking c src sent link) × All IsHarmless link

after_check-Sent :
    (hash : List ℕ → ℕ) (v : CheckResult) (c : Client) (src : List ℕ) (sent : List Packet)
    (link : List Attempt)
    → v ≢ rescan
    → c.terminated ≡ false
    → All IsHarmless link
    → Sent c src (sent ++ packets_of v) (after_check hash (v, sound src) (checking c src sent link))
after_check-Sent hash rescan c src sent link ne up h = absurd (ne refl)
after_check-Sent hash equal c src sent link ne up h =
    (link, ap (λ s. checking c src s link) (sym (append-nil sent)), h)
after_check-Sent hash (correct x) c src sent link ne up h =
    send_packet-Delivers (correct_block_packet x) (checking c src sent link) up h

corrections-cons :
    (hash : List ℕ → ℕ) (info : HashInfo) (infos : List HashInfo) (src : List ℕ) (v : CheckResult)
    → check_hash hash info (sound src) ≡ (v, sound src)
    → (corrections hash (info ∷ infos) (sound src)).0
      ≡ cons_some (correct_of v) (corrections hash infos (sound src)).0
unfolding corrections
corrections-cons hash info infos src v e = rw e refl

-- The packets for the hashes of these blocks.
abbrev corrected : (List ℕ → ℕ) → List ℕ → List ℕ → ℕ → List ℕ → List Packet
corrected hash src t step os =
    map correct_block_packet
      (corrections hash (map info_of (map (result_of hash t step) os)) (sound src)).0

corrected-nil : (hash : List ℕ → ℕ) (src t : List ℕ) (step : ℕ) → [] ≡ corrected hash src t step []
unfolding corrections
corrected-nil hash src t step = refl

corrected-cons :
    (hash : List ℕ → ℕ) (src t : List ℕ) (step o : ℕ) (os : List ℕ)
    → length t ≡ length src
    → o < length src
    → length src < 2 ^ 63
    → corrected hash src t step (o ∷ os)
      ≡ packets_of (verdict hash src t step o) ++ corrected hash src t step os
corrected-cons hash src t step o os e b small =
    let v = verdict hash src t step o in
    let infos = map info_of (map (result_of hash t step) os) in
    ap (map correct_block_packet) (
      corrections-cons hash (info_of (result_of hash t step o)) infos src v
        (check_hash-sound hash step o src t e b small))
    ∙ packets_of-cons_some v (corrections hash infos (sound src)).0

check_hashes_nil : (hash : List ℕ → ℕ) (c : Client) → check_hashes hash [] c ≡ c
unfolding check_hashes
check_hashes_nil hash c = refl

check_hashes_cons :
    (hash : List ℕ → ℕ) (info : HashInfo) (packets : List Packet) (c : Client)
    → check_hashes hash (hash_packet info ∷ packets) c
      ≡ check_hashes hash packets (after_check hash (check_hash hash info c.under) c)
unfolding check_hashes
check_hashes_cons hash info packets c = refl

check_hashes-Sent :
    (hash : List ℕ → ℕ) (src t : List ℕ) (step : ℕ) (os : List ℕ) (c : Client) (sent : List Packet)
    (link : List Attempt)
    → length t ≡ length src
    → length src < 2 ^ 63
    → All (λ o. o < length src) os
    → c.terminated ≡ false
    → All IsHarmless link
    → Sent c src (sent ++ corrected hash src t step os) (
        check_hashes hash
          (map hash_packet (map info_of (map (result_of hash t step) os)))
          (checking c src sent link))
check_hashes-Sent hash src t step [] c sent link e small below up h = (
  link,
  check_hashes_nil hash (checking c src sent link)
      ∙ ap (λ s. checking c src s link)
          (sym (append-nil sent) ∙ ap (◌++◌ sent) (corrected-nil hash src t step)),
  h,
)
check_hashes-Sent hash src t step (o ∷ os) c sent link e small (b, below) up h =
    let v = verdict hash src t step o in
    let packets = map hash_packet (map info_of (map (result_of hash t step) os)) in
    let (link1, f, h1) =
      after_check-Sent hash v c src sent link (verdict-ne_rescan hash src t step o) up h in
    let (link2, g, h2) =
      check_hashes-Sent hash src t step os c (sent ++ packets_of v) link1 e small below up h1 in
    (
      link2,
      check_hashes_cons hash (info_of (result_of hash t step o)) packets (checking c src sent link)
          ∙ ap (λ r. check_hashes hash packets (after_check hash r (checking c src sent link)))
              (check_hash-sound hash step o src t e b small)
          ∙ ap (check_hashes hash packets) f
          ∙ g
          ∙ ap (λ s. checking c src s link2)
              (append_assoc sent (packets_of v) (corrected hash src t step os)
                ∙ ap (◌++◌ sent) (sym (corrected-cons hash src t step o os e b small))),
      h2,
    )

-- The hashes of the whole replica, one packet for each result of the server.
abbrev pub hashes : (List ℕ → ℕ) → List ℕ → ℕ → List Packet
hashes hash t step = map hash_packet (map info_of (results hash t step))

check_hashes-scan :
    (hash : List ℕ → ℕ) (src t : List ℕ) (step : ℕ) (c : Client)
    → length t ≡ length src
    → length src < 2 ^ 63
    → 0 < step
    → step < 2 ^ 32
    → c.terminated ≡ false
    → All IsHarmless c.link
    → Sent c src
        (c.sent ++ map correct_block_packet (scan hash src t step))
        (check_hashes hash (hashes hash t step) (record c { under = sound src }))
check_hashes-scan hash src t step c e small pos word up h =
    let os = all_offsets (length src) step in
    let below = offsets-below (enough (length src) step) 0 (length src) step in
    subst
      (λ rs.
        Sent c src
          (c.sent ++ map correct_block_packet (corrections hash (map info_of rs) (sound src)).0)
          (check_hashes hash (map hash_packet (map info_of rs)) (record c { under = sound src })))
      (sym (results-result_of hash src t step e small pos word))
      (check_hashes-Sent hash src t step os c c.sent c.link e small below up h)

-- The listener during a scan, with the server's hashes in its queue.
abbrev pub scanning : (List ℕ → ℕ) → Client → List ℕ → List ℕ → ℕ → Listener
scanning hash c src t step = record {
  client = record c { under = sound src };
  hash_queue = hashes hash t step;
  hashing = true;
}

dispatch_completed :
    (hash : List ℕ → ℕ) (l : Listener) (c : Client)
    → process_buffer (drain_hashes hash l).client ≡ some (ok tt, c)
    → dispatch hash (create_info_packet info_hashing_completed) l
      ≡ some (ok true, record (drain_hashes hash l) { client = c })
unfolding dispatch
dispatch_completed hash l c e = ap (listener_after hash (drain_hashes hash l)) e

-- The end of a scan at the client. When the hashes of the whole replica have come and the server says
-- that hashing is complete, the listener goes on after it has sent, in this order, the correct blocks
-- of the scan, one packet for each write that waits in the ring, with the bytes that the kernel put,
-- and, once, that hashing is complete; the queue is empty, the state is `writing`, and the monitor is
-- told to go on. Source and replica have one size and the source can be read; the ring has not
-- overflown; the link and the ioctl fail finitely often, without a shutdown or a reconnection.
pub dispatch-scan :
    (hash : List ℕ → ℕ) (src t : List ℕ) (step : ℕ) (c : Client) (n : ℕ) (old new : List Write)
    → length t ≡ length src
    → length src < 2 ^ 63
    → 0 < step
    → step < 2 ^ 32
    → IsSteady n false c
    → IsReady c
    → Refines c.target_info.page_size n c.ring (holding old new)
    → (l : Listener) × (xs : List Extent) × (dispatch hash
          (create_info_packet info_hashing_completed)
          (scanning hash c src t step)
        ≡ some (ok true, l))
      × (l.client.sent
          ≡ ((c.sent ++ map correct_block_packet (scan hash src t step)) ++ map write_packet xs)
            ++ create_info_packet info_hashing_completed ∷ [])
      × AllCarry xs new
      × (l.client.state ≡ writing)
      × (l.client.monitor ≡ resume c.monitor)
      × (l.hash_queue ≡ [])
unfolding drain_hashes
dispatch-scan hash src t step c n old new e small pos word st ready k =
    let l = scanning hash c src t step in
    let sent = c.sent ++ map correct_block_packet (scan hash src t step) in
    let (link, f, h) = check_hashes-scan hash src t step c e small pos word st.up ready.link in
    let c1 = checking c src sent link in
    let st1 : IsSteady n false c1 = record {
      slot = st.slot;
      small = st.small;
      up = st.up;
      connected = st.connected;
      unpaused = st.unpaused;
    } in
    let ready1 : IsReady c1 = record { link = h; ioctls = ready.ioctls; puts = ready.puts } in
    let (c', xs, g, same, carry, state, monitor) =
      process_buffer-Completes c1 n old new st1 ready1 k in
    (
      _,
      xs,
      dispatch_completed hash l c' (ap process_buffer f ∙ g),
      same,
      carry,
      state,
      monitor,
      refl,
    )
