-- ===== src/Client/Repair.antt =====
-- A scan from one end to the other: what the listener of user/client/client.go sends at its end, taken
-- into the journal by `HandleClient` of user/server/server.go and copied to the replica.
use bdr.Common.{
  ℕ, suc, ◌+◌, ◌-◌, ◌^◌, ◌≤◌, ◌<◌, ◌≡◌, refl, sym, ap, ap₂, ◌∙◌, subst, arith, Bool, true, false,
  List, [], ◌∷◌, ◌++◌, map, length, All, take-length, ◌>>◌,
}
use mathlib.Core.List.{Perm}
use mathlib.Core.List.Perm as Rearranged
use bdr.Device.{sound}
use bdr.Device.Overlays.{trimmed, apply_all}
use bdr.Networking.{Extent, PacketType, create_info_packet}
use bdr.Header.{Header}
use bdr.Slot.RoundTrip.{Fits}
use bdr.Journal.Contents.{Contains}
use bdr.Server.{Server, State}
use bdr.Replica.Copies.{InRange}
use bdr.Replica.Intake.{Entry, block, write, blocks_of, writes_of, IsStorable}
use bdr.Scan.Plan.{block_of, length-block_of}
use bdr.Scan.Complete.{NoCollision, scan, scan-All}
use bdr.Session.{Session}
use bdr.Session as Server_session
use bdr.Session.Room.{HasRoom}
use bdr.Session.Feed.{Event, receives, takes, entries, feed, hashing_at}
use bdr.Session.Finish.{Finished, scan_session}
use bdr.Ring.Window.{Write, IsSmall}
use bdr.Client.Window.{Carries, extent_of}
use bdr.Client.Process.{AllCarry}
use bdr.Client.Delivery.{LiesWithin, AllCarry-trimmed}

-- The client's packets as the server's entries, and their arrival, with the journal worker's steps in
-- between as `pattern` says.
abbrev pub sent_entries : List Extent → List Extent → List Entry
sent_entries bs ws = map block bs ++ map write ws

abbrev pub interleaved : List Bool → List Entry → List Event
interleaved [] es = map receives es
interleaved (true ∷ pattern) es = takes ∷ interleaved pattern es
interleaved (false ∷ pattern) [] = interleaved pattern []
interleaved (false ∷ pattern) (e ∷ es) = receives e ∷ interleaved pattern es

entries-receives : (es : List Entry) → entries (map receives es) ≡ es
entries-receives [] = refl
entries-receives (e ∷ es) = ap (◌∷◌ e) (entries-receives es)

entries-interleaved :
    (pattern : List Bool) (es : List Entry) → entries (interleaved pattern es) ≡ es
entries-interleaved [] es = entries-receives es
entries-interleaved (true ∷ pattern) es = entries-interleaved pattern es
entries-interleaved (false ∷ pattern) [] = entries-interleaved pattern []
entries-interleaved (false ∷ pattern) (e ∷ es) = ap (◌∷◌ e) (entries-interleaved pattern es)

blocks_of-blocks : (bs ws : List Extent) → blocks_of (sent_entries bs ws) ≡ map trimmed bs
blocks_of-blocks [] [] = refl
blocks_of-blocks [] (w ∷ ws) = blocks_of-blocks [] ws
blocks_of-blocks (b ∷ bs) ws = ap (◌∷◌ (trimmed b)) (blocks_of-blocks bs ws)

writes_of-writes : (bs ws : List Extent) → writes_of (sent_entries bs ws) ≡ map trimmed ws
writes_of-writes [] [] = refl
writes_of-writes [] (w ∷ ws) = ap (◌∷◌ (trimmed w)) (writes_of-writes [] ws)
writes_of-writes (b ∷ bs) ws = writes_of-writes bs ws

-- The journal has room for a block of `step` bytes, and for a page.
pub record HasSlots (h : Header) (step page_size : ℕ) : Type 0 where
  pub block_word : step < 2 ^ 32 - 12
  pub block_room : 12 + step ≤ h.corr_block_byte_size
  pub page_word : page_size < 2 ^ 32 - 12
  pub page_room : 12 + page_size ≤ h.buf_write_byte_size

-- A write that is not empty, has a sector of 32 bits, and at most a page.
abbrev pub IsSome : ℕ → Write → Type 0
IsSome page_size w = IsSmall page_size w × (0 < length w.bytes)

-- A whole block that can be stored.
abbrev IsWhole : Header → Extent → Type 0
IsWhole h x = IsStorable h (block x) × (trimmed x ≡ x)

block_of-IsWhole :
    (h : Header) (src : List ℕ) (step page_size o : ℕ)
    → HasSlots h step page_size
    → length src < 2 ^ 63
    → 0 < step
    → o < length src
    → IsWhole h (block_of src step o)
block_of-IsWhole h src step page_size o slots small pos b =
    let x = block_of src step o in
    let len = length-block_of src step o in
    let whole : trimmed x ≡ x = ap (λ bs. record x { bytes = bs }) (take-length x.bytes) in
    let fits : Fits h.corr_block_byte_size x = record {
      offset = omega arith;
      size = omega (arith, len, slots.block_word);
      all = refl;
      room = omega (arith, len, slots.block_room);
    } in
    (
      (
        subst (Fits h.corr_block_byte_size) (sym whole) fits,
        omega (arith, len),
        (omega arith, omega (arith, len, slots.block_word)),
      ),
      whole,
    )

write-IsStorable :
    (h : Header) (step page_size : ℕ) (x : Extent) (w : Write)
    → HasSlots h step page_size
    → Carries x w
    → IsSome page_size w
    → IsStorable h (write x)
write-IsStorable h step page_size x w slots (e, bytes) (small, some_bytes) =
    let size : x.size ≡ length w.bytes = ap (λ (y : Extent). y.size) e in
    let fits : Fits h.buf_write_byte_size (extent_of w) = record {
      offset = omega (arith, small.sector);
      size = omega (arith, small.bytes, slots.page_word);
      all = refl;
      room = omega (arith, small.bytes, slots.page_room);
    } in
    (subst (Fits h.buf_write_byte_size) (sym e) fits, omega (arith, size, some_bytes), bytes)

blocks-IsStorable :
    (h : Header) (bs ws : List Extent)
    → All (IsWhole h) bs
    → All (IsStorable h) (map write ws)
    → All (IsStorable h) (sent_entries bs ws)
blocks-IsStorable h [] ws hb hw = hw
blocks-IsStorable h (b ∷ bs) ws ((k, e), hb) hw = (k, blocks-IsStorable h bs ws hb hw)

writes-IsStorable :
    (h : Header) (step page_size : ℕ) (xs : List Extent) (new : List Write)
    → HasSlots h step page_size
    → AllCarry xs new
    → All (IsSome page_size) new
    → All (IsStorable h) (map write xs)
writes-IsStorable h step page_size [] [] slots carry k = tt
writes-IsStorable h step page_size [] (w ∷ ws) slots carry k = absurd carry
writes-IsStorable h step page_size (x ∷ xs) [] slots carry k = absurd carry
writes-IsStorable h step page_size (x ∷ xs) (w ∷ ws) slots (c, carry) (k, ks) = (
  write-IsStorable h step page_size x w slots c k,
  writes-IsStorable h step page_size xs ws slots carry ks,
)

trimmed-IsWhole : (h : Header) (bs : List Extent) → All (IsWhole h) bs → map trimmed bs ≡ bs
trimmed-IsWhole h [] k = refl
trimmed-IsWhole h (b ∷ bs) ((f, e), k) = ap₂ ◌∷◌ e (trimmed-IsWhole h bs k)

writes-InRange :
    (n : ℕ) (new : List Write) → All (LiesWithin n) new → All (InRange n) (map extent_of new)
writes-InRange n [] h = tt
writes-InRange n (w ∷ ws) (h, hs) = (h, writes-InRange n ws hs)

length-AllCarry :
    (xs : List Extent) (new : List Write) → AllCarry xs new → length (map trimmed xs) ≡ length new
length-AllCarry [] [] carry = refl
length-AllCarry [] (w ∷ ws) carry = absurd carry
length-AllCarry (x ∷ xs) [] carry = absurd carry
length-AllCarry (x ∷ xs) (w ∷ ws) (c, carry) = ap suc (length-AllCarry xs ws carry)

-- The server is hashing, with an empty journal, and gets what the client's listener sends at the end of
-- a scan: the correct blocks of the scan, one packet for each write that waited in the ring, and that
-- hashing is complete. However its journal worker runs meanwhile, the replica is then the source as it
-- was at the time of the scan, with these writes over it, in their order and with the bytes that the
-- kernel put, and the session is in the writing state. No two different blocks at one place have the
-- same hash, the disks have one size and the devices work, the journal has room, and the writes are
-- not empty and lie on the replica.
pub scan_repairs :
    (hash : List ℕ → ℕ) (src t : List ℕ) (step page_size : ℕ) (xs : List Extent) (new : List Write)
    (pattern : List Bool) (v : Session) (s : Server) (h : Header) (n : ℕ) (c : List ℕ)
    → AllCarry xs new
    → Contains h c [] []
    → s.state ≡ State.hashing
    → HasSlots h step page_size
    → length (scan hash src t step) ≤ h.corr_blocks_count
    → length new ≤ h.buf_writes_count
    → All (IsSome page_size) new
    → All (LiesWithin (length t)) new
    → NoCollision hash src t step
    → length t ≡ length src
    → length src < 2 ^ 63
    → 0 < step
    → Finished (apply_all src (map extent_of new)) (
        (feed (interleaved pattern (sent_entries (scan hash src t step) xs))
            >> Server_session.dispatch (create_info_packet PacketType.info_hashing_completed))
          (hashing_at v s (sound t) h n c [] [] []))
scan_repairs hash src t step page_size xs new pattern v s h n c carry k live slots hb hw sized
      within inj e small pos =
    let word : step < 2 ^ 32 = omega (arith, slots.block_word) in
    let bs = scan hash src t step in
    let es = sent_entries bs xs in
    let events = interleaved pattern es in
    let whole : All (IsWhole h) bs =
      scan-All hash src t step (IsWhole h)
        (λ o b. block_of-IsWhole h src step page_size o slots small pos b) e small pos word in
    let eb : blocks_of es ≡ bs = blocks_of-blocks bs xs ∙ trimmed-IsWhole h bs whole in
    let ew : writes_of es ≡ map extent_of new =
      writes_of-writes bs xs ∙ AllCarry-trimmed xs new carry in
    let room : HasRoom h [] [] es = record {
      storable =
          blocks-IsStorable h bs xs whole
            (writes-IsStorable h step page_size xs new slots carry sized);
      blocks = omega (arith, ap length eb, hb);
      writes = omega (arith, ap length (writes_of-writes bs xs), length-AllCarry xs new carry, hw);
    } in
    let same = entries-interleaved pattern es in
    let fits = subst (All (InRange (length t))) (sym ew) (writes-InRange (length t) new within) in
    let done =
      scan_session hash src step events v s t h n c k live (subst (HasRoom h [] []) (sym same) room)
        inj e small pos word
        (subst (λ es'. Perm bs (blocks_of es')) (sym same)
          (subst (Perm bs) (sym eb) (Rearranged.refl bs)))
        (subst (λ es'. All (InRange (length t)) (writes_of es')) (sym same) fits) in
    subst
      (λ ws. Finished (apply_all src ws) (
        (feed events
            >> Server_session.dispatch (create_info_packet PacketType.info_hashing_completed))
          (hashing_at v s (sound t) h n c [] [] [])))
      (ap writes_of same ∙ ew) done
