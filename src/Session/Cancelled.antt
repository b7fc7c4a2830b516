-- ===== src/Session/Cancelled.antt =====
-- `HashDisk` of user/server/server.go when its scan is cancelled for another one.
use mathlib.Core.List.{append_assoc, append-nil}
use bdr.Common.{
  ℕ, ◌<◌, ◌^◌, ◌≡◌, refl, sym, ap, ◌∙◌, true, false, Bool, Bool-cases, inl, inr, Outcome, err,
  panic, and_then, >>=-ok, arith, List, [], ◌∷◌, ◌++◌, map, length, ok, ◌>>◌,
}
use bdr.Device.{sound}
use bdr.Device.Overlays.{apply_all}
use bdr.Networking.{Extent, Packet, PacketType, create_info_packet}
use bdr.Header.{Header}
use bdr.Journal.Contents.{Contains}
use bdr.Scan.{ResultItem, result_packets}
use bdr.Server.{Server, State, send_packet}
use bdr.Replica.Intake.{block, packet_of}
use bdr.Session.{
  Session, route_block, stops, dispatch, begin_hash_disk, send_results, send_each, hash_disk,
}
use bdr.Session.Feed.{hashing_at}
use bdr.Session.Finish.{Finished, completed}
use bdr.Session.Start.{dispatch_all}

abbrev pub all_packets : List ResultItem → List Packet
all_packets [] = []
all_packets (r ∷ results) = result_packets r ++ all_packets results

send_each-sent :
    (closed : Bool) (r : ResultItem) (s : Server)
    → s.link ≡ []
    → send_each closed (result_packets r) s
      ≡ (ok tt, record s { sent = s.sent ++ result_packets r })
unfolding send_packet result_packets
send_each-sent closed r s link = elim (Bool-cases r.failed) [
  | inl bad ↦
      rw (bad, link) (ap (λ z. (ok tt, record s { sent = z; link = [] })) (append_assoc s.sent _ _))
  | inr good ↦ rw (good, link) refl
]

send_results-sent :
    (closed : Bool) (results : List ResultItem) (s : Server)
    → s.link ≡ []
    → send_results closed results s ≡ (ok tt, record s { sent = s.sent ++ all_packets results })
unfolding send_results
send_results-sent closed [] s link =
    ap (λ z. (ok tt, record s { sent = z })) (sym (append-nil s.sent))
send_results-sent closed (r ∷ results) s link =
    let s1 : Server = record s { sent = s.sent ++ result_packets r } in
    >>=-ok (send_each closed (result_packets r)) (λ _. send_results closed results) s
      (send_each-sent closed r s link)
      (send_results-sent closed results s1 link
        ∙ ap (λ z. (ok tt, record s { sent = z }))
            (append_assoc s.sent (result_packets r) (all_packets results)))

stops-open : (closed : Bool) (link : List Bool) → link ≡ [] → stops closed link ≡ false
stops-open true link e = rw e refl
stops-open false link e = refl

hash_disk-sent :
    (closed : Bool) (results : List ResultItem) (s s1 : Server)
    → begin_hash_disk s ≡ (ok tt, s1)
    → s.link ≡ []
    → s1.link ≡ []
    → hash_disk closed results s ≡ (
      ok tt,
      record s1 {
        sent =
            s1.sent
            ++ (all_packets results ++ create_info_packet PacketType.info_hashing_completed ∷ []);
      },
    )
unfolding hash_disk send_packet
hash_disk-sent closed results s s1 begins open_ link =
    let completed = create_info_packet PacketType.info_hashing_completed in
    rw (begins, stops-open closed s.link open_, send_results-sent closed results s1 link, link)
      (ap (λ z. (ok tt, record s1 { sent = z; link = [] }))
        (append_assoc s1.sent (all_packets results) (completed ∷ [])))

route_block-writing :
    (state : State) (p : Packet) (v : Session) → state ≡ State.writing → route_block state p v ≡ v
route_block-writing state p v e = rw e refl

-- Correct blocks that come in the writing state are dropped.
drops_blocks :
    (xs : List Extent) (v : Session)
    → v.server.state ≡ State.writing
    → dispatch_all (map (λ x. packet_of (block x)) xs) v ≡ (ok tt, v)
unfolding dispatch_all dispatch
drops_blocks [] v e = refl
drops_blocks (x ∷ xs) v e =
    ap (dispatch_all (map (λ x. packet_of (block x)) xs))
      (route_block-writing v.server.state (packet_of (block x)) v e)
    ∙ drops_blocks xs v e

then_drops :
    (xs : List Extent) (t : List ℕ) (r : Outcome (Unit {0}) × Session)
    → Finished t r
    → Finished t (and_then r.0 r.1 (λ _. dispatch_all (map (λ x. packet_of (block x)) xs)))
then_drops xs t (ok _, v) (o, e, state) = rw (drops_blocks xs v state) (refl, e, state)
then_drops xs t (err x, v) (o, e, state) = absurd (cc o)
then_drops xs t (panic, v) (o, e, state) = absurd (cc o)

-- A scan that is cancelled ends with the packet that says it is complete, whichever results it has
-- sent, over a link that works. If the client takes the packet for the end of the new scan and tells
-- the server that hashing is complete while the new scan has found nothing yet, the session goes over
-- to the writing state, and no correct block of the new scan that comes later reaches the replica.
pub cancelled_scan-drops :
    (closed : Bool) (results : List ResultItem) (s0 s1 : Server) (v : Session) (s : Server)
    (t : List ℕ) (h : Header) (n : ℕ) (c : List ℕ) (xs : List Extent)
    → begin_hash_disk s0 ≡ (ok tt, s1)
    → s0.link ≡ []
    → s1.link ≡ []
    → Contains h c [] []
    → s.state ≡ State.hashing
    → length t < 2 ^ 63
    → (hash_disk closed results s0 ≡ (
      ok tt,
      record s1 {
        sent =
            s1.sent
            ++ (all_packets results ++ create_info_packet PacketType.info_hashing_completed ∷ []);
      },
    ))
      × Finished t (
          (dispatch (create_info_packet PacketType.info_hashing_completed)
              >> dispatch_all (map (λ x. packet_of (block x)) xs))
            (hashing_at v s (sound t) h n c [] [] []))
unfolding apply_all dispatch
cancelled_scan-drops closed results s0 s1 v s t h n c xs begins open_ link k live small = (
  hash_disk-sent closed results s0 s1 begins open_ link,
  then_drops xs t _ (
      completed v s t h n c [] [] [] k live
        (record { storable = tt; blocks = omega arith; writes = omega arith }) tt small),
)
