-- ===== src/Replica/Puts.antt =====
-- The replay loops as writes to the replica alone, on every plan of faults.
use bdr.Common.{
  ℕ, ◌+◌, ◌≡◌, refl, ◌∙◌, ap, arith, List, [], ◌∷◌, length, overlay, ok, err, panic, Outcome, M,
  pure, or_error, ignore, ◌>>=◌, ◌>>◌, server_failure, inl, inr, take-length, le→ltb, and_then,
  with_error,
}
use bdr.Device.{Disk, write_at, sync}
use bdr.Device.Faults.{write_at-Wrote, ignore_sync, content-sync}
use bdr.Device.Overlays.{apply_all, Agree, Agree-trans, Agree-part, Agree-whole, WritesWithin}
use bdr.Networking.{Extent}
use bdr.Journal.{Journal, read_correct_block, read_buffer_write}
use bdr.Server.{Server, on_target, data_to_write}
use bdr.Replica.{replay_blocks, replay_writes}

-- Entries `i` and on of the journal, as `read` finds them.
abbrev pub Reads : (ℕ → M Journal Extent) → Journal → ℕ → List Extent → Type 0
Reads read j i [] = Unit {0}
Reads read j i (x ∷ xs) =
    (read i j ≡ (ok x, j)) × (length x.bytes ≡ x.size) × Reads read j (i + 1) xs

-- The replica's part of the two loops.
pub put_blocks : List Extent → M Disk (Unit {0})
put_blocks [] = pure tt
put_blocks (x ∷ xs) = do or_error server_failure (write_at x.bytes x.offset); put_blocks xs

pub put_writes : List Extent → M Disk (Unit {0})
put_writes [] = pure tt
put_writes (x ∷ xs) = do
  or_error server_failure (write_at x.bytes x.offset)
  ignore sync
  put_writes xs

on_target-then :
    (o : Outcome (Unit {0})) (d : Disk) (s : Server) (f : Unit {0} → M Server (Unit {0}))
    (g : Unit {0} → M Disk (Unit {0}))
    → ((d' : Disk) → f tt (record s { target = d' }) ≡ on_target (g tt) (record s { target = d' }))
    → and_then (with_error server_failure o) (record s { target = d }) f
      ≡ on_target (λ d. and_then (with_error server_failure o) d g) (record s { target = d })
on_target-then (ok tt) d s f g h = h d
on_target-then (err e) d s f g h = refl
on_target-then panic d s f g h = refl

pub replay_blocks-put :
    (xs : List Extent) (i : ℕ) (s : Server)
    → Reads read_correct_block s.journal i xs
    → replay_blocks (length xs) i s ≡ on_target (put_blocks xs) s
unfolding replay_blocks put_blocks
replay_blocks-put [] i s reads = refl
replay_blocks-put (x ∷ xs) i s (e, len, rest) =
    let r = write_at x.bytes x.offset s.target in
    rw e (
      on_target-then r.0 r.1 s (λ _. replay_blocks (length xs) (i + 1)) (λ _. put_blocks xs)
        (λ d'. replay_blocks-put xs (i + 1) (record s { target = d' }) rest))

pub whole : (x : Extent) → length x.bytes ≡ x.size → data_to_write x ≡ ok x.bytes
whole x e = rw (le→ltb (length x.bytes) x.size (omega arith), ← e, take-length x.bytes)

pub replay_writes-put :
    (xs : List Extent) (i : ℕ) (s : Server)
    → Reads read_buffer_write s.journal i xs
    → replay_writes (length xs) i s ≡ on_target (put_writes xs) s
unfolding replay_writes put_writes
replay_writes-put [] i s reads = refl
replay_writes-put (x ∷ xs) i s (e, len, rest) =
    let r = write_at x.bytes x.offset s.target in
    rw (e, whole x len)
      (on_target-then r.0 r.1 s _ (λ _. ignore sync >> put_writes xs)
        (λ d'.
          rw (ignore_sync d')
            (replay_writes-put xs (i + 1) (record s { target = (sync d').1 }) rest)))

-- How a run of writes ended: all of them were made, or a failure left a part of them behind.
abbrev pub Put : List Extent → List Extent → List ℕ → Outcome (Unit {0}) → List ℕ → Type 0
Put all xs c (ok _) c' = c' ≡ apply_all c xs
Put all xs c (err e) c' = Agree all c c'
Put all xs c panic c' = ⊥

-- One write that was made in front of them.
Put-cons :
    (all xs : List Extent) (x : Extent) (o : Outcome (Unit {0})) (c c1 c' : List ℕ)
    → WritesWithin (x ∷ xs) all
    → c1 ≡ overlay c x.offset x.bytes
    → Put all xs c1 o c'
    → Put all (x ∷ xs) c o c'
unfolding apply_all
Put-cons all xs x (ok _) c c1 c' sub e h = h ∙ ap (λ z. apply_all z xs) e
Put-cons all xs x (err _) c c1 c' sub e h =
    Agree-trans all c c1 c' (rw e (Agree-whole all xs x c sub)) h
Put-cons all xs x panic c c1 c' sub e h = h

-- The step that both runs make: the write, and then the rest from the contents it left.
Put-then :
    (all xs : List Extent) (x : Extent) (d : Disk) (k : Unit {0} → M Disk (Unit {0}))
    → WritesWithin (x ∷ xs) all
    → ((d' : Disk) → Put all xs d'.content (k tt d').0 (k tt d').1.content)
    → let r = (or_error server_failure (write_at x.bytes x.offset) >>= k) d in
      Put all (x ∷ xs) d.content r.0 r.1.content
Put-then all xs x d k sub rest = elim (write_at-Wrote x.bytes x.offset d) [
  | inl (e, c) ↦
      let d1 = (write_at x.bytes x.offset d).1 in
      rw e (Put-cons all xs x (k tt d1).0 d.content d1.content (k tt d1).1.content sub c (rest d1))
  | inr (n, e, c) ↦ rw (e, c) (Agree-part all xs n x d.content sub)
]

tail_within : (all xs : List Extent) (x : Extent) → WritesWithin (x ∷ xs) all → WritesWithin xs all
tail_within all xs x sub p u = (sub p u).1

pub put_blocks-Put :
    (all xs : List Extent) (d : Disk)
    → WritesWithin xs all
    → Put all xs d.content (put_blocks xs d).0 (put_blocks xs d).1.content
unfolding put_blocks apply_all
put_blocks-Put all [] d sub = refl
put_blocks-Put all (x ∷ xs) d sub =
    Put-then all xs x d _ sub (λ d'. put_blocks-Put all xs d' (tail_within all xs x sub))

pub put_writes-Put :
    (all xs : List Extent) (d : Disk)
    → WritesWithin xs all
    → Put all xs d.content (put_writes xs d).0 (put_writes xs d).1.content
unfolding put_writes apply_all
put_writes-Put all [] d sub = refl
put_writes-Put all (x ∷ xs) d sub = Put-then all xs x d _ sub λ d'.
    rw (ignore_sync d')
      (rw (content-sync d') at (put_writes-Put all xs (sync d').1 (tail_within all xs x sub)))
