-- ===== src/Replica/Copies.antt =====
-- The copying loops of user/server/server.go on a sound replica.
use bdr.Common.{
  ℕ, ◌+◌, ◌^◌, ◌≤◌, ◌<◌, ◌≡◌, refl, List, [], ◌∷◌, length, overlay, ok, length-overlay, All,
}
use bdr.Device.{sound, sync}
use bdr.Device.Faults.{write_at-sound}
use bdr.Device.Overlays.{apply_all}
use bdr.Networking.{Extent}
use bdr.Journal.{read_correct_block, read_buffer_write}
use bdr.Server.{Server}
use bdr.Replica.{copy_blocks, copy_writes, replay_blocks, replay_writes}
use bdr.Replica.Puts.{Reads, whole}

-- The entry's bytes lie on a replica of `n` bytes.
abbrev pub InRange : ℕ → Extent → Type 0
InRange n x = x.offset + length x.bytes ≤ n

abbrev pub with_target : Server → List ℕ → Server
with_target s t = record s { target = sound t }

pub copy_blocks_sound :
    (xs : List Extent) (i : ℕ) (s : Server) (t : List ℕ)
    → Reads read_correct_block s.journal i xs
    → All (InRange (length t)) xs
    → length t < 2 ^ 63
    → copy_blocks (length xs) i (with_target s t) ≡ (ok tt, with_target s (apply_all t xs))
unfolding copy_blocks apply_all
copy_blocks_sound [] i s t reads fits small = refl
copy_blocks_sound (x ∷ xs) i s t (e, len, rest) (fit, fits) small =
    let n = length-overlay t x.offset x.bytes in
    rw (e, write_at-sound x.bytes x.offset t fit small)
      (copy_blocks_sound xs (i + 1) s (overlay t x.offset x.bytes) rest (rw n fits) (rw n small))

pub copy_writes_sound :
    (xs : List Extent) (i : ℕ) (s : Server) (t : List ℕ)
    → Reads read_buffer_write s.journal i xs
    → All (InRange (length t)) xs
    → length t < 2 ^ 63
    → copy_writes (length xs) i (with_target s t) ≡ (ok tt, with_target s (apply_all t xs))
unfolding copy_writes apply_all sync
copy_writes_sound [] i s t reads fits small = refl
copy_writes_sound (x ∷ xs) i s t (e, len, rest) (fit, fits) small =
    let n = length-overlay t x.offset x.bytes in
    rw (e, whole x len, write_at-sound x.bytes x.offset t fit small)
      (copy_writes_sound xs (i + 1) s (overlay t x.offset x.bytes) rest (rw n fits) (rw n small))

pub replay_blocks_sound :
    (xs : List Extent) (i : ℕ) (s : Server) (t : List ℕ)
    → Reads read_correct_block s.journal i xs
    → All (InRange (length t)) xs
    → length t < 2 ^ 63
    → replay_blocks (length xs) i (with_target s t) ≡ (ok tt, with_target s (apply_all t xs))
unfolding replay_blocks apply_all
replay_blocks_sound [] i s t reads fits small = refl
replay_blocks_sound (x ∷ xs) i s t (e, len, rest) (fit, fits) small =
    let n = length-overlay t x.offset x.bytes in
    rw (e, write_at-sound x.bytes x.offset t fit small)
      (replay_blocks_sound xs (i + 1) s (overlay t x.offset x.bytes) rest (rw n fits) (rw n small))

pub replay_writes_sound :
    (xs : List Extent) (i : ℕ) (s : Server) (t : List ℕ)
    → Reads read_buffer_write s.journal i xs
    → All (InRange (length t)) xs
    → length t < 2 ^ 63
    → replay_writes (length xs) i (with_target s t) ≡ (ok tt, with_target s (apply_all t xs))
unfolding replay_writes apply_all sync
replay_writes_sound [] i s t reads fits small = refl
replay_writes_sound (x ∷ xs) i s t (e, len, rest) (fit, fits) small =
    let n = length-overlay t x.offset x.bytes in
    rw (e, whole x len, write_at-sound x.bytes x.offset t fit small)
      (replay_writes_sound xs (i + 1) s (overlay t x.offset x.bytes) rest (rw n fits) (rw n small))
