-- ===== src/Ioctl/Fields.antt =====
-- The four fields of a command number of user/client/ioctl.go.
use bdr.Common.{ℕ, ◌+◌, ◌*◌, ◌^◌, ◌<◌, ◌≡◌, bit_or, u64, arith}
use bdr.Common.Bits.{bit_or_low, bit_or_high}
use bdr.Ioctl.{ioc}

ors_fields :
    (dir t nr size : ℕ)
    → t < 2 ^ 8
    → nr < 2 ^ 8
    → size < 2 ^ 14
    → bit_or (bit_or (bit_or (dir * 2 ^ 30) (t * 2 ^ 8)) nr) (size * 2 ^ 16)
      ≡ dir * 2 ^ 30 + size * 2 ^ 16 + t * 2 ^ 8 + nr
ors_fields dir t nr size ht hn hs =
    let m = dir * 2 ^ 30 + t * 2 ^ 8 in
    let one = bit_or_low 16 (dir * 2 ^ 14) (dir * 2 ^ 30) (t * 2 ^ 8) (omega arith) (omega arith) in
    let two = bit_or_low 8 (dir * 2 ^ 22 + t) m nr (omega arith) (omega arith) in
    let three =
      bit_or_high 16 (dir * 2 ^ 14) size (m + nr) (size * 2 ^ 16) (t * 2 ^ 8 + nr) (omega arith)
        (omega arith) (omega arith) in
    let four = bit_or_low 14 dir (dir * 2 ^ 14) size (omega arith) (omega arith) in
    rw (one, two, three, four) (omega arith)

-- What `_IOC` computes with shifts and `|` is the sum of the fields at their places.
pub ioc_lem :
    (dir t nr size : ℕ)
    → dir < 2 ^ 2
    → t < 2 ^ 8
    → nr < 2 ^ 8
    → size < 2 ^ 14
    → ioc dir t nr size ≡ dir * 2 ^ 30 + size * 2 ^ 16 + t * 2 ^ 8 + nr
unfolding ioc
ioc_lem dir t nr size hd ht hn hs =
    let ed : u64 (dir * 2 ^ 30) ≡ dir * 2 ^ 30 = omega arith in
    let et : u64 (t * 2 ^ 8) ≡ t * 2 ^ 8 = omega arith in
    let en : u64 (nr * 2 ^ 0) ≡ nr = omega arith in
    let es : u64 (size * 2 ^ 16) ≡ size * 2 ^ 16 = omega arith in
    rw (ed, et, en, es) (ors_fields dir t nr size ht hn hs)
