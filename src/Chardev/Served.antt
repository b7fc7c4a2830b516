-- ===== src/Chardev/Served.antt =====
-- The numbers of user/client/ioctl.go in the `switch` of `bdr_chardev_ioctl` of kern/main.c.
use bdr.Common.{
  ℕ, ◌+◌, ◌*◌, ◌%◌, ◌^◌, ◌≤◌, ◌<◌, ◌≡◌, refl, sym, ◌∙◌, true, if◌then◌else◌, ◌==◌, List, [], ◌∷◌,
  Option, none, some, ok, u64, arith, if_false, false,
}
use bdr.Ring.{BufferInfo, slot_size}
use bdr.Client.{Client}
use bdr.Client.Buffer.{get_buffer_info_byte_offset}
use bdr.Ioctl.{
  Request, get_target_info, get_status, get_buffer_info, get_buffer_info_wait, read_buffer_info,
  read_buffer_info_wait, reset_buffer, write_test_value, number, bdr_magic,
}
use bdr.Ioctl.{ioc}
use bdr.Ioctl.Fields.{ioc_lem}
use bdr.Chardev.{
  case_of, labels, Context, Call, target_info, label, selected, chardev_ioctl, IsDocumented,
  target_info_of,
}

-- The labels of the `switch` as the client computes them.
abbrev by_number : ℕ → List Request → Option Request
by_number cmd [] = none
by_number cmd (r ∷ rs) = if cmd == number r then some r else by_number cmd rs

by_number-number : (r : Request) → by_number (number r % 2 ^ 32) labels ≡ some r
unfolding number
by_number-number get_target_info = refl
by_number-number r = refl

module _ (encode : ℕ → ℕ → ℕ → ℕ → ℕ) (documented : IsDocumented encode) where
  -- At fields within their widths, the kernel's macro and the client's function agree.
  encode-ioc :
      (dir t nr size : ℕ)
      → dir < 2 ^ 2
      → t < 2 ^ 8
      → nr < 2 ^ 8
      → size < 2 ^ 14
      → encode dir t nr size ≡ ioc dir t nr size
  encode-ioc dir t nr size hd ht hn hs =
      documented dir t nr size hd ht hn hs ∙ sym (ioc_lem dir t nr size hd ht hn hs)

  own :
      (dir nr size : ℕ)
      → dir < 4
      → nr < 9
      → size < 99
      → encode dir bdr_magic nr size ≡ ioc dir bdr_magic nr size
  own dir nr size hd hn hs =
      encode-ioc dir bdr_magic nr size hd (omega arith) (omega arith) (omega arith)

  label-number : (r : Request) → label encode r ≡ number r
  unfolding number
  label-number get_target_info = own 2 1 32 (omega arith) (omega arith) (omega arith)
  label-number get_status = own 2 2 4 (omega arith) (omega arith) (omega arith)
  label-number get_buffer_info = own 2 3 40 (omega arith) (omega arith) (omega arith)
  label-number get_buffer_info_wait = own 2 4 40 (omega arith) (omega arith) (omega arith)
  label-number read_buffer_info = own 2 5 40 (omega arith) (omega arith) (omega arith)
  label-number read_buffer_info_wait = own 2 6 40 (omega arith) (omega arith) (omega arith)
  label-number reset_buffer = own 0 7 0 (omega arith) (omega arith) (omega arith)
  label-number write_test_value = own 1 8 4 (omega arith) (omega arith) (omega arith)

  case_of-number : (cmd : ℕ) (rs : List Request) → case_of encode cmd rs ≡ by_number cmd rs
  case_of-number cmd [] = refl
  case_of-number cmd (r ∷ rs) = rw (label-number r, case_of-number cmd rs) refl

  -- Each command number of the client comes to the case of its own name in the kernel's `switch`, if
  -- the kernel's `_IOC` has the documented layout.
  pub selected-number : (r : Request) → selected encode (number r) ≡ some r
  unfolding selected
  selected-number r = case_of-number (number r % 2 ^ 32) labels ∙ by_number-number r

  -- The sizes that the client asks for before all else.
  pub chardev_ioctl-target_info_of :
      (call : Call) (x : Context)
      → call.copies ≡ true
      → chardev_ioctl encode (number get_target_info) call x ≡ (target_info (target_info_of x), x)
  unfolding chardev_ioctl
  chardev_ioctl-target_info_of call x e = rw (selected-number get_target_info, e) refl

slot_within : (m r w : ℕ) → r < m → m * w < 2 ^ 64 → u64 (r * w) + w ≤ u64 (m * w)
slot_within m r w h fits =
    let upper : r * w + w ≤ m * w = grind arith in
    let er : u64 (r * w) ≡ r * w = omega (arith, upper, fits) in
    let em : u64 (m * w) ≡ m * w = omega (arith, fits) in rw (er, em) upper

-- The slot of every write that the client reads lies within the memory that it has mapped: the kernel
-- gave the sizes with BDR_CMD_GET_TARGET_INFO, the information is about its ring, and the ring has
-- slots, which take fewer than 2 ^ 64 bytes.
pub get_buffer_info_byte_offset-within :
    (x : Context) (c : Client) (info : BufferInfo) (i : ℕ)
    → c.target_info ≡ target_info_of x
    → info.max_writes ≡ x.ring.info.max_writes
    → 0 < x.ring.info.max_writes
    → x.ring.info.max_writes * slot_size x.page_size < 2 ^ 64
    → (begin : ℕ) × (get_buffer_info_byte_offset c info i ≡ ok begin)
      × (begin + c.target_info.write_info_size ≤ c.target_info.buffer_byte_size)
unfolding get_buffer_info_byte_offset target_info_of
get_buffer_info_byte_offset-within x c info i et em pos fits =
    let max = x.ring.info.max_writes in
    let w = slot_size x.page_size in
    let slot = u64 (info.offset + i) % max in
    let nonzero : (max == 0) ≡ false = ground arith in
    let below : slot < max = grind arith in
    rw (et, em) (u64 (slot * w), if_false _ _ nonzero, slot_within max slot w below fits)
