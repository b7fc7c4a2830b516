-- ===== src/Chardev.antt =====
-- kern/main.c and kern/ioctl.c: what the kernel module does with a command number. `encode` is the
-- macro `_IOC` of the kernel's headers: direction, type, number and size.
use bdr.Common.{
  ℕ, ◌+◌, ◌-◌, ◌*◌, ◌/◌, ◌%◌, ◌^◌, ◌<◌, ◌≡◌, Bool, if◌then◌else◌, ◌==◌, ltb, List, [], ◌∷◌, Option,
  none, some, length, overlay, u64,
}
use bdr.Ring.{BufferInfo, Ring, slot_size, read_routine, reset_ring}
use bdr.Client.{TargetInfo}
use bdr.Ioctl.{
  Request, get_target_info, get_status, get_buffer_info, get_buffer_info_wait, read_buffer_info,
  read_buffer_info_wait, reset_buffer, write_test_value, ioc_none, ioc_read, ioc_write, bdr_magic,
}
pub mod Served

-- `enum bdr_status`.
pub data Status : Type 0 where
  active overflowing stopped : Status

-- The fields of `struct bdr_context` that the handler reads; `overflow_bits` is `max_bits` of the bitmap.
pub record Context : Type 0 where
  pub page_size : ℕ
  pub ring : Ring
  pub status : Status
  pub overflow_bits : ℕ

-- How a call goes: whether the copy to or from the caller's memory works, whether a signal ends the
-- wait, and the word at the argument.
pub record Call : Type 0 where
  pub copies : Bool
  pub interrupted : Bool
  pub offset : ℕ

-- `fault` is -EFAULT and `not_a_tty` -ENOTTY; `asleep` waits for a write; `wild` has written outside
-- the buffer.
pub data Reply : Type 0 where
  buffer_info : BufferInfo → Reply
  target_info : TargetInfo → Reply
  status : Status → Reply
  done fault not_a_tty asleep wild : Reply

-- `bdr_get_target_info`.
unfoldable pub target_info_of : Context → TargetInfo
target_info_of x = record {
  page_size = x.page_size;
  write_info_size = slot_size x.page_size;
  buffer_byte_size = u64 (x.ring.info.max_writes * slot_size x.page_size);
  bitmap_byte_size = (x.overflow_bits + 7) / 8;
}

abbrev copied : Call → Reply → Context → Reply × Context
copied call reply x = if call.copies then (reply, x) else (fault, x)

abbrev read : Call → BufferInfo × Ring → Context → Reply × Context
read call (info, r) x = copied call (buffer_info info) (record x { ring = r })

-- `wait_event_interruptible`, whose result the handler does not look at.
abbrev waited : Call → Context → Reply × Context → Reply × Context
waited call x next =
    if x.ring.info.length == 0 then (if call.interrupted then next else (asleep, x)) else next

-- A test value goes to any offset that the caller names.
abbrev test_written : ℕ → Context → Reply × Context
test_written offset x =
    let r : Ring = x.ring in
    if ltb offset (length r.buffer)
    then (done, record x { ring = record r { buffer = overlay r.buffer offset (0xAA ∷ []) } })
    else (wild, x)

-- The cases of the `switch` in `bdr_chardev_ioctl`.
unfoldable pub handle : Request → Call → Context → Reply × Context
unfolding target_info_of
handle get_target_info call x = copied call (target_info (target_info_of x)) x
handle get_status call x = copied call (status x.status) x
handle get_buffer_info call x = copied call (buffer_info x.ring.info) x
handle get_buffer_info_wait call x = waited call x (copied call (buffer_info x.ring.info) x)
handle read_buffer_info call x = read call (read_routine x.ring) x
handle read_buffer_info_wait call x = waited call x (read call (read_routine x.ring) x)
handle reset_buffer call x = (done, record x { ring = reset_ring x.ring })
handle write_test_value call x = if call.copies then test_written call.offset x else (fault, x)

-- The cases of the `switch`, in their order.
abbrev pub labels : List Request
labels =
    get_buffer_info ∷ get_target_info ∷ get_status ∷ get_buffer_info_wait ∷ read_buffer_info
    ∷ read_buffer_info_wait ∷ reset_buffer ∷ write_test_value ∷ []

module _ (encode : ℕ → ℕ → ℕ → ℕ → ℕ) where
  -- The labels of the `switch`, from kern/ioctl.h: the sizes of `struct bdr_target_info`, of the enum,
  -- of `struct bdr_buffer_info` and of a word.
  abbrev pub label : Request → ℕ
  label get_target_info = encode ioc_read bdr_magic 1 32
  label get_status = encode ioc_read bdr_magic 2 4
  label get_buffer_info = encode ioc_read bdr_magic 3 40
  label get_buffer_info_wait = encode ioc_read bdr_magic 4 40
  label read_buffer_info = encode ioc_read bdr_magic 5 40
  label read_buffer_info_wait = encode ioc_read bdr_magic 6 40
  label reset_buffer = encode ioc_none bdr_magic 7 0
  label write_test_value = encode ioc_write bdr_magic 8 4

  abbrev pub case_of : ℕ → List Request → Option Request
  case_of cmd [] = none
  case_of cmd (r ∷ rs) = if cmd == label r then some r else case_of cmd rs

  -- `cmd` is an `unsigned int` in the kernel.
  unfoldable pub selected : ℕ → Option Request
  selected cmd = case_of (cmd % 2 ^ 32) labels

  abbrev chosen : Option Request → Call → Context → Reply × Context
  chosen none call x = (not_a_tty, x)
  chosen (some r) call x = handle r call x

  unfoldable pub chardev_ioctl : ℕ → Call → Context → Reply × Context
  unfolding selected handle
  chardev_ioctl cmd call x = chosen (selected cmd) call x

  -- The layout that the kernel documents for command numbers (Documentation/userspace-api/ioctl).
  abbrev pub IsDocumented : Type 0
  IsDocumented =
      (dir t nr size : ℕ)
      → dir < 2 ^ 2
      → t < 2 ^ 8
      → nr < 2 ^ 8
      → size < 2 ^ 14
      → encode dir t nr size ≡ dir * 2 ^ 30 + size * 2 ^ 16 + t * 2 ^ 8 + nr
