-- ===== src/Ioctl.antt =====
-- user/client/ioctl.go: the numbers of the commands that the client gives to the kernel module, and
-- their names. An `uintptr` has 64 bits.
use Prim.Native.String.{String}
use bdr.Common.{
  ℕ, ◌+◌, ◌-◌, ◌*◌, ◌/◌, ◌%◌, ◌^◌, bit_or, List, [], ◌∷◌, ◌==◌, if◌then◌else◌, Option, none, some,
  u64,
}
pub mod Fields

-- The commands that the file declares.
pub data Request : Type 0 where
  get_target_info get_status : Request
  get_buffer_info get_buffer_info_wait : Request
  read_buffer_info read_buffer_info_wait : Request
  reset_buffer write_test_value : Request

abbrev pub ioc_none : ℕ
ioc_none = 0

abbrev pub ioc_write : ℕ
ioc_write = 1

abbrev pub ioc_read : ℕ
ioc_read = 2

abbrev pub bdr_magic : ℕ
bdr_magic = b'B'

-- `_IOC`, with the shifts _IOC_DIRSHIFT = 30, _IOC_TYPESHIFT = 8, _IOC_NRSHIFT = 0, _IOC_SIZESHIFT = 16.
unfoldable pub ioc : ℕ → ℕ → ℕ → ℕ → ℕ
ioc dir t nr size =
    bit_or (bit_or (bit_or (u64 (dir * 2 ^ 30)) (u64 (t * 2 ^ 8))) (u64 (nr * 2 ^ 0)))
      (u64 (size * 2 ^ 16))

abbrev pub io : ℕ → ℕ → ℕ
io t nr = ioc ioc_none t nr 0

abbrev pub ior : ℕ → ℕ → ℕ → ℕ
ior t nr size = ioc ioc_read t nr size

abbrev pub iow : ℕ → ℕ → ℕ → ℕ
iow t nr size = ioc ioc_write t nr size

abbrev pub iowr : ℕ → ℕ → ℕ → ℕ
iowr t nr size = ioc (bit_or ioc_read ioc_write) t nr size

-- `unsafe.Sizeof` of a struct with fields of these widths: each stands at a multiple of its width,
-- and the whole is padded to a multiple of the widest, eight bytes.
abbrev padded : ℕ → ℕ → ℕ
padded width offset = (offset + width - 1) / width * width

abbrev size_from : ℕ → List ℕ → ℕ
size_from offset [] = padded 8 offset
size_from offset (width ∷ widths) = size_from (padded width offset + width) widths

-- `TargetInfo{}` and `BufferInfo{}` of client.go.
abbrev pub target_info_size : ℕ
target_info_size = size_from 0 (8 ∷ 4 ∷ 8 ∷ 8 ∷ [])

abbrev pub buffer_info_size : ℕ
buffer_info_size = size_from 0 (8 ∷ 8 ∷ 8 ∷ 4 ∷ 8 ∷ [])

-- `enum_t` and `offset_t` are `uint32`.
abbrev pub word_size : ℕ
word_size = 4

-- The values of the `BDR_CMD_` variables.
unfoldable pub number : Request → ℕ
unfolding ioc
number get_target_info = ior bdr_magic 1 target_info_size
number get_status = ior bdr_magic 2 word_size
number get_buffer_info = ior bdr_magic 3 buffer_info_size
number get_buffer_info_wait = ior bdr_magic 4 buffer_info_size
number read_buffer_info = ior bdr_magic 5 buffer_info_size
number read_buffer_info_wait = ior bdr_magic 6 buffer_info_size
number reset_buffer = io bdr_magic 7
number write_test_value = iow bdr_magic 8 word_size

-- `ioctlCmdNames`.
abbrev pub ioctl_cmd_names : List (ℕ × String)
ioctl_cmd_names =
    (number get_target_info, "GET_TARGET_INFO")
    ∷ (number get_status, "GET_STATUS")
    ∷ (number get_buffer_info, "GET_BUFFER_INFO")
    ∷ (number get_buffer_info_wait, "GET_BUFFER_INFO_WAIT")
    ∷ (number read_buffer_info, "READ_BUFFER_INFO")
    ∷ (number read_buffer_info_wait, "READ_BUFFER_INFO_WAIT")
    ∷ (number reset_buffer, "RESET_BUFFER")
    ∷ (number write_test_value, "WRITE_TEST_VALUE")
    ∷ []

-- A name of the map, or the text "Unknown command" with the number.
pub data CommandName : Type 0 where
  known : String → CommandName
  unknown : ℕ → CommandName

abbrev pub name_in : ℕ → List (ℕ × String) → CommandName
name_in cmd [] = unknown cmd
name_in cmd ((n, name) ∷ names) = if n == cmd then known name else name_in cmd names

unfoldable pub get_ioctl_command_name : ℕ → CommandName
get_ioctl_command_name cmd = name_in cmd ioctl_cmd_names
