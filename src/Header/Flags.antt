-- ===== src/Header/Flags.antt =====
-- The valid flag: `setValidFlag`, `setInvalidFlag` and `IsValid`.
use bdr.Common.{◌-◌, ◌^◌, ◌≡◌, arith, true, false, bit_and, bit_or}
use bdr.Common.Bits.{bit_and-one, bit_and-even, bit_and-le, bit_or-one}
use bdr.Header.{Header, set_valid_flag, set_invalid_flag, header_is_valid}
use bdr.Header.RoundTrip.{IsU64}

-- A header is valid behind `setValidFlag`, whatever its flags were.
pub header_is_valid-set_valid_flag : (h : Header) → header_is_valid (set_valid_flag h) ≡ true
unfolding header_is_valid set_valid_flag
header_is_valid-set_valid_flag h =
    ground (arith, bit_and-one (bit_or h.flags 1), bit_or-one h.flags)

-- A header is not valid behind `setInvalidFlag`, whatever its flags were.
pub header_is_valid-set_invalid_flag : (h : Header) → header_is_valid (set_invalid_flag h) ≡ false
unfolding header_is_valid set_invalid_flag
header_is_valid-set_invalid_flag h =
    ground (arith, bit_and-one (bit_and h.flags (2 ^ 64 - 2)), bit_and-even h.flags (2 ^ 64 - 2))

pub set_valid_flag-IsU64 : (h : Header) → IsU64 h → IsU64 (set_valid_flag h)
unfolding set_valid_flag
set_valid_flag-IsU64 h u = ground (arith, bit_or-one h.flags)

pub set_invalid_flag-IsU64 : (h : Header) → IsU64 h → IsU64 (set_invalid_flag h)
unfolding set_invalid_flag
set_invalid_flag-IsU64 h u = ground (arith, bit_and-le h.flags (2 ^ 64 - 2))
