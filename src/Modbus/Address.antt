-- ===== src/Modbus/Address.antt =====
-- ms-poll/internal/infrastructure/driver/modbus/address.go: from the JSON address of a tag to a
-- register type, an offset and a length.
-- `json.Unmarshal` and the Unicode tables behind strings.ToLower and strings.TrimSpace are not
-- in the repository: they are the arguments `unmarshal` and `normalize` (ToLower after TrimSpace).
pub mod Range
use text.Mathlib.Text.{◌==◌ as text_eq}
use controlitix.Common.{
  ℕ, ◌+◌, ◌-◌, ◌%◌, ◌^◌, String, ◌||◌, List, is_empty, Option, none, some, ltb, ◌==◌, if◌then◌else◌,
}
use controlitix.Common.Int.{ℤ, pos, negsuc, pos_part, ltb_ℤ}
use controlitix.Common.Result.{Result, ok, err, ◌>>=◌, ◌>>◌, refuse_if}

pub data RegisterType : Type 0 where
  holding input coil discrete : RegisterType

pub record ParsedAddress : Type 0 where
  pub register_type : RegisterType
  pub offset : ℕ  -- uint16
  pub length : ℕ  -- uint16

-- An `int` of the document is an integer, an absent "length" is `none`.
pub record RawTagAddress : Type 0 where
  pub register_type : String
  pub address : ℤ
  pub length : Option ℤ

pub data AddressError : Type 0 where
  empty_address unmarshal_failed unsupported_register_type bad_length : AddressError
  unsupported_data_type address_out_of_range length_out_of_range : AddressError

-- isKnownRegisterType, with the known type as its result.
unfoldable pub known_register_type : String → Option RegisterType
known_register_type s =
    if text_eq s "holding"
    then some holding
    else if text_eq s "input"
    then some input
    else if text_eq s "coil"
    then some coil
    else if text_eq s "discrete"
    then some discrete
    else none

unfoldable pub modbus_address_range : RegisterType → ℕ × ℕ
modbus_address_range holding = (40001, 49999)
modbus_address_range input = (30001, 39999)
modbus_address_range coil = (1, 9999)
modbus_address_range discrete = (10001, 19999)

unfoldable pub resolve_fixed_length : Option ℤ → ℕ → Result AddressError ℕ
resolve_fixed_length none expected = ok expected
resolve_fixed_length (some (pos n)) expected = if n == expected then ok expected else err bad_length
resolve_fixed_length (some (negsuc n)) expected = err bad_length

-- case "string": the length is required and positive.
unfoldable pub resolve_string_length : Option ℤ → Result AddressError ℕ
resolve_string_length none = err bad_length
resolve_string_length (some (pos n)) = if ltb 0 n then ok n else err bad_length
resolve_string_length (some (negsuc n)) = err bad_length

unfoldable pub resolve_register_length : String → Option ℤ → Result AddressError ℕ
resolve_register_length t raw =
    if text_eq t "bool"
      || text_eq t "int8"
      || text_eq t "uint8"
      || text_eq t "int16"
      || text_eq t "uint16"
    then resolve_fixed_length raw 1
    else if text_eq t "int32" || text_eq t "uint32" || text_eq t "float32"
    then resolve_fixed_length raw 2
    else if text_eq t "float64"
    then resolve_fixed_length raw 4
    else if text_eq t "string"
    then resolve_string_length raw
    else err unsupported_data_type

unfoldable pub resolve_bit_length : String → Option ℤ → Result AddressError ℕ
resolve_bit_length t raw =
    if text_eq t "bool" then resolve_fixed_length raw 1 else err unsupported_data_type

unfoldable pub resolve_address_length : RegisterType → String → Option ℤ → Result AddressError ℕ
unfolding resolve_bit_length resolve_register_length
resolve_address_length coil t raw = resolve_bit_length t raw
resolve_address_length discrete t raw = resolve_bit_length t raw
resolve_address_length holding t raw = resolve_register_length t raw
resolve_address_length input t raw = resolve_register_length t raw

-- `offset+length` on a 64-bit `int`: a sum of two non-negative values past 2^63 - 1 turns negative.
unfoldable pub add_int : ℕ → ℕ → ℤ
add_int a b = if ltb (a + b) (2 ^ 63) then pos (a + b) else negsuc (2 ^ 64 - (a + b) - 1)

-- The range checks of ParseTagAddress, behind the register type and the length.
unfoldable pub locate : RegisterType → ℤ → ℕ → Result AddressError ParsedAddress
unfolding modbus_address_range add_int
locate t address n = do
  let start = (modbus_address_range t).0
  let last = (modbus_address_range t).1
  refuse_if (ltb_ℤ address (pos start) || ltb_ℤ (pos last) address) address_out_of_range
  let offset = pos_part address - start
  refuse_if (ltb_ℤ (pos (last - start + 1)) (add_int offset n)) length_out_of_range
  ok (record { register_type = t; offset = offset % 2 ^ 16; length = n % 2 ^ 16 })

abbrev pub or_fail : {E A : Type 0} → Option A → E → Result E A
or_fail none e = err e
or_fail (some a) e = ok a

module _ (unmarshal : List ℕ → Option RawTagAddress) (normalize : String → String) where
  unfoldable pub parse_tag_address : List ℕ → String → Result AddressError ParsedAddress
  parse_tag_address raw data_type = do
    refuse_if (is_empty raw) empty_address
    r ← or_fail (unmarshal raw) unmarshal_failed
    t ← or_fail (known_register_type (normalize r.register_type)) unsupported_register_type
    n ← resolve_address_length t (normalize data_type) r.length
    locate t r.address n
