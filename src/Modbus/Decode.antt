-- ===== src/Modbus/Decode.antt =====
-- ms-poll/internal/infrastructure/driver/modbus/decode.go and decodeSlot of tcp.go: from the bytes
-- of a response to a value. A float keeps its bits.
pub mod Response
pub mod RoundTrip
use text.Mathlib.Text.{◌==◌ as text_eq}
use controlitix.Common.{
  ℕ, zero, suc, ◌+◌, ◌-◌, ◌*◌, ◌/◌, ◌%◌, ◌^◌, String, Bool, false, List, [], ◌∷◌, none, some, ltb,
  ◌==◌, if◌then◌else◌, length, take, get_elem?,
}
use controlitix.Common.Int.{ℤ, pos, negsuc}
use controlitix.Common.Result.{Result, ok, err, ◌>>=◌}
use controlitix.Modbus.Address.{RegisterType, holding, input, coil, discrete}
use controlitix.Modbus.Batch.{TagSlot}

-- The dynamic type of a decoded value.
pub data Value : Type 0 where
  bool : Bool → Value
  int64 : ℤ → Value
  uint64 : ℕ → Value
  float32_bits float64_bits : ℕ → Value
  string : List ℕ → Value

pub data DecodeError : Type 0 where
  not_enough_bytes unsupported_data_type payload_too_short : DecodeError

-- binary.BigEndian
unfoldable pub big_endian : List ℕ → ℕ
big_endian [] = 0
big_endian (b ∷ bs) = b * 256 ^ length bs + big_endian bs

unfoldable pub decode_uint16 : List ℕ → Result DecodeError ℕ
unfolding big_endian
decode_uint16 buf =
    if ltb (length buf) 2 then err not_enough_bytes else ok (big_endian (take 2 buf))

unfoldable pub decode_uint32 : List ℕ → Result DecodeError ℕ
unfolding big_endian
decode_uint32 buf =
    if ltb (length buf) 4 then err not_enough_bytes else ok (big_endian (take 4 buf))

unfoldable pub decode_uint64 : List ℕ → Result DecodeError ℕ
unfolding big_endian
decode_uint64 buf =
    if ltb (length buf) 8 then err not_enough_bytes else ok (big_endian (take 8 buf))

-- intN(x): the two's complement reading of the low bits.
unfoldable pub to_signed : ℕ → ℕ → ℤ
to_signed half x =
    let low = x % (half + half) in if ltb low half then pos low else negsuc (half + half - low - 1)

-- strings.TrimRight(s, "\x00")
unfoldable pub trim_zeros : List ℕ → List ℕ
trim_zeros [] = []
trim_zeros (b ∷ bs) = elim (trim_zeros bs) [
  | [] ↦ if b == 0 then [] else b ∷ []
  | c ∷ cs ↦ b ∷ c ∷ cs
]

module _ (normalize : String → String) where
  unfoldable pub decode_registers : List ℕ → String → Result DecodeError Value
  decode_registers buf data_type =
      let t = normalize data_type in
      if text_eq t "bool"
      then (decode_uint16 buf >>= λ r. ok (bool (r % 2 == 1)))
      else if text_eq t "int8"
      then (decode_uint16 buf >>= λ r. ok (int64 (to_signed 128 (r % 256))))
      else if text_eq t "uint8"
      then (decode_uint16 buf >>= λ r. ok (uint64 (r % 256)))
      else if text_eq t "int16"
      then (decode_uint16 buf >>= λ r. ok (int64 (to_signed 32768 r)))
      else if text_eq t "uint16"
      then (decode_uint16 buf >>= λ r. ok (uint64 r))
      else if text_eq t "int32"
      then (decode_uint32 buf >>= λ r. ok (int64 (to_signed (2 ^ 31) r)))
      else if text_eq t "uint32"
      then (decode_uint32 buf >>= λ r. ok (uint64 r))
      else if text_eq t "float32"
      then (decode_uint32 buf >>= λ r. ok (float32_bits r))
      else if text_eq t "float64"
      then (decode_uint64 buf >>= λ r. ok (float64_bits r))
      else if text_eq t "string"
      then ok (string (trim_zeros buf))
      else err unsupported_data_type

-- ((buf[i / 8] >> (i % 8)) & 1) == 1; out of range reads as false. The index comes from a uint16.
unfoldable pub decode_bits : List ℕ → ℕ → Bool
decode_bits buf i = elim (get_elem? buf (i / 8)) [
  | none ↦ false
  | some b ↦ b / 2 ^ (i % 8) % 2 == 1
]

abbrev pub drop : {A : Type 0} → ℕ → List A → List A
drop zero xs = xs
drop (suc n) [] = []
drop (suc n) (x ∷ xs) = drop n xs

module _ (normalize : String → String) where
  unfoldable pub decode_register_slot : TagSlot → List ℕ → Result DecodeError Value
  decode_register_slot slot payload =
      let start = slot.offset * 2 in
      let last = start + slot.length * 2 in
      if ltb (length payload) last
      then err payload_too_short
      else decode_registers normalize (take (last - start) (drop start payload)) slot.tag.data_type

  unfoldable pub decode_slot : RegisterType → TagSlot → List ℕ → Result DecodeError Value
  unfolding decode_register_slot
  decode_slot holding slot payload = decode_register_slot slot payload
  decode_slot input slot payload = decode_register_slot slot payload
  decode_slot coil slot payload = ok (bool (decode_bits payload slot.offset))
  decode_slot discrete slot payload = ok (bool (decode_bits payload slot.offset))
