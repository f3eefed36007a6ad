-- ===== src/Samples/Modbus.antt =====
-- Two holding registers, a coil and their poll plan.
use controlitix.Common.{
  ℕ, ◌+◌, ◌-◌, ◌%◌, ◌≤◌, ◌<◌, ◌^◌, ◌≡◌, refl, inl, inr, String, List, [], ◌∷◌, Option, none, some,
  leb, if◌then◌else◌, length, In, All, arith,
}
use controlitix.Common.Int.{pos, negsuc}
use controlitix.Common.Result.{ok}
use controlitix.Snapshot.{TagSnapshot}
use controlitix.Modbus.Address.{
  holding, coil, ParsedAddress, RawTagAddress, locate, known_register_type, resolve_address_length,
  resolve_register_length, resolve_bit_length, resolve_fixed_length, parse_tag_address,
}
use controlitix.Modbus.Address.Range.{range_start, parse_tag_address-in_range, locate_overflow}
use controlitix.Modbus.Batch.{
  max_quantity_for, ParsedTag, ReadRequest, TagSlot, build_batches, build_batches_by_register_type,
}
use controlitix.Modbus.Batch.Plan.{
  IsFit, all_cells, parsed_cell, IsGood, build_batches_by_register_type-plan,
}
use controlitix.Modbus.Batch.Parsed.{HasAddress}
use controlitix.Modbus.Batch.Coverage.{
  own_cell, IsAllowed, build_batches-IsFit, build_batches-reads, build_batches-reads_only,
}
use controlitix.Modbus.Decode.{uint64, int64, decode_registers, decode_register_slot}
use controlitix.Modbus.Decode.Response.{registers, decode_register_slot-registers}
use controlitix.Modbus.Decode.RoundTrip.{
  to_bytes, to_code, decode_registers-16_bits, decode_registers-32_bits,
}
use controlitix.Samples.Sorting.{sort_tags, sort_tags-IsSortSlice}
use controlitix.Modbus.Batch.Total.{AreReadable, build_batches-total}

-- A document of one byte-sized number: the address of a holding register, or of a coil below 10000.
abbrev sample_unmarshal : List ℕ → Option RawTagAddress
sample_unmarshal [] = none
sample_unmarshal (n ∷ rest) =
    if leb n 9999
    then some (record { register_type = "coil"; address = pos n; length = none })
    else some (record { register_type = "holding"; address = pos n; length = none })

abbrev sample_normalize : String → String
sample_normalize s = s

abbrev sample_tag : String → ℕ → String → TagSnapshot
sample_tag id address data_type = record {
  id = id;
  device_id = "plc";
  name = id;
  data_type = data_type;
  unit_symbol = none;
  address = address ∷ [];
  scaling = none;
  setpoints = none;
  updated_at = 0;
}

abbrev pressure : TagSnapshot
pressure = sample_tag "pressure" 40002 "uint32"

abbrev level : TagSnapshot
level = sample_tag "level" 40001 "int16"

abbrev pump : TagSnapshot
pump = sample_tag "pump" 7 "bool"

abbrev sample_tags : List (Option TagSnapshot)
sample_tags = some pressure ∷ some pump ∷ some level ∷ []

abbrev sample_slot : TagSnapshot → ℕ → ℕ → TagSlot
sample_slot tag offset n = record { tag = tag; offset = offset; length = n }

-- The level and the pressure are read together.
abbrev sample_batches : List ReadRequest
sample_batches =
    record {
      register_type = holding;
      start_offset = 0;
      quantity = 3;
      tags = sample_slot level 0 1 ∷ sample_slot pressure 1 2 ∷ [];
    }
    ∷ record {
      register_type = coil;
      start_offset = 6;
      quantity = 1;
      tags = sample_slot pump 0 1 ∷ [];
    }
    ∷ []

sample_batches-built :
    build_batches sample_unmarshal sample_normalize sort_tags sample_tags ≡ ok sample_batches
unfolding build_batches sort_tags parse_tag_address known_register_type resolve_address_length
    resolve_register_length resolve_bit_length resolve_fixed_length locate
sample_batches-built = refl

build_batches-IsFit_example :
    All (λ b. IsFit b × IsAllowed b.register_type b.quantity) sample_batches
build_batches-IsFit_example =
    build_batches-IsFit sort_tags sort_tags-IsSortSlice sample_unmarshal sample_normalize
      sample_tags sample_batches-built

build_batches-reads_example :
    (a : ParsedAddress) × HasAddress sample_unmarshal sample_normalize sort_tags pump a
    × In (own_cell (record { tag = pump; address = a })) (all_cells sample_batches)
build_batches-reads_example =
    build_batches-reads sort_tags sort_tags-IsSortSlice sample_unmarshal sample_normalize
      sample_tags pump sample_batches-built (inr (inl refl))

build_batches-reads_only_example :
    All
      (λ c.
        In (some c.tag) sample_tags
        × HasAddress sample_unmarshal sample_normalize sort_tags c.tag
            (record { register_type = c.register_type; offset = c.offset; length = c.length }))
      (all_cells sample_batches)
    × (length (all_cells sample_batches) ≡ length sample_tags)
build_batches-reads_only_example =
    build_batches-reads_only sort_tags sort_tags-IsSortSlice sample_unmarshal sample_normalize
      sample_tags sample_batches-built

abbrev coil_tags : List ParsedTag
coil_tags =
    record { tag = pump; address = record { register_type = coil; offset = 6; length = 1 } } ∷ []

abbrev coil_batches : List ReadRequest
coil_batches =
    record {
      register_type = coil;
      start_offset = 6;
      quantity = 1;
      tags = sample_slot pump 0 1 ∷ [];
    }
    ∷ []

coil_batches-built : build_batches_by_register_type coil coil_tags ≡ ok coil_batches
unfolding build_batches_by_register_type
coil_batches-built = refl

build_batches_by_register_type-plan_example :
    (all_cells coil_batches
      ≡ parsed_cell coil
          (record { tag = pump; address = record { register_type = coil; offset = 6; length = 1 } })
        ∷ [])
    × All (IsGood coil) coil_batches
build_batches_by_register_type-plan_example =
    build_batches_by_register_type-plan coil coil_tags (omega arith, tt) (omega arith, tt)
      coil_batches-built

level_address :
    parse_tag_address sample_unmarshal sample_normalize level.address level.data_type
    ≡ ok (record { register_type = holding; offset = 0; length = 1 })
unfolding parse_tag_address known_register_type resolve_address_length resolve_register_length
    resolve_fixed_length locate
level_address = refl

parse_tag_address-in_range_example :
    (pos 40001 ≡ pos (range_start holding + 0)) × (0 < 1) × (0 + 1 ≤ 9999)
parse_tag_address-in_range_example =
    parse_tag_address-in_range sample_unmarshal sample_normalize level.address level.data_type
      (record { register_type = "holding"; address = pos 40001; length = none })
      (record { register_type = holding; offset = 0; length = 1 }) refl tt level_address

locate_overflow_example :
    (locate holding (pos (range_start holding + 1)) (2 ^ 63 - 1)
      ≡ ok (record { register_type = holding; offset = 1; length = (2 ^ 63 - 1) % 2 ^ 16 }))
    × (2000 < (2 ^ 63 - 1) % 2 ^ 16)
locate_overflow_example =
    locate_overflow holding 1 (2 ^ 63 - 1) (omega arith) (omega arith) (omega arith)

abbrev sample_device : ℕ → ℕ
sample_device n = 258 + n

decode_register_slot-registers_example :
    decode_register_slot sample_normalize (sample_slot pressure 4 2) (registers sample_device 0 6)
    ≡ decode_registers sample_normalize (registers sample_device 4 2) "uint32"
decode_register_slot-registers_example =
    decode_register_slot-registers sample_normalize sample_device 0 6 (sample_slot pressure 4 2)
      (omega arith)

decode_registers-16_bits_example :
    (decode_registers sample_normalize (to_bytes 2 65535) "uint16" ≡ ok (uint64 65535))
    × (decode_registers sample_normalize (to_bytes 2 (to_code 32768 (negsuc 0))) "int16"
        ≡ ok (int64 (negsuc 0)))
decode_registers-16_bits_example =
    decode_registers-16_bits sample_normalize "uint16" "int16" 65535 (negsuc 0) refl refl
      (omega arith) (omega arith)

decode_registers-32_bits_example :
    (decode_registers sample_normalize (to_bytes 4 70000) "uint32" ≡ ok (uint64 70000))
    × (decode_registers sample_normalize (to_bytes 4 (to_code (2 ^ 31) (negsuc 9))) "int32"
        ≡ ok (int64 (negsuc 9)))
decode_registers-32_bits_example =
    decode_registers-32_bits sample_normalize "uint32" "int32" 70000 (negsuc 9) refl refl
      (omega arith) (omega arith)

sample_tags-AreReadable :
    AreReadable sort_tags sort_tags-IsSortSlice sample_unmarshal sample_normalize sample_tags
unfolding AreReadable parse_tag_address known_register_type resolve_address_length
    resolve_register_length resolve_bit_length resolve_fixed_length locate max_quantity_for
sample_tags-AreReadable = (
  (
    pressure,
    record { register_type = holding; offset = 1; length = 2 },
    refl,
    refl,
    (omega arith, omega arith),
  ),
  (
    (
      pump,
      record { register_type = coil; offset = 6; length = 1 },
      refl,
      refl,
      (omega arith, omega arith),
    ),
    (
      (
        level,
        record { register_type = holding; offset = 0; length = 1 },
        refl,
        refl,
        (omega arith, omega arith),
      ),
      tt,
    ),
  ),
)

build_batches-total_example :
    (bs : List ReadRequest) × (build_batches sample_unmarshal sample_normalize sort_tags sample_tags
      ≡ ok bs)
build_batches-total_example =
    build_batches-total sort_tags sort_tags-IsSortSlice sample_unmarshal sample_normalize
      sample_tags sample_tags-AreReadable
