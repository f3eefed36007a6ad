-- ===== src/Modbus/Decode/RoundTrip.antt =====
-- Decoding takes back what a device encodes.
use controlitix.Common.{
  ℕ, zero, suc, ◌+◌, ◌-◌, ◌/◌, ◌%◌, ◌^◌, ◌<◌, ◌≡◌, refl, ap, String, List, [], ◌∷◌, arith, length,
  lt→ltb, le→ltb,
}
use native.Mathlib.Nat.{mod-lt, div-add-mod', one-le-pow, mod-eq_of_lt}
use controlitix.Common.Int.{ℤ, pos, negsuc}
use controlitix.Common.Result.{ok}
use controlitix.Modbus.Decode.{
  int64, uint64, big_endian, to_signed, decode_uint16, decode_uint32, decode_registers,
}

-- The last `k` bytes of a number, high byte first.
pub to_bytes : ℕ → ℕ → List ℕ
to_bytes zero x = []
to_bytes (suc k) x = x / 256 ^ k ∷ to_bytes k (x % 256 ^ k)

length-to_bytes : (k x : ℕ) → length (to_bytes k x) ≡ k
unfolding to_bytes
length-to_bytes zero x = refl
length-to_bytes (suc k) x = ap suc (length-to_bytes k (x % 256 ^ k))

pow-pos : (k : ℕ) → 0 < 256 ^ k
pow-pos k = one-le-pow k 256 (omega arith)

pub big_endian-to_bytes : (k x : ℕ) → x < 256 ^ k → big_endian (to_bytes k x) ≡ x
unfolding to_bytes big_endian
big_endian-to_bytes zero x h = omega arith
big_endian-to_bytes (suc k) x h =
    rw (length-to_bytes k (x % 256 ^ k), big_endian-to_bytes k (x % 256 ^ k) (mod-lt x (pow-pos k)))
      (div-add-mod' x (256 ^ k))

decode_uint16-to_bytes : (x : ℕ) → x < 2 ^ 16 → decode_uint16 (to_bytes 2 x) ≡ ok x
unfolding decode_uint16 to_bytes
decode_uint16-to_bytes x h = ap ok (big_endian-to_bytes 2 x h)

decode_uint32-to_bytes : (x : ℕ) → x < 2 ^ 32 → decode_uint32 (to_bytes 4 x) ≡ ok x
unfolding decode_uint32 to_bytes
decode_uint32-to_bytes x h = ap ok (big_endian-to_bytes 4 x h)

-- The bits of a signed value of `half + half` codes.
pub to_code : ℕ → ℤ → ℕ
to_code half (pos n) = n
to_code half (negsuc n) = half + half - n - 1

-- From -half up to half - 1.
abbrev pub Fits : ℕ → ℤ → Type 0
Fits half (pos n) = n < half
Fits half (negsuc n) = n < half

pub to_signed-to_code : (half : ℕ) (v : ℤ) → Fits half v → to_signed half (to_code half v) ≡ v
unfolding to_signed to_code
to_signed-to_code half (pos n) h =
    let e : n % (half + half) ≡ n = mod-eq_of_lt (omega arith) in rw (e, lt→ltb n half h)
to_signed-to_code half (negsuc n) h =
    let e : (half + half - n - 1) % (half + half) ≡ half + half - n - 1 =
      mod-eq_of_lt (omega arith) in
    rw (e, le→ltb (half + half - n - 1) half (omega arith)) (ap negsuc (omega arith))

to_code-lt : (half : ℕ) (v : ℤ) → Fits half v → to_code half v < half + half
unfolding to_code
to_code-lt half (pos n) h = omega arith
to_code-lt half (negsuc n) h = omega arith

module _ (normalize : String → String) where
  -- A 16-bit value, unsigned or in two's complement, that a device encodes as one big-endian
  -- register is what a tag of data type uint16, or int16, decodes to.
  pub decode_registers-16_bits :
      (unsigned_type signed_type : String) (x : ℕ) (v : ℤ)
      → normalize unsigned_type ≡ "uint16"
      → normalize signed_type ≡ "int16"
      → x < 2 ^ 16
      → Fits 32768 v
      → (decode_registers normalize (to_bytes 2 x) unsigned_type ≡ ok (uint64 x))
        × (decode_registers normalize (to_bytes 2 (to_code 32768 v)) signed_type ≡ ok (int64 v))
  unfolding decode_registers
  decode_registers-16_bits u s x v eu es hx hv = (
    rw (eu, decode_uint16-to_bytes x hx),
    rw (es, decode_uint16-to_bytes _ (to_code-lt 32768 v hv), to_signed-to_code 32768 v hv),
  )

  -- The same of 32-bit values in two registers, for uint32 and int32.
  pub decode_registers-32_bits :
      (unsigned_type signed_type : String) (x : ℕ) (v : ℤ)
      → normalize unsigned_type ≡ "uint32"
      → normalize signed_type ≡ "int32"
      → x < 2 ^ 32
      → Fits (2 ^ 31) v
      → (decode_registers normalize (to_bytes 4 x) unsigned_type ≡ ok (uint64 x))
        × (decode_registers normalize (to_bytes 4 (to_code (2 ^ 31) v)) signed_type ≡ ok (int64 v))
  unfolding decode_registers
  decode_registers-32_bits u s x v eu es hx hv = (
    rw (eu, decode_uint32-to_bytes x hx),
    rw (es, decode_uint32-to_bytes _ (to_code-lt (2 ^ 31) v hv), to_signed-to_code (2 ^ 31) v hv),
  )
