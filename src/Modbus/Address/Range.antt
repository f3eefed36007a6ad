-- ===== src/Modbus/Address/Range.antt =====
-- What ParseTagAddress accepts, and where the sum of offset and length leaves the `int`.
use controlitix.Common.{
  ℕ, ◌+◌, ◌≤◌, ◌<◌, ◌^◌, ◌≡◌, String, List, Option, some, none, arith, ap, sym, subst, ◌∙◌, ◌%◌,
  Option-cases, inl, inr,
}
use controlitix.Common.Int.{ℤ, pos, negsuc}
use controlitix.Common.Result.{ok, Result-cases}
use controlitix.Modbus.Address.{
  RegisterType, holding, input, coil, discrete, ParsedAddress, RawTagAddress, locate,
  modbus_address_range, add_int, known_register_type, resolve_address_length,
  resolve_register_length, resolve_bit_length, resolve_fixed_length, resolve_string_length,
  parse_tag_address,
}

-- The first address of the register type's block, as Modbus counts.
abbrev pub range_start : RegisterType → ℕ
range_start holding = 40001
range_start input = 30001
range_start coil = 1
range_start discrete = 10001

locate-type :
    (t : RegisterType) (address : ℤ) (n : ℕ) {a : ParsedAddress}
    → locate t address n ≡ ok a
    → (a.register_type ≡ t) × (a.offset < 2 ^ 16) × (a.length < 2 ^ 16)
unfolding locate
locate-type t address n e = ground arith

locate-range :
    (t : RegisterType) (address : ℤ) (n : ℕ) {a : ParsedAddress}
    → n + 10000 < 2 ^ 63
    → locate t address n ≡ ok a
    → (address ≡ pos (range_start t + a.offset)) × (a.length ≡ n) × (a.offset + a.length ≤ 9999)
unfolding locate modbus_address_range add_int
locate-range holding address n h e = ground arith
locate-range _ address n h e = ground arith

resolve_fixed_length-pos :
    (raw : Option ℤ) (k : ℕ) {n : ℕ} → 0 < k → resolve_fixed_length raw k ≡ ok n → 0 < n
unfolding resolve_fixed_length
resolve_fixed_length-pos raw k h e = ground arith

resolve_string_length-pos : (raw : Option ℤ) {n : ℕ} → resolve_string_length raw ≡ ok n → 0 < n
unfolding resolve_string_length
resolve_string_length-pos raw e = ground arith

resolve_register_length-pos :
    (s : String) (raw : Option ℤ) {n : ℕ} → resolve_register_length s raw ≡ ok n → 0 < n
unfolding resolve_register_length
resolve_register_length-pos s raw {n} e = ground (
  arith,
  resolve_fixed_length-pos raw 1 {n = n},
  resolve_fixed_length-pos raw 2 {n = n},
  resolve_fixed_length-pos raw 4 {n = n},
  resolve_string_length-pos raw {n = n},
)

resolve_address_length-pos :
    (t : RegisterType) (s : String) (raw : Option ℤ) {n : ℕ}
    → resolve_address_length t s raw ≡ ok n
    → 0 < n
unfolding resolve_address_length resolve_bit_length
resolve_address_length-pos holding s raw {n} e = resolve_register_length-pos s raw e
resolve_address_length-pos input s raw {n} e = resolve_register_length-pos s raw e
resolve_address_length-pos coil s raw {n} e = ground (arith, resolve_fixed_length-pos raw 1 {n = n})
resolve_address_length-pos discrete s raw {n} e =
    ground (arith, resolve_fixed_length-pos raw 1 {n = n})

module _ (unmarshal : List ℕ → Option RawTagAddress) (normalize : String → String) where
  -- What an accepted address went through.
  abbrev pub Accepted : List ℕ → String → ParsedAddress → Type 0
  Accepted raw data_type a =
      (r : RawTagAddress) × (t : RegisterType) × (n : ℕ) × (unmarshal raw ≡ some r)
      × (known_register_type (normalize r.register_type) ≡ some t)
      × (resolve_address_length t (normalize data_type) r.length ≡ ok n)
      × (locate t r.address n ≡ ok a)

  pub parse_tag_address-Accepted :
      (raw : List ℕ) (data_type : String) {a : ParsedAddress}
      → parse_tag_address unmarshal normalize raw data_type ≡ ok a
      → Accepted raw data_type a
  unfolding parse_tag_address
  parse_tag_address-Accepted raw data_type e = elim (Option-cases (unmarshal raw)) [
    | inl u ↦ absurd (ground arith)
    | inr (r, u) ↦ elim (Option-cases (known_register_type (normalize r.register_type))) [
      | inl k ↦ absurd (ground arith)
      | inr (t, k) ↦ elim (Result-cases (resolve_address_length t (normalize data_type) r.length)) [
        | inl (x, l) ↦ absurd (ground arith)
        | inr (n, l) ↦ (r, t, n, u, k, l, ground arith)
      ]
    ]
  ]

  pub parse_tag_address-narrow :
      (raw : List ℕ) (data_type : String) {a : ParsedAddress}
      → parse_tag_address unmarshal normalize raw data_type ≡ ok a
      → (a.offset < 2 ^ 16) × (a.length < 2 ^ 16)
  parse_tag_address-narrow raw data_type e =
      let (r, t, n, _, _, _, l) = parse_tag_address-Accepted raw data_type e in
      omega (arith, locate-type t r.address n l)

-- A "length" that keeps `offset+length` within the `int`.
abbrev pub IsShort : Option ℤ → Type 0
IsShort none = Unit
IsShort (some (pos n)) = n + 10000 < 2 ^ 63
IsShort (some (negsuc n)) = Unit

resolve_fixed_length-IsShort :
    (raw : Option ℤ) (k : ℕ) {n : ℕ}
    → k ≤ 4
    → resolve_fixed_length raw k ≡ ok n
    → n + 10000 < 2 ^ 63
unfolding resolve_fixed_length
resolve_fixed_length-IsShort raw k h e = ground arith

resolve_string_length-IsShort :
    (raw : Option ℤ) {n : ℕ} → IsShort raw → resolve_string_length raw ≡ ok n → n + 10000 < 2 ^ 63
unfolding resolve_string_length
resolve_string_length-IsShort none h e = ground arith
resolve_string_length-IsShort (some (pos m)) h e = ground arith
resolve_string_length-IsShort (some (negsuc m)) h e = ground arith

resolve_register_length-IsShort :
    (s : String) (raw : Option ℤ) {n : ℕ}
    → IsShort raw
    → resolve_register_length s raw ≡ ok n
    → n + 10000 < 2 ^ 63
unfolding resolve_register_length
resolve_register_length-IsShort s raw {n} h e = ground (
  arith,
  resolve_fixed_length-IsShort raw 1 {n = n},
  resolve_fixed_length-IsShort raw 2 {n = n},
  resolve_fixed_length-IsShort raw 4 {n = n},
  resolve_string_length-IsShort raw {n = n} h,
)

resolve_address_length-IsShort :
    (t : RegisterType) (s : String) (raw : Option ℤ) {n : ℕ}
    → IsShort raw
    → resolve_address_length t s raw ≡ ok n
    → n + 10000 < 2 ^ 63
unfolding resolve_address_length resolve_bit_length
resolve_address_length-IsShort holding s raw h e = resolve_register_length-IsShort s raw h e
resolve_address_length-IsShort input s raw h e = resolve_register_length-IsShort s raw h e
resolve_address_length-IsShort coil s raw {n} h e =
    ground (arith, resolve_fixed_length-IsShort raw 1 {n = n})
resolve_address_length-IsShort discrete s raw {n} h e =
    ground (arith, resolve_fixed_length-IsShort raw 1 {n = n})

module _ (unmarshal : List ℕ → Option RawTagAddress) (normalize : String → String) where
  -- An accepted address whose document gives a length of fewer than 2^63 - 10000 registers, or
  -- none, has at least one register and lies with its last register inside the block of 9999
  -- addresses of its register type; the offset counts from that block's first address, which is
  -- 40001 for holding registers, 30001 for input registers, 1 for coils and 10001 for discrete
  -- inputs.
  pub parse_tag_address-in_range :
      (raw : List ℕ) (data_type : String) (r : RawTagAddress) (a : ParsedAddress)
      → unmarshal raw ≡ some r
      → IsShort r.length
      → parse_tag_address unmarshal normalize raw data_type ≡ ok a
      → (r.address ≡ pos (range_start a.register_type + a.offset))
        × (0 < a.length)
        × (a.offset + a.length ≤ 9999)
  parse_tag_address-in_range raw data_type r a u h e =
      let (q, t, n, v, _, l, k) = parse_tag_address-Accepted unmarshal normalize raw data_type e in
      let d : q ≡ r = cc in
      let short =
        resolve_address_length-IsShort t _ q.length (subst (λ x. IsShort x.length) (sym d) h) l in
      let (b, m, f) = locate-range t q.address n short k in
      let (same, _, _) = locate-type t q.address n k in
      (
        ap (λ x. x.address) (sym d) ∙ b ∙ ap (λ x. pos (range_start x + a.offset)) (sym same),
        omega (arith, resolve_address_length-pos t _ q.length l),
        f,
      )

-- The bounds check is lost where the sum of offset and length passes the largest `int`: such a
-- length, of 2^63 - 9998 or more, is accepted at any address whose offset makes the sum pass. The
-- uint16 that is left of it then exceeds what any request may read.
pub locate_overflow :
    (t : RegisterType) (o n : ℕ)
    → o ≤ 9998
    → n < 2 ^ 63
    → 2 ^ 63 ≤ o + n
    → (locate t (pos (range_start t + o)) n
        ≡ ok (record { register_type = t; offset = o; length = n % 2 ^ 16 }))
      × (2000 < n % 2 ^ 16)
unfolding locate modbus_address_range add_int
locate_overflow holding o n h k l = ground arith
locate_overflow input o n h k l = ground arith
locate_overflow coil o n h k l = ground arith
locate_overflow discrete o n h k l = ground arith
