-- ===== src/Modbus/Decode/Response.antt =====
-- A slot of a batched response against the response for the tag's registers alone.
use controlitix.Common.{
  ℕ, zero, suc, ◌+◌, ◌-◌, ◌*◌, ◌/◌, ◌%◌, ◌≤◌, ◌≡◌, refl, ap, String, List, [], ◌∷◌, arith, length,
  take, ltb, false, le→ltb,
}
use controlitix.Modbus.Batch.{TagSlot}
use controlitix.Modbus.Decode.{decode_registers, decode_register_slot, drop}

-- The payload of a register read: each register from `start` on, high byte first.
pub registers : (ℕ → ℕ) → ℕ → ℕ → List ℕ
registers device start zero = []
registers device start (suc n) =
    device start / 256 ∷ device start % 256 ∷ registers device (suc start) n

length-registers : (device : ℕ → ℕ) (start n : ℕ) → length (registers device start n) ≡ n * 2
unfolding registers
length-registers device start zero = omega arith
length-registers device start (suc n) = omega (arith, length-registers device (suc start) n)

drop-registers :
    (device : ℕ → ℕ) (start o k : ℕ)
    → drop (o * 2) (registers device start (o + k)) ≡ registers device (start + o) k
unfolding registers
drop-registers device start zero k =
    let e : 0 + k ≡ k = omega arith in let f : start + 0 ≡ start = omega arith in rw (e, f)
drop-registers device start (suc o) k =
    let e : suc o * 2 ≡ suc (suc (o * 2)) = omega arith in
    let f : suc o + k ≡ suc (o + k) = omega arith in
    let g : start + suc o ≡ suc start + o = omega arith in
    rw (e, f, g) (drop-registers device (suc start) o k)

take-registers :
    (device : ℕ → ℕ) (start n k : ℕ)
    → take (n * 2) (registers device start (n + k)) ≡ registers device start n
unfolding registers
take-registers device start zero k = refl
take-registers device start (suc n) k =
    let e : suc n * 2 ≡ suc (suc (n * 2)) = omega arith in
    let f : suc n + k ≡ suc (n + k) = omega arith in
    rw (e, f)
      (ap (λ l. device start / 256 ∷ device start % 256 ∷ l)
        (take-registers device (suc start) n k))

-- The bytes of one slot in the payload of a larger request.
slot_bytes :
    (device : ℕ → ℕ) (start quantity o n : ℕ)
    → o + n ≤ quantity
    → take (o * 2 + n * 2 - o * 2) (drop (o * 2) (registers device start quantity))
      ≡ registers device (start + o) n
slot_bytes device start quantity o n h =
    let rest = quantity - (o + n) in
    let e : quantity ≡ o + (n + rest) = omega arith in
    let f : o * 2 + n * 2 - o * 2 ≡ n * 2 = omega arith in
    rw (e, f, drop-registers device start o (n + rest)) (take-registers device (start + o) n rest)

module _ (normalize : String → String) where
  -- A slot that lies within its request decodes, from the payload of the whole request, to what
  -- the payload for the slot's own registers alone decodes to.
  pub decode_register_slot-registers :
      (device : ℕ → ℕ) (start quantity : ℕ) (slot : TagSlot)
      → slot.offset + slot.length ≤ quantity
      → decode_register_slot normalize slot (registers device start quantity)
        ≡ decode_registers normalize
            (registers device (start + slot.offset) slot.length)
            slot.tag.data_type
  unfolding decode_register_slot
  decode_register_slot-registers device start quantity slot h =
      let long : ltb (length (registers device start quantity)) (slot.offset * 2 + slot.length * 2)
          ≡ false =
        le→ltb _ _ (omega (arith, length-registers device start quantity)) in
      rw (long, slot_bytes device start quantity slot.offset slot.length h)
