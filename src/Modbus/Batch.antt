-- ===== src/Modbus/Batch.antt =====
-- ms-poll/internal/infrastructure/driver/modbus/batch.go: neighbouring addresses are read by one
-- request. uint16 and uint32 arithmetic keeps its wrap-around.
-- A slice of tag pointers is a list of options; the argument `sort` stands for sort.Slice by offset.
pub mod Plan
pub mod Parsed
pub mod Coverage
pub mod Total
use controlitix.Common.{
  ℕ, ◌+◌, ◌-◌, ◌%◌, ◌^◌, String, Bool, true, false, List, [], ◌∷◌, ◌++◌, Option, none, some, ltb,
  ◌==◌, is_empty, if◌then◌else◌,
}
use controlitix.Common.Result.{Result, ok, err, ◌>>=◌}
use controlitix.Snapshot.{TagSnapshot}
use controlitix.Modbus.Address.{
  RegisterType, holding, input, coil, discrete, ParsedAddress, RawTagAddress, AddressError,
  parse_tag_address,
}

pub record TagSlot : Type 0 where
  pub tag : TagSnapshot
  pub offset : ℕ  -- uint16
  pub length : ℕ  -- uint16

pub record ReadRequest : Type 0 where
  pub register_type : RegisterType
  pub start_offset : ℕ  -- uint16
  pub quantity : ℕ  -- uint16
  pub tags : List TagSlot

pub record ParsedTag : Type 0 where
  pub tag : TagSnapshot
  pub address : ParsedAddress

pub data BatchError : Type 0 where
  nil_tag zero_length too_long : BatchError
  bad_address : AddressError → BatchError

unfoldable pub max_quantity_for : RegisterType → ℕ
max_quantity_for holding = 125
max_quantity_for input = 125
max_quantity_for coil = 2000
max_quantity_for discrete = 2000

abbrev pub add32 : ℕ → ℕ → ℕ
add32 a b = (a + b) % 2 ^ 32

abbrev pub sub32 : ℕ → ℕ → ℕ
sub32 a b = (a + 2 ^ 32 - b) % 2 ^ 32

abbrev pub u16 : ℕ → ℕ
u16 a = a % 2 ^ 16

unfoldable pub max_uint32 : ℕ → ℕ → ℕ
max_uint32 left right = if ltb right left then left else right

unfoldable pub start_batch : RegisterType → ParsedTag → ReadRequest
start_batch t p = record {
  register_type = t;
  start_offset = p.address.offset;
  quantity = p.address.length;
  tags = record { tag = p.tag; offset = 0; length = p.address.length } ∷ [];
}

-- The batch that is being filled and the finished ones.
pub record Filling : Type 0 where
  pub current : Option ReadRequest
  pub batches : List ReadRequest

-- currentBatch takes one more tag.
unfoldable pub extend_batch : ReadRequest → ParsedTag → ℕ → ReadRequest
extend_batch b p next_quantity = record b {
  quantity = u16 next_quantity;
  tags =
      b.tags
      ++ record {
        tag = p.tag;
        offset = u16 (sub32 p.address.offset b.start_offset);
        length = p.address.length;
      }
        ∷ [];
}

-- batches = append(batches, *currentBatch); currentBatch = startBatch(registerType, currentTag)
unfoldable pub next_batch : RegisterType → ParsedTag → ReadRequest → List ReadRequest → Filling
unfolding start_batch
next_batch t p b done = record { current = some (start_batch t p); batches = done ++ b ∷ [] }

-- One round of the loop with a current batch.
unfoldable pub continue_batch : RegisterType → ParsedTag → ReadRequest → List ReadRequest → Filling
unfolding next_batch max_uint32 max_quantity_for extend_batch
continue_batch t p b done =
    let current_end = add32 b.start_offset b.quantity in
    let tag_end = add32 p.address.offset p.address.length in
    let next_quantity = sub32 (max_uint32 current_end tag_end) b.start_offset in
    if ltb current_end p.address.offset
    then next_batch t p b done
    else if ltb (max_quantity_for t) next_quantity
    then next_batch t p b done
    else record { current = some (extend_batch b p next_quantity); batches = done }

unfoldable pub add_tag : RegisterType → ParsedTag → Filling → Filling
unfolding continue_batch start_batch
add_tag t p s = elim s.current [
  | none ↦ record s { current = some (start_batch t p) }
  | some b ↦ continue_batch t p b s.batches
]

abbrev pub finish_batches : Filling → List ReadRequest
finish_batches s = elim s.current [ none ↦ s.batches | some b ↦ s.batches ++ b ∷ [] ]

unfoldable pub fill_batches :
    RegisterType → List ParsedTag → Filling → Result BatchError (List ReadRequest)
unfolding add_tag max_quantity_for
fill_batches t [] s = ok (finish_batches s)
fill_batches t (p ∷ ps) s =
    let rest = fill_batches t ps (add_tag t p s) in
    if p.address.length == 0
    then err zero_length
    else if ltb (max_quantity_for t) p.address.length
    then err too_long
    else rest

unfoldable pub build_batches_by_register_type :
    RegisterType → List ParsedTag → Result BatchError (List ReadRequest)
unfolding fill_batches
build_batches_by_register_type t ps = fill_batches t ps (record { current = none; batches = [] })

abbrev pub same_type : RegisterType → RegisterType → Bool
same_type holding holding = true
same_type input input = true
same_type coil coil = true
same_type discrete discrete = true
same_type _ _ = false

-- parsedByType[t]
unfoldable pub of_type : RegisterType → List ParsedTag → List ParsedTag
of_type t [] = []
of_type t (p ∷ ps) =
    let rest = of_type t ps in if same_type p.address.register_type t then p ∷ rest else rest

abbrev pub map_err : {E F A : Type 0} → (E → F) → Result E A → Result F A
map_err f (ok a) = ok a
map_err f (err e) = err (f e)

module _ (unmarshal : List ℕ → Option RawTagAddress) (normalize : String → String)
    (sort : List ParsedTag → List ParsedTag) where
  unfoldable pub parse_tag : Option TagSnapshot → Result BatchError ParsedTag
  parse_tag none = err nil_tag
  parse_tag (some tag) = do
    address ← map_err bad_address (parse_tag_address unmarshal normalize tag.address tag.data_type)
    ok (record { tag = tag; address = address })

  unfoldable pub parse_tags : List (Option TagSnapshot) → Result BatchError (List ParsedTag)
  unfolding parse_tag
  parse_tags [] = ok []
  parse_tags (tag ∷ rest) = do p ← parse_tag tag; ps ← parse_tags rest; ok (p ∷ ps)

  -- The round of the second loop for one register type.
  unfoldable pub batches_of : RegisterType → List ParsedTag → Result BatchError (List ReadRequest)
  unfolding of_type build_batches_by_register_type
  batches_of t ps =
      if is_empty (of_type t ps)
      then ok []
      else build_batches_by_register_type t (sort (of_type t ps))

  unfoldable pub build_batches : List (Option TagSnapshot) → Result BatchError (List ReadRequest)
  unfolding parse_tags batches_of
  build_batches tags = do
    ps ← parse_tags tags
    h ← batches_of holding ps
    i ← batches_of input ps
    c ← batches_of coil ps
    d ← batches_of discrete ps
    ok (h ++ (i ++ (c ++ d)))
