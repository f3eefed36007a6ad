-- ===== src/Modbus/Batch/Plan/Cells.antt =====
-- What a plan of ms-poll/internal/infrastructure/driver/modbus/batch.go reads, cell by cell.
use controlitix.Common.{
  ℕ, ◌+◌, ◌≤◌, ◌<◌, ◌^◌, ◌≡◌, refl, sym, ap, ◌∙◌, List, [], ◌∷◌, ◌++◌, map, Option, none, some,
  arith, All, if_elim, ltb→le,
}
use mathlib.Core.List.{append-nil, append_assoc, map-append}
use controlitix.Snapshot.{TagSnapshot}
use controlitix.Modbus.Address.{RegisterType, holding}
use controlitix.Modbus.Batch.{
  TagSlot, ReadRequest, ParsedTag, Filling, max_quantity_for, max_uint32, start_batch, extend_batch,
  next_batch, continue_batch, add_tag, finish_batches, sub32, add32, u16,
}

-- A tag at its absolute place in the device.
pub record Cell : Type 0 where
  pub tag : TagSnapshot
  pub register_type : RegisterType
  pub offset : ℕ
  pub length : ℕ

abbrev pub slot_cell : ReadRequest → TagSlot → Cell
slot_cell b s = record {
  tag = s.tag;
  register_type = b.register_type;
  offset = b.start_offset + s.offset;
  length = s.length;
}

abbrev pub cells : ReadRequest → List Cell
cells b = map (slot_cell b) b.tags

abbrev pub all_cells : List ReadRequest → List Cell
all_cells [] = []
all_cells (b ∷ bs) = cells b ++ all_cells bs

abbrev pub parsed_cell : RegisterType → ParsedTag → Cell
parsed_cell t p = record {
  tag = p.tag;
  register_type = t;
  offset = p.address.offset;
  length = p.address.length;
}

-- The request asks for no more than the protocol allows, and every slot lies in the response.
pub record IsFit (b : ReadRequest) : Type 0 where
  pub some_quantity : 0 < b.quantity
  pub bounded : b.quantity ≤ max_quantity_for b.register_type
  pub inside : All (λ s. (0 < s.length) × (s.offset + s.length ≤ b.quantity)) b.tags

-- Offsets do not fall along the list.
abbrev pub SortedFrom : ℕ → List ParsedTag → Type 0
SortedFrom n [] = Unit
SortedFrom n (p ∷ ps) = (n ≤ p.address.offset) × SortedFrom p.address.offset ps

-- The offset is a uint16.
abbrev pub IsNarrow : ParsedTag → Type 0
IsNarrow p = p.address.offset < 2 ^ 16

abbrev pub StartsBelow : ℕ → Option ReadRequest → Type 0
StartsBelow n none = Unit
StartsBelow n (some b) = b.start_offset ≤ n

abbrev pub HasType : RegisterType → Option ReadRequest → Type 0
HasType t none = Unit
HasType t (some b) = b.register_type ≡ t

pub all_cells-append :
    (bs cs : List ReadRequest) → all_cells (bs ++ cs) ≡ all_cells bs ++ all_cells cs
all_cells-append [] cs = refl
all_cells-append (b ∷ bs) cs = rw (all_cells-append bs cs, append_assoc)

pub max_quantity_small : (t : RegisterType) → max_quantity_for t ≤ 2000
unfolding max_quantity_for
max_quantity_small holding = omega arith
max_quantity_small _ = omega arith

cells-start_batch :
    (t : RegisterType) (p : ParsedTag) → cells (start_batch t p) ≡ parsed_cell t p ∷ []
unfolding start_batch
cells-start_batch t p = ground arith

-- The new slot stands at the tag's own address.
cells-extend_batch :
    (t : RegisterType) (b : ReadRequest) (p : ParsedTag) (q : ℕ)
    → b.register_type ≡ t
    → b.start_offset ≤ p.address.offset
    → p.address.offset < 2 ^ 16
    → cells (extend_batch b p q) ≡ cells b ++ parsed_cell t p ∷ []
unfolding extend_batch
cells-extend_batch t b p q e h k =
    map-append (slot_cell b) b.tags _ ∙ ap (λ c. cells b ++ c ∷ []) placed
  where
    slot : TagSlot
    slot = record {
      tag = p.tag;
      offset = u16 (sub32 p.address.offset b.start_offset);
      length = p.address.length;
    }

    placed : slot_cell b slot ≡ parsed_cell t p
    placed = ground arith

-- The batches that the loop would return if the tags ended here.
abbrev pub pending : Filling → List Cell
pending s = all_cells (finish_batches s)

all_cells-snoc :
    (done : List ReadRequest) (b : ReadRequest)
    → all_cells (done ++ b ∷ []) ≡ all_cells done ++ cells b
all_cells-snoc done b = rw (all_cells-append done (b ∷ []), append-nil)

-- The two ways on from a current batch: a new one, or one more slot in a request that stays small.
pub continue_cases :
    (P : Filling → Type 0) (t : RegisterType) (p : ParsedTag) (b : ReadRequest)
    (done : List ReadRequest)
    → P (next_batch t p b done)
    → ((q : ℕ)
        → q
          ≡ sub32
              (max_uint32
                (add32 b.start_offset b.quantity)
                (add32 p.address.offset p.address.length))
              b.start_offset
        → q ≤ max_quantity_for t
        → P (record { current = some (extend_batch b p q); batches = done }))
    → P (continue_batch t p b done)
unfolding continue_batch
continue_cases P t p b done fresh grown =
    if_elim P _ (λ _. fresh) (λ _. if_elim P _ (λ _. fresh) (λ e. grown _ refl (ltb→le _ _ e)))

next_batch-pending :
    (t : RegisterType) (p : ParsedTag) (b : ReadRequest) (done : List ReadRequest)
    → pending (next_batch t p b done) ≡ all_cells (done ++ b ∷ []) ++ parsed_cell t p ∷ []
unfolding next_batch
next_batch-pending t p b done =
    all_cells-snoc (done ++ b ∷ []) (start_batch t p)
    ∙ ap (λ c. all_cells (done ++ b ∷ []) ++ c) (cells-start_batch t p)

continue_batch-pending :
    (t : RegisterType) (p : ParsedTag) (b : ReadRequest) (done : List ReadRequest)
    → b.register_type ≡ t
    → b.start_offset ≤ p.address.offset
    → p.address.offset < 2 ^ 16
    → pending (continue_batch t p b done) ≡ all_cells (done ++ b ∷ []) ++ parsed_cell t p ∷ []
continue_batch-pending t p b done e h k =
    continue_cases (λ s. pending s ≡ all_cells (done ++ b ∷ []) ++ parsed_cell t p ∷ []) t p b done
      (next_batch-pending t p b done)
      (λ q _ _.
        all_cells-snoc done (extend_batch b p q)
        ∙ ap (λ c. all_cells done ++ c) (cells-extend_batch t b p q e h k)
        ∙ sym (append_assoc (all_cells done) (cells b) (parsed_cell t p ∷ []))
        ∙ ap (λ c. c ++ parsed_cell t p ∷ []) (sym (all_cells-snoc done b)))

pub add_tag-pending :
    (t : RegisterType) (p : ParsedTag) (s : Filling)
    → HasType t s.current
    → StartsBelow p.address.offset s.current
    → p.address.offset < 2 ^ 16
    → pending (add_tag t p s) ≡ pending s ++ parsed_cell t p ∷ []
unfolding add_tag
add_tag-pending t p s e h k = go s.current e h
  where
    go :
        (c : Option ReadRequest)
        → HasType t c
        → StartsBelow p.address.offset c
        → pending (add_tag t p (record { current = c; batches = s.batches }))
          ≡ pending (record { current = c; batches = s.batches }) ++ parsed_cell t p ∷ []
    go none e h =
        all_cells-snoc s.batches (start_batch t p)
        ∙ ap (λ c. all_cells s.batches ++ c) (cells-start_batch t p)
    go (some b) e h = continue_batch-pending t p b s.batches e h k
