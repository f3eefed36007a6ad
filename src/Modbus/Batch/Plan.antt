-- ===== src/Modbus/Batch/Plan.antt =====
-- What the loop of buildBatchesByRegisterType makes of a sorted list of tags.
pub mod Cells
use controlitix.Common.{
  ℕ, ◌+◌, ◌≤◌, ◌<◌, ◌^◌, ◌≡◌, refl, sym, ap, subst, ◌∙◌, List, [], ◌∷◌, ◌++◌, map, Option, none,
  some, arith, All, All-append, All-mono, if_elim, ltb→le,
}
use mathlib.Core.List.{append-nil, append_assoc, map-append}
use controlitix.Common.Result.{ok}
use controlitix.Snapshot.{TagSnapshot}
use controlitix.Modbus.Address.{RegisterType, holding}
use controlitix.Modbus.Batch.{
  TagSlot, ReadRequest, ParsedTag, Filling, max_quantity_for, max_uint32, start_batch, extend_batch,
  next_batch, continue_batch, add_tag, finish_batches, fill_batches, sub32, add32, u16,
  build_batches_by_register_type,
}
pub use Cells.{
  Cell, slot_cell, cells, all_cells, parsed_cell, IsFit, SortedFrom, IsNarrow, StartsBelow, HasType,
  all_cells-append, max_quantity_small, pending, continue_cases, add_tag-pending,
}

start_batch-IsFit :
    (t : RegisterType) (p : ParsedTag)
    → 0 < p.address.length
    → p.address.length ≤ max_quantity_for t
    → IsFit (start_batch t p)
unfolding start_batch
start_batch-IsFit t p h k = omega arith

-- The request grows to hold what it held and the new tag.
grown_bounds :
    (s l o n q : ℕ)
    → s ≤ o
    → o < 2 ^ 16
    → l ≤ 2000
    → n ≤ 2000
    → q ≡ sub32 (max_uint32 (add32 s n) (add32 o l)) s
    → (n ≤ q) × (o + l ≤ q + s)
unfolding max_uint32
grown_bounds s l o n q h k m b d = ground arith

extend_batch-IsFit :
    (t : RegisterType) (b : ReadRequest) (p : ParsedTag) (q : ℕ)
    → b.register_type ≡ t
    → b.start_offset ≤ p.address.offset
    → p.address.offset < 2 ^ 16
    → 0 < p.address.length
    → p.address.length ≤ max_quantity_for t
    → q
      ≡ sub32
          (max_uint32 (add32 b.start_offset b.quantity) (add32 p.address.offset p.address.length))
          b.start_offset
    → q ≤ max_quantity_for t
    → IsFit b
    → IsFit (extend_batch b p q)
unfolding extend_batch
extend_batch-IsFit t b p q e h k l m d n f =
    let g =
      grown_bounds b.start_offset p.address.length p.address.offset b.quantity q h k small narrow
        d in
    let same = ap max_quantity_for e in
    record {
      some_quantity = omega (arith, g, f.some_quantity, max_quantity_small t);
      bounded = omega (arith, same, max_quantity_small t);
      inside =
          All-append _ b.tags _
            (All-mono (λ s i. omega (arith, g, max_quantity_small t)) b.tags f.inside)
            (omega (arith, g, max_quantity_small t), tt);
    }
  where
    small : p.address.length ≤ 2000
    small = omega (arith, max_quantity_small t)

    narrow : b.quantity ≤ 2000
    narrow = omega (arith, f.bounded, max_quantity_small b.register_type)

abbrev pub IsGood : RegisterType → ReadRequest → Type 0
IsGood t b = (b.register_type ≡ t) × IsFit b

abbrev Current : (ReadRequest → Type 0) → Option ReadRequest → Type 0
Current P none = Unit
Current P (some b) = P b

-- What holds of the loop's state before a tag at offset `n` or later.
record IsFilling (t : RegisterType) (n : ℕ) (s : Filling) : Type 0 where
  current : Current (λ b. IsGood t b × (b.start_offset ≤ n)) s.current
  finished : All (IsGood t) s.batches

next_batch-IsFilling :
    (t : RegisterType) (p : ParsedTag) (b : ReadRequest) (done : List ReadRequest)
    → 0 < p.address.length
    → p.address.length ≤ max_quantity_for t
    → IsGood t b
    → All (IsGood t) done
    → IsFilling t p.address.offset (next_batch t p b done)
unfolding next_batch start_batch
next_batch-IsFilling t p b done l m g f = record {
  current = ((refl, start_batch-IsFit t p l m), omega arith);
  finished = All-append (IsGood t) done (b ∷ []) f (g, tt);
}

continue_batch-IsFilling :
    (t : RegisterType) (p : ParsedTag) (b : ReadRequest) (done : List ReadRequest)
    → b.start_offset ≤ p.address.offset
    → p.address.offset < 2 ^ 16
    → 0 < p.address.length
    → p.address.length ≤ max_quantity_for t
    → IsGood t b
    → All (IsGood t) done
    → IsFilling t p.address.offset (continue_batch t p b done)
unfolding extend_batch
continue_batch-IsFilling t p b done h k l m g f =
    continue_cases (IsFilling t p.address.offset) t p b done
      (next_batch-IsFilling t p b done l m g f)
      (λ q d n. record {
        current = ((g.0, extend_batch-IsFit t b p q g.0 h k l m d n g.1), h);
        finished = f;
      })

add_tag-IsFilling :
    (t : RegisterType) (p : ParsedTag) (s : Filling) (n : ℕ)
    → n ≤ p.address.offset
    → p.address.offset < 2 ^ 16
    → 0 < p.address.length
    → p.address.length ≤ max_quantity_for t
    → IsFilling t n s
    → IsFilling t p.address.offset (add_tag t p s)
unfolding add_tag start_batch
add_tag-IsFilling t p s n h k l m f = go s.current f.current
  where
    go :
        (c : Option ReadRequest)
        → Current (λ b. IsGood t b × (b.start_offset ≤ n)) c
        → IsFilling t p.address.offset (add_tag t p (record { current = c; batches = s.batches }))
    go none c = record {
      current = ((refl, start_batch-IsFit t p l m), omega arith);
      finished = f.finished;
    }
    go (some b) c = continue_batch-IsFilling t p b s.batches (omega arith) k l m c.0 f.finished

IsFilling-HasType : (t : RegisterType) (n : ℕ) (s : Filling) → IsFilling t n s → HasType t s.current
IsFilling-HasType t n s f = go s.current f.current
  where
    go : (c : Option ReadRequest) → Current (λ b. IsGood t b × (b.start_offset ≤ n)) c → HasType t c
    go none c = tt
    go (some b) c = c.0.0

IsFilling-StartsBelow :
    (t : RegisterType) (n m : ℕ) (s : Filling) → n ≤ m → IsFilling t n s → StartsBelow m s.current
IsFilling-StartsBelow t n m s h f = go s.current f.current
  where
    go :
        (c : Option ReadRequest)
        → Current (λ b. IsGood t b × (b.start_offset ≤ n)) c
        → StartsBelow m c
    go none c = tt
    go (some b) c = omega arith

IsFilling-finish :
    (t : RegisterType) (n : ℕ) (s : Filling) → IsFilling t n s → All (IsGood t) (finish_batches s)
IsFilling-finish t n s f = go s.current f.current
  where
    go :
        (c : Option ReadRequest)
        → Current (λ b. IsGood t b × (b.start_offset ≤ n)) c
        → All (IsGood t) (finish_batches (record { current = c; batches = s.batches }))
    go none c = f.finished
    go (some b) c = All-append (IsGood t) s.batches (b ∷ []) f.finished (c.0, tt)

fill_batches-plan :
    (t : RegisterType) (ps : List ParsedTag) (s : Filling) (n : ℕ) {bs : List ReadRequest}
    → IsFilling t n s
    → SortedFrom n ps
    → All IsNarrow ps
    → fill_batches t ps s ≡ ok bs
    → (all_cells bs ≡ pending s ++ map (parsed_cell t) ps) × All (IsGood t) bs
unfolding fill_batches
fill_batches-plan t [] s n {bs} f o w e =
    let d : finish_batches s ≡ bs = cc in
    (rw (← d) (sym (append-nil _)), subst (All (IsGood t)) d (IsFilling-finish t n s f))
fill_batches-plan t (p ∷ ps) s n {bs} f o w e =
    let l : 0 < p.address.length = ground arith in
    let m : p.address.length ≤ max_quantity_for t = ground arith in
    let r : fill_batches t ps (add_tag t p s) ≡ ok bs = ground arith in
    let g = add_tag-IsFilling t p s n o.0 w.0 l m f in
    let (c, a) = fill_batches-plan t ps (add_tag t p s) p.address.offset g o.1 w.1 r in
    (
      c
          ∙ ap (λ x. x ++ map (parsed_cell t) ps)
              (add_tag-pending t p s (IsFilling-HasType t n s f)
                (IsFilling-StartsBelow t n _ s o.0 f) w.0)
          ∙ append_assoc (pending s) (parsed_cell t p ∷ []) _,
      a,
    )

-- The plan for one register type, from its sorted tags.
pub build_batches_by_register_type-plan :
    (t : RegisterType) (ps : List ParsedTag) {bs : List ReadRequest}
    → SortedFrom 0 ps
    → All IsNarrow ps
    → build_batches_by_register_type t ps ≡ ok bs
    → (all_cells bs ≡ map (parsed_cell t) ps) × All (IsGood t) bs
unfolding build_batches_by_register_type
build_batches_by_register_type-plan t ps o w e =
    fill_batches-plan t ps (record { current = none; batches = [] }) 0
      (record { current = tt; finished = tt }) o w e
