-- ===== src/Modbus/Batch/Coverage.antt =====
-- BuildBatches as a whole: which tag is read where.
pub mod Sections
use controlitix.Common.{
  ℕ, ◌+◌, ◌≤◌, ◌≡◌, refl, sym, ap, subst, ◌∙◌, ◌↔◌, inl, inr, String, List, [], ◌∷◌, ◌++◌, map,
  Option, some, arith, length, length-append, length-map, In, In-append, In-append_left, Bool-cases,
  if_elim, true, In-append_right, In-map, In-of_map, All, All-append, All-mono, All-In, All-of_In,
  is_empty, if◌then◌else◌,
}
use controlitix.Common.Result.{ok, Result-cases}
use controlitix.Snapshot.{TagSnapshot}
use controlitix.Modbus.Address.{
  RegisterType, holding, input, coil, discrete, ParsedAddress, RawTagAddress,
}
use controlitix.Modbus.Batch.Parsed.{
  HasAddress, Parses, parse_tags-Parses, Parses-length, Parses-IsNarrow, Parses-finds, Parses-from,
}
use controlitix.Modbus.Batch.{
  ReadRequest, ParsedTag, max_quantity_for, parse_tags, of_type, batches_of,
  build_batches_by_register_type, build_batches, same_type,
}
use controlitix.Modbus.Batch.Plan.{
  Cell, all_cells, all_cells-append, parsed_cell, IsFit, IsGood, IsNarrow, SortedFrom,
  build_batches_by_register_type-plan,
}
pub use Sections.{IsSortSlice, own_cell, of_type-In}
use controlitix.Modbus.Batch.Coverage.Sections.{
  IsNarrow-sort, IsNarrow-of_type, sort_nil, section_cells, plan_cells, In-plan_cells,
  plan_cells-In, length-plan_cells,
}

-- What one request may ask for: 125 registers, or 2000 bits.
abbrev pub IsAllowed : RegisterType → ℕ → Type 0
IsAllowed holding quantity = quantity ≤ 125
IsAllowed input quantity = quantity ≤ 125
IsAllowed coil quantity = quantity ≤ 2000
IsAllowed discrete quantity = quantity ≤ 2000

max_quantity-IsAllowed :
    (t : RegisterType) (quantity : ℕ) → quantity ≤ max_quantity_for t → IsAllowed t quantity
unfolding max_quantity_for
max_quantity-IsAllowed holding quantity h = h
max_quantity-IsAllowed input quantity h = h
max_quantity-IsAllowed coil quantity h = h
max_quantity-IsAllowed discrete quantity h = h

module _ (sort : List ParsedTag → List ParsedTag) (s : IsSortSlice sort) where
  module _ (unmarshal : List ℕ → Option RawTagAddress) (normalize : String → String) where
    batches_of-plan :
        (t : RegisterType) (ps : List ParsedTag) {bs : List ReadRequest}
        → All IsNarrow ps
        → batches_of unmarshal normalize sort t ps ≡ ok bs
        → (all_cells bs ≡ section_cells sort s t ps) × All (IsGood t) bs
    unfolding batches_of section_cells
    batches_of-plan t ps {bs} w e =
        go (of_type t ps) (IsNarrow-sort sort s _ (IsNarrow-of_type sort s t ps w)) e
      where
        go :
            (xs : List ParsedTag)
            → All IsNarrow (sort xs)
            → (if is_empty xs then ok [] else build_batches_by_register_type t (sort xs)) ≡ ok bs
            → (all_cells bs ≡ map (parsed_cell t) (sort xs)) × All (IsGood t) bs
        go [] v d =
            let c : [] ≡ bs = cc in
            (
              rw (← c) (sym (ap (map (parsed_cell t)) (sort_nil sort s))),
              subst (All (IsGood t)) c tt,
            )
        go (x ∷ xs) v d =
            build_batches_by_register_type-plan t (sort (x ∷ xs)) (s.sorted (x ∷ xs)) v d

    -- What a successful BuildBatches went through.
    Built : List (Option TagSnapshot) → List ReadRequest → Type 0
    Built tags bs =
        (ps : List ParsedTag) × Parses unmarshal normalize sort tags ps
        × (all_cells bs ≡ plan_cells sort s ps)
        × All IsFit bs

    IsGood-IsFit : (t : RegisterType) (bs : List ReadRequest) → All (IsGood t) bs → All IsFit bs
    IsGood-IsFit t bs = All-mono (λ _ g. g.1) bs

    joined :
        (h i c d : List ReadRequest)
        → all_cells (h ++ (i ++ (c ++ d)))
          ≡ all_cells h ++ (all_cells i ++ (all_cells c ++ all_cells d))
    joined h i c d = rw (all_cells-append h _, all_cells-append i _, all_cells-append c d)

    collect :
        (tags : List (Option TagSnapshot)) (ps : List ParsedTag) (h i c d : List ReadRequest)
        → Parses unmarshal normalize sort tags ps
        → batches_of unmarshal normalize sort holding ps ≡ ok h
        → batches_of unmarshal normalize sort input ps ≡ ok i
        → batches_of unmarshal normalize sort coil ps ≡ ok c
        → batches_of unmarshal normalize sort discrete ps ≡ ok d
        → Built tags (h ++ (i ++ (c ++ d)))
    unfolding Built plan_cells
    collect tags ps h i c d p kh ki kc kd =
        let w = Parses-IsNarrow unmarshal normalize sort tags ps p in
        let (eh, gh) = batches_of-plan holding ps w kh in
        let (ei, gi) = batches_of-plan input ps w ki in
        let (ec, gc) = batches_of-plan coil ps w kc in
        let (ed, gd) = batches_of-plan discrete ps w kd in
        let last = All-append IsFit c d (IsGood-IsFit coil c gc) (IsGood-IsFit discrete d gd) in
        let rest = All-append IsFit i (c ++ d) (IsGood-IsFit input i gi) last in
        (
          ps,
          p,
          joined h i c d ∙ rw (eh, ei, ec, ed),
          All-append IsFit h (i ++ (c ++ d)) (IsGood-IsFit holding h gh) rest,
        )

    build_batches-Built :
        (tags : List (Option TagSnapshot)) {bs : List ReadRequest}
        → build_batches unmarshal normalize sort tags ≡ ok bs
        → Built tags bs
    unfolding build_batches Built
    build_batches-Built tags {bs} e =
        elim (Result-cases (parse_tags unmarshal normalize sort tags)) [
          | inl (x, k) ↦ absurd (ground arith)
          | inr (ps, k) ↦ elim (Result-cases (batches_of unmarshal normalize sort holding ps)) [
            | inl (x, l) ↦ absurd (ground arith)
            | inr (h, kh) ↦ elim (Result-cases (batches_of unmarshal normalize sort input ps)) [
              | inl (x, l) ↦ absurd (ground arith)
              | inr (i, ki) ↦ elim (Result-cases (batches_of unmarshal normalize sort coil ps)) [
                | inl (x, l) ↦ absurd (ground arith)
                | inr (c, kc) ↦
                    elim (Result-cases (batches_of unmarshal normalize sort discrete ps)) [
                      | inl (x, l) ↦ absurd (ground arith)
                      | inr (d, kd) ↦
                          let q : h ++ (i ++ (c ++ d)) ≡ bs = ground arith in
                          subst (Built tags) q (
                            collect tags ps h i c d
                              (parse_tags-Parses unmarshal normalize sort tags k) kh ki kc kd)
                    ]
              ]
            ]
          ]
        ]

    -- A planned request asks for at least one register or bit and for no more than the protocol
    -- allows (125 registers, 2000 bits), and each of its slots lies within what it asks for.
    pub build_batches-IsFit :
        (tags : List (Option TagSnapshot)) {bs : List ReadRequest}
        → build_batches unmarshal normalize sort tags ≡ ok bs
        → All (λ b. IsFit b × IsAllowed b.register_type b.quantity) bs
    unfolding Built
    build_batches-IsFit tags e =
        All-mono (λ b f. (f, max_quantity-IsAllowed b.register_type b.quantity f.bounded)) _
          (build_batches-Built tags e).3

    -- Every configured tag is read: its address parses, and some request has a slot for it that
    -- stands, in the device, at the register type, the offset and the length of that address.
    pub build_batches-reads :
        (tags : List (Option TagSnapshot)) (tag : TagSnapshot) {bs : List ReadRequest}
        → build_batches unmarshal normalize sort tags ≡ ok bs
        → In (some tag) tags
        → (a : ParsedAddress) × HasAddress unmarshal normalize sort tag a
          × In (own_cell (record { tag = tag; address = a })) (all_cells bs)
    unfolding Built
    build_batches-reads tags tag e m =
        let (ps, p, q, _) = build_batches-Built tags e in
        let (a, h, n) = Parses-finds unmarshal normalize sort tags ps tag p m in
        (a, h, subst (In _) (sym q) (In-plan_cells sort s ps (record { tag = tag; address = a }) n))

    -- Nothing else is read: each slot of each request belongs to a configured tag, at that tag's
    -- parsed address, and there are as many slots as tags.
    pub build_batches-reads_only :
        (tags : List (Option TagSnapshot)) {bs : List ReadRequest}
        → build_batches unmarshal normalize sort tags ≡ ok bs
        → All
            (λ c.
              In (some c.tag) tags
              × HasAddress unmarshal normalize sort c.tag (record {
                register_type = c.register_type;
                offset = c.offset;
                length = c.length;
              }))
            (all_cells bs)
          × (length (all_cells bs) ≡ length tags)
    unfolding Built
    build_batches-reads_only tags {bs} e =
        let (ps, p, q, _) = build_batches-Built tags e in
        (
          All-of_In _ (all_cells bs)
              (λ c m. owner ps p c (plan_cells-In sort s ps c (subst (In c) q m))),
          ap length q
              ∙ length-plan_cells sort s ps
              ∙ Parses-length unmarshal normalize sort tags ps p,
        )
      where
        owner :
            (ps : List ParsedTag)
            → Parses unmarshal normalize sort tags ps
            → (c : Cell) → (p : ParsedTag) × In p ps × (own_cell p ≡ c)
            → In (some c.tag) tags
              × HasAddress unmarshal normalize sort c.tag
                  (record { register_type = c.register_type; offset = c.offset; length = c.length })
        owner ps r c (p, m, d) =
            subst
              (λ x.
                In (some x.tag) tags
                × HasAddress unmarshal normalize sort x.tag (record {
                  register_type = x.register_type;
                  offset = x.offset;
                  length = x.length;
                }))
              d (Parses-from unmarshal normalize sort tags ps p r m)
