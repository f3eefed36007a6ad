-- ===== src/Modbus/Batch/Coverage/Sections.antt =====
-- The tags by register type, sorted, in BuildBatches of
-- ms-poll/internal/infrastructure/driver/modbus/batch.go.
use controlitix.Common.{
  ◌+◌, ◌≡◌, refl, sym, ap, ◌∙◌, ◌↔◌, inl, inr, List, [], ◌∷◌, ◌++◌, map, arith, length,
  length-append, length-map, In, In-append, In-append_left, Bool-cases, if_elim, true,
  In-append_right, In-map, In-of_map, All, All-In, All-of_In,
}
use controlitix.Modbus.Address.{RegisterType, holding, input, coil, discrete}
use controlitix.Modbus.Batch.{ParsedTag, of_type, same_type}
use controlitix.Modbus.Batch.Plan.{Cell, parsed_cell, IsNarrow, SortedFrom}

-- What sort.Slice by offset promises: the same tags, none lost or doubled, in order of offset.
pub record IsSortSlice (sort : List ParsedTag → List ParsedTag) : Type 0 where
  pub sorted : (ps : List ParsedTag) → SortedFrom 0 (sort ps)
  pub same_tags : (ps : List ParsedTag) (p : ParsedTag) → In p (sort ps) ↔ In p ps
  pub same_length : (ps : List ParsedTag) → length (sort ps) ≡ length ps

length-zero {ℓ} : {A : Type ℓ} (xs : List A) → length xs ≡ 0 → xs ≡ []
length-zero [] h = refl
length-zero (x ∷ xs) h = absurd (omega arith)

abbrev pub own_cell : ParsedTag → Cell
own_cell p = parsed_cell p.address.register_type p

same_type-eq : (t u : RegisterType) → same_type t u ≡ true → t ≡ u
same_type-eq t u h = ground arith

same_type_refl : (t : RegisterType) → same_type t t ≡ true
same_type_refl t = ground arith

pub of_type-In :
    (t : RegisterType) (ps : List ParsedTag) (p : ParsedTag)
    → In p (of_type t ps)
    → In p ps × (p.address.register_type ≡ t)
unfolding of_type
of_type-In t [] p h = elim h [ ]
of_type-In t (q ∷ ps) p h = elim (Bool-cases (same_type q.address.register_type t)) [
  | inl e ↦
      let k : In p (q ∷ of_type t ps) = rw e at h in
      elim k [
        | inl d ↦ (inl d, ap (λ x. x.address.register_type) (sym d) ∙ same_type-eq _ t e)
        | inr m ↦ let (n, d) = of_type-In t ps p m in (inr n, d)
      ]
  | inr e ↦ let (n, d) = of_type-In t ps p (rw e at h) in (inr n, d)
]

In-of_type :
    (ps : List ParsedTag) (p : ParsedTag) → In p ps → In p (of_type p.address.register_type ps)
unfolding of_type
In-of_type [] p h = elim h [ ]
In-of_type (q ∷ ps) p (inl d) =
    rw (ap (λ x. same_type x.address.register_type p.address.register_type) d ∙ same_type_refl _)
      (inl d)
In-of_type (q ∷ ps) p (inr m) =
    if_elim (In p) (same_type q.address.register_type p.address.register_type)
      (λ _. inr (In-of_type ps p m)) (λ _. In-of_type ps p m)

length-of_type :
    (ps : List ParsedTag)
    → length (of_type holding ps)
        + length (of_type input ps)
        + length (of_type coil ps)
        + length (of_type discrete ps)
      ≡ length ps
unfolding of_type
length-of_type [] = omega arith
length-of_type (p ∷ ps) = ground (arith, length-of_type ps)

module _ (sort : List ParsedTag → List ParsedTag) (s : IsSortSlice sort) where
  pub IsNarrow-sort : (ps : List ParsedTag) → All IsNarrow ps → All IsNarrow (sort ps)
  IsNarrow-sort ps w =
      All-of_In IsNarrow (sort ps) (λ p m. All-In IsNarrow ps p w ((s.same_tags ps p).0 m))

  pub IsNarrow-of_type :
      (t : RegisterType) (ps : List ParsedTag) → All IsNarrow ps → All IsNarrow (of_type t ps)
  IsNarrow-of_type t ps w =
      All-of_In IsNarrow (of_type t ps) (λ p m. All-In IsNarrow ps p w (of_type-In t ps p m).0)

  pub sort_nil : sort [] ≡ []
  sort_nil = length-zero (sort []) (s.same_length [])

  unfoldable pub section_cells : RegisterType → List ParsedTag → List Cell
  section_cells t ps = map (parsed_cell t) (sort (of_type t ps))

  -- What is read, in the order in which it is read.
  unfoldable pub plan_cells : List ParsedTag → List Cell
  unfolding section_cells
  plan_cells ps =
      section_cells holding ps
      ++ (section_cells input ps ++ (section_cells coil ps ++ section_cells discrete ps))

  In-section_cells :
      (ps : List ParsedTag) (p : ParsedTag)
      → In p ps
      → In (own_cell p) (section_cells p.address.register_type ps)
  unfolding section_cells
  In-section_cells ps p m = In-map _ _ p ((s.same_tags _ p).1 (In-of_type ps p m))

  section_cells-In :
      (t : RegisterType) (ps : List ParsedTag) (c : Cell)
      → In c (section_cells t ps)
      → (p : ParsedTag) × In p ps × (own_cell p ≡ c)
  unfolding section_cells
  section_cells-In t ps c m =
      let (p, n, e) = In-of_map _ _ c m in
      let (k, d) = of_type-In t ps p ((s.same_tags _ p).0 n) in
      (p, k, ap (λ x. parsed_cell x p) d ∙ e)

  pub In-plan_cells :
      (ps : List ParsedTag) (p : ParsedTag) → In p ps → In (own_cell p) (plan_cells ps)
  unfolding plan_cells
  In-plan_cells ps p m = place p.address.register_type (In-section_cells ps p m)
    where
      place :
          (t : RegisterType)
          → In (own_cell p) (section_cells t ps)
          → In (own_cell p) (plan_cells ps)
      place holding n = In-append_left _ (section_cells holding ps) _ n
      place input n =
          In-append_right _ (section_cells holding ps) _
            (In-append_left _ (section_cells input ps) _ n)
      place coil n = In-append_right _ (section_cells holding ps) _ (
          In-append_right _ (section_cells input ps) _
            (In-append_left _ (section_cells coil ps) _ n))
      place discrete n = In-append_right _ (section_cells holding ps) _ (
          In-append_right _ (section_cells input ps) _
            (In-append_right _ (section_cells coil ps) _ n))

  pub plan_cells-In :
      (ps : List ParsedTag) (c : Cell)
      → In c (plan_cells ps)
      → (p : ParsedTag) × In p ps × (own_cell p ≡ c)
  unfolding plan_cells
  plan_cells-In ps c m = elim (In-append c (section_cells holding ps) _ m) [
    | inl h ↦ section_cells-In holding ps c h
    | inr n ↦ elim (In-append c (section_cells input ps) _ n) [
      | inl h ↦ section_cells-In input ps c h
      | inr o ↦ elim (In-append c (section_cells coil ps) _ o) [
        | inl h ↦ section_cells-In coil ps c h
        | inr q ↦ section_cells-In discrete ps c q
      ]
    ]
  ]

  length-section_cells :
      (t : RegisterType) (ps : List ParsedTag) → length (section_cells t ps) ≡ length (of_type t ps)
  unfolding section_cells
  length-section_cells t ps = length-map _ (sort (of_type t ps)) ∙ s.same_length (of_type t ps)

  pub length-plan_cells : (ps : List ParsedTag) → length (plan_cells ps) ≡ length ps
  unfolding plan_cells
  length-plan_cells ps = omega (
    arith,
    length-append (section_cells holding ps)
        (section_cells input ps ++ (section_cells coil ps ++ section_cells discrete ps)),
    length-append (section_cells input ps) (section_cells coil ps ++ section_cells discrete ps),
    length-append (section_cells coil ps) (section_cells discrete ps),
    length-section_cells,
    length-of_type ps,
  )
