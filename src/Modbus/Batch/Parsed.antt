-- ===== src/Modbus/Batch/Parsed.antt =====
-- What the first loop of BuildBatches makes of the tags.
use controlitix.Common.{
  ℕ, ◌≡◌, refl, sym, ap, subst, ◌∙◌, inl, inr, String, List, [], ◌∷◌, Option, none, some, arith,
  length, In, All, suc,
}
use controlitix.Common.Result.{ok, Result-cases}
use controlitix.Snapshot.{TagSnapshot}
use controlitix.Modbus.Address.{ParsedAddress, RawTagAddress, parse_tag_address}
use controlitix.Modbus.Address.Range.{parse_tag_address-narrow}
use controlitix.Modbus.Batch.{ParsedTag, parse_tag, parse_tags}
use controlitix.Modbus.Batch.Plan.{IsNarrow}

module _ (unmarshal : List ℕ → Option RawTagAddress) (normalize : String → String)
    (sort : List ParsedTag → List ParsedTag) where
  -- The address that ParseTagAddress finds for a tag.
  abbrev pub HasAddress : TagSnapshot → ParsedAddress → Type 0
  HasAddress tag a = parse_tag_address unmarshal normalize tag.address tag.data_type ≡ ok a

  parse_tag-HasAddress :
      (tag : TagSnapshot) {p : ParsedTag}
      → parse_tag unmarshal normalize sort (some tag) ≡ ok p
      → (p.tag ≡ tag) × HasAddress p.tag p.address
  unfolding parse_tag
  parse_tag-HasAddress tag e =
      elim (Result-cases (parse_tag_address unmarshal normalize tag.address tag.data_type)) [
        | inl (x, h) ↦ absurd (ground arith)
        | inr (a, h) ↦ ground arith
      ]

  -- What parse_tags leaves of the tags: each with its address, in order.
  abbrev pub Parses : List (Option TagSnapshot) → List ParsedTag → Type 0
  Parses [] [] = Unit
  Parses [] (p ∷ ps) = ⊥
  Parses (tag ∷ tags) [] = ⊥
  Parses (tag ∷ tags) (p ∷ ps) = (tag ≡ some p.tag) × HasAddress p.tag p.address × Parses tags ps

  pub parse_tags-Parses :
      (tags : List (Option TagSnapshot)) {ps : List ParsedTag}
      → parse_tags unmarshal normalize sort tags ≡ ok ps
      → Parses tags ps
  unfolding parse_tags
  parse_tags-Parses [] {ps = []} e = tt
  parse_tags-Parses [] {ps = p ∷ ps} e = cc
  parse_tags-Parses (tag ∷ tags) {ps} e =
      elim (Result-cases (parse_tag unmarshal normalize sort tag)) [
        | inl (x, h) ↦ absurd (ground arith)
        | inr (p, h) ↦ elim (Result-cases (parse_tags unmarshal normalize sort tags)) [
          | inl (x, i) ↦ absurd (ground arith)
          | inr (qs, i) ↦
              let d : p ∷ qs ≡ ps = ground arith in
              subst (Parses (tag ∷ tags)) d (located tag qs h (parse_tags-Parses tags i))
        ]
      ]
    where
      located :
          (o : Option TagSnapshot) {p : ParsedTag} (qs : List ParsedTag)
          → parse_tag unmarshal normalize sort o ≡ ok p
          → Parses tags qs
          → Parses (o ∷ tags) (p ∷ qs)
      located none qs h r = absurd (ground arith)
      located (some t) qs h r = let (d, a) = parse_tag-HasAddress t h in (ap some (sym d), a, r)

  pub Parses-length :
      (tags : List (Option TagSnapshot)) (ps : List ParsedTag)
      → Parses tags ps
      → length ps ≡ length tags
  Parses-length [] [] h = refl
  Parses-length [] (p ∷ ps) h = absurd h
  Parses-length (tag ∷ tags) [] h = absurd h
  Parses-length (tag ∷ tags) (p ∷ ps) h = ap suc (Parses-length tags ps h.2)

  pub Parses-IsNarrow :
      (tags : List (Option TagSnapshot)) (ps : List ParsedTag) → Parses tags ps → All IsNarrow ps
  Parses-IsNarrow [] [] h = tt
  Parses-IsNarrow [] (p ∷ ps) h = absurd h
  Parses-IsNarrow (tag ∷ tags) [] h = absurd h
  Parses-IsNarrow (tag ∷ tags) (p ∷ ps) h = (
    (parse_tag_address-narrow unmarshal normalize p.tag.address p.tag.data_type h.1).0,
    Parses-IsNarrow tags ps h.2,
  )

  pub Parses-finds :
      (tags : List (Option TagSnapshot)) (ps : List ParsedTag) (t : TagSnapshot)
      → Parses tags ps
      → In (some t) tags
      → (a : ParsedAddress) × HasAddress t a × In (record { tag = t; address = a }) ps
  Parses-finds [] ps t h m = absurd m
  Parses-finds (tag ∷ tags) [] t h m = absurd h
  Parses-finds (tag ∷ tags) (p ∷ ps) t h (inl e) =
      let d : p.tag ≡ t = cc in
      (
        p.address,
        subst (λ x. HasAddress x p.address) d h.1,
        inl (λ i. record { tag = d i; address = p.address }),
      )
  Parses-finds (tag ∷ tags) (p ∷ ps) t h (inr m) =
      let (a, k, n) = Parses-finds tags ps t h.2 m in (a, k, inr n)

  pub Parses-from :
      (tags : List (Option TagSnapshot)) (ps : List ParsedTag) (p : ParsedTag)
      → Parses tags ps
      → In p ps
      → In (some p.tag) tags × HasAddress p.tag p.address
  Parses-from [] [] p h m = absurd m
  Parses-from [] (q ∷ ps) p h m = absurd h
  Parses-from (tag ∷ tags) [] p h m = absurd h
  Parses-from (tag ∷ tags) (q ∷ ps) p h (inl e) =
      (inl (h.0 ∙ ap (λ x. some x.tag) e), subst (λ x. HasAddress x.tag x.address) e h.1)
  Parses-from (tag ∷ tags) (q ∷ ps) p h (inr m) =
      let (k, a) = Parses-from tags ps p h.2 m in (inr k, a)
