-- ===== src/Modbus/Batch/Total.antt =====
-- When BuildBatches of ms-poll/internal/infrastructure/driver/modbus/batch.go returns a plan.
use controlitix.Common.{
  ℕ, subst, ◌<◌, ◌≤◌, ◌≡◌, refl, String, List, [], ◌∷◌, ◌++◌, Option, none, some, arith, In, All,
  All-In, All-of_In, is_empty, if_elim,
}
use controlitix.Common.Result.{ok}
use controlitix.Snapshot.{TagSnapshot}
use controlitix.Modbus.Address.{
  RegisterType, holding, input, coil, discrete, ParsedAddress, RawTagAddress,
}
use controlitix.Modbus.Batch.{
  ReadRequest, ParsedTag, Filling, max_quantity_for, add_tag, fill_batches,
  build_batches_by_register_type, of_type, parse_tag, parse_tags, batches_of, build_batches,
}
use controlitix.Modbus.Batch.Parsed.{HasAddress}
use controlitix.Modbus.Batch.Coverage.{IsSortSlice, of_type-In}

-- A length that one request of its register type can read.
abbrev pub IsReadable : ParsedAddress → Type 0
IsReadable a = (0 < a.length) × (a.length ≤ max_quantity_for a.register_type)

abbrev IsReadableAs : RegisterType → ParsedTag → Type 0
IsReadableAs t p = (0 < p.address.length) × (p.address.length ≤ max_quantity_for t)

fill_batches-total :
    (t : RegisterType) (ps : List ParsedTag) (s : Filling)
    → All (IsReadableAs t) ps
    → (bs : List ReadRequest) × (fill_batches t ps s ≡ ok bs)
unfolding fill_batches
fill_batches-total t [] s h = (_, refl)
fill_batches-total t (p ∷ ps) s h =
    let (bs, e) = fill_batches-total t ps (add_tag t p s) h.1 in (bs, ground (arith, h.0.0, h.0.1))

module _ (sort : List ParsedTag → List ParsedTag) (s : IsSortSlice sort)
    (unmarshal : List ℕ → Option RawTagAddress) (normalize : String → String) where
  IsReadable-of_type :
      (t : RegisterType) (ps : List ParsedTag)
      → All (λ p. IsReadable p.address) ps
      → All (IsReadableAs t) (sort (of_type t ps))
  IsReadable-of_type t ps h =
      All-of_In (IsReadableAs t) (sort (of_type t ps))
        (λ p m. readable p (of_type-In t ps p ((s.same_tags (of_type t ps) p).0 m)))
    where
      readable : (p : ParsedTag) → In p ps × (p.address.register_type ≡ t) → IsReadableAs t p
      readable p (m, e) =
          let r = All-In (λ q. IsReadable q.address) ps p h m in
          (r.0, subst (λ u. p.address.length ≤ max_quantity_for u) e r.1)

  batches_of-total :
      (t : RegisterType) (ps : List ParsedTag)
      → All (λ p. IsReadable p.address) ps
      → (bs : List ReadRequest) × (batches_of unmarshal normalize sort t ps ≡ ok bs)
  unfolding batches_of build_batches_by_register_type
  batches_of-total t ps h =
      let (bs, e) =
        fill_batches-total t (sort (of_type t ps)) (record { current = none; batches = [] })
          (IsReadable-of_type t ps h) in
      if_elim (λ x. (bs : List ReadRequest) × (x ≡ ok bs)) (is_empty (of_type t ps))
        (λ _. ([], refl)) (λ _. (bs, e))

  -- The tags have addresses that are readable.
  unfoldable pub AreReadable : List (Option TagSnapshot) → Type 0
  AreReadable tags =
      All
        (λ o.
          (tag : TagSnapshot) × (a : ParsedAddress) × (o ≡ some tag)
          × HasAddress unmarshal normalize sort tag a
          × IsReadable a)
        tags

  parse_tags-total :
      (tags : List (Option TagSnapshot))
      → AreReadable tags
      → (ps : List ParsedTag) × (parse_tags unmarshal normalize sort tags ≡ ok ps)
        × All (λ p. IsReadable p.address) ps
  unfolding parse_tags parse_tag AreReadable
  parse_tags-total [] h = ([], refl, tt)
  parse_tags-total (o ∷ tags) h =
      let (tag, a, e, found, r) = h.0 in
      let (ps, f, rs) = parse_tags-total tags h.1 in
      (record { tag = tag; address = a } ∷ ps, ground (arith, e, found, f), (r, rs))

  -- If every tag is there, its address parses, and its length is one that a request of its register
  -- type can read, then BuildBatches returns a plan.
  pub build_batches-total :
      (tags : List (Option TagSnapshot))
      → AreReadable tags
      → (bs : List ReadRequest) × (build_batches unmarshal normalize sort tags ≡ ok bs)
  unfolding build_batches
  build_batches-total tags h =
      let (ps, e, rs) = parse_tags-total tags h in
      let (hs, eh) = batches_of-total holding ps rs in
      let (is, ei) = batches_of-total input ps rs in
      let (cs, ec) = batches_of-total coil ps rs in
      let (ds, ed) = batches_of-total discrete ps rs in
      (hs ++ (is ++ (cs ++ ds)), rw (e, eh, ei, ec, ed) refl)
