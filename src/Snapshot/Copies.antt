-- ===== src/Snapshot/Copies.antt =====
-- A cloned snapshot of ms-poll/internal/usecase/snapshot_store.go against its original.
use controlitix.Common.{
  ◌≡◌, refl, sym, ap, subst, ◌∙◌, inl, inr, String, List, [], ◌∷◌, ◌++◌, Option, none, some, ite,
  is_empty, if◌then◌else◌, arith, String_discrete, string_key, In,
}
use mathlib.Core.List.{append_assoc, append-nil}
use controlitix.Common.Map.{
  Map, get, put, get-put, get-fresh, Each, Each-of_get, IsDistinct, put-IsDistinct,
}
use controlitix.Snapshot.{TagSnapshot, Snapshot}
use controlitix.Snapshot.Clone.{
  listed, entries, copy_into, relink_list, relink, index_tags, clone_snapshot,
}
use controlitix.Snapshot.Integrity.{IsIndexed, relist, relist-In, In-relist_self, In-relist}

-- What a later assignment leaves of an earlier one.
abbrev pub later : {V : Type 0} → Option V → Option V → Option V
later none o = o
later (some v) o = some v

get-copy_into :
    {V : Type 0} (acc m : Map String V) (a : String)
    → IsDistinct m
    → get (copy_into acc m) a ≡ later (get m a) (get acc a)
unfolding copy_into get
get-copy_into acc [] a h = refl
get-copy_into acc ((k, v) ∷ m) a h = elim (String_discrete k a) [
  | yes p ↦
      let fresh : get m a ≡ none = ap (get m) (sym p) ∙ get-fresh m k h.0 in
      ground (arith, fresh, get-copy_into (put acc k v) m a h.1, get-put acc k a v)
  | no n ↦ ground (arith, get-copy_into (put acc k v) m a h.1, get-put acc k a v)
]

copy_into-IsDistinct :
    {V : Type 0} (acc m : Map String V) → IsDistinct acc → IsDistinct (copy_into acc m)
unfolding copy_into
copy_into-IsDistinct acc [] h = h
copy_into-IsDistinct acc ((k, v) ∷ m) h =
    copy_into-IsDistinct (put acc k v) m (put-IsDistinct acc k v h)

abbrev AreFound : Map String TagSnapshot → List TagSnapshot → Type 0
AreFound tags ts = (t : TagSnapshot) → In t ts → get tags t.id ≡ some t

relink_list_step :
    (tags : Map String TagSnapshot) (t : TagSnapshot) (ts acc : List TagSnapshot)
    → get tags t.id ≡ some t
    → relink_list tags (t ∷ ts) acc ≡ relink_list tags ts (acc ++ t ∷ [])
unfolding relink_list
relink_list_step tags t ts acc h = ground arith

relink_list-found :
    (tags : Map String TagSnapshot) (ts acc : List TagSnapshot)
    → AreFound tags ts
    → relink_list tags ts acc ≡ (tags, acc ++ ts)
unfolding relink_list
relink_list-found tags [] acc h = ap (λ l. (tags, l)) (sym (append-nil acc))
relink_list-found tags (t ∷ ts) acc h =
    relink_list_step tags t ts acc (h t (inl refl))
    ∙ relink_list-found tags ts (acc ++ t ∷ []) (λ u m. h u (inr m))
    ∙ ap (λ l. (tags, l)) (append_assoc acc (t ∷ []) ts)

-- The list of a device after the loop over `rest`.
abbrev relinked : Option (List TagSnapshot) → List TagSnapshot → List TagSnapshot
relinked none old = old
relinked (some ts) old = if is_empty ts then old else ts

abbrev relink_lists :
    Map String (List TagSnapshot) → String → List TagSnapshot → Map String (List TagSnapshot)
relink_lists by d ts = if is_empty ts then by else put by d ts

relink_step :
    (tags : Map String TagSnapshot) (by rest : Map String (List TagSnapshot)) (d : String)
    (ts : List TagSnapshot)
    → relink_list tags ts [] ≡ (tags, ts)
    → relink tags by ((d, ts) ∷ rest) ≡ relink tags (relink_lists by d ts) rest
unfolding relink
relink_step tags by rest d ts e =
    ap (λ (p : Map String TagSnapshot × List TagSnapshot). relink p.0 (relink_lists by d p.1) rest)
      e

entries-relink_lists :
    (by : Map String (List TagSnapshot)) (d d' : String) (ts : List TagSnapshot)
    → entries (relink_lists by d ts) d'
      ≡ ite (String_discrete d d') (relinked (some ts) (entries by d')) (entries by d')
entries-relink_lists by d d' ts = ground (arith, get-put by d d' ts)

relinked-get :
    (by rest : Map String (List TagSnapshot)) (d d' : String) (ts : List TagSnapshot)
    → get rest d ≡ none
    → relinked (get rest d') (entries (relink_lists by d ts) d')
      ≡ relinked (get ((d, ts) ∷ rest) d') (entries by d')
unfolding get
relinked-get by rest d d' ts fresh = elim (String_discrete d d') [
  | yes p ↦
      let other : get rest d' ≡ none = ap (get rest) (sym p) ∙ fresh in
      ground (arith, other, entries-relink_lists by d d' ts)
  | no n ↦ ground (arith, entries-relink_lists by d d' ts)
]

relink-found :
    (tags : Map String TagSnapshot) (by rest : Map String (List TagSnapshot))
    → Each (λ _ ts. AreFound tags ts) rest
    → IsDistinct rest
    → ((relink tags by rest).0 ≡ tags)
      × ((d : String) → entries (relink tags by rest).1 d ≡ relinked (get rest d) (entries by d))
unfolding relink get
relink-found tags by [] h k = (refl, λ d. refl)
relink-found tags by ((d, ts) ∷ rest) h k =
    let (same_tags, lists) = relink-found tags (relink_lists by d ts) rest h.1 k.1 in
    let step = relink_step tags by rest d ts (relink_list-found tags ts [] h.0) in
    (
      ap (λ p. p.0) step ∙ same_tags,
      λ d'.
          ap (λ p. entries p.1 d') step
          ∙ lists d'
          ∙ relinked-get by rest d d' ts (get-fresh rest d k.0),
    )

-- The last loop keeps the two views together.
index_tags-IsIndexed :
    (tags m : Map String TagSnapshot) (by : Map String (List TagSnapshot))
    → Each (λ _ t. get tags t.id ≡ some t) m
    → IsIndexed tags by
    → IsIndexed tags (index_tags by m)
unfolding index_tags
index_tags-IsIndexed tags [] by found h = h
index_tags-IsIndexed tags ((k, tag) ∷ m) by found h =
    index_tags-IsIndexed tags m (relist by tag) found.1 (record {
      keyed = h.keyed;
      complete = λ id t e. elim (String_discrete t.id tag.id) [
        | yes p ↦
            let q : tag ≡ t = listed_once id t e p in
            subst (λ x. In x (entries (relist by tag) x.device_id)) q (In-relist_self by tag)
        | no n ↦ In-relist by tag t.device_id t (h.complete id t e) n
      ];
      owned = λ d t i. elim (relist-In by tag d t i) [
        | inl (q, p) ↦ subst (λ x. (x.device_id ≡ d) × (get tags x.id ≡ some x)) q (p, found.0)
        | inr old ↦ h.owned d t old
      ];
    })
  where
    listed_once : (id : String) (t : TagSnapshot) → get tags id ≡ some t → t.id ≡ tag.id → tag ≡ t
    listed_once id t e p =
        let a : get tags tag.id ≡ some t = ap (get tags) (sym p ∙ h.keyed id t e) ∙ e in
        ground arith

later-none : {V : Type 0} (o : Option V) → later o none ≡ o
later-none none = refl
later-none (some v) = refl

relinked_nil : (o : Option (List TagSnapshot)) → relinked o [] ≡ listed o
relinked_nil none = refl
relinked_nil (some []) = refl
relinked_nil (some (t ∷ ts)) = refl

get-copy :
    {V : Type 0} (m : Map String V) (a : String) → IsDistinct m → get (copy_into [] m) a ≡ get m a
unfolding get
get-copy m a h = get-copy_into [] m a h ∙ later-none (get m a)

-- Two snapshots that answer every lookup alike are indexed alike.
same_lookups-IsIndexed :
    (tags tags' : Map String TagSnapshot) (by by' : Map String (List TagSnapshot))
    → ((id : String) → get tags' id ≡ get tags id)
    → ((d : String) → entries by' d ≡ entries by d)
    → IsIndexed tags by
    → IsIndexed tags' by'
same_lookups-IsIndexed tags tags' by by' f g h = record {
  keyed = λ id t e. h.keyed id t (sym (f id) ∙ e);
  complete = λ id t e. subst (In t) (sym (g t.device_id)) (h.complete id t (sym (f id) ∙ e));
  owned = λ d t m. let (o, q) = h.owned d t (subst (In t) (g d) m) in (o, f t.id ∙ q);
}

-- The clone of an indexed snapshot whose maps hold no key twice is indexed, finds the same tag under
-- each identifier, and has no identifier twice.
pub clone_snapshot-IsIndexed :
    (s : Snapshot)
    → IsDistinct s.tags
    → IsDistinct s.tags_by_device
    → IsIndexed s.tags s.tags_by_device
    → IsIndexed (clone_snapshot s).tags (clone_snapshot s).tags_by_device
      × ((id : String) → get (clone_snapshot s).tags id ≡ get s.tags id)
      × IsDistinct (clone_snapshot s).tags
unfolding clone_snapshot get
clone_snapshot-IsIndexed s dt db h =
    let tags = copy_into [] s.tags in
    let copied : (id : String) → get tags id ≡ get s.tags id = λ id. get-copy s.tags id dt in
    let found =
      Each-of_get (λ _ ts. AreFound tags ts) s.tags_by_device db
        (λ d ts e t m. copied t.id ∙ (h.owned d t (subst (In t) (sym (ap listed e)) m)).1) in
    let (same_tags, lists) = relink-found tags [] s.tags_by_device found db in
    let r = relink tags [] s.tags_by_device in
    let lookups : (id : String) → get r.0 id ≡ get s.tags id =
      λ id. ap (λ m. get m id) same_tags ∙ copied id in
    let indexed =
      same_lookups-IsIndexed s.tags r.0 s.tags_by_device r.1 lookups
        (λ d. lists d ∙ relinked_nil (get s.tags_by_device d)) h in
    let distinct = subst IsDistinct (sym same_tags) (copy_into-IsDistinct [] s.tags tt) in
    (
      index_tags-IsIndexed r.0 r.0 r.1
          (Each-of_get (λ _ t. get r.0 t.id ≡ some t) r.0 distinct
            (λ id t e. ap (get r.0) (indexed.keyed id t e) ∙ e))
          indexed,
      lookups,
      distinct,
    )
