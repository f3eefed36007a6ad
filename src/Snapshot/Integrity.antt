-- ===== src/Snapshot/Integrity.antt =====
-- The two views of the tags in a snapshot of ms-poll/internal/usecase/snapshot_store.go: by
-- identifier, and by device.
use controlitix.Common.{
  ◌≡◌, refl, sym, ◌≢◌, ap, subst, ◌∙◌, ◌⊎◌, inl, inr, ite_cases, true, Bool-cases, String, List, [],
  ◌∷◌, Option, none, some, ite, if_pos, if_neg, is_empty, arith, String_discrete, string_key, In,
  In-append, In-append_left, In-append_right,
}
use controlitix.Common.Map.{Map, get, put, get-put, get-delete}
use controlitix.Snapshot.{TagSnapshot, Snapshot}
use controlitix.Snapshot.Clone.{entries, remove_tag_by_id, upsert_tag_to_slice}
use controlitix.Snapshot.Store.{unlist, unlist_existing, with_tag, without_tag}

-- Each tag stands under its own identifier, is listed under its device, and every listed tag is
-- listed under its own device and found under its identifier.
pub record IsIndexed (tags : Map String TagSnapshot) (by : Map String (List TagSnapshot))
    : Type 0 where
  pub keyed : (id : String) (t : TagSnapshot) → get tags id ≡ some t → t.id ≡ id
  pub complete :
      (id : String) (t : TagSnapshot) → get tags id ≡ some t → In t (entries by t.device_id)
  pub owned :
      (d : String) (t : TagSnapshot)
      → In t (entries by d)
      → (t.device_id ≡ d) × (get tags t.id ≡ some t)

pub remove_tag_by_id-In :
    (ts : List TagSnapshot) (id : String) (t : TagSnapshot)
    → In t (remove_tag_by_id ts id)
    → In t ts × (t.id ≢ id)
unfolding remove_tag_by_id
remove_tag_by_id-In (u ∷ ts) id t m = elim (String_discrete u.id id) [
  | yes e ↦ let (a, b) = remove_tag_by_id-In ts id t (rw (if_pos _ e) at m) in (inr a, b)
  | no n ↦
      let k : In t (u ∷ remove_tag_by_id ts id) = rw (if_neg _ n) at m in
      elim k [
        | inl e ↦ (inl e, λ q. n (ap (λ x. x.id) e ∙ q))
        | inr i ↦ let (a, b) = remove_tag_by_id-In ts id t i in (inr a, b)
      ]
]
remove_tag_by_id-In [] id t m = elim m [ ]

pub In-remove_tag_by_id :
    (ts : List TagSnapshot) (id : String) (t : TagSnapshot)
    → In t ts
    → t.id ≢ id
    → In t (remove_tag_by_id ts id)
unfolding remove_tag_by_id
In-remove_tag_by_id [] id t m n = elim m [ ]
In-remove_tag_by_id (u ∷ ts) id t (inl e) n =
    rw (if_neg _ (λ q. n (sym (ap (λ x. x.id) e) ∙ q))) (inl e)
In-remove_tag_by_id (u ∷ ts) id t (inr m) n =
    ite_cases (In t) (String_discrete u.id id) (In-remove_tag_by_id ts id t m n)
      (λ _. inr (In-remove_tag_by_id ts id t m n))

entries-put :
    (by : Map String (List TagSnapshot)) (d d' : String) (ts : List TagSnapshot)
    → entries (put by d ts) d' ≡ ite (String_discrete d d') ts (entries by d')
entries-put by d d' ts = ground (arith, get-put by d d' ts)

empty-nil : (ts : List TagSnapshot) → is_empty ts ≡ true → ts ≡ []
empty-nil [] e = refl
empty-nil (t ∷ ts) e = cc

entries-unlist :
    (by : Map String (List TagSnapshot)) (d d' id : String)
    → entries (unlist by d id) d'
      ≡ ite (String_discrete d d') (remove_tag_by_id (entries by d) id) (entries by d')
unfolding unlist
entries-unlist by d d' id =
    let left = remove_tag_by_id (entries by d) id in
    elim (Bool-cases (is_empty left)) [
      | inl e ↦
          ground (arith, empty-nil left e, get-delete (put by d left) d d', get-put by d d' left)
      | inr e ↦ ground (arith, get-put by d d' left)
    ]

-- Once a tag is taken off the list of its device, no list has it any more.
unlist-In :
    (tags : Map String TagSnapshot) (by : Map String (List TagSnapshot)) (e : TagSnapshot)
    (id d : String) (t : TagSnapshot)
    → IsIndexed tags by
    → get tags id ≡ some e
    → In t (entries (unlist by e.device_id id) d)
    → In t (entries by d) × (t.id ≢ id)
unlist-In tags by e id d t h found m =
    let k = subst (In t) (entries-unlist by e.device_id d id) m in
    elim (String_discrete e.device_id d) [
      | yes p ↦
          let (a, b) = remove_tag_by_id-In (entries by e.device_id) id t (rw (if_pos _ p) at k) in
          (subst (λ x. In t (entries by x)) p a, b)
      | no n ↦
          let a : In t (entries by d) = rw (if_neg _ n) at k in
          (a, λ q. let (o, g) = h.owned d t a in n (ground arith))
    ]

In-unlist :
    (by : Map String (List TagSnapshot)) (d d' id : String) (t : TagSnapshot)
    → In t (entries by d')
    → t.id ≢ id
    → In t (entries (unlist by d id) d')
In-unlist by d d' id t m n =
    subst (In t) (sym (entries-unlist by d d' id)) (elim (String_discrete d d') [
      | yes p ↦
          rw (if_pos _ p)
            (In-remove_tag_by_id (entries by d) id t (subst (λ x. In t (entries by x)) (sym p) m) n)
      | no q ↦ rw (if_neg _ q) m
    ])

-- The same of the list that is there, if any.
unlist_existing-In :
    (tags : Map String TagSnapshot) (by : Map String (List TagSnapshot)) (o : Option TagSnapshot)
    (id d : String) (t : TagSnapshot)
    → IsIndexed tags by
    → get tags id ≡ o
    → In t (entries (unlist_existing by o id) d)
    → In t (entries by d) × (t.id ≢ id)
unlist_existing-In tags by (some e) id d t h found m = unlist-In tags by e id d t h found m
unlist_existing-In tags by none id d t h found m =
    (m, λ q. let (_, g) = h.owned d t m in absurd (ground arith))

In-unlist_existing :
    (by : Map String (List TagSnapshot)) (o : Option TagSnapshot) (id d : String) (t : TagSnapshot)
    → In t (entries by d)
    → t.id ≢ id
    → In t (entries (unlist_existing by o id) d)
In-unlist_existing by (some e) id d t m n = In-unlist by e.device_id d id t m n
In-unlist_existing by none id d t m n = m

-- TagsByDevice[tag.DeviceID] = upsertTagToSlice(TagsByDevice[tag.DeviceID], tag)
abbrev pub relist : Map String (List TagSnapshot) → TagSnapshot → Map String (List TagSnapshot)
relist by tag = put by tag.device_id (upsert_tag_to_slice (entries by tag.device_id) tag)

pub relist-In :
    (by : Map String (List TagSnapshot)) (tag : TagSnapshot) (d : String) (t : TagSnapshot)
    → In t (entries (relist by tag) d)
    → ((tag ≡ t) × (tag.device_id ≡ d)) ⊎ In t (entries by d)
relist-In by tag d t m =
    let k =
      subst (In t)
        (entries-put by tag.device_id d (upsert_tag_to_slice (entries by tag.device_id) tag)) m in
    elim (String_discrete tag.device_id d) [
      | yes p ↦
          elim (In-append t (remove_tag_by_id (entries by tag.device_id) tag.id) (tag ∷ [])
            (rw (if_pos _ p) at k)) [
              | inl a ↦ inr (
                  subst (λ x. In t (entries by x)) p
                    (remove_tag_by_id-In (entries by tag.device_id) tag.id t a).0)
              | inr b ↦ elim b [ inl q ↦ inl (q, p) | inr c ↦ elim c [ ] ]
            ]
      | no n ↦ inr (rw (if_neg _ n) at k)
    ]

pub In-relist_self :
    (by : Map String (List TagSnapshot)) (tag : TagSnapshot)
    → In tag (entries (relist by tag) tag.device_id)
In-relist_self by tag =
    subst (In tag)
      (sym (
        entries-put by tag.device_id tag.device_id
          (upsert_tag_to_slice (entries by tag.device_id) tag)))
      (rw (if_pos _ refl) (
        In-append_right tag (remove_tag_by_id (entries by tag.device_id) tag.id) (tag ∷ [])
          (inl refl)))

pub In-relist :
    (by : Map String (List TagSnapshot)) (tag : TagSnapshot) (d : String) (t : TagSnapshot)
    → In t (entries by d)
    → t.id ≢ tag.id
    → In t (entries (relist by tag) d)
In-relist by tag d t m n =
    subst (In t)
      (sym (entries-put by tag.device_id d (upsert_tag_to_slice (entries by tag.device_id) tag)))
      (elim (String_discrete tag.device_id d) [
        | yes p ↦ rw (if_pos _ p) (
            In-append_left t (remove_tag_by_id (entries by tag.device_id) tag.id) (tag ∷ []) (
              In-remove_tag_by_id (entries by tag.device_id) tag.id t
                (subst (λ x. In t (entries by x)) (sym p) m) n))
        | no q ↦ rw (if_neg _ q) m
      ])

-- Storing a tag, new or known, under its device or another one, keeps the two views together.
pub with_tag-IsIndexed :
    (s : Snapshot) (tag : TagSnapshot)
    → IsIndexed s.tags s.tags_by_device
    → IsIndexed (with_tag s tag).tags (with_tag s tag).tags_by_device
unfolding with_tag
with_tag-IsIndexed s tag h =
    let by = unlist_existing s.tags_by_device (get s.tags tag.id) tag.id in
    record {
      keyed = λ id t e. elim (String_discrete tag.id id) [
        | yes p ↦ ground (arith, get-put s.tags tag.id id tag)
        | no n ↦ h.keyed id t (ground (arith, get-put s.tags tag.id id tag))
      ];
      complete = λ id t e. elim (String_discrete tag.id id) [
        | yes p ↦
            let q : tag ≡ t = ground (arith, get-put s.tags tag.id id tag) in
            subst (λ x. In x (entries (relist by tag) x.device_id)) q (In-relist_self by tag)
        | no n ↦
            let old : get s.tags id ≡ some t = ground (arith, get-put s.tags tag.id id tag) in
            let other : t.id ≢ tag.id = λ q. n (sym q ∙ h.keyed id t old) in
            In-relist by tag t.device_id t
              (In-unlist_existing s.tags_by_device (get s.tags tag.id) tag.id t.device_id t
                (h.complete id t old) other)
              other
      ];
      owned = λ d t m. elim (relist-In by tag d t m) [
        | inl (q, p) ↦
            (ap (λ x. x.device_id) (sym q) ∙ p, ground (arith, get-put s.tags tag.id t.id tag))
        | inr k ↦
            let (a, b) =
              unlist_existing-In s.tags s.tags_by_device (get s.tags tag.id) tag.id d t h refl k in
            let (o, g) = h.owned d t a in (o, ground (arith, get-put s.tags tag.id t.id tag))
      ];
    }

-- Removing a tag keeps them together.
pub without_tag-IsIndexed :
    (s : Snapshot) (found : TagSnapshot) (id : String)
    → get s.tags id ≡ some found
    → IsIndexed s.tags s.tags_by_device
    → IsIndexed (without_tag s found id).tags (without_tag s found id).tags_by_device
unfolding without_tag
without_tag-IsIndexed s found id e h = record {
  keyed = λ k t f. h.keyed k t (ground (arith, get-delete s.tags id k));
  complete = λ k t f.
      let old : get s.tags k ≡ some t = ground (arith, get-delete s.tags id k) in
      In-unlist s.tags_by_device found.device_id t.device_id id t (h.complete k t old)
        (λ q. let same_key = h.keyed k t old in absurd (ground (arith, get-delete s.tags id k)));
  owned = λ d t m.
      let (a, b) = unlist-In s.tags s.tags_by_device found id d t h e m in
      let (o, g) = h.owned d t a in (o, ground (arith, get-delete s.tags id t.id));
}
