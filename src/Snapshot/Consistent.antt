-- ===== src/Snapshot/Consistent.antt =====
-- Every change of a snapshot in ms-poll/internal/usecase/snapshot_store.go against the two views
-- of its tags.
use controlitix.Common.{
  ◌≡◌, sym, ◌≢◌, ap, subst, ◌∙◌, inl, inr, if_elim, String, List, [], ◌∷◌, Option, none, some,
  Option-cases, is_empty, arith, String_discrete, string_key, nat_key, same, In,
}
use controlitix.Common.Map.{
  Map, get, put, delete, delete_where, get-delete, get-delete_where, IsDistinct, put-IsDistinct,
  delete-IsDistinct, delete_where-IsDistinct,
}
use controlitix.Snapshot.{TagSnapshot, Snapshot}
use controlitix.Snapshot.Clone.{
  copy_into, entries, upsert_tag_to_slice, remove_tag_by_id, relink_list, relink, index_tags,
  clone_snapshot,
}
use controlitix.Snapshot.Integrity.{IsIndexed, with_tag-IsIndexed, without_tag-IsIndexed}
use controlitix.Snapshot.Copies.{clone_snapshot-IsIndexed}
use controlitix.Snapshot.Store.{without_device, unlist, unlist_existing, with_tag, without_tag}

pub record IsConsistent (s : Snapshot) : Type 0 where
  pub indexed : IsIndexed s.tags s.tags_by_device
  pub distinct_tags : IsDistinct s.tags
  pub distinct_lists : IsDistinct s.tags_by_device

relink-IsDistinct :
    (tags : Map String TagSnapshot) (by rest : Map String (List TagSnapshot))
    → IsDistinct by
    → IsDistinct (relink tags by rest).1
unfolding relink
relink-IsDistinct tags by [] h = h
relink-IsDistinct tags by ((d, ts) ∷ rest) h =
    let copied = (relink_list tags ts []).1 in
    relink-IsDistinct (relink_list tags ts []).0 _ rest
      (if_elim IsDistinct (is_empty copied) (λ _. h) (λ _. put-IsDistinct by d copied h))

index_tags-IsDistinct :
    (by : Map String (List TagSnapshot)) (m : Map String TagSnapshot)
    → IsDistinct by
    → IsDistinct (index_tags by m)
unfolding index_tags
index_tags-IsDistinct by [] h = h
index_tags-IsDistinct by ((k, t) ∷ m) h =
    index_tags-IsDistinct (put by t.device_id (upsert_tag_to_slice (entries by t.device_id) t)) m
      (put-IsDistinct by t.device_id _ h)

clone_snapshot-IsDistinct : (s : Snapshot) → IsDistinct (clone_snapshot s).tags_by_device
unfolding clone_snapshot
clone_snapshot-IsDistinct s =
    let tags = copy_into [] s.tags in
    let r = relink tags [] s.tags_by_device in
    index_tags-IsDistinct r.1 r.0 (relink-IsDistinct tags [] s.tags_by_device tt)

pub clone_snapshot-IsConsistent : (s : Snapshot) → IsConsistent s → IsConsistent (clone_snapshot s)
clone_snapshot-IsConsistent s h =
    let (i, _, d) = clone_snapshot-IsIndexed s h.distinct_tags h.distinct_lists h.indexed in
    record { indexed = i; distinct_tags = d; distinct_lists = clone_snapshot-IsDistinct s }

pub clone_snapshot-get :
    (s : Snapshot) → IsConsistent s → (id : String) → get (clone_snapshot s).tags id ≡ get s.tags id
clone_snapshot-get s h = (clone_snapshot-IsIndexed s h.distinct_tags h.distinct_lists h.indexed).1

unlist-IsDistinct :
    (by : Map String (List TagSnapshot)) (d id : String)
    → IsDistinct by
    → IsDistinct (unlist by d id)
unfolding unlist
unlist-IsDistinct by d id h =
    let left = remove_tag_by_id (entries by d) id in
    if_elim IsDistinct (is_empty left)
      (λ _. delete-IsDistinct (put by d left) d (put-IsDistinct by d left h))
      (λ _. put-IsDistinct by d left h)

unlist_existing-IsDistinct :
    (by : Map String (List TagSnapshot)) (o : Option TagSnapshot) (id : String)
    → IsDistinct by
    → IsDistinct (unlist_existing by o id)
unlist_existing-IsDistinct by none id h = h
unlist_existing-IsDistinct by (some e) id h = unlist-IsDistinct by e.device_id id h

pub with_tag-IsConsistent :
    (s : Snapshot) (tag : TagSnapshot) → IsConsistent s → IsConsistent (with_tag s tag)
unfolding with_tag
with_tag-IsConsistent s tag h = record {
  indexed = with_tag-IsIndexed s tag h.indexed;
  distinct_tags = put-IsDistinct s.tags tag.id tag h.distinct_tags;
  distinct_lists =
      put-IsDistinct (unlist_existing s.tags_by_device (get s.tags tag.id) tag.id) tag.device_id _
        (unlist_existing-IsDistinct s.tags_by_device (get s.tags tag.id) tag.id h.distinct_lists);
}

pub without_tag-IsConsistent :
    (s : Snapshot) (found : TagSnapshot) (id : String)
    → get s.tags id ≡ some found
    → IsConsistent s
    → IsConsistent (without_tag s found id)
unfolding without_tag
without_tag-IsConsistent s found id e h = record {
  indexed = without_tag-IsIndexed s found id e h.indexed;
  distinct_tags = delete-IsDistinct s.tags id h.distinct_tags;
  distinct_lists = unlist-IsDistinct s.tags_by_device found.device_id id h.distinct_lists;
}

pub without_device-IsConsistent :
    (s : Snapshot) (d : String) → IsConsistent s → IsConsistent (without_device s d)
unfolding without_device
without_device-IsConsistent s d h = record {
  indexed = record {
    keyed = λ id t e. h.indexed.keyed id t (stored id t e).0;
    complete = λ id t e.
        let (old, other) = stored id t e in
        subst (In t) (sym (lists t.device_id other)) (h.indexed.complete id t old);
    owned = λ d' t m. elim (String_discrete d d') [
      | yes p ↦ elim (subst (In t) (gone d' p) m) [ ]
      | no n ↦
          let (o, g) = h.indexed.owned d' t (subst (In t) (lists d' (λ q. n (sym q))) m) in
          (
            o,
            ground
                (arith, get-delete_where (λ _ t. same t.device_id d) s.tags t.id h.distinct_tags),
          )
    ];
  };
  distinct_tags = delete_where-IsDistinct (λ _ t. same t.device_id d) s.tags h.distinct_tags;
  distinct_lists = delete-IsDistinct s.tags_by_device d h.distinct_lists;
}
  where
    stored :
        (id : String) (t : TagSnapshot)
        → get (delete_where (λ _ t. same t.device_id d) s.tags) id ≡ some t
        → (get s.tags id ≡ some t) × (t.device_id ≢ d)
    stored id t e =
        let k = get-delete_where (λ _ t. same t.device_id d) s.tags id h.distinct_tags in
        elim (Option-cases (get s.tags id)) [
          | inl n ↦ absurd (ground arith)
          | inr (u, q) ↦ elim (String_discrete u.device_id d) [
            | yes p ↦ absurd (ground arith)
            | no n ↦
                let same_tag : u ≡ t = ground arith in
                (q ∙ ap some same_tag, λ p. n (ap (λ x. x.device_id) same_tag ∙ p))
          ]
        ]

    lists :
        (d' : String)
        → d' ≢ d
        → entries (delete s.tags_by_device d) d' ≡ entries s.tags_by_device d'
    lists d' n = ground (arith, get-delete s.tags_by_device d d')

    gone : (d' : String) → d ≡ d' → entries (delete s.tags_by_device d) d' ≡ []
    gone d' p = ground (arith, get-delete s.tags_by_device d d')
