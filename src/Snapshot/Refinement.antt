-- ===== src/Snapshot/Refinement.antt =====
-- SnapshotStore of ms-poll/internal/usecase/snapshot_store.go against a plain map of tags.
use controlitix.Common.{
  ℕ, ◌≡◌, refl, sym, ◌≢◌, ap, subst, ◌∙◌, false, String, List, Option, none, some, ite, arith,
  String_discrete, string_key, nat_key, same,
}
use controlitix.Common.Map.{Map, get, kept, get-put, get-delete, get-delete_where}
use controlitix.Snapshot.{TagSnapshot, Snapshot}
use controlitix.Snapshot.Clone.{clone_snapshot}
use controlitix.Snapshot.Store.{
  SnapshotStore, SnapshotEvent, ensure_snapshot, without_device, remove_device, with_tag,
  upsert_tag, without_tag, remove_found, remove_tag,
}
use controlitix.Snapshot.Consistent.{
  IsConsistent, clone_snapshot-IsConsistent, clone_snapshot-get, with_tag-IsConsistent,
  without_tag-IsConsistent, without_device-IsConsistent,
}

abbrev pub AreConsistent : Option Snapshot → Type 0
AreConsistent none = Unit
AreConsistent (some s) = IsConsistent s

-- The abstract view: what the store knows of a tag.
abbrev pub find_tag : Option Snapshot → String → Option TagSnapshot
find_tag none id = none
find_tag (some s) id = get s.tags id

pub ensure_snapshot-IsConsistent :
    (o : Option Snapshot) → AreConsistent o → IsConsistent (ensure_snapshot o)
unfolding get
ensure_snapshot-IsConsistent (some s) h = h
ensure_snapshot-IsConsistent none h = record {
  indexed = record { keyed = λ id t e. cc; complete = λ id t e. cc; owned = λ d t m. elim m [ ] };
  distinct_tags = tt;
  distinct_lists = tt;
}

ensure_snapshot-get :
    (o : Option Snapshot) (id : String) → get (ensure_snapshot o).tags id ≡ find_tag o id
unfolding get
ensure_snapshot-get none id = refl
ensure_snapshot-get (some s) id = refl

with_tag-get :
    (s : Snapshot) (tag : TagSnapshot) (id : String)
    → get (with_tag s tag).tags id ≡ ite (String_discrete tag.id id) (some tag) (get s.tags id)
unfolding with_tag
with_tag-get s tag id = get-put s.tags tag.id id tag

-- A tag with an identifier and a device is stored: afterwards it is found under its identifier, every
-- other identifier finds what it found before, and the snapshot is consistent.
pub upsert_tag-finds :
    (store : SnapshotStore) (tag : TagSnapshot)
    → AreConsistent store.snapshot
    → tag.id ≢ ""
    → tag.device_id ≢ ""
    → let next = (upsert_tag store (some tag)).snapshot in
      AreConsistent next
      × ((id : String)
          → find_tag next id
            ≡ ite (String_discrete tag.id id) (some tag) (find_tag store.snapshot id))
unfolding upsert_tag
upsert_tag-finds store tag h named owned =
    let before = ensure_snapshot store.snapshot in
    let consistent = ensure_snapshot-IsConsistent store.snapshot h in
    let stored : (upsert_tag store (some tag)).snapshot
        ≡ some (with_tag (clone_snapshot before) tag) =
      ground arith in
    subst
      (λ next.
        AreConsistent next
        × ((id : String)
            → find_tag next id
              ≡ ite (String_discrete tag.id id) (some tag) (find_tag store.snapshot id)))
      (sym stored)
      (
        with_tag-IsConsistent (clone_snapshot before) tag
            (clone_snapshot-IsConsistent before consistent),
        λ id.
            with_tag-get (clone_snapshot before) tag id
            ∙ ap (λ o. ite (String_discrete tag.id id) (some tag) o)
                (clone_snapshot-get before consistent id ∙ ensure_snapshot-get store.snapshot id),
      )

-- `next` is consistent, finds nothing under `id`, and else what `before` finds.
abbrev Forgets : String → Option Snapshot → Option Snapshot → Type 0
Forgets id before next =
    AreConsistent next
    × ((k : String) → find_tag next k ≡ ite (String_discrete id k) none (find_tag before k))

without_tag-get :
    (s : Snapshot) (found : TagSnapshot) (id k : String)
    → get (without_tag s found id).tags k ≡ ite (String_discrete id k) none (get s.tags k)
unfolding without_tag
without_tag-get s found id k = get-delete s.tags id k

remove_found-Forgets :
    (store : SnapshotStore) (s : Snapshot) (o : Option TagSnapshot) (id : String)
    → store.snapshot ≡ some s
    → IsConsistent s
    → get (clone_snapshot s).tags id ≡ o
    → Forgets id (some s) (remove_found store (clone_snapshot s) o id).snapshot
remove_found-Forgets store s none id e h q = subst (Forgets id (some s)) (sym e) (
  h,
  λ k.
      let known = clone_snapshot-get s h k in
      elim (String_discrete id k) [
        | yes p ↦ ground (arith, sym (clone_snapshot-get s h id) ∙ q)
        | no n ↦ ground arith
      ],
)
remove_found-Forgets store s (some found) id e h q = (
  without_tag-IsConsistent (clone_snapshot s) found id q (clone_snapshot-IsConsistent s h),
  λ k.
      without_tag-get (clone_snapshot s) found id k
      ∙ ap (λ o. ite (String_discrete id k) none o) (clone_snapshot-get s h k),
)

remove_tag-Forgets :
    (o : Option Snapshot) (subscribers : Map ℕ (List SnapshotEvent)) (id : String)
    → AreConsistent o
    → id ≢ ""
    → Forgets id o (remove_tag (record { snapshot = o; subscribers = subscribers }) id).snapshot
unfolding remove_tag
remove_tag-Forgets none subscribers id h named = (tt, λ k. ground arith)
remove_tag-Forgets (some s) subscribers id h named =
    let store : SnapshotStore = record { snapshot = some s; subscribers = subscribers } in
    let o = get (clone_snapshot s).tags id in
    let nonempty : same id "" ≡ false = ground arith in
    let run : (remove_tag store id).snapshot
        ≡ (remove_found store (clone_snapshot s) o id).snapshot =
      rw nonempty refl in
    subst (Forgets id (some s)) (sym run) (remove_found-Forgets store s o id refl h refl)

-- Removing an identifier that is not empty: afterwards it finds nothing, every other identifier finds
-- what it found before, and the snapshot is consistent.
pub remove_tag-finds :
    (store : SnapshotStore) (id : String)
    → AreConsistent store.snapshot
    → id ≢ ""
    → let next = (remove_tag store id).snapshot in
      AreConsistent next
      × ((k : String)
          → find_tag next k ≡ ite (String_discrete id k) none (find_tag store.snapshot k))
remove_tag-finds store id h named = remove_tag-Forgets store.snapshot store.subscribers id h named

without_device-get :
    (s : Snapshot) (d k : String)
    → IsConsistent s
    → get (without_device s d).tags k ≡ kept (λ _ t. same t.device_id d) k (get s.tags k)
unfolding without_device
without_device-get s d k h = get-delete_where (λ _ t. same t.device_id d) s.tags k h.distinct_tags

remove_device-from :
    (o : Option Snapshot) (subscribers : Map ℕ (List SnapshotEvent)) (d : String)
    → AreConsistent o
    → d ≢ ""
    → let next = (remove_device (record { snapshot = o; subscribers = subscribers }) d).snapshot in
      AreConsistent next
      × ((k : String) → find_tag next k ≡ kept (λ _ t. same t.device_id d) k (find_tag o k))
unfolding remove_device
remove_device-from none subscribers d h named = (tt, λ k. refl)
remove_device-from (some s) subscribers d h named =
    let store : SnapshotStore = record { snapshot = some s; subscribers = subscribers } in
    let nonempty : same d "" ≡ false = ground arith in
    let run : (remove_device store d).snapshot ≡ some (without_device (clone_snapshot s) d) =
      rw nonempty refl in
    let clone = clone_snapshot-IsConsistent s h in
    subst
      (λ next.
        AreConsistent next
        × ((k : String) → find_tag next k ≡ kept (λ _ t. same t.device_id d) k (get s.tags k)))
      (sym run)
      (
        without_device-IsConsistent (clone_snapshot s) d clone,
        λ k.
            without_device-get (clone_snapshot s) d k clone
            ∙ ap (kept (λ _ t. same t.device_id d) k) (clone_snapshot-get s h k),
      )

-- Removing a device: afterwards exactly its tags are not found any more, and the snapshot is
-- consistent.
pub remove_device-finds :
    (store : SnapshotStore) (d : String)
    → AreConsistent store.snapshot
    → d ≢ ""
    → let next = (remove_device store d).snapshot in
      AreConsistent next
      × ((k : String)
          → find_tag next k ≡ kept (λ _ t. same t.device_id d) k (find_tag store.snapshot k))
remove_device-finds store d h named = remove_device-from store.snapshot store.subscribers d h named
