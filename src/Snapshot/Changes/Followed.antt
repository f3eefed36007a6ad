-- ===== src/Snapshot/Changes/Followed.antt =====
-- The store follows the repository: tag events of
-- ms-poll/internal/usecase/config_event_handler.go over snapshot_store.go.
use controlitix.Common.{
  String, Option, none, some, string_key, String_discrete, ite, ◌≡◌, ◌≢◌, refl, sym, ◌∙◌, subst,
  ◌⊎◌, inl, inr,
}
use controlitix.Common.Result.{Result, ok, err}
use controlitix.Snapshot.{TagSnapshot}
use controlitix.Snapshot.Store.{SnapshotStore, upsert_tag}
use controlitix.Snapshot.Refinement.{AreConsistent, find_tag, upsert_tag-finds, remove_tag-finds}
use controlitix.Snapshot.Changes.{
  ConfigChangedEvent, Repository, store_tag, handle_tag_event, handle,
}

-- What the store makes of the repository's answer about a tag.
abbrev pub IsFollowed :
    String
    → SnapshotStore
    → Result String (Option TagSnapshot)
    → SnapshotStore × Result String (Unit {0})
    → Type 0
IsFollowed id store (err e) out = out ≡ (store, err e)
IsFollowed id store (ok loaded) out =
    (out.1 ≡ ok tt)
    × AreConsistent out.0.snapshot
    × ((k : String)
        → find_tag out.0.snapshot k ≡ ite (String_discrete id k) loaded (find_tag store.snapshot k))

-- The repository loads a tag under its own identifier, and with a device.
abbrev pub LoadsOwn : Repository → String → Type 0
LoadsOwn r id = (t : TagSnapshot) → r.load_tag id ≡ ok (some t) → (t.id ≡ id) × (t.device_id ≢ "")

store_tag-IsFollowed :
    (r : Repository) (store : SnapshotStore) (id : String) (m : Result String (Option TagSnapshot))
    → AreConsistent store.snapshot
    → id ≢ ""
    → LoadsOwn r id
    → r.load_tag id ≡ m
    → IsFollowed id store m (store_tag store id m)
unfolding store_tag
store_tag-IsFollowed r store id (err e) h named own loaded = refl
store_tag-IsFollowed r store id (ok none) h named own loaded =
    let (kept, finds) = remove_tag-finds store id h named in (refl, kept, finds)
store_tag-IsFollowed r store id (ok (some t)) h named own loaded =
    let (mine, homed) = own t loaded in
    let (kept, finds) = upsert_tag-finds store t h (λ e. named (sym mine ∙ e)) homed in
    (
      refl,
      kept,
      (λ k.
          subst
            (λ x.
              find_tag (upsert_tag store (some t)).snapshot k
              ≡ ite (String_discrete x k) (some t) (find_tag store.snapshot k))
            mine (finds k)),
    )

-- An event that a tag was created or updated, over a consistent store and for an identifier that
-- is not empty: if the repository fails the store is unchanged and the error is returned;
-- otherwise the store finds under the identifier exactly what the repository has, a tag or none,
-- under every other identifier what it found before, and is consistent. The repository loads a tag
-- under its own identifier and with a device.
pub handle-IsFollowed :
    (lower : String → String) (r : Repository) (store : SnapshotStore) (event : ConfigChangedEvent)
    → AreConsistent store.snapshot
    → event.entity_id ≢ ""
    → LoadsOwn r event.entity_id
    → lower event.entity_type ≡ "tag"
    → (lower event.operation ≡ "create") ⊎ (lower event.operation ≡ "update")
    → IsFollowed event.entity_id store (r.load_tag event.entity_id) (handle lower r store event)
unfolding handle handle_tag_event String_discrete
handle-IsFollowed lower r store event h named own kind operation =
    let followed =
      store_tag-IsFollowed r store event.entity_id (r.load_tag event.entity_id) h named own refl in
    rw kind (elim operation [ inl e ↦ rw e followed | inr e ↦ rw e followed ])
