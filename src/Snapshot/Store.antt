-- ===== src/Snapshot/Store.antt =====
-- SnapshotStore of ms-poll/internal/usecase/snapshot_store.go and snapshot_subscription.go.
-- A subscriber is its buffered channel: a number for the pointer, and the events not yet received.
-- The mutex makes each operation one step.
use controlitix.Common.{
  ℕ, String, List, [], ◌∷◌, ◌++◌, Option, none, some, is_empty, length, ltb, if◌then◌else◌,
  string_key, nat_key, same,
}
use controlitix.Common.Map.{Map, get, put, delete, delete_where}
use controlitix.Snapshot.{DeviceSnapshot, TagSnapshot, Snapshot}
use controlitix.Snapshot.Clone.{entries, remove_tag_by_id, clone_snapshot}

pub record SnapshotEvent : Type 0 where
  pub kind : String
  pub device_id : String
  pub tag_id : String

pub record SnapshotStore : Type 0 where
  pub snapshot : Option Snapshot
  pub subscribers : Map ℕ (List SnapshotEvent)

-- select { case subscriber <- event: default: }
unfoldable pub publish_event :
    Map ℕ (List SnapshotEvent) → SnapshotEvent → Map ℕ (List SnapshotEvent)
publish_event [] event = []
publish_event ((k, buffer) ∷ rest) event =
    (k, if ltb (length buffer) 64 then buffer ++ event ∷ [] else buffer) ∷ publish_event rest event

abbrev pub ensure_snapshot : Option Snapshot → Snapshot
ensure_snapshot (some s) = s
ensure_snapshot none = record { devices = []; tags = []; tags_by_device = []; loaded_at = 0 }

abbrev pub save : SnapshotStore → Snapshot → SnapshotEvent → SnapshotStore
save store next event = record {
  snapshot = some next;
  subscribers = publish_event store.subscribers event;
}

unfoldable pub replace : SnapshotStore → Option Snapshot → SnapshotStore
unfolding publish_event
replace store none = record {
  snapshot = none;
  subscribers =
      publish_event store.subscribers (record { kind = "replaced"; device_id = ""; tag_id = "" });
}
replace store (some next) =
    save store (clone_snapshot next) (record { kind = "replaced"; device_id = ""; tag_id = "" })

unfoldable pub with_device : Snapshot → DeviceSnapshot → Snapshot
with_device s device = record s { devices = put s.devices device.id device }

unfoldable pub upsert_device : SnapshotStore → Option DeviceSnapshot → SnapshotStore
unfolding publish_event with_device
upsert_device store none = store
upsert_device store (some device) =
    if same device.id ""
    then store
    else save store (with_device (clone_snapshot (ensure_snapshot store.snapshot)) device)
        (record { kind = "device_upserted"; device_id = device.id; tag_id = "" })

unfoldable pub without_device : Snapshot → String → Snapshot
without_device s d = record s {
  devices = delete s.devices d;
  tags = delete_where (λ _ t. same t.device_id d) s.tags;
  tags_by_device = delete s.tags_by_device d;
}

unfoldable pub remove_device : SnapshotStore → String → SnapshotStore
unfolding publish_event without_device
remove_device store d = elim store.snapshot [
  | none ↦ store
  | some s ↦
      if same d ""
      then store
      else save store (without_device (clone_snapshot s) d)
          (record { kind = "device_removed"; device_id = d; tag_id = "" })
]

-- The tag leaves the list of the device it was listed under, and an empty list is deleted.
unfoldable pub unlist :
    Map String (List TagSnapshot) → String → String → Map String (List TagSnapshot)
unlist by d id =
    let left = remove_tag_by_id (entries by d) id in
    if is_empty left then delete (put by d left) d else put by d left

abbrev pub unlist_existing :
    Map String (List TagSnapshot) → Option TagSnapshot → String → Map String (List TagSnapshot)
unlist_existing by none id = by
unlist_existing by (some existing) id = unlist by existing.device_id id

unfoldable pub with_tag : Snapshot → TagSnapshot → Snapshot
unfolding unlist
with_tag s tag =
    let by = unlist_existing s.tags_by_device (get s.tags tag.id) tag.id in
    record s {
      tags = put s.tags tag.id tag;
      tags_by_device =
          put by tag.device_id (remove_tag_by_id (entries by tag.device_id) tag.id ++ tag ∷ []);
    }

unfoldable pub upsert_tag : SnapshotStore → Option TagSnapshot → SnapshotStore
unfolding publish_event with_tag
upsert_tag store none = store
upsert_tag store (some tag) =
    if same tag.id ""
    then store
    else if same tag.device_id ""
    then store
    else save store (with_tag (clone_snapshot (ensure_snapshot store.snapshot)) tag)
        (record { kind = "tag_upserted"; device_id = tag.device_id; tag_id = tag.id })

unfoldable pub without_tag : Snapshot → TagSnapshot → String → Snapshot
unfolding unlist
without_tag s found id = record s {
  tags = delete s.tags id;
  tags_by_device = unlist s.tags_by_device found.device_id id;
}

-- RemoveTag once the snapshot is cloned.
abbrev pub remove_found : SnapshotStore → Snapshot → Option TagSnapshot → String → SnapshotStore
remove_found store s none id = store
remove_found store s (some found) id =
    save store (without_tag s found id)
      (record { kind = "tag_removed"; device_id = found.device_id; tag_id = id })

unfoldable pub remove_tag : SnapshotStore → String → SnapshotStore
unfolding publish_event without_tag
remove_tag store id = elim store.snapshot [
  | none ↦ store
  | some s ↦
      let next = clone_snapshot s in
      if same id "" then store else remove_found store next (get next.tags id) id
]

-- Subscribe, with the pointer of the new channel.
unfoldable pub subscribe : SnapshotStore → ℕ → SnapshotStore
subscribe store key = record store { subscribers = put store.subscribers key [] }

-- Unsubscribe; a channel that is not known changes nothing.
unfoldable pub unsubscribe : SnapshotStore → ℕ → SnapshotStore
unsubscribe store key = record store { subscribers = delete store.subscribers key }
