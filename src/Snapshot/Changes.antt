-- ===== src/Snapshot/Changes.antt =====
-- ms-poll/internal/usecase/config_event_handler.go: the Kafka events about a changed configuration.
-- The repository is an argument; an error of it is a text. The argument `lower` is strings.ToLower.
pub mod Followed
use controlitix.Common.{
  ℕ, String, ◌||◌, List, Option, none, some, same, length, if◌then◌else◌, string_key,
}
use controlitix.Common.Result.{Result, ok, err}
use controlitix.Snapshot.{DeviceSnapshot, TagSnapshot, Snapshot}
use controlitix.Snapshot.Clone.{entries}
use controlitix.Snapshot.Store.{SnapshotStore, upsert_device, remove_device, upsert_tag, remove_tag}

pub record ConfigChangedEvent : Type 0 where
  pub entity_type : String
  pub entity_id : String
  pub operation : String

pub record Repository : Type 0 where
  pub load_device : String → Result String (Option DeviceSnapshot)
  pub load_tag : String → Result String (Option TagSnapshot)

-- A device that is gone is removed.
unfoldable pub store_device :
    SnapshotStore
    → String
    → Result String (Option DeviceSnapshot)
    → SnapshotStore × Result String (Unit {0})
store_device store id (err e) = (store, err e)
store_device store id (ok none) = (remove_device store id, ok tt)
store_device store id (ok (some device)) = (upsert_device store (some device), ok tt)

unfoldable pub handle_device_event :
    Repository → SnapshotStore → String → String → SnapshotStore × Result String (Unit {0})
unfolding store_device
handle_device_event r store id operation =
    if same operation "create" || same operation "update"
    then store_device store id (r.load_device id)
    else if same operation "delete"
    then (remove_device store id, ok tt)
    else (store, ok tt)

unfoldable pub store_tag :
    SnapshotStore
    → String
    → Result String (Option TagSnapshot)
    → SnapshotStore × Result String (Unit {0})
store_tag store id (err e) = (store, err e)
store_tag store id (ok none) = (remove_tag store id, ok tt)
store_tag store id (ok (some tag)) = (upsert_tag store (some tag), ok tt)

unfoldable pub handle_tag_event :
    Repository → SnapshotStore → String → String → SnapshotStore × Result String (Unit {0})
unfolding store_tag
handle_tag_event r store id operation =
    if same operation "create" || same operation "update"
    then store_tag store id (r.load_tag id)
    else if same operation "delete"
    then (remove_tag store id, ok tt)
    else (store, ok tt)

unfoldable pub handle :
    (String → String)
    → Repository
    → SnapshotStore
    → ConfigChangedEvent
    → SnapshotStore × Result String (Unit {0})
unfolding handle_device_event handle_tag_event
handle lower r store event =
    if same (lower event.entity_type) "device"
    then handle_device_event r store event.entity_id (lower event.operation)
    else if same (lower event.entity_type) "tag"
    then handle_tag_event r store event.entity_id (lower event.operation)
    else (store, ok tt)

-- The number that is logged.
unfoldable pub cascaded_tags_count : SnapshotStore → String → ℕ
cascaded_tags_count store id = elim store.snapshot [
  | none ↦ 0
  | some s ↦ length (entries s.tags_by_device id)
]
