-- ===== src/Snapshot/Scheduler.antt =====
-- The workers of ms-poll/internal/usecase/scheduler.go. A worker is what getDeviceConfig gave it
-- when it began; its goroutine, its tickers and its driver are left out, and so is the retry of a
-- driver that cannot be built. The argument `sort` is sort.Strings; the running devices are
-- visited in the order of the map.
pub mod Wanted
pub mod Stale
use controlitix.Common.{
  ℕ, String, Bool, List, [], ◌∷◌, Option, none, some, is_empty, same, if◌then◌else◌, string_key,
}
use controlitix.Common.Map.{Map, get, put, delete}
use controlitix.Snapshot.{DeviceSnapshot, TagSnapshot, Snapshot}
use controlitix.Snapshot.Clone.{entries}
use controlitix.Snapshot.Store.{SnapshotEvent}

pub record Worker : Type 0 where
  pub device : DeviceSnapshot
  pub tags : List TagSnapshot

abbrev pub Workers : Type 0
Workers = Map String Worker

-- The configuration of a known device; its copies are the values.
abbrev pub config_of : Snapshot → String → Option DeviceSnapshot → Option Worker
config_of s id none = none
config_of s id (some device) = some (record { device = device; tags = entries s.tags_by_device id })

unfoldable pub get_device_config : Option Snapshot → String → Option Worker
get_device_config none id = none
get_device_config (some s) id = config_of s id (get s.devices id)

-- A device without tags is not started.
abbrev pub started : Workers → String → Option Worker → Workers
started workers id none = workers
started workers id (some w) = if is_empty w.tags then workers else put workers id w

unfoldable pub start_device : Option Snapshot → Workers → String → Workers
unfolding get_device_config
start_device snapshot workers id =
    if same id "" then workers else started workers id (get_device_config snapshot id)

unfoldable pub stop_device : Workers → String → Workers
stop_device workers id = if same id "" then workers else delete workers id

unfoldable pub restart_device : Option Snapshot → Workers → String → Workers
unfolding start_device stop_device
restart_device snapshot workers id =
    if same id "" then workers else start_device snapshot (stop_device workers id) id

unfoldable pub running_device_ids : Workers → List String
running_device_ids [] = []
running_device_ids ((id, w) ∷ workers) = id ∷ running_device_ids workers

-- The devices that have tags.
unfoldable pub desired_of : Snapshot → Map String DeviceSnapshot → List String
desired_of s [] = []
desired_of s ((id, device) ∷ devices) =
    let rest = desired_of s devices in
    if is_empty (entries s.tags_by_device id) then rest else id ∷ rest

unfoldable pub desired_device_ids : Option Snapshot → List String
unfolding desired_of
desired_device_ids none = []
desired_device_ids (some s) = desired_of s s.devices

unfoldable pub stop_devices : Workers → List String → Workers
unfolding stop_device
stop_devices workers [] = workers
stop_devices workers (id ∷ ids) = stop_devices (stop_device workers id) ids

unfoldable pub start_devices : Option Snapshot → Workers → List String → Workers
unfolding start_device
start_devices snapshot workers [] = workers
start_devices snapshot workers (id ∷ ids) =
    start_devices snapshot (start_device snapshot workers id) ids

unfoldable pub stop_all_devices : Workers → Workers
unfolding stop_devices running_device_ids
stop_all_devices workers = stop_devices workers (running_device_ids workers)

module _ (sort : List String → List String) where
  unfoldable pub reinitialize_all_devices : Option Snapshot → Workers → Workers
  unfolding start_devices stop_devices running_device_ids desired_device_ids
  reinitialize_all_devices snapshot workers =
      start_devices snapshot (stop_devices workers (running_device_ids workers))
        (sort (desired_device_ids snapshot))

  -- The tag events name their device, or none.
  unfoldable pub handle_tag_change : Option Snapshot → Workers → String → Workers
  unfolding reinitialize_all_devices restart_device
  handle_tag_change snapshot workers id =
      if same id ""
      then reinitialize_all_devices snapshot workers
      else restart_device snapshot workers id

  unfoldable pub handle_snapshot_event : Option Snapshot → Workers → SnapshotEvent → Workers
  unfolding handle_tag_change stop_device
  handle_snapshot_event snapshot workers event =
      if same event.kind "replaced"
      then reinitialize_all_devices snapshot workers
      else if same event.kind "device_upserted"
      then restart_device snapshot workers event.device_id
      else if same event.kind "device_removed"
      then stop_device workers event.device_id
      else if same event.kind "tag_upserted"
      then handle_tag_change snapshot workers event.device_id
      else if same event.kind "tag_removed"
      then handle_tag_change snapshot workers event.device_id
      else workers

  -- The loop of Run over the events of its channel.
  unfoldable pub handle_snapshot_events : Option Snapshot → Workers → List SnapshotEvent → Workers
  unfolding handle_snapshot_event
  handle_snapshot_events snapshot workers [] = workers
  handle_snapshot_events snapshot workers (event ∷ events) =
      handle_snapshot_events snapshot (handle_snapshot_event snapshot workers event) events
