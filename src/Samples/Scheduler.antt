-- ===== src/Samples/Scheduler.antt =====
-- A tag moves from device d1 to device d2.
use controlitix.Common.{
  String, [], ◌∷◌, none, some, ◌≡◌, refl, sym, ap, ◌∙◌, In, inl, inr, string_key, nat_key,
  text_differ, String_discrete, arith,
}
use controlitix.Common.Map.{get, get-put_self}
use controlitix.Snapshot.{DeviceSnapshot, TagSnapshot, Snapshot}
use controlitix.Snapshot.Store.{SnapshotStore, subscribe, upsert_tag}
use controlitix.Snapshot.Refinement.{AreConsistent, upsert_tag-finds}
use controlitix.Common.Result.{ok}
use controlitix.Snapshot.Changes.{Repository, ConfigChangedEvent, handle}
use controlitix.Snapshot.Changes.Followed.{IsFollowed, LoadsOwn, handle-IsFollowed}
use controlitix.Snapshot.Scheduler.{
  Worker, Workers, handle_snapshot_events, reinitialize_all_devices, get_device_config,
}
use controlitix.Snapshot.Scheduler.Wanted.{wanted, reinitialize_all_devices-wanted}
use controlitix.Snapshot.Scheduler.Stale.{received, listed_under, upsert_tag-stale}

abbrev pump : String → DeviceSnapshot
pump id = record {
  id = id;
  object_id = none;
  type_id = 1;
  type_name = "modbus_tcp";
  name = id;
  settings = [];
  updated_at = 0;
}

abbrev level : String → TagSnapshot
level device = record {
  id = "t1";
  device_id = device;
  name = "level";
  data_type = "uint16";
  unit_symbol = none;
  address = [];
  scaling = none;
  setpoints = none;
  updated_at = 0;
}

abbrev begin : SnapshotStore
begin = record { snapshot = none; subscribers = [] }

-- The scheduler subscribes under the key 1 once the tag is stored.

abbrev with_level : SnapshotStore
with_level = subscribe (upsert_tag begin (some (level "d1"))) 1

with_level-AreConsistent : AreConsistent with_level.snapshot
unfolding subscribe
with_level-AreConsistent =
    (upsert_tag-finds begin (level "d1") tt (text_differ "t1" "" refl) (text_differ "d1" "" refl)).0

waiting : get with_level.subscribers 1 ≡ some []
unfolding subscribe
waiting = get-put_self (upsert_tag begin (some (level "d1"))).subscribers 1 []

abbrev poller : Worker
poller = record { device = pump "d1"; tags = level "d1" ∷ [] }

abbrev polling : Workers
polling = ("d1", poller) ∷ []

polled : get polling "d1" ≡ some poller
unfolding get
polled = ground arith

upsert_tag-stale_example :
    let after = upsert_tag with_level (some (level "d2")) in
    let handled = handle_snapshot_events (λ ids. ids) after.snapshot polling (received after 1) in
    ((v : Worker) × (get handled "d1" ≡ some v) × In (level "d1") v.tags)
    × (¬ In (level "d1") (listed_under after.snapshot "d1"))
upsert_tag-stale_example =
    upsert_tag-stale (λ ids. ids) with_level 1 polling (level "d1") (level "d2") poller
      with_level-AreConsistent waiting (text_differ "t1" "" refl) (text_differ "d2" "" refl)
      (text_differ "d2" "d1" refl) refl polled (inl refl)

abbrev two_pumps : Snapshot
two_pumps = record {
  devices = ("d1", pump "d1") ∷ ("d2", pump "d2") ∷ [];
  tags = ("t1", level "d2") ∷ [];
  tags_by_device = ("d2", level "d2" ∷ []) ∷ [];
  loaded_at = 0;
}

-- Only d2 has tags, and only d1 was running.
reinitialize_all_devices-wanted_example :
    get (reinitialize_all_devices (λ ids. ids) (some two_pumps) polling) "d2"
    ≡ wanted (some two_pumps) "d2"
reinitialize_all_devices-wanted_example =
    reinitialize_all_devices-wanted (λ ids. ids) (some two_pumps) polling "d2" (λ xs x m. m)
      (text_differ "d2" "" refl)

d2_is_wanted :
    wanted (some two_pumps) "d2" ≡ some (record { device = pump "d2"; tags = level "d2" ∷ [] })
unfolding get get_device_config String_discrete
d2_is_wanted = refl

-- The repository has the tag under d2.
abbrev table : Repository
table = record { load_device = λ id. ok none; load_tag = λ id. ok (some (level "d2")) }

abbrev tag_updated : ConfigChangedEvent
tag_updated = record { entity_type = "tag"; entity_id = "t1"; operation = "update" }

table-LoadsOwn : LoadsOwn table "t1"
table-LoadsOwn t e =
    let same_tag : level "d2" ≡ t = cc in
    (
      sym (ap (λ x. x.id) same_tag),
      λ blank. text_differ "d2" "" refl (ap (λ x. x.device_id) same_tag ∙ blank),
    )

handle-IsFollowed_example :
    IsFollowed "t1" with_level
      (ok (some (level "d2")))
      (handle (λ s. s) table with_level tag_updated)
handle-IsFollowed_example =
    handle-IsFollowed (λ s. s) table with_level tag_updated with_level-AreConsistent
      (text_differ "t1" "" refl) table-LoadsOwn refl (inr refl)
