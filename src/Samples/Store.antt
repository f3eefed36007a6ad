-- ===== src/Samples/Store.antt =====
-- A tag is stored, moved to another device, and removed.
use controlitix.Common.{
  ◌≡◌, ◌≢◌, String, [], ◌∷◌, none, some, ite, String_discrete, string_key, same,
}
use controlitix.Common.Map.{kept, get, IsDistinct}
use controlitix.Snapshot.Clone.{clone_snapshot}
use controlitix.Snapshot.Integrity.{IsIndexed}
use controlitix.Snapshot.Copies.{clone_snapshot-IsIndexed}
use controlitix.Snapshot.Consistent.{IsConsistent}
use controlitix.Snapshot.{TagSnapshot, Snapshot}
use controlitix.Snapshot.Store.{
  SnapshotStore, ensure_snapshot, upsert_tag, remove_tag, remove_device,
}
use controlitix.Snapshot.Refinement.{
  ensure_snapshot-IsConsistent, AreConsistent, find_tag, upsert_tag-finds, remove_tag-finds,
  remove_device-finds,
}

abbrev tag_of : String → String → TagSnapshot
tag_of id device = record {
  id = id;
  device_id = device;
  name = id;
  data_type = "int16";
  unit_symbol = none;
  address = [];
  scaling = none;
  setpoints = none;
  updated_at = 0;
}

abbrev new_store : SnapshotStore
new_store = record { snapshot = none; subscribers = (1, []) ∷ [] }

abbrev filled : SnapshotStore
filled = upsert_tag new_store (some (tag_of "level" "tank"))

level-not_empty : (tag_of "level" "tank").id ≢ ""
level-not_empty e = cc

tank-not_empty : (tag_of "level" "tank").device_id ≢ ""
tank-not_empty e = cc

filled-AreConsistent : AreConsistent filled.snapshot
filled-AreConsistent =
    (upsert_tag-finds new_store (tag_of "level" "tank") tt level-not_empty tank-not_empty).0

pump-not_empty : (tag_of "level" "pump").device_id ≢ ""
pump-not_empty e = cc

-- The tag moves to another device.
upsert_tag-finds_example :
    let next = (upsert_tag filled (some (tag_of "level" "pump"))).snapshot in
    AreConsistent next
    × ((id : String)
        → find_tag next id
          ≡ ite
              (String_discrete "level" id)
              (some (tag_of "level" "pump"))
              (find_tag filled.snapshot id))
upsert_tag-finds_example =
    upsert_tag-finds filled (tag_of "level" "pump") filled-AreConsistent level-not_empty
      pump-not_empty

remove_tag-finds_example :
    let next = (remove_tag filled "level").snapshot in
    AreConsistent next
    × ((k : String)
        → find_tag next k ≡ ite (String_discrete "level" k) none (find_tag filled.snapshot k))
remove_tag-finds_example = remove_tag-finds filled "level" filled-AreConsistent level-not_empty

remove_device-finds_example :
    let next = (remove_device filled "tank").snapshot in
    AreConsistent next
    × ((k : String)
        → find_tag next k ≡ kept (λ _ t. same t.device_id "tank") k (find_tag filled.snapshot k))
remove_device-finds_example = remove_device-finds filled "tank" filled-AreConsistent tank-not_empty

abbrev filled_snapshot : Snapshot
filled_snapshot = ensure_snapshot filled.snapshot

filled-IsConsistent : IsConsistent filled_snapshot
filled-IsConsistent = ensure_snapshot-IsConsistent filled.snapshot filled-AreConsistent

clone_snapshot-IsIndexed_example :
    IsIndexed (clone_snapshot filled_snapshot).tags (clone_snapshot filled_snapshot).tags_by_device
    × ((id : String) → get (clone_snapshot filled_snapshot).tags id ≡ get filled_snapshot.tags id)
    × IsDistinct (clone_snapshot filled_snapshot).tags
clone_snapshot-IsIndexed_example =
    clone_snapshot-IsIndexed filled_snapshot filled-IsConsistent.distinct_tags
      filled-IsConsistent.distinct_lists filled-IsConsistent.indexed
