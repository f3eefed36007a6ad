-- ===== src/Snapshot/Clone.antt =====
-- cloneSnapshot and the slice helpers of ms-poll/internal/usecase/snapshot_store.go. The copies of
-- devices, tags and their parts are the same values, so only the maps and slices are rebuilt.
use controlitix.Common.{
  String, List, [], ◌∷◌, ◌++◌, Option, none, some, ite, is_empty, if◌then◌else◌, String_discrete,
  string_key,
}
use controlitix.Common.Map.{Map, get, put}
use controlitix.Snapshot.{TagSnapshot, Snapshot}

abbrev pub listed : Option (List TagSnapshot) → List TagSnapshot
listed none = []
listed (some tags) = tags

-- snapshot.TagsByDevice[d], nil if there is none.
abbrev pub entries : Map String (List TagSnapshot) → String → List TagSnapshot
entries by d = listed (get by d)

unfoldable pub remove_tag_by_id : List TagSnapshot → String → List TagSnapshot
remove_tag_by_id [] id = []
remove_tag_by_id (t ∷ ts) id =
    let rest = remove_tag_by_id ts id in ite (String_discrete t.id id) rest (t ∷ rest)

abbrev pub upsert_tag_to_slice : List TagSnapshot → TagSnapshot → List TagSnapshot
upsert_tag_to_slice ts t = remove_tag_by_id ts t.id ++ t ∷ []

-- for k, v := range m { acc[k] = v }
unfoldable pub copy_into : {V : Type 0} → Map String V → Map String V → Map String V
copy_into acc [] = acc
copy_into acc ((k, v) ∷ m) = copy_into (put acc k v) m

-- The tags of one device, each replaced by its copy; a tag that was not copied yet is added.
unfoldable pub relink_list :
    Map String TagSnapshot
    → List TagSnapshot
    → List TagSnapshot
    → Map String TagSnapshot × List TagSnapshot
relink_list tags [] acc = (tags, acc)
relink_list tags (t ∷ ts) acc = elim (get tags t.id) [
  | some c ↦ relink_list tags ts (acc ++ c ∷ [])
  | none ↦ relink_list (put tags t.id t) ts (acc ++ t ∷ [])
]

unfoldable pub relink :
    Map String TagSnapshot
    → Map String (List TagSnapshot)
    → Map String (List TagSnapshot)
    → Map String TagSnapshot × Map String (List TagSnapshot)
unfolding relink_list
relink tags by [] = (tags, by)
relink tags by ((d, ts) ∷ rest) =
    let (tags', copied) = relink_list tags ts [] in
    relink tags' (if is_empty copied then by else put by d copied) rest

-- The last loop: every tag is listed under its device.
unfoldable pub index_tags :
    Map String (List TagSnapshot) → Map String TagSnapshot → Map String (List TagSnapshot)
unfolding remove_tag_by_id
index_tags by [] = by
index_tags by ((k, t) ∷ m) =
    index_tags (put by t.device_id (upsert_tag_to_slice (entries by t.device_id) t)) m

unfoldable pub clone_snapshot : Snapshot → Snapshot
unfolding copy_into relink index_tags
clone_snapshot s =
    let (tags, by) = relink (copy_into [] s.tags) [] s.tags_by_device in
    record {
      devices = copy_into [] s.devices;
      tags = tags;
      tags_by_device = index_tags by tags;
      loaded_at = s.loaded_at;
    }
