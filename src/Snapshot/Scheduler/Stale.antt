-- ===== src/Snapshot/Scheduler/Stale.antt =====
-- A tag that moves to another device, in ms-poll/internal/usecase/snapshot_store.go, and the event
-- that scheduler.go handles.
use controlitix.Common.{
  ℕ, String, List, [], ◌∷◌, Option, nat_key, none, some, same, if_elim, string_key, ◌≡◌, ◌≢◌, refl,
  sym, ap, ◌∙◌, arith, In, String_discrete, if_pos,
}
use controlitix.Common.Map.{Map, get}
use controlitix.Snapshot.{TagSnapshot, Snapshot}
use controlitix.Snapshot.Clone.{entries}
use controlitix.Snapshot.Store.{SnapshotEvent, SnapshotStore, publish_event, upsert_tag}
use controlitix.Snapshot.Refinement.{AreConsistent, find_tag, upsert_tag-finds}
use controlitix.Snapshot.Scheduler.{
  Worker, Workers, stop_device, restart_device, handle_tag_change, handle_snapshot_event,
  handle_snapshot_events,
}
use controlitix.Snapshot.Scheduler.Wanted.{start_device_other, stop_device_other}

-- The event that UpsertTag publishes.
abbrev upserted : TagSnapshot → SnapshotEvent
upserted tag = record { kind = "tag_upserted"; device_id = tag.device_id; tag_id = tag.id }

restart_device_other :
    (snapshot : Option Snapshot) (workers : Workers) (d e : String)
    → d ≢ e
    → get (restart_device snapshot workers d) e ≡ get workers e
unfolding restart_device
restart_device_other snapshot workers d e other =
    if_elim (λ x. get x e ≡ get workers e) (same d "") (λ _. refl)
      (λ _.
        start_device_other snapshot (stop_device workers d) d e other
        ∙ stop_device_other workers d e other)

handle-tag_upserted :
    (sort : List String → List String) (snapshot : Option Snapshot) (workers : Workers)
    (tag : TagSnapshot)
    → tag.device_id ≢ ""
    → handle_snapshot_event sort snapshot workers (upserted tag)
      ≡ restart_device snapshot workers tag.device_id
unfolding handle_snapshot_event handle_tag_change String_discrete
handle-tag_upserted sort snapshot workers tag named =
    if_elim (λ x. x ≡ restart_device snapshot workers tag.device_id) (same tag.device_id "")
      (λ blank. absurd (ground arith)) (λ _. refl)

abbrev pub listed_under : Option Snapshot → String → List TagSnapshot
listed_under none id = []
listed_under (some s) id = entries s.tags_by_device id

owned_device :
    (snapshot : Option Snapshot) (id : String) (t : TagSnapshot)
    → AreConsistent snapshot
    → In t (listed_under snapshot id)
    → (t.device_id ≡ id) × (find_tag snapshot t.id ≡ some t)
owned_device none id t consistent m = elim m [ ]
owned_device (some s) id t consistent m = consistent.indexed.owned id t m

-- The events that wait in the channel of a subscriber.
abbrev pub received : SnapshotStore → ℕ → List SnapshotEvent
received store key = elim (get store.subscribers key) [ none ↦ [] | some buffer ↦ buffer ]

publish_event-received :
    (subscribers : Map ℕ (List SnapshotEvent)) (key : ℕ) (event : SnapshotEvent)
    → get subscribers key ≡ some []
    → get (publish_event subscribers event) key ≡ some (event ∷ [])
unfolding publish_event get
publish_event-received [] key event h = cc
publish_event-received ((k, buffer) ∷ rest) key event h =
    let later = publish_event-received rest key event in ground (arith, later)

upsert_tag-received :
    (store : SnapshotStore) (tag : TagSnapshot) (key : ℕ)
    → tag.id ≢ ""
    → tag.device_id ≢ ""
    → get store.subscribers key ≡ some []
    → received (upsert_tag store (some tag)) key ≡ upserted tag ∷ []
unfolding upsert_tag
upsert_tag-received store tag key named homed waits =
    let told = publish_event-received store.subscribers key (upserted tag) waits in
    if_elim (λ (x : SnapshotStore). received x key ≡ upserted tag ∷ []) (same tag.id "")
      (λ blank. absurd (ground arith))
      (λ _.
        if_elim (λ (x : SnapshotStore). received x key ≡ upserted tag ∷ []) (same tag.device_id "")
          (λ blank. absurd (ground arith)) (λ _. ground (arith, told)))

-- A tag that the worker of its device polls is stored under another device, in a consistent store
-- whose scheduler waits for events: when the scheduler has handled every event that UpsertTag
-- sent it, the worker is still there and still polls the tag as it was, which the store does not
-- list under that device any more.
pub upsert_tag-stale :
    (sort : List String → List String) (store : SnapshotStore) (key : ℕ) (workers : Workers)
    (old tag : TagSnapshot) (w : Worker)
    → AreConsistent store.snapshot
    → get store.subscribers key ≡ some []
    → tag.id ≢ ""
    → tag.device_id ≢ ""
    → tag.device_id ≢ old.device_id
    → old.id ≡ tag.id
    → get workers old.device_id ≡ some w
    → In old w.tags
    → let after = upsert_tag store (some tag) in
      let handled = handle_snapshot_events sort after.snapshot workers (received after key) in
      ((v : Worker) × (get handled old.device_id ≡ some v) × In old v.tags)
      × (¬ In old (listed_under after.snapshot old.device_id))
unfolding handle_snapshot_events
upsert_tag-stale sort store key workers old tag w consistent waits named homed moved same_id polls
      has =
    let next = (upsert_tag store (some tag)).snapshot in
    let (kept, finds) = upsert_tag-finds store tag consistent named homed in
    let told = upsert_tag-received store tag key named homed waits in
    (
      (
        w,
        ap (λ events. get (handle_snapshot_events sort next workers events) old.device_id) told
            ∙ ap (λ x. get x old.device_id) (handle-tag_upserted sort next workers tag homed)
            ∙ restart_device_other next workers tag.device_id old.device_id moved
            ∙ polls,
        has,
      ),
      (λ listed.
          let (home, found) = owned_device next old.device_id old kept listed in
          let stored : find_tag next old.id ≡ some tag =
            finds old.id
            ∙ if_pos (String_discrete tag.id old.id) (sym same_id) (some tag)
                (find_tag store.snapshot old.id) in
          let same_tag : tag ≡ old = (let p = sym stored ∙ found in cc) in
          moved (ap (λ x. x.device_id) same_tag)),
    )
