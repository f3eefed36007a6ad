-- ===== src/Alarm/Journal/Lost.antt =====
-- IngestValue of ms-viewer/internal/usecase/alarm_usecase.go when the database fails between its
-- two writes.
use controlitix.Common.{ℕ, ◌≡◌, refl, ap, Bool, true, false, Option, none, some, arith, nat_key}
use controlitix.Common.Float.{Float64}
use controlitix.Common.Map.{get, get-put_self}
use controlitix.Alarm.Types.{AlarmState, AlarmStateRecord, IngestRecord}
use controlitix.Alarm.Evaluator.{evaluate_alarm_state}
use controlitix.Alarm.Evaluator.Hysteresis.{evaluate_alarm_state_settles}
use controlitix.Alarm.Store.{Db, get_state, upsert_state, apply_transition, state_row}
use controlitix.Alarm.Engine.{
  Engine, Outage, no_outage, previous_state, refreshed, transit, store_evaluation, ingest_value,
  get_setpoints,
}

abbrev pub transition_outage : Outage
transition_outage = record { get_fails = false; upsert_fails = false; apply_fails = true }

module _ {F : Type 0} where
  store-unchanged :
      (e : Engine F) (r : IngestRecord F) (c : Option (AlarmStateRecord F)) (s : AlarmState × Bool)
      → s.1 ≡ false
      → let e' = (store_evaluation no_outage e r c s).0 in
        (e'.db.events ≡ e.db.events) × (e'.pending ≡ e.pending)
  unfolding store_evaluation upsert_state
  store-unchanged e r (some c) (next, false) h = (refl, refl)
  store-unchanged e r none (next, false) h = (refl, refl)
  store-unchanged e r c (next, true) h = cc

  store-first :
      (e : Engine F) (r : IngestRecord F) (s : AlarmState × Bool)
      → s.1 ≡ true
      → (store_evaluation transition_outage e r none s).0
        ≡ record e { db = upsert_state e.db (refreshed r s.0 r.timestamp) }
  unfolding store_evaluation transit apply_transition
  store-first e r (next, true) h = refl
  store-first e r (next, false) h = cc

module _ (f : Float64) (hysteresis_percent : f.F) where
  open f use {F}

  abbrev pub evaluated : Engine F → IngestRecord F → AlarmState × Bool
  evaluated e r =
      evaluate_alarm_state f AlarmState.ok r.value r.quality (get_setpoints e r.tag_id)
        hysteresis_percent

  abbrev pub raised_row : Engine F → IngestRecord F → Engine F
  raised_row e r = record e { db = upsert_state e.db (refreshed r (evaluated e r).0 r.timestamp) }

  get_state-none : (db : Db F) (tag : ℕ) → get db.states tag ≡ none → get_state db tag ≡ none
  unfolding get_state
  get_state-none db tag h = ground arith

  previous-upsert :
      (db : Db F) (a : AlarmStateRecord F)
      → previous_state (get_state (upsert_state db a) a.tag_id) ≡ a.state
  unfolding get_state upsert_state
  previous-upsert db a = ground (arith, get-put_self db.states a.tag_id (state_row a))

  ingest_value-first :
      (e : Engine F) (r : IngestRecord F)
      → get e.db.states r.tag_id ≡ none
      → (evaluated e r).1 ≡ true
      → (ingest_value f hysteresis_percent transition_outage e r).0 ≡ raised_row e r
  unfolding ingest_value
  ingest_value-first e r new changed =
      rw (get_state-none e.db r.tag_id new) (store-first e r (evaluated e r) changed)

  ingest_value-again :
      (e : Engine F) (r : IngestRecord F)
      → let e' = (ingest_value f hysteresis_percent no_outage (raised_row e r) r).0 in
        (e'.db.events ≡ e.db.events) × (e'.pending ≡ e.pending)
  unfolding ingest_value upsert_state get_setpoints
  ingest_value-again e r =
      store-unchanged (raised_row e r) r (get_state (raised_row e r).db r.tag_id) _ (
        rw (previous-upsert e.db (refreshed r (evaluated e r).0 r.timestamp)) (
          ap (λ (p : AlarmState × Bool). p.1)
            (evaluate_alarm_state_settles f AlarmState.ok r.value r.quality
              (get_setpoints e r.tag_id) hysteresis_percent).1))

  -- The first value of a tag calls for an alarm, and the database stores the tag's row but fails
  -- on the transition: the row then holds the alarm state, and when the value is ingested again
  -- with a database that works, no event is logged for it and none is handed to the publisher.
  pub ingest_value-lost :
      (e : Engine F) (r : IngestRecord F)
      → get e.db.states r.tag_id ≡ none
      → (evaluated e r).1 ≡ true
      → let once = (ingest_value f hysteresis_percent transition_outage e r).0 in
        let twice = (ingest_value f hysteresis_percent no_outage once r).0 in
        (get once.db.states r.tag_id ≡ some (state_row (refreshed r (evaluated e r).0 r.timestamp)))
        × (twice.db.events ≡ e.db.events)
        × (twice.pending ≡ e.pending)
  unfolding upsert_state
  ingest_value-lost e r new changed = rw (ingest_value-first e r new changed) (
    get-put_self e.db.states r.tag_id (state_row (refreshed r (evaluated e r).0 r.timestamp)),
    (ingest_value-again e r).0,
    (ingest_value-again e r).1,
  )
