-- ===== src/Alarm/Journal/Ingest.antt =====
-- IngestValue of ms-viewer/internal/usecase/alarm_usecase.go and the event log.
use controlitix.Common.{
  ℕ, ◌≡◌, refl, ◌∙◌, ◌⊎◌, inl, inr, if_elim, Bool, true, false, Option, none, some, is_some, arith,
  nat_key,
}
use controlitix.Common.Float.{Float64}
use controlitix.Common.Map.{get, put, get-put}
use controlitix.Alarm.Types.{AlarmState, AlarmStateRecord, AlarmTransitionInput, IngestRecord}
use controlitix.Alarm.Evaluator.{evaluate_alarm_state}
use controlitix.Alarm.Evaluator.Hysteresis.{evaluate_alarm_state-unchanged}
use controlitix.Alarm.Store.{
  Db, AlarmError, get_state, upsert_state, apply_transition, commit_transition, transition_event,
  state_row, transition_row,
}
use controlitix.Alarm.Engine.{
  Engine, Outage, previous_state, transition_input, refreshed, transit, store_evaluation,
  ingest_value, publish_and_broadcast_event, get_setpoints,
}
use controlitix.Alarm.Journal.{
  state_at, IsContinued, put-IsContinued, put_same-IsContinued, continue_self,
}

module _ {F : Type 0} where
  transit-IsContinued :
      (fails : Bool) (e : Engine F) (i : AlarmTransitionInput F)
      → i.state_from ≡ state_at e.db.states i.tag_id
      → IsContinued e.db (transit fails e i).0.db
  unfolding transit apply_transition publish_and_broadcast_event commit_transition transition_event
  transit-IsContinued true e i from = continue_self e.db
  transit-IsContinued false e i from =
      put-IsContinued e.db (commit_transition e.db i) (transition_event i) (transition_row i)
        (λ t. get-put e.db.states i.tag_id t (transition_row i)) refl from refl

  -- The first transition of a tag: its row is written, and then written again.
  first-IsContinued :
      (e : Engine F) (i : AlarmTransitionInput F) (row : AlarmStateRecord F)
      → row.tag_id ≡ i.tag_id
      → i.state_from ≡ state_at e.db.states i.tag_id
      → IsContinued e.db (transit false (record e { db = upsert_state e.db row }) i).0.db
  unfolding transit apply_transition publish_and_broadcast_event commit_transition transition_event
      upsert_state
  first-IsContinued e i row same_tag from =
      put-IsContinued e.db (commit_transition (upsert_state e.db row) i) (transition_event i)
        (transition_row i)
        (λ t. ground (
          arith,
          get-put (put e.db.states row.tag_id (state_row row)) i.tag_id t (transition_row i),
          get-put e.db.states row.tag_id t (state_row row),
        ))
        refl from refl

  refresh-IsContinued :
      (e : Engine F) (r : IngestRecord F) (next : AlarmState) (entered : ℕ)
      → next ≡ state_at e.db.states r.tag_id
      → IsContinued e.db (upsert_state e.db (refreshed r next entered))
  unfolding upsert_state
  refresh-IsContinued e r next entered same_state =
      put_same-IsContinued e.db (upsert_state e.db (refreshed r next entered)) r.tag_id
        (state_row (refreshed r next entered))
        (λ t. get-put e.db.states r.tag_id t (state_row (refreshed r next entered))) refl same_state

  previous_state-state_at :
      (db : Db F) (tag : ℕ) → previous_state (get_state db tag) ≡ state_at db.states tag
  unfolding get_state
  previous_state-state_at db tag = ground arith

  -- The row is written before a transition only when there was none.
  store_evaluation-IsContinued :
      (o : Outage) (e : Engine F) (r : IngestRecord F) (current : Option (AlarmStateRecord F))
      (next : AlarmState) (changed : Bool)
      → previous_state current ≡ state_at e.db.states r.tag_id
      → (o.apply_fails ≡ false) ⊎ (is_some current ≡ true)
      → (changed ≡ false → next ≡ previous_state current)
      → IsContinued e.db (store_evaluation o e r current (next, changed)).0.db
  unfolding store_evaluation
  store_evaluation-IsContinued o e r (some current) next true from safe kept =
      transit-IsContinued o.apply_fails e (transition_input r current.state next) from
  store_evaluation-IsContinued o e r none next true from (inl up) kept =
      if_elim (λ (x : Engine F × Option AlarmError). IsContinued e.db x.0.db) o.upsert_fails
        (λ _. continue_self e.db)
        (λ _. rw up (
          first-IsContinued e (transition_input r AlarmState.ok next) (refreshed r next r.timestamp)
            refl from))
  store_evaluation-IsContinued o e r none next true from (inr row) kept = cc
  store_evaluation-IsContinued o e r (some current) next false from safe kept =
      if_elim (λ (x : Engine F × Option AlarmError). IsContinued e.db x.0.db) o.upsert_fails
        (λ _. continue_self e.db)
        (λ _. refresh-IsContinued e r next current.entered_at (kept refl ∙ from))
  store_evaluation-IsContinued o e r none next false from safe kept =
      if_elim (λ (x : Engine F × Option AlarmError). IsContinued e.db x.0.db) o.upsert_fails
        (λ _. continue_self e.db) (λ _. refresh-IsContinued e r next r.timestamp (kept refl ∙ from))

  -- A row is there: the decision on a state that did not change keeps it.
  is_some-get_state :
      (db : Db F) (tag : ℕ) → is_some (get_state db tag) ≡ is_some (get db.states tag)
  unfolding get_state
  is_some-get_state db tag = ground arith

module _ (f : Float64) (hysteresis_percent : f.F) where
  open f use {F}

  -- One ingestion appends events that lead from the stored states to the new ones, whatever is
  -- evaluated and whichever database call fails, with one exception: the transition of a tag that
  -- has no row yet must not fail once the row is written.
  pub ingest_value-IsContinued :
      (o : Outage) (e : Engine F) (r : IngestRecord F)
      → (o.apply_fails ≡ false) ⊎ (is_some (get e.db.states r.tag_id) ≡ true)
      → IsContinued e.db (ingest_value f hysteresis_percent o e r).0.db
  unfolding ingest_value
  ingest_value-IsContinued o e r safe =
      let current = get_state e.db r.tag_id in
      let s =
        evaluate_alarm_state f (previous_state current) r.value r.quality (get_setpoints e r.tag_id)
          hysteresis_percent in
      if_elim (λ (x : Engine F × Option AlarmError). IsContinued e.db x.0.db) o.get_fails
        (λ _. continue_self e.db)
        (λ _.
          store_evaluation-IsContinued o e r current s.0 s.1 (previous_state-state_at e.db r.tag_id)
            (elim safe [ inl up ↦ inl up | inr row ↦ inr (is_some-get_state e.db r.tag_id ∙ row) ])
            (evaluate_alarm_state-unchanged f (previous_state current) r.value r.quality
              (get_setpoints e r.tag_id) hysteresis_percent))
