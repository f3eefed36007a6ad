-- ===== src/Alarm/Journal/AckedSteps.antt =====
-- Every message of ms-viewer/internal/usecase/alarm_usecase.go against the acknowledgements that
-- are stored.
use controlitix.Common.{
  ℕ, ◌≡◌, refl, sym, ◌≢◌, ap, subst, ◌∙◌, inl, inr, if_elim, Bool, true, false, List, [], ◌∷◌,
  Option, none, some, Option-cases, String, arith, nat_key,
}
use controlitix.Common.Float.{Float64}
use controlitix.Common.Map.{get}
use controlitix.Common.Result.{Result-cases}
use controlitix.Alarm.Types.{AlarmState, AlarmStateRecord, AlarmTransitionInput, IngestRecord}
use controlitix.Alarm.Evaluator.Hysteresis.{evaluate_alarm_state-unchanged}
use controlitix.Alarm.Store.{StateRow, Db, AlarmError, get_state, apply_transition}
use controlitix.Alarm.Ack.{
  AckStatus, write_ack, check_ack, acknowledge, acknowledge_row, acknowledge_bulk, BulkState,
  bulk_loop, accept_item, refuse_item,
}
use controlitix.Alarm.Engine.{
  Engine, Outage, previous_state, refreshed, transit, store_evaluation, ingest_value,
  publish_and_broadcast_event, get_setpoints,
}
use controlitix.Alarm.Requests.{handle_tag_config_changed}
use controlitix.Alarm.Journal.Acknowledge.{check_ack-ok}
use controlitix.Alarm.Journal.Bulk.{bulk_item_cases}
use controlitix.Alarm.Journal.Acked.{
  IsAcked, empty-IsAcked, commit_transition-IsAcked, upsert_state-IsAcked, write_ack-IsAcked,
  delete_by_tag_id-IsAcked,
}
use controlitix.Alarm.Journal.Steps.{
  Step, ingested, acknowledged, acknowledged_bulk, config_changed, finished, IsReachable, started,
  stepped,
}
use controlitix.Alarm.Journal.Kept.{
  use_acknowledge-db, use_acknowledge_bulk-db, handle_parsed-db, finish_publication-db,
}

module _ {F : Type 0} where
  transit-IsAcked :
      (fails : Bool) (e : Engine F) (i : AlarmTransitionInput F)
      → IsAcked e.db
      → IsAcked (transit fails e i).0.db
  unfolding transit apply_transition publish_and_broadcast_event
  transit-IsAcked true e i h = h
  transit-IsAcked false e i h = commit_transition-IsAcked e.db i h

  row_of :
      (db : Db F) (tag : ℕ) (c : AlarmStateRecord F)
      → get_state db tag ≡ some c
      → (r : StateRow F) × (get db.states tag ≡ some r) × (c.state ≡ r.state)
  unfolding get_state
  row_of db tag c e = elim (Option-cases (get db.states tag)) [
    | inl n ↦ absurd (ground arith)
    | inr (r, q) ↦ (r, q, ground arith)
  ]

  no_row_of : (db : Db F) (tag : ℕ) → get_state db tag ≡ none → get db.states tag ≡ none
  unfolding get_state
  no_row_of db tag e = ground arith

  store_evaluation-IsAcked :
      (o : Outage) (e : Engine F) (r : IngestRecord F) (c : Option (AlarmStateRecord F))
      (s : AlarmState × Bool)
      → get_state e.db r.tag_id ≡ c
      → (s.1 ≡ false → s.0 ≡ previous_state c)
      → IsAcked e.db
      → IsAcked (store_evaluation o e r c s).0.db
  unfolding store_evaluation
  store_evaluation-IsAcked o e r (some c) (next, true) q kept h =
      transit-IsAcked o.apply_fails e _ h
  store_evaluation-IsAcked o e r none (next, true) q kept h =
      if_elim (λ (x : Engine F × Option AlarmError). IsAcked x.0.db) o.upsert_fails (λ _. h)
        (λ _. transit-IsAcked o.apply_fails _ _ (
          upsert_state-IsAcked e.db (refreshed r next r.timestamp) (inl (no_row_of e.db r.tag_id q))
            h))
  store_evaluation-IsAcked o e r (some c) (next, false) q kept h =
      let (row, found, same_state) = row_of e.db r.tag_id c q in
      if_elim (λ (x : Engine F × Option AlarmError). IsAcked x.0.db) o.upsert_fails (λ _. h)
        (λ _.
          upsert_state-IsAcked e.db (refreshed r next c.entered_at)
            (inr (row, found, kept refl ∙ same_state)) h)
  store_evaluation-IsAcked o e r none (next, false) q kept h =
      if_elim (λ (x : Engine F × Option AlarmError). IsAcked x.0.db) o.upsert_fails (λ _. h)
        (λ _.
          upsert_state-IsAcked e.db (refreshed r next r.timestamp) (inl (no_row_of e.db r.tag_id q))
            h)

  acknowledge-IsAcked :
      (trim : String → String) (fails : Bool) (db : Db F) (tag : ℕ) (actor : String)
      (remark : Option String) (ts : ℕ)
      → IsAcked db
      → IsAcked (acknowledge trim fails db tag actor remark ts).0
  unfolding acknowledge acknowledge_row
  acknowledge-IsAcked trim true db tag actor remark ts h = h
  acknowledge-IsAcked trim false db tag actor remark ts h =
      elim (Result-cases (check_ack (get db.states tag) (get db.acks tag))) [
        | inl (x, e) ↦ rw e h
        | inr (r, e) ↦
            let (found, active, _) = check_ack-ok (get db.states tag) (get db.acks tag) r e in
            rw e (write_ack-IsAcked db tag r (trim actor) remark ts found active h)
      ]

  write_ack-states :
      (db : Db F) (tag : ℕ) (r : StateRow F) (actor : String) (remark : Option String) (ts : ℕ)
      → (write_ack db tag r actor remark ts).states ≡ db.states
  unfolding write_ack
  write_ack-states db tag r actor remark ts = refl

  refuse_item-keeps :
      (start : Db F) (b : BulkState F) (tag : ℕ) (status : AckStatus) (state : Option AlarmState)
      → (b.db.states ≡ start.states) × IsAcked b.db
      → let c = refuse_item b tag status state in (c.db.states ≡ start.states) × IsAcked c.db
  unfolding refuse_item
  refuse_item-keeps start b tag status state h = h

  accept_item-keeps :
      (start : Db F) (b : BulkState F) (tag : ℕ) (r : StateRow F) (actor : String)
      (remark : Option String) (ts : ℕ)
      → get b.db.states tag ≡ some r
      → r.state ≢ AlarmState.ok
      → (b.db.states ≡ start.states) × IsAcked b.db
      → let c = accept_item b tag r actor remark ts in (c.db.states ≡ start.states) × IsAcked c.db
  unfolding accept_item
  accept_item-keeps start b tag r actor remark ts found active h = (
    write_ack-states b.db tag r actor remark ts ∙ h.0,
    write_ack-IsAcked b.db tag r actor remark ts found active h.1,
  )

  -- The loop keeps the rows, so what it read at the start is still there.
  bulk_loop-IsAcked :
      (start : Db F) (tags : List ℕ) (actor : String) (remark : Option String) (ts : ℕ)
      (b : BulkState F)
      → (b.db.states ≡ start.states) × IsAcked b.db
      → IsAcked (bulk_loop start tags actor remark ts b).db
  unfolding bulk_loop
  bulk_loop-IsAcked start [] actor remark ts b h = h.1
  bulk_loop-IsAcked start (tag ∷ tags) actor remark ts b h =
      bulk_loop-IsAcked start tags actor remark ts _ (
        bulk_item_cases (λ c. (c.db.states ≡ start.states) × IsAcked c.db) tag actor remark ts
          (get start.states tag) (get start.acks tag) b
          (λ status state. refuse_item-keeps start b tag status state h)
          (λ r found active.
            accept_item-keeps start b tag r actor remark ts (ap (λ m. get m tag) h.0 ∙ found) active
              h))

  acknowledge_bulk-IsAcked :
      (trim : String → String) (fails : Bool) (db : Db F) (tags : List ℕ) (actor : String)
      (remark : Option String) (ts : ℕ)
      → IsAcked db
      → IsAcked (acknowledge_bulk trim fails db tags actor remark ts).0
  unfolding acknowledge_bulk
  acknowledge_bulk-IsAcked trim true db tags actor remark ts h = h
  acknowledge_bulk-IsAcked trim false db tags actor remark ts h =
      bulk_loop-IsAcked db tags (trim actor) remark ts _ (refl, h)

module _ (f : Float64) (hysteresis_percent : f.F) (trim : String → String)
    (parse_uuid : String → Option ℕ) (deleted : String → Bool) where
  open f use {F}

  Step-IsAcked :
      (e e' : Engine F)
      → Step f hysteresis_percent trim parse_uuid deleted e e'
      → IsAcked e.db
      → IsAcked e'.db
  unfolding ingest_value handle_tag_config_changed
  Step-IsAcked _ _ (ingested o e r) h =
      if_elim (λ (x : Engine F × Option AlarmError). IsAcked x.0.db) o.get_fails (λ _. h)
        (λ _.
          store_evaluation-IsAcked o e r (get_state e.db r.tag_id) _ refl
            (evaluate_alarm_state-unchanged f (previous_state (get_state e.db r.tag_id)) r.value
              r.quality (get_setpoints e r.tag_id) hysteresis_percent)
            h)
  Step-IsAcked _ _ (acknowledged fails e tag actor remark now) h =
      subst IsAcked (sym (use_acknowledge-db trim fails e tag actor remark now))
        (acknowledge-IsAcked trim fails e.db tag (trim actor) remark now h)
  Step-IsAcked _ _ (acknowledged_bulk fails e tags actor remark now) h =
      subst IsAcked (sym (use_acknowledge_bulk-db trim fails e tags actor remark now))
        (acknowledge_bulk-IsAcked trim fails e.db tags (trim actor) remark now h)
  Step-IsAcked _ _ (config_changed acks_fail state_fails e tag_id operation loaded) h =
      elim (handle_parsed-db parse_uuid deleted acks_fail state_fails e operation loaded
        (parse_uuid tag_id)) [
          | inl (same, q) ↦ subst IsAcked (sym same) h
          | inr (tag, gone, q, d) ↦
              subst IsAcked (sym gone) (delete_by_tag_id-IsAcked acks_fail state_fails e.db tag h)
        ]
  Step-IsAcked _ _ (finished e before job later answers waits) h =
      subst IsAcked (sym (finish_publication-db e before job later answers)) h

  -- In every state that the engine can reach, each stored acknowledgement belongs to a stored tag
  -- whose state is not OK, and was given for a state that is not OK.
  pub IsReachable-IsAcked :
      (e : Engine F) → IsReachable f hysteresis_percent trim parse_uuid deleted e → IsAcked e.db
  IsReachable-IsAcked _ started = empty-IsAcked _ refl
  IsReachable-IsAcked _ (stepped e e' before step) =
      Step-IsAcked e e' step (IsReachable-IsAcked e before)
