-- ===== src/Alarm/Engine.antt =====
-- ms-viewer/internal/usecase/alarm_usecase.go with every dependency configured. A goroutine that
-- publishes is a value in `pending` until it ends; `published` is what the publisher accepted, in
-- the order in which it did, and `given_up` what it refused to the last attempt. The broadcaster is
-- left out, the audit trail is the list of what it is handed.
use controlitix.Common.{
  ℕ, zero, suc, String, Bool, true, false, List, [], ◌∷◌, ◌++◌, Option, none, some, nat_key,
  if◌then◌else◌,
}
use controlitix.Common.Float.{Float64}
use controlitix.Common.Map.{Map, get}
use controlitix.Common.Result.{ok, err}
use controlitix.Alarm.Quality.{Quality}
use controlitix.Alarm.Types.{
  AlarmState, state_text, AlarmEventType, raised, cleared, Setpoints, AlarmEvent, AlarmStateRecord,
  AlarmTransitionInput, IngestRecord,
}
use controlitix.Alarm.Evaluator.{evaluate_alarm_state}
use controlitix.Alarm.Store.{Db, AlarmError, get_state, upsert_state, apply_transition}

-- An audit record: the action, the tag and the state that was reached.
pub record AuditEntry : Type 0 where
  pub action : String
  pub tag_id : ℕ
  pub state : String

-- A goroutine of publishAndBroadcastEvent, or of publishAndBroadcastBatch.
pub data Publication (F : Type 0) : Type 0 where
  single : AlarmEvent F → Publication F
  batch : List (AlarmEvent F) → Publication F

pub record Engine (F : Type 0) : Type 0 where
  pub db : Db F
  pub setpoints_by_tag : Map ℕ (Setpoints F)
  pub pending : List (Publication F)
  pub published : List (AlarmEvent F)
  pub given_up : List (AlarmEvent F)
  pub audit : List AuditEntry

-- Which of the database calls of one ingestion fail.
pub record Outage : Type 0 where
  pub get_fails : Bool
  pub upsert_fails : Bool
  pub apply_fails : Bool

abbrev pub no_outage : Outage
no_outage = record { get_fails = false; upsert_fails = false; apply_fails = false }

-- The action of recordSystemAuditEvent; other events are not audited.
abbrev pub audit_action : AlarmEventType → Option String
audit_action raised = some "alarm.raised"
audit_action cleared = some "alarm.cleared"
audit_action _ = none

-- The loop of the publishing goroutine: `answers i` is whether attempt `i` is accepted.
unfoldable pub publish_attempts : ℕ → (ℕ → Bool) → ℕ → Bool
publish_attempts zero answers attempt = false
publish_attempts (suc n) answers attempt =
    let later = publish_attempts n answers (suc attempt) in if answers attempt then true else later

module _ {F : Type 0} where
  unfoldable pub record_system_audit_event : List AuditEntry → AlarmEvent F → List AuditEntry
  record_system_audit_event audit event = elim (audit_action event.event_type) [
    | none ↦ audit
    | some action ↦
        audit
        ++ record { action = action; tag_id = event.tag_id; state = state_text event.state_to } ∷ []
  ]

  unfoldable pub publish_and_broadcast_event : Engine F → AlarmEvent F → Engine F
  unfolding record_system_audit_event
  publish_and_broadcast_event e event = record e {
    pending = e.pending ++ single event ∷ [];
    audit = record_system_audit_event e.audit event;
  }

  -- Without events no goroutine is started.
  unfoldable pub publish_and_broadcast_batch : Engine F → List (AlarmEvent F) → Engine F
  publish_and_broadcast_batch e [] = e
  publish_and_broadcast_batch e (event ∷ events) = record e {
    pending = e.pending ++ batch (event ∷ events) ∷ [];
  }

  abbrev pub events_of : Publication F → List (AlarmEvent F)
  events_of (single event) = event ∷ []
  events_of (batch events) = events

  -- Whether a goroutine gets its events accepted: one event has three attempts, a batch has one.
  unfoldable pub is_accepted : Publication F → (ℕ → Bool) → Bool
  unfolding publish_attempts
  is_accepted (single event) answers = publish_attempts 3 answers 0
  is_accepted (batch events) answers = answers 0

  -- The goroutine `job`, which stands between `before` and `later`, comes to its end.
  unfoldable pub finish_publication :
      Engine F → List (Publication F) → Publication F → List (Publication F) → (ℕ → Bool) → Engine F
  unfolding is_accepted
  finish_publication e before job later answers =
      if is_accepted job answers
      then record e { pending = before ++ later; published = e.published ++ events_of job }
      else record e { pending = before ++ later; given_up = e.given_up ++ events_of job }

  unfoldable pub get_setpoints : Engine F → ℕ → Setpoints F
  get_setpoints e tag = elim (get e.setpoints_by_tag tag) [
    | none ↦ record { lolo = none; lo = none; hi = none; hihi = none }
    | some s ↦ s
  ]

  -- The previous state and the time since when it holds.
  abbrev pub previous_state : Option (AlarmStateRecord F) → AlarmState
  previous_state none = AlarmState.ok
  previous_state (some r) = r.state

  abbrev pub previous_entry : Option (AlarmStateRecord F) → ℕ → ℕ
  previous_entry none now = now
  previous_entry (some r) now = r.entered_at

  abbrev pub transition_input : IngestRecord F → AlarmState → AlarmState → AlarmTransitionInput F
  transition_input r from to = record {
    tag_id = r.tag_id;
    state_from = from;
    state_to = to;
    value = r.value;
    quality = r.quality;
    ts = r.timestamp;
    entered_at = r.timestamp;
    last_seen_at = r.timestamp;
  }

  -- The tail of IngestValue: the transition, and its event if it was stored.
  unfoldable pub transit : Bool → Engine F → AlarmTransitionInput F → Engine F × Option AlarmError
  unfolding publish_and_broadcast_event
  transit fails e i =
      let (db, r) = apply_transition fails e.db i in
      elim r [
        | err x ↦ (record e { db = db }, some x)
        | ok event ↦ (publish_and_broadcast_event (record e { db = db }) event, none)
      ]

  -- The record that is written when the state is new or unchanged.
  abbrev pub refreshed : IngestRecord F → AlarmState → ℕ → AlarmStateRecord F
  refreshed r next entered = record {
    tag_id = r.tag_id;
    state = next;
    last_value = r.value;
    last_quality = r.quality;
    entered_at = entered;
    last_seen_at = r.timestamp;
    suppressed = false;
  }

  -- IngestValue behind the evaluation.
  unfoldable pub store_evaluation :
      Outage
      → Engine F
      → IngestRecord F
      → Option (AlarmStateRecord F)
      → AlarmState × Bool
      → Engine F × Option AlarmError
  unfolding transit
  store_evaluation o e r (some current) (next, true) =
      transit o.apply_fails e (transition_input r current.state next)
  store_evaluation o e r none (next, true) =
      let e' = record e { db = upsert_state e.db (refreshed r next r.timestamp) } in
      if o.upsert_fails
      then (e, some AlarmError.unavailable)
      else transit o.apply_fails e' (transition_input r AlarmState.ok next)
  store_evaluation o e r current (next, false) =
      if o.upsert_fails then (e, some AlarmError.unavailable) else (
        record e { db = upsert_state e.db (refreshed r next (previous_entry current r.timestamp)) },
        none,
      )

module _ (f : Float64) (hysteresis_percent : f.F) where
  open f use {F}

  unfoldable pub ingest_value : Outage → Engine F → IngestRecord F → Engine F × Option AlarmError
  unfolding store_evaluation get_setpoints
  ingest_value o e r =
      let current = get_state e.db r.tag_id in
      if o.get_fails
      then (e, some AlarmError.unavailable)
      else store_evaluation o e r current (
          evaluate_alarm_state f (previous_state current) r.value r.quality
            (get_setpoints e r.tag_id) hysteresis_percent)

  -- The loop of RunCommLossScanner over the candidates of one tick; an error is logged, and the
  -- next candidate is taken. `o` and the clock are given for each of them.
  unfoldable pub ingest_comm_loss : Engine F → List (Outage × ℕ × ℕ × Option F) → Engine F
  ingest_comm_loss e [] = e
  ingest_comm_loss e ((o, now, tag, value) ∷ rest) =
      let r : IngestRecord F = record {
        tag_id = tag;
        timestamp = now;
        value = value;
        quality = Quality.comm_loss;
      } in
      ingest_comm_loss (ingest_value o e r).0 rest
