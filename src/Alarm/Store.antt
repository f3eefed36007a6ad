-- ===== src/Alarm/Store.antt =====
-- ms-viewer/internal/infrastructure/repository/alarm_repository.go over the tables alarms.states,
-- alarms.acks and alarms.events (ms-viewer/migrations/000002_alarms.sql).
-- A table with a primary key is a map; events are a list, the newest last. The generated ids and
-- the columns updated_at and created_at, which the database fills and the engine never reads, are
-- left out. A database call takes a flag `fails`: a failed transaction is rolled back.
use controlitix.Common.{
  ℕ, Bool, true, false, List, [], ◌∷◌, ◌++◌, Option, none, some, ite, nat_key, if◌then◌else◌,
}
use controlitix.Common.Map.{Map, get, put, delete}
use controlitix.Common.Result.{Result, ok, err}
use controlitix.Alarm.Quality.{to_code, quality_from_code}
use controlitix.Alarm.Types.{
  AlarmState, AlarmState-discrete, AlarmEventType, raised, cleared, AlarmAck, AlarmEvent,
  AlarmStateRecord, AlarmTransitionInput,
}

-- A row of alarms.states; the quality is stored as its code.
pub record StateRow (F : Type 0) : Type 0 where
  pub state : AlarmState
  pub last_value : Option F
  pub last_quality : ℕ
  pub entered_at : ℕ
  pub last_seen_at : ℕ
  pub suppressed : Bool

pub record Db (F : Type 0) : Type 0 where
  pub states : Map ℕ (StateRow F)
  pub acks : Map ℕ AlarmAck
  pub events : List (AlarmEvent F)

pub data AlarmError : Type 0 where
  unavailable not_found not_active already_acked invalid_input not_configured : AlarmError

-- The event type of a transition.
abbrev pub transition_type : AlarmState → AlarmEventType
transition_type AlarmState.ok = cleared
transition_type _ = raised

-- DELETE FROM alarms.acks, on a transition to OK.
abbrev pub clear_ack : AlarmState → Map ℕ AlarmAck → ℕ → Map ℕ AlarmAck
clear_ack AlarmState.ok acks tag = delete acks tag
clear_ack _ acks tag = acks

module _ {F : Type 0} where
  unfoldable pub get_state : Db F → ℕ → Option (AlarmStateRecord F)
  get_state db tag = elim (get db.states tag) [
    | none ↦ none
    | some r ↦ some (record {
      tag_id = tag;
      state = r.state;
      last_value = r.last_value;
      last_quality = quality_from_code r.last_quality;
      entered_at = r.entered_at;
      last_seen_at = r.last_seen_at;
      suppressed = r.suppressed;
    })
  ]

  -- The columns that an upsert writes, and those that a transition writes.
  abbrev pub state_row : AlarmStateRecord F → StateRow F
  state_row r = record {
    state = r.state;
    last_value = r.last_value;
    last_quality = to_code r.last_quality;
    entered_at = r.entered_at;
    last_seen_at = r.last_seen_at;
    suppressed = r.suppressed;
  }

  abbrev pub transition_row : AlarmTransitionInput F → StateRow F
  transition_row i = record {
    state = i.state_to;
    last_value = i.value;
    last_quality = to_code i.quality;
    entered_at = i.entered_at;
    last_seen_at = i.last_seen_at;
    suppressed = false;
  }

  unfoldable pub upsert_state : Db F → AlarmStateRecord F → Db F
  upsert_state db r = record db { states = put db.states r.tag_id (state_row r) }

  unfoldable pub transition_event : AlarmTransitionInput F → AlarmEvent F
  transition_event i = record {
    tag_id = i.tag_id;
    event_type = transition_type i.state_to;
    state_from = i.state_from;
    state_to = i.state_to;
    value = i.value;
    quality = i.quality;
    ts = i.ts;
    actor_id = none;
    note = none;
  }

  -- The transaction of ApplyTransition.
  unfoldable pub commit_transition : Db F → AlarmTransitionInput F → Db F
  unfolding transition_event
  commit_transition db i = record {
    states = put db.states i.tag_id (transition_row i);
    acks = clear_ack i.state_to db.acks i.tag_id;
    events = db.events ++ transition_event i ∷ [];
  }

  unfoldable pub apply_transition :
      Bool → Db F → AlarmTransitionInput F → Db F × Result AlarmError (AlarmEvent F)
  unfolding commit_transition
  apply_transition true db i = (db, err unavailable)
  apply_transition false db i = (commit_transition db i, ok (transition_event i))

  -- Two statements outside a transaction, each with its flag: the second is not tried when the first
  -- fails.
  unfoldable pub delete_by_tag_id : Bool → Bool → Db F → ℕ → Db F × Option AlarmError
  delete_by_tag_id true state_fails db tag = (db, some unavailable)
  delete_by_tag_id false true db tag = (record db { acks = delete db.acks tag }, some unavailable)
  delete_by_tag_id false false db tag =
      (record db { acks = delete db.acks tag; states = delete db.states tag }, none)

  -- s.state > 0 AND a.tag_id IS NULL
  abbrev pub is_active_unacked : Db F → ℕ → StateRow F → Bool
  is_active_unacked db tag r =
      ite (AlarmState-discrete r.state AlarmState.ok) false
        (elim (get db.acks tag) [ none ↦ true | some _ ↦ false ])

  -- ListActiveUnacked without a limit: the tags of the rows, their order and the joined names left out.
  unfoldable pub active_unacked : Db F → Map ℕ (StateRow F) → List ℕ
  active_unacked db [] = []
  active_unacked db ((tag, r) ∷ rows) =
      let rest = active_unacked db rows in if is_active_unacked db tag r then tag ∷ rest else rest

  unfoldable pub list_active_unacked : Db F → List ℕ
  unfolding active_unacked
  list_active_unacked db = active_unacked db db.states
