-- ===== src/Alarm/Types.antt =====
-- ms-viewer/internal/domain/alarm.go and IngestRecord of trend.go. Tag ids are numbers (the 16
-- bytes of the UUID), times are nanoseconds, `F` is the type of float64.
use controlitix.Common.{ℕ, String, Bool, Option}
use controlitix.Alarm.Quality.{Quality}

pub data AlarmState : Type 0 where
  ok lo hi lolo hihi uncertain bad comm_loss offline : AlarmState

unfoldable pub AlarmState-discrete : Discrete AlarmState
AlarmState-discrete = hlevel

-- AlarmState.String
unfoldable pub state_text : AlarmState → String
state_text lo = "lo"
state_text hi = "hi"
state_text lolo = "lolo"
state_text hihi = "hihi"
state_text uncertain = "uncertain"
state_text bad = "bad"
state_text comm_loss = "comm_loss"
state_text offline = "offline"
state_text _ = "ok"

pub data AlarmEventType : Type 0 where
  raised cleared acked suppressed unsuppressed : AlarmEventType

-- AlarmEventType.String
unfoldable pub event_type_text : AlarmEventType → String
event_type_text cleared = "cleared"
event_type_text acked = "acked"
event_type_text suppressed = "suppressed"
event_type_text unsuppressed = "unsuppressed"
event_type_text _ = "raised"

pub record Setpoints (F : Type 0) : Type 0 where
  pub lolo : Option F
  pub lo : Option F
  pub hi : Option F
  pub hihi : Option F

pub record AlarmAck : Type 0 where
  pub state : AlarmState
  pub actor_id : String
  pub note : Option String
  pub acked_at : ℕ

pub record AlarmEvent (F : Type 0) : Type 0 where
  pub tag_id : ℕ
  pub event_type : AlarmEventType
  pub state_from : AlarmState
  pub state_to : AlarmState
  pub value : Option F
  pub quality : Quality
  pub ts : ℕ
  pub actor_id : Option String
  pub note : Option String

pub record AlarmStateRecord (F : Type 0) : Type 0 where
  pub tag_id : ℕ
  pub state : AlarmState
  pub last_value : Option F
  pub last_quality : Quality
  pub entered_at : ℕ
  pub last_seen_at : ℕ
  pub suppressed : Bool

pub record AlarmTransitionInput (F : Type 0) : Type 0 where
  pub tag_id : ℕ
  pub state_from : AlarmState
  pub state_to : AlarmState
  pub value : Option F
  pub quality : Quality
  pub ts : ℕ
  pub entered_at : ℕ
  pub last_seen_at : ℕ

pub record IngestRecord (F : Type 0) : Type 0 where
  pub tag_id : ℕ
  pub timestamp : ℕ
  pub value : Option F
  pub quality : Quality
