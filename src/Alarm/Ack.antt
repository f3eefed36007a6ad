-- ===== src/Alarm/Ack.antt =====
-- Acknowledge and AcknowledgeBulk of
-- ms-viewer/internal/infrastructure/repository/alarm_repository.go, with their results from
-- ms-viewer/internal/domain/alarm.go. The argument `trim` is strings.TrimSpace.
use controlitix.Common.{
  ℕ, suc, String, Bool, true, false, List, [], ◌∷◌, ◌++◌, Option, none, some, ite, nat_key,
}
use controlitix.Common.Map.{get, put}
use controlitix.Common.Result.{Result, ok, err}
use controlitix.Alarm.Quality.{quality_from_code}
use controlitix.Alarm.Types.{AlarmState, AlarmState-discrete, AlarmEventType, AlarmAck, AlarmEvent}
use controlitix.Alarm.Store.{StateRow, Db, AlarmError}

pub record AlarmAcknowledgeResult (F : Type 0) : Type 0 where
  pub tag_id : ℕ
  pub state : AlarmState
  pub ack : AlarmAck
  pub event : AlarmEvent F

pub data AckStatus : Type 0 where
  acked not_active not_found already_acked : AckStatus

pub record AckItem (F : Type 0) : Type 0 where
  pub tag_id : ℕ
  pub status : AckStatus
  pub state : Option AlarmState
  pub event : Option (AlarmEvent F)

pub record BulkResult (F : Type 0) : Type 0 where
  pub items : List (AckItem F)
  pub acked_at : ℕ
  pub actor_id : String
  pub success_n : ℕ
  pub failed_n : ℕ

-- What the bulk transaction has done so far.
pub record BulkState (F : Type 0) : Type 0 where
  pub db : Db F
  pub results : List (AckItem F)
  pub success_count : ℕ
  pub failed_count : ℕ

module _ {F : Type 0} where
  -- What the locked row and its ack say about an acknowledgement.
  unfoldable pub check_ack : Option (StateRow F) → Option AlarmAck → Result AlarmError (StateRow F)
  check_ack none ack = err AlarmError.not_found
  check_ack (some r) none =
      ite (AlarmState-discrete r.state AlarmState.ok) (err AlarmError.not_active) (ok r)
  check_ack (some r) (some a) =
      ite (AlarmState-discrete r.state AlarmState.ok) (err AlarmError.not_active)
        (ite (AlarmState-discrete a.state r.state) (err AlarmError.already_acked) (ok r))

  unfoldable pub ack_of : StateRow F → String → Option String → ℕ → AlarmAck
  ack_of r actor remark ts = record {
    state = r.state;
    actor_id = actor;
    note = remark;
    acked_at = ts;
  }

  unfoldable pub ack_event : ℕ → StateRow F → String → Option String → ℕ → AlarmEvent F
  ack_event tag r actor remark ts = record {
    tag_id = tag;
    event_type = AlarmEventType.acked;
    state_from = r.state;
    state_to = r.state;
    value = r.last_value;
    quality = quality_from_code r.last_quality;
    ts = ts;
    actor_id = some actor;
    note = remark;
  }

  -- The writes of an acknowledgement.
  unfoldable pub write_ack : Db F → ℕ → StateRow F → String → Option String → ℕ → Db F
  unfolding ack_of ack_event
  write_ack db tag r actor remark ts = record db {
    acks = put db.acks tag (ack_of r actor remark ts);
    events = db.events ++ ack_event tag r actor remark ts ∷ [];
  }

  module _ (trim : String → String) where
    -- The outcome of Acknowledge once the row is locked.
    unfoldable pub acknowledge_row :
        Db F
        → ℕ
        → String
        → Option String
        → ℕ
        → Result AlarmError (StateRow F)
        → Db F × Result AlarmError (AlarmAcknowledgeResult F)
    unfolding write_ack
    acknowledge_row db tag actor remark ts (err e) = (db, err e)
    acknowledge_row db tag actor remark ts (ok r) = (
      write_ack db tag r (trim actor) remark ts,
      ok (record {
        tag_id = tag;
        state = r.state;
        ack = ack_of r (trim actor) remark ts;
        event = ack_event tag r (trim actor) remark ts;
      }),
    )

    unfoldable pub acknowledge :
        Bool
        → Db F
        → ℕ
        → String
        → Option String
        → ℕ
        → Db F × Result AlarmError (AlarmAcknowledgeResult F)
    unfolding acknowledge_row
    acknowledge true db tag actor remark ts = (db, err AlarmError.unavailable)
    acknowledge false db tag actor remark ts =
        acknowledge_row db tag actor remark ts (check_ack (get db.states tag) (get db.acks tag))

  unfoldable pub refuse_item : BulkState F → ℕ → AckStatus → Option AlarmState → BulkState F
  refuse_item b tag status state = record b {
    results =
        b.results ++ record { tag_id = tag; status = status; state = state; event = none } ∷ [];
    failed_count = suc b.failed_count;
  }

  unfoldable pub accept_item :
      BulkState F → ℕ → StateRow F → String → Option String → ℕ → BulkState F
  unfolding write_ack
  accept_item b tag r actor remark ts = record {
    db = write_ack b.db tag r actor remark ts;
    results =
        b.results
        ++ record {
          tag_id = tag;
          status = AckStatus.acked;
          state = some r.state;
          event = some (ack_event tag r actor remark ts);
        }
          ∷ [];
    success_count = suc b.success_count;
    failed_count = b.failed_count;
  }

  -- One round of the loop; the states and acks are those read at the start.
  unfoldable pub bulk_item :
      ℕ
      → String
      → Option String
      → ℕ
      → Option (StateRow F)
      → Option AlarmAck
      → BulkState F
      → BulkState F
  unfolding refuse_item accept_item
  bulk_item tag actor remark ts none ack b = refuse_item b tag AckStatus.not_found none
  bulk_item tag actor remark ts (some r) none b =
      ite (AlarmState-discrete r.state AlarmState.ok) (refuse_item b tag AckStatus.not_active none)
        (accept_item b tag r actor remark ts)
  bulk_item tag actor remark ts (some r) (some a) b =
      ite (AlarmState-discrete r.state AlarmState.ok) (refuse_item b tag AckStatus.not_active none)
        (ite (AlarmState-discrete a.state r.state)
          (refuse_item b tag AckStatus.already_acked (some r.state))
          (accept_item b tag r actor remark ts))

  unfoldable pub bulk_loop : Db F → List ℕ → String → Option String → ℕ → BulkState F → BulkState F
  unfolding bulk_item
  bulk_loop start [] actor remark ts b = b
  bulk_loop start (tag ∷ tags) actor remark ts b =
      bulk_loop start tags actor remark ts
        (bulk_item tag actor remark ts (get start.states tag) (get start.acks tag) b)

  unfoldable pub acknowledge_bulk :
      (String → String)
      → Bool
      → Db F
      → List ℕ
      → String
      → Option String
      → ℕ
      → Db F × Result AlarmError (BulkResult F)
  unfolding bulk_loop
  acknowledge_bulk trim true db tags actor remark ts = (db, err AlarmError.unavailable)
  acknowledge_bulk trim false db tags actor remark ts =
      let b =
        bulk_loop db tags (trim actor) remark ts
          (record { db = db; results = []; success_count = 0; failed_count = 0 }) in
      (
        b.db,
        ok (record {
          items = b.results;
          acked_at = ts;
          actor_id = trim actor;
          success_n = b.success_count;
          failed_n = b.failed_count;
        }),
      )
