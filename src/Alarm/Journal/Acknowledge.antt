-- ===== src/Alarm/Journal/Acknowledge.antt =====
-- Acknowledge and AcknowledgeBulk of
-- ms-viewer/internal/infrastructure/repository/alarm_repository.go and the event log.
use controlitix.Common.{
  ℕ, ◌≡◌, refl, ◌≢◌, inl, inr, Bool, true, false, Option, none, some, String, arith, nat_key,
}
use controlitix.Common.Map.{get}
use controlitix.Common.Result.{ok, Result-cases}
use controlitix.Alarm.Types.{AlarmState, AlarmState-discrete, AlarmAck}
use controlitix.Alarm.Store.{StateRow, Db}
use controlitix.Alarm.Ack.{check_ack, write_ack, ack_event, acknowledge, acknowledge_row}
use controlitix.Alarm.Journal.{IsContinued, note-IsContinued, continue_self}

module _ {F : Type 0} where
  -- What an acknowledgement that is not refused has found.
  pub check_ack-ok :
      (o : Option (StateRow F)) (a : Option AlarmAck) (r : StateRow F)
      → check_ack o a ≡ ok r
      → (o ≡ some r) × (r.state ≢ AlarmState.ok) × ((b : AlarmAck) → a ≡ some b → b.state ≢ r.state)
  unfolding check_ack
  check_ack-ok none a r e = cc
  check_ack-ok (some s) none r e = elim (AlarmState-discrete s.state AlarmState.ok) [
    | yes y ↦ absurd (ground arith)
    | no n ↦ let q : s ≡ r = ground arith in (cc, ground arith, λ b d. absurd (ground arith))
  ]
  check_ack-ok (some s) (some a) r e = elim (AlarmState-discrete s.state AlarmState.ok) [
    | yes y ↦ absurd (ground arith)
    | no n ↦ elim (AlarmState-discrete a.state s.state) [
      | yes y ↦ absurd (ground arith)
      | no m ↦ let q : s ≡ r = ground arith in (cc, ground arith, λ b d. ground arith)
    ]
  ]

  pub write_ack-IsContinued :
      (db : Db F) (tag : ℕ) (r : StateRow F) (actor : String) (remark : Option String) (ts : ℕ)
      → get db.states tag ≡ some r
      → IsContinued db (write_ack db tag r actor remark ts)
  unfolding write_ack ack_event
  write_ack-IsContinued db tag r actor remark ts found =
      note-IsContinued db (write_ack db tag r actor remark ts) (ack_event tag r actor remark ts)
        refl refl (ground arith) (ground arith)

  -- An acknowledgement, refused or not, appends events that keep every state.
  pub acknowledge-IsContinued :
      (trim : String → String) (fails : Bool) (db : Db F) (tag : ℕ) (actor : String)
      (remark : Option String) (ts : ℕ)
      → IsContinued db (acknowledge trim fails db tag actor remark ts).0
  unfolding acknowledge acknowledge_row
  acknowledge-IsContinued trim true db tag actor remark ts = continue_self db
  acknowledge-IsContinued trim false db tag actor remark ts =
      elim (Result-cases (check_ack (get db.states tag) (get db.acks tag))) [
        | inl (x, e) ↦ rw e (continue_self db)
        | inr (r, e) ↦ rw e (
            write_ack-IsContinued db tag r (trim actor) remark ts
              (check_ack-ok (get db.states tag) (get db.acks tag) r e).0)
      ]
