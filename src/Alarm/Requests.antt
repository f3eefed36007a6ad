-- ===== src/Alarm/Requests.antt =====
-- The requests and messages that ms-viewer/internal/usecase/alarm_usecase.go answers: the
-- acknowledgements, HandleTagConfigChanged and the query checks of ListAlarms.
-- `deleted` stands for strings.EqualFold(strings.TrimSpace(operation), "deleted"), `parse_uuid` for
-- uuid.Parse after strings.TrimSpace, `trim` for strings.TrimSpace.
use controlitix.Common.{ℕ, String, Bool, List, [], ◌∷◌, Option, none, some, nat_key, if◌then◌else◌}
use controlitix.Common.Int.{ℤ, pos, ltb_ℤ, leb_ℤ}
use controlitix.Common.Map.{put, delete}
use controlitix.Common.Result.{Result, ok, err}
use controlitix.Alarm.Types.{Setpoints, AlarmEvent}
use controlitix.Alarm.Store.{Db, AlarmError, delete_by_tag_id}
use controlitix.Alarm.Ack.{
  AlarmAcknowledgeResult, BulkResult, AckItem, AckStatus, acknowledge, acknowledge_bulk,
}
use controlitix.Alarm.Engine.{Engine, publish_and_broadcast_event, publish_and_broadcast_batch}

module _ {F : Type 0} where
  -- The events of the acknowledged items.
  unfoldable pub acked_events : List (AckItem F) → List (AlarmEvent F)
  acked_events [] = []
  acked_events (item ∷ items) =
      let rest = acked_events items in
      elim item.event [
        | none ↦ rest
        | some event ↦ elim item.status [ AckStatus.acked ↦ event ∷ rest | _ ↦ rest ]
      ]

  -- What follows the call of the repository.
  unfoldable pub tell_acknowledged :
      Engine F
      → Db F × Result AlarmError (AlarmAcknowledgeResult F)
      → Engine F × Result AlarmError (AlarmAcknowledgeResult F)
  unfolding publish_and_broadcast_event
  tell_acknowledged e (db, err x) = (record e { db = db }, err x)
  tell_acknowledged e (db, ok a) =
      (publish_and_broadcast_event (record e { db = db }) a.event, ok a)

  unfoldable pub tell_acknowledged_bulk :
      Engine F
      → Db F × Result AlarmError (BulkResult F)
      → Engine F × Result AlarmError (BulkResult F)
  unfolding acked_events publish_and_broadcast_batch
  tell_acknowledged_bulk e (db, err x) = (record e { db = db }, err x)
  tell_acknowledged_bulk e (db, ok b) =
      (publish_and_broadcast_batch (record e { db = db }) (acked_events b.items), ok b)

  module _ (trim : String → String) where
    unfoldable pub use_acknowledge :
        Bool
        → Engine F
        → ℕ
        → String
        → Option String
        → ℕ
        → Engine F × Result AlarmError (AlarmAcknowledgeResult F)
    unfolding tell_acknowledged
    use_acknowledge fails e tag actor remark now =
        tell_acknowledged e (acknowledge trim fails e.db tag (trim actor) remark now)

    unfoldable pub use_acknowledge_bulk :
        Bool
        → Engine F
        → List ℕ
        → String
        → Option String
        → ℕ
        → Engine F × Result AlarmError (BulkResult F)
    unfolding tell_acknowledged_bulk
    use_acknowledge_bulk fails e tags actor remark now =
        tell_acknowledged_bulk e (acknowledge_bulk trim fails e.db tags (trim actor) remark now)

  module _ (parse_uuid : String → Option ℕ) (deleted : String → Bool) where
    -- `loaded` is the answer of LoadSetpoint: an error, no row, or the setpoints.
    unfoldable pub reload_setpoints : Engine F → ℕ → Option (Option (Setpoints F)) → Engine F
    reload_setpoints e tag none = e
    reload_setpoints e tag (some none) = record e {
      setpoints_by_tag = delete e.setpoints_by_tag tag;
    }
    reload_setpoints e tag (some (some s)) = record e {
      setpoints_by_tag = put e.setpoints_by_tag tag s;
    }

    -- HandleTagConfigChanged once the identifier is parsed; the error of the deletion is ignored.
    unfoldable pub handle_parsed :
        Bool → Bool → Engine F → String → Option (Option (Setpoints F)) → Option ℕ → Engine F
    unfolding reload_setpoints delete_by_tag_id
    handle_parsed acks_fail state_fails e operation loaded none = e
    handle_parsed acks_fail state_fails e operation loaded (some tag) =
        if deleted operation
        then record e {
          setpoints_by_tag = delete e.setpoints_by_tag tag;
          db = (delete_by_tag_id acks_fail state_fails e.db tag).0;
        }
        else reload_setpoints e tag loaded

    unfoldable pub handle_tag_config_changed :
        Bool → Bool → Engine F → String → String → Option (Option (Setpoints F)) → Engine F
    unfolding handle_parsed
    handle_tag_config_changed acks_fail state_fails e tag_id operation loaded =
        handle_parsed acks_fail state_fails e operation loaded (parse_uuid tag_id)

-- The checks of ListAlarms: the limit and the offset that the repository is asked for.
unfoldable pub normalize_list_query : ℤ → ℤ → Result AlarmError (ℤ × ℤ)
normalize_list_query limit offset =
    let n = if leb_ℤ limit (pos 0) then pos 50 else limit in
    if ltb_ℤ (pos 500) n
    then err AlarmError.invalid_input
    else if ltb_ℤ offset (pos 0)
    then err AlarmError.invalid_input
    else ok (n, offset)
