-- ===== src/Alarm/Journal/Reachable.antt =====
-- The journal and the publications in every state that the alarm engine of
-- ms-viewer/internal/usecase/alarm_usecase.go can reach.
use controlitix.Common.{ℕ, length, refl, sym, subst, Bool, [], Option, String, nat_key}
use mathlib.Core.List.Perm
use controlitix.Common.Float.{Float64}
use controlitix.Common.Map.{get}
use controlitix.Alarm.Engine.{Engine}
use controlitix.Alarm.Requests.{handle_tag_config_changed}
use controlitix.Alarm.Journal.{replay, IsJournal, continue-IsJournal}
use controlitix.Alarm.Journal.Ingest.{ingest_value-IsContinued}
use controlitix.Alarm.Journal.Acknowledge.{acknowledge-IsContinued}
use controlitix.Alarm.Journal.Bulk.{acknowledge_bulk-IsContinued}
use controlitix.Alarm.Journal.Steps.{
  Step, ingested, acknowledged, acknowledged_bulk, config_changed, finished, IsReachable, started,
  stepped, row_deleted, cut_at, last_deleted, IsLosslessStep, IsLossless,
}
use controlitix.Alarm.Journal.Kept.{
  use_acknowledge-db, use_acknowledge_bulk-db, handle_parsed-IsJournal, finish_publication-db,
}

module _ (f : Float64) (hysteresis_percent : f.F) (trim : String → String)
    (parse_uuid : String → Option ℕ) (deleted : String → Bool) where
  open f use {F}

  Step-IsJournal :
      (cut : ℕ → ℕ) (e e' : Engine F)
      (step : Step f hysteresis_percent trim parse_uuid deleted e e')
      → IsLosslessStep f hysteresis_percent trim parse_uuid deleted e e' step
      → IsJournal cut e.db
      → IsJournal
          (cut_at
            (row_deleted f hysteresis_percent trim parse_uuid deleted e e' step)
            (length e.db.events)
            cut)
          e'.db
  unfolding handle_tag_config_changed
  Step-IsJournal cut _ _ (ingested o e r) safe j =
      continue-IsJournal cut e.db _ j (ingest_value-IsContinued f hysteresis_percent o e r safe)
  Step-IsJournal cut _ _ (acknowledged fails e tag actor remark now) safe j =
      subst (IsJournal cut) (sym (use_acknowledge-db trim fails e tag actor remark now)) (
        continue-IsJournal cut e.db _ j
          (acknowledge-IsContinued trim fails e.db tag (trim actor) remark now))
  Step-IsJournal cut _ _ (acknowledged_bulk fails e tags actor remark now) safe j =
      subst (IsJournal cut) (sym (use_acknowledge_bulk-db trim fails e tags actor remark now)) (
        continue-IsJournal cut e.db _ j
          (acknowledge_bulk-IsContinued trim fails e.db tags (trim actor) remark now))
  Step-IsJournal cut _ _ (config_changed acks_fail state_fails e tag_id operation loaded) safe j =
      handle_parsed-IsJournal parse_uuid deleted cut acks_fail state_fails e operation loaded
        (parse_uuid tag_id) j
  Step-IsJournal cut _ _ (finished e before job later answers waits) safe j =
      subst (IsJournal cut) (sym (finish_publication-db e before job later answers)) j

  -- Whichever messages were handled, if no transition failed after the first row of its tag was
  -- written: for every tag, the events that were logged since its row was last deleted, or since
  -- the start, lead without a gap from OK to the state that is stored.
  pub IsReachable-IsJournal :
      (e : Engine F) (h : IsReachable f hysteresis_percent trim parse_uuid deleted e)
      → IsLossless f hysteresis_percent trim parse_uuid deleted e h
      → IsJournal (last_deleted f hysteresis_percent trim parse_uuid deleted e h) e.db
  unfolding IsJournal replay get IsLossless last_deleted
  IsReachable-IsJournal _ started safe = (λ tag. ([], [], refl, refl, refl))
  IsReachable-IsJournal _ (stepped e e' before step) safe =
      Step-IsJournal (last_deleted f hysteresis_percent trim parse_uuid deleted e before) e e' step
        safe.1 (IsReachable-IsJournal e before safe.0)
