-- ===== src/Alarm/Journal/Steps.antt =====
-- The alarm engine of ms-viewer/internal/usecase/alarm_usecase.go as a step relation: the values,
-- requests and messages it handles, in any order, and the goroutines that publish, which end in any
-- order.
use controlitix.Common.{
  ℕ, ℕ_discrete, ite, length, ◌∷◌, ◌++◌, none, some, if◌then◌else◌, ◌≡◌, ◌⊎◌, Bool, true, false,
  List, [], Option, is_some, String, nat_key,
}
use controlitix.Common.Float.{Float64}
use controlitix.Common.Map.{get}
use controlitix.Alarm.Types.{IngestRecord, Setpoints}
use controlitix.Alarm.Engine.{Engine, Outage, Publication, finish_publication, ingest_value}
use controlitix.Alarm.Requests.{use_acknowledge, use_acknowledge_bulk, handle_tag_config_changed}

module _ (deleted : String → Bool) where
  -- The tag whose row a message deletes: the operation is a deletion and both statements succeed.
  abbrev pub deleted_tag : Bool → Bool → String → Option ℕ → Option ℕ
  deleted_tag true state_fails operation parsed = none
  deleted_tag false true operation parsed = none
  deleted_tag false false operation parsed = if deleted operation then parsed else none

abbrev pub cut_at : Option ℕ → ℕ → (ℕ → ℕ) → ℕ → ℕ
cut_at none n cut tag = cut tag
cut_at (some t) n cut tag = ite (ℕ_discrete t tag) n (cut tag)

module _ (f : Float64) (hysteresis_percent : f.F) (trim : String → String)
    (parse_uuid : String → Option ℕ) (deleted : String → Bool) where
  open f use {F}

  -- One message, or the end of one publishing goroutine, whichever of them it is.
  pub data Step : Engine F → Engine F → Type 0 where
    ingested :
        (o : Outage) (e : Engine F) (r : IngestRecord F)
        → Step e (ingest_value f hysteresis_percent o e r).0
    acknowledged :
        (fails : Bool) (e : Engine F) (tag : ℕ) (actor : String) (remark : Option String) (now : ℕ)
        → Step e (use_acknowledge trim fails e tag actor remark now).0
    acknowledged_bulk :
        (fails : Bool) (e : Engine F) (tags : List ℕ) (actor : String) (remark : Option String)
        (now : ℕ)
        → Step e (use_acknowledge_bulk trim fails e tags actor remark now).0
    config_changed :
        (acks_fail state_fails : Bool) (e : Engine F) (tag_id operation : String)
        (loaded : Option (Option (Setpoints F)))
        → Step e (
            handle_tag_config_changed parse_uuid deleted acks_fail state_fails e tag_id operation
              loaded)
    finished :
        (e : Engine F) (before : List (Publication F)) (job : Publication F)
        (later : List (Publication F)) (answers : ℕ → Bool)
        → e.pending ≡ before ++ job ∷ later
        → Step e (finish_publication e before job later answers)

  abbrev pub empty_engine : Engine F
  empty_engine = record {
    db = record { states = []; acks = []; events = [] };
    setpoints_by_tag = [];
    pending = [];
    published = [];
    given_up = [];
    audit = [];
  }

  pub data IsReachable : Engine F → Type 0 where
    started : IsReachable empty_engine
    stepped : (e e' : Engine F) → IsReachable e → Step e e' → IsReachable e'

  abbrev pub row_deleted : (e e' : Engine F) → Step e e' → Option ℕ
  row_deleted _ _ (config_changed acks_fail state_fails e tag_id operation loaded) =
      deleted_tag deleted acks_fail state_fails operation (parse_uuid tag_id)
  row_deleted _ _ (ingested o e r) = none
  row_deleted _ _ (acknowledged fails e tag actor remark now) = none
  row_deleted _ _ (acknowledged_bulk fails e tags actor remark now) = none
  row_deleted _ _ (finished e before job later answers waits) = none

  -- How long the log was when the tag's row was last deleted.
  unfoldable pub last_deleted : (e : Engine F) → IsReachable e → ℕ → ℕ
  last_deleted _ started tag = 0
  last_deleted _ (stepped e e' before step) tag =
      cut_at (row_deleted e e' step) (length e.db.events) (last_deleted e before) tag

  -- No transition fails after the first row of its tag was written.
  abbrev pub IsLosslessStep : (e e' : Engine F) → Step e e' → Type 0
  IsLosslessStep _ _ (ingested o e r) =
      (o.apply_fails ≡ false) ⊎ (is_some (get e.db.states r.tag_id) ≡ true)
  IsLosslessStep _ _ (acknowledged fails e tag actor remark now) = Unit
  IsLosslessStep _ _ (acknowledged_bulk fails e tags actor remark now) = Unit
  IsLosslessStep _ _ (config_changed acks_fail state_fails e tag_id operation loaded) = Unit
  IsLosslessStep _ _ (finished e before job later answers waits) = Unit

  unfoldable pub IsLossless : (e : Engine F) → IsReachable e → Type 0
  IsLossless _ started = Unit
  IsLossless _ (stepped e e' before step) = IsLossless e before × IsLosslessStep e e' step
