-- ===== src/Alarm/Journal/Kept.antt =====
-- What each message of ms-viewer/internal/usecase/alarm_usecase.go does to the database, and a
-- deletion by a tag to the event log.
use controlitix.Common.{
  ℕ, ℕ_discrete, ap, length, ◌∷◌, none, some, ◌||◌, if◌then◌else◌, ◌≡◌, refl, sym, ◌∙◌, ◌⊎◌, inl,
  inr, subst, if_elim, Bool, true, false, Bool-cases, List, [], Option, String, arith, nat_key,
}
use mathlib.Core.List.{append-nil}
use controlitix.Common.Map.{delete, get-delete}
use controlitix.Common.Result.{Result, ok, err}
use controlitix.Alarm.Types.{AlarmEvent, Setpoints}
use controlitix.Alarm.Store.{Db, AlarmError, delete_by_tag_id}
use controlitix.Alarm.Ack.{AlarmAcknowledgeResult, BulkResult, acknowledge, acknowledge_bulk}
use controlitix.Alarm.Engine.{
  Engine, Publication, is_accepted, finish_publication, publish_and_broadcast_event,
  publish_and_broadcast_batch,
}
use controlitix.Alarm.Requests.{
  acked_events, use_acknowledge, use_acknowledge_bulk, handle_parsed, reload_setpoints,
  tell_acknowledged, tell_acknowledged_bulk,
}
use controlitix.Alarm.Journal.{replay, IsJournal}
use controlitix.Alarm.Journal.Steps.{deleted_tag, cut_at}

module _ {F : Type 0} where
  delete_by_tag_id-IsJournal :
      (cut : ℕ → ℕ) (db : Db F) (tag : ℕ)
      → IsJournal cut db
      → IsJournal (cut_at (some tag) (length db.events) cut) (delete_by_tag_id false false db tag).0
  unfolding IsJournal delete_by_tag_id replay
  delete_by_tag_id-IsJournal cut db tag j t = elim (ℕ_discrete tag t) [
    | yes e ↦ (
      db.events,
      [],
      sym (append-nil db.events),
      ground arith,
      ground (arith, get-delete db.states tag t),
    )
    | no n ↦
        let (old, recent, split, at, led) = j t in
        (old, recent, split, ground (arith, at), led ∙ ground (arith, get-delete db.states tag t))
  ]

  -- A deletion that is not carried out leaves the rows and the log.
  delete_failed-IsJournal :
      (cut : ℕ → ℕ) (acks_fail state_fails : Bool) (db : Db F) (tag : ℕ)
      → acks_fail || state_fails ≡ true
      → IsJournal cut db
      → IsJournal cut (delete_by_tag_id acks_fail state_fails db tag).0
  unfolding IsJournal delete_by_tag_id
  delete_failed-IsJournal cut true state_fails db tag failed j = j
  delete_failed-IsJournal cut false true db tag failed j = j
  delete_failed-IsJournal cut false false db tag failed j = cc

  pub finish_publication-db :
      (e : Engine F) (before : List (Publication F)) (job : Publication F)
      (later : List (Publication F)) (answers : ℕ → Bool)
      → (finish_publication e before job later answers).db ≡ e.db
  unfolding finish_publication
  finish_publication-db e before job later answers =
      if_elim (λ (x : Engine F). x.db ≡ e.db) (is_accepted job answers) (λ _. refl) (λ _. refl)

  tell_acknowledged-db :
      (e : Engine F) (x : Db F × Result AlarmError (AlarmAcknowledgeResult F))
      → (tell_acknowledged e x).0.db ≡ x.0
  unfolding tell_acknowledged publish_and_broadcast_event
  tell_acknowledged-db e (db, err x) = refl
  tell_acknowledged-db e (db, ok a) = refl

  publish_and_broadcast_batch-db :
      (e : Engine F) (events : List (AlarmEvent F))
      → (publish_and_broadcast_batch e events).db ≡ e.db
  unfolding publish_and_broadcast_batch
  publish_and_broadcast_batch-db e [] = refl
  publish_and_broadcast_batch-db e (event ∷ events) = refl

  tell_acknowledged_bulk-db :
      (e : Engine F) (x : Db F × Result AlarmError (BulkResult F))
      → (tell_acknowledged_bulk e x).0.db ≡ x.0
  unfolding tell_acknowledged_bulk
  tell_acknowledged_bulk-db e (db, err x) = refl
  tell_acknowledged_bulk-db e (db, ok a) =
      publish_and_broadcast_batch-db (record e { db = db }) (acked_events a.items)

  module _ (trim : String → String) where
    pub use_acknowledge-db :
        (fails : Bool) (e : Engine F) (tag : ℕ) (actor : String) (remark : Option String) (now : ℕ)
        → (use_acknowledge trim fails e tag actor remark now).0.db
          ≡ (acknowledge trim fails e.db tag (trim actor) remark now).0
    unfolding use_acknowledge
    use_acknowledge-db fails e tag actor remark now = tell_acknowledged-db e _

    pub use_acknowledge_bulk-db :
        (fails : Bool) (e : Engine F) (tags : List ℕ) (actor : String) (remark : Option String)
        (now : ℕ)
        → (use_acknowledge_bulk trim fails e tags actor remark now).0.db
          ≡ (acknowledge_bulk trim fails e.db tags (trim actor) remark now).0
    unfolding use_acknowledge_bulk
    use_acknowledge_bulk-db fails e tags actor remark now =
        tell_acknowledged_bulk-db e (acknowledge_bulk trim fails e.db tags (trim actor) remark now)

  module _ (parse_uuid : String → Option ℕ) (deleted : String → Bool) where
    reload_setpoints-db :
        (e : Engine F) (tag : ℕ) (loaded : Option (Option (Setpoints F)))
        → (reload_setpoints parse_uuid deleted e tag loaded).db ≡ e.db
    unfolding reload_setpoints
    reload_setpoints-db e tag none = refl
    reload_setpoints-db e tag (some none) = refl
    reload_setpoints-db e tag (some (some s)) = refl

    -- Every message about a tag's configuration leaves the database, or deletes by the tag.
    pub handle_parsed-db :
        (acks_fail state_fails : Bool) (e : Engine F) (operation : String)
        (loaded : Option (Option (Setpoints F))) (parsed : Option ℕ)
        → let e' =
            handle_parsed parse_uuid deleted acks_fail state_fails e operation loaded parsed in
          ((e'.db ≡ e.db) × (deleted_tag deleted acks_fail state_fails operation parsed ≡ none))
          ⊎ ((tag : ℕ) × (e'.db ≡ (delete_by_tag_id acks_fail state_fails e.db tag).0)
              × (deleted_tag deleted acks_fail state_fails operation parsed
                  ≡ deleted_tag deleted acks_fail state_fails operation (some tag))
              × (deleted operation ≡ true))
    unfolding handle_parsed
    handle_parsed-db acks_fail state_fails e operation loaded none =
        inl (refl, deleted_tag-none acks_fail state_fails operation)
      where
        deleted_tag-none :
            (acks_fail state_fails : Bool) (operation : String)
            → deleted_tag deleted acks_fail state_fails operation none ≡ none
        deleted_tag-none true state_fails operation = refl
        deleted_tag-none false true operation = refl
        deleted_tag-none false false operation =
            if_elim (λ x. x ≡ none) (deleted operation) (λ _. refl) (λ _. refl)
    handle_parsed-db acks_fail state_fails e operation loaded (some tag) =
        elim (Bool-cases (deleted operation)) [
          | inl d ↦ inr (tag, ap (λ (b : Bool). (if b then gone else kept).db) d, refl, d)
          | inr d ↦ inl (
            ap (λ (b : Bool). (if b then gone else kept).db) d ∙ reload_setpoints-db e tag loaded,
            kept_tag acks_fail state_fails d,
          )
        ]
      where
        gone : Engine F
        gone = record e {
          setpoints_by_tag = delete e.setpoints_by_tag tag;
          db = (delete_by_tag_id acks_fail state_fails e.db tag).0;
        }

        kept : Engine F
        kept = reload_setpoints parse_uuid deleted e tag loaded

        kept_tag :
            (acks_fail state_fails : Bool)
            → deleted operation ≡ false
            → deleted_tag deleted acks_fail state_fails operation (some tag) ≡ none
        kept_tag true state_fails d = refl
        kept_tag false true d = refl
        kept_tag false false d = ap (λ (b : Bool). if b then some tag else none) d

    delete-IsJournal :
        (cut : ℕ → ℕ) (acks_fail state_fails : Bool) (operation : String) (db : Db F) (tag : ℕ)
        → deleted operation ≡ true
        → IsJournal cut db
        → IsJournal
            (cut_at
              (deleted_tag deleted acks_fail state_fails operation (some tag))
              (length db.events)
              cut)
            (delete_by_tag_id acks_fail state_fails db tag).0
    delete-IsJournal cut true state_fails operation db tag d j =
        delete_failed-IsJournal cut true state_fails db tag refl j
    delete-IsJournal cut false true operation db tag d j =
        delete_failed-IsJournal cut false true db tag refl j
    delete-IsJournal cut false false operation db tag d j =
        subst
          (λ (b : Bool).
            IsJournal (cut_at (if b then some tag else none) (length db.events) cut)
              (delete_by_tag_id false false db tag).0)
          (sym d) (delete_by_tag_id-IsJournal cut db tag j)

    pub handle_parsed-IsJournal :
        (cut : ℕ → ℕ) (acks_fail state_fails : Bool) (e : Engine F) (operation : String)
        (loaded : Option (Option (Setpoints F))) (parsed : Option ℕ)
        → IsJournal cut e.db
        → IsJournal
            (cut_at
              (deleted_tag deleted acks_fail state_fails operation parsed)
              (length e.db.events)
              cut)
            (handle_parsed parse_uuid deleted acks_fail state_fails e operation loaded parsed).db
    handle_parsed-IsJournal cut acks_fail state_fails e operation loaded parsed j =
        let n = length e.db.events in
        let e' = handle_parsed parse_uuid deleted acks_fail state_fails e operation loaded parsed in
        elim (handle_parsed-db acks_fail state_fails e operation loaded parsed) [
          | inl (same, q) ↦
              subst (λ t. IsJournal (cut_at t n cut) e'.db) (sym q)
                (subst (IsJournal cut) (sym same) j)
          | inr (tag, gone, q, d) ↦
              subst (λ t. IsJournal (cut_at t n cut) e'.db) (sym q)
                (subst (IsJournal _) (sym gone)
                  (delete-IsJournal cut acks_fail state_fails operation e.db tag d j))
        ]
