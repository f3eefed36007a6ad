-- ===== src/Alarm/Journal/Published.antt =====
-- What the goroutines of ms-viewer/internal/usecase/alarm_usecase.go publish, against the event log.
use controlitix.Common.{
  ℕ, ◌≡◌, refl, sym, ap, subst, ◌∙◌, if_elim, Bool, true, false, List, [], ◌∷◌, ◌++◌, Option, none,
  some, String, nat_key,
}
use mathlib.Core.List.{Perm, append_assoc, append-nil, perm_append_comm}
use mathlib.Core.List.Perm
use controlitix.Common.Result.{Result, ok, err}
use controlitix.Alarm.Types.{
  AlarmState, AlarmEvent, AlarmStateRecord, AlarmTransitionInput, IngestRecord, Setpoints,
}
use controlitix.Alarm.Store.{
  Db, StateRow, AlarmError, apply_transition, commit_transition, transition_event, upsert_state,
  delete_by_tag_id,
}
use controlitix.Alarm.Ack.{acknowledge, acknowledge_row, acknowledge_bulk, write_ack, ack_event}
use controlitix.Alarm.Engine.{
  Engine, Outage, Publication, single, batch, events_of, is_accepted, finish_publication, transit,
  store_evaluation, publish_and_broadcast_event, publish_and_broadcast_batch,
}
use controlitix.Alarm.Requests.{
  use_acknowledge, use_acknowledge_bulk, handle_parsed, reload_setpoints, acked_events,
  tell_acknowledged, tell_acknowledged_bulk,
}
use controlitix.Alarm.Journal.Bulk.{bulk_results, acknowledge_bulk-logged}

module _ {F : Type 0} where
  -- The events of the goroutines that have not ended.
  unfoldable pub handed : List (Publication F) → List (AlarmEvent F)
  handed [] = []
  handed (job ∷ jobs) = events_of job ++ handed jobs

  -- Each event of the log is, once, with a goroutine that has not ended, accepted, or given up.
  unfoldable pub IsDelivered : Engine F → Type 0
  unfolding handed
  IsDelivered e = Perm (e.published ++ (e.given_up ++ handed e.pending)) e.db.events

  handed-append :
      (jobs more : List (Publication F)) → handed (jobs ++ more) ≡ handed jobs ++ handed more
  unfolding handed
  handed-append [] more = refl
  handed-append (job ∷ jobs) more =
      ap (λ l. events_of job ++ l) (handed-append jobs more)
      ∙ sym (append_assoc (events_of job) (handed jobs) (handed more))

  -- One more goroutine, for the events that are logged.
  hand-IsDelivered :
      (e : Engine F) (db : Db F) (job : Publication F)
      → db.events ≡ e.db.events ++ events_of job
      → IsDelivered e
      → Perm (e.published ++ (e.given_up ++ handed (e.pending ++ job ∷ []))) db.events
  unfolding handed IsDelivered
  hand-IsDelivered e db job logged h =
      let more : handed (e.pending ++ job ∷ []) ≡ handed e.pending ++ events_of job =
        handed-append e.pending (job ∷ [])
        ∙ ap (λ l. handed e.pending ++ l) (append-nil (events_of job)) in
      let moved : (e.published ++ (e.given_up ++ handed e.pending)) ++ events_of job
          ≡ e.published ++ (e.given_up ++ handed (e.pending ++ job ∷ [])) =
        append_assoc e.published (e.given_up ++ handed e.pending) (events_of job)
        ∙ ap (λ l. e.published ++ l)
            (append_assoc e.given_up (handed e.pending) (events_of job)
              ∙ ap (λ l. e.given_up ++ l) (sym more)) in
      subst (λ l. Perm l db.events) moved
        (subst (Perm _) (sym logged) (Perm.append_right (events_of job) h))

  pull : (xs js ys : List (AlarmEvent F)) → Perm (js ++ (xs ++ ys)) (xs ++ (js ++ ys))
  pull xs js ys =
      subst (λ l. Perm l (xs ++ (js ++ ys))) (append_assoc js xs ys)
        (subst (Perm ((js ++ xs) ++ ys)) (append_assoc xs js ys)
          (Perm.append_right ys (perm_append_comm js xs)))

  -- A goroutine ends, whichever it is and however its attempts are answered.
  pub finish_publication-IsDelivered :
      (e : Engine F) (before : List (Publication F)) (job : Publication F)
      (later : List (Publication F)) (answers : ℕ → Bool)
      → e.pending ≡ before ++ job ∷ later
      → IsDelivered e
      → IsDelivered (finish_publication e before job later answers)
  unfolding finish_publication IsDelivered handed
  finish_publication-IsDelivered e before job later answers waits h =
      let b = handed before in
      let j = events_of job in
      let a = handed later in
      let was : handed e.pending ≡ b ++ (j ++ a) =
        ap handed waits ∙ handed-append before (job ∷ later) in
      let held : Perm (e.published ++ (e.given_up ++ (b ++ (j ++ a)))) e.db.events =
        subst (λ l. Perm (e.published ++ (e.given_up ++ l)) e.db.events) was h in
      let left : handed (before ++ later) ≡ b ++ a = handed-append before later in
      let kept : Perm (e.given_up ++ (j ++ (b ++ a))) (e.given_up ++ (b ++ (j ++ a))) =
        Perm.append_left e.given_up (pull b j a) in
      if_elim (λ (x : Engine F). Perm (x.published ++ (x.given_up ++ handed x.pending)) x.db.events)
        (is_accepted job answers)
        (λ _.
          subst (λ l. Perm ((e.published ++ j) ++ (e.given_up ++ l)) e.db.events) (sym left)
            (subst (λ l. Perm l e.db.events)
              (sym (append_assoc e.published j (e.given_up ++ (b ++ a))))
              (Perm.trans
                (Perm.append_left e.published (Perm.trans (pull e.given_up j (b ++ a)) kept))
                held)))
        (λ _.
          subst (λ l. Perm (e.published ++ ((e.given_up ++ j) ++ l)) e.db.events) (sym left)
            (subst (λ l. Perm (e.published ++ l) e.db.events)
              (sym (append_assoc e.given_up j (b ++ a)))
              (Perm.trans (Perm.append_left e.published kept) held)))

  transit-IsDelivered :
      (fails : Bool) (e : Engine F) (i : AlarmTransitionInput F)
      → IsDelivered e
      → IsDelivered (transit fails e i).0
  unfolding transit apply_transition publish_and_broadcast_event commit_transition IsDelivered
  transit-IsDelivered true e i h = h
  transit-IsDelivered false e i h =
      hand-IsDelivered e (commit_transition e.db i) (single (transition_event i)) refl h

  pub store_evaluation-IsDelivered :
      (o : Outage) (e : Engine F) (r : IngestRecord F) (c : Option (AlarmStateRecord F))
      (s : AlarmState × Bool)
      → IsDelivered e
      → IsDelivered (store_evaluation o e r c s).0
  unfolding store_evaluation upsert_state IsDelivered
  store_evaluation-IsDelivered o e r (some current) (next, true) h =
      transit-IsDelivered o.apply_fails e _ h
  store_evaluation-IsDelivered o e r none (next, true) h =
      if_elim (λ (x : Engine F × Option AlarmError). IsDelivered x.0) o.upsert_fails (λ _. h)
        (λ _. transit-IsDelivered o.apply_fails _ _ h)
  store_evaluation-IsDelivered o e r (some c) (next, false) h =
      if_elim (λ (x : Engine F × Option AlarmError). IsDelivered x.0) o.upsert_fails (λ _. h)
        (λ _. h)
  store_evaluation-IsDelivered o e r none (next, false) h =
      if_elim (λ (x : Engine F × Option AlarmError). IsDelivered x.0) o.upsert_fails (λ _. h)
        (λ _. h)

  batch-IsDelivered :
      (e : Engine F) (db : Db F) (events : List (AlarmEvent F))
      → db.events ≡ e.db.events ++ events
      → IsDelivered e
      → IsDelivered (publish_and_broadcast_batch (record e { db = db }) events)
  unfolding publish_and_broadcast_batch IsDelivered
  batch-IsDelivered e db [] logged h = subst (Perm _) (sym (logged ∙ append-nil e.db.events)) h
  batch-IsDelivered e db (event ∷ events) logged h =
      hand-IsDelivered e db (batch (event ∷ events)) logged h

  module _ (trim : String → String) where
    acknowledge_row-IsDelivered :
        (e : Engine F) (tag : ℕ) (actor : String) (remark : Option String) (now : ℕ)
        (c : Result AlarmError (StateRow F))
        → IsDelivered e
        → IsDelivered (tell_acknowledged e (acknowledge_row trim e.db tag actor remark now c)).0
    unfolding acknowledge_row tell_acknowledged publish_and_broadcast_event write_ack IsDelivered
    acknowledge_row-IsDelivered e tag actor remark now (err x) h = h
    acknowledge_row-IsDelivered e tag actor remark now (ok r) h =
        hand-IsDelivered e (write_ack e.db tag r (trim actor) remark now)
          (single (ack_event tag r (trim actor) remark now)) refl h

    pub use_acknowledge-IsDelivered :
        (fails : Bool) (e : Engine F) (tag : ℕ) (actor : String) (remark : Option String) (now : ℕ)
        → IsDelivered e
        → IsDelivered (use_acknowledge trim fails e tag actor remark now).0
    unfolding use_acknowledge acknowledge tell_acknowledged IsDelivered
    use_acknowledge-IsDelivered true e tag actor remark now h = h
    use_acknowledge-IsDelivered false e tag actor remark now h =
        acknowledge_row-IsDelivered e tag (trim actor) remark now _ h

    pub use_acknowledge_bulk-IsDelivered :
        (fails : Bool) (e : Engine F) (tags : List ℕ) (actor : String) (remark : Option String)
        (now : ℕ)
        → IsDelivered e
        → IsDelivered (use_acknowledge_bulk trim fails e tags actor remark now).0
    unfolding use_acknowledge_bulk acknowledge_bulk tell_acknowledged_bulk IsDelivered
    use_acknowledge_bulk-IsDelivered true e tags actor remark now h = h
    use_acknowledge_bulk-IsDelivered false e tags actor remark now h =
        batch-IsDelivered e (acknowledge_bulk trim false e.db tags (trim actor) remark now).0
          (acked_events (bulk_results trim e.db tags (trim actor) remark now))
          (acknowledge_bulk-logged trim e.db tags (trim actor) remark now) h

  module _ (parse_uuid : String → Option ℕ) (deleted : String → Bool) where
    delete_by_tag_id-events :
        (acks_fail state_fails : Bool) (db : Db F) (tag : ℕ)
        → (delete_by_tag_id acks_fail state_fails db tag).0.events ≡ db.events
    unfolding delete_by_tag_id
    delete_by_tag_id-events true state_fails db tag = refl
    delete_by_tag_id-events false true db tag = refl
    delete_by_tag_id-events false false db tag = refl

    reload_setpoints-IsDelivered :
        (e : Engine F) (tag : ℕ) (loaded : Option (Option (Setpoints F)))
        → IsDelivered e
        → IsDelivered (reload_setpoints parse_uuid deleted e tag loaded)
    unfolding reload_setpoints IsDelivered
    reload_setpoints-IsDelivered e tag none h = h
    reload_setpoints-IsDelivered e tag (some none) h = h
    reload_setpoints-IsDelivered e tag (some (some s)) h = h

    pub handle_parsed-IsDelivered :
        (acks_fail state_fails : Bool) (e : Engine F) (operation : String)
        (loaded : Option (Option (Setpoints F))) (parsed : Option ℕ)
        → IsDelivered e
        → IsDelivered
            (handle_parsed parse_uuid deleted acks_fail state_fails e operation loaded parsed)
    unfolding handle_parsed IsDelivered
    handle_parsed-IsDelivered acks_fail state_fails e operation loaded none h = h
    handle_parsed-IsDelivered acks_fail state_fails e operation loaded (some tag) h =
        if_elim IsDelivered (deleted operation)
          (λ _. subst (Perm _) (sym (delete_by_tag_id-events acks_fail state_fails e.db tag)) h)
          (λ _. reload_setpoints-IsDelivered e tag loaded h)
