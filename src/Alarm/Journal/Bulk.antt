-- ===== src/Alarm/Journal/Bulk.antt =====
-- AcknowledgeBulk of ms-viewer/internal/infrastructure/repository/alarm_repository.go: its answer
-- against the request and the event log.
use controlitix.Common.{
  subst, ℕ, ◌+◌, ◌≡◌, refl, sym, ◌≢◌, ap, ◌∙◌, Bool, true, false, List, [], ◌∷◌, ◌++◌, length,
  length-append, map, Option, none, some, String, ite_cases, arith, nat_key,
}
use mathlib.Core.List.{append_assoc, append-nil, map-append}
use controlitix.Common.Map.{get}
use controlitix.Common.Result.{ok}
use controlitix.Alarm.Types.{AlarmState, AlarmState-discrete, AlarmAck}
use controlitix.Alarm.Store.{StateRow, Db}
use controlitix.Alarm.Ack.{
  AckStatus, AckItem, BulkState, write_ack, ack_event, refuse_item, accept_item, bulk_item,
  bulk_loop, acknowledge_bulk,
}
use controlitix.Alarm.Requests.{acked_events}
use controlitix.Alarm.Journal.{IsContinued, continue_self, continue_more}
use controlitix.Alarm.Journal.Acknowledge.{write_ack-IsContinued}

module _ {F : Type 0} where
  acked_events-append :
      (xs ys : List (AckItem F)) → acked_events (xs ++ ys) ≡ acked_events xs ++ acked_events ys
  unfolding acked_events
  acked_events-append [] ys = refl
  acked_events-append (x ∷ xs) ys = ground (arith, acked_events-append xs ys)

  -- One item is refused without an event, or accepted for a row that is not OK.
  pub bulk_item_cases :
      (P : BulkState F → Type 0) (tag : ℕ) (actor : String) (remark : Option String) (ts : ℕ)
      (o : Option (StateRow F)) (a : Option AlarmAck) (b : BulkState F)
      → ((status : AckStatus) (state : Option AlarmState) → P (refuse_item b tag status state))
      → ((r : StateRow F)
          → o ≡ some r
          → r.state ≢ AlarmState.ok
          → P (accept_item b tag r actor remark ts))
      → P (bulk_item tag actor remark ts o a b)
  unfolding bulk_item
  bulk_item_cases P tag actor remark ts none a b f g = f AckStatus.not_found none
  bulk_item_cases P tag actor remark ts (some r) none b f g =
      ite_cases P (AlarmState-discrete r.state AlarmState.ok) (f AckStatus.not_active none)
        (λ n. g r refl n)
  bulk_item_cases P tag actor remark ts (some r) (some a) b f g =
      ite_cases P (AlarmState-discrete r.state AlarmState.ok) (f AckStatus.not_active none) (λ n.
        ite_cases P (AlarmState-discrete a.state r.state) (f AckStatus.already_acked (some r.state))
          (λ _. g r refl n))

  -- The state of the loop agrees with the rows read at the start, with the log and with its counts.
  record IsBulk (start : Db F) (done : List ℕ) (b : BulkState F) : Type 0 where
    states_kept : b.db.states ≡ start.states
    logged : b.db.events ≡ start.events ++ acked_events b.results
    continued : IsContinued start b.db
    answered : map (λ (i : AckItem F). i.tag_id) b.results ≡ done
    counted : b.success_count + b.failed_count ≡ length b.results
    succeeded : b.success_count ≡ length (acked_events b.results)

  refuse_item-IsBulk :
      (start : Db F) (done : List ℕ) (b : BulkState F) (tag : ℕ) (status : AckStatus)
      (state : Option AlarmState)
      → IsBulk start done b
      → IsBulk start (done ++ tag ∷ []) (refuse_item b tag status state)
  unfolding refuse_item acked_events
  refuse_item-IsBulk start done b tag status state h =
      let item : AckItem F = record {
        tag_id = tag;
        status = status;
        state = state;
        event = none;
      } in
      record {
        states_kept = h.states_kept;
        logged =
            h.logged
            ∙ ap (λ l. start.events ++ l)
                (sym (append-nil _) ∙ sym (acked_events-append b.results (item ∷ [])));
        continued = h.continued;
        answered = map-append _ b.results (item ∷ []) ∙ ap (λ l. l ++ tag ∷ []) h.answered;
        counted = ground (arith, h.counted, length-append b.results (item ∷ []));
        succeeded =
            h.succeeded
            ∙ ap length (sym (append-nil _) ∙ sym (acked_events-append b.results (item ∷ [])));
      }

  accept_item-IsBulk :
      (start : Db F) (done : List ℕ) (b : BulkState F) (tag : ℕ) (r : StateRow F) (actor : String)
      (remark : Option String) (ts : ℕ)
      → get start.states tag ≡ some r
      → IsBulk start done b
      → IsBulk start (done ++ tag ∷ []) (accept_item b tag r actor remark ts)
  unfolding accept_item acked_events
  accept_item-IsBulk start done b tag r actor remark ts found h =
      let event = ack_event tag r actor remark ts in
      let item : AckItem F = record {
        tag_id = tag;
        status = AckStatus.acked;
        state = some r.state;
        event = some event;
      } in
      let more : acked_events (b.results ++ item ∷ []) ≡ acked_events b.results ++ event ∷ [] =
        acked_events-append b.results (item ∷ []) in
      record {
        states_kept = h.states_kept;
        logged =
            ap (λ l. l ++ event ∷ []) h.logged
            ∙ append_assoc start.events _ _
            ∙ ap (λ l. start.events ++ l) (sym more);
        continued = continue_more start b.db (write_ack b.db tag r actor remark ts) h.continued (
            write_ack-IsContinued b.db tag r actor remark ts
              (ap (λ m. get m tag) h.states_kept ∙ found));
        answered = map-append _ b.results (item ∷ []) ∙ ap (λ l. l ++ tag ∷ []) h.answered;
        counted = ground (arith, h.counted, length-append b.results (item ∷ []));
        succeeded =
            ground (arith, h.succeeded, more, length-append (acked_events b.results) (event ∷ []));
      }

  bulk_loop-IsBulk :
      (start : Db F) (tags done : List ℕ) (actor : String) (remark : Option String) (ts : ℕ)
      (b : BulkState F)
      → IsBulk start done b
      → IsBulk start (done ++ tags) (bulk_loop start tags actor remark ts b)
  unfolding bulk_loop
  bulk_loop-IsBulk start [] done actor remark ts b h =
      subst (λ l. IsBulk start l b) (sym (append-nil done)) h
  bulk_loop-IsBulk start (tag ∷ tags) done actor remark ts b h =
      let next = bulk_item tag actor remark ts (get start.states tag) (get start.acks tag) b in
      subst (λ l. IsBulk start l (bulk_loop start tags actor remark ts next))
        (append_assoc done (tag ∷ []) tags)
        (bulk_loop-IsBulk start tags (done ++ tag ∷ []) actor remark ts next (
          bulk_item_cases (IsBulk start (done ++ tag ∷ [])) tag actor remark ts _ _ b
            (λ status state. refuse_item-IsBulk start done b tag status state h)
            (λ r found active. accept_item-IsBulk start done b tag r actor remark ts found h)))

  start-IsBulk :
      (db : Db F)
      → IsBulk db [] (record { db = db; results = []; success_count = 0; failed_count = 0 })
  unfolding acked_events
  start-IsBulk db = record {
    states_kept = refl;
    logged = sym (append-nil db.events);
    continued = continue_self db;
    answered = refl;
    counted = refl;
    succeeded = refl;
  }

  abbrev pub bulk_results :
      (trim : String → String) → Db F → List ℕ → String → Option String → ℕ → List (AckItem F)
  bulk_results trim db tags actor remark ts =
      (bulk_loop db tags (trim actor) remark ts
        (record { db = db; results = []; success_count = 0; failed_count = 0 })).results

  pub acknowledge_bulk-logged :
      (trim : String → String) (db : Db F) (tags : List ℕ) (actor : String) (remark : Option String)
      (ts : ℕ)
      → (acknowledge_bulk trim false db tags actor remark ts).0.events
        ≡ db.events ++ acked_events (bulk_results trim db tags actor remark ts)
  unfolding acknowledge_bulk
  acknowledge_bulk-logged trim db tags actor remark ts =
      (bulk_loop-IsBulk db tags [] (trim actor) remark ts _ (start-IsBulk db)).logged

  pub acknowledge_bulk-IsContinued :
      (trim : String → String) (fails : Bool) (db : Db F) (tags : List ℕ) (actor : String)
      (remark : Option String) (ts : ℕ)
      → IsContinued db (acknowledge_bulk trim fails db tags actor remark ts).0
  unfolding acknowledge_bulk
  acknowledge_bulk-IsContinued trim true db tags actor remark ts = continue_self db
  acknowledge_bulk-IsContinued trim false db tags actor remark ts =
      (bulk_loop-IsBulk db tags [] (trim actor) remark ts _ (start-IsBulk db)).continued
