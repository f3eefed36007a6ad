-- ===== src/Alarm/Journal/Acked.antt =====
-- The acknowledgements of alarms.acks against the rows of alarms.states, in
-- ms-viewer/internal/infrastructure/repository/alarm_repository.go.
use controlitix.Common.{
  ℕ, Bool, true, false, ℕ_discrete, ◌≡◌, refl, sym, ◌≢◌, ap, ◌∙◌, ◌⊎◌, inl, inr, [], Option, none,
  some, String, arith, nat_key,
}
use controlitix.Common.Map.{Map, get, put, delete, get-put, get-delete}
use controlitix.Alarm.Types.{
  AlarmState, AlarmState-discrete, AlarmAck, AlarmStateRecord, AlarmTransitionInput,
}
use controlitix.Alarm.Store.{
  StateRow, Db, upsert_state, commit_transition, delete_by_tag_id, clear_ack, state_row,
  transition_row,
}
use controlitix.Alarm.Ack.{write_ack, ack_of}

clear_ack-not_ok :
    (to : AlarmState) (acks : Map ℕ AlarmAck) (tag : ℕ)
    → to ≢ AlarmState.ok
    → clear_ack to acks tag ≡ acks
clear_ack-not_ok AlarmState.ok acks tag n = absurd (n refl)
clear_ack-not_ok _ acks tag n = refl

module _ {F : Type 0} where
  -- Whatever is acknowledged is an alarm: its row is there, in a state other than OK, and the
  -- acknowledgement is for such a state.
  pub IsAcked : Db F → Type 0
  IsAcked db =
      (tag : ℕ) (a : AlarmAck)
      → get db.acks tag ≡ some a
      → (r : StateRow F) × (get db.states tag ≡ some r)
        × (r.state ≢ AlarmState.ok)
        × (a.state ≢ AlarmState.ok)

  -- The row of `tag` is replaced by one that is not OK.
  keep-IsAcked :
      (db db' : Db F) (tag : ℕ) (r : StateRow F)
      → db'.states ≡ put db.states tag r
      → db'.acks ≡ db.acks
      → ((a : AlarmAck) → get db.acks tag ≡ some a → r.state ≢ AlarmState.ok)
      → IsAcked db
      → IsAcked db'
  unfolding IsAcked
  keep-IsAcked db db' tag r p q active h t a e =
      let (old, found, b, c) = h t a (ap (λ m. get m t) (sym q) ∙ e) in
      elim (ℕ_discrete tag t) [
        | yes s ↦ (
          r,
          ap (λ m. get m t) p ∙ ground (arith, get-put db.states tag t r),
          active a (ap (get db.acks) s ∙ ap (λ m. get m t) (sym q) ∙ e),
          c,
        )
        | no n ↦ (old, ap (λ m. get m t) p ∙ ground (arith, get-put db.states tag t r), b, c)
      ]

  clear-IsAcked :
      (db db' : Db F) (tag : ℕ) (r : StateRow F)
      → db'.states ≡ put db.states tag r
      → db'.acks ≡ delete db.acks tag
      → IsAcked db
      → IsAcked db'
  unfolding IsAcked
  clear-IsAcked db db' tag r p q h t a e =
      let gone = get-delete db.acks tag t in
      let e' = ap (λ m. get m t) (sym q) ∙ e in
      elim (ℕ_discrete tag t) [
        | yes s ↦ absurd (ground arith)
        | no n ↦
            let (old, found, b, c) = h t a (ground arith) in
            (old, ap (λ m. get m t) p ∙ ground (arith, get-put db.states tag t r), b, c)
      ]

  pub commit_transition-IsAcked :
      (db : Db F) (i : AlarmTransitionInput F) → IsAcked db → IsAcked (commit_transition db i)
  unfolding commit_transition
  commit_transition-IsAcked db i h = elim (AlarmState-discrete i.state_to AlarmState.ok) [
    | yes e ↦
        clear-IsAcked db (commit_transition db i) i.tag_id (transition_row i) refl
          (ap (λ to. clear_ack to db.acks i.tag_id) e) h
    | no n ↦
        keep-IsAcked db (commit_transition db i) i.tag_id (transition_row i) refl
          (clear_ack-not_ok i.state_to db.acks i.tag_id n) (λ a _. n) h
  ]

  -- A row is written with the state it has, or for a tag without a row.
  pub upsert_state-IsAcked :
      (db : Db F) (a : AlarmStateRecord F)
      → (get db.states a.tag_id ≡ none)
        ⊎ ((r : StateRow F) × (get db.states a.tag_id ≡ some r) × (a.state ≡ r.state))
      → IsAcked db
      → IsAcked (upsert_state db a)
  unfolding upsert_state IsAcked
  upsert_state-IsAcked db a (inl new) h =
      keep-IsAcked db (upsert_state db a) a.tag_id (state_row a) refl refl
        (λ x e. let (r, found, b, c) = h a.tag_id x e in absurd (ground arith)) h
  upsert_state-IsAcked db a (inr (r, found, same)) h =
      keep-IsAcked db (upsert_state db a) a.tag_id (state_row a) refl refl
        (λ x e. let (s, found', b, c) = h a.tag_id x e in ground arith) h

  pub write_ack-IsAcked :
      (db : Db F) (tag : ℕ) (r : StateRow F) (actor : String) (remark : Option String) (ts : ℕ)
      → get db.states tag ≡ some r
      → r.state ≢ AlarmState.ok
      → IsAcked db
      → IsAcked (write_ack db tag r actor remark ts)
  unfolding write_ack IsAcked ack_of
  write_ack-IsAcked db tag r actor remark ts found active h t a e =
      let new = get-put db.acks tag t (ack_of r actor remark ts) in
      elim (ℕ_discrete tag t) [
        | yes s ↦ (r, ap (get db.states) (sym s) ∙ found, active, ground arith)
        | no n ↦ h t a (ground arith)
      ]

  pub delete_by_tag_id-IsAcked :
      (acks_fail state_fails : Bool) (db : Db F) (tag : ℕ)
      → IsAcked db
      → IsAcked (delete_by_tag_id acks_fail state_fails db tag).0
  unfolding delete_by_tag_id IsAcked
  delete_by_tag_id-IsAcked true state_fails db tag h t a e = h t a e
  delete_by_tag_id-IsAcked false true db tag h t a e =
      let gone = get-delete db.acks tag t in
      elim (ℕ_discrete tag t) [ yes s ↦ absurd (ground arith) | no n ↦ h t a (ground arith) ]
  delete_by_tag_id-IsAcked false false db tag h t a e =
      let gone = get-delete db.acks tag t in
      elim (ℕ_discrete tag t) [
        | yes s ↦ absurd (ground arith)
        | no n ↦
            let (old, found, b, c) = h t a (ground arith) in
            (old, ground (arith, get-delete db.states tag t), b, c)
      ]

  pub empty-IsAcked : (db : Db F) → db.acks ≡ [] → IsAcked db
  unfolding IsAcked get
  empty-IsAcked db none_yet tag a e = absurd (ground arith)
