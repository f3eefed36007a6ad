-- ===== src/Alarm/Journal.antt =====
-- The event log of alarms.events as a history of the states in alarms.states.
pub mod Ingest
pub mod Acknowledge
pub mod Bulk
pub mod Published
pub mod Steps
pub mod Kept
pub mod Reachable
pub mod Lost
pub mod Acked
pub mod AckedSteps
pub mod Hidden
use controlitix.Common.{
  ℕ, ℕ_discrete, ◌≡◌, refl, sym, ◌≢◌, ap, subst, ◌∙◌, ◌⊎◌, inl, inr, Bool, true, false, Bool-cases,
  List, [], ◌∷◌, ◌++◌, Option, none, some, Option-cases, is_some, length, ite, if_pos, if_neg,
  arith, nat_key,
}
use mathlib.Core.List.{append_assoc, append-nil}
use controlitix.Common.Map.{Map, get, put, delete, get-put, get-delete}
use controlitix.Alarm.Types.{AlarmState, AlarmState-discrete, AlarmEvent}
use controlitix.Alarm.Store.{StateRow, Db}

module _ {F : Type 0} where
  -- The state a tag is in after one event, if the event starts from the state it was in.
  abbrev pub follow : ℕ → AlarmState → AlarmEvent F → Option AlarmState
  follow tag s e =
      ite (ℕ_discrete e.tag_id tag)
        (ite (AlarmState-discrete e.state_from s) (some e.state_to) none) (some s)

  unfoldable pub replay : ℕ → AlarmState → List (AlarmEvent F) → Option AlarmState
  replay tag s [] = some s
  replay tag s (e ∷ es) = elim (follow tag s e) [ none ↦ none | some s' ↦ replay tag s' es ]

  -- The state of a row; a tag without one counts as OK.
  abbrev pub row_state : Option (StateRow F) → AlarmState
  row_state none = AlarmState.ok
  row_state (some r) = r.state

  abbrev pub state_at : Map ℕ (StateRow F) → ℕ → AlarmState
  state_at states tag = row_state (get states tag)

  -- For every tag, the log from the position `cut tag` on leads without a gap from OK to the tag's
  -- state.
  pub IsJournal : (ℕ → ℕ) → Db F → Type 0
  IsJournal cut db =
      (tag : ℕ)
      → (old : List (AlarmEvent F)) × (recent : List (AlarmEvent F)) × (db.events ≡ old ++ recent)
        × (length old ≡ cut tag)
        × (replay tag AlarmState.ok recent ≡ some (state_at db.states tag))

  -- `db'` has more events, which lead from the states of `db` to those of `db'`.
  pub IsContinued : Db F → Db F → Type 0
  IsContinued db db' =
      (new : List (AlarmEvent F)) × (db'.events ≡ db.events ++ new)
      × ((tag : ℕ) → replay tag (state_at db.states tag) new ≡ some (state_at db'.states tag))

  pub replay-append :
      (tag : ℕ) (s t : AlarmState) (es fs : List (AlarmEvent F))
      → replay tag s es ≡ some t
      → replay tag s (es ++ fs) ≡ replay tag t fs
  unfolding replay
  replay-append tag s t [] fs h = cc
  replay-append tag s t (e ∷ es) fs h = elim (Option-cases (follow tag s e)) [
    | inl n ↦ absurd (ground arith)
    | inr (m, q) ↦ ground (arith, replay-append tag m t es fs)
  ]

  pub continue-IsJournal :
      (cut : ℕ → ℕ) (db db' : Db F) → IsJournal cut db → IsContinued db db' → IsJournal cut db'
  unfolding IsJournal IsContinued
  continue-IsJournal cut db db' j (new, e, c) tag =
      let (old, recent, split, at, led) = j tag in
      (
        old,
        recent ++ new,
        e ∙ ap (λ l. l ++ new) split ∙ append_assoc old recent new,
        at,
        replay-append tag AlarmState.ok (state_at db.states tag) recent new led ∙ c tag,
      )

  -- One event that starts from the tag's state, and a row with the state it leads to.
  pub put-IsContinued :
      (db db' : Db F) (e : AlarmEvent F) (r : StateRow F)
      → ((t : ℕ) → get db'.states t ≡ ite (ℕ_discrete e.tag_id t) (some r) (get db.states t))
      → db'.events ≡ db.events ++ e ∷ []
      → e.state_from ≡ state_at db.states e.tag_id
      → e.state_to ≡ r.state
      → IsContinued db db'
  unfolding IsContinued replay
  put-IsContinued db db' e r p q from to = (e ∷ [], q, λ tag. ground (arith, p tag))

  -- A row is written again with the state it has.
  pub put_same-IsContinued :
      (db db' : Db F) (tag : ℕ) (r : StateRow F)
      → ((t : ℕ) → get db'.states t ≡ ite (ℕ_discrete tag t) (some r) (get db.states t))
      → db'.events ≡ db.events
      → r.state ≡ state_at db.states tag
      → IsContinued db db'
  unfolding IsContinued replay
  put_same-IsContinued db db' tag r p q s =
      ([], q ∙ sym (append-nil db.events), λ t. ground (arith, p t))

  pub continue_self : (db : Db F) → IsContinued db db
  unfolding IsContinued replay
  continue_self db = ([], sym (append-nil db.events), λ tag. refl)

  -- An event that leaves the states alone, because it starts from and leads to the tag's state.
  pub note-IsContinued :
      (db db' : Db F) (e : AlarmEvent F)
      → db'.states ≡ db.states
      → db'.events ≡ db.events ++ e ∷ []
      → e.state_from ≡ state_at db.states e.tag_id
      → e.state_to ≡ state_at db.states e.tag_id
      → IsContinued db db'
  unfolding IsContinued replay
  note-IsContinued db db' e p q from to = (e ∷ [], q, λ tag. ground (arith, p))

  pub continue_more : (a b c : Db F) → IsContinued a b → IsContinued b c → IsContinued a c
  unfolding IsContinued
  continue_more a b c (new, e, f) (more, g, h) = (
    new ++ more,
    g ∙ ap (λ l. l ++ more) e ∙ append_assoc a.events new more,
    λ tag.
        replay-append tag (state_at a.states tag) (state_at b.states tag) new more (f tag) ∙ h tag,
  )
