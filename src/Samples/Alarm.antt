-- ===== src/Samples/Alarm.antt =====
-- A tag that enters Hi, is acknowledged, and climbs to HiHi, and is deleted. Its values are whole numbers.
use controlitix.Common.{
  ℕ, ◌+◌, ◌-◌, ◌*◌, ◌/◌, ◌≡◌, refl, ◌≢◌, ◌↔◌, inl, String, same, Bool, true, false, [], ◌∷◌, Option,
  none, some, leb, ltb, arith, nat_key, string_key,
}
use controlitix.Common.Float.{Float64}
use controlitix.Common.Map.{get}
use controlitix.Common.Result.{ok}
use controlitix.Alarm.Quality.{Quality, to_code}
use controlitix.Alarm.Types.{
  AlarmState, AlarmState-discrete, hi, hihi, AlarmAck, Setpoints, AlarmTransitionInput,
  IngestRecord,
}
use controlitix.Alarm.Evaluator.{
  positive_span, evaluate_alarm_state, resolve_alarm_state, resolve_value,
  should_keep_previous_by_hysteresis, hysteresis_margin,
}
use controlitix.Alarm.Evaluator.Hysteresis.{
  evaluate_alarm_state_settles, evaluate_alarm_state-from_hihi,
}
use controlitix.Alarm.Store.{StateRow, Db, state_row}
use controlitix.Alarm.Engine.{Engine, no_outage, transition_input, ingest_value, refreshed}
use controlitix.Alarm.Requests.{use_acknowledge, handle_tag_config_changed}
use controlitix.Alarm.Journal.{IsJournal, IsContinued}
use controlitix.Alarm.Journal.Ingest.{ingest_value-IsContinued}
use controlitix.Alarm.Journal.Lost.{transition_outage, evaluated, ingest_value-lost}
use controlitix.Alarm.Journal.Acked.{IsAcked}
use controlitix.Alarm.Journal.AckedSteps.{IsReachable-IsAcked}
use controlitix.Alarm.Journal.Steps.{
  ingested, acknowledged, config_changed, IsReachable, started, stepped, empty_engine, last_deleted,
  IsLossless,
}
use controlitix.Alarm.Journal.Reachable.{IsReachable-IsJournal}

abbrev whole : Float64
whole = record {
  F = ℕ;
  ge = λ a b. leb b a;
  gt = λ a b. ltb b a;
  le = λ a b. leb a b;
  lt = λ a b. ltb a b;
  add = λ a b. a + b;
  sub = λ a b. a - b;
  mul = λ a b. a * b;
  div = λ a b. a / b;
  abs = λ a. a;
  zero_value = 0;
  two = 2;
  hundred = 100;
}

abbrev limits : Setpoints ℕ
limits = record { lolo = none; lo = none; hi = some 80; hihi = some 95 }

abbrev reading : ℕ → ℕ → IngestRecord ℕ
reading at value = record { tag_id = 1; timestamp = at; value = some value; quality = Quality.ok }

abbrev same_text : String → String
same_text s = s

abbrev first_tag : String → Option ℕ
first_tag s = some 1

abbrev is_deleted : String → Bool
is_deleted s = same s "deleted"

abbrev configured : Engine ℕ
configured =
    handle_tag_config_changed first_tag is_deleted false false
      (empty_engine whole 2 same_text first_tag is_deleted) "1" "updated" (some (some limits))

abbrev high : Engine ℕ
high = (ingest_value whole 2 no_outage configured (reading 10 85)).0

abbrev seen : Engine ℕ
seen = (use_acknowledge same_text false high 1 "ann" none 20).0

abbrev higher : Engine ℕ
higher = (ingest_value whole 2 no_outage seen (reading 30 96)).0

-- A value of quality bad, which is an alarm without any setpoint.
abbrev bad_reading : IngestRecord ℕ
bad_reading = record { tag_id = 1; timestamp = 10; value = none; quality = Quality.bad }

no_rows : get (empty_engine whole 2 same_text first_tag is_deleted).db.states 1 ≡ none
unfolding get
no_rows = refl

-- The tag is deleted, and reads high once more; then the first of the goroutines ends, refused.
abbrev gone : Engine ℕ
gone = handle_tag_config_changed first_tag is_deleted false false higher "1" "deleted" none

abbrev again : Engine ℕ
again = (ingest_value whole 2 no_outage gone bad_reading).0

higher-IsReachable : IsReachable whole 2 same_text first_tag is_deleted higher
higher-IsReachable =
    stepped seen higher
      (stepped high seen
        (stepped configured high
          (stepped _ configured started
            (config_changed false false _ "1" "updated" (some (some limits))))
          (ingested no_outage configured (reading 10 85)))
        (acknowledged false high 1 "ann" none 20))
      (ingested no_outage seen (reading 30 96))

again-IsReachable : IsReachable whole 2 same_text first_tag is_deleted again
again-IsReachable =
    stepped gone again
      (stepped higher gone higher-IsReachable
        (config_changed false false higher "1" "deleted" none))
      (ingested no_outage gone bad_reading)

IsReachable-IsJournal_example :
    IsJournal (last_deleted whole 2 same_text first_tag is_deleted again again-IsReachable) again.db
unfolding IsLossless higher-IsReachable again-IsReachable
IsReachable-IsJournal_example =
    IsReachable-IsJournal whole 2 same_text first_tag is_deleted again again-IsReachable
      ((((((tt, tt), inl refl), tt), inl refl), tt), inl refl)

-- A tag that reads bad, whose event is still with its goroutine.
abbrev failing : Engine ℕ
failing =
    (ingest_value whole 2 no_outage (empty_engine whole 2 same_text first_tag is_deleted)
      bad_reading).0

abbrev bad_input : AlarmTransitionInput ℕ
bad_input = transition_input bad_reading AlarmState.ok AlarmState.bad

IsReachable-IsAcked_example : IsAcked higher.db
IsReachable-IsAcked_example =
    IsReachable-IsAcked whole 2 same_text first_tag is_deleted higher higher-IsReachable

ingest_value-IsContinued_example : IsContinued seen.db higher.db
ingest_value-IsContinued_example =
    ingest_value-IsContinued whole 2 no_outage seen (reading 30 96) (inl refl)

abbrev hihi_row : StateRow ℕ
hihi_row = record {
  state = hihi;
  last_value = some 96;
  last_quality = to_code Quality.ok;
  entered_at = 30;
  last_seen_at = 30;
  suppressed = false;
}

abbrev hi_ack : AlarmAck
hi_ack = record { state = hi; actor_id = "ann"; note = none; acked_at = 20 }

-- The rows and acknowledgements as they are then.
abbrev higher_db : Db ℕ
higher_db = record { states = (1, hihi_row) ∷ []; acks = (1, hi_ack) ∷ []; events = [] }

evaluated-changed :
    (evaluated whole 2 (empty_engine whole 2 same_text first_tag is_deleted) bad_reading).1 ≡ true
unfolding evaluate_alarm_state resolve_alarm_state AlarmState-discrete
    should_keep_previous_by_hysteresis
evaluated-changed = refl

ingest_value-lost_example :
    let start = empty_engine whole 2 same_text first_tag is_deleted in
    let once = (ingest_value whole 2 transition_outage start bad_reading).0 in
    let twice = (ingest_value whole 2 no_outage once bad_reading).0 in
    (get once.db.states 1
      ≡ some (state_row (refreshed bad_reading (evaluated whole 2 start bad_reading).0 10)))
    × (twice.db.events ≡ [])
    × (twice.pending ≡ [])
ingest_value-lost_example =
    ingest_value-lost whole 2 (empty_engine whole 2 same_text first_tag is_deleted) bad_reading
      no_rows evaluated-changed

evaluate_alarm_state_settles_example :
    let (next, changed) = evaluate_alarm_state whole hi (some 79) Quality.ok limits 2 in
    ((changed ≡ true) ↔ (next ≢ hi))
    × (evaluate_alarm_state whole next (some 79) Quality.ok limits 2 ≡ (next, false))
evaluate_alarm_state_settles_example =
    evaluate_alarm_state_settles whole hi (some 79) Quality.ok limits 2

trans : (a b c : ℕ) → ltb b a ≡ true → leb c b ≡ true → leb c a ≡ true
trans a b c h k = ground arith

evaluate_alarm_state-from_hihi_example :
    evaluate_alarm_state whole hihi (some 94) Quality.ok limits 2
    ≡ (resolve_value whole 94 limits, true)
unfolding hysteresis_margin positive_span
evaluate_alarm_state-from_hihi_example =
    evaluate_alarm_state-from_hihi whole 94 95 80 limits 2 trans refl refl refl refl
