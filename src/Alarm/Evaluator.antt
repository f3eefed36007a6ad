-- ===== src/Alarm/Evaluator.antt =====
-- ms-viewer/internal/domain/alarm_evaluator.go.
pub mod Hysteresis
use controlitix.Common.{
  Bool, true, false, not, ◌&&◌, ◌||◌, Option, none, some, is_some, ite, if◌then◌else◌,
}
use controlitix.Common.Float.{Float64}
use controlitix.Alarm.Quality.{Quality}
use controlitix.Alarm.Types.{
  AlarmState, ok, lo, hi, lolo, hihi, uncertain, bad, comm_loss, offline, AlarmState-discrete,
  Setpoints,
}

module _ (f : Float64) where
  open f use {F, ge, gt, le, lt, add, sub, mul, div, abs, zero_value, two, hundred}

  -- setpoint != nil && test(*setpoint)
  abbrev pub reached : (F → Bool) → Option F → Bool
  reached test none = false
  reached test (some x) = test x

  -- The comparisons of resolveAlarmState with a value at hand.
  unfoldable pub resolve_value : F → Setpoints F → AlarmState
  resolve_value current s =
      if not (is_some s.hi || is_some s.hihi || is_some s.lo || is_some s.lolo)
      then ok
      else if reached (λ x. ge current x) s.hihi
      then hihi
      else if reached (λ x. ge current x) s.hi
      then hi
      else if reached (λ x. le current x) s.lolo
      then lolo
      else if reached (λ x. le current x) s.lo
      then lo
      else ok

  unfoldable pub resolve_optional : Option F → Setpoints F → AlarmState
  resolve_optional none s = bad
  resolve_optional (some v) s = resolve_value v s

  unfoldable pub resolve_alarm_state : Option F → Quality → Setpoints F → AlarmState
  unfolding resolve_optional
  resolve_alarm_state v Quality.comm_loss s = comm_loss
  resolve_alarm_state v Quality.offline s = offline
  resolve_alarm_state v Quality.bad s = bad
  resolve_alarm_state v Quality.uncertain s = uncertain
  resolve_alarm_state v _ s = resolve_optional v s

  -- firstNonNil
  abbrev pub first_non_nil : Option F → Option F → Option F
  first_non_nil (some a) b = some a
  first_non_nil none b = b

  -- |a - b|, if both are there and it is positive.
  unfoldable pub positive_span : Option F → Option F → Option F
  positive_span (some a) (some b) =
      if gt (abs (sub a b)) zero_value then some (abs (sub a b)) else none
  positive_span _ _ = none

  unfoldable pub hysteresis_margin : Setpoints F → F → F
  hysteresis_margin s percent =
      let p = if le percent zero_value then two else percent in
      elim (first_non_nil (positive_span s.hihi s.lolo) (positive_span s.hi s.lo)) [
        | some span ↦ div (mul span p) hundred
        | none ↦ div p hundred
      ]

  -- next == ok && value != nil, by the previous state.
  unfoldable pub keeps_previous : AlarmState → F → Setpoints F → F → Bool
  keeps_previous hi v s percent =
      reached (λ x. gt v (sub x (hysteresis_margin s percent))) (first_non_nil s.hihi s.hi)
  keeps_previous hihi v s percent =
      reached (λ x. gt v (sub x (hysteresis_margin s percent))) (first_non_nil s.hihi s.hi)
  keeps_previous lo v s percent =
      reached (λ x. lt v (add x (hysteresis_margin s percent))) (first_non_nil s.lolo s.lo)
  keeps_previous lolo v s percent =
      reached (λ x. lt v (add x (hysteresis_margin s percent))) (first_non_nil s.lolo s.lo)
  keeps_previous _ v s percent = false

  unfoldable pub should_keep_previous_by_hysteresis :
      AlarmState → AlarmState → Option F → Setpoints F → F → Bool
  should_keep_previous_by_hysteresis prev ok (some v) s percent = keeps_previous prev v s percent
  should_keep_previous_by_hysteresis prev _ _ s percent = false

  unfoldable pub evaluate_alarm_state :
      AlarmState → Option F → Quality → Setpoints F → F → AlarmState × Bool
  evaluate_alarm_state prev value quality s percent =
      let next = resolve_alarm_state value quality s in
      ite (AlarmState-discrete next prev) (next, false)
        (if should_keep_previous_by_hysteresis prev next value s percent
          then (prev, false)
          else (next, true))
