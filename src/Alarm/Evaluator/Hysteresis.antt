-- ===== src/Alarm/Evaluator/Hysteresis.antt =====
-- What the evaluation decides, and where its hysteresis has no effect.
use controlitix.Common.{◌≡◌, refl, ◌≢◌, ◌↔◌, ◌⊎◌, inl, inr, true, false, Option, none, some, arith}
use controlitix.Common.Float.{Float64}
use controlitix.Alarm.Quality.{Quality}
use controlitix.Alarm.Types.{AlarmState, ok, lo, hi, lolo, hihi, Setpoints}
use controlitix.Alarm.Evaluator.{
  evaluate_alarm_state, resolve_alarm_state, resolve_value, keeps_previous,
  should_keep_previous_by_hysteresis, hysteresis_margin,
}

module _ (f : Float64) where
  open f use {F, ge, gt, sub}

  -- The state reports a change exactly if it differs from the previous one, and a second
  -- evaluation of the same reading changes nothing more.
  pub evaluate_alarm_state_settles :
      (prev : AlarmState) (v : Option F) (q : Quality) (s : Setpoints F) (percent : F)
      → let (next, changed) = evaluate_alarm_state f prev v q s percent in
        ((changed ≡ true) ↔ (next ≢ prev))
        × (evaluate_alarm_state f next v q s percent ≡ (next, false))
  unfolding evaluate_alarm_state
  evaluate_alarm_state_settles prev v q s percent =
      ((λ e d. ground arith, λ d. ground arith), ground arith)

  pub evaluate_alarm_state-unchanged :
      (prev : AlarmState) (v : Option F) (q : Quality) (s : Setpoints F) (percent : F)
      → (evaluate_alarm_state f prev v q s percent).1 ≡ false
      → (evaluate_alarm_state f prev v q s percent).0 ≡ prev
  unfolding evaluate_alarm_state
  evaluate_alarm_state-unchanged prev v q s percent e = ground arith

  keeps_previous-limit :
      (prev : AlarmState) (v : F) (s : Setpoints F) (percent : F)
      → keeps_previous f prev v s percent ≡ true
      → (prev ≡ hi) ⊎ ((prev ≡ hihi) ⊎ ((prev ≡ lo) ⊎ (prev ≡ lolo)))
  unfolding keeps_previous
  keeps_previous-limit hi v s percent e = inl refl
  keeps_previous-limit hihi v s percent e = inr (inl refl)
  keeps_previous-limit lo v s percent e = inr (inr (inl refl))
  keeps_previous-limit lolo v s percent e = inr (inr (inr refl))
  keeps_previous-limit _ v s percent e = cc

  keep-needs :
      (prev next : AlarmState) (v : Option F) (s : Setpoints F) (percent : F)
      → should_keep_previous_by_hysteresis f prev next v s percent ≡ true
      → (next ≡ ok) × ((prev ≡ hi) ⊎ ((prev ≡ hihi) ⊎ ((prev ≡ lo) ⊎ (prev ≡ lolo))))
  unfolding should_keep_previous_by_hysteresis
  keep-needs prev ok (some v) s percent e = (refl, keeps_previous-limit prev v s percent e)
  keep-needs prev ok none s percent e = cc
  keep-needs prev _ v s percent e = cc

  -- Where the upper limit less the margin is still at least the lower one, leaving HiHi is not
  -- held back at all: a value that is no longer at HiHi is taken at once for what it is, be it Hi,
  -- OK or a low limit, although HiHi was the previous state and the value may be just below it.
  pub evaluate_alarm_state-from_hihi :
      (v upper lower : F) (s : Setpoints F) (percent : F)
      → ((a b c : F) → gt a b ≡ true → ge b c ≡ true → ge a c ≡ true)
      → s.hihi ≡ some upper
      → s.hi ≡ some lower
      → ge (sub upper (hysteresis_margin f s percent)) lower ≡ true
      → ge v upper ≡ false
      → evaluate_alarm_state f hihi (some v) Quality.ok s percent ≡ (resolve_value f v s, true)
  unfolding evaluate_alarm_state resolve_alarm_state should_keep_previous_by_hysteresis
      keeps_previous resolve_value
  evaluate_alarm_state-from_hihi v upper lower s percent trans eu el wide below =
      ground (arith, trans v (sub upper (hysteresis_margin f s percent)) lower)
