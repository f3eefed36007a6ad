-- ===== src/RateLimit.antt =====
-- ms-auth/internal/usecase/ratelimit/limiter.go. Times are nanoseconds, `trim` is strings.TrimSpace,
-- and the clock's answer is the argument `now`. The sync.Map is a map, so each call is one step.
pub mod Lockout
use controlitix.Common.{
  ℕ, ◌+◌, ◌-◌, suc, String, Bool, true, false, Option, none, some, ltb, leb, if◌then◌else◌,
  string_key, same,
}
use controlitix.Common.Map.{Map, get, put, delete, delete_where}

pub record FailureState : Type 0 where
  pub count : ℕ
  pub first_fail_at : ℕ

-- now.Sub(state.firstFailAt) > limiter.window
abbrev pub is_over : ℕ → ℕ → FailureState → Bool
is_over window now state = ltb (state.first_fail_at + window) now

-- New: the number of failures and the window that are used for those that are given.
unfoldable pub new_limits : ℕ → ℕ → ℕ × ℕ
new_limits max_failures window =
    (if leb max_failures 0 then 1 else max_failures, if leb window 0 then 60000000000 else window)

module _ (max_failures window : ℕ) (trim : String → String) where
  -- Allow for a key that is not empty, by its state.
  unfoldable pub answer :
      Map String FailureState
      → String
      → ℕ
      → Option FailureState
      → Map String FailureState × (Bool × ℕ)
  answer states key now none = (states, (true, 0))
  answer states key now (some state) =
      if is_over window now state
      then (delete states key, (true, 0))
      else if leb max_failures state.count
      then (states, (false, state.first_fail_at + window - now))
      else (states, (true, 0))

  unfoldable pub allow : Map String FailureState → String → ℕ → Map String FailureState × (Bool × ℕ)
  unfolding answer
  allow states key now =
      if same (trim key) ""
      then (states, (true, 0))
      else answer states (trim key) now (get states (trim key))

  abbrev pub next_failure : ℕ → Option FailureState → FailureState
  next_failure now none = record { count = 1; first_fail_at = now }
  next_failure now (some state) =
      if is_over window now state
      then record { count = 1; first_fail_at = now }
      else record state { count = suc state.count }

  unfoldable pub on_failure : Map String FailureState → String → ℕ → Map String FailureState
  on_failure states key now =
      if same (trim key) ""
      then states
      else put states (trim key) (next_failure now (get states (trim key)))

  unfoldable pub on_success : Map String FailureState → String → Map String FailureState
  on_success states key = if same (trim key) "" then states else delete states (trim key)

  -- One tick of gcLoop.
  unfoldable pub collect : Map String FailureState → ℕ → Map String FailureState
  collect states now = delete_where (λ _ state. is_over window now state) states
