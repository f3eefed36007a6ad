-- ===== src/RateLimit/Lockout.antt =====
-- When the limiter of ms-auth/internal/usecase/ratelimit/limiter.go refuses a key.
use controlitix.Common.{
  ℕ, ◌+◌, ◌-◌, ◌≤◌, suc, ◌≡◌, refl, ap, ◌∙◌, ◌≢◌, String, true, false, List, [], ◌∷◌, Option, none,
  some, Bool-cases, leb, inl, inr, if◌then◌else◌, string_key, same, arith, length, All,
}
use controlitix.Common.Map.{Map, get, kept, get-put_self, get-delete_where, IsDistinct}
use controlitix.RateLimit.{FailureState, is_over, answer, allow, on_failure, next_failure, collect}

module _ (max_failures window : ℕ) (trim : String → String) where
  -- The failures of a key at the given times, the first one first.
  unfoldable pub fail_at : Map String FailureState → String → List ℕ → Map String FailureState
  fail_at states key [] = states
  fail_at states key (t ∷ ts) = fail_at (on_failure max_failures window trim states key t) key ts

  get-on_failure :
      (states : Map String FailureState) (key : String) (now : ℕ)
      → trim key ≢ ""
      → get (on_failure max_failures window trim states key now) (trim key)
        ≡ some (next_failure max_failures window trim now (get states (trim key)))
  unfolding on_failure
  get-on_failure states key now named =
      let s : same (trim key) "" ≡ false = ground arith in
      rw s (
        get-put_self states (trim key)
          (next_failure max_failures window trim now (get states (trim key))))

  get-fail_at :
      (states : Map String FailureState) (key : String) (first n : ℕ) (ts : List ℕ)
      → trim key ≢ ""
      → get states (trim key) ≡ some (record { count = n; first_fail_at = first })
      → All (λ t. t ≤ first + window) ts
      → get (fail_at states key ts) (trim key)
        ≡ some (record { count = n + length ts; first_fail_at = first })
  unfolding fail_at
  get-fail_at states key first n [] named found h = ground (arith, found)
  get-fail_at states key first n (t ∷ ts) named found h =
      let step : get (on_failure max_failures window trim states key t) (trim key)
          ≡ some (record { count = suc n; first_fail_at = first }) =
        ground (arith, get-on_failure states key t named, found, h.0) in
      get-fail_at (on_failure max_failures window trim states key t) key first (suc n) ts named step
        h.1
      ∙ ground arith

  answer-within :
      (states : Map String FailureState) (key : String) (now : ℕ) (state : FailureState)
      → now ≤ state.first_fail_at + window
      → (answer max_failures window trim states key now (some state)).1 ≡ (
          if leb max_failures state.count
          then (false, state.first_fail_at + window - now)
          else (true, 0))
  unfolding answer
  answer-within states key now state h = ground arith

  -- A key without a record fails at `first` and at later times, none more than a window after the
  -- first. Asked no more than a window after the first, the limiter refuses it exactly if there were
  -- at least as many failures as are allowed, and then names the time that is left of the window.
  pub allow-fail_at :
      (states : Map String FailureState) (key : String) (first now : ℕ) (ts : List ℕ)
      → trim key ≢ ""
      → get states (trim key) ≡ none
      → All (λ t. t ≤ first + window) ts
      → now ≤ first + window
      → (allow max_failures window trim (fail_at states key (first ∷ ts)) key now).1
        ≡ (if leb max_failures (1 + length ts) then (false, first + window - now) else (true, 0))
  unfolding allow fail_at
  allow-fail_at states key first now ts named new h within =
      let s : same (trim key) "" ≡ false = ground arith in
      let begun : get (on_failure max_failures window trim states key first) (trim key)
          ≡ some (record { count = 1; first_fail_at = first }) =
        ground (arith, get-on_failure states key first named, new) in
      let found =
        get-fail_at (on_failure max_failures window trim states key first) key first 1 ts named
          begun h in
      rw s (
        ap
          (λ o.
            (answer max_failures window trim (fail_at states key (first ∷ ts)) (trim key) now o).1)
          found
        ∙ answer-within (fail_at states key (first ∷ ts)) (trim key) now _ within)

  answer-kept :
      (states states' : Map String FailureState) (key : String) (tick now : ℕ)
      (o : Option FailureState)
      → tick ≤ now
      → (answer max_failures window trim states key now
          (kept (λ _ state. is_over window tick state) key o)).1
        ≡ (answer max_failures window trim states' key now o).1
  unfolding answer
  answer-kept states states' key tick now none h = refl
  answer-kept states states' key tick now (some state) h = ground arith

  -- A tick of the garbage collector changes no later answer.
  pub allow-collect :
      (states : Map String FailureState) (key : String) (tick now : ℕ)
      → IsDistinct states
      → tick ≤ now
      → (allow max_failures window trim (collect max_failures window trim states tick) key now).1
        ≡ (allow max_failures window trim states key now).1
  unfolding allow collect
  allow-collect states key tick now d h =
      let found = get-delete_where (λ _ state. is_over window tick state) states (trim key) d in
      let left = collect max_failures window trim states tick in
      elim (Bool-cases (same (trim key) "")) [
        | inl e ↦ rw e refl
        | inr e ↦ rw e (
            ap (λ o. (answer max_failures window trim left (trim key) now o).1) found
            ∙ answer-kept left states (trim key) tick now (get states (trim key)) h)
      ]
