-- ===== src/Samples/RateLimit.antt =====
-- Three failed logins of one key, with two allowed in a window of 100.
use controlitix.Common.{
  ℕ, List, ◌+◌, ◌-◌, ◌≡◌, refl, ◌≢◌, String, true, false, [], ◌∷◌, none, leb, length, if◌then◌else◌,
  string_key, arith,
}
use controlitix.Common.Map.{Map, get}
use controlitix.RateLimit.{FailureState, allow, collect}
use controlitix.RateLimit.Lockout.{fail_at, allow-fail_at, allow-collect}

abbrev same_key : String → String
same_key s = s

abbrev nobody : Map String FailureState
nobody = []

abbrev more_times : List ℕ
more_times = 6 ∷ 9 ∷ []

ann-not_empty : same_key "ann" ≢ ""
ann-not_empty e = cc

nobody-none : get nobody (same_key "ann") ≡ none
unfolding get
nobody-none = refl

allow-fail_at_example :
    (allow 2 100 same_key (fail_at 2 100 same_key nobody "ann" (5 ∷ more_times)) "ann" 50).1
    ≡ (if leb 2 (1 + length more_times) then (false, 5 + 100 - 50) else (true, 0))
allow-fail_at_example =
    allow-fail_at 2 100 same_key nobody "ann" 5 50 more_times ann-not_empty nobody-none
      (omega arith, (omega arith, tt)) (omega arith)

abbrev old_and_new : Map String FailureState
old_and_new =
    ("ann", record { count = 3; first_fail_at = 5 })
    ∷ ("annabel", record { count = 3; first_fail_at = 900 })
    ∷ []

allow-collect_example :
    (allow 2 100 same_key (collect 2 100 same_key old_and_new 950) "annabel" 960).1
    ≡ (allow 2 100 same_key old_and_new "annabel" 960).1
allow-collect_example =
    allow-collect 2 100 same_key old_and_new "annabel" 950 960 (((λ e. cc), tt), (tt, tt))
      (omega arith)
