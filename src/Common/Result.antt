-- ===== src/Common/Result.antt =====
-- Go's `(value, error)` results as a sum, with the chain of early returns as a monad.
use controlitix.Common.{◌≡◌, refl, ◌⊎◌, inl, inr, Bool, true, false, if◌then◌else◌}

pub data Result (E A : Type 0) : Type 0 where
  ok : A → Result E A
  err : E → Result E A

-- `if bad { return e }`
abbrev pub refuse_if : {E : Type 0} → Bool → E → Result E (Unit {0})
refuse_if bad e = if bad then err e else ok tt

infixl 5 ◌>>◌ ◌>>=◌
-- An early return skips what follows.
abbrev pub ◌>>◌ : {E B : Type 0} → Result E (Unit {0}) → Result E B → Result E B
err e >> rest = err e
ok passed >> rest = rest

abbrev pub ◌>>=◌ : {E A B : Type 0} → Result E A → (A → Result E B) → Result E B
err e >>= rest = err e
ok value >>= rest = rest value

pub >>=-eq-ok :
    {E A B : Type 0} (first : Result E A) (rest : A → Result E B) {out : B}
    → first >>= rest ≡ ok out
    → (mid : A) × (first ≡ ok mid) × (rest mid ≡ ok out)
>>=-eq-ok (err e) rest done = cc
>>=-eq-ok (ok value) rest done = (value, refl, done)

pub Result-cases :
    {E A : Type 0} (m : Result E A) → ((e : E) × (m ≡ err e)) ⊎ ((a : A) × (m ≡ ok a))
Result-cases (ok a) = inr (a, refl)
Result-cases (err e) = inl (e, refl)

pub >>-eq-ok :
    {E B : Type 0} (first : Result E (Unit {0})) (rest : Result E B) {out : B}
    → first >> rest ≡ ok out
    → (first ≡ ok tt) × (rest ≡ ok out)
>>-eq-ok (err e) rest done = cc
>>-eq-ok (ok tt) rest done = (refl, done)

pub refuse_if-eq-ok : {E : Type 0} (bad : Bool) (e : E) → refuse_if bad e ≡ ok tt → bad ≡ false
refuse_if-eq-ok true e h = cc
refuse_if-eq-ok false e h = refl
