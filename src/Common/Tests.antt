-- ===== src/Common/Tests.antt =====
-- Boolean tests on native numbers and texts, the conditional, and case splits that keep an equation.
use Prim.Native.Nat.{ℕ, ◌≤◌, ◌<◌, compare, Ordering}
use Prim.Native.String.{String}
use mathlib.Core.Path.{◌≡◌, refl}
use mathlib.Core.Logic.{ite, ◌⊎◌, inl, inr}
use mathlib.Core.Bool.{Bool, true, false}
use mathlib.Core.Option.{Option, none, some}
use native.Mathlib.Omega.{arith}
use native.Mathlib.Decide.{ℕ_discrete}
use text.Mathlib.Text.{◌==◌ as text_eq}
use text.Mathlib.TextEquality.{eq_iff}

abbrev pub ltb : ℕ → ℕ → Bool
ltb a b = elim (compare a b) [ Ordering.lt ↦ true | _ ↦ false ]

abbrev pub leb : ℕ → ℕ → Bool
leb a b = elim (compare a b) [ Ordering.gt ↦ false | _ ↦ true ]

infix 50 ◌==◌
abbrev pub ◌==◌ : ℕ → ℕ → Bool
a == b = elim (compare a b) [ Ordering.eq ↦ true | _ ↦ false ]

infix 1 if◌then◌else◌
abbrev pub if◌then◌else◌ {ℓ} : {A : Type ℓ} → Bool → A → A → A
if true then x else y = x
if false then x else y = y

pub ltb→lt : (a b : ℕ) → ltb a b ≡ true → a < b
ltb→lt a b h = ground arith

pub lt→ltb : (a b : ℕ) → a < b → ltb a b ≡ true
lt→ltb a b h = ground arith

pub ltb→le : (a b : ℕ) → ltb a b ≡ false → b ≤ a
ltb→le a b h = ground arith

pub le→ltb : (a b : ℕ) → b ≤ a → ltb a b ≡ false
le→ltb a b h = ground arith

pub leb-false : (a b : ℕ) → leb a b ≡ false → b < a
leb-false a b h = ground arith

pub leb→le : (a b : ℕ) → leb a b ≡ true → a ≤ b
leb→le a b h = ground arith

pub Bool-cases : (b : Bool) → (b ≡ true) ⊎ (b ≡ false)
Bool-cases true = inl refl
Bool-cases false = inr refl

pub if_elim {ℓ κ} :
    {A : Type ℓ} (P : A → Type κ) (b : Bool) {x y : A}
    → (b ≡ true → P x)
    → (b ≡ false → P y)
    → P (if b then x else y)
if_elim P true f g = f refl
if_elim P false f g = g refl

pub Option-cases {ℓ} : {A : Type ℓ} (o : Option A) → (o ≡ none) ⊎ ((a : A) × (o ≡ some a))
Option-cases none = inl refl
Option-cases (some a) = inr (a, refl)

abbrev pub is_some {ℓ} : {A : Type ℓ} → Option A → Bool
is_some none = false
is_some (some a) = true

-- Equality of texts as a decision, so that a branch hands over the equation.
decide_text : (a b : String) (t : Bool) → text_eq a b ≡ t → Dec (a ≡ b)
decide_text a b true e = yes ((eq_iff a b).0 e)
decide_text a b false e = no (λ p. text_differs ((eq_iff a b).1 p))
  where
    text_differs : text_eq a b ≡ true → ⊥
    text_differs q = cc

unfoldable pub String_discrete : Discrete String
unfolding decide_text
String_discrete a b = decide_text a b (text_eq a b) refl

-- Two literals differ: `text_differ "a" "b" refl`.
pub text_differ : (a b : String) → text_eq a b ≡ false → ¬ (a ≡ b)
text_differ a b h e = let q : text_eq a b ≡ true = (eq_iff a b).1 e in cc

-- The keys of the program's maps: identifiers and texts, compared by equality alone.
pub record Key (K : Type 0) : Type 0 where
  pub eq? : (a b : K) → Dec (a ≡ b)

instance abbrev pub string_key : Key String
string_key = record { eq? = String_discrete }

instance abbrev pub nat_key : Key ℕ
nat_key = record { eq? = ℕ_discrete }

abbrev pub same : {K : Type 0} ⦃k : Key K⦄ → K → K → Bool
same ⦃k⦄ a b = elim (k.eq? a b) [ yes _ ↦ true | no _ ↦ false ]

pub ite_cases {ℓ κ λ'} :
    {A : Type ℓ} {C : Type λ'} (P : A → Type κ) (d : Dec C) {x y : A}
    → P x
    → (¬ C → P y)
    → P (ite d x y)
ite_cases P (yes c) p q = p
ite_cases P (no n) p q = q n
