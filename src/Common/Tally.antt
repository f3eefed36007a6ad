-- ===== src/Common/Tally.antt =====
-- How many items of a list pass a test: COUNT(*) ... WHERE.
use controlitix.Common.{
  ℕ, suc, ◌+◌, ◌≤◌, ◌≡◌, Bool, true, false, List, [], ◌∷◌, ◌++◌, map, if◌then◌else◌, In, inl, inr,
  refl, arith, All, Bool-cases, if_elim, ◌≢◌,
}

-- The items that pass the test, in their order.
unfoldable pub keep_where {ℓ} : {A : Type ℓ} → (A → Bool) → List A → List A
keep_where p [] = []
keep_where p (x ∷ xs) = let rest = keep_where p xs in if p x then x ∷ rest else rest

unfoldable pub tally {ℓ} : {A : Type ℓ} → (A → Bool) → List A → ℕ
tally p [] = 0
tally p (x ∷ xs) = (if p x then 1 else 0) + tally p xs

module _ {A : Type 0} (p : A → Bool) where
  pub tally-append : (xs ys : List A) → tally p (xs ++ ys) ≡ tally p xs + tally p ys
  unfolding tally
  tally-append [] ys = omega arith
  tally-append (x ∷ xs) ys = omega (arith, tally-append xs ys)

  -- A change after which nothing passes that did not pass before.
  pub tally-map :
      (g : A → A)
      → ((x : A) → p (g x) ≡ true → p x ≡ true)
      → (xs : List A) → tally p (map g xs) ≤ tally p xs
  unfolding tally
  tally-map g h [] = omega arith
  tally-map g h (x ∷ xs) = elim (Bool-cases (p (g x))) [
    | inl e ↦ rw e (rw (h x e) (omega (arith, tally-map g h xs)))
    | inr e ↦ rw e (omega (arith, tally-map g h xs))
  ]

  -- It takes away what passed and no longer does.
  pub tally-map_less :
      (g : A → A)
      → ((x : A) → p (g x) ≡ true → p x ≡ true)
      → (xs : List A) (a : A) → In a xs
      → p a ≡ true
      → p (g a) ≡ false
      → suc (tally p (map g xs)) ≤ tally p xs
  unfolding tally
  tally-map_less g h [] a m e f = elim m [ ]
  tally-map_less g h (x ∷ xs) a (inl q) e f =
      let e' : p x ≡ true = rw q e in
      let f' : p (g x) ≡ false = rw q f in rw e' (rw f' (omega (arith, tally-map g h xs)))
  tally-map_less g h (x ∷ xs) a (inr m) e f =
      let rest = tally-map_less g h xs a m e f in
      elim (Bool-cases (p (g x))) [
        | inl e' ↦ rw e' (rw (h x e') (omega (arith, rest)))
        | inr e' ↦ rw e' (omega (arith, rest))
      ]

  pub tally-keep_where : (q : A → Bool) (xs : List A) → tally p (keep_where q xs) ≤ tally p xs
  unfolding tally keep_where
  tally-keep_where q [] = omega arith
  tally-keep_where q (x ∷ xs) = elim (Bool-cases (q x)) [
    | inl e ↦ rw e (omega (arith, tally-keep_where q xs))
    | inr e ↦ rw e (omega (arith, tally-keep_where q xs))
  ]

  pub tally-none : (xs : List A) → All (λ x. p x ≡ false) xs → tally p xs ≡ 0
  unfolding tally
  tally-none [] h = refl
  tally-none (x ∷ xs) h = rw h.0 (omega (arith, tally-none xs h.1))

  pub tally-In : (xs : List A) (a : A) → In a xs → p a ≡ true → 1 ≤ tally p xs
  unfolding tally
  tally-In [] a m e = elim m [ ]
  tally-In (x ∷ xs) a (inl q) e = let e' : p x ≡ true = rw q e in rw e' (omega arith)
  tally-In (x ∷ xs) a (inr m) e = omega (arith, tally-In xs a m e)

  pub All-keep_where : (P : A → Type 0) (xs : List A) → All P xs → All P (keep_where p xs)
  unfolding keep_where
  All-keep_where P [] h = tt
  All-keep_where P (x ∷ xs) h =
      if_elim (λ ys. All P ys) (p x) (λ _. (h.0, All-keep_where P xs h.1))
        (λ _. All-keep_where P xs h.1)

  pub tally-found : (xs : List A) → tally p xs ≢ 0 → (x : A) × In x xs × (p x ≡ true)
  unfolding tally
  tally-found [] h = absurd (h refl)
  tally-found (x ∷ xs) h = elim (Bool-cases (p x)) [
    | inl e ↦ (x, inl refl, e)
    | inr e ↦ let (y, m, q) = tally-found xs (λ z. h (ground arith)) in (y, inr m, q)
  ]
