-- ===== src/Common/Map.antt =====
-- Go maps as association lists. A `range` loop visits the entries in the order of the list, which
-- stands for Go's arbitrary order.
use mathlib.Core.Path.{subst₂}
use controlitix.Common.{
  ◌≡◌, refl, sym, ◌≢◌, ite, if_pos, if_neg, Option, none, some, List, [], ◌∷◌, arith, Key, Bool,
  false, Bool-cases, if◌then◌else◌, subst, inl, inr, In,
}

abbrev pub Map : Type 0 → Type 0 → Type 0
Map K V = List (K × V)

module _ {K V : Type 0} ⦃k : Key K⦄ where
  unfoldable pub get : Map K V → K → Option V
  get [] a = none
  get ((b, v) ∷ m) a = ite (k.eq? b a) (some v) (get m a)

  -- delete(m, a)
  unfoldable pub delete : Map K V → K → Map K V
  delete [] a = []
  delete ((b, v) ∷ m) a = let rest = delete m a in ite (k.eq? b a) rest ((b, v) ∷ rest)

  -- m[a] = v
  unfoldable pub put : Map K V → K → V → Map K V
  unfolding delete
  put m a v = (a, v) ∷ delete m a

  pub get-delete : (m : Map K V) (a b : K) → get (delete m a) b ≡ ite (k.eq? a b) none (get m b)
  unfolding get delete
  get-delete [] a b = ground arith
  get-delete ((c, v) ∷ m) a b = ground (arith, get-delete m a b)

  pub get-put :
      (m : Map K V) (a b : K) (v : V) → get (put m a v) b ≡ ite (k.eq? a b) (some v) (get m b)
  unfolding get put
  get-put m a b v = ground (arith, get-delete m a b)

  pub get-put_self : (m : Map K V) (a : K) (v : V) → get (put m a v) a ≡ some v
  get-put_self m a v = ground (arith, get-put m a a v)

  pub get-delete_self : (m : Map K V) (a : K) → get (delete m a) a ≡ none
  get-delete_self m a = ground (arith, get-delete m a a)

  -- A predicate on all entries.
  abbrev pub Each : (K → V → Type 0) → Map K V → Type 0
  Each P [] = Unit
  Each P ((a, v) ∷ m) = P a v × Each P m

  pub Each-mono :
      (P Q : K → V → Type 0)
      → ((a : K) (v : V) → P a v → Q a v)
      → (m : Map K V) → Each P m
      → Each Q m
  Each-mono P Q f [] h = tt
  Each-mono P Q f ((a, v) ∷ m) h = (f a v h.0, Each-mono P Q f m h.1)

  pub Each-delete :
      (P : K → V → Type 0) (m : Map K V) (a : K)
      → Each P m
      → Each (λ b v. (a ≢ b) × P b v) (delete m a)
  unfolding delete
  Each-delete P [] a h = tt
  Each-delete P ((b, v) ∷ m) a h = elim (k.eq? b a) [
    | yes e ↦ rw (if_pos _ e) (Each-delete P m a h.1)
    | no n ↦ rw (if_neg _ n) ((λ e. n (sym e), h.0), Each-delete P m a h.1)
  ]

  pub Each-put :
      (P : K → V → Type 0) (m : Map K V) (a : K) (v : V)
      → P a v
      → Each (λ b w. a ≢ b → P b w) m
      → Each P (put m a v)
  unfolding put
  Each-put P m a v new old =
      (new, Each-mono _ P (λ b w h. h.1 h.0) (delete m a) (Each-delete _ m a old))

  pub Each-get :
      (P : K → V → Type 0) (m : Map K V) (a : K) {v : V} → Each P m → get m a ≡ some v → P a v
  unfolding get
  Each-get P [] a h e = cc
  Each-get P ((b, w) ∷ m) a {v} h e = elim (k.eq? b a) [
    | yes p ↦ let q : w ≡ v = ground arith in subst₂ P p q h.0
    | no n ↦ Each-get P m a h.1 (ground arith)
  ]

  pub Each-In : (P : K → V → Type 0) (m : Map K V) (e : K × V) → Each P m → In e m → P e.0 e.1
  Each-In P [] e h i = elim i [ ]
  Each-In P ((a, v) ∷ m) e h (inl q) = subst (λ x. P x.0 x.1) q h.0
  Each-In P ((a, v) ∷ m) e h (inr i) = Each-In P m e h.1 i

  -- No key twice, as in every Go map.
  abbrev pub IsDistinct : Map K V → Type 0
  IsDistinct [] = Unit
  IsDistinct ((a, v) ∷ m) = Each (λ b _. a ≢ b) m × IsDistinct m

  pub delete-IsDistinct : (m : Map K V) (a : K) → IsDistinct m → IsDistinct (delete m a)
  unfolding delete
  delete-IsDistinct [] a h = tt
  delete-IsDistinct ((b, v) ∷ m) a h = elim (k.eq? b a) [
    | yes e ↦ rw (if_pos _ e) (delete-IsDistinct m a h.1)
    | no n ↦ rw (if_neg _ n) (
      Each-mono _ (λ c _. b ≢ c) (λ c w d. d.1) (delete m a) (Each-delete (λ c _. b ≢ c) m a h.0),
      delete-IsDistinct m a h.1,
    )
  ]

  pub Each-always : (P : K → V → Type 0) → ((a : K) (v : V) → P a v) → (m : Map K V) → Each P m
  Each-always P f [] = tt
  Each-always P f ((a, v) ∷ m) = (f a v, Each-always P f m)

  pub Each-zip :
      (P Q : K → V → Type 0) (m : Map K V) → Each P m → Each Q m → Each (λ a v. P a v × Q a v) m
  Each-zip P Q [] h i = tt
  Each-zip P Q ((a, v) ∷ m) h i = ((h.0, i.0), Each-zip P Q m h.1 i.1)

  pub put-IsDistinct : (m : Map K V) (a : K) (v : V) → IsDistinct m → IsDistinct (put m a v)
  unfolding put
  put-IsDistinct m a v h = (
    Each-mono _ (λ c _. a ≢ c) (λ c w d. d.0) (delete m a)
        (Each-delete (λ _ _. Unit {0}) m a (Each-always _ (λ _ _. tt) m)),
    delete-IsDistinct m a h,
  )

  -- In a map without repeated keys each entry is what a lookup of its key finds.
  pub Each-found : (m : Map K V) → IsDistinct m → Each (λ a v. get m a ≡ some v) m
  unfolding get
  Each-found [] h = tt
  Each-found ((a, v) ∷ m) h = (
    ground arith,
    Each-mono (λ b w. (a ≢ b) × (get m b ≡ some w)) _ (λ b w d. rw (if_neg _ d.0) d.1) m
        (Each-zip (λ b w. a ≢ b) (λ b w. get m b ≡ some w) m h.0 (Each-found m h.1)),
  )

  pub Each-of_get :
      (P : K → V → Type 0) (m : Map K V)
      → IsDistinct m
      → ((a : K) (v : V) → get m a ≡ some v → P a v)
      → Each P m
  Each-of_get P m d f = Each-mono (λ a v. get m a ≡ some v) P f m (Each-found m d)

  -- for a, v := range m { if p(a, v) { delete(m, a) } }
  unfoldable pub delete_where : (K → V → Bool) → Map K V → Map K V
  delete_where p [] = []
  delete_where p ((a, v) ∷ m) = let rest = delete_where p m in if p a v then rest else (a, v) ∷ rest

  pub Each-delete_where :
      (P : K → V → Type 0) (p : K → V → Bool) (m : Map K V)
      → Each P m
      → Each (λ a v. (p a v ≡ false) × P a v) (delete_where p m)
  unfolding delete_where
  Each-delete_where P p [] h = tt
  Each-delete_where P p ((a, v) ∷ m) h = elim (Bool-cases (p a v)) [
    | inl e ↦ rw e (Each-delete_where P p m h.1)
    | inr e ↦ rw e ((e, h.0), Each-delete_where P p m h.1)
  ]

  -- What a lookup finds after `delete_where`.
  abbrev pub kept : (K → V → Bool) → K → Option V → Option V
  kept p a none = none
  kept p a (some v) = if p a v then none else some v

  pub get-fresh : (m : Map K V) (a : K) → Each (λ b _. a ≢ b) m → get m a ≡ none
  unfolding get
  get-fresh [] a h = refl
  get-fresh ((b, v) ∷ m) a h = rw (if_neg _ (λ e. h.0 (sym e))) (get-fresh m a h.1)

  pub get-delete_where :
      (p : K → V → Bool) (m : Map K V) (a : K)
      → IsDistinct m
      → get (delete_where p m) a ≡ kept p a (get m a)
  unfolding get delete_where
  get-delete_where p [] a h = refl
  get-delete_where p ((b, v) ∷ m) a h = elim (k.eq? b a) [
    | yes e ↦
        subst (λ c. get (delete_where p ((b, v) ∷ m)) c ≡ kept p c (get ((b, v) ∷ m) c)) e
          (ground (arith, get-fresh m b h.0, get-delete_where p m b h.1))
    | no n ↦ ground (arith, get-delete_where p m a h.1)
  ]

  pub delete_where-IsDistinct :
      (p : K → V → Bool) (m : Map K V) → IsDistinct m → IsDistinct (delete_where p m)
  unfolding delete_where
  delete_where-IsDistinct p [] h = tt
  delete_where-IsDistinct p ((a, v) ∷ m) h = elim (Bool-cases (p a v)) [
    | inl e ↦ rw e (delete_where-IsDistinct p m h.1)
    | inr e ↦ rw e (
      Each-mono _ (λ b _. a ≢ b) (λ b w d. d.1) (delete_where p m)
          (Each-delete_where (λ b _. a ≢ b) p m h.0),
      delete_where-IsDistinct p m h.1,
    )
  ]
