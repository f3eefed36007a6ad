-- ===== src/Auth/Names/Scopes.antt =====
-- What resolveGrantedScopes of ms-auth/internal/usecase/service_token_service.go grants, and
-- normalizeList and containsRole of its neighbours.
use controlitix.Common.{
  String, true, false, ◌||◌, List, [], ◌∷◌, ◌++◌, if◌then◌else◌, same, is_empty, ◌≡◌, ◌≢◌, refl,
  sym, In, In-append, All, inl, inr, string_key, arith, Bool-cases, if_elim, All-of_In,
}
use controlitix.Common.Result.{Result, ok, err}
use controlitix.Auth.Types.{AuthError}
use controlitix.Auth.Names.{
  contains_role, add_name, add_names, normalize_list, check_scopes, grant, resolve_granted_scopes,
}

pub contains_role-In : (xs : List String) (x : String) → contains_role xs x ≡ true → In x xs
unfolding contains_role
contains_role-In [] x h = cc
contains_role-In (y ∷ xs) x h = elim (string_key.eq? y x) [
  | yes e ↦ inl e
  | no n ↦ inr (contains_role-In xs x (ground arith))
]

pub contains_role-not_In : (xs : List String) (x : String) → contains_role xs x ≡ false → ¬ In x xs
unfolding contains_role
contains_role-not_In [] x h m = elim m [ ]
contains_role-not_In (y ∷ xs) x h (inl e) = absurd (ground arith)
contains_role-not_In (y ∷ xs) x h (inr m) = contains_role-not_In xs x (ground arith) m

-- No name twice, and none empty.
abbrev pub IsNames : List String → Type 0
IsNames [] = Unit
IsNames (x ∷ xs) = (x ≢ "") × (¬ In x xs) × IsNames xs

IsNames-append :
    (xs : List String) (x : String) → IsNames xs → x ≢ "" → (¬ In x xs) → IsNames (xs ++ x ∷ [])
IsNames-append [] x h ne new = (ne, (λ m. elim m [ ]), tt)
IsNames-append (y ∷ xs) x h ne new = (
  h.0,
  (λ m. elim (In-append y xs (x ∷ []) m) [
    | inl l ↦ h.1 l
    | inr (inl e) ↦ new (inl (sym e))
    | inr (inr n) ↦ elim n [ ]
  ]),
  IsNames-append xs x h.2 ne (λ m. new (inr m)),
)

add_name-IsNames : (xs : List String) (x : String) → IsNames xs → IsNames (add_name xs x)
unfolding add_name
add_name-IsNames xs x h =
    if_elim IsNames (same x "" || contains_role xs x) (λ _. h)
      (λ e. IsNames-append xs x h (ground arith) (contains_role-not_In xs x (ground arith)))

pub add_names-IsNames :
    (trim : String → String) (xs more : List String) → IsNames xs → IsNames (add_names trim xs more)
unfolding add_names
add_names-IsNames trim xs [] h = h
add_names-IsNames trim xs (x ∷ more) h =
    add_names-IsNames trim (add_name xs (trim x)) more (add_name-IsNames xs (trim x) h)

pub normalize_list-IsNames :
    (trim : String → String) (xs : List String) → IsNames (normalize_list trim xs)
unfolding normalize_list
normalize_list-IsNames trim xs = add_names-IsNames trim [] xs tt

check_scopes-All :
    (allowed xs : List String) → check_scopes allowed xs ≡ true → All (λ x. In x allowed) xs
unfolding check_scopes
check_scopes-All allowed [] h = tt
check_scopes-All allowed (x ∷ xs) h =
    (contains_role-In allowed x (ground arith), check_scopes-All allowed xs (ground arith))

check_scopes-refused :
    (allowed xs : List String)
    → check_scopes allowed xs ≡ false
    → (x : String) × In x xs × (¬ In x allowed)
unfolding check_scopes
check_scopes-refused allowed [] h = cc
check_scopes-refused allowed (x ∷ xs) h = elim (Bool-cases (contains_role allowed x)) [
  | inl e ↦ let (y, m, n) = check_scopes-refused allowed xs (ground arith) in (y, inr m, n)
  | inr e ↦ (x, inl refl, contains_role-not_In allowed x e)
]

-- What the answer to a request says of the normalised lists.
abbrev pub IsGrant : List String → List String → Result AuthError (List String) → Type 0
IsGrant allowed requested (ok granted) =
    IsNames granted
    × All (λ x. In x allowed) granted
    × (granted ≡ (if is_empty requested then allowed else requested))
IsGrant allowed requested (err e) =
    (e ≡ AuthError.invalid_scope) × ((x : String) × In x requested × (¬ In x allowed))

grant-IsGrant :
    (allowed requested : List String)
    → IsNames allowed
    → IsNames requested
    → IsGrant allowed requested (grant allowed requested)
unfolding grant
grant-IsGrant allowed [] ha hr = (ha, All-of_In (λ x. In x allowed) allowed (λ x m. m), refl)
grant-IsGrant allowed (r ∷ rs) ha hr = elim (Bool-cases (check_scopes allowed (r ∷ rs))) [
  | inl e ↦ rw e (hr, check_scopes-All allowed (r ∷ rs) e, refl)
  | inr e ↦ rw e (refl, check_scopes-refused allowed (r ∷ rs) e)
]

-- A request for scopes, compared with the allowed ones after both lists are normalised: it is
-- refused with invalid_scope only for a scope that is not allowed; otherwise the requested scopes
-- are granted, or all allowed ones if none is requested, every one of them allowed, none of them
-- empty or twice.
pub resolve_granted_scopes-IsGrant :
    (trim : String → String) (fields : String → List String) (allowed : List String)
    (requested : String)
    → IsGrant
        (normalize_list trim allowed)
        (normalize_list trim (fields requested))
        (resolve_granted_scopes trim fields allowed requested)
unfolding resolve_granted_scopes
resolve_granted_scopes-IsGrant trim fields allowed requested =
    grant-IsGrant (normalize_list trim allowed) (normalize_list trim (fields requested))
      (normalize_list-IsNames trim allowed) (normalize_list-IsNames trim (fields requested))
