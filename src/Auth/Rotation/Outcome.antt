-- ===== src/Auth/Rotation/Outcome.antt =====
-- Everything that Rotate of ms-auth/internal/usecase/token_service.go can do to the sessions.
use controlitix.Common.{
  ℕ, String, true, false, not, ◌||◌, List, Option, none, some, ltb, is_some, if◌then◌else◌, if_elim,
  Option-cases, ◌≡◌, refl, subst, ap, arith, ◌<◌, In, ◌⊎◌, inl, inr, string_key, ◌∙◌, lt→ltb, [],
  ◌∷◌,
}
use controlitix.Common.Result.{Result, ok, err, Result-cases}
use controlitix.Auth.Types.{
  User, IssuedTokens, RefreshRecord, TokenMeta, TokenConfig, AuthError, Directory,
}
use controlitix.Auth.Sessions.{find_by_hash, mark_used, revoke_family}
use controlitix.Auth.Tokens.{
  Codec, Chance, Outage, Found, get_by_id, look_up, mint, hash_opaque_refresh_token,
}
use controlitix.Auth.Rotation.{
  Rotated, rotated, refused, renew, tell_minted, reuse, name_user, rotate_found, rotate_hashed,
  rotate,
}
use controlitix.Auth.Rotation.Minted.{IsMinted, mint-IsMinted}

pub record IsLive (r : RefreshRecord) : Type 0 where
  pub unused : r.used_at ≡ none
  pub unrevoked : r.revoked_at ≡ none

is_some-none : {A : Type 0} (o : Option A) → is_some o ≡ false → o ≡ none
is_some-none none h = refl
is_some-none (some a) h = cc

pub find_by_hash-In :
    (rows : List RefreshRecord) (hash : String) {r : RefreshRecord}
    → find_by_hash rows hash ≡ some r
    → In r rows × (r.token_hash ≡ hash)
unfolding find_by_hash
find_by_hash-In [] hash h = cc
find_by_hash-In (q ∷ rows) hash {r} h = elim (string_key.eq? q.token_hash hash) [
  | yes e ↦
      let same_row : q ≡ r = ground arith in
      (inl same_row, subst (λ s. s.token_hash ≡ hash) same_row e)
  | no n ↦ let (m, e) = find_by_hash-In rows hash {r = r} (ground arith) in (inr m, e)
]

module _ (c : Codec) (cfg : TokenConfig) (o : Outage) (ch : Chance) (d : Directory) (now : ℕ)
    (meta : TokenMeta) where
  -- The record that Rotate read is `r`.
  pub data Outcome (rows : List RefreshRecord) (r : RefreshRecord)
      : List RefreshRecord × Rotated → Type 0 where
    unchanged : (e : AuthError) (u : Option User) → Outcome rows r (rows, refused e u)
    caught :
        (e : AuthError) (u : Option User)
        → Outcome rows r (revoke_family rows r.family_id now "reuse_detected", refused e u)
    marked :
        (e : AuthError) (u : Option User)
        → IsLive r
        → Outcome rows r (mark_used rows r.id now, refused e u)
    disabled :
        (u : Option User)
        → IsLive r
        → Outcome rows r (
          revoke_family (mark_used rows r.id now) r.family_id now "user_disabled",
          refused AuthError.user_disabled u,
        )
    renewed :
        (f : Found) (stored : List RefreshRecord) (tokens : IssuedTokens)
        → IsLive r
        → now < r.expires_at
        → look_up o d r.user_id ≡ ok f
        → f.user.is_active ≡ true
        → IsMinted c cfg ch
            (mark_used rows r.id now)
            now
            meta
            f
            r.family_id
            (some r.id)
            stored
            tokens
        → Outcome rows r (stored, rotated tokens f.user)

  name_user-refused :
      (m : Result AuthError User)
      → (e : AuthError) × (u : Option User) × (name_user m ≡ refused e u)
  unfolding name_user
  name_user-refused (ok user) = (AuthError.refresh_reused, some user, refl)
  name_user-refused (err AuthError.user_not_found) = (AuthError.refresh_reused, none, refl)
  name_user-refused (err e) = (e, none, refl)

  reuse-Outcome :
      (rows : List RefreshRecord) (r : RefreshRecord) → Outcome rows r (reuse o d rows now r)
  unfolding reuse
  reuse-Outcome rows r =
      if_elim (λ x. Outcome rows r x) o.revoke_fails (λ _. unchanged AuthError.internal none)
        (λ _.
          let (e, u, q) = name_user-refused (get_by_id o.user_fails d r.user_id) in
          rw q (caught e u))

  minted-Outcome :
      (rows : List RefreshRecord) (r : RefreshRecord) (f : Found)
      → IsLive r
      → now < r.expires_at
      → look_up o d r.user_id ≡ ok f
      → f.user.is_active ≡ true
      → Outcome rows r (
          tell_minted c cfg
            (mark_used rows r.id now)
            f.user
            (mint c cfg o ch (mark_used rows r.id now) now meta f r.family_id (some r.id)))
  minted-Outcome rows r f live early found active =
      elim (Result-cases
        (mint c cfg o ch (mark_used rows r.id now) now meta f r.family_id (some r.id))) [
          | inl (e, q) ↦ rw q (marked e none live)
          | inr ((stored, tokens), q) ↦ rw q (
              renewed f stored tokens live early found active (
                mint-IsMinted c cfg o ch (mark_used rows r.id now) now meta f r.family_id
                  (some r.id) q))
        ]

  renew-Outcome :
      (rows : List RefreshRecord) (r : RefreshRecord) (m : Result AuthError Found)
      → IsLive r
      → now < r.expires_at
      → look_up o d r.user_id ≡ m
      → Outcome rows r (renew c cfg o ch (mark_used rows r.id now) now meta r m)
  unfolding renew
  renew-Outcome rows r (err e) live early found = marked e none live
  renew-Outcome rows r (ok f) live early found =
      if_elim (λ x. Outcome rows r x) f.user.is_active (minted-Outcome rows r f live early found)
        (λ _.
          if_elim (λ x. Outcome rows r x) o.revoke_fails (λ _. marked AuthError.internal none live)
            (λ _. disabled (some f.user) live))

  pub rotate_found-Outcome :
      (rows : List RefreshRecord) (r : RefreshRecord)
      → Outcome rows r (rotate_found c cfg o ch d rows now meta (some r))
  unfolding rotate_found
  rotate_found-Outcome rows r =
      if_elim (λ x. Outcome rows r x) (is_some r.revoked_at || not (ltb now r.expires_at))
        (λ _. unchanged AuthError.invalid_refresh none)
        (λ open_.
          if_elim (λ x. Outcome rows r x) (is_some r.used_at) (λ _. reuse-Outcome rows r)
            (λ unused.
              if_elim (λ x. Outcome rows r x) o.mark_fails (λ _. unchanged AuthError.internal none)
                (λ _.
                  renew-Outcome rows r (look_up o d r.user_id)
                    (record {
                      unused = is_some-none r.used_at unused;
                      unrevoked = is_some-none r.revoked_at (ground arith);
                    })
                    (ground arith) refl)))

  -- Rotate with a token: nothing happens, or the outcome is that of the record found by its hash.
  abbrev pub IsCase :
      List RefreshRecord → Result AuthError String → List RefreshRecord × Rotated → Type 0
  IsCase rows hashed out =
      ((e : AuthError) × (out ≡ (rows, refused e none)))
      ⊎ ((hash : String) × (r : RefreshRecord) × (hashed ≡ ok hash)
          × (find_by_hash rows hash ≡ some r)
          × Outcome rows r out)

  hashed-IsCase :
      (rows : List RefreshRecord) (m : Result AuthError String)
      → IsCase rows m (rotate_hashed c cfg o ch d rows now meta m)
  unfolding rotate_hashed rotate_found
  hashed-IsCase rows (err e) = inl (AuthError.invalid_refresh, refl)
  hashed-IsCase rows (ok hash) =
      if_elim (λ x. IsCase rows (ok hash) x) o.find_fails (λ _. inl (AuthError.internal, refl))
        (λ _. elim (Option-cases (find_by_hash rows hash)) [
          | inl e ↦ rw e (inl (AuthError.invalid_refresh, refl))
          | inr (r, e) ↦ rw e (inr (hash, r, refl, e, rotate_found-Outcome rows r))
        ])

  pub rotate-IsCase :
      (rows : List RefreshRecord) (token : String)
      → IsCase rows
          (hash_opaque_refresh_token c cfg token)
          (rotate c cfg o ch d rows now meta token)
  unfolding rotate
  rotate-IsCase rows token = hashed-IsCase rows (hash_opaque_refresh_token c cfg token)

  -- Rotate is `rotate_found` of the record that its token stands for.
  pub rotate-is_found :
      (rows : List RefreshRecord) (token hash : String) (r : RefreshRecord)
      → o.find_fails ≡ false
      → hash_opaque_refresh_token c cfg token ≡ ok hash
      → find_by_hash rows hash ≡ some r
      → rotate c cfg o ch d rows now meta token ≡ rotate_found c cfg o ch d rows now meta (some r)
  unfolding rotate rotate_hashed
  rotate-is_found rows token hash r works hashed found =
      ap (λ m. rotate_hashed c cfg o ch d rows now meta m) hashed
      ∙ ap
          (λ b.
            if b
            then (rows, refused AuthError.internal none)
            else rotate_found c cfg o ch d rows now meta (find_by_hash rows hash))
          works
      ∙ ap (λ q. rotate_found c cfg o ch d rows now meta q) found

  -- A revoked record is refused, and nothing changes.
  pub rotate_found-revoked :
      (rows : List RefreshRecord) (r : RefreshRecord)
      → is_some r.revoked_at ≡ true
      → rotate_found c cfg o ch d rows now meta (some r)
        ≡ (rows, refused AuthError.invalid_refresh none)
  unfolding rotate_found
  rotate_found-revoked rows r gone = rw gone refl

  -- A record that was used before is not redeemed: its family is revoked.
  pub rotate_found-used :
      (rows : List RefreshRecord) (r : RefreshRecord)
      → is_some r.used_at ≡ true
      → r.revoked_at ≡ none
      → now < r.expires_at
      → rotate_found c cfg o ch d rows now meta (some r) ≡ reuse o d rows now r
  unfolding rotate_found
  rotate_found-used rows r used open_ early =
      rw open_ (rw (lt→ltb now r.expires_at early) (rw used refl))
