-- ===== src/Auth/Rotation/Reuse.antt =====
-- What follows when a refresh token is presented a second time to
-- ms-auth/internal/usecase/token_service.go.
use controlitix.Common.{
  ℕ, ◌<◌, String, true, false, List, Option, none, some, is_some, if_elim, ◌≡◌, refl, sym, subst,
  ◌∙◌, In, All-In, string_key,
}
use controlitix.Common.Result.{Result, ok, err}
use controlitix.Auth.Types.{User, RefreshRecord, TokenMeta, TokenConfig, AuthError, Directory}
use controlitix.Auth.Sessions.{find_by_hash}
use controlitix.Auth.Tokens.{Codec, Chance, Outage, get_by_id, hash_opaque_refresh_token}
use controlitix.Auth.Rotation.{Rotated, refused, name_user, reuse, rotate}
use controlitix.Auth.Rotation.Outcome.{
  find_by_hash-In, rotate-is_found, rotate_found-revoked, rotate_found-used,
}
use controlitix.Auth.Rotation.World.{World, empty_world, with_rows, Steps}
use controlitix.Auth.Rotation.Sound.{Steps-IsSound}
use controlitix.Auth.Rotation.Dead.{IsDead, revoke_family-revokes, Steps-IsDead}

module _ (c : Codec) (cfg : TokenConfig) where
  name_user-only :
      (m : Result AuthError User)
      → (e : AuthError) × (u : Option User) × (name_user m ≡ refused e u)
  unfolding name_user
  name_user-only (ok user) = (AuthError.refresh_reused, some user, refl)
  name_user-only (err AuthError.user_not_found) = (AuthError.refresh_reused, none, refl)
  name_user-only (err e) = (e, none, refl)

  -- With the revocation stored, a reused token leaves its family dead.
  pub reuse-IsDead :
      (o : Outage) (d : Directory) (w : World) (now : ℕ) (r : RefreshRecord)
      → o.revoke_fails ≡ false
      → In r.family_id w.families
      → IsDead r.family_id (with_rows w (reuse o d w.rows now r).0)
  unfolding reuse
  reuse-IsDead o d w now r works old = rw works (record {
    old = old;
    revoked = revoke_family-revokes r.family_id w.rows now "reuse_detected";
  })

  reuse-refused :
      (o : Outage) (d : Directory) (rows : List RefreshRecord) (now : ℕ) (r : RefreshRecord)
      → (e : AuthError) × (u : Option User) × ((reuse o d rows now r).1 ≡ refused e u)
  unfolding reuse
  reuse-refused o d rows now r =
      if_elim
        (λ (x : List RefreshRecord × Rotated).
          (e : AuthError) × (u : Option User) × (x.1 ≡ refused e u))
        o.revoke_fails (λ _. (AuthError.internal, none, refl))
        (λ _. name_user-only (get_by_id o.user_fails d r.user_id))

  dead-refused :
      (o : Outage) (ch : Chance) (d : Directory) (w : World) (now : ℕ) (meta : TokenMeta)
      (token hash family : String) (r : RefreshRecord)
      → IsDead family w
      → o.find_fails ≡ false
      → hash_opaque_refresh_token c cfg token ≡ ok hash
      → find_by_hash w.rows hash ≡ some r
      → r.family_id ≡ family
      → rotate c cfg o ch d w.rows now meta token ≡ (w.rows, refused AuthError.invalid_refresh none)
  dead-refused o ch d w now meta token hash family r dead works hashed found mine =
      rotate-is_found c cfg o ch d now meta w.rows token hash r works hashed found
      ∙ rotate_found-revoked c cfg o ch d now meta w.rows r
          (All-In _ w.rows r dead.revoked (find_by_hash-In w.rows hash found).0 mine)

  -- A token that was used before, of a record that is neither revoked nor expired, is presented
  -- again in a state that the calls can reach, and the database answers: no tokens are handed out,
  -- and in every later state, whichever calls were made in between, each token of its family is
  -- refused as invalid and changes nothing.
  pub rotate-reused :
      (o : Outage) (ch : Chance) (d : Directory) (w : World) (now : ℕ) (meta : TokenMeta)
      (token hash : String) (r : RefreshRecord) (o' : Outage) (ch' : Chance) (d' : Directory)
      (v : World) (later : ℕ) (meta' : TokenMeta) (other code : String) (q : RefreshRecord)
      → Steps c cfg empty_world w
      → (o.find_fails ≡ false) × (o.revoke_fails ≡ false)
      → hash_opaque_refresh_token c cfg token ≡ ok hash
      → find_by_hash w.rows hash ≡ some r
      → is_some r.used_at ≡ true
      → r.revoked_at ≡ none
      → now < r.expires_at
      → Steps c cfg (with_rows w (rotate c cfg o ch d w.rows now meta token).0) v
      → o'.find_fails ≡ false
      → hash_opaque_refresh_token c cfg other ≡ ok code
      → find_by_hash v.rows code ≡ some q
      → q.family_id ≡ r.family_id
      → ((e : AuthError) × (u : Option User) × ((rotate c cfg o ch d w.rows now meta token).1
            ≡ refused e u))
        × (rotate c cfg o' ch' d' v.rows later meta' other
            ≡ (v.rows, refused AuthError.invalid_refresh none))
  rotate-reused o ch d w now meta token hash r o' ch' d' v later meta' other code q reached works
        hashed found used open_ early run finds coded present mine =
      let caught_is : rotate c cfg o ch d w.rows now meta token ≡ reuse o d w.rows now r =
        rotate-is_found c cfg o ch d now meta w.rows token hash r works.0 hashed found
        ∙ rotate_found-used c cfg o ch d now meta w.rows r used open_ early in
      let old : In r.family_id w.families =
        All-In _ w.rows r (Steps-IsSound c cfg w reached).known
          (find_by_hash-In w.rows hash found).0 in
      let dead : IsDead r.family_id (with_rows w (rotate c cfg o ch d w.rows now meta token).0) =
        subst (λ x. IsDead r.family_id (with_rows w x.0)) (sym caught_is)
          (reuse-IsDead o d w now r works.1 old) in
      (
        subst (λ x. (e : AuthError) × (u : Option User) × (x.1 ≡ refused e u)) (sym caught_is)
            (reuse-refused o d w.rows now r),
        dead-refused o' ch' d' v later meta' other code r.family_id q
            (Steps-IsDead c cfg r.family_id _ v run dead) finds coded present mine,
      )
