-- ===== src/Auth/Rotation.antt =====
-- Rotate and Revoke of ms-auth/internal/usecase/token_service.go, cut at their database calls, so
-- that two calls can be interleaved.
pub mod Minted
pub mod Outcome
pub mod World
pub mod Families
pub mod Sound
pub mod Renewal
pub mod Dead
pub mod Reuse
pub mod Redeem
pub mod Race
use controlitix.Common.{
  ℕ, ◌+◌, String, Bool, true, false, not, ◌||◌, ◌&&◌, List, [], ◌∷◌, ◌++◌, Option, none, some, ltb,
  same, is_some, is_empty, if◌then◌else◌, string_key, nat_key,
}
use controlitix.Common.Result.{Result, ok, err, ◌>>=◌, refuse_if, ◌>>◌}
use controlitix.Auth.Types.{
  User, IdentitySource, AccessClaims, IssuedTokens, RefreshRecord, TokenMeta, TokenConfig,
  AuthError, Directory, seconds,
}
use controlitix.Auth.Sessions.{NewRecord, create, find_by_hash, mark_used, revoke_family}
use controlitix.Auth.Tokens.{
  Codec, Chance, Outage, Found, get_by_id, look_up, mint, hash_opaque_refresh_token,
}

-- The three results of Rotate; a refusal may name the user for the audit log.
pub data Rotated : Type 0 where
  rotated : IssuedTokens → User → Rotated
  refused : AuthError → Option User → Rotated

-- On reuse the family is revoked, and the user loaded if there is one.
unfoldable pub name_user : Result AuthError User → Rotated
name_user (ok user) = refused AuthError.refresh_reused (some user)
name_user (err AuthError.user_not_found) = refused AuthError.refresh_reused none
name_user (err e) = refused e none

unfoldable pub reuse :
    Outage → Directory → List RefreshRecord → ℕ → RefreshRecord → List RefreshRecord × Rotated
unfolding name_user get_by_id revoke_family
reuse o d rows now r = if o.revoke_fails then (rows, refused AuthError.internal none) else (
  revoke_family rows r.family_id now "reuse_detected",
  name_user (get_by_id o.user_fails d r.user_id),
)

module _ (c : Codec) (cfg : TokenConfig) where
  -- What is left of Rotate once the new pair is made, or is not.
  abbrev pub tell_minted :
      List RefreshRecord
      → User
      → Result AuthError (List RefreshRecord × IssuedTokens)
      → List RefreshRecord × Rotated
  tell_minted rows user (err e) = (rows, refused e none)
  tell_minted rows user (ok (stored, tokens)) = (stored, rotated tokens user)

  -- Rotate once the record is marked as used and the lookups are done.
  unfoldable pub renew :
      Outage
      → Chance
      → List RefreshRecord
      → ℕ
      → TokenMeta
      → RefreshRecord
      → Result AuthError Found
      → List RefreshRecord × Rotated
  unfolding mint revoke_family
  renew o ch rows now meta r (err e) = (rows, refused e none)
  renew o ch rows now meta r (ok f) =
      if f.user.is_active
      then tell_minted rows f.user (mint c cfg o ch rows now meta f r.family_id (some r.id))
      else if o.revoke_fails
      then (rows, refused AuthError.internal none)
      else (
        revoke_family rows r.family_id now "user_disabled",
        refused AuthError.user_disabled (some f.user),
      )

  -- Rotate with the record that FindByHash returned; the rows are those of the later calls.
  unfoldable pub rotate_found :
      Outage
      → Chance
      → Directory
      → List RefreshRecord
      → ℕ
      → TokenMeta
      → Option RefreshRecord
      → List RefreshRecord × Rotated
  unfolding reuse renew look_up mark_used
  rotate_found o ch d rows now meta none = (rows, refused AuthError.invalid_refresh none)
  rotate_found o ch d rows now meta (some r) =
      if is_some r.revoked_at || not (ltb now r.expires_at)
      then (rows, refused AuthError.invalid_refresh none)
      else if is_some r.used_at
      then reuse o d rows now r
      else if o.mark_fails
      then (rows, refused AuthError.internal none)
      else renew o ch (mark_used rows r.id now) now meta r (look_up o d r.user_id)

  unfoldable pub rotate_hashed :
      Outage
      → Chance
      → Directory
      → List RefreshRecord
      → ℕ
      → TokenMeta
      → Result AuthError String
      → List RefreshRecord × Rotated
  unfolding rotate_found find_by_hash
  rotate_hashed o ch d rows now meta (err e) = (rows, refused AuthError.invalid_refresh none)
  rotate_hashed o ch d rows now meta (ok hash) =
      if o.find_fails
      then (rows, refused AuthError.internal none)
      else rotate_found o ch d rows now meta (find_by_hash rows hash)

  unfoldable pub rotate :
      Outage
      → Chance
      → Directory
      → List RefreshRecord
      → ℕ
      → TokenMeta
      → String
      → List RefreshRecord × Rotated
  unfolding rotate_hashed hash_opaque_refresh_token
  rotate o ch d rows now meta token =
      rotate_hashed o ch d rows now meta (hash_opaque_refresh_token c cfg token)

  -- Revoke with the record that FindByHash returned.
  unfoldable pub revoke_found :
      Bool
      → List RefreshRecord
      → ℕ
      → String
      → Option RefreshRecord
      → List RefreshRecord × Result AuthError (Unit {0})
  unfolding revoke_family
  revoke_found fails rows now reason none = (rows, ok tt)
  revoke_found fails rows now reason (some r) = if fails then (rows, err AuthError.internal) else (
    revoke_family rows r.family_id now
        (if same (c.trim reason) "" then "logout" else c.trim reason),
    ok tt,
  )

  unfoldable pub revoke_hashed :
      Outage
      → List RefreshRecord
      → ℕ
      → String
      → Result AuthError String
      → List RefreshRecord × Result AuthError (Unit {0})
  unfolding revoke_found find_by_hash
  revoke_hashed o rows now reason (err e) = (rows, ok tt)
  revoke_hashed o rows now reason (ok hash) =
      if o.find_fails
      then (rows, err AuthError.internal)
      else revoke_found o.revoke_fails rows now reason (find_by_hash rows hash)

  unfoldable pub revoke :
      Outage
      → List RefreshRecord
      → ℕ
      → String
      → String
      → List RefreshRecord × Result AuthError (Unit {0})
  unfolding revoke_hashed hash_opaque_refresh_token
  revoke o rows now token reason =
      revoke_hashed o rows now reason (hash_opaque_refresh_token c cfg token)
