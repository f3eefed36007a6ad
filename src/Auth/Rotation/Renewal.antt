-- ===== src/Auth/Rotation/Renewal.antt =====
-- When Rotate of ms-auth/internal/usecase/token_service.go hands out new tokens.
use controlitix.Common.{
  ℕ, ◌<◌, String, Bool, true, false, List, [], ◌∷◌, ◌++◌, some, ◌≡◌, sym, ◌∙◌, ap, inl, inr,
  string_key,
}
use controlitix.Common.Map.{get}
use controlitix.Common.Result.{Result, ok, >>=-eq-ok}
use controlitix.Auth.Types.{
  User, IssuedTokens, RefreshRecord, TokenMeta, TokenConfig, AuthError, Directory,
}
use controlitix.Auth.Sessions.{inserted, find_by_hash, mark_used}
use controlitix.Auth.Tokens.{
  Codec, Chance, Outage, Found, unless_fails, get_by_id, get_roles, get_source_type, look_up,
  hash_opaque_refresh_token, session_row,
}
use controlitix.Auth.Rotation.{Rotated, rotated, rotate}
use controlitix.Auth.Rotation.Minted.{or_error-eq-ok}
use controlitix.Auth.Rotation.Outcome.{
  IsLive, Outcome, unchanged, caught, marked, disabled, renewed, rotate-IsCase,
}

unless_fails-eq-ok :
    {A : Type 0} (fails : Bool) (m : Result AuthError A) {a : A}
    → unless_fails fails m ≡ ok a
    → m ≡ ok a
unless_fails-eq-ok true m h = cc
unless_fails-eq-ok false m h = h

get_by_id-eq-ok :
    (fails : Bool) (d : Directory) (id : String) {user : User}
    → get_by_id fails d id ≡ ok user
    → get d.users id ≡ some user
unfolding get_by_id
get_by_id-eq-ok fails d id h =
    or_error-eq-ok AuthError.user_not_found (get d.users id) (unless_fails-eq-ok fails _ h)

look_up-user :
    (o : Outage) (d : Directory) (id : String) {f : Found}
    → look_up o d id ≡ ok f
    → get d.users id ≡ some f.user
unfolding look_up
look_up-user o d id h =
    let (user, e1, h1) = >>=-eq-ok (get_by_id o.user_fails d id) _ h in
    let (roles, e2, h2) = >>=-eq-ok (get_roles o.roles_fail d user.id) _ h1 in
    let (kind, e3, h3) = >>=-eq-ok (get_source_type o.source_fails d user.source_id) _ h2 in
    get_by_id-eq-ok o.user_fails d id e1 ∙ cc

module _ (c : Codec) (cfg : TokenConfig) where
  -- The redeemed record, and the row that replaces it.
  pub record IsRenewal (ch : Chance) (d : Directory) (rows : List RefreshRecord) (now : ℕ)
      (meta : TokenMeta) (token : String) (stored : List RefreshRecord) (tokens : IssuedTokens)
      (user : User) : Type 0 where
    pub hash : String
    pub redeemed : RefreshRecord
    pub raw : List ℕ
    pub hash_is : hash_opaque_refresh_token c cfg token ≡ ok hash
    pub redeemed_is : find_by_hash rows hash ≡ some redeemed
    pub live : IsLive redeemed
    pub unexpired : now < redeemed.expires_at
    pub user_is : get d.users redeemed.user_id ≡ some user
    pub active : user.is_active ≡ true
    pub refresh_is : tokens.refresh_token ≡ c.encode raw
    pub stored_is :
        stored
        ≡ mark_used rows redeemed.id now
          ++ inserted ch.row_id
              (session_row c cfg user redeemed.family_id (some redeemed.id) (c.digest raw) now meta)
            ∷ []

  Outcome-IsRenewal :
      (o : Outage) (ch : Chance) (d : Directory) (rows : List RefreshRecord) (now : ℕ)
      (meta : TokenMeta) (token hash : String) (r : RefreshRecord)
      (out : List RefreshRecord × Rotated) {stored : List RefreshRecord} {tokens : IssuedTokens}
      {user : User}
      → hash_opaque_refresh_token c cfg token ≡ ok hash
      → find_by_hash rows hash ≡ some r
      → Outcome c cfg o ch d now meta rows r out
      → out ≡ (stored, rotated tokens user)
      → IsRenewal ch d rows now meta token stored tokens user
  Outcome-IsRenewal o ch d rows now meta token hash r out h found (unchanged e u) q = cc
  Outcome-IsRenewal o ch d rows now meta token hash r out h found (caught e u) q = cc
  Outcome-IsRenewal o ch d rows now meta token hash r out h found (marked e u live) q = cc
  Outcome-IsRenewal o ch d rows now meta token hash r out h found (disabled u live) q = cc
  Outcome-IsRenewal o ch d rows now meta token hash r out {stored} {tokens} {user} h found
        (renewed f made_rows made_tokens live early looked active made) q =
      let (same_rows, same_tokens, same_user) : (made_rows ≡ stored)
          × (made_tokens ≡ tokens)
          × (f.user ≡ user) =
        (cc, cc, cc) in
      record {
        hash = hash;
        redeemed = r;
        raw = made.raw;
        hash_is = h;
        redeemed_is = found;
        live = live;
        unexpired = early;
        user_is = look_up-user o d r.user_id looked ∙ ap some same_user;
        active = sym (ap (λ u. u.is_active) same_user) ∙ active;
        refresh_is = sym (ap (λ t. t.refresh_token) same_tokens) ∙ made.refresh_is;
        stored_is =
            sym same_rows
            ∙ made.rows_are
            ∙ ap
                (λ u.
                  mark_used rows r.id now
                  ++ inserted ch.row_id
                      (session_row c cfg u r.family_id (some r.id) (c.digest made.raw) now meta)
                    ∷ [])
                same_user;
      }

  -- A rotation that returns tokens was given the token of a stored record that is neither used nor
  -- revoked and has not expired, whose user is stored and active; it marks that record as used and
  -- adds exactly one row, in the same family, with the hash of the token it returns.
  pub rotate-IsRenewal :
      (o : Outage) (ch : Chance) (d : Directory) (rows : List RefreshRecord) (now : ℕ)
      (meta : TokenMeta) (token : String) {stored : List RefreshRecord} {tokens : IssuedTokens}
      {user : User}
      → rotate c cfg o ch d rows now meta token ≡ (stored, rotated tokens user)
      → IsRenewal ch d rows now meta token stored tokens user
  rotate-IsRenewal o ch d rows now meta token q =
      elim (rotate-IsCase c cfg o ch d now meta rows token) [
        | inl (e, p) ↦ absurd (let clash = sym p ∙ q in cc)
        | inr (hash, r, h, found, out) ↦
            Outcome-IsRenewal o ch d rows now meta token hash r _ h found out q
      ]
