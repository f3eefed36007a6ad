-- ===== src/Auth/Clients/Audited.antt =====
-- What Issue of ms-auth/internal/usecase/service_token_service.go answers and records.
use controlitix.Common.{
  ℕ, ◌+◌, String, Bool, true, false, not, ◌||◌, List, [], ◌∷◌, ◌++◌, Option, none, some, same,
  if_elim, ◌≡◌, refl, sym, ap, ◌∙◌, ◌⊎◌, inl, inr, string_key, All, In, Option-cases, Bool-cases,
}
use controlitix.Common.Result.{Result, ok, err, ◌>>=◌}
use Prim.Native.String.{◌++◌ as joined}
use controlitix.Auth.Types.{
  AccessClaims, ServiceAccount, AuthError, IssuedTokens, TokenConfig, seconds,
}
use controlitix.Auth.Names.{normalize_list, resolve_granted_scopes}
use controlitix.Auth.Names.Scopes.{IsGrant, resolve_granted_scopes-IsGrant}
use controlitix.Auth.Tokens.{Chance, or_error, unless_fails, issue_for_service, service_claims}
use controlitix.Auth.Accounts.{find_by_client_id, update_last_used, scanned, account_of}
use controlitix.Auth.Clients.{
  ServiceTokenInput, ServiceTokenResult, ClientDb, Wire, Outage, failure_event, success_event,
  record_client_audit, client_of, secret_of, refuse, tell_issued, stamp_issued, issue_granted,
  issue_verified, issue_found, issue,
}

-- The errors that are recorded in the audit log.
abbrev pub is_refusal : AuthError → Bool
is_refusal AuthError.invalid_client = true
is_refusal AuthError.client_disabled = true
is_refusal AuthError.invalid_scope = true
is_refusal _ = false

module _ (w : Wire) (cfg : TokenConfig) (o : Outage) (ch : Chance) (now : ℕ)
    (input : ServiceTokenInput) where
  abbrev client : String
  client = client_of w cfg o ch now input

  -- The account that a token was issued to, its scopes, and the claims that were signed.
  pub record IsIssued (db : ClientDb) (r : ServiceTokenResult) : Type 0 where
    pub account : ServiceAccount
    pub granted : List String
    pub found :
        find_by_client_id w.codec.trim w.has_space o.find_fails db.accounts
          (client_of w cfg o ch now input)
        ≡ ok (some account)
    pub verified : w.verify (secret_of w cfg o ch now input) account.client_secret_hash ≡ some true
    pub active : account.is_active ≡ true
    pub allowed : All (λ scope. In scope (normalize_list w.codec.trim account.scopes)) granted
    pub resolved :
        resolve_granted_scopes w.codec.trim w.fields account.scopes input.scope ≡ ok granted
    pub scope_is : r.scope ≡ w.codec.join granted
    pub claims : AccessClaims
    pub signed : w.codec.sign claims ≡ some r.access_token
    pub scope_claim : claims.scope ≡ w.codec.join (normalize_list w.codec.trim granted)
    pub client_claim : claims.client_id ≡ client_of w cfg o ch now input
    pub subject_claim : claims.subject ≡ joined "svc:" (client_of w cfg o ch now input)
    pub expiry_claim : claims.expires_at ≡ seconds (now + cfg.access_ttl)
    pub no_roles : claims.roles ≡ []

  abbrev pub IsAudited : ClientDb → ClientDb × Result AuthError ServiceTokenResult → Type 0
  IsAudited db (after, ok r) =
      IsIssued db r
      × (after.audit ≡ db.audit ++ success_event input (client_of w cfg o ch now input) ∷ [])
  IsAudited db (after, err e) =
      ((is_refusal e ≡ false) × (after ≡ db))
      ⊎ ((is_refusal e ≡ true)
          × ((reason : String) × (after ≡ record db {
            audit = db.audit ++ failure_event input (client_of w cfg o ch now input) reason ∷ [];
          })))

  refuse-IsAudited :
      (db : ClientDb) (reason : String) (e : AuthError)
      → o.audit_fails ≡ false
      → is_refusal e ≡ true
      → IsAudited db (refuse w cfg o ch now input db reason e)
  unfolding refuse record_client_audit
  refuse-IsAudited db reason e works recorded = inr (
    recorded,
    (reason, ap (λ b. record_client_audit b db (failure_event input client reason)) works),
  )

  -- What happens once a token is to be issued.
  told-IsAudited :
      (db : ClientDb) (a : ServiceAccount) (granted : List String) (tokens : IssuedTokens)
      → o.audit_fails ≡ false
      → find_by_client_id w.codec.trim w.has_space o.find_fails db.accounts client ≡ ok (some a)
      → w.verify (secret_of w cfg o ch now input) a.client_secret_hash ≡ some true
      → a.is_active ≡ true
      → All (λ scope. In scope (normalize_list w.codec.trim a.scopes)) granted
      → resolve_granted_scopes w.codec.trim w.fields a.scopes input.scope ≡ ok granted
      → (claims : AccessClaims) × (w.codec.sign claims ≡ some tokens.access_token)
        × (claims ≡ service_claims w.codec cfg client granted now claims.jwt_id)
      → IsAudited db (stamp_issued w cfg o ch now input db a granted (ok tokens))
  unfolding stamp_issued tell_issued update_last_used record_client_audit
  told-IsAudited db a granted tokens works found verified active allowed resolved
        (claims, signed, made) =
      elim (Bool-cases o.stamp_fails) [
        | inl e ↦ rw e (inl (refl, refl))
        | inr e ↦ rw e (
            rw works (
              record {
                account = a;
                granted = granted;
                found = found;
                verified = verified;
                active = active;
                allowed = allowed;
                resolved = resolved;
                scope_is = refl;
                claims = claims;
                signed = signed;
                scope_claim = ap (λ x. x.scope) made;
                client_claim = ap (λ x. x.client_id) made;
                subject_claim = ap (λ x. x.subject) made;
                expiry_claim = ap (λ x. x.expires_at) made;
                no_roles = ap (λ x. x.roles) made;
              },
              refl,
            ))
      ]

  issue_for_service-internal :
      (granted : List String)
      → (issue_for_service w.codec cfg ch now client granted ≡ err AuthError.internal)
        ⊎ ((tokens : IssuedTokens) × (issue_for_service w.codec cfg ch now client granted
              ≡ ok tokens)
            × ((claims : AccessClaims) × (w.codec.sign claims ≡ some tokens.access_token)
                × (claims ≡ service_claims w.codec cfg client granted now claims.jwt_id)))
  unfolding issue_for_service
  issue_for_service-internal granted = elim (Option-cases ch.jti) [
    | inl e ↦ inl (rw e refl)
    | inr (jti, e) ↦
        elim (Option-cases (w.codec.sign (service_claims w.codec cfg client granted now jti))) [
          | inl f ↦ inl (rw e (rw f refl))
          | inr (access, f) ↦ inr (
            _,
            ap
                  (λ j. or_error AuthError.internal j >>= (λ jti'.
                    or_error AuthError.internal
                      (w.codec.sign (service_claims w.codec cfg client granted now jti'))
                    >>= (λ text. ok (service_tokens text))))
                  e
                ∙ ap (λ m. or_error AuthError.internal m >>= (λ text. ok (service_tokens text))) f,
            (service_claims w.codec cfg client granted now jti, f, refl),
          )
        ]
  ]
    where
      service_tokens : String → IssuedTokens
      service_tokens text = record {
        access_token = text;
        refresh_token = "";
        expires_in = seconds cfg.access_ttl;
        refresh_expires_in = 0;
        family_id = "";
      }

  granted-IsAudited :
      (db : ClientDb) (a : ServiceAccount) (m : Result AuthError (List String))
      → o.audit_fails ≡ false
      → find_by_client_id w.codec.trim w.has_space o.find_fails db.accounts client ≡ ok (some a)
      → w.verify (secret_of w cfg o ch now input) a.client_secret_hash ≡ some true
      → a.is_active ≡ true
      → IsGrant
          (normalize_list w.codec.trim a.scopes)
          (normalize_list w.codec.trim (w.fields input.scope))
          m
      → resolve_granted_scopes w.codec.trim w.fields a.scopes input.scope ≡ m
      → IsAudited db (issue_granted w cfg o ch now input db a m)
  unfolding issue_granted stamp_issued
  granted-IsAudited db a (ok granted) works found verified active grant resolved =
      elim (issue_for_service-internal granted) [
        | inl e ↦ rw e (inl (refl, refl))
        | inr (tokens, e, made) ↦
            rw e
              (told-IsAudited db a granted tokens works found verified active grant.1 resolved made)
      ]
  granted-IsAudited db a (err AuthError.invalid_scope) works found verified active grant resolved =
      refuse-IsAudited db "invalid_scope" AuthError.invalid_scope works refl
  granted-IsAudited db a (err e) works found verified active grant resolved =
      absurd (let only = grant.0 in cc)

  verified-IsAudited :
      (db : ClientDb) (a : ServiceAccount) (m : Option Bool)
      → o.audit_fails ≡ false
      → find_by_client_id w.codec.trim w.has_space o.find_fails db.accounts client ≡ ok (some a)
      → w.verify (secret_of w cfg o ch now input) a.client_secret_hash ≡ m
      → IsAudited db (issue_verified w cfg o ch now input db a m)
  unfolding issue_verified
  verified-IsAudited db a none works found checked = inl (refl, refl)
  verified-IsAudited db a (some false) works found checked =
      refuse-IsAudited db "invalid_secret" AuthError.invalid_client works refl
  verified-IsAudited db a (some true) works found checked =
      if_elim (IsAudited db) a.is_active
        (λ active.
          granted-IsAudited db a _ works found checked active
            (resolve_granted_scopes-IsGrant w.codec.trim w.fields a.scopes input.scope) refl)
        (λ _. refuse-IsAudited db "client_disabled" AuthError.client_disabled works refl)

  found-IsAudited :
      (db : ClientDb) (m : Result AuthError (Option ServiceAccount))
      → o.audit_fails ≡ false
      → find_by_client_id w.codec.trim w.has_space o.find_fails db.accounts client ≡ m
      → IsAudited db (issue_found w cfg o ch now input db m)
  unfolding issue_found find_by_client_id
  found-IsAudited db (err e) works looked = inl (internal_only o.find_fails looked, refl)
    where
      internal_only :
          (fails : Bool)
          → unless_fails fails
              (ok (scanned w.codec.trim w.has_space (account_of db.accounts client)))
            ≡ err e
          → is_refusal e ≡ false
      internal_only true q =
          let same_error : AuthError.internal ≡ e = cc in ap is_refusal (sym same_error)
      internal_only false q = cc
  found-IsAudited db (ok none) works looked =
      refuse-IsAudited db "unknown_client" AuthError.invalid_client works refl
  found-IsAudited db (ok (some a)) works looked = verified-IsAudited db a _ works looked refl

  -- While the audit log can be written: a service token is issued only to a known and active
  -- account whose secret was verified; the signed claims name the client as client and subject, the
  -- granted scopes, which are all allowed to the account, no role and the expiry; and exactly one
  -- event of success is recorded. A refusal of the client or of its scopes records exactly one
  -- event of failure and changes nothing else; every other error records and changes nothing.
  pub issue-IsAudited :
      (db : ClientDb) → o.audit_fails ≡ false → IsAudited db (issue w cfg o ch now input db)
  unfolding issue
  issue-IsAudited db works =
      if_elim (IsAudited db) (not (same (w.codec.trim input.grant_type) "client_credentials"))
        (λ _. inl (refl, refl))
        (λ _.
          if_elim (IsAudited db) (same client "" || same (secret_of w cfg o ch now input) "")
            (λ _. inl (refl, refl)) (λ _. found-IsAudited db _ works refl))
