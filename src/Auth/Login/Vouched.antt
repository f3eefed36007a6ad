-- ===== src/Auth/Login/Vouched.antt =====
-- Who vouches for the identity that Authenticate of ms-auth/internal/usecase/auth_service.go
-- finds, and which user it is.
use controlitix.Common.{
  String, Bool, true, false, List, [], ◌∷◌, Option, none, some, is_some, same, if_elim, ◌≡◌, refl,
  sym, ap, ◌∙◌, subst, ◌||◌, string_key, inl, inr, nat_key, In, arith, if◌then◌else◌,
}
use controlitix.Common.Map.{Map, get}
use controlitix.Common.Result.{Result, ok, err, >>=-eq-ok}
use controlitix.Auth.Types.{User, IdentitySource, AuthError, Directory}
use controlitix.Auth.Tokens.{unless_fails, or_error}
use controlitix.Auth.Users.{
  first_user, find_by_subject, find_by_source_and_username, create_user_row, clashes,
}
use controlitix.Auth.Admin.Manned.{unless_fails-ok}
use controlitix.Auth.Rotation.Minted.{or_error-eq-ok}
use controlitix.Auth.Login.{
  Credentials, ExternalIdentity, Provider, Desk, Outage, of_kind, first_enabled, enabled_source,
  resolve_source, check_password, local_authenticate, provider_of, known_user, user_of, identify,
}

first_enabled-In :
    (sources : List IdentitySource) {s : IdentitySource}
    → first_enabled sources ≡ some s
    → In s sources × (s.is_enabled ≡ true)
unfolding first_enabled
first_enabled-In [] h = cc
first_enabled-In (q ∷ sources) {s} h =
    if_elim (λ (x : Option IdentitySource). x ≡ some s → In s (q ∷ sources) × (s.is_enabled ≡ true))
      q.is_enabled
      (λ on e.
        let same_source : q ≡ s = cc in
        (inl same_source, ap (λ x. x.is_enabled) (sym same_source) ∙ on))
      (λ _ e. let (m, on) = first_enabled-In sources e in (inr m, on)) h

enabled_source-In :
    (sources : List IdentitySource) {s : IdentitySource}
    → enabled_source sources ≡ ok s
    → In s sources × (s.is_enabled ≡ true)
unfolding enabled_source
enabled_source-In [] h = cc
enabled_source-In (q ∷ sources) h =
    first_enabled-In (q ∷ sources)
      (or_error-eq-ok AuthError.source_disabled (first_enabled (q ∷ sources)) h)

first_user-passes :
    (p : User → Bool) (users : Map String User) {u : User}
    → first_user p users ≡ some u
    → p u ≡ true
unfolding first_user
first_user-passes p [] h = cc
first_user-passes p ((id, v) ∷ users) {u} h =
    if_elim (λ (x : Option User). x ≡ some u → p u ≡ true) (p v)
      (λ passes e. let same_user : v ≡ u = cc in ap p (sym same_user) ∙ passes)
      (λ _ e. first_user-passes p users e) h

module _ (k : Desk) (o : Outage) where
  -- The password of a stored and active user is the one that was presented.
  pub record IsLocal (d : Directory) (creds : Credentials) (source : IdentitySource)
      (e : ExternalIdentity) : Type 0 where
    pub owner : User
    pub owner_is :
        find_by_source_and_username k.lower o.local_fails d source.id creds.username
        ≡ ok (some owner)
    pub verified : k.verify creds.password owner.password_hash ≡ some true
    pub owner_active : owner.is_active ≡ true
    pub owner_subject : e.subject ≡ owner.subject

  -- The identity comes from the provider of an enabled source of the requested kind, which took
  -- the credentials.
  pub record IsVouched (d : Directory) (kind : String) (creds : Credentials)
      (source : IdentitySource) (e : ExternalIdentity) : Type 0 where
    pub listed : In source (of_kind d.sources (k.lower (k.trim kind)))
    pub enabled : source.is_enabled ≡ true
    pub provider : Provider
    pub provider_is : provider_of k o d source.kind ≡ some provider
    pub took : provider source creds ≡ ok (some e)
    pub password : source.kind ≡ "local" → IsLocal d creds source e

  check_password-eq-ok :
      (creds : Credentials) (u : User) (e : ExternalIdentity)
      → check_password k o creds (some u) ≡ ok (some e)
      → (k.verify creds.password u.password_hash ≡ some true)
        × (u.is_active ≡ true)
        × (e.subject ≡ u.subject)
  unfolding check_password
  check_password-eq-ok creds u e h =
      if_elim
        (λ (x : Result AuthError (Option ExternalIdentity)).
          x ≡ ok (some e)
          → (k.verify creds.password u.password_hash ≡ some true)
            × (u.is_active ≡ true)
            × (e.subject ≡ u.subject))
        (same u.password_hash "") (λ _ q. cc)
        (λ _ q.
          let (match, e1, h1) =
            >>=-eq-ok (or_error AuthError.internal (k.verify creds.password u.password_hash)) _ q in
          matched match
            (or_error-eq-ok AuthError.internal (k.verify creds.password u.password_hash) e1) h1)
        h
    where
      shown : ExternalIdentity
      shown = record {
        subject = u.subject;
        username = u.username;
        display_name = u.display_name;
        email = u.email;
        groups = [];
      }

      shown_is :
          (active : Bool)
          → ◌≡◌ {A = Result AuthError (Option ExternalIdentity)}
              (if active then ok (some shown) else err AuthError.user_disabled)
              (ok (some e))
          → (active ≡ true) × (e.subject ≡ u.subject)
      shown_is true q =
          let same_identity : shown ≡ e = cc in
          (refl, ap (λ (x : ExternalIdentity). x.subject) (sym same_identity))
      shown_is false q = cc

      matched :
          (match : Bool)
          → k.verify creds.password u.password_hash ≡ some match
          → ◌≡◌ {A = Result AuthError (Option ExternalIdentity)}
              (if match
                then (if u.is_active then ok (some shown) else err AuthError.user_disabled)
                else err AuthError.invalid_credentials)
              (ok (some e))
          → (k.verify creds.password u.password_hash ≡ some true)
            × (u.is_active ≡ true)
            × (e.subject ≡ u.subject)
      matched true checked q =
          let (active, subject) = shown_is u.is_active q in (checked, active, subject)
      matched false checked q = cc

  local_authenticate-IsLocal :
      (d : Directory) (creds : Credentials) (source : IdentitySource) (e : ExternalIdentity)
      → local_authenticate k o d source creds ≡ ok (some e)
      → IsLocal d creds source e
  unfolding local_authenticate check_password
  local_authenticate-IsLocal d creds source e h =
      let (found, e1, h1) =
        >>=-eq-ok (find_by_source_and_username k.lower o.local_fails d source.id creds.username) _
          h in
      owned found e1 h1
    where
      owned :
          (found : Option User)
          → find_by_source_and_username k.lower o.local_fails d source.id creds.username ≡ ok found
          → check_password k o creds found ≡ ok (some e)
          → IsLocal d creds source e
      owned none e1 h1 = cc
      owned (some u) e1 h1 =
          let (verified, active, subject) = check_password-eq-ok creds u e h1 in
          record {
            owner = u;
            owner_is = e1;
            verified = verified;
            owner_active = active;
            owner_subject = subject;
          }

  provider_of-local :
      (d : Directory) (kind : String) (p : Provider)
      → provider_of k o d kind ≡ some p
      → kind ≡ "local"
      → local_authenticate k o d ≡ p
  unfolding provider_of
  provider_of-local d kind p h is_local =
      if_elim (λ (x : Option Provider). x ≡ some p → local_authenticate k o d ≡ p)
        (same kind "local") (λ _ q. cc) (λ differs q. absurd (ground arith)) h

  pub identify-IsVouched :
      (d : Directory) (kind : String) (creds : Credentials) (source : IdentitySource)
      (e : ExternalIdentity)
      → identify k o d kind creds ≡ ok (source, e)
      → IsVouched d kind creds source e
  unfolding identify resolve_source
  identify-IsVouched d kind creds source e h =
      let (s, e1, h1) = >>=-eq-ok (resolve_source k o d kind) _ h in
      let (p, e2, h2) =
        >>=-eq-ok (or_error AuthError.source_not_found (provider_of k o d s.kind)) _ h1 in
      let (found, e3, h3) = >>=-eq-ok (p s creds) _ h2 in
      let (x, e4, h4) = >>=-eq-ok (or_error AuthError.invalid_credentials found) _ h3 in
      let (sources, e5, h5) =
        >>=-eq-ok (unless_fails o.sources_fail (ok (of_kind d.sources (k.lower (k.trim kind))))) _
          e1 in
      let listed_all : of_kind d.sources (k.lower (k.trim kind)) ≡ sources =
        (let r = unless_fails-ok o.sources_fail _ e5 in cc) in
      let (member, on) = enabled_source-In sources h5 in
      let provides = or_error-eq-ok AuthError.source_not_found (provider_of k o d s.kind) e2 in
      let took : p s creds ≡ ok (some x) =
        e3 ∙ ap ok (or_error-eq-ok AuthError.invalid_credentials found e4) in
      let vouched : IsVouched d kind creds s x = record {
        listed = subst (In s) (sym listed_all) member;
        enabled = on;
        provider = p;
        provider_is = provides;
        took = took;
        password = λ is_local.
            local_authenticate-IsLocal d creds s x
              (ap (λ q. q s creds) (provider_of-local d s.kind p provides is_local) ∙ took);
      } in
      let (same_source, same_identity) : (s ≡ source) × (x ≡ e) = (cc, cc) in
      subst (λ y. IsVouched d kind creds y e) same_source
        (subst (IsVouched d kind creds s) same_identity vouched)

  -- The user that is found for an identity, or created for it, has its subject.
  pub user_of-subject :
      (id : String) (d after : Directory) (source : IdentitySource) (e : ExternalIdentity)
      (u : User)
      → user_of k o id d source e ≡ ok (after, u)
      → u.subject ≡ e.subject
  unfolding user_of find_by_subject known_user create_user_row
  user_of-subject id d after source e u h =
      let (found, e1, h1) = >>=-eq-ok (find_by_subject o.find_fails d e.subject) _ h in
      known found (unless_fails-ok o.find_fails _ e1) h1
    where
      fresh : User
      fresh = record {
        id = "";
        subject = e.subject;
        source_id = source.id;
        username = e.username;
        display_name = e.display_name;
        email = e.email;
        password_hash = "";
        is_active = true;
        last_login_at = none;
      }

      known :
          (found : Option User)
          → ◌≡◌ {A = Result AuthError (Option User)}
              (ok (first_user (λ v. same v.subject e.subject) d.users))
              (ok found)
          → known_user k o id d source e found ≡ ok (after, u)
          → u.subject ≡ e.subject
      known (some v) looked q =
          let here : first_user (λ w. same w.subject e.subject) d.users ≡ some v = cc in
          let same_user : v ≡ u = cc in
          let passes = first_user-passes (λ w. same w.subject e.subject) d.users here in
          ap (λ (w : User). w.subject) (sym same_user) ∙ ground (arith, passes)
      known none looked q =
          if_elim
            (λ (x : Result AuthError (Directory × User)). x ≡ ok (after, u) → u.subject ≡ e.subject)
            (o.create_fails || is_some (get d.users id)) (λ _ r. cc)
            (λ _ r.
              if_elim
                (λ (x : Result AuthError (Directory × User)).
                  x ≡ ok (after, u) → u.subject ≡ e.subject)
                (is_some (first_user (clashes k.lower fresh) d.users)) (λ _ s. cc)
                (λ _ s.
                  let made : record fresh { id = id } ≡ u = cc in
                  ap (λ (w : User). w.subject) (sym made))
                r)
            q
