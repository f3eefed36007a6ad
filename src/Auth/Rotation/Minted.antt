-- ===== src/Auth/Rotation/Minted.antt =====
-- What the services of ms-auth/internal/usecase/token_service.go store with a new refresh token,
-- and when Rotate hands one out.
use controlitix.Common.{
  ℕ, String, Bool, false, ◌||◌, List, [], ◌∷◌, ◌++◌, Option, none, some, is_some, string_key,
  nat_key, ◌≡◌, refl, sym, ◌∙◌, ap, arith, if_elim,
}
use controlitix.Common.Result.{Result, ok, >>=-eq-ok}
use controlitix.Auth.Types.{IssuedTokens, RefreshRecord, TokenMeta, TokenConfig, AuthError}
use controlitix.Auth.Sessions.{NewRecord, inserted, create, find_by_hash, has_id}
use controlitix.Auth.Tokens.{
  Codec, Chance, Outage, Found, or_error, generate_refresh_token_pair, mint, issue_for_user,
  session_row, issued_pair, user_claims,
}

pub or_error-eq-ok :
    {A : Type 0} (e : AuthError) (o : Option A) {a : A} → or_error e o ≡ ok a → o ≡ some a
or_error-eq-ok e none h = cc
or_error-eq-ok e (some b) h = cc

-- An insertion that succeeds was of a new hash and a new key.
create-eq-ok :
    (fails : Bool) (rows : List RefreshRecord) (id : String) (n : NewRecord)
    {stored : List RefreshRecord}
    → create fails rows id n ≡ ok stored
    → (stored ≡ rows ++ inserted id n ∷ [])
      × (is_some (find_by_hash rows n.token_hash) ≡ false)
      × (has_id rows id ≡ false)
unfolding create
create-eq-ok fails rows id n {stored} h =
    if_elim
      (λ (m : Result AuthError (List RefreshRecord)).
        m ≡ ok stored
        → (stored ≡ rows ++ inserted id n ∷ [])
          × (is_some (find_by_hash rows n.token_hash) ≡ false)
          × (has_id rows id ≡ false))
      (fails || is_some (find_by_hash rows n.token_hash) || has_id rows id) (λ _ e. cc)
      (λ new e. (cc, ground arith, ground arith)) h

module _ (c : Codec) (cfg : TokenConfig) where
  -- The row and the pair that a successful `mint` made.
  pub record IsMinted (ch : Chance) (rows : List RefreshRecord) (now : ℕ) (meta : TokenMeta)
      (f : Found) (family : String) (parent : Option String) (stored : List RefreshRecord)
      (tokens : IssuedTokens) : Type 0 where
    pub raw : List ℕ
    pub raw_token : ch.raw_token ≡ some raw
    pub rows_are :
        stored
        ≡ rows
          ++ inserted ch.row_id (session_row c cfg f.user family parent (c.digest raw) now meta)
            ∷ []
    pub new_hash : is_some (find_by_hash rows (c.digest raw)) ≡ false
    pub new_id : has_id rows ch.row_id ≡ false
    pub refresh_is : tokens.refresh_token ≡ c.encode raw
    pub family_is : tokens.family_id ≡ family

  pair-eq-ok :
      (raw? : Option (List ℕ)) {pair : String × String}
      → generate_refresh_token_pair c cfg raw? ≡ ok pair
      → (raw : List ℕ) × (raw? ≡ some raw) × (pair.0 ≡ c.encode raw) × (pair.1 ≡ c.digest raw)
  unfolding generate_refresh_token_pair
  pair-eq-ok none h = cc
  pair-eq-ok (some raw) h = (raw, refl, cc, cc)

  pub mint-IsMinted :
      (o : Outage) (ch : Chance) (rows : List RefreshRecord) (now : ℕ) (meta : TokenMeta)
      (f : Found) (family : String) (parent : Option String) {stored : List RefreshRecord}
      {tokens : IssuedTokens}
      → mint c cfg o ch rows now meta f family parent ≡ ok (stored, tokens)
      → IsMinted ch rows now meta f family parent stored tokens
  unfolding mint
  mint-IsMinted o ch rows now meta f family parent {stored} {tokens} h =
      let (jti, e1, h1) = >>=-eq-ok (or_error AuthError.internal ch.jti) _ h in
      let (access, e2, h2) =
        >>=-eq-ok
          (or_error AuthError.internal
            (c.sign (user_claims c cfg f.user f.source_type f.roles now jti)))
          _ h1 in
      let (pair, e3, h3) = >>=-eq-ok (generate_refresh_token_pair c cfg ch.raw_token) _ h2 in
      let (made, e4, h4) =
        >>=-eq-ok
          (create o.create_fails rows ch.row_id
            (session_row c cfg f.user family parent pair.1 now meta))
          _ h3 in
      let (raw, e5, e6, e7) = pair-eq-ok ch.raw_token e3 in
      let (made_is, fresh, unused) =
        create-eq-ok o.create_fails rows ch.row_id
          (session_row c cfg f.user family parent pair.1 now meta) e4 in
      let result : (stored ≡ made) × (tokens ≡ issued_pair c cfg access pair.0 family) = (cc, cc) in
      record {
        raw = raw;
        raw_token = e5;
        rows_are =
            result.0
            ∙ made_is
            ∙ ap
                (λ hash.
                  rows
                  ++ inserted ch.row_id (session_row c cfg f.user family parent hash now meta) ∷ [])
                e7;
        new_hash = ap (λ hash. is_some (find_by_hash rows hash)) (sym e7) ∙ fresh;
        new_id = unused;
        refresh_is = ap (λ t. t.refresh_token) result.1 ∙ e6;
        family_is = ap (λ t. t.family_id) result.1;
      }

  pub issue_for_user-IsMinted :
      (o : Outage) (ch : Chance) (rows : List RefreshRecord) (now : ℕ) (meta : TokenMeta)
      (f : Found) (family : String) {stored : List RefreshRecord} {tokens : IssuedTokens}
      → ch.family ≡ some family
      → issue_for_user c cfg o ch rows now meta f ≡ ok (stored, tokens)
      → IsMinted ch rows now meta f family none stored tokens
  unfolding issue_for_user
  issue_for_user-IsMinted o ch rows now meta f family drawn done =
      mint-IsMinted o ch rows now meta f family none (rw drawn at done)
