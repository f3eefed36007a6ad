-- ===== src/Auth/Rotation/Dead.antt =====
-- The revocation of a family, in ms-auth/internal/usecase/token_service.go and
-- ms-auth/internal/infrastructure/repository/refresh_token_repository.go, is final.
use controlitix.Common.{
  ltb, ℕ, String, Bool, true, not, ◌&&◌, List, [], ◌∷◌, is_some, if_elim, ◌≡◌, ◌≢◌, refl, sym,
  subst, arith, In, inl, inr, All, All-In, All-append, All-map, string_key, same,
}
use controlitix.Common.Tally.{All-keep_where}
use controlitix.Auth.Types.{RefreshRecord, TokenMeta, TokenConfig, Directory}
use controlitix.Auth.Sessions.{
  mark_row, mark_used, revoke_row, revoke_family, revoke_all_for_user, delete_expired, relink_row,
}
use controlitix.Auth.Tokens.{Codec, Chance, Outage}
use controlitix.Auth.Rotation.{Rotated}
use controlitix.Auth.Rotation.Minted.{issue_for_user-IsMinted}
use controlitix.Auth.Rotation.Outcome.{
  find_by_hash-In, Outcome, unchanged, caught, marked, disabled, renewed, rotate-IsCase,
}
use controlitix.Auth.Rotation.World.{
  World, Step, issues, rotates, revokes, revokes_all, expires, Steps, here, after,
}
use controlitix.Auth.Rotation.Sound.{revoke-cases}

-- Every row of the family is revoked.
abbrev pub IsRevokedRow : String → RefreshRecord → Type 0
IsRevokedRow family r = r.family_id ≡ family → is_some r.revoked_at ≡ true

abbrev pub IsRevoked : String → List RefreshRecord → Type 0
IsRevoked family rows = All (IsRevokedRow family) rows

mark_used-IsRevoked :
    (family : String) (rows : List RefreshRecord) (id : String) (at : ℕ)
    → IsRevoked family rows
    → IsRevoked family (mark_used rows id at)
unfolding mark_used
mark_used-IsRevoked family rows id at h =
    All-map (IsRevokedRow family) (mark_row id at)
      (λ r p.
        if_elim (λ (q : RefreshRecord). IsRevokedRow family q) (same r.id id) (λ _. p) (λ _. p))
      rows h

revoke_row-IsRevoked :
    (family : String) (selected : Bool) (at : ℕ) (reason : String) (r : RefreshRecord)
    → IsRevokedRow family r
    → IsRevokedRow family (revoke_row selected at reason r)
revoke_row-IsRevoked family selected at reason r p =
    if_elim (λ (q : RefreshRecord). IsRevokedRow family q) (selected && not (is_some r.revoked_at))
      (λ _ _. refl) (λ _. p)

revoke_family-IsRevoked :
    (family : String) (rows : List RefreshRecord) (gone : String) (at : ℕ) (reason : String)
    → IsRevoked family rows
    → IsRevoked family (revoke_family rows gone at reason)
unfolding revoke_family
revoke_family-IsRevoked family rows gone at reason h =
    All-map (IsRevokedRow family) _
      (λ r. revoke_row-IsRevoked family (same r.family_id gone) at reason r) rows h

revoke_all-IsRevoked :
    (family : String) (rows : List RefreshRecord) (user : String) (at : ℕ) (reason : String)
    → IsRevoked family rows
    → IsRevoked family (revoke_all_for_user rows user at reason)
unfolding revoke_all_for_user
revoke_all-IsRevoked family rows user at reason h =
    All-map (IsRevokedRow family) _
      (λ r. revoke_row-IsRevoked family (same r.user_id user) at reason r) rows h

-- Revoking a family leaves none of its rows unrevoked.
pub revoke_family-revokes :
    (family : String) (rows : List RefreshRecord) (at : ℕ) (reason : String)
    → IsRevoked family (revoke_family rows family at reason)
unfolding revoke_family
revoke_family-revokes family [] at reason = tt
revoke_family-revokes family (r ∷ rows) at reason = (
  if_elim (λ (q : RefreshRecord). IsRevokedRow family q)
      (same r.family_id family && not (is_some r.revoked_at)) (λ _ _. refl)
      (λ kept mine. ground arith),
  revoke_family-revokes family rows at reason,
)

-- A family that was begun and revoked.
pub record IsDead (family : String) (w : World) : Type 0 where
  pub old : In family w.families
  pub revoked : IsRevoked family w.rows

module _ (c : Codec) (cfg : TokenConfig) where
  Outcome-IsRevoked :
      (family : String) (o : Outage) (ch : Chance) (d : Directory) (now : ℕ) (meta : TokenMeta)
      (rows : List RefreshRecord) (r : RefreshRecord) (out : List RefreshRecord × Rotated)
      → In r rows
      → IsRevoked family rows
      → Outcome c cfg o ch d now meta rows r out
      → IsRevoked family out.0
  Outcome-IsRevoked family o ch d now meta rows r out m h (unchanged e u) = h
  Outcome-IsRevoked family o ch d now meta rows r out m h (caught e u) =
      revoke_family-IsRevoked family rows r.family_id now "reuse_detected" h
  Outcome-IsRevoked family o ch d now meta rows r out m h (marked e u live) =
      mark_used-IsRevoked family rows r.id now h
  Outcome-IsRevoked family o ch d now meta rows r out m h (disabled u live) =
      revoke_family-IsRevoked family (mark_used rows r.id now) r.family_id now "user_disabled"
        (mark_used-IsRevoked family rows r.id now h)
  Outcome-IsRevoked family o ch d now meta rows r out m h
        (renewed f stored tokens live early found active made) =
      let spared : r.family_id ≢ family = λ mine.
        (let gone = All-In (IsRevokedRow family) rows r h m mine in
          let kept = live.unrevoked in ground arith) in
      subst (λ s. IsRevoked family s) (sym made.rows_are)
        (All-append (IsRevokedRow family) (mark_used rows r.id now) _
          (mark_used-IsRevoked family rows r.id now h) ((λ mine. absurd (spared mine)), tt))

  pub Step-IsDead :
      (family : String) (w v : World) → Step c cfg w v → IsDead family w → IsDead family v
  unfolding delete_expired
  Step-IsDead family w v (issues o ch now meta f fresh stored tokens drawn new done) dead =
      let made = issue_for_user-IsMinted c cfg o ch w.rows now meta f fresh drawn done in
      record {
        old = inr dead.old;
        revoked =
            subst (λ s. IsRevoked family s) (sym made.rows_are)
              (All-append (IsRevokedRow family) w.rows _ dead.revoked
                ((λ mine. absurd (new (subst (λ g. In g w.families) (sym mine) dead.old))), tt));
      }
  Step-IsDead family w v (rotates o ch d now meta token) dead = record {
    old = dead.old;
    revoked = elim (rotate-IsCase c cfg o ch d now meta w.rows token) [
      | inl (e, q) ↦ rw q dead.revoked
      | inr (hash, r, h, found, out) ↦
          Outcome-IsRevoked family o ch d now meta w.rows r _ (find_by_hash-In w.rows hash found).0
            dead.revoked out
    ];
  }
  Step-IsDead family w v (revokes o now token reason) dead = record {
    old = dead.old;
    revoked = elim (revoke-cases c cfg o w.rows now token reason) [
      | inl q ↦ rw q dead.revoked
      | inr (gone, why, q) ↦ rw q (revoke_family-IsRevoked family w.rows gone now why dead.revoked)
    ];
  }
  Step-IsDead family w v (revokes_all user at reason) dead = record {
    old = dead.old;
    revoked = revoke_all-IsRevoked family w.rows user at reason dead.revoked;
  }
  Step-IsDead family w v (expires now) dead = record {
    old = dead.old;
    revoked =
        All-map (IsRevokedRow family) (relink_row _) (λ r h. h) _
          (All-keep_where (λ r. not (ltb r.expires_at now)) (IsRevokedRow family) w.rows
            dead.revoked);
  }

  pub Steps-IsDead :
      (family : String) (w v : World) → Steps c cfg w v → IsDead family w → IsDead family v
  Steps-IsDead family w v here dead = dead
  Steps-IsDead family w v (after {v = u} run step) dead =
      Step-IsDead family u v step (Steps-IsDead family w u run dead)
