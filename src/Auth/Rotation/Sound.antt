-- ===== src/Auth/Rotation/Sound.antt =====
-- No two tokens of a family can both be redeemed, whichever calls of
-- ms-auth/internal/usecase/token_service.go were made, one after the other.
use controlitix.Common.{
  ℕ, ◌+◌, ◌≤◌, String, List, [], ◌∷◌, Option, none, some, same, if◌then◌else◌, if_elim, ◌≡◌, ◌≢◌,
  refl, sym, subst, arith, In, ◌⊎◌, inl, inr, string_key, All, All-append, All-mono, All-In,
}
use controlitix.Common.Tally.{tally-none}
use controlitix.Common.Result.{Result, ok, err}
use controlitix.Auth.Types.{
  IssuedTokens, AuthError, RefreshRecord, TokenConfig, Directory, TokenMeta,
}
use controlitix.Auth.Sessions.{find_by_hash, mark_used, revoke_family}
use controlitix.Auth.Tokens.{
  Codec, Outage, Chance, Found, issue_for_user, hash_opaque_refresh_token,
}
use controlitix.Auth.Rotation.{Rotated, rotate, revoke, revoke_hashed, revoke_found}
use controlitix.Auth.Rotation.Minted.{issue_for_user-IsMinted}
use controlitix.Auth.Rotation.Outcome.{
  IsLive, find_by_hash-In, Outcome, unchanged, caught, marked, disabled, renewed, rotate-IsCase,
}
use controlitix.Auth.Rotation.World.{
  World, empty_world, begun, with_rows, Step, issues, rotates, revokes, revokes_all, expires, Steps,
  here, after,
}
use controlitix.Auth.Rotation.Families.{
  live_count, live_count-mark_used, live_count-revoke_family, live_count-revoke_all,
  live_count-delete_expired, live_count-mark_found, live_count-inserted, Within, mark_used-Within,
  revoke_family-Within, revoke_all-Within, delete_expired-Within, is_live_in,
}

-- At most one live token in each family, and no row of a family that was not begun.
pub record IsSound (w : World) : Type 0 where
  pub single : (family : String) → live_count family w.rows ≤ 1
  pub known : All (λ r. In r.family_id w.families) w.rows

renewed-single :
    (rows : List RefreshRecord) (r : RefreshRecord) (now : ℕ) (family : String)
    → In r rows
    → IsLive r
    → ((f : String) → live_count f rows ≤ 1)
    → live_count family (mark_used rows r.id now) + (if same r.family_id family then 1 else 0) ≤ 1
renewed-single rows r now family m live one = elim (string_key.eq? r.family_id family) [
  | yes e ↦
      subst
        (λ f. live_count f (mark_used rows r.id now) + (if same r.family_id f then 1 else 0) ≤ 1) e
        (let less = live_count-mark_found rows r now m live in
          let most = one r.family_id in ground arith)
  | no n ↦
      let less = live_count-mark_used family rows r.id now in let most = one family in ground arith
]

-- A family that was not begun has no row.
absent-live_count :
    (family : String) (rows : List RefreshRecord) (families : List String)
    → (¬ In family families)
    → Within (λ f. In f families) rows
    → live_count family rows ≡ 0
unfolding live_count
absent-live_count family rows families new h = tally-none (is_live_in family) rows (
    All-mono
      (λ r m.
        let other : r.family_id ≢ family = (λ e. new (subst (λ f. In f families) e m)) in
        ground arith)
      rows h)

fresh_single :
    (w : World) (family g : String)
    → (¬ In family w.families)
    → IsSound w
    → live_count g w.rows + (if same family g then 1 else 0) ≤ 1
fresh_single w family g new sound = elim (string_key.eq? family g) [
  | yes e ↦
      subst (λ f. live_count f w.rows + (if same family f then 1 else 0) ≤ 1) e
        (let zero_live = absent-live_count family w.rows w.families new sound.known in ground arith)
  | no n ↦ let most = sound.single g in ground arith
]

module _ (c : Codec) (cfg : TokenConfig) where
  Outcome-single :
      (o : Outage) (ch : Chance) (d : Directory) (now : ℕ) (meta : TokenMeta)
      (rows : List RefreshRecord) (r : RefreshRecord) (out : List RefreshRecord × Rotated)
      → In r rows
      → ((family : String) → live_count family rows ≤ 1)
      → Outcome c cfg o ch d now meta rows r out
      → (family : String) → live_count family out.0 ≤ 1
  Outcome-single o ch d now meta rows r out m one (unchanged e u) family = one family
  Outcome-single o ch d now meta rows r out m one (caught e u) family =
      omega
        (arith, one family, live_count-revoke_family family rows r.family_id now "reuse_detected")
  Outcome-single o ch d now meta rows r out m one (marked e u live) family =
      omega (arith, one family, live_count-mark_used family rows r.id now)
  Outcome-single o ch d now meta rows r out m one (disabled u live) family = omega (
    arith,
    one family,
    live_count-mark_used family rows r.id now,
    live_count-revoke_family family (mark_used rows r.id now) r.family_id now "user_disabled",
  )
  Outcome-single o ch d now meta rows r out m one
        (renewed f stored tokens live early found active made) family =
      rw made.rows_are (
        rw (live_count-inserted family (mark_used rows r.id now) ch.row_id _)
          (renewed-single rows r now family m live one))

  Outcome-known :
      (P : String → Type 0) (o : Outage) (ch : Chance) (d : Directory) (now : ℕ) (meta : TokenMeta)
      (rows : List RefreshRecord) (r : RefreshRecord) (out : List RefreshRecord × Rotated)
      → In r rows
      → Within P rows
      → Outcome c cfg o ch d now meta rows r out
      → Within P out.0
  Outcome-known P o ch d now meta rows r out m h (unchanged e u) = h
  Outcome-known P o ch d now meta rows r out m h (caught e u) =
      revoke_family-Within P rows r.family_id now "reuse_detected" h
  Outcome-known P o ch d now meta rows r out m h (marked e u live) =
      mark_used-Within P rows r.id now h
  Outcome-known P o ch d now meta rows r out m h (disabled u live) =
      revoke_family-Within P (mark_used rows r.id now) r.family_id now "user_disabled"
        (mark_used-Within P rows r.id now h)
  Outcome-known P o ch d now meta rows r out m h
        (renewed f stored tokens live early found active made) =
      subst (λ s. Within P s) (sym made.rows_are)
        (All-append (λ q. P q.family_id) (mark_used rows r.id now) _
          (mark_used-Within P rows r.id now h) (All-In (λ q. P q.family_id) rows r h m, tt))

  rotate-IsSound :
      (w : World) (o : Outage) (ch : Chance) (d : Directory) (now : ℕ) (meta : TokenMeta)
      (token : String)
      → IsSound w
      → IsSound (with_rows w (rotate c cfg o ch d w.rows now meta token).0)
  rotate-IsSound w o ch d now meta token sound =
      elim (rotate-IsCase c cfg o ch d now meta w.rows token) [
        | inl (e, q) ↦ rw q (record { single = sound.single; known = sound.known })
        | inr (hash, r, h, found, out) ↦
            let m = (find_by_hash-In w.rows hash found).0 in
            record {
              single = Outcome-single o ch d now meta w.rows r _ m sound.single out;
              known =
                  Outcome-known (λ f. In f w.families) o ch d now meta w.rows r _ m sound.known out;
            }
      ]

  -- Revoke leaves the rows or revokes one family.
  pub revoke-cases :
      (o : Outage) (rows : List RefreshRecord) (now : ℕ) (token reason : String)
      → ((revoke c cfg o rows now token reason).0 ≡ rows)
        ⊎ ((family : String) × (why : String) × ((revoke c cfg o rows now token reason).0
              ≡ revoke_family rows family now why))
  unfolding revoke
  revoke-cases o rows now token reason = hashed (hash_opaque_refresh_token c cfg token)
    where
      Left : List RefreshRecord × Result AuthError (Unit {0}) → Type 0
      Left out =
          (out.0 ≡ rows)
          ⊎ ((family : String) × (why : String) × (out.0 ≡ revoke_family rows family now why))

      found :
          (r? : Option RefreshRecord) → Left (revoke_found c cfg o.revoke_fails rows now reason r?)
      found none = inl refl
      found (some r) = if_elim Left o.revoke_fails (λ _. inl refl) (λ _. inr (r.family_id, _, refl))

      hashed : (m : Result AuthError String) → Left (revoke_hashed c cfg o rows now reason m)
      hashed (err e) = inl refl
      hashed (ok hash) =
          if_elim Left o.find_fails (λ _. inl refl) (λ _. found (find_by_hash rows hash))

  revoke-IsSound :
      (w : World) (o : Outage) (now : ℕ) (token reason : String)
      → IsSound w
      → IsSound (with_rows w (revoke c cfg o w.rows now token reason).0)
  revoke-IsSound w o now token reason sound = elim (revoke-cases o w.rows now token reason) [
    | inl q ↦ rw q (record { single = sound.single; known = sound.known })
    | inr (family, why, q) ↦ rw q (record {
      single = λ f. omega (arith, sound.single f, live_count-revoke_family f w.rows family now why);
      known = revoke_family-Within (λ f. In f w.families) w.rows family now why sound.known;
    })
  ]

  issue-IsSound :
      (w : World) (o : Outage) (ch : Chance) (now : ℕ) (meta : TokenMeta) (f : Found)
      (family : String) (stored : List RefreshRecord) (tokens : IssuedTokens)
      → ch.family ≡ some family
      → (¬ In family w.families)
      → issue_for_user c cfg o ch w.rows now meta f ≡ ok (stored, tokens)
      → IsSound w
      → IsSound (begun w stored family)
  issue-IsSound w o ch now meta f family stored tokens drawn new done sound =
      let made = issue_for_user-IsMinted c cfg o ch w.rows now meta f family drawn done in
      record {
        single = λ g.
            rw made.rows_are
              (rw (live_count-inserted g w.rows ch.row_id _) (fresh_single w family g new sound));
        known =
            subst (λ s. All (λ r. In r.family_id (family ∷ w.families)) s) (sym made.rows_are)
              (All-append (λ r. In r.family_id (family ∷ w.families)) w.rows _
                (All-mono (λ r m. inr m) w.rows sound.known) (inl refl, tt));
      }

  Step-IsSound : (w v : World) → Step c cfg w v → IsSound w → IsSound v
  Step-IsSound w v (issues o ch now meta f family stored tokens drawn new done) sound =
      issue-IsSound w o ch now meta f family stored tokens drawn new done sound
  Step-IsSound w v (rotates o ch d now meta token) sound =
      rotate-IsSound w o ch d now meta token sound
  Step-IsSound w v (revokes o now token reason) sound = revoke-IsSound w o now token reason sound
  Step-IsSound w v (revokes_all user at reason) sound = record {
    single = λ f. omega (arith, sound.single f, live_count-revoke_all f w.rows user at reason);
    known = revoke_all-Within (λ f. In f w.families) w.rows user at reason sound.known;
  }
  Step-IsSound w v (expires now) sound = record {
    single = λ f. omega (arith, sound.single f, live_count-delete_expired f w.rows now);
    known = delete_expired-Within (λ f. In f w.families) w.rows now sound.known;
  }

  -- Whichever of the calls are made from the empty table, one after the other and each failing or
  -- not: no family ever has two rows that are neither used nor revoked, and every row belongs to a
  -- family that was begun by a login. The identifier drawn for a new family is assumed to be new.
  pub Steps-IsSound : (w : World) → Steps c cfg empty_world w → IsSound w
  unfolding live_count
  Steps-IsSound w here = record { single = λ family. none_live family; known = tt }
    where
      none_live : (family : String) → live_count family [] ≤ 1
      none_live family = omega (arith, tally-none (is_live_in family) [] tt)
  Steps-IsSound w (after {v} run step) = Step-IsSound v w step (Steps-IsSound v run)
