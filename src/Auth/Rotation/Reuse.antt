-- ===== src/Auth/Rotation/Reuse.antt =====
-- `handleRefreshReuse` of auth.service.ts and `validateJtiToken` of jwt.strategy.ts, across
-- histories.
use veillend.Base.{
  ℕ, ◌≡◌, ◌≢◌, refl, sym, ap, ◌∙◌, Bool, true, false, ◌&&◌, ◌==◌, ==_iff, Option, none, some, inl,
  inr, Bool-cases, Option-cases, List, All, All-All, All-map, arith, err, running, contains,
  find_first, find_first-holds, find_first-All, update_many-All_of,
}
use mathlib.Core.Bool.{false≢true}
use veillend.Auth.Data.{
  Client, User, RefreshToken, JtiEntry, is_live, Crypto, Draws, Db, unauthorized,
  refresh_token_compromised, session_not_found,
}
use veillend.Auth.Refresh.{
  present, check_presented, compromised, handle_refresh_reuse, log_reuse, revoke_all_of,
  revoke_family, revoke_jtis, family_jtis,
}
use veillend.Auth.Strategy.{validate_jti_token}
use veillend.Auth.History.{
  Call, asks_nonce, logs_in, presents, redeems, validates, logs_out, revokes, revokes_all,
  cleans_up, Request, run,
}
use veillend.Auth.History.Policy.{Policy, Kept, Admits, AdmitsDraws}
use veillend.Auth.History.Run.{run-Kept}

-- No request draws this jti for a new access token.
abbrev pub DrawsOtherJti : ℕ → Call → Type 0
DrawsOtherJti jti (logs_in d wallet nonce signature) = d.jti ≢ jti
DrawsOtherJti jti (redeems d p) = d.jti ≢ jti
DrawsOtherJti jti _ = Unit

abbrev not_revoked : Option ℕ → Bool
not_revoked none = true
not_revoked (some t) = false

abbrev valid_as : ℕ → JtiEntry → Bool
valid_as jti j = j.jti == jti && not_revoked j.revoked_at

-- No row of this jti is still unrevoked.
barred : ℕ → Policy
barred jti = record {
  NonceOk = λ n. Unit;
  TokenOk = λ r. Unit;
  JtiOk = λ j. valid_as jti j ≡ false;
  used_ok = λ n h. tt;
  revoked_ok = λ r t h. tt;
  jti_revoked_ok = λ j t h. ground arith;
}

new_row : (jti : ℕ) (d : Draws) → d.jti ≢ jti → AdmitsDraws (barred jti) d
unfolding barred
new_row jti d ne = (λ r e. tt, λ j e. ground arith)

admitted : (jti : ℕ) (q : Call) → DrawsOtherJti jti q → Admits (barred jti) q
unfolding barred
admitted jti (asks_nonce i n w) h = λ n' e. tt
admitted jti (logs_in d wallet nonce signature) h = new_row jti d h
admitted jti (presents raw) h = tt
admitted jti (redeems d p) h = new_row jti d h
admitted jti (validates token) h = tt
admitted jti (logs_out i w) h = tt
admitted jti (revokes i u w) h = tt
admitted jti (revokes_all u w k) h = tt
admitted jti cleans_up h = tt

log_reuse-tables :
    (o : Option User) (who : Client) (now : ℕ) (db : Db)
    → ((log_reuse o who now db).refresh_tokens ≡ db.refresh_tokens)
      × ((log_reuse o who now db).jtis ≡ db.jtis)
unfolding log_reuse
log_reuse-tables none who now db = (refl, refl)
log_reuse-tables (some u) who now db = (refl, refl)

-- Presenting a revoked token ends in the compromise response.
present_of_revoked :
    (c : Crypto) (raw now : ℕ) (who : Client) (db : Db) (r : RefreshToken)
    → find_first (λ t. t.token_hash == c.sha256_hex raw) db.refresh_tokens ≡ some r
    → is_live r ≡ false
    → present c raw now who db ≡ (
      err (unauthorized refresh_token_compromised),
      handle_refresh_reuse r.user_id r.family_id now who db,
    )
unfolding present check_presented compromised running
present_of_revoked c raw now who db r found dead = ground arith

barred_of_revoked :
    (jti now : ℕ) (ids : List ℕ) (rows : List JtiEntry)
    → contains jti ids ≡ true
    → All (λ j. valid_as jti j ≡ false) (revoke_jtis ids now rows)
unfolding revoke_jtis
barred_of_revoked jti now ids rows held =
    update_many-All_of (λ j. valid_as jti j ≡ false) _ _ rows (λ j h. ground arith)
      λ j h. elim (Bool-cases (j.jti == jti)) [
        | inl same ↦
            let e : j.jti ≡ jti = (==_iff _ _).0 same in
            absurd (false≢true (sym (rw e at h) ∙ held))
        | inr other ↦ rw other refl
      ]

refused_of_barred :
    (jti sid wallet now : ℕ) (db : Db)
    → Kept (barred jti) db
    → validate_jti_token jti sid wallet now db ≡ err (unauthorized session_not_found)
unfolding validate_jti_token barred
refused_of_barred jti sid wallet now db h =
    elim (Option-cases (find_first (λ (j : JtiEntry). j.jti == jti) db.jtis)) [
      | inl e ↦ rw (e, validate_jti_token) refl
      | inr (j, e) ↦
          let held = find_first-holds _ db.jtis e in
          let row = find_first-All (λ j. valid_as jti j ≡ false) _ db.jtis h.2 e in
          rw (e, validate_jti_token) (ground arith)
    ]

replay-tables :
    (c : Crypto) (raw now : ℕ) (who : Client) (db : Db) (r : RefreshToken)
    → find_first (λ t. t.token_hash == c.sha256_hex raw) db.refresh_tokens ≡ some r
    → is_live r ≡ false
    → ((present c raw now who db).1.refresh_tokens
        ≡ revoke_family r.family_id now db.refresh_tokens)
      × ((present c raw now who db).1.jtis
          ≡ revoke_jtis (family_jtis r.family_id db.refresh_tokens) now db.jtis)
unfolding handle_refresh_reuse revoke_all_of
replay-tables c raw now who db r found dead =
    rw (present_of_revoked c raw now who db r found dead) (
      log_reuse-tables (find_first (λ u. u.id == r.user_id) db.users) who now
        (revoke_all_of r.family_id now db))

-- When a revoked refresh token is presented, the request is refused as a compromise, and no refresh
-- token of its family is left unrevoked.
pub reuse_revokes_family :
    (c : Crypto) (raw now : ℕ) (who : Client) (db : Db) (r : RefreshToken)
    → find_first (λ t. t.token_hash == c.sha256_hex raw) db.refresh_tokens ≡ some r
    → is_live r ≡ false
    → ((present c raw now who db).0 ≡ err (unauthorized refresh_token_compromised))
      × All
          (λ t. (t.family_id == r.family_id && is_live t) ≡ false)
          (present c raw now who db).1.refresh_tokens
unfolding revoke_family
reuse_revokes_family c raw now who db r found dead = (
  ap (λ x. x.0) (present_of_revoked c raw now who db r found dead),
  rw ((replay-tables c raw now who db r found dead).0) (
      update_many-All_of (λ t. (t.family_id == r.family_id && is_live t) ≡ false) _ _
        db.refresh_tokens (λ t h. ground arith) (λ t h. h)),
)

-- After a revoked refresh token has been presented, no access token whose jti belongs to a refresh
-- token of the same family passes `validateJtiToken`: not then, and not after any later requests
-- that do not draw that jti anew.
pub reuse_locks_out :
    (c : Crypto) (raw now : ℕ) (who : Client) (db : Db) (r : RefreshToken) (jti : ℕ)
    (qs : List Request) (sid wallet later : ℕ)
    → find_first (λ t. t.token_hash == c.sha256_hex raw) db.refresh_tokens ≡ some r
    → is_live r ≡ false
    → contains jti (family_jtis r.family_id db.refresh_tokens) ≡ true
    → All (λ q. DrawsOtherJti jti q.call) qs
    → validate_jti_token jti sid wallet later (run c qs (present c raw now who db).1)
      ≡ err (unauthorized session_not_found)
unfolding barred
reuse_locks_out c raw now who db r jti qs sid wallet later found dead held others =
    refused_of_barred jti sid wallet later _ (
      run-Kept (barred jti) c qs _ (All-map _ _ qs (λ q. admitted jti q.call) others) (
        All-All _ _ (λ n. tt),
        All-All _ _ (λ t. tt),
        rw ((replay-tables c raw now who db r found dead).1)
            (barred_of_revoked jti now _ db.jtis held),
      ))
