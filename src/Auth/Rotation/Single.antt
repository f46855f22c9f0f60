-- ===== src/Auth/Rotation/Single.antt =====
-- The claim of a refresh token in `refreshTokens` (auth.service.ts), across whole histories.
use veillend.Base.{
  ℕ, ◌≡◌, ◌≢◌, sym, subst, Bool, false, ◌&&◌, ◌==◌, List, All, All-All, All-map, arith, ok, err,
  Ensures, Ensures->>=_first, Ensures->>_first, Ensures->>=_last, Ensures->>_last, Ensures-throw,
  Ensures-transaction, Ensures-try_catch, Ensures-modify, Keeps->>=, Keeps->>, Keeps-pure,
  Keeps-modify, running, count_where-eq-zero, update_many-All_of,
}
use veillend.Auth.Data.{
  Client, RefreshToken, is_live, Crypto, Draws, Db, AuthError, claim_failed, unauthorized,
  refresh_token_compromised, SessionResult,
}
use veillend.Auth.Refresh.{Presented, redeem, rotate_tx, claim_token, compromised, on_claim_error}
use veillend.Auth.History.{
  Call, asks_nonce, logs_in, presents, redeems, validates, logs_out, revokes, revokes_all,
  cleans_up, Request, run,
}
use veillend.Auth.History.Policy.{Policy, Kept, Admits, AdmitsDraws}
use veillend.Auth.History.RefreshKept.{update_session-Kept, issue-Kept}
use veillend.Auth.History.Run.{run-Kept}

-- No request draws this row id for a new refresh token.
abbrev pub DrawsOtherToken : ℕ → Call → Type 0
DrawsOtherToken id (logs_in d wallet nonce signature) = d.refresh_id ≢ id
DrawsOtherToken id (redeems d p) = d.refresh_id ≢ id
DrawsOtherToken id _ = Unit

abbrev live_as : ℕ → RefreshToken → Bool
live_as id r = r.id == id && is_live r

-- No row with this id is still unrevoked.
spent : ℕ → Policy
spent id = record {
  NonceOk = λ n. Unit;
  TokenOk = λ r. live_as id r ≡ false;
  JtiOk = λ j. Unit;
  used_ok = λ n h. tt;
  revoked_ok = λ r t h. ground arith;
  jti_revoked_ok = λ j t h. tt;
}

new_row : (id : ℕ) (d : Draws) → d.refresh_id ≢ id → AdmitsDraws (spent id) d
unfolding spent
new_row id d ne = (λ r e. ground arith, λ j e. tt)

admitted : (id : ℕ) (q : Call) → DrawsOtherToken id q → Admits (spent id) q
unfolding spent
admitted id (asks_nonce i n w) h = λ n' e. tt
admitted id (logs_in d wallet nonce signature) h = new_row id d h
admitted id (presents raw) h = tt
admitted id (redeems d p) h = new_row id d h
admitted id (validates token) h = tt
admitted id (logs_out i w) h = tt
admitted id (revokes i u w) h = tt
admitted id (revokes_all u w k) h = tt
admitted id cleans_up h = tt

claim_token-spent : (id now : ℕ) → Ensures (Kept (spent id)) (claim_token id now)
unfolding claim_token spent
claim_token-spent id now = Ensures->>=_last (Kept (spent id)) _ λ tokens.
    Ensures->>_last (Kept (spent id)) _ (
      Ensures-modify (Kept (spent id)) _ λ db. (
        All-All _ db.nonces (λ n. tt),
        update_many-All_of (λ r. live_as id r ≡ false) (live_as id) _ db.refresh_tokens
            (λ r h. ground arith) (λ r h. h),
        All-All _ db.jtis (λ j. tt),
      ))

on_claim_error-Ensures :
    {A : Type 0} (Q : Db → Type 0) (r : RefreshToken) (now : ℕ) (who : Client) (e : AuthError)
    → Ensures Q (on_claim_error {A = A} r now who e)
unfolding on_claim_error compromised
on_claim_error-Ensures Q r now who claim_failed = Ensures->>_last Q _ (Ensures-throw Q _)
on_claim_error-Ensures Q r now who _ = Ensures-throw Q _

redeem-spent :
    (c : Crypto) (d : Draws) (p : Presented) (now : ℕ) (who : Client)
    → d.refresh_id ≢ p.existing.id
    → Ensures (Kept (spent p.existing.id)) (redeem c d p now who)
unfolding redeem rotate_tx on_claim_error compromised
redeem-spent c d p now who ne =
    let k = Kept (spent p.existing.id) in
    Ensures->>=_first k
      (Ensures-try_catch k
        (Ensures-transaction k (
          Ensures->>_first k (claim_token-spent _ now) (
            Keeps->>= k (issue-Kept (spent p.existing.id) c d now _ (new_row _ d ne))
              λ pair. Keeps->> k (update_session-Kept (spent p.existing.id) _ _) (Keeps-pure k _))))
        (on_claim_error-Ensures k p.existing now who))
      λ r. Keeps->> k (Keeps-modify k _ (λ db h. h)) (Keeps-pure k r)

redeem_of_spent :
    (c : Crypto) (d : Draws) (p : Presented) (now : ℕ) (who : Client) (db : Db)
    → Kept (spent p.existing.id) db
    → (redeem c d p now who db).0 ≡ err (unauthorized refresh_token_compromised)
unfolding redeem rotate_tx claim_token on_claim_error compromised running spent
redeem_of_spent c d p now who db h =
    ground (arith, count_where-eq-zero (live_as p.existing.id) db.refresh_tokens h.1)

-- A refresh token that was redeemed is not redeemed again: after `redeem` returned a new pair, and
-- after any further requests none of which draws the redeemed row's id for a new row, redeeming the
-- same row again is refused as compromised, whatever else the second attempt presents.
pub redeem_once :
    (c : Crypto) (d d' : Draws) (p p' : Presented) (now later : ℕ) (who who' : Client) (db : Db)
    (qs : List Request) (result : SessionResult)
    → (redeem c d p now who db).0 ≡ ok result
    → d.refresh_id ≢ p.existing.id
    → All (λ q. DrawsOtherToken p.existing.id q.call) qs
    → p'.existing.id ≡ p.existing.id
    → (redeem c d' p' later who' (run c qs (redeem c d p now who db).1)).0
      ≡ err (unauthorized refresh_token_compromised)
redeem_once c d d' p p' now later who who' db qs result done fresh others same =
    redeem_of_spent c d' p' later who' _ (
      subst (λ id. Kept (spent id) (run c qs (redeem c d p now who db).1)) (sym same)
        (run-Kept (spent p.existing.id) c qs _
          (All-map _ _ qs (λ q. admitted p.existing.id q.call) others)
          ((redeem-spent c d p now who fresh).apply db result done)))
