-- ===== src/Auth/Nonces/Latest.antt =====
-- `generateNonce` followed by `verifyWallet` (auth.service.ts).
use veillend.Base.{
  ℕ, Option-cases, inl, inr, ◌+◌, ◌<◌, ◌≡◌, ◌≢◌, refl, true, false, ◌==◌, All, arith, ok, err,
  running, count_where, count_where-eq-zero, update_many-All_of, find_first,
}
use veillend.Auth.Data.{
  User, Client, Crypto, Draws, Db, unauthorized, authentication_failed, SessionResult,
}
use veillend.Auth.Tokens.{new_pair, nonce_ttl_ms, issue_token_pair, update_session}
use veillend.Auth.Login.{
  generate_nonce, replace_nonces, verify_wallet, login_tx, claimable, login_params, login_result,
}

module _ (c : Crypto) (d : Draws) (id nonce now wallet signature later : ℕ) (who who' : Client)
    (db : Db) where
  replaced-unclaimable :
      (old : ℕ)
      → old ≢ nonce
      → All
          (λ n. claimable wallet old later n ≡ false)
          (replace_nonces id nonce now wallet db).nonces
  unfolding replace_nonces claimable
  replaced-unclaimable old ne = (
    ground arith,
    update_many-All_of (λ n. claimable wallet old later n ≡ false) _ _ db.nonces
        (λ n h. ground arith) (λ n h. ground arith),
  )

  -- After `generateNonce`, a login with any other nonce of the wallet is refused, also with one
  -- that was drawn before and has not expired.
  pub older_nonce_refused :
      (old : ℕ)
      → old ≢ nonce
      → (verify_wallet c d wallet old signature later who'
          (generate_nonce id nonce now wallet who db).1).0
        ≡ err (unauthorized authentication_failed)
  unfolding verify_wallet login_tx running generate_nonce
  older_nonce_refused old ne = ground (
    arith,
    count_where-eq-zero (claimable wallet old later) (replace_nonces id nonce now wallet db).nonces
        (replaced-unclaimable old ne),
  )

  -- A login with the nonce that was just generated, signed by the wallet and before five minutes
  -- are over, succeeds: it opens the session that it drew, for that wallet.
  pub latest_nonce_accepted :
      c.verify_signature wallet nonce signature ≡ true
      → later < now + nonce_ttl_ms
      → (result : SessionResult) × ((verify_wallet c d wallet nonce signature later who'
            (generate_nonce id nonce now wallet who db).1).0
          ≡ ok result)
        × (result.session_id ≡ d.session_id)
        × (result.wallet_address ≡ wallet)
  unfolding verify_wallet login_tx running generate_nonce claimable replace_nonces count_where
      update_session issue_token_pair
  latest_nonce_accepted signed soon =
      elim (Option-cases (find_first (λ (u : User). u.wallet_address == wallet) db.users)) [
        | inl e ↦ (
          login_result d d.user_id wallet
              (new_pair c d later (login_params d d.user_id wallet who')),
          ground arith,
          refl,
          refl,
        )
        | inr (u, e) ↦ (
          login_result d u.id wallet (new_pair c d later (login_params d u.id wallet who')),
          ground arith,
          refl,
          refl,
        )
      ]
