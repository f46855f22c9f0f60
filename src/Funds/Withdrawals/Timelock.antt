-- ===== src/Funds/Withdrawals/Timelock.antt =====
-- `createWithdrawal` followed by `signWithdrawal` (withdrawals.service.ts).
use veillend.Base.{
  ℕ, ◌<◌, ◌≡◌, refl, Option, none, some, arith, inl, inr, Option-cases, ok, err, running,
  find_first, ==_refl,
}
use veillend.Funds.Data.{draft, Db, Response, withdrawal_made, timelocked, Config, Withdrawal}
use veillend.Funds.Deposits.{required_confirmations, replay_of, store_key, find_asset}
use veillend.Funds.Withdrawals.{Solvency, find_owned, owned_withdrawal}
use veillend.Funds.Withdrawals.Create.{
  CreateWithdrawal, WithdrawalDraws, timelock_end, find_entry, approve, new_withdrawal, create_tx,
  store_nonce, store_withdrawal, create_withdrawal, make_or_replay, make_withdrawal,
}
use veillend.Funds.Withdrawals.Lifecycle.{active_timelock, throw_timelocked, sign_withdrawal}

module _ (cfg : Config) (sha : ℕ → ℕ) (check : Solvency) (d : WithdrawalDraws) (user wallet now : ℕ)
    (dto : CreateWithdrawal) (key : Option ℕ) (db : Db) (r : Response) where
  created :
      find_entry user dto.destination_address db.whitelist ≡ none
      → (make_withdrawal cfg sha check d user wallet dto key now db).0 ≡ ok r
      → (r ≡ withdrawal_made d.id draft d.nonce (some (timelock_end cfg now)))
        × ((w : Withdrawal) × (find_owned d.id user
                (make_withdrawal cfg sha check d user wallet dto key now db).1.withdrawals
              ≡ some w)
            × (w.status ≡ draft)
            × (w.timelock_until ≡ some (timelock_end cfg now)))
  unfolding make_withdrawal create_tx store_nonce store_withdrawal running find_owned find_first
      approve store_key
  created unknown done = elim (Option-cases (find_asset dto.asset_address db)) [
    | inl e ↦ ground arith
    | inr (asset, e) ↦ (
      ground arith,
      (
        new_withdrawal d user wallet asset.id
            (required_confirmations asset.id cfg.withdrawal_min_confirmations db)
            (approve cfg now none) dto key,
        ground (arith, ==_refl d.id, ==_refl user),
        refl,
        refl,
      ),
    )
  ]

  kept_waiting :
      (check' : Solvency) (xdr hash later : ℕ) (db : Db) (w : Withdrawal)
      → find_owned d.id user db.withdrawals ≡ some w
      → w.status ≡ draft
      → w.timelock_until ≡ some (timelock_end cfg now)
      → later < timelock_end cfg now
      → sign_withdrawal check' d.id user xdr hash later db
        ≡ (err (timelocked (timelock_end cfg now)), db)
  unfolding sign_withdrawal owned_withdrawal running throw_timelocked active_timelock
  kept_waiting check' xdr hash later db w found s t early = ground arith

  -- A created withdrawal to an address without a whitelist entry answers DRAFT with a timelock of
  -- the configured hours, and until that is over its user cannot sign it: signing answers the
  -- timelock and changes nothing, whatever the solvency check says.
  pub unknown_address_waits :
      (check' : Solvency) (xdr hash later : ℕ)
      → replay_of key now db ≡ none
      → find_entry user dto.destination_address db.whitelist ≡ none
      → (create_withdrawal cfg sha check d user wallet dto key now db).0 ≡ ok r
      → later < timelock_end cfg now
      → let db' = (create_withdrawal cfg sha check d user wallet dto key now db).1 in
        (r ≡ withdrawal_made d.id draft d.nonce (some (timelock_end cfg now)))
        × (sign_withdrawal check' d.id user xdr hash later db'
            ≡ (err (timelocked (timelock_end cfg now)), db'))
  unfolding create_withdrawal make_or_replay running
  unknown_address_waits check' xdr hash later fresh unknown done early =
      let (e, (w, found, s, t)) = created unknown (rw fresh at done) in
      (e, rw fresh (kept_waiting check' xdr hash later _ w found s t early))
