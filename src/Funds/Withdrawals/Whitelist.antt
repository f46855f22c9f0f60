-- ===== src/Funds/Withdrawals/Whitelist.antt =====
-- `addToWhitelist` and `removeFromWhitelist` of withdrawals.service.ts, without the notification.
use veillend.Base.{
  ℕ, ◌==◌, ◌&&◌, not, Bool, Option, none, some, ◌∷◌, is_some, if◌then◌else◌, Action, pure, gets,
  modify, throw_if, ◌>>=◌, ◌>>◌, find_first, delete_many,
}
use veillend.Funds.Data.{
  WhitelistEntry, Db, FundsError, whitelist_not_found, already_whitelisted, Config,
}
use veillend.Funds.Withdrawals.Create.{find_entry, timelock_end}

-- `instantLimitUsd || null`.
abbrev pub nonzero : Option ℕ → Option ℕ
nonzero o = elim o [ none ↦ none | some n ↦ if n == 0 then none else some n ]

abbrev pub new_entry : Config → ℕ → ℕ → ℕ → Bool → Option ℕ → ℕ → WhitelistEntry
new_entry cfg id user_id address instant limit now = record {
  id = id;
  user_id = user_id;
  address = address;
  timelock_until = if instant then none else some (timelock_end cfg now);
  is_instant_approved = instant;
  instant_limit_usd = nonzero limit;
}

unfoldable pub add_to_whitelist :
    Config → ℕ → ℕ → ℕ → Bool → Option ℕ → ℕ → Action Db FundsError WhitelistEntry
add_to_whitelist cfg id user_id address instant limit now = do
  found ← gets (λ db. find_entry user_id address db.whitelist)
  throw_if (is_some found) already_whitelisted
  let entry = new_entry cfg id user_id address instant limit now
  modify λ db. record db { whitelist = entry ∷ db.whitelist }
  pure entry

unfoldable pub remove_from_whitelist : ℕ → ℕ → Action Db FundsError (Unit {0})
remove_from_whitelist user_id id = do
  entries ← gets (λ db. db.whitelist)
  throw_if (not (is_some (find_first (λ e. e.id == id && e.user_id == user_id) entries)))
      whitelist_not_found
  modify λ db. record db { whitelist = delete_many (λ e. e.id == id) db.whitelist }
