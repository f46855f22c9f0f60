-- ===== src/Funds/Withdrawals/Signing/Once.antt =====
-- `signWithdrawal` of withdrawals.service.ts across whole histories.
use veillend.Base.{
  ℕ, ◌≡◌, true, false, some, inl, inr, Option-cases, List, [], ◌∷◌, ◌==◌, ◌&&◌, arith, ok, running,
  find_first, update_many, is_some,
}
use veillend.Funds.Data.{Db, WithdrawNonce, Config}
use veillend.Funds.Withdrawals.{Solvency, owned_withdrawal, update_withdrawal, find_owned}
use veillend.Funds.Withdrawals.Lifecycle.{
  throw_timelocked, degrade_unless, reject_unless, has_used_nonce, use_nonces, update_with_hash,
  check_signing, finish_signing,
}
use veillend.Funds.Withdrawals.History.{Request, run}
use veillend.Funds.Withdrawals.Signing.Requests.{Used}
use veillend.Funds.Withdrawals.Signing.Run.{run-Used}

used-after :
    (id : ℕ) (ns : List WithdrawNonce) {n : WithdrawNonce}
    → find_first (λ (n : WithdrawNonce). n.withdrawal_id == id) ns ≡ some n
    → is_some (
        find_first
          (λ (n : WithdrawNonce). n.withdrawal_id == id && n.used)
          (update_many (λ n. n.withdrawal_id == id) (λ n. record n { used = true }) ns))
      ≡ true
unfolding find_first update_many
used-after id [] e = cc
used-after id (n ∷ ns) {n = m} e = ground (arith, used-after id ns {n = m})

finished-nonces :
    (id xdr hash now : ℕ) (db : Db)
    → (finish_signing id xdr hash now db).1.nonces
      ≡ update_many (λ n. n.withdrawal_id == id) (λ n. record n { used = true }) db.nonces
unfolding finish_signing running update_with_hash update_withdrawal use_nonces
finished-nonces id xdr hash now db = ground arith

finished-Used :
    (id xdr hash now : ℕ) (db : Db) (n : WithdrawNonce)
    → find_first (λ n. n.withdrawal_id == id) db.nonces ≡ some n
    → Used id (finish_signing id xdr hash now db).1
unfolding has_used_nonce
finished-Used id xdr hash now db n has_nonce =
    rw (finished-nonces id xdr hash now db) (used-after id db.nonces has_nonce)

checked-unused :
    (check : Solvency) (id user xdr now : ℕ) (db : Db)
    → (check_signing check id user xdr now db).0 ≡ ok tt
    → has_used_nonce id db ≡ false
unfolding check_signing owned_withdrawal running throw_timelocked degrade_unless reject_unless
checked-unused check id user xdr now db done =
    elim (Option-cases (find_owned id user db.withdrawals)) [
      | inl e ↦ ground arith
      | inr (w, e) ↦ ground arith
    ]

not_signed_again :
    (check : Solvency) (id user xdr now : ℕ) (db : Db)
    → Used id db
    → ¬ ((check_signing check id user xdr now db).0 ≡ ok tt)
not_signed_again check id user xdr now db used done =
    let unused = checked-unused check id user xdr now db done in cc

-- Once a sign request has come to its writes, every sign request for that withdrawal whose checks come
-- later is refused, where the withdrawal has a nonce: whatever requests and watcher cycles come in
-- between, also checks and writes of other sign requests, and a return to DRAFT by
-- `revalidateWithdrawal`.
pub signed_once :
    (cfg : Config) (sha : ℕ → ℕ) (check' during : Solvency) (id user' xdr xdr' hash now later : ℕ)
    (qs : List Request) (db : Db) (n : WithdrawNonce)
    → find_first (λ n. n.withdrawal_id == id) db.nonces ≡ some n
    → ¬ (
        (check_signing check' id user' xdr' later
          (run cfg sha during qs (finish_signing id xdr hash now db).1)).0
        ≡ ok tt)
signed_once cfg sha check' during id user' xdr xdr' hash now later qs db n has_nonce =
    not_signed_again check' id user' xdr' later _
      (run-Used id cfg sha during qs _ (finished-Used id xdr hash now db n has_nonce))
