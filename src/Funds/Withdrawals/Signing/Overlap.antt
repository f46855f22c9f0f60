-- ===== src/Funds/Withdrawals/Signing/Overlap.antt =====
-- Two requests of `signWithdrawal` (withdrawals.service.ts) whose checks come before the writes of
-- either.
use veillend.Base.{
  ℕ, ◌≡◌, refl, true, false, not, none, some, List, [], ◌∷◌, ◌==◌, ◌&&◌, arith, ok, running,
  find_first, update_many,
}
use veillend.Funds.Data.{Db, Withdrawal, draft, signed}
use veillend.Funds.Withdrawals.{Solvency, has, owned_withdrawal, update_withdrawal, find_owned}
use veillend.Funds.Withdrawals.Lifecycle.{
  active_timelock, throw_timelocked, degrade_unless, reject_unless, has_used_nonce, use_nonces,
  update_with_hash, check_signing, finish_signing,
}

-- No other withdrawal has the hash.
abbrev pub IsFree : (id hash : ℕ) → Db → Type 0
IsFree id hash db = find_first (λ w. has hash w.tx_hash && not (w.id == id)) db.withdrawals ≡ none

free-update :
    (id hash : ℕ) (f : Withdrawal → Withdrawal) (ws : List Withdrawal)
    → ((w : Withdrawal) → (f w).id ≡ w.id)
    → find_first (λ w. has hash w.tx_hash && not (w.id == id)) ws ≡ none
    → find_first (λ w. has hash w.tx_hash && not (w.id == id)) (update_many (λ w. w.id == id) f ws)
      ≡ none
unfolding find_first update_many
free-update id hash f [] same h = refl
free-update id hash f (w ∷ ws) same h = ground (arith, free-update id hash f ws same, same w)

owned-update :
    (id user : ℕ) (f : Withdrawal → Withdrawal) (ws : List Withdrawal) {w : Withdrawal}
    → ((w : Withdrawal) → (f w).id ≡ w.id)
    → ((w : Withdrawal) → (f w).user_id ≡ w.user_id)
    → find_owned id user ws ≡ some w
    → find_owned id user (update_many (λ w. w.id == id) f ws) ≡ some (f w)
unfolding find_owned find_first update_many
owned-update id user f [] same own e = cc
owned-update id user f (w ∷ ws) {w = v} same own e =
    ground (arith, owned-update id user f ws {w = v} same own, same w, own w)

abbrev signing : (xdr hash now : ℕ) → Withdrawal → Withdrawal
signing xdr hash now w = record w {
  status = signed;
  xdr = xdr;
  tx_hash = some hash;
  signed_at = some now;
}

checked :
    (check : Solvency) (id user xdr now : ℕ) (db : Db) (w : Withdrawal)
    → find_owned id user db.withdrawals ≡ some w
    → w.status ≡ draft
    → w.timelock_until ≡ none
    → (check user w.asset_id w.amount_stroops db).allowed ≡ true
    → has_used_nonce id db ≡ false
    → check_signing check id user xdr now db ≡ (ok tt, db)
unfolding check_signing owned_withdrawal running active_timelock throw_timelocked degrade_unless
    reject_unless
checked check id user xdr now db w mine s t solvent unused = ground arith

finished :
    (id xdr hash now : ℕ) (db : Db)
    → IsFree id hash db
    → finish_signing id xdr hash now db
      ≡ (ok tt, update_withdrawal id (signing xdr hash now) (use_nonces id db))
unfolding finish_signing running update_with_hash use_nonces
finished id xdr hash now db free = ground arith

-- Two sign requests for a draft without a timelock, whose checks both come before the writes of
-- either, are both accepted, where the user is solvent and no nonce is used: both pass the checks,
-- both write, and the withdrawal is left SIGNED with the transaction of the second.
pub overlapping_both_signed :
    (check : Solvency) (id user xdr hash now xdr' hash' now' : ℕ) (db : Db) (w : Withdrawal)
    → find_owned id user db.withdrawals ≡ some w
    → w.status ≡ draft
    → w.timelock_until ≡ none
    → (check user w.asset_id w.amount_stroops db).allowed ≡ true
    → has_used_nonce id db ≡ false
    → IsFree id hash db
    → IsFree id hash' db
    → let first = finish_signing id xdr hash now db in
      let second = finish_signing id xdr' hash' now' first.1 in
      (check_signing check id user xdr now db ≡ (ok tt, db))
      × (check_signing check id user xdr' now' db ≡ (ok tt, db))
      × (first.0 ≡ ok tt)
      × (second.0 ≡ ok tt)
      × (find_owned id user first.1.withdrawals ≡ some (signing xdr hash now w))
      × (find_owned id user second.1.withdrawals
          ≡ some (signing xdr' hash' now' (signing xdr hash now w)))
unfolding update_withdrawal use_nonces
overlapping_both_signed check id user xdr hash now xdr' hash' now' db w mine s t solvent unused free
      free' =
    let one =
      owned-update id user (signing xdr hash now) db.withdrawals (λ x. refl) (λ x. refl) mine in
    let again = free-update id hash' (signing xdr hash now) db.withdrawals (λ x. refl) free' in
    rw (finished id xdr hash now db free) (
      rw
        (finished id xdr' hash' now'
          (update_withdrawal id (signing xdr hash now) (use_nonces id db)) again)
        (
          checked check id user xdr now db w mine s t solvent unused,
          checked check id user xdr' now' db w mine s t solvent unused,
          refl,
          refl,
          one,
          owned-update id user (signing xdr' hash' now') _ (λ x. refl) (λ x. refl) one,
        ))
