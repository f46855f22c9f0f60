-- ===== src/Funds/Deposits/Credit.antt =====
-- `updateDepositConfirmations` of deposits.service.ts and the balances of the positions.
use veillend.Base.{
  ap, find_first-update_many, ℕ, ◌+◌, ◌≤◌, leb, not, ok, err, running, ◌∙◌, ◌≡◌, refl, sym, subst,
  Bool, true, false, none, some, List, [], ◌∷◌, ◌==◌, ◌&&◌, arith, inl, inr, Option-cases, ℤ, pos,
  ◌+ℤ◌, find_first, update_many, if◌then◌else◌, find_first-holds, ==_iff,
}
use veillend.Funds.Data.{
  Db, Deposit, DepositStatus, pending, confirmed, orphaned, Position, out_of_range, fits_bigint,
}
use veillend.Funds.Deposits.{
  at_position, credit_rows, raised, is_pending, is_deep_enough, confirm_deposit, advance_deposit,
  note_seen, update_deposit_confirmations, update_found, mark_deposit_orphaned,
}

-- What the user holds of the asset, 0 where there is no position.
unfoldable pub balance : ℕ → ℕ → List Position → ℤ
balance user_id asset_id ps = elim (find_first (at_position user_id asset_id) ps) [
  | none ↦ pos 0
  | some p ↦ p.deposited_raw
]

abbrev pub same_position : ℕ → ℕ → ℕ → ℕ → Bool
same_position u a u' a' = u == u' && a == a'

pub balance-update :
    (u a u' a' : ℕ) (f : Position → Position) (ps : List Position)
    → ((p : Position) → (f p).user_id ≡ p.user_id)
    → ((p : Position) → (f p).asset_id ≡ p.asset_id)
    → find_first (at_position u' a') (update_many (at_position u a) f ps)
      ≡ elim (find_first (at_position u' a') ps) [
        | none ↦ none
        | some p ↦ some (if same_position u a u' a' then f p else p)
      ]
unfolding find_first update_many
balance-update u a u' a' f [] hu ha = refl
balance-update u a u' a' f (p ∷ ps) hu ha =
    ground (arith, balance-update u a u' a' f ps hu ha, hu p, ha p)

pub find-same :
    (u a u' a' : ℕ) (ps : List Position)
    → same_position u a u' a' ≡ true
    → find_first (at_position u' a') ps ≡ find_first (at_position u a) ps
unfolding find_first
find-same u a u' a' [] h = refl
find-same u a u' a' (p ∷ ps) h = ground (arith, find-same u a u' a' ps)

credit-balance :
    (u a n u' a' : ℕ) (ps : List Position)
    → balance u' a' (credit_rows u a n ps)
      ≡ (if same_position u a u' a' then balance u' a' ps +ℤ pos n else balance u' a' ps)
unfolding balance credit_rows ◌+ℤ◌ find_first
credit-balance u a n u' a' ps = elim (Option-cases (find_first (at_position u a) ps)) [
  | inl e ↦ ground (arith, find-same u a u' a' ps)
  | inr (p, e) ↦
      let up =
        balance-update u a u' a'
          (λ p. record p { deposited_raw = p.deposited_raw +ℤ pos n; is_stale = true }) ps
          (λ p. refl) (λ p. refl) in
      ground (arith, up, find-same u a u' a' ps)
]

raised-balance :
    (u a n : ℕ) (ps : List Position)
    → raised n (find_first (at_position u a) ps) ≡ balance u a ps +ℤ pos n
unfolding raised balance ◌+ℤ◌
raised-balance u a n ps = elim (Option-cases (find_first (at_position u a) ps)) [
  | inl e ↦ ground arith
  | inr (p, e) ↦ ground arith
]

deep_enough-leb :
    (d : Deposit) (ledger : ℕ)
    → is_deep_enough d ledger ≡ leb (d.ledger_seq + d.confirmations_required) ledger
unfolding is_deep_enough
deep_enough-leb d ledger = ground arith

-- A pending deposit is credited in full, to its user's position in its asset and to no other,
-- exactly where the ledger is at least its own plus the confirmations required of it, and the
-- position can hold the sum in 64 bits. Where it cannot, the update throws; otherwise it returns.
pub deposit_credited :
    (id now ledger user asset : ℕ) (seen : ℤ) (db : Db) (d : Deposit)
    → find_first (λ d. d.id == id) db.deposits ≡ some d
    → d.status ≡ pending
    → let deep = leb (d.ledger_seq + d.confirmations_required) ledger in
      let fits = fits_bigint (balance d.user_id d.asset_id db.positions +ℤ pos d.amount_stroops) in
      let r = update_deposit_confirmations id seen ledger now db in
      (r.0 ≡ (if deep && not fits then err out_of_range else ok tt))
      × (balance user asset r.1.positions ≡ (
          if (deep && fits) && same_position d.user_id d.asset_id user asset
          then balance user asset db.positions +ℤ pos d.amount_stroops
          else balance user asset db.positions))
unfolding update_deposit_confirmations update_found advance_deposit note_seen running
deposit_credited id now ledger user asset seen db d found waiting =
    let sum = raised-balance d.user_id d.asset_id d.amount_stroops db.positions in
    let depth = deep_enough-leb d ledger in
    (
      ground (arith, sum, depth),
      ground (
        arith,
        sum,
        depth,
        credit-balance d.user_id d.asset_id d.amount_stroops user asset db.positions,
      ),
    )

-- What may happen to a deposit after it was created.
pub data Event : Type 0 where
  seen_on_chain : (seen : ℤ) (ledger now : ℕ) → Event
  lost : Event

unfoldable pub happen : ℕ → List Event → Db → Db
happen id [] db = db
happen id (seen_on_chain seen ledger now ∷ es) db =
    happen id es (update_deposit_confirmations id seen ledger now db).1
happen id (lost ∷ es) db = happen id es (mark_deposit_orphaned id db)

abbrev IsSettled : ℕ → Db → Type 0
IsSettled id db =
    (d : Deposit) × (find_first (λ d. d.id == id) db.deposits ≡ some d) × (is_pending d ≡ false)

find-updated :
    (id : ℕ) (f : Deposit → Deposit) (ds : List Deposit) {d : Deposit}
    → ((d : Deposit) → (f d).id ≡ d.id)
    → find_first (λ d. d.id == id) ds ≡ some d
    → find_first (λ d. d.id == id) (update_many (λ d. d.id == id) f ds) ≡ some (f d)
find-updated id f xs h e =
    find_first-update_many (λ x. x.id == id) f xs (λ x. ap (λ n. n == id) (h x)) e

find-updated_at :
    (id key : ℕ) (f : Deposit → Deposit) (ds : List Deposit) {d : Deposit}
    → ((d : Deposit) → (f d).id ≡ d.id)
    → key ≡ id
    → find_first (λ d. d.id == id) ds ≡ some d
    → find_first (λ d. d.id == id) (update_many (λ d. d.id == key) f ds) ≡ some (f d)
find-updated_at id key f ds h same e = rw same (find-updated id f ds h e)

settled-update :
    (id ledger now : ℕ) (seen : ℤ) (db : Db)
    → IsSettled id db
    → (update_deposit_confirmations id seen ledger now db).1 ≡ db
unfolding update_deposit_confirmations update_found advance_deposit running
settled-update id ledger now seen db (d, e, s) = ground arith

settled-happen :
    (id : ℕ) (es : List Event) (db : Db)
    → IsSettled id db
    → (happen id es db).positions ≡ db.positions
unfolding happen mark_deposit_orphaned
settled-happen id [] db s = refl
settled-happen id (seen_on_chain seen ledger now ∷ es) db s =
    subst (λ db'. (happen id es db').positions ≡ db.positions)
      (sym (settled-update id ledger now seen db s)) (settled-happen id es db s)
settled-happen id (lost ∷ es) db (d, e, s) =
    settled-happen id es (mark_deposit_orphaned id db)
      (record d { status = orphaned }, find-updated id _ db.deposits (λ d. refl) e, refl)

id-of-found :
    (id : ℕ) (ds : List Deposit) {d : Deposit}
    → find_first (λ d. d.id == id) ds ≡ some d
    → d.id ≡ id
id-of-found id ds {d} found =
    (==_iff d.id id).0 (find_first-holds (λ (d : Deposit). d.id == id) ds found)

confirm_deposit-IsSettled :
    (id now : ℕ) (seen : ℤ) (db : Db) (d : Deposit)
    → d.id ≡ id
    → find_first (λ d. d.id == id) db.deposits ≡ some d
    → (confirm_deposit d seen now db).0 ≡ ok tt
    → IsSettled id (confirm_deposit d seen now db).1
unfolding confirm_deposit running
confirm_deposit-IsSettled id now seen db d same found done = (
  record d { confirmations_seen = seen; status = confirmed; credited_at = some now },
  ground (
    arith,
    find-updated_at id d.id
        (λ x. record x { confirmations_seen = seen; status = confirmed; credited_at = some now })
        db.deposits {d = d} (λ x. refl) same found,
  ),
  refl,
)

advance_deposit-IsSettled :
    (id ledger now : ℕ) (seen : ℤ) (db : Db) (d : Deposit) (status : DepositStatus)
    → d.status ≡ status
    → d.id ≡ id
    → find_first (λ d. d.id == id) db.deposits ≡ some d
    → (advance_deposit d status true seen now db).0 ≡ ok tt
    → IsSettled id (advance_deposit d status true seen now db).1
unfolding advance_deposit running
advance_deposit-IsSettled id ledger now seen db d pending e same found done =
    confirm_deposit-IsSettled id now seen db d same found done
advance_deposit-IsSettled id ledger now seen db d confirmed e same found done =
    (d, found, ground arith)
advance_deposit-IsSettled id ledger now seen db d orphaned e same found done =
    (d, found, ground arith)

update_deep :
    (id ledger now : ℕ) (seen : ℤ) (db : Db) (d : Deposit)
    → find_first (λ d. d.id == id) db.deposits ≡ some d
    → d.ledger_seq + d.confirmations_required ≤ ledger
    → update_deposit_confirmations id seen ledger now db
      ≡ advance_deposit d d.status true seen now db
unfolding update_deposit_confirmations update_found running
update_deep id ledger now seen db d found deep =
    let there : is_deep_enough d ledger ≡ true = deep_enough-leb d ledger ∙ ground arith in
    rw (found, there) refl

-- A deposit is credited at most once: after an update that returned, and at which the ledger was at
-- least the deposit's own plus the confirmations required of it, no update and no orphaning of it
-- moves a position.
pub deposit_credited_once :
    (id ledger now : ℕ) (seen : ℤ) (es : List Event) (db : Db) (d : Deposit)
    → find_first (λ d. d.id == id) db.deposits ≡ some d
    → d.ledger_seq + d.confirmations_required ≤ ledger
    → (update_deposit_confirmations id seen ledger now db).0 ≡ ok tt
    → (happen id es (update_deposit_confirmations id seen ledger now db).1).positions
      ≡ (update_deposit_confirmations id seen ledger now db).1.positions
deposit_credited_once id ledger now seen es db d found deep done =
    let e = update_deep id ledger now seen db d found deep in
    settled-happen id es (update_deposit_confirmations id seen ledger now db).1 (
      subst (λ r. IsSettled id r.1) (sym e)
        (advance_deposit-IsSettled id ledger now seen db d d.status refl
          (id-of-found id db.deposits found) found (ap (λ r. r.0) (sym e) ∙ done)))
