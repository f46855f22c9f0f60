-- ===== src/Admin/History/Final.antt =====
-- Actions that are confirmed or failed (admin.service.ts, admin-action-watcher.service.ts).
use veillend.Base.{
  ℕ, ◌<◌, ◌==◌, ◌≡◌, refl, sym, ap, ◌∙◌, ◌&&◌, not, Bool, true, false, Bool-cases, inl, inr, Option,
  none, some, List, [], ◌∷◌, All, is_some, if◌then◌else◌, arith, find_first, find_first-holds,
  find_first-All, subst, update_many, running, ==_iff, Keeps, Keeps->>=, Keeps->>, Keeps-pure,
  Keeps-throw, Keeps-gets, Keeps-or_throw, Keeps-throw_if, Keeps-modify, Keeps-transaction,
}
use veillend.Admin.Data.{
  AdminActionStatus, pending, sent, confirmed, failed, AdminAction, AdminIntent, AdminDb,
}
use veillend.Admin.Actions.{
  Builder, AssetRequest, ChainStatus, tx_succeeded, tx_failed, tx_not_found, rpc_down,
  awaits_signature, is_submitted, new_action, create_action, update_action, mark_sent,
  mark_confirmed, mark_failed, keep_built, dispatch_action, submit_transaction,
  configure_asset_support, set_oracle_price, set_min_collateral_ratio, find_submitted,
  settle_action, settle_with, settle_each, run_admin_watcher,
}
use veillend.Admin.Members.{add_admin, add_admin_tx, remove_admin, remove_admin_tx}
use veillend.Admin.History.{
  AdminCall, asks_asset, asks_price, asks_ratio, reports_hash, adds_admin, removes_admin,
  watches_chain, AdminRequest, Outside, after_request, after_requests,
}

-- The status is CONFIRMED or FAILED.
abbrev pub is_final : AdminActionStatus → Bool
is_final s = not (awaits_signature s) && not (is_submitted s)

-- Each action of this id is final.
abbrev pub ClosedRow : ℕ → AdminAction → Type 0
ClosedRow id a = (a.id == id && not (is_final a.status)) ≡ false

-- The action of this id is this one, it is final, and its id has been drawn.
abbrev pub Closed : ℕ → AdminAction → AdminDb → Type 0
Closed id a db =
    (find_first (λ x. x.id == id) db.actions ≡ some a)
    × All (ClosedRow id) db.actions
    × (id < db.next_id)

closed_status :
    (b : Bool) (s : AdminActionStatus)
    → b ≡ true
    → (b && not (is_final s)) ≡ false
    → awaits_signature s ≡ false
closed_status true pending h k = cc
closed_status true sent h k = refl
closed_status true confirmed h k = refl
closed_status true failed h k = refl
closed_status false s h k = cc

apart_if_submitted :
    (b : Bool) (s : AdminActionStatus) (hash : Bool)
    → (b && not (is_final s)) ≡ false
    → (is_submitted s && hash) ≡ true
    → b ≡ false
apart_if_submitted false s hash h k = refl
apart_if_submitted true sent hash h k = cc
apart_if_submitted true pending hash h k = cc
apart_if_submitted true confirmed hash h k = cc
apart_if_submitted true failed hash h k = cc

closed_elsewhere : (id : ℕ) (x : AdminAction) → (x.id == id) ≡ false → ClosedRow id x
closed_elsewhere id x h = rw h refl

module _ (id : ℕ) where
  other :
      (j : ℕ) (f : AdminAction → AdminAction) (rows : List AdminAction)
      → ((x : AdminAction) → (f x).id ≡ x.id)
      → (j == id) ≡ false
      → find_first (λ x. x.id == id) (update_many (λ x. x.id == j) f rows)
        ≡ find_first (λ x. x.id == id) rows
  unfolding find_first update_many
  other j f [] same apart = refl
  other j f (x ∷ xs) same apart = elim (Bool-cases (x.id == j)) [
    | inl t ↦
        let e = (==_iff x.id j).0 t in
        let g : (x.id == id) ≡ false = rw e apart in
        let h : ((f x).id == id) ≡ false = rw (same x) g in rw (t, h, g) (other j f xs same apart)
    | inr n ↦ rw n (ap (λ o. if x.id == id then some x else o) (other j f xs same apart))
  ]

  closed_rows :
      (j : ℕ) (f : AdminAction → AdminAction) (rows : List AdminAction)
      → ((x : AdminAction) → (f x).id ≡ x.id)
      → (j == id) ≡ false
      → All (ClosedRow id) rows
      → All (ClosedRow id) (update_many (λ x. x.id == j) f rows)
  unfolding update_many
  closed_rows j f [] same apart h = tt
  closed_rows j f (x ∷ xs) same apart (c, h) = elim (Bool-cases (x.id == j)) [
    | inl t ↦
        let e = (==_iff x.id j).0 t in
        let k : ((f x).id == id) ≡ false = rw (same x, e) apart in
        rw t (closed_elsewhere id (f x) k, closed_rows j f xs same apart h)
    | inr n ↦ rw n (c, closed_rows j f xs same apart h)
  ]

  module _ (a : AdminAction) where
    update-Closed :
        (j : ℕ) (f : AdminAction → AdminAction)
        → ((x : AdminAction) → (f x).id ≡ x.id)
        → (j == id) ≡ false
        → Keeps (Closed id a) (update_action j f)
    unfolding update_action
    update-Closed j f same apart = Keeps->>= (Closed id a) (Keeps-gets (Closed id a) _) λ found.
        Keeps->> (Closed id a) (Keeps-throw_if (Closed id a) _ _) (
          Keeps-modify (Closed id a) _ λ db (e, c, l).
            (other j f db.actions same apart ∙ e, closed_rows j f db.actions same apart c, l))

    built-Closed : (j : ℕ) (o : Option ℕ) → (j == id) ≡ false → Keeps (Closed id a) (keep_built j o)
    unfolding keep_built mark_failed
    built-Closed j (some xdr) apart =
        Keeps->> (Closed id a) (update-Closed j _ (λ x. refl) apart) (Keeps-pure (Closed id a) _)
    built-Closed j none apart =
        Keeps->> (Closed id a) (update-Closed j _ (λ x. refl) apart) (Keeps-throw (Closed id a) _)

    dispatch-Closed :
        (build : Builder) (admin : ℕ) (intent : AdminIntent)
        → Keeps (Closed id a) (dispatch_action build admin intent)
    unfolding dispatch_action create_action running find_first
    dispatch-Closed build admin intent = record {
      apply = λ db (e, c, l).
          let j = db.next_id in
          let apart : (j == id) ≡ false = ground (arith, l) in
          (built-Closed j (build j admin intent) apart).apply _ (
            rw apart e,
            (closed_elsewhere id (new_action j admin intent) apart, c),
            omega (arith, l),
          );
    }

    configure-Closed :
        (o : Outside) (dto : AssetRequest) (actor : ℕ)
        → Keeps (Closed id a) (configure_asset_support o.build o.validate o.verified dto actor)
    unfolding configure_asset_support
    configure-Closed o dto actor = Keeps->>= (Closed id a) (Keeps-or_throw (Closed id a) _ _) λ d.
        Keeps->> (Closed id a) (Keeps-throw_if (Closed id a) _ _) (
          Keeps->> (Closed id a) (Keeps-modify (Closed id a) _ (λ db h. h))
            (dispatch-Closed o.build actor _))

    -- The action itself takes no hash any more.
    hash_refused :
        (hash actor now : ℕ) (db : AdminDb)
        → find_first (λ x. x.id == id) db.actions ≡ some a
        → awaits_signature a.status ≡ false
        → (submit_transaction id hash actor now db).1 ≡ db
    unfolding submit_transaction running
    hash_refused hash actor now db e p = elim (Bool-cases (a.admin_address == actor)) [
      | inl t ↦ rw (e, t, p) refl
      | inr f ↦ rw (e, f) refl
    ]

    not_pending_any_more :
        (rows : List AdminAction)
        → find_first (λ x. x.id == id) rows ≡ some a
        → All (ClosedRow id) rows
        → awaits_signature a.status ≡ false
    not_pending_any_more rows e c =
        closed_status (a.id == id) a.status (find_first-holds (λ x. x.id == id) rows e)
          (find_first-All (ClosedRow id) (λ x. x.id == id) rows c e)

    mark_sent-Closed :
        (j hash now : ℕ) → (j == id) ≡ false → Keeps (Closed id a) (mark_sent j hash now)
    unfolding mark_sent
    mark_sent-Closed j hash now apart =
        Keeps->>= (Closed id a) (Keeps-gets (Closed id a) _) λ clash.
          Keeps->> (Closed id a) (Keeps-throw_if (Closed id a) _ _)
            (update-Closed j _ (λ x. refl) apart)

    submit-Closed :
        (j hash actor now : ℕ) (db : AdminDb)
        → Closed id a db
        → Closed id a (submit_transaction j hash actor now db).1
    unfolding submit_transaction
    submit-Closed j hash actor now db (e, c, l) = elim (Bool-cases (j == id)) [
      | inl t ↦
          subst (λ k. Closed id a (submit_transaction k hash actor now db).1)
            (sym ((==_iff j id).0 t))
            (subst (Closed id a)
              (sym (hash_refused hash actor now db e (not_pending_any_more db.actions e c)))
              (e, c, l))
      | inr f ↦
          (Keeps->>= (Closed id a) (Keeps-gets (Closed id a) _) λ found.
              Keeps->>= (Closed id a) (Keeps-or_throw (Closed id a) _ _) λ x.
                Keeps->> (Closed id a) (Keeps-throw_if (Closed id a) _ _) (
                  Keeps->> (Closed id a) (Keeps-throw_if (Closed id a) _ _)
                    (mark_sent-Closed j hash now f))).apply
            db (e, c, l)
    ]

    added-Closed : (wallet actor : ℕ) → Keeps (Closed id a) (add_admin wallet actor)
    unfolding add_admin add_admin_tx
    added-Closed wallet actor = Keeps-transaction (Closed id a) (
        Keeps->>= (Closed id a) (Keeps-gets (Closed id a) _) λ found.
          Keeps->> (Closed id a) (Keeps-throw_if (Closed id a) _ _)
            (Keeps-modify (Closed id a) _ (λ db (e, c, l). (e, c, omega (arith, l)))))

    removed-Closed : (wallet actor : ℕ) → Keeps (Closed id a) (remove_admin wallet actor)
    unfolding remove_admin remove_admin_tx
    removed-Closed wallet actor = Keeps-transaction (Closed id a) (
        Keeps->>= (Closed id a) (Keeps-gets (Closed id a) _) λ user.
          Keeps->> (Closed id a) (Keeps-modify (Closed id a) _ (λ db h. h)) (
            Keeps->>= (Closed id a) (Keeps-gets (Closed id a) _) λ found.
              Keeps->> (Closed id a) (Keeps-throw_if (Closed id a) _ _)
                (Keeps-modify (Closed id a) _ (λ db h. h))))

    -- What the watcher has found to settle is none of the closed rows.
    submitted_apart :
        (rows : List AdminAction)
        → All (ClosedRow id) rows
        → All (λ (x : AdminAction). (x.id == id) ≡ false) (find_submitted rows)
    unfolding find_submitted
    submitted_apart [] h = tt
    submitted_apart (x ∷ xs) (c, h) =
        elim (Bool-cases (is_submitted x.status && is_some x.tx_hash)) [
          | inl t ↦ rw t (
            apart_if_submitted (x.id == id) x.status (is_some x.tx_hash) c t,
            submitted_apart xs h,
          )
          | inr f ↦ rw f (submitted_apart xs h)
        ]

    settle-Closed :
        (j now : ℕ) (status : ChainStatus) (db : AdminDb)
        → (j == id) ≡ false
        → Closed id a db
        → Closed id a (settle_action j now status db)
    unfolding settle_action mark_confirmed mark_failed
    settle-Closed j now tx_succeeded db apart h = (update-Closed j _ (λ x. refl) apart).apply db h
    settle-Closed j now tx_failed db apart h = (update-Closed j _ (λ x. refl) apart).apply db h
    settle-Closed j now tx_not_found db apart h = h
    settle-Closed j now rpc_down db apart h = h

    settle_with-Closed :
        (chain : ℕ → ChainStatus) (j now : ℕ) (hash : Option ℕ) (db : AdminDb)
        → (j == id) ≡ false
        → Closed id a db
        → Closed id a (settle_with chain now j hash db)
    unfolding settle_with
    settle_with-Closed chain j now none db apart h = h
    settle_with-Closed chain j now (some hash) db apart h =
        settle-Closed j now (chain hash) db apart h

    settle_each-Closed :
        (chain : ℕ → ChainStatus) (now : ℕ) (rows : List AdminAction) (db : AdminDb)
        → All (λ (x : AdminAction). (x.id == id) ≡ false) rows
        → Closed id a db
        → Closed id a (settle_each chain now rows db)
    unfolding settle_each
    settle_each-Closed chain now [] db k h = h
    settle_each-Closed chain now (x ∷ xs) db (apart, k) h =
        settle_each-Closed chain now xs _ k (settle_with-Closed chain x.id now x.tx_hash db apart h)

    request-Closed :
        (o : Outside) (actor now : ℕ) (call : AdminCall) (db : AdminDb)
        → Closed id a db
        → Closed id a (after_request o actor now call db)
    unfolding after_request set_oracle_price set_min_collateral_ratio run_admin_watcher
    request-Closed o actor now (asks_asset dto) db h = (configure-Closed o dto actor).apply db h
    request-Closed o actor now (asks_price contract price) db h =
        (dispatch-Closed o.build actor _).apply db h
    request-Closed o actor now (asks_ratio bps) db h = (dispatch-Closed o.build actor _).apply db h
    request-Closed o actor now (reports_hash j hash) db h = submit-Closed j hash actor now db h
    request-Closed o actor now (adds_admin wallet) db h = (added-Closed wallet actor).apply db h
    request-Closed o actor now (removes_admin wallet) db h =
        (removed-Closed wallet actor).apply db h
    request-Closed o actor now (watches_chain chain) db (e, c, l) =
        settle_each-Closed chain now (find_submitted db.actions) db (submitted_apart db.actions c)
          (e, c, l)

    requests-Closed :
        (o : Outside) (qs : List AdminRequest) (db : AdminDb)
        → Closed id a db
        → Closed id a (after_requests o qs db)
    unfolding after_requests
    requests-Closed o [] db h = h
    requests-Closed o (q ∷ qs) db h =
        requests-Closed o qs _ (request-Closed o q.actor q.now q.call db h)

-- An action that is confirmed or failed, with no other row of its id, stays exactly as it is,
-- whatever admins ask for and the watcher sees.
pub closed_action_stays :
    (id : ℕ) (a : AdminAction) (o : Outside) (qs : List AdminRequest) (db : AdminDb)
    → find_first (λ x. x.id == id) db.actions ≡ some a
    → All (ClosedRow id) db.actions
    → id < db.next_id
    → find_first (λ x. x.id == id) (after_requests o qs db).actions ≡ some a
closed_action_stays id a o qs db e c l = (requests-Closed id a o qs db (e, c, l)).0
