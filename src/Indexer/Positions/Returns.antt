-- ===== src/Indexer/Positions/Returns.antt =====
-- When `applyPositionDelta` of indexer.repository.ts returns, and what it has done then.
use veillend.Base.{
  ℕ, ◌==◌, ◌≡◌, refl, ap, ◌∙◌, ◌&&◌, Bool, true, false, Option, none, some, find_first, ℤ, ◌+ℤ◌, ok,
  running,
}
use veillend.Indexer.Data.{IndexedPosition, AssetInterestState, IndexDb, Texts}
use veillend.Indexer.Store.{fits_int8}
use veillend.Indexer.Positions.{
  position_of, insert_position, deposited_or_zero, borrowed_or_zero, clamp, is_zero, add_totals,
  update_totals, update_totals_unless, write_position, move_position, apply_position_delta,
}
use veillend.Indexer.Positions.Balances.{balances, shifted, inserted_same, apply_position_delta_lem}

-- The totals of the asset, where it has any, take the two changes.
abbrev pub TotalsFit : ℤ → ℤ → Option AssetInterestState → Type 0
TotalsFit d b none = Unit
TotalsFit d b (some s) =
    (fits_int8 (s.total_supplied +ℤ d) ≡ true) × (fits_int8 (s.total_borrowed +ℤ b) ≡ true)

module _ (env : Texts) (asset_id : ℕ) (d b : ℤ) where
  add_totals_returns :
      (o : Option AssetInterestState) (db : IndexDb)
      → TotalsFit d b o
      → (add_totals env asset_id d b o db).0 ≡ ok tt
  unfolding add_totals running
  add_totals_returns none db h = refl
  add_totals_returns (some s) db (h, k) = rw (h, k) refl

  totals_return :
      (done : Bool) (db : IndexDb)
      → fits_int8 d ≡ true
      → fits_int8 b ≡ true
      → TotalsFit d b (find_first (λ s. s.asset_id == asset_id) db.states)
      → (update_totals_unless done env asset_id d b db).0 ≡ ok tt
  unfolding update_totals_unless update_totals running
  totals_return true db fd fb h = refl
  totals_return false db fd fb h =
      rw (fd, fb) (add_totals_returns (find_first (λ s. s.asset_id == asset_id) db.states) db h)

  move_returns :
      (user_id : ℕ) (row : Option IndexedPosition) (state : Option AssetInterestState)
      (db : IndexDb)
      → fits_int8 (clamp (deposited_or_zero row +ℤ d)) ≡ true
      → fits_int8 (clamp (borrowed_or_zero row +ℤ b)) ≡ true
      → fits_int8 d ≡ true
      → fits_int8 b ≡ true
      → TotalsFit d b (find_first (λ s. s.asset_id == asset_id) db.states)
      → (move_position env user_id asset_id d b row state db).0 ≡ ok tt
  unfolding move_position running
  move_returns user_id row state db nd nb fd fb h =
      rw (nd, nb)
        (totals_return (is_zero d && is_zero b)
          (write_position env user_id asset_id (clamp (deposited_or_zero row +ℤ d))
            (clamp (borrowed_or_zero row +ℤ b)) state db)
          fd fb h)

-- Where the two changes, the new balances and the new totals of the asset fit into 64 bits,
-- applyPositionDelta returns, adds the changes to the balances of its user and asset, never below
-- 0, and leaves every other balance as it was.
pub apply_position_delta_refines :
    (env : Texts) (user_id asset_id : ℕ) (d b : ℤ) (db : IndexDb) (u a : ℕ)
    → fits_int8 d ≡ true
    → fits_int8 b ≡ true
    → fits_int8 (clamp ((balances db.positions user_id asset_id).0 +ℤ d)) ≡ true
    → fits_int8 (clamp ((balances db.positions user_id asset_id).1 +ℤ b)) ≡ true
    → TotalsFit d b (find_first (λ s. s.asset_id == asset_id) db.states)
    → ((apply_position_delta env user_id asset_id d b db).0 ≡ ok tt)
      × (balances (apply_position_delta env user_id asset_id d b db).1.positions u a
          ≡ shifted user_id asset_id d b (balances db.positions) u a)
unfolding apply_position_delta insert_position running
apply_position_delta_refines env user_id asset_id d b db u a fd fb nd nb h =
    let db1 = insert_position env user_id asset_id db in
    let row = find_first (position_of user_id asset_id) db1.positions in
    let state = find_first (λ s. s.asset_id == asset_id) db1.states in
    let same = inserted_same env user_id asset_id db user_id asset_id in
    let done =
      move_returns env asset_id d b user_id row state db1
        (ap (λ (x : ℤ × ℤ). fits_int8 (clamp (x.0 +ℤ d))) same ∙ nd)
        (ap (λ (x : ℤ × ℤ). fits_int8 (clamp (x.1 +ℤ b))) same ∙ nb) fd fb h in
    (done, apply_position_delta_lem env user_id asset_id d b db u a done)
