-- ===== src/Indexer/Positions/Totals.antt =====
-- What the second half of `applyPositionDelta`, the totals of an asset, leaves alone.
use veillend.Base.{
  ℕ, Bool, true, false, Option, none, some, List, ℤ, Keeps, Keeps->>=, Keeps->>, Keeps-pure,
  Keeps-gets, Keeps-throw_if, Keeps-modify,
}
use veillend.Indexer.Data.{AssetInterestState, IndexDb, Texts}
use veillend.Indexer.Positions.{add_totals, update_totals, update_totals_unless}

module _ (P : IndexDb → Type 0)
    (k : (xs : List AssetInterestState) (db : IndexDb) → P db → P (record db { states = xs }))
    (env : Texts) where
  add_totals-Kept :
      (asset_id : ℕ) (d b : ℤ) (o : Option AssetInterestState)
      → Keeps P (add_totals env asset_id d b o)
  unfolding add_totals
  add_totals-Kept asset_id d b none = Keeps-modify P _ (λ db h. k _ db h)
  add_totals-Kept asset_id d b (some s) =
      Keeps->> P (Keeps-throw_if P _ _) (Keeps-modify P _ (λ db h. k _ db h))

  pub totals-Kept :
      (done : Bool) (asset_id : ℕ) (d b : ℤ) → Keeps P (update_totals_unless done env asset_id d b)
  unfolding update_totals_unless update_totals
  totals-Kept true asset_id d b = Keeps-pure P _
  totals-Kept false asset_id d b =
      Keeps->>= P (Keeps-gets P _)
        λ o. Keeps->> P (Keeps-throw_if P _ _) (add_totals-Kept asset_id d b o)
