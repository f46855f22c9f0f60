-- ===== src/Indexer/Positions.antt =====
-- `applyPositionDelta` of indexer.repository.ts: the balances of a position, and the totals of its
-- asset.
pub mod Totals
pub mod Balances
pub mod Returns
use veillend.Base.{
  ℕ, ◌+◌, ◌==◌, ◌&&◌, ◌||◌, not, Bool, true, false, Option, none, some, List, [], ◌∷◌, is_some,
  if◌then◌else◌, ℤ, pos, negsuc, ◌+ℤ◌, Action, pure, gets, modify, throw_if, ◌>>=◌, ◌>>◌,
  find_first, update_many,
}
use veillend.Indexer.Data.{
  IndexedPosition, AssetInterestState, IndexDb, IndexError, out_of_range, Texts,
}
use veillend.Indexer.Store.{fits_int8}

abbrev pub position_of : ℕ → ℕ → IndexedPosition → Bool
position_of user_id asset_id p = p.user_id == user_id && p.asset_id == asset_id

-- A position and an interest state with the columns' defaults.
abbrev pub new_position : Texts → ℕ → ℕ → ℕ → IndexedPosition
new_position env id user_id asset_id = record {
  id = id;
  user_id = user_id;
  asset_id = asset_id;
  deposited_raw = pos 0;
  borrowed_raw = pos 0;
  borrow_index_snapshot = env.one_index;
  supply_index_snapshot = env.one_index;
  is_stale = true;
}

abbrev pub new_interest_state : Texts → ℕ → AssetInterestState
new_interest_state env asset_id = record {
  asset_id = asset_id;
  borrow_index = env.one_index;
  supply_index = env.one_index;
  last_accrual_ledger = 0;
  total_supplied = pos 0;
  total_borrowed = pos 0;
  protocol_fees = pos 0;
}

-- `INSERT … ON CONFLICT DO NOTHING`: a row id is drawn in either case.
unfoldable pub insert_position : Texts → ℕ → ℕ → IndexDb → IndexDb
insert_position env user_id asset_id db = record db {
  positions =
      if is_some (find_first (position_of user_id asset_id) db.positions)
      then db.positions
      else new_position env db.next_id user_id asset_id ∷ db.positions;
  next_id = db.next_id + 1;
}

abbrev pub deposited_or_zero : Option IndexedPosition → ℤ
deposited_or_zero none = pos 0
deposited_or_zero (some p) = p.deposited_raw

abbrev pub borrowed_or_zero : Option IndexedPosition → ℤ
borrowed_or_zero none = pos 0
borrowed_or_zero (some p) = p.borrowed_raw

abbrev pub borrow_index_or_one : Texts → Option AssetInterestState → ℕ
borrow_index_or_one env none = env.one_index
borrow_index_or_one env (some s) = s.borrow_index

abbrev pub supply_index_or_one : Texts → Option AssetInterestState → ℕ
supply_index_or_one env none = env.one_index
supply_index_or_one env (some s) = s.supply_index

-- `if (next < 0n) next = 0n`
unfoldable pub clamp : ℤ → ℤ
clamp (pos n) = pos n
clamp (negsuc n) = pos 0

abbrev pub anchored : ℤ → ℤ → ℕ → ℕ → IndexedPosition → IndexedPosition
anchored deposited borrowed borrow_index supply_index p = record p {
  deposited_raw = deposited;
  borrowed_raw = borrowed;
  borrow_index_snapshot = borrow_index;
  supply_index_snapshot = supply_index;
  is_stale = false;
}

abbrev pub is_zero : ℤ → Bool
is_zero (pos n) = n == 0
is_zero (negsuc n) = false

-- The totals of an interest state that is there; none that is new.
unfoldable pub add_totals :
    Texts → ℕ → ℤ → ℤ → Option AssetInterestState → Action IndexDb IndexError (Unit {0})
add_totals env asset_id deposited borrowed none =
    modify (λ db. record db { states = new_interest_state env asset_id ∷ db.states })
add_totals env asset_id deposited borrowed (some s) = do
  let supplied = s.total_supplied +ℤ deposited
  let owed = s.total_borrowed +ℤ borrowed
  throw_if (not (fits_int8 supplied && fits_int8 owed)) out_of_range
  modify λ db. record db {
    states =
        update_many (λ t. t.asset_id == asset_id)
          (λ t. record t { total_supplied = supplied; total_borrowed = owed }) db.states;
  }

unfoldable pub update_totals : Texts → ℕ → ℤ → ℤ → Action IndexDb IndexError (Unit {0})
unfolding add_totals
update_totals env asset_id deposited borrowed = do
  state ← gets (λ db. find_first (λ s. s.asset_id == asset_id) db.states)
  throw_if (not (fits_int8 deposited && fits_int8 borrowed)) out_of_range
  add_totals env asset_id deposited borrowed state

unfoldable pub update_totals_unless :
    Bool → Texts → ℕ → ℤ → ℤ → Action IndexDb IndexError (Unit {0})
unfolding update_totals
update_totals_unless true env asset_id deposited borrowed = pure tt
update_totals_unless false env asset_id deposited borrowed =
    update_totals env asset_id deposited borrowed

abbrev pub write_position : Texts → ℕ → ℕ → ℤ → ℤ → Option AssetInterestState → IndexDb → IndexDb
write_position env user_id asset_id deposited borrowed state db = record db {
  positions =
      update_many (position_of user_id asset_id)
        (anchored deposited borrowed (borrow_index_or_one env state)
          (supply_index_or_one env state))
        db.positions;
}

-- The balances and snapshots of the row that was read, then the totals.
unfoldable pub move_position :
    Texts
    → ℕ
    → ℕ
    → ℤ
    → ℤ
    → Option IndexedPosition
    → Option AssetInterestState
    → Action IndexDb IndexError (Unit {0})
unfolding clamp update_totals_unless
move_position env user_id asset_id deposited borrowed row state = do
  let next_deposited = clamp (deposited_or_zero row +ℤ deposited)
  let next_borrowed = clamp (borrowed_or_zero row +ℤ borrowed)
  throw_if (not (fits_int8 next_deposited && fits_int8 next_borrowed)) out_of_range
  modify (write_position env user_id asset_id next_deposited next_borrowed state)
  update_totals_unless (is_zero deposited && is_zero borrowed) env asset_id deposited borrowed

unfoldable pub apply_position_delta : Texts → ℕ → ℕ → ℤ → ℤ → Action IndexDb IndexError (Unit {0})
unfolding insert_position move_position
apply_position_delta env user_id asset_id deposited borrowed = do
  modify (insert_position env user_id asset_id)
  row ← gets (λ db. find_first (position_of user_id asset_id) db.positions)
  state ← gets (λ db. find_first (λ s. s.asset_id == asset_id) db.states)
  move_position env user_id asset_id deposited borrowed row state
