-- ===== src/Indexer/Process/Balances.antt =====
-- The sign of the balances that indexer.repository.ts keeps.
use veillend.Base.{
  ◌≡◌, refl, Bool, true, false, List, ◌∷◌, is_some, if◌then◌else◌, All, ℤ, pos, negsuc, neg_part,
  find_first, update_many-All,
}
use veillend.Indexer.Data.{IndexedPosition, IndexDb, Texts}
use veillend.Indexer.Store.{save_checkpoint}
use veillend.Indexer.Positions.{position_of, new_position, insert_position, clamp, anchored}
use veillend.Indexer.Process.Policy.{Policy}
use veillend.Indexer.History.{IndexerCall, after_calls, after_calls-Kept}

-- Neither balance of the row is negative.
abbrev pub NonNegative : IndexedPosition → Type 0
NonNegative p = (neg_part p.deposited_raw ≡ 0) × (neg_part p.borrowed_raw ≡ 0)

abbrev pub AllNonNegative : IndexDb → Type 0
AllNonNegative db = All NonNegative db.positions

clamped : (z : ℤ) → neg_part (clamp z) ≡ 0
unfolding clamp
clamped (pos n) = refl
clamped (negsuc n) = refl

either_row :
    (b : Bool) (p : IndexedPosition) (ps : List IndexedPosition)
    → NonNegative p
    → All NonNegative ps
    → All NonNegative (if b then ps else p ∷ ps)
either_row true p ps q h = h
either_row false p ps q h = (q, h)

balance_policy : Policy AllNonNegative
unfolding insert_position
balance_policy = record {
  users = λ us n db h. h;
  assets = λ xs n db h. h;
  history = λ row n db h. h;
  inserted = λ env u a db h.
      either_row (is_some (find_first (position_of u a) db.positions))
        (new_position env db.next_id u a) db.positions (refl, refl) h;
  moved = λ u a d b i j db h.
      update_many-All NonNegative (position_of u a) (anchored (clamp d) (clamp b) i j) db.positions
        (λ x q. (clamped d, clamped b)) h;
  states = λ xs db h. h;
  params = λ xs db h. h;
  dedups = λ xs db h. h;
}

-- No calls of the repository but resets make a deposited or borrowed balance negative, where none
-- was.
pub balances-NonNegative :
    (env : Texts) (cs : List IndexerCall) (db : IndexDb)
    → AllNonNegative db
    → AllNonNegative (after_calls env cs db)
unfolding save_checkpoint
balances-NonNegative env cs db h =
    after_calls-Kept AllNonNegative balance_policy env (λ ledger db h. h) cs db h
