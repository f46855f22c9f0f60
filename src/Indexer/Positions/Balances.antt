-- ===== src/Indexer/Positions/Balances.antt =====
-- The balances that the positions of the indexer stand for, and what `applyPositionDelta` of
-- indexer.repository.ts does to them.
use veillend.Base.{
  map_row, find_first-update_map, ℕ, ◌==◌, ◌&&◌, Bool, true, false, Option, none, some, List,
  is_some, if◌then◌else◌, ◌≡◌, refl, sym, ap, ◌∙◌, inl, inr, Bool-cases, Option-cases, ==_refl, ℤ,
  ◌+ℤ◌, ok, throw_if, modify, running, find_first, update_many, find_first-holds, arith, ◌>>◌,
  Action, Keeps,
}
use veillend.Indexer.Data.{
  IndexedPosition, AssetInterestState, IndexDb, IndexError, out_of_range, Texts,
}
use veillend.Indexer.Positions.{
  position_of, insert_position, deposited_or_zero, borrowed_or_zero, clamp, anchored,
  write_position, move_position, apply_position_delta,
}
use veillend.Indexer.Positions.Totals.{totals-Kept}

-- What a user has deposited of an asset and borrowed of it.
abbrev pub Balances : Type 0
Balances = ℕ → ℕ → ℤ × ℤ

abbrev pub balances : List IndexedPosition → Balances
balances ps user_id asset_id =
    let p = find_first (position_of user_id asset_id) ps in
    (deposited_or_zero p, borrowed_or_zero p)

abbrev plus : ℤ → ℤ → ℤ × ℤ → ℤ × ℤ
plus d b x = (clamp (x.0 +ℤ d), clamp (x.1 +ℤ b))

-- The change that an event asks for: both balances of one user and asset, and never below 0.
unfoldable pub shifted : ℕ → ℕ → ℤ → ℤ → Balances → Balances
shifted user_id asset_id d b v u a =
    if u == user_id && a == asset_id
    then (clamp ((v user_id asset_id).0 +ℤ d), clamp ((v user_id asset_id).1 +ℤ b))
    else v u a

both_equal : (a b c d : ℕ) → (a == b && c == d) ≡ true → (a ≡ b) × (c ≡ d)
both_equal a b c d h = (ground arith, ground arith)

-- A row that is inserted has balance 0, which is what no row stands for.
pub inserted_same :
    (env : Texts) (user_id asset_id : ℕ) (db : IndexDb) (u a : ℕ)
    → balances (insert_position env user_id asset_id db).positions u a ≡ balances db.positions u a
unfolding insert_position find_first
inserted_same env user_id asset_id db u a =
    elim (Option-cases (find_first (position_of user_id asset_id) db.positions)) [
      | inl e ↦ elim (Bool-cases (user_id == u && asset_id == a)) [
        | inl t ↦
            let (eu, ea) = both_equal user_id u asset_id a t in
            let e' : find_first (position_of u a) db.positions ≡ none = rw (sym eu, sym ea) e in
            rw (e, t, e') refl
        | inr f ↦ rw (e, f) refl
      ]
      | inr (p, e) ↦ rw e refl
    ]

not_there : (o : Option IndexedPosition) → o ≡ none → ¬ (is_some o ≡ true)
not_there none e h = cc
not_there (some p) e h = cc

abbrev amounts : IndexedPosition → ℤ × ℤ
amounts p = (p.deposited_raw, p.borrowed_raw)

row_balances :
    (c : Bool) (p : IndexedPosition) (d b : ℤ) (i j : ℕ)
    → amounts (if c then anchored d b i j p else p) ≡ (if c then (d, b) else amounts p)
row_balances true p d b i j = refl
row_balances false p d b i j = refl

-- The rows after a change of one position.
changed_rows :
    (user_id asset_id : ℕ) (d b : ℤ) (i j : ℕ) (ps : List IndexedPosition) (u a : ℕ)
    → is_some (find_first (position_of user_id asset_id) ps) ≡ true
    → balances (update_many (position_of user_id asset_id) (anchored d b i j) ps) u a
      ≡ (if u == user_id && a == asset_id then (d, b) else balances ps u a)
unfolding map_row
changed_rows user_id asset_id d b i j ps u a found =
    let same =
      find_first-update_map (position_of u a) (position_of user_id asset_id) (anchored d b i j) ps
        (λ x. refl) in
    elim (Option-cases (find_first (position_of u a) ps)) [
      | inl e ↦ elim (Bool-cases (u == user_id && a == asset_id)) [
        | inl t ↦
            let (eu, ea) = both_equal u user_id a asset_id t in
            absurd (not_there _ (rw (eu, ea) at e) found)
        | inr f ↦ rw (same, e, f) refl
      ]
      | inr (p, e) ↦
          let (eu, ea) = both_equal p.user_id u p.asset_id a (find_first-holds _ ps e) in
          let c : position_of user_id asset_id p ≡ (u == user_id && a == asset_id) =
            rw (eu, ea) refl in
          rw (same, e) (row_balances _ p d b i j ∙ ap (λ k. if k then (d, b) else amounts p) c)
    ]

guarded :
    (c : Bool) (g : IndexDb → IndexDb) (db : IndexDb) {m : Action IndexDb IndexError (Unit {0})}
    → Keeps (λ s. s.positions ≡ (g db).positions) m
    → ((throw_if c out_of_range >> (modify g >> m)) db).0 ≡ ok tt
    → ((throw_if c out_of_range >> (modify g >> m)) db).1.positions ≡ (g db).positions
unfolding running
guarded true g db k h = cc
guarded false g db k h = k.apply (g db) refl

rows_moved :
    (env : Texts) (user_id asset_id : ℕ) (d b : ℤ) (row : Option IndexedPosition)
    (state : Option AssetInterestState) (db : IndexDb)
    → (move_position env user_id asset_id d b row state db).0 ≡ ok tt
    → (move_position env user_id asset_id d b row state db).1.positions
      ≡ (write_position env user_id asset_id
          (clamp (deposited_or_zero row +ℤ d))
          (clamp (borrowed_or_zero row +ℤ b))
          state
          db).positions
unfolding move_position
rows_moved env user_id asset_id d b row state db h =
    guarded _ (write_position env user_id asset_id _ _ state) db
      (totals-Kept _ (λ xs db h. h) env _ asset_id d b) h

inserted_found :
    (env : Texts) (user_id asset_id : ℕ) (db : IndexDb)
    → is_some (
        find_first
          (position_of user_id asset_id)
          (insert_position env user_id asset_id db).positions)
      ≡ true
unfolding insert_position find_first
inserted_found env user_id asset_id db =
    elim (Option-cases (find_first (position_of user_id asset_id) db.positions)) [
      | inl e ↦ rw (e, ==_refl user_id, ==_refl asset_id) refl
      | inr (p, e) ↦ rw (e, e) refl
    ]

-- An applyPositionDelta that returns adds the two changes to the balances of its user and asset,
-- never below 0, and leaves every other balance as it was.
pub apply_position_delta_lem :
    (env : Texts) (user_id asset_id : ℕ) (d b : ℤ) (db : IndexDb) (u a : ℕ)
    → (apply_position_delta env user_id asset_id d b db).0 ≡ ok tt
    → balances (apply_position_delta env user_id asset_id d b db).1.positions u a
      ≡ shifted user_id asset_id d b (balances db.positions) u a
unfolding apply_position_delta shifted running
apply_position_delta_lem env user_id asset_id d b db u a h =
    let db1 = insert_position env user_id asset_id db in
    let row = find_first (position_of user_id asset_id) db1.positions in
    let state = find_first (λ s. s.asset_id == asset_id) db1.states in
    let e = rows_moved env user_id asset_id d b row state db1 h in
    let c =
      changed_rows user_id asset_id (clamp (deposited_or_zero row +ℤ d))
        (clamp (borrowed_or_zero row +ℤ b)) _ _ db1.positions u a
        (inserted_found env user_id asset_id db) in
    let here = inserted_same env user_id asset_id db user_id asset_id in
    let there = inserted_same env user_id asset_id db u a in
    ap (λ ps. balances ps u a) e
    ∙ c
    ∙ ap (λ x. if u == user_id && a == asset_id then plus d b x else balances db1.positions u a)
        here
    ∙ ap
        (λ y.
          if u == user_id && a == asset_id
          then plus d b (balances db.positions user_id asset_id)
          else y)
        there
