-- ===== src/Indexer/Service/Reset.antt =====
-- What `resetDatabase` of indexer.repository.ts leaves behind.
use veillend.Base.{
  ℕ, ◌≡◌, refl, ap, ◌∙◌, ◌==◌, ◌&&◌, ◌||◌, not, Bool, true, false, Bool-cases, inl, inr, Option,
  none, some, List, [], ◌∷◌, All, any, is_some, find_first, delete_many,
}
use veillend.Indexer.Data.{TransactionHistory, IndexDb}
use veillend.Indexer.Store.{
  is_some_of, same_place, same_event, remembered, is_event_duplicate, get_checkpoint,
}
use veillend.Indexer.Service.{above, full_scope, bad_only_scope, reset_database}

module _ {A : Type 0} (H : A → Type 0) (p q : A → Bool)
    (apart : (x : A) → H x → p x ≡ false → q x ≡ false) where
  -- What is not deleted fails the test, so that none is found.
  found_none : (xs : List A) → All H xs → find_first q (delete_many p xs) ≡ none
  unfolding find_first delete_many
  found_none [] h = refl
  found_none (x ∷ xs) (h, hs) = elim (Bool-cases (p x)) [
    | inl t ↦ rw t (found_none xs hs)
    | inr f ↦ rw (f, apart x h f) (found_none xs hs)
  ]

  any_none : (xs : List A) → All H xs → any q (delete_many p xs) ≡ false
  unfolding delete_many
  any_none [] h = refl
  any_none (x ∷ xs) (h, hs) = elim (Bool-cases (p x)) [
    | inl t ↦ rw t (any_none xs hs)
    | inr f ↦ rw (f, apart x h f) (any_none xs hs)
  ]

delete_nothing :
    {A : Type 0} (p : A → Bool) (xs : List A) → ((x : A) → p x ≡ false) → delete_many p xs ≡ xs
unfolding delete_many
delete_nothing p [] h = refl
delete_nothing p (x ∷ xs) h = rw (h x) (ap (λ ys. x ∷ ys) (delete_nothing p xs h))

-- Only rows that the indexer wrote have an event index.
abbrev pub Indexed : TransactionHistory → Type 0
Indexed row = (is_some row.event_index && not (is_some row.soroban_event_id)) ≡ false

unmarked :
    (id : ℕ) (hash : Option ℕ) (index : ℕ) (event_index event_id : Option ℕ)
    → (is_some event_index && not (is_some event_id)) ≡ false
    → is_some event_id ≡ false
    → (event_id ≡ none) × (event_index ≡ none)
unmarked id hash index none none h k = (refl, refl)
unmarked id hash index (some i) none h k = cc
unmarked id hash index e (some i) h k = cc

no_place :
    (hash : Option ℕ) (index : ℕ) (row : TransactionHistory)
    → row.event_index ≡ none
    → same_place hash index row ≡ false
no_place none index row e = refl
no_place (some h) index row e = elim (Bool-cases (is_some_of h row.tx_hash)) [
  | inl t ↦ rw (t, e) refl
  | inr f ↦ rw f refl
]

no_event :
    (id : ℕ) (hash : Option ℕ) (index : ℕ) (row : TransactionHistory)
    → Indexed row
    → is_some row.soroban_event_id ≡ false
    → same_event id hash index row ≡ false
no_event id hash index row h k =
    let (a, b) = unmarked id hash index row.event_index row.soroban_event_id h k in
    ap (λ o. is_some_of id o || same_place hash index row) a ∙ no_place hash index row b

-- After a full reset no event is taken for a duplicate, where only rows of the indexer had an event
-- index.
pub full_reset_forgets :
    (db : IndexDb) (id : ℕ) (hash : Option ℕ) (index now : ℕ)
    → All Indexed db.history
    → is_event_duplicate id hash index now (reset_database full_scope db) ≡ false
unfolding is_event_duplicate reset_database remembered find_first
full_reset_forgets db id hash index now h =
    let e =
      found_none Indexed (λ row. is_some row.soroban_event_id) (same_event id hash index)
        (no_event id hash index) db.history h in
    rw e refl

-- The row is not above the ledger, or the indexer wrote it.
abbrev pub Rewritten : ℕ → TransactionHistory → Type 0
Rewritten last row = (above last row.ledger_sequence && not (is_some row.soroban_event_id)) ≡ false

not_above : (i b u : Bool) → (b && not i) ≡ false → (i && b) ≡ false → (u && b) ≡ false
not_above true true u k l = cc
not_above false true u k l = cc
not_above i false true k l = refl
not_above i false false k l = refl

-- A bad-only reset keeps every position, where all rows above the checkpoint are the indexer's: it
-- looks for them after it has deleted them.
pub bad_only_keeps_positions :
    (db : IndexDb)
    → All (Rewritten (get_checkpoint db)) db.history
    → (reset_database bad_only_scope db).positions ≡ db.positions
unfolding reset_database
bad_only_keeps_positions db h =
    let last = get_checkpoint db in
    let gone = λ (row : TransactionHistory).
      is_some row.soroban_event_id && above last row.ledger_sequence in
    delete_nothing _ db.positions λ p.
      any_none (Rewritten last) gone
        (λ row. row.user_id == p.user_id && above last row.ledger_sequence)
        (λ row k l. not_above (is_some row.soroban_event_id) _ _ k l) db.history h
