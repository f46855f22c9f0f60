-- ===== src/Indexer/Parse.antt =====
-- `parseEventToItem`, `topicToString` and `parseAmount` of indexer.service.ts. What
-- the Stellar SDK makes of a value of the contract is given.
use veillend.Base.{
  ℕ, zero, suc, ◌+◌, ◌==◌, Bool, Option, none, some, List, [], ◌∷◌, if◌then◌else◌, ℤ, pos, sub_ℕ,
  pos_part, neg_part,
}
use veillend.Indexer.EventId.{extract_event_index}
use veillend.Indexer.Data.{
  TxKind, deposit_tx, borrow_tx, repay_tx, withdraw_tx, EventOrigin, IndexerParsedEvent,
  transaction_event, interest_accrued, asset_reserve_updated, interest_params_updated, IndexDb,
  Texts,
}
use veillend.Indexer.Store.{set_asset_supported}

-- An element of an array: its text, where it is not null, and `Number(v) || 0`.
pub record Item : Type 0 where
  pub shown : Option ℕ
  pub number : ℕ

-- A value that `scValToNative` returns, with the text that JavaScript makes of it where it is
-- not a string.
pub data Native : Type 0 where
  absent : Native
  text_value : (text : ℕ) → Native
  big_value number_value : ℤ → (text : ℕ) → Native
  flag_value : Bool → (text : ℕ) → Native
  array_value : List Item → (text : ℕ) → Native

-- `topic1`, compared with the names that the code knows.
pub data Topic : Type 0 where
  asset_configured : Topic
  moves_balance : TxKind → Topic
  interest_accrued_topic reserve_updated_topic params_updated_topic governance_topic : Topic
  unhandled_topic : Topic

-- `zero_text`: the text '0'. `empty_text`: the text ''.
pub record Words : Type 0 where
  pub is_veillend : ℕ → Bool
  pub topic_of : ℕ → Topic
  pub zero_text : ℕ
  pub empty_text : ℕ

-- A topic or a value that is none makes `scValToNative` throw.
pub record RpcEvent : Type 0 where
  pub id : ℕ
  pub topics : List (Option Native)
  pub value : Option Native
  pub ledger_closed_at : Option ℕ
  pub tx_hash : Option ℕ
  pub ledger : ℕ

unfoldable pub topic_to_string : Words → Native → ℕ
topic_to_string w absent = w.empty_text
topic_to_string w (text_value t) = t
topic_to_string w (big_value z t) = if pos_part z + neg_part z == 0 then w.empty_text else t
topic_to_string w (number_value z t) = if pos_part z + neg_part z == 0 then w.empty_text else t
topic_to_string w (flag_value b t) = if b then t else w.empty_text
topic_to_string w (array_value xs t) = t

unfoldable pub int_or_zero : Option ℤ → ℤ
int_or_zero none = pos 0
int_or_zero (some z) = z

unfoldable pub parse_amount : Texts → Native → ℤ
unfolding int_or_zero
parse_amount env absent = pos 0
parse_amount env (text_value t) = int_or_zero (env.big_int t)
parse_amount env (big_value z t) = z
parse_amount env (number_value z t) = z
parse_amount env (flag_value b t) = pos 0
parse_amount env (array_value xs t) = pos 0

-- `event.topic.map(scValToNative)`
unfoldable pub all_natives : List (Option Native) → Option (List Native)
all_natives [] = some []
all_natives (none ∷ ts) = none
all_natives (some t ∷ ts) = elim (all_natives ts) [ none ↦ none | some us ↦ some (t ∷ us) ]

unfoldable pub topic_at : ℕ → List Native → Native
topic_at i [] = absent
topic_at zero (t ∷ ts) = t
topic_at (suc i) (t ∷ ts) = topic_at i ts

abbrev pub negated : ℤ → ℤ
negated z = sub_ℕ (neg_part z) (pos_part z)

abbrev pub deposited_delta : TxKind → ℤ → ℤ
deposited_delta deposit_tx z = z
deposited_delta withdraw_tx z = negated z
deposited_delta borrow_tx z = pos 0
deposited_delta repay_tx z = pos 0

abbrev pub borrowed_delta : TxKind → ℤ → ℤ
borrowed_delta deposit_tx z = pos 0
borrowed_delta withdraw_tx z = pos 0
borrowed_delta borrow_tx z = z
borrowed_delta repay_tx z = negated z

-- `vals[i]`, where the value decodes into an array.
unfoldable pub items_of : Option Native → List Item
items_of (some (array_value xs t)) = xs
items_of _ = []

unfoldable pub item_at : ℕ → List Item → Option Item
item_at i [] = none
item_at zero (x ∷ xs) = some x
item_at (suc i) (x ∷ xs) = item_at i xs

-- `vals[i]?.toString() || other`
unfoldable pub text_or : Words → ℕ → Option Item → ℕ
text_or w other none = other
text_or w other (some x) = elim x.shown [
  | none ↦ other
  | some t ↦ if t == w.empty_text then other else t
]

unfoldable pub number_or_zero : Option Item → ℕ
number_or_zero none = 0
number_or_zero (some x) = x.number

abbrev pub closed_at : ℕ → Option ℕ → ℕ
closed_at now none = now
closed_at now (some t) = t

abbrev pub origin_at : Texts → ℕ → RpcEvent → EventOrigin
origin_at env now e = record {
  event_id = e.id;
  tx_hash = e.tx_hash;
  event_index = extract_event_index (env.text e.id);
  ledger = e.ledger;
  timestamp = closed_at now e.ledger_closed_at;
}

unfoldable pub parse_transaction :
    Texts → ℕ → ℕ → ℕ → TxKind → RpcEvent → Option Native → Option IndexerParsedEvent
unfolding parse_amount
parse_transaction env now user asset kind e none = none
parse_transaction env now user asset kind e (some v) =
    let amount = parse_amount env v in
    some (
      transaction_event
        (record {
          id = e.id;
          user_address = user;
          kind = kind;
          asset_address = asset;
          amount = amount;
          ledger = e.ledger;
          tx_hash = e.tx_hash;
          event_index = some (extract_event_index (env.text e.id));
          timestamp = closed_at now e.ledger_closed_at;
        })
        (deposited_delta kind amount) (borrowed_delta kind amount))

unfoldable pub parse_accrual : Words → Texts → ℕ → RpcEvent → List Native → IndexerParsedEvent
unfolding topic_to_string topic_at items_of item_at text_or
parse_accrual w env now e topics = interest_accrued (record {
  asset_address = topic_to_string w (topic_at 3 topics);
  borrow_index = topic_to_string w (topic_at 2 topics);
  supply_index = topic_to_string w (topic_at 3 topics);
  accrued_amount = text_or w w.zero_text (item_at 0 (items_of e.value));
  reserve_share = text_or w w.zero_text (item_at 1 (items_of e.value));
  origin = origin_at env now e;
})

unfoldable pub parse_reserve : Words → Texts → ℕ → RpcEvent → List Native → IndexerParsedEvent
unfolding topic_to_string topic_at items_of item_at text_or
parse_reserve w env now e topics = asset_reserve_updated (record {
  asset_address = topic_to_string w (topic_at 3 topics);
  total_balance = text_or w w.zero_text (item_at 0 (items_of e.value));
  protocol_fees = text_or w w.zero_text (item_at 1 (items_of e.value));
  update_kind = text_or w w.empty_text (item_at 2 (items_of e.value));
  origin = origin_at env now e;
})

unfoldable pub parse_params : Words → Texts → ℕ → RpcEvent → List Native → IndexerParsedEvent
unfolding topic_to_string topic_at items_of item_at number_or_zero
parse_params w env now e topics = interest_params_updated (record {
  asset_address = topic_to_string w (topic_at 3 topics);
  rates = record {
    base_rate_bps = number_or_zero (item_at 0 (items_of e.value));
    kink_util_bps = number_or_zero (item_at 1 (items_of e.value));
    slope1_bps = number_or_zero (item_at 2 (items_of e.value));
    slope2_bps = number_or_zero (item_at 3 (items_of e.value));
    reserve_factor_bps = number_or_zero (item_at 4 (items_of e.value));
  };
  origin = origin_at env now e;
})

-- A value that is no boolean is refused by the database, which the code logs.
unfoldable pub configure_asset : Texts → ℕ → Option Native → IndexDb → IndexDb
unfolding set_asset_supported
configure_asset env asset (some (flag_value b t)) db = set_asset_supported env asset b db
configure_asset env asset _ db = db

-- The event that a raw event stands for, if any; a configured asset is written at once.
unfoldable pub parse_topic :
    Words
    → Texts
    → ℕ
    → RpcEvent
    → List Native
    → Topic
    → IndexDb
    → Option IndexerParsedEvent × IndexDb
unfolding configure_asset parse_transaction parse_accrual parse_reserve parse_params topic_to_string
parse_topic w env now e topics asset_configured db =
    (none, configure_asset env (topic_to_string w (topic_at 3 topics)) e.value db)
parse_topic w env now e topics (moves_balance kind) db = (
  parse_transaction env now (topic_to_string w (topic_at 2 topics))
      (topic_to_string w (topic_at 3 topics)) kind e e.value,
  db,
)
parse_topic w env now e topics interest_accrued_topic db =
    (some (parse_accrual w env now e topics), db)
parse_topic w env now e topics reserve_updated_topic db =
    (some (parse_reserve w env now e topics), db)
parse_topic w env now e topics params_updated_topic db =
    (some (parse_params w env now e topics), db)
parse_topic w env now e topics governance_topic db = (none, db)
parse_topic w env now e topics unhandled_topic db = (none, db)

unfoldable pub parse_topics :
    Words
    → Texts
    → ℕ
    → RpcEvent
    → Option (List Native)
    → IndexDb
    → Option IndexerParsedEvent × IndexDb
unfolding parse_topic
parse_topics w env now e none db = (none, db)
parse_topics w env now e (some topics) db =
    if w.is_veillend (topic_to_string w (topic_at 0 topics))
    then parse_topic w env now e topics (w.topic_of (topic_to_string w (topic_at 1 topics))) db
    else (none, db)

unfoldable pub parse_event_to_item :
    Words → Texts → ℕ → RpcEvent → IndexDb → Option IndexerParsedEvent × IndexDb
unfolding parse_topics all_natives
parse_event_to_item w env now e db = parse_topics w env now e (all_natives e.topics) db
