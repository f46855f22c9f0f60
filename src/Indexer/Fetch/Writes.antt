-- ===== src/Indexer/Fetch/Writes.antt =====
-- What `fetchAndParseEvents` of indexer.service.ts writes outside the transaction of its chunk.
use veillend.Base.{
  ℕ, ltb, ◌||◌, ◌≡◌, refl, ap, ◌∙◌, not, Bool, true, false, Option, none, some, List, [], ◌∷◌,
  length, Bool-cases, inl, inr, if◌then◌else◌,
}
use veillend.Indexer.Data.{IndexDb, Texts}
use veillend.Indexer.Store.{set_asset_supported}
use veillend.Indexer.Parse.{
  Words, RpcEvent, Native, absent, text_value, big_value, number_value, flag_value, array_value,
  Topic, asset_configured, moves_balance, interest_accrued_topic, reserve_updated_topic,
  params_updated_topic, governance_topic, unhandled_topic, configure_asset, parse_topic,
  parse_topics, parse_event_to_item, topic_to_string, topic_at, all_natives,
}
use veillend.Indexer.Fetch.{Page, parse_page, fetch_and_parse_events}

-- The tables are the same but for the assets, and for the row ids that remain.
abbrev pub OnlyAssets : IndexDb → IndexDb → Type 0
OnlyAssets db db' = record db { assets = db'.assets; next_id = db'.next_id } ≡ db'

either_same :
    (db : IndexDb) (b : Bool) {x y : IndexDb}
    → OnlyAssets db x
    → OnlyAssets db y
    → OnlyAssets db (if b then x else y)
either_same db true h k = h
either_same db false h k = k

supported_only :
    (env : Texts) (asset : ℕ) (b : Bool) (db : IndexDb)
    → OnlyAssets db (set_asset_supported env asset b db)
unfolding set_asset_supported
supported_only env asset b db = either_same db _ refl refl

configure_only :
    (env : Texts) (asset : ℕ) (v : Option Native) (db : IndexDb)
    → OnlyAssets db (configure_asset env asset v db)
unfolding configure_asset
configure_only env asset none db = refl
configure_only env asset (some absent) db = refl
configure_only env asset (some (text_value t)) db = refl
configure_only env asset (some (big_value z t)) db = refl
configure_only env asset (some (number_value z t)) db = refl
configure_only env asset (some (flag_value b t)) db = supported_only env asset b db
configure_only env asset (some (array_value xs t)) db = refl

module _ (w : Words) (env : Texts) (now : ℕ) where
  topic_only :
      (e : RpcEvent) (topics : List Native) (t : Topic) (db : IndexDb)
      → OnlyAssets db (parse_topic w env now e topics t db).1
  unfolding parse_topic
  topic_only e topics asset_configured db = configure_only env _ e.value db
  topic_only e topics (moves_balance kind) db = refl
  topic_only e topics interest_accrued_topic db = refl
  topic_only e topics reserve_updated_topic db = refl
  topic_only e topics params_updated_topic db = refl
  topic_only e topics governance_topic db = refl
  topic_only e topics unhandled_topic db = refl

  topics_only :
      (e : RpcEvent) (o : Option (List Native)) (db : IndexDb)
      → OnlyAssets db (parse_topics w env now e o db).1
  unfolding parse_topics
  topics_only e none db = refl
  topics_only e (some topics) db =
      elim (Bool-cases (w.is_veillend (topic_to_string w (topic_at 0 topics)))) [
        | inl t ↦ rw t (topic_only e topics _ db)
        | inr f ↦ rw f refl
      ]

  with_assets : IndexDb → IndexDb → IndexDb
  with_assets c x = record x { assets = c.assets; next_id = c.next_id }

  chained : (a b c : IndexDb) → OnlyAssets a b → OnlyAssets b c → OnlyAssets a c
  unfolding with_assets
  chained a b c h k = ap (with_assets c) h ∙ k

  page_only : (es : List RpcEvent) (db : IndexDb) → OnlyAssets db (parse_page w env now es db).1
  unfolding parse_page parse_event_to_item
  page_only [] db = refl
  page_only (e ∷ es) db = chained db _ _ (topics_only e (all_natives e.topics) db) (page_only es _)

  -- Fetching a range writes nothing but the assets that its events configure.
  pub fetch_and_parse_events-OnlyAssets :
      (pages : List (Option Page)) (db : IndexDb)
      → OnlyAssets db (fetch_and_parse_events w env now pages db).1
  unfolding fetch_and_parse_events
  fetch_and_parse_events-OnlyAssets [] db = refl
  fetch_and_parse_events-OnlyAssets (none ∷ pages) db = refl
  fetch_and_parse_events-OnlyAssets (some page ∷ pages) db =
      elim (Bool-cases (not page.has_cursor || ltb (length page.events) 100)) [
        | inl t ↦ rw t (page_only page.events db)
        | inr f ↦
            rw f (
              chained db _ _ (page_only page.events db) (fetch_and_parse_events-OnlyAssets pages _))
      ]
