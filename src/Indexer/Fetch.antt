-- ===== src/Indexer/Fetch.antt =====
-- `fetchAndParseEvents` of indexer.service.ts. The pages of the RPC server are given; a page that is
-- none is a request that failed.
pub mod Writes
use veillend.Base.{
  ℕ, ltb, ◌||◌, not, Bool, true, false, Option, none, some, List, [], ◌∷◌, ◌++◌, length,
  if◌then◌else◌,
}
use veillend.Indexer.Data.{IndexerParsedEvent, IndexDb, Texts}
use veillend.Indexer.Parse.{Words, RpcEvent, parse_event_to_item}

abbrev pub push : Option IndexerParsedEvent → List IndexerParsedEvent → List IndexerParsedEvent
push none items = items
push (some x) items = x ∷ items

-- The events of one page, in their order.
unfoldable pub parse_page :
    Words → Texts → ℕ → List RpcEvent → IndexDb → List IndexerParsedEvent × IndexDb
unfolding parse_event_to_item
parse_page w env now [] db = ([], db)
parse_page w env now (e ∷ es) db =
    let (item, db1) = parse_event_to_item w env now e db in
    let (items, db2) = parse_page w env now es db1 in (push item items, db2)

pub record Page : Type 0 where
  pub events : List RpcEvent
  pub has_cursor : Bool

-- The answers of the RPC server to the requests of one range, in their order: the loop ends at a
-- request that fails, at a page without a cursor, and at one of fewer than 100 events.
unfoldable pub fetch_and_parse_events :
    Words → Texts → ℕ → List (Option Page) → IndexDb → List IndexerParsedEvent × IndexDb
unfolding parse_page
fetch_and_parse_events w env now [] db = ([], db)
fetch_and_parse_events w env now (none ∷ pages) db = ([], db)
fetch_and_parse_events w env now (some page ∷ pages) db =
    let (items, db1) = parse_page w env now page.events db in
    let (more, db2) = fetch_and_parse_events w env now pages db1 in
    if not page.has_cursor || ltb (length page.events) 100
    then (items, db1)
    else (items ++ more, db2)
