-- ===== src/Indexer/Chunks/Progress.antt =====
-- Where `indexEventsInChunks` of indexer.service.ts leaves the checkpoint.
use veillend.Base.{
  ℕ, zero, suc, ◌+◌, ◌-◌, ◌≤◌, ◌<◌, leb, ltb, ◌≡◌, refl, sym, ap, subst, ◌∙◌, ◌⊎◌, inl, inr,
  Bool-cases, true, false, Option, some, List, [], min, if◌then◌else◌, arith, Outcome, ok, err,
  ◌>>=◌, running, >>=_runs, >>=_stops,
}
use veillend.Indexer.Data.{IndexerParsedEvent, IndexError, Texts}
use veillend.Indexer.Parse.{Words}
use veillend.Indexer.Fetch.{fetch_and_parse_events}
use veillend.Indexer.Fetch.Writes.{fetch_and_parse_events-OnlyAssets}
use veillend.Indexer.Process.{Counts, process_chunk, no_counts}
use veillend.Indexer.Process.Chunk.{chunk_all_or_nothing}
use veillend.Indexer.Chunks.{
  Chunk, chunks_from, chunks, Rpc, Indexer, on_db, count_chunk, add_counts, OnChunk, fetch_chunk,
  note_chunk, index_chunk, index_chunks, index_events_in_chunks,
}

abbrev pub checkpoint_of : Indexer → Option ℕ
checkpoint_of s = s.db.checkpoint

-- The callback leaves the tables alone.
abbrev pub LeavesTables : OnChunk → Type 0
LeavesTables on_chunk = (c : Chunk) (k : Counts) (s : Indexer) → (on_chunk c k s).db ≡ s.db

-- A chunk that returned has its end as the checkpoint; one that threw left the checkpoint.
abbrev OneChunk : Chunk → Option ℕ → Outcome IndexError Counts × Indexer → Type 0
OneChunk c before r =
    ((k : Counts) × (r.0 ≡ ok k)
      × (checkpoint_of r.1 ≡ (if ltb 0 c.last then some c.last else before)))
    ⊎ ((e : IndexError) × (r.0 ≡ err e) × (checkpoint_of r.1 ≡ before))

-- Where a run over a range from `start` to `end` ends.
abbrev pub Reached : ℕ → ℕ → Option ℕ → Outcome IndexError Counts × Indexer → Type 0
Reached start end before r =
    ((k : Counts) × (r.0 ≡ ok k) × (checkpoint_of r.1 ≡ some end))
    ⊎ ((e : IndexError) × (r.0 ≡ err e)
        × ((checkpoint_of r.1 ≡ before)
            ⊎ ((k : ℕ) × (start ≤ k) × (k < end) × (checkpoint_of r.1 ≡ some k))))

-- What a later part of the range reached is reached by the whole.
widen :
    (start later end last : ℕ) (before ck : Option ℕ) (r : Outcome IndexError Counts × Indexer)
    → start ≤ later
    → start ≤ last
    → last < end
    → ck ≡ some last
    → Reached later end ck r
    → Reached start end before r
widen start later end last before ck r a b c e (inl h) = inl h
widen start later end last before ck r a b c e (inr (x, h, inl k)) =
    inr (x, h, inr (last, b, c, k ∙ e))
widen start later end last before ck r a b c e (inr (x, h, inr (n, m, l, k))) =
    inr (x, h, inr (n, omega (arith, a, m), l, k))

no_chunks : (fuel start end size : ℕ) → end < start → chunks_from fuel start end size ≡ []
unfolding chunks_from
no_chunks zero start end size h = refl
no_chunks (suc fuel) start end size h =
    let f : leb start end ≡ false = ground (arith, h) in rw f refl

visit : ℕ → ℕ → ℕ → Chunk
visit start end size = record { first = start; last = min (start + size - 1) end }

at_last :
    (last : ℕ) (before ck : Option ℕ)
    → 0 < last
    → ck ≡ (if ltb 0 last then some last else before)
    → ck ≡ some last
at_last last before ck pos e = let t : ltb 0 last ≡ true = ground (arith, pos) in rw t at e

no_fuel : (start end : ℕ) → start ≤ end → ¬ (end + 1 - start ≤ 0)
no_fuel start end h k = omega (arith, h, k)

module _ (w : Words) (env : Texts) (rpc : Rpc) (now : ℕ) (on_chunk : OnChunk)
    (leaves : LeavesTables on_chunk) where
  processed :
      (c : Chunk) (events : List IndexerParsedEvent) (s : Indexer)
      → OneChunk c
          (checkpoint_of s)
          ((on_db (process_chunk env events c.last now) >>= note_chunk on_chunk c) s)
  unfolding on_db note_chunk running
  processed c events s =
      let m = on_db (process_chunk env events c.last now) in
      elim (chunk_all_or_nothing env events c.last now s.db) [
        | inl (k, r, n, p) ↦
            let e = >>=_runs m (note_chunk on_chunk c) s k r in
            inl (
              k,
              ap (λ x. x.0) e,
              ap (λ x. checkpoint_of x.1) e
                  ∙ ap (λ db. db.checkpoint) (leaves c k (count_chunk k (m s).1))
                  ∙ p,
            )
        | inr (e, same) ↦
            let q = >>=_stops m (note_chunk on_chunk c) s e (ap (λ x. x.0) same) in
            inr (e, ap (λ x. x.0) q, ap (λ x. checkpoint_of x.1) q ∙ ap (λ x. x.1.checkpoint) same)
      ]

  one_chunk :
      (c : Chunk) (s : Indexer)
      → OneChunk c (checkpoint_of s) (index_chunk w env rpc now on_chunk c s)
  unfolding index_chunk on_db fetch_chunk running
  one_chunk c s =
      let fetched = fetch_and_parse_events w env now (rpc c.first c.last) s.db in
      let same =
        ap (λ db. db.checkpoint)
          (fetch_and_parse_events-OnlyAssets w env now (rpc c.first c.last) s.db) in
      subst (λ b. OneChunk c b (index_chunk w env rpc now on_chunk c s)) (sym same)
        (processed c fetched.0 (record s { db = fetched.1 }))

  reached :
      (fuel start end size : ℕ) (total : Counts) (s : Indexer)
      → 0 < size
      → 0 < start
      → start ≤ end
      → end + 1 - start ≤ fuel
      → Reached start end
          (checkpoint_of s)
          (index_chunks w env rpc now on_chunk total (chunks_from fuel start end size) s)
  unfolding index_chunks chunks_from visit running
  reached zero start end size total s psize pstart le enough = absurd (no_fuel start end le enough)
  reached (suc fuel) start end size total s psize pstart le enough =
      let c = visit start end size in
      let rest = chunks_from fuel (start + size) end size in
      let t : leb start end ≡ true = ground (arith, le) in
      let pos : 0 < c.last = ground (arith, pstart, psize, le) in
      let m = index_chunk w env rpc now on_chunk c in
      let more = λ (k : Counts). index_chunks w env rpc now on_chunk (add_counts total k) rest in
      rw t (elim (one_chunk c s) [
        | inl (k, r, p) ↦
            let q = >>=_runs m more s k r in
            let ck = at_last c.last (checkpoint_of s) (checkpoint_of (m s).1) pos p in
            subst (Reached start end (checkpoint_of s)) (sym q)
              (elim (Bool-cases (leb (start + size) end)) [
                | inl y ↦
                    let ih =
                      reached fuel (start + size) end size (add_counts total k) (m s).1 psize
                        (omega (arith, pstart)) (ground (arith, y))
                        (omega (arith, enough, psize)) in
                    widen start (start + size) end c.last (checkpoint_of s) (checkpoint_of (m s).1)
                      (more k (m s).1) (omega arith) (ground (arith, psize, y))
                      (ground (arith, psize, y)) ck ih
                | inr n ↦
                    let none_left = no_chunks fuel (start + size) end size (ground (arith, n)) in
                    let at_end : c.last ≡ end = ground (arith, n) in
                    rw none_left (inl (add_counts total k, refl, ck ∙ ap some at_end))
              ])
        | inr (e, r, p) ↦
            let q = >>=_stops m more s e r in
            inr (e, ap (λ x. x.0) q, inl (ap (λ x. checkpoint_of x.1) q ∙ p))
      ])

  -- Indexing a range of ledgers that is not empty either returns with the checkpoint at the end of
  -- the range, or throws with the checkpoint as it was or at a ledger inside the range.
  pub index_events_in_chunks-Reached :
      (start end size : ℕ) (s : Indexer)
      → 0 < size
      → 0 < start
      → start ≤ end
      → Reached start end
          (checkpoint_of s)
          (index_events_in_chunks w env rpc now on_chunk start end size s)
  unfolding index_events_in_chunks chunks
  index_events_in_chunks-Reached start end size s psize pstart le =
      reached (end + 1 - start) start end size no_counts s psize pstart le (omega arith)
