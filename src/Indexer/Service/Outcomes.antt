-- ===== src/Indexer/Service/Outcomes.antt =====
-- How runs and replays of indexer.service.ts end.
use veillend.Base.{
  ℕ, ◌≤◌, ◌<◌, leb, ltb, ◌≡◌, refl, sym, ap, subst, ◌∙◌, ◌⊎◌, inl, inr, Bool, Bool-cases, true,
  false, Option, none, some, if◌then◌else◌, arith, Outcome, ok, err, running,
}
use veillend.Indexer.Data.{IndexError, RunError, Texts}
use veillend.Indexer.Store.{get_checkpoint, clean_expired_dedup}
use veillend.Indexer.Parse.{Words}
use veillend.Indexer.Process.{Counts}
use veillend.Indexer.Chunks.{
  default_chunk_size, Rpc, sync_idle, syncing, replaying, sync_error, Indexer,
  index_events_in_chunks,
}
use veillend.Indexer.Chunks.Progress.{checkpoint_of, Reached, index_events_in_chunks-Reached}
use veillend.Indexer.Service.{
  IndexerConfig, Network, next_ledger, retained, no_progress, settle_run, index_to, run_latest,
  cleaned, run_configured, started, run_indexer, ReplayResult, replay_progress, new_replay,
  settle_replay, replay_range,
}

released : (r : Outcome IndexError Counts × Indexer) → (settle_run r).is_processing ≡ false
unfolding settle_run
released (ok c, s) = refl
released (err e, s) = refl

if_free :
    (b : Bool) (x y : Indexer)
    → b ≡ false
    → y.is_processing ≡ false
    → (if b then x else y).is_processing ≡ false
if_free true x y f h = cc
if_free false x y f h = h

module _ (w : Words) (env : Texts) (cfg : IndexerConfig) (net : Network) (now : ℕ) where
  index_to_releases :
      (next latest : ℕ) (s : Indexer) → (index_to w env net now next latest s).is_processing ≡ false
  unfolding index_to
  index_to_releases next latest s = elim (Bool-cases (leb next latest)) [
    | inl t ↦ rw t (released _)
    | inr f ↦ rw f refl
  ]

  configured_releases :
      (o contract : Option ℕ) (next : ℕ) (s : Indexer)
      → (run_latest w env net now next o s).is_processing ≡ false
  unfolding run_latest
  configured_releases none contract next s = refl
  configured_releases (some latest) contract next s = index_to_releases next latest s

  run_releases :
      (contract : Option ℕ) (s : Indexer)
      → (run_configured w env cfg net now contract s).is_processing ≡ false
  unfolding run_configured
  run_releases none s = refl
  run_releases (some c) s = configured_releases net.latest none _ _

  -- A run that found the indexer free leaves it free, whatever fails on the way.
  pub run_indexer_releases :
      (s : Indexer)
      → s.is_processing ≡ false
      → (run_indexer w env cfg net now s).is_processing ≡ false
  unfolding run_indexer
  run_indexer_releases s free =
      if_free s.is_processing s _ free (run_releases cfg.contract_id (started syncing s))

-- How a run over the ledgers from `next` to `latest` ends.
abbrev pub RunEnds : ℕ → ℕ → Option ℕ → Indexer → Type 0
RunEnds next latest before s =
    ((s.sync_status ≡ sync_idle) × (checkpoint_of s ≡ some latest))
    ⊎ ((s.sync_status ≡ sync_error)
        × ((checkpoint_of s ≡ before)
            ⊎ ((k : ℕ) × (next ≤ k) × (k < latest) × (checkpoint_of s ≡ some k))))

settled_run :
    (next latest : ℕ) (before : Option ℕ) (r : Outcome IndexError Counts × Indexer)
    → Reached next latest before r
    → RunEnds next latest before (settle_run r)
unfolding settle_run
settled_run next latest before (ok c, s) (inl (k, e, h)) = inl (refl, h)
settled_run next latest before (ok c, s) (inr (x, e, h)) = cc
settled_run next latest before (err e', s) (inl (k, e, h)) = cc
settled_run next latest before (err e', s) (inr (x, e, h)) = inr (refl, h)

-- The chunk that the run starts with: after the checkpoint, and not before what the server retains.
abbrev pub first_of : IndexerConfig → Network → Indexer → ℕ
first_of cfg net s = retained net.oldest (next_ledger cfg s.db)

positive : (o : Option ℕ) {next : ℕ} → 0 < next → 0 < retained o next
unfolding retained
positive none h = h
positive (some oldest) {next} h = ground (arith, h)

first_positive :
    (cfg : IndexerConfig) (net : Network) (s : Indexer)
    → 0 < cfg.start_ledger
    → 0 < first_of cfg net s
unfolding retained next_ledger
first_positive cfg net s pos = positive net.oldest (ground (arith, pos))

module _ (w : Words) (env : Texts) (cfg : IndexerConfig) (net : Network) (now : ℕ) where
  index_to_runs :
      (next latest : ℕ) (s : Indexer)
      → next ≤ latest
      → index_to w env net now next latest s
        ≡ settle_run (
            index_events_in_chunks w env net.pages now no_progress next latest default_chunk_size s)
  unfolding index_to
  index_to_runs next latest s le = let t : leb next latest ≡ true = ground (arith, le) in rw t refl

  run_is :
      (s : Indexer) (contract latest : ℕ)
      → s.is_processing ≡ false
      → cfg.contract_id ≡ some contract
      → net.latest ≡ some latest
      → run_indexer w env cfg net now s
        ≡ index_to w env net now (first_of cfg net s) latest (cleaned now (started syncing s))
  unfolding run_indexer run_configured run_latest cleaned clean_expired_dedup next_ledger
      get_checkpoint running
  run_is s contract latest free has_contract has_latest =
      let s' = started syncing s in
      ap (λ b. if b then s else run_configured w env cfg net now cfg.contract_id s') free
      ∙ ap (λ o. run_configured w env cfg net now o s') has_contract
      ∙ ap (λ o. run_latest w env net now (first_of cfg net s) o (cleaned now s')) has_latest

  -- A run that finds the indexer free, a contract configured and the server's latest ledger not
  -- before the first one to index ends idle with the checkpoint at the latest ledger, or with an
  -- error and the checkpoint as it was or at a ledger between the two.
  pub run_indexer-RunEnds :
      (s : Indexer) (contract latest : ℕ)
      → s.is_processing ≡ false
      → cfg.contract_id ≡ some contract
      → net.latest ≡ some latest
      → 0 < cfg.start_ledger
      → first_of cfg net s ≤ latest
      → RunEnds (first_of cfg net s) latest (checkpoint_of s) (run_indexer w env cfg net now s)
  unfolding cleaned clean_expired_dedup running
  run_indexer-RunEnds s contract latest free has_contract has_latest pos le =
      let s' = cleaned now (started syncing s) in
      let first = first_of cfg net s in
      let r =
        index_events_in_chunks-Reached w env net.pages now no_progress (λ c k s. refl) first latest
          default_chunk_size s' (omega arith) (first_positive cfg net s pos) le in
      subst (RunEnds first latest (checkpoint_of s))
        (sym (
          run_is s contract latest free has_contract has_latest ∙ index_to_runs first latest s' le))
        (settled_run first latest (checkpoint_of s)
          (index_events_in_chunks w env net.pages now no_progress first latest default_chunk_size
            s')
          r)

-- A replay of a range that is not empty ends with the checkpoint at its last ledger, where it
-- returns; where it throws, the checkpoint is as it was or inside the range.
abbrev pub ReplayEnds : ℕ → ℕ → Option ℕ → Outcome RunError ReplayResult × Indexer → Type 0
ReplayEnds first last before r =
    ((k : ReplayResult) × (r.0 ≡ ok k) × (checkpoint_of r.1 ≡ some last))
    ⊎ ((e : RunError) × (r.0 ≡ err e)
        × ((checkpoint_of r.1 ≡ before)
            ⊎ ((k : ℕ) × (first ≤ k) × (k < last) × (checkpoint_of r.1 ≡ some k))))

settled_replay :
    (first last size : ℕ) (before : Option ℕ) (r : Outcome IndexError Counts × Indexer)
    → Reached first last before r
    → ReplayEnds first last before (settle_replay first last size r)
unfolding settle_replay
settled_replay first last size before (ok c, s) (inl (k, e, h)) = inl (_, refl, h)
settled_replay first last size before (ok c, s) (inr (x, e, h)) = cc
settled_replay first last size before (err e', s) (inl (k, e, h)) = cc
settled_replay first last size before (err e', s) (inr (x, e, h)) = inr (_, refl, h)

-- A replay of a range that is not empty, from ledger 1 or later, returns with the checkpoint at the
-- last ledger of the range, also where it was beyond, or throws with the checkpoint as it was or at
-- a ledger inside the range.
pub replay_range-ReplayEnds :
    (w : Words) (env : Texts) (pages : Rpc) (now first last size : ℕ) (s : Indexer)
    → 0 < first
    → first ≤ last
    → 0 < size
    → ReplayEnds first last (checkpoint_of s) (replay_range w env pages now first last size s)
unfolding replay_range
replay_range-ReplayEnds w env pages now first last size s pos le some_size =
    let f : ltb last first ≡ false = ground (arith, le) in
    let s' = record (started replaying s) { replay = new_replay first last size } in
    rw f (
      settled_replay first last size (checkpoint_of s) _ (
        index_events_in_chunks-Reached w env pages now replay_progress (λ c k s. refl) first last
          size s' some_size pos le))
