-- ===== src/Indexer/Chunks/Cover.antt =====
-- The chunks of `indexEventsInChunks` (indexer.service.ts) against the ledgers of the range.
use veillend.Base.{
  ℕ, zero, suc, ◌+◌, ◌-◌, ◌≤◌, ◌<◌, leb, ◌≡◌, refl, ap, ◌∙◌, ◌⊎◌, Bool-cases, inl, inr, List, [],
  ◌∷◌, ◌++◌, min, arith,
}
use veillend.Indexer.Chunks.{Chunk, chunks_from, chunks}

-- `count` ledgers from a first one on.
pub ledgers : ℕ → ℕ → List ℕ
ledgers start zero = []
ledgers start (suc n) = start ∷ ledgers (start + 1) n

ledgers-append : (start m n : ℕ) → ledgers start m ++ ledgers (start + m) n ≡ ledgers start (m + n)
unfolding ledgers
ledgers-append start zero n =
    let here : start + 0 ≡ start = omega arith in
    let count : n ≡ 0 + n = omega arith in ap (λ k. ledgers k n) here ∙ ap (ledgers start) count
ledgers-append start (suc m) n =
    let next : start + suc m ≡ start + 1 + m = omega arith in
    let count : suc (m + n) ≡ suc m + n = omega arith in
    ap (λ k. start ∷ (ledgers (start + 1) m ++ ledgers k n)) next
    ∙ ap (λ xs. start ∷ xs) (ledgers-append (start + 1) m n)
    ∙ ap (ledgers start) count

-- The ledgers of the chunks, one after the other.
pub visited : List Chunk → List ℕ
visited [] = []
visited (c ∷ cs) = ledgers c.first (c.last + 1 - c.first) ++ visited cs

-- A tail that is empty starts anywhere.
tail_starts :
    (start n size m : ℕ)
    → (n ≡ size) ⊎ (m ≡ 0)
    → ledgers start n ++ ledgers (start + size) m ≡ ledgers start n ++ ledgers (start + n) m
unfolding ledgers
tail_starts start n size m (inl e) = rw e refl
tail_starts start n size m (inr e) = rw e refl

chunks_cover :
    (fuel start end size : ℕ)
    → 0 < size
    → end + 1 - start ≤ fuel
    → visited (chunks_from fuel start end size) ≡ ledgers start (end + 1 - start)
unfolding visited chunks_from ledgers
chunks_cover zero start end size pos enough =
    let z : end + 1 - start ≡ 0 = omega (arith, enough) in rw z refl
chunks_cover (suc fuel) start end size pos enough = elim (Bool-cases (leb start end)) [
  | inl t ↦
      let rest = chunks_cover fuel (start + size) end size pos (ground (arith, t)) in
      let n = min (start + size - 1) end + 1 - start in
      rw (t, rest)
        (tail_starts start n size (end + 1 - (start + size)) (ground (arith, t, pos))
          ∙ ledgers-append start n (end + 1 - (start + size))
          ∙ ap (ledgers start) (ground (arith, t, pos)))
  | inr f ↦ let z : end + 1 - start ≡ 0 = ground (arith, f) in rw (f, z) refl
]

-- The chunks that the loop visits hold every ledger of its range once, in ascending order, and no
-- other.
pub chunks_visit_range :
    (start end size : ℕ)
    → 0 < size
    → visited (chunks start end size) ≡ ledgers start (end + 1 - start)
unfolding chunks
chunks_visit_range start end size pos =
    chunks_cover (end + 1 - start) start end size pos (omega arith)
