-- ===== src/Stellar/Breaker/Policy.antt =====
-- Properties of the providers of retry-with-fallback.ts, carried through `execute`.
use veillend.Base.{
  ℕ, zero, suc, ◌+◌, ◌≡◌, refl, Bool, Option, none, some, List, [], ◌∷◌, All, inl, inr, Bool-cases,
  ◌||◌,
}
use veillend.Stellar.Breaker.{
  Provider, Reply, result, fails, Attempt, Answer, Call, Outcome, is_client_error, record_failure,
  get_next_available_provider, on_reply, on_provider, attempts, available, recovered,
}

-- A property of a provider that the breaker keeps, at the times `At`; `Called` is what holds of one
-- that is handed out, and `Url` of the addresses that are called.
pub record Policy : Type 1 where
  pub Holds : Provider → Type 0
  pub Called : Provider → Type 0
  pub Url : ℕ → Type 0
  pub At : ℕ → Type 0
  pub available_ok :
      (now : ℕ) (p q : Provider) → At now → Holds p → available now p ≡ some q → Called q
  pub url_ok : (p : Provider) → Called p → Url p.url
  pub recovered_ok : (p : Provider) → Called p → Holds (recovered p)
  pub failed_ok :
      (now : ℕ) (status : Option ℕ) (p : Provider) → Called p → Holds (record_failure now status p)

-- The provider that is handed out may be called, and whatever holds of a provider may stand in its
-- place.
abbrev pub Handed : Policy → Option (Provider × (Provider → List Provider)) → Type 0
Handed y none = Unit
Handed y (some (q, put)) = y.Called q × ((r : Provider) → y.Holds r → All y.Holds (put r))

abbrev pub Kept : Policy → Outcome → Type 0
Kept y o = All y.Holds o.providers × All (λ c. y.Url c.url) o.calls

module _ (y : Policy) where
  Handed-later :
      (p : Provider) (o : Option (Provider × (Provider → List Provider)))
      → y.Holds p
      → Handed y o
      → Handed y (elim o as (λ _. Option (Provider × (Provider → List Provider))) [
        | none ↦ none
        | some (q, put) ↦ some (q, λ r. p ∷ put r)
      ])
  Handed-later p none h k = tt
  Handed-later p (some (q, put)) h (c, k) = (c, λ r e. (h, k r e))

  Handed-here :
      (now : ℕ) (p : Provider) (ps : List Provider) (o : Option Provider)
      → y.At now
      → available now p ≡ o
      → y.Holds p
      → All y.Holds ps
      → Handed y (get_next_available_provider now ps)
      → Handed y (elim o as (λ _. Option (Provider × (Provider → List Provider))) [
        | some q ↦ some (q, λ r. r ∷ ps)
        | none ↦ elim (get_next_available_provider now ps) [
          | none ↦ none
          | some (q, put) ↦ some (q, λ r. p ∷ put r)
        ]
      ])
  Handed-here now p ps (some q) at e h hs k = (y.available_ok now p q at h e, λ r e'. (e', hs))
  Handed-here now p ps none at e h hs k = Handed-later p _ h k

  next-Handed :
      (now : ℕ) (ps : List Provider)
      → y.At now
      → All y.Holds ps
      → Handed y (get_next_available_provider now ps)
  unfolding get_next_available_provider
  next-Handed now [] at h = tt
  next-Handed now (p ∷ ps) at (h, hs) =
      Handed-here now p ps (available now p) at refl h hs (next-Handed now ps at hs)

  reply-Kept :
      (w : Bool) (t : ℕ) (p : Provider) (put : Provider → List Provider) (c : Call)
      (rest : Answer → List Provider → Outcome) (r : Reply)
      → y.Called p
      → ((q : Provider) → y.Holds q → All y.Holds (put q))
      → ((l : Answer) (ps : List Provider) → All y.Holds ps → Kept y (rest l ps))
      → y.Url c.url
      → Kept y (on_reply w t p put c rest r)
  unfolding on_reply
  reply-Kept w t p put c rest (result x) h k l u = (k _ (y.recovered_ok p h), (u, tt))
  reply-Kept w t p put c rest (fails s) h k l u =
      let failed = k _ (y.failed_ok t s p h) in
      elim (Bool-cases (w || is_client_error s)) [
        | inl e ↦ rw e (failed, (u, tt))
        | inr e ↦ rw e ((l _ _ failed).0, (u, (l _ _ failed).1))
      ]

  provider-Kept :
      (w : Bool) (a : Attempt) (rest : Answer → List Provider → Outcome) (ps : List Provider)
      (o : Option (Provider × (Provider → List Provider)))
      → Handed y o
      → All y.Holds ps
      → ((l : Answer) (ps : List Provider) → All y.Holds ps → Kept y (rest l ps))
      → Kept y (on_provider w a rest ps o)
  unfolding on_provider
  provider-Kept w a rest ps none h hs l = (hs, tt)
  provider-Kept w a rest ps (some (p, put)) (h, k) hs l =
      reply-Kept w _ p put _ rest _ h k l (y.url_ok p h)

  pub attempts-Kept :
      (w : Bool) (world : ℕ → Attempt) (n k : ℕ) (l : Answer) (ps : List Provider)
      → ((k : ℕ) → y.At (world k).asked_at)
      → All y.Holds ps
      → Kept y (attempts w world n k l ps)
  unfolding attempts
  attempts-Kept w world zero k l ps at h = (h, tt)
  attempts-Kept w world (suc n) k l ps at h =
      provider-Kept w (world k) (λ l' ps'. attempts w world n (k + 1) l' ps') ps _
        (next-Handed _ ps (at k) h) h (λ l' ps' h'. attempts-Kept w world n (k + 1) l' ps' at h')
