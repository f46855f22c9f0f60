-- ===== src/Solvency/Withdrawable/Verdict.antt =====
-- What the verdict of `assertWithdrawable` (withdrawal-solvency.service.ts) ensures, and what it
-- leaves open.
use veillend.Base.{
  ℕ, ◌==◌, ◌≡◌, refl, ◌⊎◌, inl, inr, ◌&&◌, ◌||◌, not, Bool, true, false, Bool-cases, Option, none,
  some, List, [], ◌∷◌, map, All, if◌then◌else◌, find_first, ℤ, pos,
}
use veillend.Funds.Data.{insufficient_collateral}
use veillend.Solvency.HealthFactor.{
  Numbers, PositionLike, RegistryEntry, PriceEntry, HealthOptions, HealthFactorResult,
  compute_health_factor, health_of, no_sums, adds_stale, adds_missing, price_of, entry_of,
}
use veillend.Solvency.HealthFactor.Fresh.{UpToDate, positions_fresh, none_stale, null_is_stale}
use veillend.Solvency.Withdrawable.{
  PricedPosition, SolvencyCheckResult, worth, price_per_unit, price_map, registry_of, like, project,
  at_time, unknown, has_borrow, refused, accepted, verdict_with_debt, verdict, check_target,
  assert_withdrawable,
}

never : ¬ (false ≡ true)
never h = cc

rest_false : (w l x : Bool) → not w ≡ false → ((w || l) && x) ≡ false → x ≡ false
rest_false true l x v h = h
rest_false false l x v h = cc

and_false_right : (a x : Bool) → x ≡ false → (a && x) ≡ false
and_false_right true x h = h
and_false_right false x h = refl

module _ {F : Type 0} (n : Numbers F) (format_raw : ℤ → ℕ → F) where
  -- The projected health factor is known and not below 1.
  abbrev pub NotBelowOne : SolvencyCheckResult F → Type 0
  NotBelowOne r = (hf : F) × (r.projected_health_factor ≡ some hf) × (n.lt hf n.one_number ≡ false)

  below_refused :
      (b : Bool) (hf : F) (current : Option F)
      → (if b
          then refused n format_raw insufficient_collateral (some hf) current
          else accepted n format_raw (some hf) current).allowed
        ≡ true
      → b ≡ false
  below_refused true hf current h = cc
  below_refused false hf current h = refl

  with_debt :
      (o current : Option F)
      → ¬ (o ≡ none)
      → (verdict_with_debt n format_raw o current).allowed ≡ true
      → NotBelowOne (verdict_with_debt n format_raw o current)
  unfolding verdict_with_debt
  with_debt none current known h = absurd (known refl)
  with_debt (some hf) current known h =
      let f = below_refused (n.lt hf n.one_number) hf current h in rw f (hf, refl, f)

  known_factor :
      (r : HealthFactorResult F)
      → (r.health_factor ≡ none → r.is_stale ≡ true)
      → unknown n format_raw r ≡ false
      → ¬ (r.health_factor ≡ none)
  known_factor r stale h e = let t = stale e in (cc)

  verdict_sound :
      (ps : List (PositionLike F)) (current projected : HealthFactorResult F)
      → (projected.health_factor ≡ none → projected.is_stale ≡ true)
      → (verdict n format_raw ps current projected).allowed ≡ true
      → (has_borrow n format_raw ps ≡ false)
        ⊎ NotBelowOne (verdict n format_raw ps current projected)
  unfolding verdict
  verdict_sound ps current projected stale h = elim (Bool-cases (unknown n format_raw current)) [
    | inl t ↦ absurd (never (rw t at h))
    | inr f ↦ elim (Bool-cases (unknown n format_raw projected)) [
      | inl t ↦ absurd (never (rw (f, t) at h))
      | inr g ↦ elim (Bool-cases (has_borrow n format_raw ps)) [
        | inl y ↦ inr (
            rw (f, g, y)
              (with_debt projected.health_factor current.health_factor
                (known_factor projected stale g) (rw (f, g, y) at h)))
        | inr z ↦ inl z
      ]
    ]
  ]

  target_sound :
      (ps : List (PricedPosition F)) (asset_id amount now : ℕ) (o : Option (PricedPosition F))
      → (check_target n format_raw ps asset_id amount o now).allowed ≡ true
      → (has_borrow n format_raw (map (like n format_raw) ps) ≡ false)
        ⊎ NotBelowOne (check_target n format_raw ps asset_id amount o now)
  unfolding check_target
  target_sound ps asset_id amount now none h = cc
  target_sound ps asset_id amount now (some target) h =
      let price = price_per_unit n format_raw target in
      let delta = n.mul (format_raw (pos amount) target.decimals) price in
      let registry = registry_of n format_raw [] ps in
      let prices = price_map n format_raw target [] ps in
      let current = map (like n format_raw) ps in
      let projected = map (project n format_raw asset_id delta) current in
      elim (Bool-cases (n.le price n.zero_number)) [
        | inl t ↦ absurd (never (rw t at h))
        | inr f ↦ rw f (
            verdict_sound current
              (compute_health_factor n current registry prices (at_time n format_raw now))
              (compute_health_factor n projected registry prices (at_time n format_raw now))
              (null_is_stale n (at_time n format_raw now) registry prices projected) (rw f at h))
      ]

  -- An allowed withdrawal is that of a user without a debt, or a solvent one.
  pub allowed_sound :
      (ps : List (PricedPosition F)) (asset_id amount now : ℕ)
      → (assert_withdrawable n format_raw ps asset_id amount now).allowed ≡ true
      → (has_borrow n format_raw (map (like n format_raw) ps) ≡ false)
        ⊎ NotBelowOne (assert_withdrawable n format_raw ps asset_id amount now)
  unfolding assert_withdrawable
  allowed_sound ps asset_id amount now h = target_sound ps asset_id amount now _ h

  -- No position of the asset has lost its value in dollars.
  abbrev pub HasValue : ℕ → PositionLike F → Type 0
  HasValue asset_id p = (p.asset_id == asset_id && not (worth n format_raw p.deposited_usd)) ≡ false

  module _ (o : HealthOptions F) (registry : List (RegistryEntry F)) (prices : List (PriceEntry F))
      (asset_id : ℕ) (delta : F) where
    projected_one :
        (p : PositionLike F)
        → HasValue asset_id p
        → UpToDate n o registry prices p
        → UpToDate n o registry prices (project n format_raw asset_id delta p)
    unfolding project adds_stale adds_missing price_of entry_of
    projected_one p v (x, y) = elim (Bool-cases (p.asset_id == asset_id)) [
      | inl t ↦
          let w = rw t at v in
          rw t
            (and_false_right _ _ (rest_false _ _ _ w x), and_false_right _ _ (rest_false _ _ _ w y))
      | inr f ↦ rw f (x, y)
    ]

    projected_each :
        (ps : List (PositionLike F))
        → All (HasValue asset_id) ps
        → All (UpToDate n o registry prices) ps
        → All (UpToDate n o registry prices) (map (project n format_raw asset_id delta) ps)
    projected_each [] v k = tt
    projected_each (p ∷ ps) (w, v) (c, k) = (projected_one p w c, projected_each ps v k)

    projected_fresh :
        (ps : List (PositionLike F))
        → All (HasValue asset_id) ps
        → (compute_health_factor n ps registry prices o).is_stale ≡ false
        → (compute_health_factor n
            (map (project n format_raw asset_id delta) ps)
            registry
            prices
            o).is_stale
          ≡ false
    unfolding compute_health_factor health_of
    projected_fresh ps v h =
        none_stale n o registry prices (no_sums n) _ refl
          (projected_each ps v (positions_fresh n o registry prices (no_sums n) ps h).1)

  -- A user without a debt whose prices are current may withdraw any amount of an asset that has a
  -- price and value in every position of it, however much is deposited.
  pub debt_free_any_amount :
      (ps : List (PricedPosition F)) (target : PricedPosition F) (asset_id amount now : ℕ)
      → find_first (λ p. p.asset_id == asset_id) ps ≡ some target
      → n.le (price_per_unit n format_raw target) n.zero_number ≡ false
      → All (HasValue asset_id) (map (like n format_raw) ps)
      → (compute_health_factor n
          (map (like n format_raw) ps)
          (registry_of n format_raw [] ps)
          (price_map n format_raw target [] ps)
          (at_time n format_raw now)).is_stale
        ≡ false
      → has_borrow n format_raw (map (like n format_raw) ps) ≡ false
      → (assert_withdrawable n format_raw ps asset_id amount now).allowed ≡ true
  unfolding assert_withdrawable check_target verdict
  debt_free_any_amount ps target asset_id amount now found price v fresh free =
      let delta =
        n.mul (format_raw (pos amount) target.decimals) (price_per_unit n format_raw target) in
      let later =
        projected_fresh (at_time n format_raw now) (registry_of n format_raw [] ps)
          (price_map n format_raw target [] ps) asset_id delta (map (like n format_raw) ps) v
          fresh in
      rw (found, price, fresh, later, free) refl
