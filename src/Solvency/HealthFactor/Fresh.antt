-- ===== src/Solvency/HealthFactor/Fresh.antt =====
-- When `computeHealthFactor` of health-factor.util.ts takes its prices for stale or missing.
use veillend.Base.{
  ℕ, ◌≡◌, refl, sym, ◌∙◌, ◌&&◌, ◌||◌, not, Bool, true, false, Bool-cases, inl, inr, none, List, [],
  ◌∷◌, All, contains, if◌then◌else◌,
}
use veillend.Solvency.HealthFactor.{
  Numbers, PositionLike, RegistryEntry, PriceEntry, HealthOptions, Sums, add_code, is_empty,
  adds_stale, adds_missing, sum_position, sum_positions, sums_stale, unless_null, health_of,
  compute_health_factor,
}

added : (c : ℕ) (cs : List ℕ) → is_empty (add_code c cs) ≡ false
added c [] = refl
added c (x ∷ xs) = elim (Bool-cases (contains c (x ∷ xs))) [ inl t ↦ rw t refl | inr f ↦ rw f refl ]

and_false : (a : Bool) → (a && false) ≡ false
and_false true = refl
and_false false = refl

and_true : (a : Bool) → (a && true) ≡ a
and_true true = refl
and_true false = refl

marked :
    (b : Bool) (c : ℕ) (cs : List ℕ)
    → is_empty (if b then add_code c cs else cs) ≡ (is_empty cs && not b)
marked true c cs = added c cs ∙ sym (and_false (is_empty cs))
marked false c cs = sym (and_true (is_empty cs))

both_empty :
    (a b x y : Bool)
    → (not (a && not x) || not (b && not y)) ≡ false
    → ((not a || not b) ≡ false) × (x ≡ false) × (y ≡ false)
both_empty true true false false h = (refl, refl, refl)
both_empty false b x y h = cc
both_empty true false true y h = cc
both_empty true false false y h = cc
both_empty true true true y h = cc
both_empty true true false true h = cc

empty_both :
    (a b x y : Bool)
    → (not a || not b) ≡ false
    → x ≡ false
    → y ≡ false
    → (not (a && not x) || not (b && not y)) ≡ false
empty_both true true false false h k l = refl
empty_both false b x y h k l = cc
empty_both true false x y h k l = cc
empty_both true true true y h k l = cc
empty_both true true false true h k l = cc

module _ {F : Type 0} (n : Numbers F) (o : HealthOptions F) (registry : List (RegistryEntry F))
    (prices : List (PriceEntry F)) where
  -- The position adds no code to either set.
  abbrev pub UpToDate : PositionLike F → Type 0
  UpToDate p = (adds_stale n o prices p ≡ false) × (adds_missing n prices p ≡ false)

  step_stale :
      (s : Sums F) (p : PositionLike F)
      → sums_stale n (sum_position n o registry prices s p) ≡ (
          not (is_empty s.stale_prices && not (adds_stale n o prices p))
          || not (is_empty s.missing_prices && not (adds_missing n prices p)))
  unfolding sum_position
  step_stale s p =
      rw
        (
          marked (adds_stale n o prices p) p.asset_code s.stale_prices,
          marked (adds_missing n prices p) p.asset_code s.missing_prices,
        )
        refl

  -- No price is stale or missing after the loop just where none was before and each position is
  -- current.
  pub positions_fresh :
      (s : Sums F) (ps : List (PositionLike F))
      → sums_stale n (sum_positions n o registry prices s ps) ≡ false
      → (sums_stale n s ≡ false) × All UpToDate ps
  unfolding sum_positions
  positions_fresh s [] h = (h, tt)
  positions_fresh s (p ∷ ps) h =
      let (now, rest) = positions_fresh (sum_position n o registry prices s p) ps h in
      let (before, x, y) = both_empty _ _ _ _ (sym (step_stale s p) ∙ now) in
      (before, ((x, y), rest))

  pub none_stale :
      (s : Sums F) (ps : List (PositionLike F))
      → sums_stale n s ≡ false
      → All UpToDate ps
      → sums_stale n (sum_positions n o registry prices s ps) ≡ false
  unfolding sum_positions
  none_stale s [] h k = h
  none_stale s (p ∷ ps) h ((x, y), k) =
      none_stale (sum_position n o registry prices s p) ps
        (step_stale s p ∙ empty_both _ _ _ _ h x y) k

  unless_null_some : (b : Bool) (x : F) → unless_null n b x ≡ none → b ≡ true
  unless_null_some true x h = refl
  unless_null_some false x h = cc

  and_left : (a b : Bool) → (a && b) ≡ true → a ≡ true
  and_left true b h = refl
  and_left false b h = cc

  -- A health factor is null only where a price is stale or missing.
  pub null_is_stale :
      (ps : List (PositionLike F))
      → (compute_health_factor n ps registry prices o).health_factor ≡ none
      → (compute_health_factor n ps registry prices o).is_stale ≡ true
  unfolding compute_health_factor health_of
  null_is_stale ps h = and_left _ _ (unless_null_some _ _ h)
