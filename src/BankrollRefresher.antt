-- ===== src/BankrollRefresher.antt =====
-- src/oms_gateway/bankroll_refresher.py: the realized profit that moved the wallet, read from the
-- positions, and the cycle that writes its tier into the cache.
pub mod Excluded
pub mod Cycle
use oms_gateway.Prelude.{
  ℕ, Bool, true, false, not, ◌&&◌, ◌||◌, Option, none, some, List, [], ◌∷◌, ◌++◌, map,
  if◌then◌else◌, keep,
}
use oms_gateway.Prelude.Result.{Result, ok, err}
use oms_gateway.Effect.{Action, pure, lift, attempt, ◌>>=◌, ◌>>◌}
use oms_gateway.Text.{Text, codes, text_eq, mem_text, strip}
use oms_gateway.Text.Split.{csv_items}
use oms_gateway.Float.{Float, zero_float}
use oms_gateway.Settings.{Settings}
use oms_gateway.Bankroll.{BankrollTier, select_tier, to_state_payload}
use oms_gateway.Bankroll.Cache.{Cache, write_bankroll_state}
use oms_gateway.Database.{Backend, select}
use oms_gateway.Database.Schema.{Numeric, ToFloat, Position, Strategy, Tables}
use oms_gateway.Database.Queries.{equals}

unfoldable pub excluded_slugs : {F : Type 0} → Settings F → List Text
excluded_slugs s = csv_items (strip s.bankroll_excluded_strategy_slugs_csv)

-- The slugs of the joined rows: `none` where there is no strategy.
unfoldable pub slugs_or_null : List Strategy → List (Option Text)
slugs_or_null [] = none ∷ []
slugs_or_null (s ∷ ss) = some s.slug ∷ map (λ (r : Strategy). some r.slug) ss

-- `s.slug IS NULL OR NOT (s.slug = ANY($1))`
unfoldable pub is_kept_slug : List Text → Option Text → Bool
is_kept_slug excluded none = true
is_kept_slug excluded (some slug) = not (mem_text slug excluded)

module _ {N : Type 0} where
  -- The conditions on the position.
  unfoldable pub moved_wallet : Position N → Bool
  unfolding equals codes
  moved_wallet p =
      text_eq p.status (codes "closed")
      && (text_eq p.venue (codes "polymarket")
          && (not (equals p.paper_purged (codes "true")) && not (equals p.paper (codes "true"))))

  -- `positions p LEFT JOIN strategies s ON s.id = p.strategy_id`, one value for each joined row that
  -- passes; `SUM` skips a NULL.
  unfoldable pub values_of : Option N → List (Option Text) → List N
  values_of none slugs = []
  values_of (some x) [] = []
  values_of (some x) (slug ∷ slugs) = x ∷ values_of (some x) slugs

  unfoldable pub pnl_of : List Text → List Strategy → Position N → List N
  unfolding moved_wallet values_of slugs_or_null is_kept_slug
  pnl_of excluded ss p =
      if moved_wallet p
      then values_of p.realized_pnl_usd
          (keep (is_kept_slug excluded) (slugs_or_null (keep (λ s. text_eq s.id p.strategy_id) ss)))
      else []

  unfoldable pub pnl_values : List Text → List Strategy → List (Position N) → List N
  unfolding pnl_of
  pnl_values excluded ss [] = []
  pnl_values excluded ss (p ∷ ps) = pnl_of excluded ss p ++ pnl_values excluded ss ps

module _ {N F : Type 0} ⦃num : Numeric N⦄ ⦃cast : ToFloat N F⦄ where
  -- `TOTAL_REALIZED_PNL_SQL`
  unfoldable pub total_realized_pnl : List Text → Tables N F → F
  unfolding pnl_values
  total_realized_pnl excluded t =
      cast.to_float (num.sum (pnl_values excluded t.strategies t.positions))

module _ {N F S : Type 0} ⦃num : Numeric N⦄ ⦃cast : ToFloat N F⦄ ⦃f : Float F⦄
    (backend : Backend N F S) (cache : Cache F S) (clock : S → F) (s : Settings F) where
  unfoldable pub fetch_total_realized_pnl : Action S F
  unfolding excluded_slugs total_realized_pnl
  fetch_total_realized_pnl = select backend (total_realized_pnl (excluded_slugs s))

  -- The tier and the payload that is written, at the time of the write.
  unfoldable pub publish_tier : F → BankrollTier F → Action S (BankrollTier F)
  publish_tier pnl tier =
      (λ st. write_bankroll_state cache (to_state_payload pnl tier (clock st)) st) >> pure tier

  unfoldable pub run_once : Action S (BankrollTier F)
  unfolding fetch_total_realized_pnl publish_tier
  run_once = do
    pnl ← fetch_total_realized_pnl
    tier ← lift (select_tier s pnl)
    publish_tier pnl tier

  -- One turn of `run_loop`: what a cycle raises is swallowed.
  unfoldable pub run_turn : Action S (Unit {0})
  unfolding run_once
  run_turn = attempt tt (run_once >> pure tt)
