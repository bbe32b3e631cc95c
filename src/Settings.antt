-- ===== src/Settings.antt =====
-- src/oms_gateway/settings.py: the settings and their defaults. Reading the environment is pydantic's.
use oms_gateway.Prelude.{ℕ, Bool, false, List, [], ◌∷◌}
use oms_gateway.Text.{Text, codes}
use oms_gateway.Float.{Float}

pub record Settings (F : Type 0) : Type 0 where
  pub redis_url : Text
  pub aicore_db_url : Text
  pub alphas_stream : Text
  pub consumer_group : Text
  pub consumer_name : Text
  pub block_ms : ℕ
  pub batch_size : ℕ
  pub daily_dd_pct_cap : F
  pub weekly_dd_pct_cap : F
  pub monthly_dd_pct_cap : F
  pub total_dd_pct_cap : F
  pub paper_account_equity_usd : F
  pub default_per_trade_pct : F
  pub bucket_size_pct_max : List (Text × F)
  pub bucket_size_overrides : Text
  pub bucket_position_cap_mult : F
  pub bucket_total_exposure_pct_cap : List (Text × F)
  pub cluster_exposure_pct_cap : F
  pub default_strategy_budget_usd : F
  pub strategy_budget_overrides : Text
  pub strategy_order_cap_overrides : Text
  pub bankroll_aware_sizing_enabled : Bool
  pub bankroll_refresh_interval_sec : ℕ
  pub bankroll_seed_capital_usd : F
  pub aggressive_bankroll_ladder : Bool
  pub kelly_allocator_enabled : Bool
  pub kelly_refresh_interval_sec : ℕ
  pub kelly_discount : F
  pub kelly_floor_multiplier : F
  pub kelly_ceiling_multiplier : F
  pub live_strategy_whitelist_csv : Text
  pub paper_strategy_slugs : Text
  pub allow_same_direction_scale_in_strategies_csv : Text
  pub strategy_disable_directions_csv : Text
  pub bankroll_excluded_strategy_slugs_csv : Text
  pub halt_key : Text
  pub halt_strategy_prefix : Text
  pub cap_breaches_stream : Text
  pub cap_breaches_stream_maxlen : ℕ
  pub health_port : ℕ
  pub metrics_refresh_interval_sec : ℕ
  pub log_level : Text

module _ {F : Type 0} ⦃f : Float F⦄ where
  open f use {lit}

  -- The defaults of the class; the two URLs have none. The twelve excluded slugs are joined as the source joins them.
  unfoldable pub default_settings : Text → Text → Settings F
  unfolding codes
  default_settings redis_url aicore_db_url = record {
    redis_url = redis_url;
    aicore_db_url = aicore_db_url;
    alphas_stream = codes "alphas:active";
    consumer_group = codes "oms-gateway";
    consumer_name = codes "oms-gateway-1";
    block_ms = 5_000;
    batch_size = 50;
    daily_dd_pct_cap = lit 5 0;
    weekly_dd_pct_cap = lit 10 0;
    monthly_dd_pct_cap = lit 15 0;
    total_dd_pct_cap = lit 20 0;
    paper_account_equity_usd = lit 10_000 0;
    default_per_trade_pct = lit 1 0;
    bucket_size_pct_max =
        (codes "fast-intraday", lit 5 1)
        ∷ (codes "swing", lit 15 1)
        ∷ (codes "conviction", lit 5 0)
        ∷ (codes "poly-bet", lit 2 0)
        ∷ (codes "hedge", lit 3 0)
        ∷ [];
    bucket_size_overrides = [];
    bucket_position_cap_mult = lit 5 0;
    bucket_total_exposure_pct_cap =
        (codes "fast-intraday", lit 15 0)
        ∷ (codes "swing", lit 20 0)
        ∷ (codes "conviction", lit 30 0)
        ∷ (codes "poly-bet", lit 20 0)
        ∷ (codes "hedge", lit 15 0)
        ∷ [];
    cluster_exposure_pct_cap = lit 8 0;
    default_strategy_budget_usd = lit 200 0;
    strategy_budget_overrides = [];
    strategy_order_cap_overrides = [];
    bankroll_aware_sizing_enabled = false;
    bankroll_refresh_interval_sec = 60;
    bankroll_seed_capital_usd = lit 500 0;
    aggressive_bankroll_ladder = false;
    kelly_allocator_enabled = false;
    kelly_refresh_interval_sec = 600;
    kelly_discount = lit 25 2;
    kelly_floor_multiplier = lit 25 2;
    kelly_ceiling_multiplier = lit 3 0;
    live_strategy_whitelist_csv = codes "poly-chainlink-lag";
    paper_strategy_slugs = [];
    allow_same_direction_scale_in_strategies_csv = [];
    strategy_disable_directions_csv = [];
    bankroll_excluded_strategy_slugs_csv =
        codes
          "poly-publisher-taker,poly-publisher-taker-long,poly-publisher-taker-aggressive,poly-publisher-taker-aggressive-long,poly-publisher-taker-conservative,poly-publisher-taker-conservative-long,poly-publisher-taker-gamma-ok,poly-publisher-taker-sol,poly-publisher-taker-xrp,poly-politics-momentum,poly-sell-wings,poly-politics-momentum-slow";
    halt_key = codes "system:halt";
    halt_strategy_prefix = codes "system:halt:strategy:";
    cap_breaches_stream = codes "risk:cap_breaches";
    cap_breaches_stream_maxlen = 10_000;
    health_port = 8003;
    metrics_refresh_interval_sec = 60;
    log_level = codes "INFO";
  }
