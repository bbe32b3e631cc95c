-- ===== src/Tests/Clusters.antt =====
-- Positions and the filters of their clusters.
use oms_gateway.Prelude.{ℕ, arith, ◌≡◌, refl, true, false, some, none, [], ◌∷◌, ◌++◌, keep}
use oms_gateway.Text.{
  codes, text_eq, is_empty, mem_text, strip, lstrip, is_space, lower, lower_char, upper, upper_char,
}
use oms_gateway.Text.Split.{partition, split}
use oms_gateway.Preflight.Decision.{Side}
use oms_gateway.Preflight.Cluster.{
  poly_cluster, semantic_head, slug_prefixes, SqlFilter, cluster_for, crypto_cluster, before_dash,
  cluster_sql_filter,
}
use oms_gateway.Database.Schema.{Position, Tables}
use oms_gateway.Database.Queries.{in_cluster, is_open, open_notional}
use oms_gateway.Database.Covered.{position-covered, position-uncovered}
use oms_gateway.Database.Counted.{Counts, position-counted}
use oms_gateway.Float.Fixed.{Fixed}
use oms_gateway.Tests.Rounds.{natural, to_dollars}

bitcoin : Position ℕ
unfolding codes
bitcoin = record {
  strategy_id = codes "s-1";
  venue = codes "binance";
  asset = codes "BTC-USDT";
  status = codes "open";
  side = Side.long;
  qty = 2;
  mark_price = some 30;
  avg_entry_price = 28;
  opened_at = 0;
  realized_pnl_usd = none;
  size_usd = none;
  closed_at = none;
  paper = none;
  paper_purged = none;
}

position-covered_example :
    (filter : SqlFilter) × (cluster_sql_filter (codes "crypto:" ++ codes "BTC") ≡ some filter)
    × (in_cluster filter.venue filter.like_pattern filter.exact bitcoin ≡ true)
unfolding bitcoin codes text_eq is_empty strip lstrip is_space lower lower_char upper upper_char
    partition cluster_for crypto_cluster before_dash is_open
position-covered_example =
    position-covered (codes "BTC") bitcoin (ground arith) refl (ground arith) refl refl refl refl

-- Another pair of bitcoin, and a position of another cluster.
other_bitcoin : Position ℕ
unfolding bitcoin codes
other_bitcoin = record bitcoin { asset = codes "BTC-EUR"; qty = 1 }

ether : Position ℕ
unfolding bitcoin codes
ether = record bitcoin { asset = codes "ETH-USDT" }

abbrev tables : Tables ℕ Fixed
tables = record {
  strategies = [];
  positions = ether ∷ other_bitcoin ∷ bitcoin ∷ [];
  risk_ledger = [];
  oms_intents = [];
  fills = [];
}

position-counted_example :
    (filter : SqlFilter) × (cluster_sql_filter (codes "crypto:" ++ codes "BTC") ≡ some filter)
    × Counts filter tables (open_notional bitcoin)
unfolding bitcoin codes text_eq is_empty strip lstrip is_space lower lower_char upper upper_char
    partition cluster_for crypto_cluster before_dash is_open
position-counted_example =
    position-counted (codes "BTC") bitcoin tables (ether ∷ other_bitcoin ∷ []) [] (ground arith)
      refl (ground arith) refl refl refl refl refl

will_bitcoin : Position ℕ
unfolding bitcoin codes
will_bitcoin = record bitcoin { venue = codes "polymarket"; asset = codes "will-bitcoin-reach-82k" }

position-uncovered_example :
    (filter : SqlFilter) × (cluster_sql_filter (cluster_for will_bitcoin.venue will_bitcoin.asset)
      ≡ some filter)
    × (in_cluster filter.venue filter.like_pattern filter.exact will_bitcoin ≡ false)
unfolding will_bitcoin bitcoin codes text_eq is_empty strip lstrip is_space lower lower_char split
    mem_text cluster_for poly_cluster semantic_head slug_prefixes keep
position-uncovered_example =
    position-uncovered will_bitcoin b'b' b'w' (codes "itcoin") (codes "ill-bitcoin-reach-82k") refl
      refl (ground arith) (ground arith)
