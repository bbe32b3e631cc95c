-- ===== src/Tests/Exposition.antt =====
-- Runs of the metrics.
use oms_gateway.Prelude.{◌≡◌, false, none, some, [], ◌∷◌, ◌++◌, keep, arith}
use oms_gateway.Text.{Text, codes}
use oms_gateway.Text.Split.{split, Free}
use oms_gateway.Dict.{lookup_or}
use oms_gateway.Float.{zero_float}
use oms_gateway.Float.Fixed.{Fixed, fixed_float}
use oms_gateway.Metrics.{
  Exposures, OpenRow, quote, newline, escape_label, group_rows, render_metrics, metric_lines,
}
use oms_gateway.Metrics.Labels.{read_label, read_label-escape_label}
use oms_gateway.Metrics.Totals.{sum_from, of_bucket, of_cluster, group_rows-sums}
use oms_gateway.Metrics.Lines.{split-render_metrics}
use oms_gateway.Tests.Data.{usd, settings}

-- A name with a quote and a line break.
unfoldable hostile : Text
unfolding codes
hostile = codes "swing" ++ (quote ∷ newline ∷ [])

unfoldable snapshot : Exposures Fixed
unfolding codes
snapshot = record {
  by_bucket = (hostile, usd 30) ∷ [];
  by_cluster = (codes "poly:bitcoin", usd 12) ∷ [];
  last_refreshed_ts = usd 0;
}

abbrev shown : Fixed → Text
shown none = b'-' ∷ []
shown (some z) = b'1' ∷ []

row : Fixed → OpenRow Fixed
row x = record {
  bucket = some hostile;
  venue = some (codes "binance");
  asset = some (codes "BTCUSDT");
  notional = some x;
}

read_label-escape_label_example :
    read_label false (escape_label hostile ++ quote ∷ codes "} 1") ≡ some (hostile, codes "} 1")
read_label-escape_label_example = read_label-escape_label hostile (codes "} 1")

split-render_metrics_example :
    split newline (render_metrics shown shown settings snapshot)
    ≡ metric_lines shown shown settings snapshot ++ [] ∷ []
split-render_metrics_example = split-render_metrics shown shown settings plain plain snapshot
  where
    plain : (x : Fixed) → Free newline (shown x)
    plain none = (ground arith, tt)
    plain (some z) = (ground arith, tt)

group_rows-sums_example :
    (lookup_or hostile zero_float (group_rows (row (usd 2) ∷ row (usd 3) ∷ []) ([], [])).0
      ≡ sum_from zero_float (keep (of_bucket hostile) (row (usd 2) ∷ row (usd 3) ∷ [])))
    × (lookup_or hostile zero_float (group_rows (row (usd 2) ∷ row (usd 3) ∷ []) ([], [])).1
        ≡ sum_from zero_float (keep (of_cluster hostile) (row (usd 2) ∷ row (usd 3) ∷ [])))
group_rows-sums_example = group_rows-sums hostile (row (usd 2) ∷ row (usd 3) ∷ [])
