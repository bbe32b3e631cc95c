-- ===== src/Metrics.antt =====
-- src/oms_gateway/metrics.py: the snapshot of the open exposure, and its text for Prometheus. The
-- formats `:.2f` and `:.4f` are arguments.
pub mod Labels
pub mod Lines
pub mod Totals
use oms_gateway.Prelude.{
  ℕ, Bool, true, false, not, ◌&&◌, ◌||◌, ◌==◌, Option, none, some, List, [], ◌∷◌, ◌++◌, map, String,
  if◌then◌else◌, keep,
}
use oms_gateway.Effect.{Action, attempt, pure, ◌>>=◌}
use oms_gateway.Text.{Text, codes, is_empty, or_empty}
use oms_gateway.Text.Order.{sorted}
use oms_gateway.Dict.{insert, lookup, lookup_or}
use oms_gateway.Float.{Float, zero_float, or_zero}
use oms_gateway.Settings.{Settings}
use oms_gateway.Preflight.Cluster.{cluster_for}
use oms_gateway.Database.{Backend, select}
use oms_gateway.Database.Schema.{Numeric, ToFloat, Position, Strategy, Tables}
use oms_gateway.Database.Queries.{join, is_open, price}

-- `web.Response(text=..., content_type=...)`
pub record TextResponse : Type 0 where
  pub text : Text
  pub content_type : Text

abbrev pub backslash : ℕ
backslash = 92

abbrev pub quote : ℕ
quote = 34

abbrev pub newline : ℕ
newline = 10

-- `s.replace(c, word)` of one character
unfoldable pub replace_char : ℕ → Text → Text → Text
replace_char c word [] = []
replace_char c word (d ∷ s) =
    if d == c then word ++ replace_char c word s else d ∷ replace_char c word s

unfoldable pub escape_label : Text → Text
unfolding replace_char
escape_label value = replace_char newline (backslash ∷ b'n' ∷ []) (
    replace_char quote (backslash ∷ quote ∷ [])
      (replace_char backslash (backslash ∷ backslash ∷ []) value))

-- `"\n".join(lines)`
unfoldable pub join_lines : List Text → Text
join_lines [] = []
join_lines (line ∷ []) = line
join_lines (line ∷ next ∷ rest) = line ++ newline ∷ join_lines (next ∷ rest)

-- `f'name{key="..."} value'`
unfoldable pub sample : Text → Text → Text → Text → Text
unfolding escape_label
sample name key label value =
    name ++ (b'{' ∷ (key ++ (b'=' ∷ quote ∷ (escape_label label ++ (quote ∷ b'}' ∷ b' ' ∷ value)))))

-- One sample for each label.
unfoldable pub series : Text → Text → (Text → Text) → List Text → List Text
unfolding sample
series name key value [] = []
series name key value (label ∷ labels) =
    sample name key label (value label) ∷ series name key value labels

-- A gauge: its two comment lines and its samples.
unfoldable pub gauge : Text → Text → Text → Text → (Text → Text) → List Text → List Text
unfolding series
gauge help kind name key value labels = help ∷ kind ∷ series name key value labels

abbrev pub keys : {A : Type 0} → List (Text × A) → List Text
keys m = map (λ e. e.0) m

-- `_Snapshot`
pub record Exposures (F : Type 0) : Type 0 where
  pub by_bucket : List (Text × F)
  pub by_cluster : List (Text × F)
  pub last_refreshed_ts : F

-- A row of the query.
pub record OpenRow (F : Type 0) : Type 0 where
  pub bucket : Option Text
  pub venue : Option Text
  pub asset : Option Text
  pub notional : Option F

module _ {F : Type 0} ⦃f : Float F⦄ where
  open f use {lit, add, mul, div, lt}

  unfoldable pub cap_per_bucket : Settings F → List (Text × F) → List (Text × F)
  cap_per_bucket s [] = []
  cap_per_bucket s ((bucket, pct) ∷ rest) =
      if lt zero_float pct
      then (bucket, mul (div pct (lit 100 0)) s.paper_account_equity_usd) ∷ cap_per_bucket s rest
      else cap_per_bucket s rest

  -- `(cur / cap) if cap > 0 else 0.0`
  unfoldable pub utilization : F → F → F
  utilization cur cap = if lt zero_float cap then div cur cap else zero_float

  unfoldable pub cluster_cap : Settings F → F
  cluster_cap s = mul (div s.cluster_exposure_pct_cap (lit 100 0)) s.paper_account_equity_usd

  module _ (fixed2 fixed4 : F → Text) (s : Settings F) where
    unfoldable pub bucket_open_lines : List (Text × F) → List Text
    unfolding gauge sorted lookup_or utilization cluster_cap codes
    bucket_open_lines buckets =
        gauge (codes "# HELP oms_bucket_open_exposure_usd Current open notional per bucket (USD)")
          (codes "# TYPE oms_bucket_open_exposure_usd gauge") (codes "oms_bucket_open_exposure_usd")
          (codes "bucket") (λ b. fixed2 (lookup_or b zero_float buckets)) (sorted (keys buckets))

    unfoldable pub bucket_cap_lines : List (Text × F) → List Text
    unfolding gauge sorted lookup_or utilization cluster_cap codes
    bucket_cap_lines caps =
        gauge (codes "# HELP oms_bucket_exposure_cap_usd Configured per-bucket cap (USD)")
          (codes "# TYPE oms_bucket_exposure_cap_usd gauge") (codes "oms_bucket_exposure_cap_usd")
          (codes "bucket") (λ b. fixed2 (lookup_or b zero_float caps)) (sorted (keys caps))

    unfoldable pub bucket_utilization_lines : List (Text × F) → List (Text × F) → List Text
    unfolding gauge sorted lookup_or utilization cluster_cap codes
    bucket_utilization_lines buckets caps =
        gauge (codes "# HELP oms_bucket_exposure_utilization Current / cap; >1 means breach")
          (codes "# TYPE oms_bucket_exposure_utilization gauge")
          (codes "oms_bucket_exposure_utilization") (codes "bucket")
          (λ b. fixed4 (utilization (lookup_or b zero_float buckets) (lookup_or b zero_float caps)))
          (sorted (keys buckets ++ keys caps))

    unfoldable pub cluster_open_lines : List (Text × F) → List Text
    unfolding gauge sorted lookup_or utilization cluster_cap codes
    cluster_open_lines clusters =
        gauge
          (codes
            "# HELP oms_cluster_open_exposure_usd Current open notional per (venue, underlying) cluster")
          (codes "# TYPE oms_cluster_open_exposure_usd gauge")
          (codes "oms_cluster_open_exposure_usd") (codes "cluster")
          (λ c. fixed2 (lookup_or c zero_float clusters)) (sorted (keys clusters))

    unfoldable pub cluster_cap_lines : List Text
    unfolding cluster_cap codes
    cluster_cap_lines =
        codes "# HELP oms_cluster_exposure_cap_usd Configured per-cluster cap (USD)"
        ∷ codes "# TYPE oms_cluster_exposure_cap_usd gauge"
        ∷ (codes "oms_cluster_exposure_cap_usd " ++ fixed2 (cluster_cap s))
        ∷ []

    unfoldable pub cluster_utilization_lines : List (Text × F) → List Text
    unfolding gauge sorted lookup_or utilization cluster_cap codes
    cluster_utilization_lines clusters =
        gauge (codes "# HELP oms_cluster_exposure_utilization Current / cap; >1 means breach")
          (codes "# TYPE oms_cluster_exposure_utilization gauge")
          (codes "oms_cluster_exposure_utilization") (codes "cluster")
          (λ c. fixed4 (utilization (lookup_or c zero_float clusters) (cluster_cap s)))
          (sorted (keys clusters))

    -- `lines`
    unfoldable pub metric_lines : Exposures F → List Text
    unfolding bucket_open_lines bucket_cap_lines bucket_utilization_lines cluster_open_lines
        cluster_cap_lines cluster_utilization_lines cap_per_bucket
    metric_lines snap =
        let caps = cap_per_bucket s s.bucket_total_exposure_pct_cap in
        bucket_open_lines snap.by_bucket
        ++ (bucket_cap_lines caps
            ++ (bucket_utilization_lines snap.by_bucket caps
                ++ (cluster_open_lines snap.by_cluster
                    ++ (cluster_cap_lines ++ cluster_utilization_lines snap.by_cluster))))

    unfoldable pub render_metrics : Exposures F → Text
    unfolding metric_lines join_lines
    render_metrics snap = join_lines (metric_lines snap) ++ newline ∷ []

    -- `metrics_handler`, of the module's snapshot
    unfoldable pub metrics_handler : Exposures F → TextResponse
    unfolding render_metrics codes
    metrics_handler snap = record {
      text = render_metrics snap;
      content_type = codes "text/plain; version=0.0.4; charset=utf-8";
    }

  -- `by[key] = by.get(key, 0.0) + notional`
  unfoldable pub add_to : Text → F → List (Text × F) → List (Text × F)
  unfolding insert lookup_or
  add_to key notional m = insert key (add (lookup_or key zero_float m) notional) m

  -- `float(r["notional"] or 0.0)`
  unfoldable pub row_notional : OpenRow F → F
  unfolding or_zero
  row_notional r = elim r.notional [ none ↦ zero_float | some x ↦ or_zero x ]

  unfoldable pub row_cluster : OpenRow F → Text
  row_cluster r = cluster_for (or_empty r.venue) (or_empty r.asset)

  unfoldable pub add_bucket : OpenRow F → List (Text × F) → List (Text × F)
  unfolding add_to row_notional
  add_bucket r m =
      if is_empty (or_empty r.bucket) then m else add_to (or_empty r.bucket) (row_notional r) m

  -- The loop of `_refresh_once`, with its two dictionaries.
  unfoldable pub group_rows :
      List (OpenRow F) → List (Text × F) × List (Text × F) → List (Text × F) × List (Text × F)
  unfolding add_bucket add_to row_notional row_cluster
  group_rows [] m = m
  group_rows (r ∷ rows) m =
      group_rows rows (add_bucket r m.0, add_to (row_cluster r) (row_notional r) m.1)

  module _ {N : Type 0} ⦃num : Numeric N⦄ ⦃cast : ToFloat N F⦄ where
    open cast use {to_float}

    -- `p.qty * COALESCE(p.mark_price, p.avg_entry_price)::float`, of an open position and its strategy
    unfoldable pub row_of : Position N × Strategy → OpenRow F
    unfolding price
    row_of e = record {
      bucket = e.1.bucket;
      venue = some e.0.venue;
      asset = some e.0.asset;
      notional = some (mul (to_float e.0.qty) (to_float (price e.0)));
    }

    unfoldable pub open_rows : Tables N F → List (OpenRow F)
    unfolding join is_open row_of
    open_rows t =
        map row_of
          (keep (λ (e : Position N × Strategy). is_open e.0) (join t.strategies t.positions))

    module _ {S : Type 0} (backend : Backend N F S) (loop_time : S → F) where
      -- The new snapshot.
      unfoldable pub refresh_once : Action S (Exposures F)
      unfolding group_rows open_rows
      refresh_once = do
        rows ← select backend open_rows
        (λ st.
            let groups = group_rows rows ([], []) in
            pure
              (record {
                by_bucket = groups.0;
                by_cluster = groups.1;
                last_refreshed_ts = loop_time st;
              })
              st)

      -- One turn of `refresh_loop`: a failure leaves the snapshot.
      unfoldable pub refresh_turn : Exposures F → Action S (Exposures F)
      unfolding refresh_once
      refresh_turn snap = attempt snap refresh_once
