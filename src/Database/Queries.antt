-- ===== src/Database/Queries.antt =====
-- The SQL of db.py, as functions on the tables.
use oms_gateway.Prelude.{
  ℕ, Bool, true, false, ◌&&◌, ◌||◌, Option, none, some, List, [], ◌∷◌, ◌++◌, map, if◌then◌else◌,
  keep, leb, ◌==◌,
}
use oms_gateway.Text.{Text, codes, text_eq}
use oms_gateway.Value.{str}
use oms_gateway.Preflight.Decision.{ExistingPosition, RiskSnapshot, Snapshots, period_text}
use oms_gateway.Database.Schema.{
  Numeric, ToFloat, Strategy, Position, RiskRow, Intent, Fill, Tables,
}

-- `column = $1` where the column may be NULL
unfoldable pub equals : Option Text → Text → Bool
equals none t = false
equals (some s) t = text_eq s t

-- A part of a LIKE pattern: `%`, `_`, or a character.
pub data Token : Type 0 where
  any_run : Token
  any_char : Token
  exactly : ℕ → Token

abbrev pub token_of : ℕ → Token
token_of p = if p == b'%' then any_run else if p == b'_' then any_char else exactly p

-- After a backslash, the flag, a character stands for itself; a pattern does not end with one.
unfoldable pub tokens_from : Bool → Text → List Token
tokens_from escaped [] = []
tokens_from true (p ∷ ps) = exactly p ∷ tokens_from false ps
tokens_from false (p ∷ ps) =
    let escape = tokens_from true ps in
    let rest = tokens_from false ps in if p == 92 then escape else token_of p ∷ rest

unfoldable pub matches : List Token → Text → Bool
matches [] [] = true
matches [] (c ∷ t) = false
matches (any_run ∷ ps) [] = matches ps []
matches (any_run ∷ ps) (c ∷ t) =
    let stop = matches ps (c ∷ t) in let skip = matches (any_run ∷ ps) t in stop || skip
matches (any_char ∷ ps) [] = false
matches (any_char ∷ ps) (c ∷ t) = matches ps t
matches (exactly p ∷ ps) [] = false
matches (exactly p ∷ ps) (c ∷ t) = p == c && matches ps t

-- `text LIKE pattern`
unfoldable pub like : Text → Text → Bool
unfolding tokens_from matches
like pattern t = matches (tokens_from false pattern) t

-- The latest of the rows, by a time; the first one of equal times.
unfoldable pub latest : {A : Type 0} → (A → ℕ) → List A → Option A
latest time [] = none
latest time (x ∷ xs) = elim (latest time xs) [
  | none ↦ some x
  | some y ↦ if leb (time y) (time x) then some x else some y
]

-- `positions p JOIN strategies s ON s.id = p.strategy_id`
unfoldable pub join :
    {N : Type 0} → List Strategy → List (Position N) → List (Position N × Strategy)
join ss [] = []
join ss (p ∷ ps) = map (λ s. (p, s)) (keep (λ s. text_eq s.id p.strategy_id) ss) ++ join ss ps

module _ {N : Type 0} ⦃num : Numeric N⦄ where
  open num use {mul, sum, above_zero}

  -- `p.status = 'open' AND p.qty > 0`
  unfoldable pub is_open : Position N → Bool
  unfolding codes
  is_open p = text_eq p.status (codes "open") && above_zero p.qty

  -- `COALESCE(p.mark_price, p.avg_entry_price)`
  unfoldable pub price : Position N → N
  price p = elim p.mark_price [ none ↦ p.avg_entry_price | some m ↦ m ]

  unfoldable pub open_notional : Position N → N
  unfolding price
  open_notional p = mul p.qty (price p)

  -- `p.venue = $1 AND (p.asset LIKE $2 OR p.asset = $3)` and open.
  unfoldable pub in_cluster : Text → Text → Text → Position N → Bool
  unfolding like is_open
  in_cluster venue pattern exact p =
      text_eq p.venue venue && (like pattern p.asset || text_eq p.asset exact) && is_open p

module _ {N F : Type 0} ⦃num : Numeric N⦄ ⦃cast : ToFloat N F⦄ where
  open num use {sum}
  open cast use {to_float}

  -- `COALESCE(SUM(...), 0)::float`
  unfoldable pub exposure : List (Position N) → F
  unfolding open_notional
  exposure ps = to_float (sum (map open_notional ps))

  unfoldable pub numeric_float : Option N → Option F
  numeric_float none = none
  numeric_float (some x) = some (to_float x)

  -- The positions of a join that the condition selects.
  unfoldable pub joined : (Position N × Strategy → Bool) → Tables N F → List (Position N)
  unfolding join
  joined condition t = map (λ e. e.0) (keep condition (join t.strategies t.positions))

  unfoldable pub strategy_exposure : Text → Tables N F → F
  unfolding exposure joined is_open
  strategy_exposure slug t = exposure (joined (λ e. text_eq e.1.slug slug && is_open e.0) t)

  unfoldable pub bucket_exposure : Text → Tables N F → F
  unfolding exposure joined is_open equals
  bucket_exposure bucket t = exposure (joined (λ e. equals e.1.bucket bucket && is_open e.0) t)

  unfoldable pub cluster_exposure : Text → Text → Text → Tables N F → F
  unfolding exposure in_cluster
  cluster_exposure venue pattern exact t =
      exposure (keep (in_cluster venue pattern exact) t.positions)

  unfoldable pub snapshot_of : (ℕ → Text) → RiskRow N → RiskSnapshot F
  unfolding numeric_float
  snapshot_of time_text r = record {
    drawdown_pct = numeric_float r.drawdown_pct;
    snapshot_at = str (time_text r.snapshot_at);
  }

  -- `DISTINCT ON (period) ... ORDER BY period, snapshot_at DESC`, by period.
  unfoldable pub latest_snapshots : (ℕ → Text) → Text → Tables N F → Snapshots F
  unfolding latest snapshot_of codes
  latest_snapshots time_text scope t period =
      elim (latest (λ (r : RiskRow N). r.snapshot_at)
        (keep (λ r. text_eq r.scope scope && text_eq r.period (codes (period_text period)))
          t.risk_ledger)) [ none ↦ none | some r ↦ some (snapshot_of time_text r) ]

  -- The row, with the conversions of the router.
  unfoldable pub position_of : Position N → ExistingPosition F
  unfolding numeric_float
  position_of p = record {
    qty = to_float p.qty;
    side = p.side;
    mark_price = numeric_float p.mark_price;
    avg_entry_price = to_float p.avg_entry_price;
  }

  unfoldable pub open_position : Text → Text → Tables N F → Option (ExistingPosition F)
  unfolding latest position_of is_open
  open_position strategy_id asset t =
      elim (latest (λ (p : Position N). p.opened_at)
        (keep (λ p. text_eq p.strategy_id strategy_id && text_eq p.asset asset && is_open p)
          t.positions)) [ none ↦ none | some p ↦ some (position_of p) ]

-- The row with the key of an insert.
unfoldable pub has_key : {F : Type 0} → Text → Text → List (Intent F) → Bool
has_key strategy_id key [] = false
has_key strategy_id key (i ∷ is) =
    text_eq i.strategy_id strategy_id && text_eq i.idempotency_key key || has_key strategy_id key is

-- The first row of the strategy, or NULL.
unfoldable pub first_bucket : List Strategy → Option Text
first_bucket [] = none
first_bucket (s ∷ ss) = s.bucket

module _ {N F : Type 0} where
  unfoldable pub bucket_of : Text → Tables N F → Option Text
  unfolding first_bucket
  bucket_of id t = first_bucket (keep (λ (s : Strategy). text_eq s.id id) t.strategies)

  -- `ON CONFLICT (strategy_id, idempotency_key) DO NOTHING RETURNING id`
  unfoldable pub insert_intent_row :
      (Tables N F → Text) → Intent F → Tables N F → Option Text × Tables N F
  unfolding has_key
  insert_intent_row default_id intent t =
      if has_key intent.strategy_id intent.idempotency_key t.oms_intents then (none, t) else (
        some (default_id t),
        record t { oms_intents = record intent { id = default_id t } ∷ t.oms_intents },
      )

  unfoldable pub insert_fill_row : Fill F → Tables N F → Unit {0} × Tables N F
  insert_fill_row fill t = (tt, record t { fills = fill ∷ t.fills })
