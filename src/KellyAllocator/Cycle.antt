-- ===== src/KellyAllocator/Cycle.antt =====
-- src/oms_gateway/kelly_allocator.py: the cycle, which groups the closed trades by strategy and caches
-- a multiplier for each, and the reader of the cache. A payload is a JSON object with slugs as keys.
use oms_gateway.Prelude.{
  ℕ, zero, suc, ◌*◌, ◌+◌, Bool, false, not, ◌&&◌, Option, none, some, List, [], ◌∷◌, ◌++◌, map,
  if◌then◌else◌, keep, ltb, leb,
}
use oms_gateway.Prelude.Result.{
  Result, ok, err, type_error, value_error, json_error, attribute_error, catch_type_value,
}
use oms_gateway.Effect.{Action, pure, lift, attempt, ◌>>=◌, ◌>>◌}
use oms_gateway.Text.{Text, codes, text_eq, is_empty}
use oms_gateway.Text.Order.{text_leb}
use oms_gateway.Dict.{insert, lookup_or}
use oms_gateway.Float.{Float, zero_float, one_float, or_zero}
use oms_gateway.Value.{Value, float, to_float}
use oms_gateway.Settings.{Settings}
use oms_gateway.Database.{Backend, select}
use oms_gateway.Database.Schema.{Numeric, ToFloat, Position, Strategy, Tables}
use oms_gateway.Database.Queries.{join, numeric_float}
use oms_gateway.KellyAllocator.{KellyAllocation, compute_allocation}

-- A row of the query.
pub record Trade (F : Type 0) : Type 0 where
  pub slug : Text
  pub realized_pnl_usd : Option F
  pub size_usd : Option F

-- What `json.loads` gives.
pub data Payload (F : Type 0) : Type 0 where
  object : List (Text × Value F) → Payload F
  other : Payload F

abbrev pub allocations_state_ttl_sec : ℕ
allocations_state_ttl_sec = 600

unfoldable pub allocations_state_key : Text
unfolding codes
allocations_state_key = codes "oms:kelly:allocations"

unfoldable pub refreshed_key : Text
unfolding codes
refreshed_key = codes "__refreshed_at_unix__"

pub record AllocationCache (F S : Type 0) : Type 0 where
  pub get : Text → Action S (Option Text)
  pub set : Text → Text → ℕ → Action S (Unit {0})
  pub loads : Text → Result (Payload F)
  pub dumps : List (Text × Value F) → Result Text

module _ {F : Type 0} where
  -- `out.setdefault(slug, []).append(trade)`
  unfoldable pub append_trade :
      Text → F × F → List (Text × List (F × F)) → List (Text × List (F × F))
  unfolding insert lookup_or
  append_trade slug trade out = insert slug (lookup_or slug [] out ++ trade ∷ []) out

module _ {F : Type 0} ⦃f : Float F⦄ where
  open f use {lit, sub, le, lt}

  -- `float(x or 0.0)`
  unfoldable pub number_or_zero : Option F → F
  number_or_zero none = zero_float
  number_or_zero (some x) = or_zero x

  unfoldable pub group_trades :
      List (Trade F) → List (Text × List (F × F)) → List (Text × List (F × F))
  unfolding append_trade number_or_zero
  group_trades [] out = out
  group_trades (r ∷ rows) out =
      let pnl = number_or_zero r.realized_pnl_usd in
      let size = number_or_zero r.size_usd in
      group_trades rows (if le size zero_float then out else append_trade r.slug (pnl, size) out)

  -- The payload of `write_allocations`.
  unfoldable pub payload_of :
      List (KellyAllocation F) → List (Text × Value F) → List (Text × Value F)
  unfolding insert
  payload_of [] out = out
  payload_of (a ∷ rest) out =
      payload_of rest (insert a.strategy_slug (float a.capped_multiplier) out)

  unfoldable pub allocation_payload : List (KellyAllocation F) → F → List (Text × Value F)
  unfolding payload_of refreshed_key
  allocation_payload allocations now = insert refreshed_key (float now) (payload_of allocations [])

  -- `float(v)` with 1.0 for TypeError and ValueError
  unfoldable pub float_or_one : Value F → Result F
  float_or_one v = catch_type_value (to_float v) (ok one_float)

  unfoldable pub multiplier_at : Text → F → List (Text × Value F) → F → Result F
  unfolding float_or_one lookup_or
  multiplier_at slug now m refreshed =
      if lt (lit allocations_state_ttl_sec 0) (sub now refreshed)
      then ok one_float
      else float_or_one (lookup_or slug (float one_float) m)

  -- With the time of the refresh; what is no number gives 1.0.
  unfoldable pub aged_multiplier : Text → F → List (Text × Value F) → Result F → Result F
  unfolding multiplier_at
  aged_multiplier slug now m (ok refreshed) = multiplier_at slug now m refreshed
  aged_multiplier slug now m (err type_error) = ok one_float
  aged_multiplier slug now m (err value_error) = ok one_float
  aged_multiplier slug now m (err e) = err e

  unfoldable pub payload_multiplier : Text → F → Result (Payload F) → Result F
  unfolding aged_multiplier lookup_or refreshed_key
  payload_multiplier slug now (ok (object m)) =
      aged_multiplier slug now m (to_float (lookup_or refreshed_key (float zero_float) m))
  payload_multiplier slug now (ok other) = err attribute_error
  payload_multiplier slug now (err type_error) = ok one_float
  payload_multiplier slug now (err value_error) = ok one_float
  payload_multiplier slug now (err json_error) = ok one_float
  payload_multiplier slug now (err e) = err e

  unfoldable pub raw_multiplier : (Text → Result (Payload F)) → Text → F → Option Text → Result F
  unfolding payload_multiplier
  raw_multiplier loads slug now none = ok one_float
  raw_multiplier loads slug now (some raw) =
      if is_empty raw then ok one_float else payload_multiplier slug now (loads raw)

module _ {F S : Type 0} ⦃f : Float F⦄ (cache : AllocationCache F S) (clock : S → F)
    (s : Settings F) where
  open cache use {get, set, loads, dumps}

  unfoldable pub read_allocation_multiplier : Text → Action S F
  unfolding raw_multiplier allocations_state_key
  read_allocation_multiplier slug =
      if not s.kelly_allocator_enabled
      then pure one_float
      else (attempt none (get allocations_state_key) >>= λ raw.
          (λ st. lift (raw_multiplier loads slug (clock st) raw) st))

  -- Never raises.
  unfoldable pub write_allocations : List (KellyAllocation F) → Action S (Unit {0})
  unfolding allocation_payload allocations_state_key
  write_allocations allocations st =
      attempt tt
        (lift (dumps (allocation_payload allocations (clock st))) >>= λ text.
          set allocations_state_key text (2 * allocations_state_ttl_sec))
        st

-- A key of the query: the slug, and the later time first.
unfoldable pub goes_before : Text × ℕ → Text × ℕ → Bool
unfolding text_leb
goes_before a b = if text_eq a.0 b.0 then leb b.1 a.1 else text_leb a.0 b.0

unfoldable pub place : {A : Type 0} → (A → Text × ℕ) → A → List A → List A
unfolding goes_before
place key x [] = x ∷ []
place key x (y ∷ ys) = if goes_before (key x) (key y) then x ∷ y ∷ ys else y ∷ place key x ys

-- `ORDER BY slug, closed_at DESC`
unfoldable pub in_order : {A : Type 0} → (A → Text × ℕ) → List A → List A
unfolding place
in_order key [] = []
in_order key (x ∷ xs) = place key x (in_order key xs)

-- Thirty days
abbrev pub trade_window : ℕ
trade_window = 2_592_000_000_000

abbrev pub take_trades : {A : Type 0} → ℕ → List A → List A
take_trades zero xs = []
take_trades (suc n) [] = []
take_trades (suc n) (x ∷ xs) = x ∷ take_trades n xs

-- `p.closed_at > NOW() - INTERVAL '30 days'`; a NULL is no match.
unfoldable pub is_recent : ℕ → Option ℕ → Bool
is_recent now none = false
is_recent now (some at) = ltb now (at + trade_window)

unfoldable pub has_size : {N : Type 0} → ⦃num : Numeric N⦄ → Option N → Bool
has_size none = false
has_size ⦃num⦄ (some x) = num.above_zero x

module _ {N F : Type 0} ⦃num : Numeric N⦄ ⦃cast : ToFloat N F⦄ where
  -- `CLOSED_TRADES_SQL`, at the time `now`
  unfoldable pub closed_trades : ℕ → Tables N F → List (Trade F)
  unfolding join is_recent has_size in_order numeric_float codes
  closed_trades now t =
      map
        (λ (e : Position N × Strategy). record {
          slug = e.1.slug;
          realized_pnl_usd = numeric_float e.0.realized_pnl_usd;
          size_usd = numeric_float e.0.size_usd;
        })
        (take_trades 5000 (
          in_order
            (λ (e : Position N × Strategy).
              (e.1.slug, elim e.0.closed_at [ none ↦ 0 | some at ↦ at ]))
            (keep
              (λ (e : Position N × Strategy).
                text_eq e.0.status (codes "closed")
                && (is_recent now e.0.closed_at && has_size e.0.size_usd))
              (join t.strategies t.positions))))

module _ {F : Type 0} ⦃f : Float F⦄ (sum : List F → F) (square : F → Result F)
    (s : Settings F) where
  -- The loop of `run_once`.
  unfoldable pub allocate : List (Text × List (F × F)) → Result (List (KellyAllocation F))
  unfolding compute_allocation
  allocate [] = ok []
  allocate ((slug, trades) ∷ rest) =
      let later = allocate rest in
      elim (compute_allocation sum square slug trades s.kelly_discount s.kelly_floor_multiplier
        s.kelly_ceiling_multiplier) [
          | err e ↦ err e
          | ok a ↦ elim later [ err e ↦ err e | ok more ↦ ok (a ∷ more) ]
        ]

module _ {N F S : Type 0} ⦃num : Numeric N⦄ ⦃cast : ToFloat N F⦄ ⦃f : Float F⦄
    (backend : Backend N F S) (cache : AllocationCache F S) (clock : S → F) (now : ℕ)
    (sum : List F → F) (square : F → Result F) (s : Settings F) where
  -- No trades when the query fails.
  unfoldable pub fetch_trades_grouped : Action S (List (Text × List (F × F)))
  unfolding closed_trades group_trades
  fetch_trades_grouped =
      attempt [] (select backend (closed_trades now)) >>= λ rows. pure (group_trades rows [])

  unfoldable pub run_once : Action S (List (KellyAllocation F))
  unfolding fetch_trades_grouped allocate write_allocations
  run_once = do
    trades ← fetch_trades_grouped
    allocations ← lift (allocate sum square s trades)
    write_allocations cache clock s allocations
    pure allocations
