-- ===== src/KellyAllocator.antt =====
-- src/oms_gateway/kelly_allocator.py: the Kelly fraction of a list of returns and the allocation of a
-- strategy. `sum` of floats and `** 2`, which raises OverflowError, are arguments.
pub mod Range
pub mod Cycle
pub mod Served
use oms_gateway.Prelude.{ℕ, ◌-◌, Bool, List, [], ◌∷◌, length, ltb, if◌then◌else◌}
use oms_gateway.Prelude.Result.{Result, ok, err, ◌>>=◌}
use oms_gateway.Text.{Text}
use oms_gateway.Float.{Float, zero_float, one_float, clamp}

pub record KellyAllocation (F : Type 0) : Type 0 where
  pub strategy_slug : Text
  pub n_trades : ℕ
  pub mean_return : F
  pub variance : F
  pub raw_kelly_fraction : F
  pub discounted_kelly : F
  pub capped_multiplier : F

module _ {F : Type 0} ⦃f : Float F⦄ where
  open f use {lit, sub, mul, div, lt, le}

  -- `[pnl / size for pnl, size in trades if size > 0]`
  unfoldable pub returns_of : List (F × F) → List F
  returns_of [] = []
  returns_of (trade ∷ trades) =
      if lt zero_float trade.1 then div trade.0 trade.1 ∷ returns_of trades else returns_of trades

  -- `max(floor, min(ceiling, disc))`, with the fraction before it.
  unfoldable pub fraction_of : F → F → F → F → F → F × F × F
  fraction_of mean var discount floor ceiling =
      let raw = div mean var in (raw, mul raw discount, clamp floor ceiling (mul raw discount))

  -- `(0.0, 0.0, 1.0)`
  abbrev pub neutral : F × F × F
  neutral = (zero_float, zero_float, one_float)

  unfoldable pub neutral_allocation : Text → ℕ → KellyAllocation F
  neutral_allocation slug n = record {
    strategy_slug = slug;
    n_trades = n;
    mean_return = zero_float;
    variance = zero_float;
    raw_kelly_fraction = zero_float;
    discounted_kelly = zero_float;
    capped_multiplier = one_float;
  }

  module _ (sum : List F → F) (square : F → Result F) where
    unfoldable pub squares : F → List F → Result (List F)
    squares mean [] = ok []
    squares mean (x ∷ xs) = square (sub x mean) >>= λ y. (squares mean xs >>= λ ys. ok (y ∷ ys))

    unfoldable pub mean_of : List F → F
    mean_of returns = div (sum returns) (lit (length returns) 0)

    unfoldable pub variance_of : List F → Result F
    unfolding squares mean_of
    variance_of returns =
        squares (mean_of returns) returns >>= λ ys. ok (div (sum ys) (lit (length returns - 1) 0))

    unfoldable pub compute_kelly_fraction : List F → F → F → F → Result (F × F × F)
    compute_kelly_fraction returns discount floor ceiling =
        if ltb (length returns) 5
        then ok neutral
        else (variance_of returns >>= λ var. ok (
            if le var zero_float
            then neutral
            else fraction_of (mean_of returns) var discount floor ceiling))

    unfoldable pub allocation_of : Text → List F → F × F × F → F → KellyAllocation F
    allocation_of slug returns kelly var = record {
      strategy_slug = slug;
      n_trades = length returns;
      mean_return = mean_of returns;
      variance = var;
      raw_kelly_fraction = kelly.0;
      discounted_kelly = kelly.1;
      capped_multiplier = kelly.2;
    }

    unfoldable pub compute_allocation : Text → List (F × F) → F → F → F → Result (KellyAllocation F)
    compute_allocation slug trades discount floor ceiling =
        let returns = returns_of trades in
        if ltb (length returns) 5
        then ok (neutral_allocation slug (length returns))
        else (compute_kelly_fraction returns discount floor ceiling >>= λ kelly.
            (variance_of returns >>= λ var. ok (allocation_of slug returns kelly var)))
