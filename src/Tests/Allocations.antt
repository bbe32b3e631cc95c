-- ===== src/Tests/Allocations.antt =====
-- Runs of the Kelly allocator.
use oms_gateway.Prelude.{◌≡◌, refl, some, List, [], ◌∷◌}
use oms_gateway.Prelude.Int.{pos, negsuc, ◌+ℤ◌, ◌-ℤ◌, ◌*ℤ◌}
use oms_gateway.Prelude.Result.{Result, ok}
use oms_gateway.Float.{clamp, min_float, max_float}
use oms_gateway.Float.Fixed.{Fixed, fixed_float, lit_fixed, mul_fixed, div_fixed}
use oms_gateway.KellyAllocator.{
  KellyAllocation, compute_allocation, compute_kelly_fraction, variance_of, mean_of, squares,
  fraction_of, returns_of, allocation_of,
}
use oms_gateway.Tests.Data.{usd, slug}

abbrev pub total : List Fixed → Fixed
total [] = usd 0
total (x ∷ xs) = fixed_float.add x (total xs)

abbrev pub squared : Fixed → Result Fixed
squared x = ok (fixed_float.mul x x)

-- Profits of 10, -5, 10, 5 and 0 dollars on 100 dollars each.
abbrev trades : List (Fixed × Fixed)
trades =
    (usd 10, usd 100)
    ∷ (some (negsuc 49_999), usd 100)
    ∷ (usd 10, usd 100)
    ∷ (usd 5, usd 100)
    ∷ (usd 0, usd 100)
    ∷ []

abbrev allocation : KellyAllocation Fixed
allocation = record {
  strategy_slug = slug;
  n_trades = 5;
  mean_return = some (pos 400);
  variance = some (pos 42);
  raw_kelly_fraction = some (pos 95_238);
  discounted_kelly = some (pos 23_809);
  capped_multiplier = some (pos 23_809);
}

-- The default discount, floor and ceiling.
allocated :
    compute_allocation total squared slug trades (some (pos 2500)) (some (pos 2500)) (usd 3)
    ≡ ok allocation
unfolding compute_allocation compute_kelly_fraction variance_of mean_of squares fraction_of
    returns_of allocation_of clamp min_float max_float lit_fixed mul_fixed div_fixed ◌+ℤ◌ ◌-ℤ◌ ◌*ℤ◌
allocated = refl
