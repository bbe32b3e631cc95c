-- ===== src/Float.antt =====
-- Python's float: the type and the operations that the code uses, as an interface. The comparisons
-- are those of IEEE 754, where every comparison with NaN is false.
pub mod Laws
pub mod Fixed
pub mod Exact
use oms_gateway.Prelude.{ℕ, ◌≡◌, Bool, true, Option, not, if◌then◌else◌}
use oms_gateway.Prelude.Int.{ℤ}
use oms_gateway.Text.{Text}

pub record Float (F : Type 0) : Type 0 where
  -- the literal n / 10^k of the source: `lit 25 2` is 0.25
  pub lit : ℕ → ℕ → F
  pub add : F → F → F
  pub sub : F → F → F
  pub mul : F → F → F
  pub div : F → F → F
  pub neg : F → F
  pub lt : F → F → Bool
  pub le : F → F → Bool
  pub eq : F → F → Bool
  -- `round(x, 2)`
  pub round2 : F → F
  -- `math.isfinite`
  pub is_finite : F → Bool
  -- `float(s)` of a stripped string; `none` is the ValueError
  pub parse : Text → Option F
  -- `float(n)`; `none` is the OverflowError
  pub of_int : ℤ → Option F

module _ {F : Type 0} ⦃f : Float F⦄ where
  abbrev pub zero_float : F
  zero_float = f.lit 0 0

  abbrev pub one_float : F
  one_float = f.lit 1 0

  -- `min(a, b)` and `max(a, b)`: the first argument, unless the second one is smaller (larger).
  unfoldable pub min_float : F → F → F
  min_float a b = if f.lt b a then b else a

  unfoldable pub max_float : F → F → F
  max_float a b = if f.lt a b then b else a

  -- `max(lo, min(hi, x))`
  unfoldable pub clamp : F → F → F → F
  unfolding min_float max_float
  clamp lo hi x = max_float lo (min_float hi x)

  -- `x or 0.0`
  unfoldable pub or_zero : F → F
  or_zero x = if f.eq x zero_float then zero_float else x

  infix 4 ◌≼◌
  abbrev pub ◌≼◌ : F → F → Type 0
  x ≼ y = f.le x y ≡ true

  -- Every float but NaN is `<=` itself.
  abbrev pub IsNumber : F → Type 0
  IsNumber x = x ≼ x

  abbrev pub IsFinite : F → Type 0
  IsFinite x = f.is_finite x ≡ true
