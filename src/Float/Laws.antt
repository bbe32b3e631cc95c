-- ===== src/Float/Laws.antt =====
-- The laws of IEEE 754 comparisons and of correctly rounded operations that the theorems rely on,
-- and what they give for `min`, `max` and clamping.
use Prim.Native.Nat.{◌*◌, ◌^◌, ◌≤◌}
use oms_gateway.Prelude.{some, ℕ, ◌≡◌, ◌⊎◌, true, false, not, arith}
use oms_gateway.Prelude.Int.{pos}
use oms_gateway.Float.{
  Float, ◌≼◌, IsNumber, IsFinite, min_float, max_float, clamp, zero_float, one_float,
}

-- The order, which is total away from NaN.
pub record IsOrdered (F : Type 0) ⦃f : Float F⦄ : Type 0 where
  pub refl_of_le : (x y : F) → x ≼ y → IsNumber x × IsNumber y
  pub le_trans : (x y z : F) → x ≼ y → y ≼ z → x ≼ z
  pub le_total : (x y : F) → IsNumber x → IsNumber y → (x ≼ y) ⊎ (y ≼ x)
  pub lt-eq-not-le : (x y : F) → IsNumber x → IsNumber y → f.lt x y ≡ not (f.le y x)
  pub le_of_lt : (x y : F) → f.lt x y ≡ true → x ≼ y
  pub number_of_finite : (x : F) → IsFinite x → IsNumber x
  -- a literal is the nearest float, and rounding to nearest keeps the order
  pub finite_of_between : (lo x hi : F) → IsFinite lo → IsFinite hi → lo ≼ x → x ≼ hi → IsFinite x
  pub lit_finite : (n k : ℕ) → n ≤ 1_000_000 → IsFinite (f.lit n k)
  pub of_int_nonneg : (n : ℕ) (x : F) → f.of_int (pos n) ≡ some x → zero_float ≼ x
  pub lit_mono : (m j n k : ℕ) → m * 10 ^ k ≤ n * 10 ^ j → f.lit m j ≼ f.lit n k

-- Rounding to nearest keeps the order of exact results, and finite operands give no NaN under
-- addition and multiplication.
pub record IsRounded (F : Type 0) ⦃f : Float F⦄ : Type 0 where
  pub ordered : IsOrdered F
  pub add_mono : (a x y : F) → IsFinite a → IsFinite x → IsFinite y → x ≼ y → f.add a x ≼ f.add a y
  pub mul_mono :
      (a x y : F)
      → IsFinite a
      → IsFinite x
      → IsFinite y
      → zero_float ≼ a
      → x ≼ y
      → f.mul a x ≼ f.mul a y
  pub mul_comm : (a b : F) → IsFinite a → IsFinite b → f.mul a b ≡ f.mul b a
  pub mul_one : (a : F) → IsFinite a → f.mul a one_float ≡ a
  pub mul_zero : (a : F) → IsFinite a → zero_float ≼ a → f.mul a zero_float ≼ zero_float
  pub zero_mul : (a : F) → IsFinite a → zero_float ≼ a → zero_float ≼ f.mul a zero_float
  pub round2_mono : (x y : F) → x ≼ y → f.round2 x ≼ f.round2 y
  pub round2_zero : f.round2 zero_float ≡ zero_float

module _ {F : Type 0} ⦃f : Float F⦄ (laws : IsOrdered F) where
  open laws use {refl_of_le, le_trans, le_total, lt-eq-not-le, le_of_lt, lit_mono}

  pub le_of_not_lt : (x y : F) → IsNumber x → IsNumber y → f.lt x y ≡ false → y ≼ x
  le_of_not_lt x y nx ny h = ground (arith, lt-eq-not-le x y nx ny)

  -- `min` never exceeds its first argument, and is the first argument if the second is NaN.
  pub min_float-le_left : (a b : F) → IsNumber a → min_float a b ≼ a
  unfolding min_float
  min_float-le_left a b na = ground (arith, le_of_lt b a)

  pub min_float-le_right : (a b : F) → IsNumber a → IsNumber b → min_float a b ≼ b
  unfolding min_float
  min_float-le_right a b na nb = ground (arith, le_of_not_lt b a nb na)

  pub le-max_float_left : (a b : F) → IsNumber a → a ≼ max_float a b
  unfolding max_float
  le-max_float_left a b na = ground (arith, le_of_lt a b)

  pub le-min_float : (x a b : F) → x ≼ a → x ≼ b → x ≼ min_float a b
  unfolding min_float
  le-min_float x a b ha hb = ground arith

  pub max_float-le : (x a b : F) → a ≼ x → b ≼ x → max_float a b ≼ x
  unfolding max_float
  max_float-le x a b ha hb = ground arith

  -- A clamped value is in its range, whatever the value: infinities and NaN too.
  pub clamp_bounds : (lo hi x : F) → lo ≼ hi → (lo ≼ clamp lo hi x) × (clamp lo hi x ≼ hi)
  unfolding clamp
  clamp_bounds lo hi x h =
      let (nl, nh) = refl_of_le lo hi h in
      (
        le-max_float_left lo (min_float hi x) nl,
        max_float-le hi lo (min_float hi x) h (min_float-le_left hi x nh),
      )
