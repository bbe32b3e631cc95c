-- ===== src/Float/Fixed.antt =====
-- A float type to run the model on: multiples of 1/10000 with a NaN, rounding downwards. It shows
-- that the laws can be met.
use Prim.Native.Nat.{◌*◌, ◌/◌, ◌^◌, ◌≤◌}
use native.Mathlib.Nat.{
  div-mul-le_self, le-div_iff_mul-le, le_of_mul-le-mul_left, mul-le-mul_left, pow-suc,
}
use oms_gateway.Prelude.{
  zero, ◌<◌, leb→le, ℕ, suc, ◌+◌, ◌-◌, ◌≡◌, refl, Bool, true, false, Option, none, some, [], ◌∷◌,
  arith, leb, ◌==◌, if◌then◌else◌, ◌&&◌,
}
use oms_gateway.Prelude.Int.{ℤ, pos, negsuc, pos_part, ◌+ℤ◌, ◌-ℤ◌, ◌*ℤ◌, leb_ℤ, ltb_ℤ}
use oms_gateway.Text.{Text, codes, text_eq}
use oms_gateway.Float.{Float, ◌≼◌, IsFinite, zero_float}
use oms_gateway.Float.Laws.{IsOrdered, IsRounded}

-- `none` is NaN, `some z` is z / 10000.
abbrev pub Fixed : Type 0
Fixed = Option ℤ

abbrev lift_test : (ℤ → ℤ → Bool) → Fixed → Fixed → Bool
lift_test t (some a) (some b) = t a b
lift_test t _ _ = false

abbrev lift_op : (ℤ → ℤ → ℤ) → Fixed → Fixed → Fixed
lift_op g (some a) (some b) = some (g a b)
lift_op g _ _ = none

-- the floor of z / d
abbrev floor_div : ℤ → ℕ → ℤ
floor_div (pos n) d = pos (n / d)
floor_div (negsuc n) d = negsuc (n / d)

unfoldable pub mul_fixed : ℤ → ℤ → ℤ
unfolding ◌*ℤ◌
mul_fixed a b = floor_div (a *ℤ b) 10000

-- Division, for a divisor above zero.
unfoldable pub div_fixed : ℤ → ℤ → ℤ
unfolding ◌*ℤ◌
div_fixed a b = floor_div (a *ℤ pos 10000) (pos_part b)

unfoldable pub round_fixed : ℤ → ℤ
unfolding ◌*ℤ◌ ◌+ℤ◌
round_fixed a = floor_div (a +ℤ pos 50) 100 *ℤ pos 100

unfoldable pub lit_fixed : ℕ → ℕ → Fixed
lit_fixed n k = some (pos (n * 10000 / 10 ^ k))

digits_from : ℕ → Text → Option (ℕ × ℕ)
digits_from acc [] = some (acc, 0)
digits_from acc (c ∷ s) =
    if leb b'0' c && leb c b'9'
    then digits_from (acc * 10 + (c - b'0')) s
    else if c == b'.'
    then elim (digits_from acc s) [ none ↦ none | some p ↦ some (p.0, length_of s) ]
    else none
  where
    length_of : Text → ℕ
    length_of [] = 0
    length_of (d ∷ t) = suc (length_of t)

-- Digits with at most one point, or `nan`.
unfoldable pub parse_fixed : Text → Option Fixed
unfolding digits_from codes text_eq lit_fixed
parse_fixed s = if text_eq s (codes "nan") then some none else elim s [
  | [] ↦ none
  | c ∷ t ↦ elim (digits_from 0 (c ∷ t)) [ none ↦ none | some p ↦ some (lit_fixed p.0 p.1) ]
]

instance abbrev pub fixed_float : Float Fixed
fixed_float = record {
  lit = lit_fixed;
  add = lift_op ◌+ℤ◌;
  sub = lift_op ◌-ℤ◌;
  mul = lift_op mul_fixed;
  div = lift_op div_fixed;
  neg = elim [ none ↦ none | some a ↦ some (pos 0 -ℤ a) ];
  lt = lift_test ltb_ℤ;
  le = lift_test leb_ℤ;
  eq = lift_test λ a b. leb_ℤ a b && leb_ℤ b a;
  round2 = elim [ none ↦ none | some a ↦ some (round_fixed a) ];
  is_finite = elim [ none ↦ false | some a ↦ true ];
  parse = parse_fixed;
  of_int = λ n. some (some (n *ℤ pos 10000));
}

pow_ten_pos : (k : ℕ) → 0 < 10 ^ k
pow_ten_pos zero = omega arith
pow_ten_pos (suc k) = rw (pow-suc 10 k) (omega (arith, pow_ten_pos k))

div_cross_mono : (a b p q : ℕ) → 0 < p → 0 < q → a * q ≤ b * p → a / p ≤ b / q
div_cross_mono a b p q hp hq h =
    (le-div_iff_mul-le hq).1
      (le_of_mul-le-mul_left {k = p} (omega (arith, mul-le-mul_left q (div-mul-le_self a p), h)) hp)

lit_fixed_mono : (m j n k : ℕ) → m * 10 ^ k ≤ n * 10 ^ j → lit_fixed m j ≼ lit_fixed n k
unfolding lit_fixed
lit_fixed_mono m j n k h =
    let ordered =
      div_cross_mono (m * 10000) (n * 10000) (10 ^ j) (10 ^ k) (pow_ten_pos j) (pow_ten_pos k)
        (omega arith) in
    ground arith

mul_fixed_mono :
    (a x y : ℤ)
    → leb_ℤ (pos 0) a ≡ true
    → leb_ℤ x y ≡ true
    → leb_ℤ (mul_fixed a x) (mul_fixed a y) ≡ true
unfolding mul_fixed
mul_fixed_mono (pos m) (pos x) (pos y) ha h =
    let scaled = mul-le-mul_left m (leb→le x y (ground arith)) in ground arith
mul_fixed_mono (pos m) (pos x) (negsuc y) ha h = ground arith
mul_fixed_mono (pos m) (negsuc x) (pos y) ha h = ground arith
mul_fixed_mono (pos m) (negsuc x) (negsuc y) ha h =
    let scaled = mul-le-mul_left m (leb→le (suc y) (suc x) (ground arith)) in ground arith
mul_fixed_mono (negsuc m) x y ha h = ground arith

of_int_nonneg_lem : (n : ℕ) (x : Fixed) → fixed_float.of_int (pos n) ≡ some x → zero_float ≼ x
unfolding lit_fixed ◌*ℤ◌
of_int_nonneg_lem n x h = ground arith

pub Fixed-IsOrdered : IsOrdered Fixed
Fixed-IsOrdered = record {
  refl_of_le = ground arith;
  le_trans = ground arith;
  le_total = ground arith;
  lt-eq-not-le = ground arith;
  le_of_lt = ground arith;
  number_of_finite = ground arith;
  finite_of_between = ground arith;
  lit_finite = λ n k h. unfold lit_fixed in refl;
  of_int_nonneg = of_int_nonneg_lem;
  lit_mono = lit_fixed_mono;
}

mul_mono_lem :
    (a x y : Fixed)
    → IsFinite a
    → IsFinite x
    → IsFinite y
    → zero_float ≼ a
    → x ≼ y
    → lift_op mul_fixed a x ≼ lift_op mul_fixed a y
unfolding lit_fixed
mul_mono_lem (some a) (some x) (some y) fa fx fy ha h = mul_fixed_mono a x y (ground arith) h
mul_mono_lem none x y fa fx fy ha h = cc
mul_mono_lem (some a) none y fa fx fy ha h = cc
mul_mono_lem (some a) (some x) none fa fx fy ha h = cc

mul_comm_lem :
    (a b : Fixed) → IsFinite a → IsFinite b → lift_op mul_fixed a b ≡ lift_op mul_fixed b a
unfolding mul_fixed
mul_comm_lem (some a) (some b) fa fb = ground arith
mul_comm_lem none b fa fb = cc
mul_comm_lem (some a) none fa fb = cc

pub Fixed-IsRounded : IsRounded Fixed
unfolding mul_fixed round_fixed lit_fixed ◌+ℤ◌
Fixed-IsRounded = record {
  ordered = Fixed-IsOrdered;
  add_mono = ground arith;
  mul_mono = mul_mono_lem;
  mul_comm = mul_comm_lem;
  mul_one = ground arith;
  mul_zero = ground arith;
  zero_mul = ground arith;
  round2_mono = ground arith;
  round2_zero = refl;
}
