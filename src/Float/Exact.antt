-- ===== src/Float/Exact.antt =====
-- A float type without NaN whose sums are exact: multiples of 1/10000, as in Fixed.
use oms_gateway.Prelude.{true, none, some, ◌&&◌, ◌*◌, ◌/◌, ◌^◌, arith}
use oms_gateway.Prelude.Int.{ℤ, pos, ◌+ℤ◌, ◌-ℤ◌, ◌*ℤ◌, leb_ℤ, ltb_ℤ}
use oms_gateway.Float.{Float}
use oms_gateway.Float.Fixed.{mul_fixed, div_fixed, round_fixed, parse_fixed}
use oms_gateway.Reservation.Race.{IsExactSum}

instance abbrev pub exact_float : Float ℤ
exact_float = record {
  lit = λ n k. pos (n * 10000 / 10 ^ k);
  add = ◌+ℤ◌;
  sub = ◌-ℤ◌;
  mul = mul_fixed;
  div = div_fixed;
  neg = λ a. pos 0 -ℤ a;
  lt = ltb_ℤ;
  le = leb_ℤ;
  eq = λ a b. leb_ℤ a b && leb_ℤ b a;
  round2 = round_fixed;
  is_finite = λ a. true;
  parse = λ s. elim (parse_fixed s) [ none ↦ none | some x ↦ x ];
  of_int = λ n. some (n *ℤ pos 10000);
}

pub exact_float-IsExactSum : IsExactSum ℤ
unfolding ◌+ℤ◌ ◌-ℤ◌
exact_float-IsExactSum = record {
  le_refl = ground arith;
  le_trans = ground arith;
  le_of_not_le = ground arith;
  le_of_lt = ground arith;
  not_le_of_lt = ground arith;
  le_of_not_lt = ground arith;
  add_comm = ground arith;
  add_assoc = ground arith;
  add_zero = ground arith;
  add_mono = ground arith;
  sub_add = ground arith;
  add_neg = ground arith;
}
