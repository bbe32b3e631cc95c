-- ===== src/Tests/Numbers.antt =====
-- A number as two characters, for the runs that store one as text.
use oms_gateway.Prelude.{ℕ, zero, suc, ◌≡◌, refl, none, some}
use oms_gateway.Prelude.Int.{pos, negsuc}
use oms_gateway.Float.Fixed.{Fixed}

unfoldable pub tag : Fixed → ℕ
tag none = 0
tag (some (pos n)) = 1
tag (some (negsuc n)) = 2

unfoldable pub value_of : Fixed → ℕ
value_of none = 0
value_of (some (pos n)) = n
value_of (some (negsuc n)) = n

unfoldable pub number : ℕ → ℕ → Fixed
number zero n = none
number (suc zero) n = some (pos n)
number (suc (suc k)) n = some (negsuc n)

pub number-tag : (x : Fixed) → number (tag x) (value_of x) ≡ x
unfolding number tag value_of
number-tag none = refl
number-tag (some (pos n)) = refl
number-tag (some (negsuc n)) = refl
