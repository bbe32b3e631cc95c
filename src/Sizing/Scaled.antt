-- ===== src/Sizing/Scaled.antt =====
-- The size after the scaling by confidence and multiplier: from zero to twice what was proposed.
use oms_gateway.Prelude.{ℕ, arith}
use oms_gateway.Float.{Float, ◌≼◌, IsFinite, zero_float, one_float, max_float, clamp}
use oms_gateway.Float.Laws.{IsRounded, le-max_float_left, max_float-le, clamp_bounds}
use oms_gateway.Sizing.Notional.{scaled_size}

module _ {F : Type 0} ⦃f : Float F⦄ where
  -- The value lies between zero and the limit.
  abbrev pub Within : F → F → Type 0
  Within limit x = (zero_float ≼ x) × (x ≼ limit)

module _ {F : Type 0} ⦃f : Float F⦄ (laws : IsRounded F) where
  open f use {lit, mul, sub, lt, le, round2}
  open laws use {ordered, mul_mono, mul_comm, mul_one, mul_zero, zero_mul, round2_mono, round2_zero}
  open ordered use {
    refl_of_le, le_trans, le_total, le_of_lt, number_of_finite, finite_of_between, lit_finite,
    lit_mono, of_int_nonneg,
  }

  pub zero_lit : (n k : ℕ) → zero_float ≼ lit n k
  zero_lit n k = lit_mono 0 0 n k (omega arith)

  IsFinite-Within : (limit x : F) → IsFinite limit → Within limit x → IsFinite x
  IsFinite-Within limit x fin w =
      finite_of_between zero_float x limit (lit_finite 0 0 (omega arith)) fin w.0 w.1

  -- A product of a value within the limit and a factor in [lo, n].
  mul-le :
      (limit x c hi : F)
      → IsFinite limit
      → IsFinite hi
      → Within limit x
      → Within hi c
      → mul x c ≼ mul limit hi
  mul-le limit x c hi fl fh wx wc =
      let fx = IsFinite-Within limit x fl wx in
      let fc = IsFinite-Within hi c fh wc in
      let up = mul_mono x c hi fx fc fh wx.0 wc.1 in
      let across = mul_mono hi x limit fh fx fl (le_trans _ _ _ wc.0 wc.1) wx.1 in
      le_trans _ _ _ up (rw (mul_comm x hi fx fh, mul_comm limit hi fl fh) across)

  mul-nonneg :
      (limit x c hi : F)
      → IsFinite limit
      → IsFinite hi
      → Within limit x
      → Within hi c
      → zero_float ≼ mul x c
  mul-nonneg limit x c hi fl fh wx wc =
      let fx = IsFinite-Within limit x fl wx in
      let fc = IsFinite-Within hi c fh wc in
      le_trans _ _ _ (zero_mul x fx wx.0)
        (mul_mono x zero_float c fx (lit_finite 0 0 (omega arith)) fc wx.0 wc.0)

  confidence-Within :
      (c : F) → Within one_float (max_float (lit 25 2) (clamp zero_float one_float c))
  confidence-Within c =
      let (low, high) = clamp_bounds ordered zero_float one_float c (zero_lit 1 0) in
      let quarter = zero_lit 25 2 in
      (
        le_trans _ _ _ quarter (le-max_float_left ordered (lit 25 2) _ (refl_of_le _ _ quarter).1),
        max_float-le ordered one_float (lit 25 2) _ (lit_mono 25 2 1 0 (omega arith)) high,
      )

  multiplier-Within : (x : F) → Within (lit 2 0) (clamp (lit 5 1) (lit 2 0) x)
  multiplier-Within x =
      let (low, high) =
        clamp_bounds ordered (lit 5 1) (lit 2 0) x (lit_mono 5 1 2 0 (omega arith)) in
      (le_trans _ _ _ (zero_lit 5 1) low, high)

  pub scaled-Within :
      (limit p c lp : F)
      → IsFinite limit
      → Within limit p
      → Within (mul limit (lit 2 0)) (scaled_size p c lp)
  unfolding scaled_size
  scaled-Within limit p c lp fin w =
      let one_finite = lit_finite 1 0 (omega arith) in
      let two_finite = lit_finite 2 0 (omega arith) in
      let sized : Within limit (mul p (max_float (lit 25 2) (clamp zero_float one_float c))) = (
        mul-nonneg limit p _ one_float fin one_finite w (confidence-Within c),
        rw (mul_one limit fin) at
            (mul-le limit p _ one_float fin one_finite w (confidence-Within c)),
      ) in
      (
        mul-nonneg limit _ _ (lit 2 0) fin two_finite sized (multiplier-Within lp),
        mul-le limit _ _ (lit 2 0) fin two_finite sized (multiplier-Within lp),
      )
