-- ===== src/KellyAllocator/Range.antt =====
-- The range of the multiplier of an allocation, and when it is the neutral one.
use oms_gateway.Prelude.{
  ◌≡◌, Bool, true, false, List, length, ltb, if◌then◌else◌, Bool-cases, inl, inr,
}
use mathlib.Core.Path.{subst}
use oms_gateway.Prelude.Result.{Returns, Returns-bind, Result, ok, err, ◌>>=◌}
use oms_gateway.Text.{Text}
use oms_gateway.Float.{Float, ◌≼◌, zero_float, one_float}
use oms_gateway.Float.Laws.{IsOrdered, clamp_bounds}
use oms_gateway.KellyAllocator.{
  KellyAllocation, returns_of, fraction_of, neutral, neutral_allocation, mean_of, variance_of,
  compute_kelly_fraction, allocation_of, compute_allocation,
}

module _ {F : Type 0} ⦃f : Float F⦄ (laws : IsOrdered F) (sum : List F → F)
    (square : F → Result F) where
  open f use {le}

  -- A multiplier between the floor and the ceiling.
  abbrev Capped : F → F → F → Type 0
  Capped floor ceiling x = (floor ≼ x) × (x ≼ ceiling)

  module _ (discount floor ceiling : F) (low : floor ≼ one_float) (high : one_float ≼ ceiling) where
    open laws use {le_trans}

    fraction-Capped :
        (mean var : F) → Capped floor ceiling (fraction_of mean var discount floor ceiling).2
    unfolding fraction_of
    fraction-Capped mean var = clamp_bounds laws floor ceiling _ (le_trans _ _ _ low high)

    neutral-Capped : Capped floor ceiling one_float
    neutral-Capped = (low, high)

    choice-Capped :
        (zero_variance : Bool) (mean var : F)
        → Capped floor ceiling
            (if zero_variance then neutral else fraction_of mean var discount floor ceiling).2
    choice-Capped true mean var = neutral-Capped
    choice-Capped false mean var = fraction-Capped mean var

    kelly-Capped :
        (returns : List F)
        → Returns
            (λ k. Capped floor ceiling k.2)
            (compute_kelly_fraction sum square returns discount floor ceiling)
    unfolding compute_kelly_fraction
    kelly-Capped returns = elim (Bool-cases (ltb (length returns) 5)) [
      | inl few ↦ rw few neutral-Capped
      | inr enough ↦ rw enough (
          Returns-bind (λ k. Capped floor ceiling k.2) (variance_of sum square returns) _
            (λ var. choice-Capped (le var zero_float) (mean_of sum square returns) var))
    ]

    measured-Capped :
        (slug : Text) (returns : List F) (r : Result (F × F × F))
        → Returns (λ k. Capped floor ceiling k.2) r
        → Returns
            (λ a. Capped floor ceiling a.capped_multiplier)
            (r >>= λ kelly.
              (variance_of sum square returns >>= λ var.
              ok (allocation_of sum square slug returns kelly var)))
    unfolding allocation_of
    measured-Capped slug returns (ok k) h =
        Returns-bind (λ a. Capped floor ceiling a.capped_multiplier)
          (variance_of sum square returns) _ (λ var. h)
    measured-Capped slug returns (err e) h = tt

    allocated-Capped :
        (slug : Text) (trades : List (F × F))
        → Returns
            (λ a. Capped floor ceiling a.capped_multiplier)
            (compute_allocation sum square slug trades discount floor ceiling)
    unfolding compute_allocation neutral_allocation
    allocated-Capped slug trades = elim (Bool-cases (ltb (length (returns_of trades)) 5)) [
      | inl few ↦ rw few neutral-Capped
      | inr enough ↦
          rw enough (measured-Capped slug (returns_of trades) _ (kelly-Capped (returns_of trades)))
    ]

    -- With a floor of at most 1 and a ceiling of at least 1, an allocation's multiplier lies
    -- between the floor and the ceiling, whatever the trades are.
    pub compute_allocation_bounds :
        (slug : Text) (trades : List (F × F)) (a : KellyAllocation F)
        → compute_allocation sum square slug trades discount floor ceiling ≡ ok a
        → (floor ≼ a.capped_multiplier) × (a.capped_multiplier ≼ ceiling)
    compute_allocation_bounds slug trades a h =
        subst (Returns (λ a. Capped floor ceiling a.capped_multiplier)) h
          (allocated-Capped slug trades)
