-- ===== src/Reservation/Race/Safety.antt =====
-- However the steps of concurrent alphas interleave, the accepted orders stay within the budget.
use mathlib.Core.Path.{subst}
use oms_gateway.Prelude.{
  ◌≡◌, refl, sym, ap, ◌∙◌, true, false, none, some, List, [], ◌∷◌, ◌++◌, arith, Bool-cases, inl,
  inr,
}
use oms_gateway.Prelude.Result.{ok}
use oms_gateway.Text.{Text, is_empty}
use oms_gateway.Float.{Float, ◌≼◌, zero_float, max_float}
use oms_gateway.Settings.{Settings}
use oms_gateway.Preflight.Decision.{Direction, is_flat}
use oms_gateway.Preflight.Budget.{would_breach_strategy_budget}
use oms_gateway.Sizing.Overrides.{strategy_budget_cap_usd}
use oms_gateway.Sizing.Headroom.{budget_cap_of, positive_of_cap, filled_of_cap}
use oms_gateway.Reservation.{
  RedisClient, reservation_key, exposure_with_pending, reserve_exposure, release_exposure,
}
use oms_gateway.Reservation.Counter.{
  IsCounter, IsServed, reserve_exposure-adds, release_exposure-takes,
}
use oms_gateway.Reservation.Race.{
  Order, Race, IsExactSum, sum, accepted_sum, any_accepted, budget_check, Step, reserve, accept,
  reject, Reach, here, next,
}

module _ {F : Type 0} ⦃f : Float F⦄ (laws : IsExactSum F) where
  open f use {add, sub, neg, le, lt}
  open laws use {
    le_refl, le_trans, le_of_not_le, le_of_lt, le_of_not_lt, not_le_of_lt, add_comm, add_assoc,
    add_zero, add_mono, sub_add, add_neg,
  }

  le-max_right : (x y : F) → y ≼ max_float x y
  unfolding max_float
  le-max_right x y = ground (arith, le_of_not_lt x y, le_refl y)

  -- An order that does not lower a sum.
  le-add_left : (n x : F) → zero_float ≼ n → x ≼ add n x
  le-add_left n x h =
      subst (λ y. y ≼ add n x) (add_zero x) (rw (add_comm n x) (add_mono x zero_float n h))

  add_mono_right : (a x y : F) → x ≼ y → add x a ≼ add y a
  add_mono_right a x y h = rw (add_comm x a, add_comm y a) (add_mono a x y h)

  add_left_comm : (x y z : F) → add x (add y z) ≡ add y (add x z)
  add_left_comm x y z = sym (add_assoc x y z) ∙ ap (λ w. add w z) (add_comm x y) ∙ add_assoc y x z

  sum-middle :
      (later earlier : List (Order F)) (o : Order F)
      → sum (later ++ o ∷ earlier) ≡ add o.notional (sum (later ++ earlier))
  sum-middle [] earlier o = refl
  sum-middle (x ∷ later) earlier o =
      ap (add x.notional) (sum-middle later earlier o)
      ∙ add_left_comm x.notional o.notional (sum (later ++ earlier))

  module _ {S : Type 0} (client : RedisClient F S) (value : Text → S → F)
      (counter : IsCounter client value) (served : IsServed client) (s : Settings F) (now : F)
      (slug : Text) (direction : Direction) (open_usd c : F)
      (found : strategy_budget_cap_usd s (some slug) ≡ some c)
      (opens : is_flat direction ≡ false) where
    -- Each order's total covers it and the orders that reserved before it and still stand, and an
    -- accepted order's total fits.
    abbrev IsCovered : List (Order F) → Type 0
    IsCovered [] = Unit
    IsCovered (o ∷ os) =
        (zero_float ≼ o.notional)
        × (le o.notional zero_float ≡ false)
        × (sum (o ∷ os) ≼ o.total)
        × (o.accepted ≡ true → add open_usd o.total ≼ c)
        × IsCovered os

    IsCovered-middle :
        (later earlier : List (Order F)) (o : Order F)
        → IsCovered (later ++ o ∷ earlier)
        → (zero_float ≼ o.notional) × (le o.notional zero_float ≡ false)
    IsCovered-middle [] earlier o h = (h.0, h.1)
    IsCovered-middle (x ∷ later) earlier o h = IsCovered-middle later earlier o h.4

    IsCovered-remove :
        (later earlier : List (Order F)) (o : Order F)
        → IsCovered (later ++ o ∷ earlier)
        → IsCovered (later ++ earlier)
    IsCovered-remove [] earlier o h = h.4
    IsCovered-remove (x ∷ later) earlier o h =
        let small : sum (later ++ earlier) ≼ sum (later ++ o ∷ earlier) =
          rw (sum-middle later earlier o)
            (le-add_left o.notional _ (IsCovered-middle later earlier o h.4).0) in
        (
          h.0,
          h.1,
          le_trans _ _ _ (add_mono x.notional _ _ small) h.2,
          h.3,
          IsCovered-remove later earlier o h.4,
        )

    sum-accept :
        (later earlier : List (Order F)) (o : Order F)
        → sum (later ++ record o { accepted = true } ∷ earlier) ≡ sum (later ++ o ∷ earlier)
    sum-accept [] earlier o = refl
    sum-accept (x ∷ later) earlier o = ap (add x.notional) (sum-accept later earlier o)

    IsCovered-accept :
        (later earlier : List (Order F)) (o : Order F)
        → add open_usd o.total ≼ c
        → IsCovered (later ++ o ∷ earlier)
        → IsCovered (later ++ record o { accepted = true } ∷ earlier)
    IsCovered-accept [] earlier o fit h = (h.0, h.1, h.2, (λ _. fit), h.4)
    IsCovered-accept (x ∷ later) earlier o fit h = (
      h.0,
      h.1,
      subst (λ y. add x.notional y ≼ x.total) (sym (sum-accept later earlier o)) h.2,
      h.3,
      IsCovered-accept later earlier o fit h.4,
    )

    -- The check passes only if what is open, with the whole total, is within the cap.
    check-fits :
        (o : Order F)
        → le o.notional zero_float ≡ false
        → budget_check s now slug direction open_usd o ≡ ok none
        → add open_usd o.total ≼ c
    check-fits o above h =
        let exposure = exposure_with_pending open_usd o.total o.notional in
        let kept : add exposure o.notional ≼ c =
          unfold would_breach_strategy_budget in
          ground (
            arith,
            budget_cap_of s now slug c found,
            positive_of_cap s slug c found,
            filled_of_cap s slug c found,
          ) in
        let whole : add open_usd o.total ≼ add exposure o.notional =
          unfold exposure_with_pending in
          subst
            (λ y. y ≼ add (add open_usd (max_float zero_float (sub o.total o.notional))) o.notional)
            (add_assoc open_usd (sub o.total o.notional) o.notional
              ∙ ap (add open_usd) (sub_add o.total o.notional))
            (add_mono_right o.notional _ _
              (add_mono open_usd _ _ (le-max_right zero_float (sub o.total o.notional)))) in
        le_trans _ _ _ whole kept

    -- The counter holds the sum of the reservations that stand.
    abbrev IsKept : Race F S → Type 0
    IsKept r = IsCovered r.orders × (sum r.orders ≡ value (reservation_key slug) r.store)

    filled : is_empty slug ≡ false
    filled = filled_of_cap s slug c found

    IsKept-reserve :
        (r : Race F S) (n : F)
        → le n zero_float ≡ false
        → IsKept r
        → IsKept (record {
          store = (reserve_exposure client slug n r.store).1;
          orders =
              record {
                notional = n;
                total = (reserve_exposure client slug n r.store).0;
                accepted = false;
              }
              ∷ r.orders;
        })
    IsKept-reserve r n above (covered, counted) =
        let total = (reserve_exposure client slug n r.store).0 in
        let (added, holds) =
          reserve_exposure-adds client value counter served slug n r.store filled above in
        let same : add n (sum r.orders) ≡ total = ap (add n) counted ∙ add_comm n _ ∙ sym added in
        (
          (
            le_of_not_le n zero_float above,
            above,
            subst (λ y. y ≼ total) (sym same) (le_refl total),
            (λ e. cc),
            covered,
          ),
          same ∙ sym holds,
        )

    IsKept-accept :
        (later earlier : List (Order F)) (o : Order F) (store : S)
        → budget_check s now slug direction open_usd o ≡ ok none
        → IsKept (record { store = store; orders = later ++ o ∷ earlier })
        → IsKept
            (record { store = store; orders = later ++ record o { accepted = true } ∷ earlier })
    IsKept-accept later earlier o store passes (covered, counted) = (
      IsCovered-accept later earlier o
          (check-fits o (IsCovered-middle later earlier o covered).1 passes) covered,
      sum-accept later earlier o ∙ counted,
    )

    IsKept-reject :
        (later earlier : List (Order F)) (o : Order F) (store : S)
        → IsKept (record { store = store; orders = later ++ o ∷ earlier })
        → IsKept (record {
          store = release_exposure client slug o.notional store;
          orders = later ++ earlier;
        })
    IsKept-reject later earlier o store (covered, counted) = (
      IsCovered-remove later earlier o covered,
      sym (add_neg o.notional (sum (later ++ earlier)))
          ∙ ap (λ t. add t (neg o.notional)) (sym (sum-middle later earlier o) ∙ counted)
          ∙ sym (
              release_exposure-takes client value counter served slug o.notional store filled
                (IsCovered-middle later earlier o covered).1),
    )

    IsKept-Step :
        (r r' : Race F S) → Step client s now slug direction open_usd r r' → IsKept r → IsKept r'
    IsKept-Step r r' (reserve n above e) h =
        subst IsKept (sym e) (IsKept-reserve r n (not_le_of_lt zero_float n above) h)
    IsKept-Step r r' (accept later earlier o at passes e) h = subst IsKept (sym e) (
        IsKept-accept later earlier o r.store passes
          (subst (λ l. IsCovered l × (sum l ≡ value (reservation_key slug) r.store)) at h))
    IsKept-Step r r' (reject later earlier o at waiting e) h = subst IsKept (sym e) (
        IsKept-reject later earlier o r.store
          (subst (λ l. IsCovered l × (sum l ≡ value (reservation_key slug) r.store)) at h))

    IsKept-Reach :
        (r r' : Race F S) → Reach client s now slug direction open_usd r r' → IsKept r → IsKept r'
    IsKept-Reach r _ here h = h
    IsKept-Reach r r'' (next {r'} run step) h = IsKept-Step r' r'' step (IsKept-Reach r r' run h)

    accepted_sum-le : (os : List (Order F)) → IsCovered os → accepted_sum os ≼ sum os
    accepted_sum-le [] h = le_refl zero_float
    accepted_sum-le (o ∷ os) h =
        let rest = accepted_sum-le os h.4 in
        elim (Bool-cases o.accepted) [
          | inl e ↦ rw e (add_mono o.notional _ _ rest)
          | inr e ↦ rw e (le_trans _ _ _ rest (le-add_left o.notional (sum os) h.0))
        ]

    -- The latest accepted order bounds all of them.
    accepted_fit :
        (os : List (Order F))
        → IsCovered os
        → any_accepted os ≡ true
        → add open_usd (accepted_sum os) ≼ c
    accepted_fit (o ∷ os) h some_accepted =
        let rest = accepted_fit os h.4 in
        elim (Bool-cases o.accepted) [
          | inl e ↦
              le_trans _ _ _
                (add_mono open_usd _ _ (le_trans _ _ _ (accepted_sum-le (o ∷ os) h) h.2)) (h.3 e)
          | inr e ↦ rw e (rest (ground arith))
        ]
    accepted_fit [] h e = cc

    -- From a counter at zero, when Redis serves every command, no reservation expires, the open
    -- exposure stays as it is, and amounts add and compare exactly: however the reservations,
    -- acceptances and roll-backs of a strategy's opening alphas interleave, once one order is
    -- accepted the open exposure plus all accepted notionals is within the strategy's cap.
    pub accepted_within_budget :
        (start : S) (r : Race F S)
        → value (reservation_key slug) start ≡ zero_float
        → Reach client s now slug direction open_usd (record { store = start; orders = [] }) r
        → any_accepted r.orders ≡ true
        → add open_usd (accepted_sum r.orders) ≼ c
    accepted_within_budget start r empty run some_accepted =
        accepted_fit r.orders
          (IsKept-Reach (record { store = start; orders = [] }) r run (tt, sym empty)).0
          some_accepted
