-- ===== src/Bankroll/Ladder.antt =====
-- The selected tier of a sorted ladder, and the range and the growth of its caps.
use mathlib.Core.Path.{subst, sym}
use oms_gateway.Prelude.{
  ◌≤◌, ◌<◌, length, ℕ, ◌≡◌, refl, true, false, List, [], ◌∷◌, if◌then◌else◌, arith, All, Bool-cases,
  inl, inr,
}
use oms_gateway.Prelude.Result.{ok}
use oms_gateway.Float.{Float, ◌≼◌, IsNumber}
use oms_gateway.Float.Laws.{IsOrdered}
use oms_gateway.Settings.{Settings}
use oms_gateway.Bankroll.{
  BankrollTier, climb, select_from, select_tier, active_ladder, conservative_ladder,
  aggressive_ladder,
}

module _ {F : Type 0} ⦃f : Float F⦄ where
  open f use {le, lit}

  -- Thresholds, budgets and order caps do not fall from `t` along the rest of the ladder.
  abbrev pub IsRising : BankrollTier F → List (BankrollTier F) → Type 0
  IsRising t [] = Unit
  IsRising t (u ∷ us) =
      (t.pnl_threshold_usd ≼ u.pnl_threshold_usd)
      × (t.strategy_budget_usd ≼ u.strategy_budget_usd)
      × (t.order_notional_usd ≼ u.order_notional_usd)
      × IsRising u us

  -- A ladder that rises, of numbers.
  abbrev pub IsLadder : List (BankrollTier F) → Type 0
  IsLadder [] = Unit
  IsLadder (t ∷ ts) =
      IsNumber t.strategy_budget_usd
      × IsNumber t.order_notional_usd
      × (IsNumber t.pnl_threshold_usd × IsRising t ts)

  -- Among the tiers `ts`, those in reach have thresholds up to that of `t`.
  abbrev pub IsHighest : F → BankrollTier F → List (BankrollTier F) → Type 0
  IsHighest pnl t [] = Unit
  IsHighest pnl t (u ∷ us) =
      (u.pnl_threshold_usd ≼ pnl → u.pnl_threshold_usd ≼ t.pnl_threshold_usd) × IsHighest pnl t us

  abbrev pub CapsWithin : ℕ → ℕ → ℕ → ℕ → BankrollTier F → Type 0
  CapsWithin lo_budget hi_budget lo_order hi_order t =
      (lit lo_budget 0 ≼ t.strategy_budget_usd)
      × (t.strategy_budget_usd ≼ lit hi_budget 0)
      × (lit lo_order 0 ≼ t.order_notional_usd)
      × (t.order_notional_usd ≼ lit hi_order 0)

  -- Budget and order cap are those of a tier of the ladder in use.
  abbrev pub IsInRange : Settings F → BankrollTier F → Type 0
  IsInRange s t =
      if s.aggressive_bankroll_ladder
      then CapsWithin 400 10_000 100 2400 t
      else CapsWithin 200 5000 50 1200 t

  abbrev Selected : F → BankrollTier F → List (BankrollTier F) → BankrollTier F → Type 0
  Selected pnl active ts t =
      (t.pnl_threshold_usd ≼ pnl)
      × (active.pnl_threshold_usd ≼ t.pnl_threshold_usd)
      × IsHighest pnl t ts

  climb-reached :
      (pnl : F) (active t : BankrollTier F) (ts : List (BankrollTier F))
      → le t.pnl_threshold_usd pnl ≡ true
      → climb pnl active (t ∷ ts) ≡ climb pnl t ts
  unfolding climb
  climb-reached pnl active t ts e = rw e

  climb-blocked :
      (pnl : F) (active t : BankrollTier F) (ts : List (BankrollTier F))
      → le t.pnl_threshold_usd pnl ≡ false
      → climb pnl active (t ∷ ts) ≡ active
  unfolding climb
  climb-blocked pnl active t ts e = rw e

  climb-All :
      (P : BankrollTier F → Type 0) (pnl : F) (active : BankrollTier F) (ts : List (BankrollTier F))
      → P active
      → All P ts
      → P (climb pnl active ts)
  climb-All P pnl active [] h hs = unfold climb in h
  climb-All P pnl active (t ∷ ts) h hs = elim (Bool-cases (le t.pnl_threshold_usd pnl)) [
    | inl e ↦ rw (climb-reached pnl active t ts e) (climb-All P pnl t ts hs.0 hs.1)
    | inr e ↦ rw (climb-blocked pnl active t ts e) h
  ]

  module _ (laws : IsOrdered F) where
    open laws use {le_trans, refl_of_le, lit_mono}

    -- No tier above one that is out of reach is in reach.
    out_of_reach :
        (pnl : F) (t u : BankrollTier F) (us : List (BankrollTier F))
        → IsRising u us
        → le u.pnl_threshold_usd pnl ≡ false
        → IsHighest pnl t us
    out_of_reach pnl t u [] r e = tt
    out_of_reach pnl t u (v ∷ vs) r e =
        let blocked : le v.pnl_threshold_usd pnl ≡ false =
          ground (arith, le_trans u.pnl_threshold_usd v.pnl_threshold_usd pnl r.0) in
        ((λ h. cc), out_of_reach pnl t v vs r.3 blocked)

    climb_lem :
        (pnl : F) (active : BankrollTier F) (ts : List (BankrollTier F))
        → active.pnl_threshold_usd ≼ pnl
        → IsRising active ts
        → Selected pnl active ts (climb pnl active ts)
    climb_lem pnl active [] h r = unfold climb in (h, (refl_of_le _ _ h).0, tt)
    climb_lem pnl active (t ∷ ts) h r = elim (Bool-cases (le t.pnl_threshold_usd pnl)) [
      | inl e ↦ subst (Selected pnl active (t ∷ ts)) (sym (climb-reached pnl active t ts e)) (
          let (reached, above, highest) = climb_lem pnl t ts e r.3 in
          (reached, le_trans _ _ _ r.0 above, ((λ _. above), highest)))
      | inr e ↦
          subst (Selected pnl active (t ∷ ts)) (sym (climb-blocked pnl active t ts e))
            (h, (refl_of_le _ _ h).0, ((λ reach. cc), out_of_reach pnl active t ts r.3 e))
    ]

    -- On a rising ladder whose first tier is reached, the selected tier is reached and no reached
    -- tier of the ladder has a higher threshold.
    pub select_from-IsHighest :
        (pnl : F) (first : BankrollTier F) (rest : List (BankrollTier F)) (t : BankrollTier F)
        → IsRising first rest
        → first.pnl_threshold_usd ≼ pnl
        → select_from pnl (first ∷ rest) ≡ ok t
        → (t.pnl_threshold_usd ≼ pnl) × IsHighest pnl t (first ∷ rest)
    unfolding select_from
    select_from-IsHighest pnl first rest t r h e =
        let found : climb pnl first rest ≡ t =
          ground (arith, climb-reached pnl first first rest h) in
        let (reached, above, highest) =
          subst (Selected pnl first rest) found (climb_lem pnl first rest h r) in
        (reached, ((λ _. above), highest))

    climb-above :
        (pnl : F) (active : BankrollTier F) (ts : List (BankrollTier F))
        → IsRising active ts
        → let t = climb pnl active ts in
          IsNumber active.strategy_budget_usd
          → IsNumber active.order_notional_usd
          → (active.strategy_budget_usd ≼ t.strategy_budget_usd)
            × (active.order_notional_usd ≼ t.order_notional_usd)
    climb-above pnl active [] r n m = unfold climb in (n, m)
    climb-above pnl active (t ∷ ts) r n m = elim (Bool-cases (le t.pnl_threshold_usd pnl)) [
      | inl e ↦ rw (climb-reached pnl active t ts e) (
          let (b, o) = climb-above pnl t ts r.3 (refl_of_le _ _ r.1).1 (refl_of_le _ _ r.2).1 in
          (le_trans _ _ _ r.1 b, le_trans _ _ _ r.2 o))
      | inr e ↦ rw (climb-blocked pnl active t ts e) (n, m)
    ]

    climb_mono :
        (p q : F) (active : BankrollTier F) (ts : List (BankrollTier F))
        → p ≼ q
        → IsNumber active.strategy_budget_usd
        → IsNumber active.order_notional_usd
        → IsRising active ts
        → ((climb p active ts).strategy_budget_usd ≼ (climb q active ts).strategy_budget_usd)
          × ((climb p active ts).order_notional_usd ≼ (climb q active ts).order_notional_usd)
    climb_mono p q active [] h n m r = unfold climb in (n, m)
    climb_mono p q active (t ∷ ts) h n m r = elim (Bool-cases (le t.pnl_threshold_usd p)) [
      | inl e ↦
          rw (climb-reached p active t ts e, climb-reached q active t ts (le_trans _ _ _ e h))
            (climb_mono p q t ts h (refl_of_le _ _ r.1).1 (refl_of_le _ _ r.2).1 r.3)
      | inr e ↦ rw (climb-blocked p active t ts e) (climb-above q active (t ∷ ts) r n m)
    ]

    le-lit : (m n : ℕ) → m ≤ n → lit m 0 ≼ lit n 0
    le-lit m n h = lit_mono m 0 n 0 (omega arith)

    conservative_rising : IsLadder conservative_ladder
    unfolding conservative_ladder
    conservative_rising = grind (arith, le-lit)

    aggressive_rising : IsLadder aggressive_ladder
    unfolding aggressive_ladder
    aggressive_rising = grind (arith, le-lit)

    conservative_bounds : All (CapsWithin 200 5000 50 1200) conservative_ladder
    unfolding conservative_ladder
    conservative_bounds = grind (arith, le-lit)

    aggressive_bounds : All (CapsWithin 400 10_000 100 2400) aggressive_ladder
    unfolding aggressive_ladder
    aggressive_bounds = grind (arith, le-lit)

    select_from-bounds :
        (P : BankrollTier F → Type 0) (pnl : F) (ts : List (BankrollTier F))
        → 0 < length ts
        → All P ts
        → (t : BankrollTier F) × (select_from pnl ts ≡ ok t) × P t
    unfolding select_from
    select_from-bounds P pnl [] n h = absurd (omega arith)
    select_from-bounds P pnl (t ∷ ts) n h =
        (climb pnl t (t ∷ ts), refl, climb-All P pnl t (t ∷ ts) h.0 h)

    -- Tier selection on the two shipped ladders always returns a tier, with budget and order cap
    -- in the ladder's range.
    pub select_tier_bounds :
        (s : Settings F) (pnl : F)
        → (t : BankrollTier F) × (select_tier s pnl ≡ ok t) × IsInRange s t
    unfolding select_tier active_ladder
    select_tier_bounds s pnl = elim (Bool-cases s.aggressive_bankroll_ladder) [
      | inl e ↦ rw e (
          select_from-bounds (CapsWithin 400 10_000 100 2400) pnl aggressive_ladder
            (unfold aggressive_ladder in omega arith) aggressive_bounds)
      | inr e ↦ rw e (
          select_from-bounds (CapsWithin 200 5000 50 1200) pnl conservative_ladder
            (unfold conservative_ladder in omega arith) conservative_bounds)
    ]

    active_ladder-IsLadder : (s : Settings F) → IsLadder (active_ladder s)
    unfolding active_ladder
    active_ladder-IsLadder s = elim (Bool-cases s.aggressive_bankroll_ladder) [
      | inl e ↦ rw e aggressive_rising
      | inr e ↦ rw e conservative_rising
    ]

    select_from_mono :
        (p q : F) (ts : List (BankrollTier F)) (t u : BankrollTier F)
        → p ≼ q
        → IsLadder ts
        → select_from p ts ≡ ok t
        → select_from q ts ≡ ok u
        → (t.strategy_budget_usd ≼ u.strategy_budget_usd)
          × (t.order_notional_usd ≼ u.order_notional_usd)
    unfolding select_from
    select_from_mono p q [] t u h r et eu = cc
    select_from_mono p q (first ∷ rest) t u h r et eu =
        let low : climb p first (first ∷ rest) ≡ t = ground arith in
        let high : climb q first (first ∷ rest) ≡ u = ground arith in
        rw (← low, ← high) (climb_mono p q first (first ∷ rest) h r.0 r.1 (r.2.0, r.0, r.1, r.2.1))

    -- A higher realized profit never selects a lower budget or order cap.
    pub select_tier_mono :
        (s : Settings F) (p q : F) (t u : BankrollTier F)
        → p ≼ q
        → select_tier s p ≡ ok t
        → select_tier s q ≡ ok u
        → (t.strategy_budget_usd ≼ u.strategy_budget_usd)
          × (t.order_notional_usd ≼ u.order_notional_usd)
    unfolding select_tier
    select_tier_mono s p q t u h =
        select_from_mono p q (active_ladder s) t u h (active_ladder-IsLadder s)

    -- With the laws of the order, tier selection at any two realized profits of which the first is
    -- at most the second returns two tiers, each with budget and order cap in the range of the
    -- ladder in use, and the budget and order cap of the first are at most those of the second.
    pub select_tier-ordered :
        (s : Settings F) (p q : F)
        → p ≼ q
        → (t u : BankrollTier F) × (select_tier s p ≡ ok t)
          × (select_tier s q ≡ ok u)
          × IsInRange s t
          × IsInRange s u
          × (t.strategy_budget_usd ≼ u.strategy_budget_usd)
          × (t.order_notional_usd ≼ u.order_notional_usd)
    select_tier-ordered s p q h =
        let (t, et, rt) = select_tier_bounds s p in
        let (u, eu, ru) = select_tier_bounds s q in
        let (budget, order) = select_tier_mono s p q t u h et eu in
        (t, u, et, eu, rt, ru, budget, order)
