-- ===== src/BankrollRefresher/Excluded.antt =====
-- Which positions do not count as realized profit.
use oms_gateway.Prelude.{
  ◌≡◌, ◌≢◌, ◌⊎◌, refl, ap, ◌∙◌, true, false, Option, none, some, List, [], ◌∷◌, ◌++◌, map, keep,
  All, inl, inr, arith, Bool-cases,
}
use oms_gateway.Text.{Text, codes, text_eq, text_eq_iff, mem_text}
use oms_gateway.Database.Schema.{Numeric, ToFloat, Position, Strategy, Tables}
use oms_gateway.Database.Queries.{equals}
use oms_gateway.BankrollRefresher.{
  slugs_or_null, is_kept_slug, moved_wallet, values_of, pnl_of, pnl_values, total_realized_pnl,
}

equals-some : (o : Option Text) (t : Text) → o ≡ some t → equals o t ≡ true
unfolding equals
equals-some none t e = absurd cc
equals-some (some u) t e = (text_eq_iff u t).1 (some_injective u t e)
  where
    some_injective : (x y : Text) → some x ≡ some y → x ≡ y
    some_injective x y h = cc

text_eq-false : (s t : Text) → s ≢ t → text_eq s t ≡ false
text_eq-false s t h = ground (arith, text_eq_iff s t)

no_slug_kept :
    (excluded : List Text) (rs : List Strategy)
    → All (λ (q : Strategy). mem_text q.slug excluded ≡ true) rs
    → keep (is_kept_slug excluded) (map (λ (r : Strategy). some r.slug) rs) ≡ []
unfolding keep is_kept_slug
no_slug_kept excluded [] h = refl
no_slug_kept excluded (r ∷ rs) h = rw h.0 (no_slug_kept excluded rs h.1)

module _ {N : Type 0} where
  -- The strategies of a position.
  abbrev pub strategies_of : List Strategy → Position N → List Strategy
  strategies_of ss p = keep (λ s. text_eq s.id p.strategy_id) ss

  -- The position is open, of another venue, purged, on paper, or of excluded strategies only.
  abbrev pub IsExcluded : List Text → List Strategy → Position N → Type 0
  IsExcluded excluded ss p =
      (p.status ≢ codes "closed")
      ⊎ (p.venue ≢ codes "polymarket")
      ⊎ (p.paper_purged ≡ some (codes "true"))
      ⊎ (p.paper ≡ some (codes "true"))
      ⊎ ((r : Strategy) × (rs : List Strategy) × (strategies_of ss p ≡ r ∷ rs)
          × All (λ (q : Strategy). mem_text q.slug excluded ≡ true) (r ∷ rs))

  values_of-nil : (x : Option N) → values_of x [] ≡ []
  unfolding values_of
  values_of-nil none = refl
  values_of-nil (some x) = refl

  not_moved :
      (excluded : List Text) (ss : List Strategy) (p : Position N)
      → moved_wallet p ≡ false
      → pnl_of excluded ss p ≡ []
  unfolding pnl_of
  not_moved excluded ss p h = rw h refl

  no_value_counted :
      (excluded : List Text) (ss : List Strategy) (p : Position N) (r : Strategy)
      (rs : List Strategy)
      → strategies_of ss p ≡ r ∷ rs
      → All (λ (q : Strategy). mem_text q.slug excluded ≡ true) (r ∷ rs)
      → values_of p.realized_pnl_usd
          (keep (is_kept_slug excluded) (slugs_or_null (strategies_of ss p)))
        ≡ []
  unfolding slugs_or_null
  no_value_counted excluded ss p r rs e h =
      ap (λ m. values_of p.realized_pnl_usd (keep (is_kept_slug excluded) (slugs_or_null m))) e
      ∙ ap (values_of p.realized_pnl_usd) (no_slug_kept excluded (r ∷ rs) h)
      ∙ values_of-nil p.realized_pnl_usd

  -- A position that is excluded adds nothing.
  pnl_of-excluded :
      (excluded : List Text) (ss : List Strategy) (p : Position N)
      → IsExcluded excluded ss p
      → pnl_of excluded ss p ≡ []
  unfolding moved_wallet pnl_of
  pnl_of-excluded excluded ss p (inl h) = not_moved excluded ss p (rw (text_eq-false _ _ h) refl)
  pnl_of-excluded excluded ss p (inr (inl h)) =
      not_moved excluded ss p (ground (arith, text_eq-false _ _ h))
  pnl_of-excluded excluded ss p (inr (inr (inl h))) =
      not_moved excluded ss p (ground (arith, equals-some _ _ h))
  pnl_of-excluded excluded ss p (inr (inr (inr (inl h)))) =
      not_moved excluded ss p (ground (arith, equals-some _ _ h))
  pnl_of-excluded excluded ss p (inr (inr (inr (inr (r, rs, e, h))))) =
      elim (Bool-cases (moved_wallet p)) [
        | inl m ↦ rw (pnl_of, m) (no_value_counted excluded ss p r rs e h)
        | inr m ↦ not_moved excluded ss p m
      ]

module _ {N F : Type 0} ⦃num : Numeric N⦄ ⦃cast : ToFloat N F⦄ where
  -- A position that is not closed, not of polymarket, purged, on paper, or whose strategies all
  -- have excluded slugs, of which there is at least one, adds nothing to the total realized
  -- profit.
  pub total_realized_pnl-excludes :
      (excluded : List Text) (t : Tables N F) (p : Position N)
      → IsExcluded excluded t.strategies p
      → total_realized_pnl excluded (record t { positions = p ∷ t.positions })
        ≡ total_realized_pnl excluded t
  unfolding total_realized_pnl pnl_values
  total_realized_pnl-excludes excluded t p h =
      ap (λ xs. cast.to_float (num.sum (xs ++ pnl_values excluded t.strategies t.positions)))
        (pnl_of-excluded excluded t.strategies p h)
