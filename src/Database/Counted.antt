-- ===== src/Database/Counted.antt =====
-- src/oms_gateway/db.py: what the exposure of a cluster counts.
use oms_gateway.Prelude.{
  ◌≡◌, refl, ap, ◌∙◌, Bool, true, false, some, List, [], ◌∷◌, ◌++◌, map, keep, All, Bool-cases, inl,
  inr,
}
use oms_gateway.Text.{Text, codes, is_empty, strip}
use oms_gateway.Preflight.Cluster.{SqlFilter, cluster_for, cluster_sql_filter}
use oms_gateway.Database.Schema.{Numeric, ToFloat, Position, Tables}
use oms_gateway.Database.Queries.{is_open, in_cluster, open_notional, exposure, cluster_exposure}
use oms_gateway.Database.Covered.{IsPlain, IsCapital, position-covered}

keep-middle :
    {A : Type 0} (p : A → Bool) (xs ys : List A) (x : A)
    → p x ≡ true
    → keep p (xs ++ x ∷ ys) ≡ keep p xs ++ x ∷ keep p ys
unfolding keep
keep-middle p [] ys x e = rw e refl
keep-middle p (z ∷ xs) ys x e =
    let rest = keep-middle p xs ys x e in
    elim (Bool-cases (p z)) [ inl h ↦ rw h (ap (λ r. z ∷ r) rest) | inr h ↦ rw h rest ]

map-middle :
    {A B : Type 0} (g : A → B) (xs ys : List A) (x : A)
    → map g (xs ++ x ∷ ys) ≡ map g xs ++ g x ∷ map g ys
map-middle g [] ys x = refl
map-middle g (z ∷ xs) ys x = ap (λ r. g z ∷ r) (map-middle g xs ys x)

module _ {N F : Type 0} ⦃num : Numeric N⦄ ⦃cast : ToFloat N F⦄ where
  -- The exposure of a cluster is a sum with this term.
  abbrev pub Counts : SqlFilter → Tables N F → N → Type 0
  Counts filter t notional =
      (before : List N) × (after : List N) × (cluster_exposure filter.venue filter.like_pattern
          filter.exact t
        ≡ cast.to_float (num.sum (before ++ notional ∷ after)))

  selected-Counts :
      (filter : SqlFilter) (t : Tables N F) (older newer : List (Position N)) (p : Position N)
      → t.positions ≡ older ++ p ∷ newer
      → in_cluster filter.venue filter.like_pattern filter.exact p ≡ true
      → Counts filter t (open_notional p)
  unfolding cluster_exposure
  selected-Counts filter t older newer p at selected =
      let is_counted = in_cluster filter.venue filter.like_pattern filter.exact in
      (
        map open_notional (keep is_counted older),
        map open_notional (keep is_counted newer),
        ap (λ ps. exposure (keep is_counted ps)) at
            ∙ ap exposure (keep-middle is_counted older newer p selected)
            ∙ unfold exposure in
              ap (λ xs. cast.to_float (num.sum xs))
                (map-middle open_notional (keep is_counted older) (keep is_counted newer) p),
      )

  -- When the positions have an open position of binance whose asset is in capitals with no white
  -- space around it, and whose cluster has a head that is not empty and has no special character
  -- of LIKE, the exposure that the filter of its cluster selects is a sum in which the notional of
  -- this position is a term.
  pub position-counted :
      (head : Text) (p : Position N) (t : Tables N F) (older newer : List (Position N))
      → All IsPlain head
      → is_empty head ≡ false
      → IsCapital p.asset
      → strip p.asset ≡ p.asset
      → p.venue ≡ codes "binance"
      → cluster_for p.venue p.asset ≡ codes "crypto:" ++ head
      → is_open p ≡ true
      → t.positions ≡ older ++ p ∷ newer
      → (filter : SqlFilter) × (cluster_sql_filter (codes "crypto:" ++ head) ≡ some filter)
        × Counts filter t (open_notional p)
  position-counted head p t older newer plain full k stripped venue cluster open_now at =
      let (filter, found, selected) =
        position-covered head p plain full k stripped venue cluster open_now in
      (filter, found, selected-Counts filter t older newer p at selected)
