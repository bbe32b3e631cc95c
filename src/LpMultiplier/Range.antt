-- ===== src/LpMultiplier/Range.antt =====
-- The range of the multiplier, and the payloads that give its ends.
use mathlib.Core.Path.{subst}
use oms_gateway.Prelude.{
  ◌≡◌, Bool, true, false, Option, none, some, if◌then◌else◌, arith, Bool-cases, inl, inr,
}
use oms_gateway.Prelude.Result.{Returns, Returns-bind, Result, ok, err, json_error, attribute_error}
use oms_gateway.Text.{Text, is_empty}
use oms_gateway.Float.{Float, ◌≼◌, one_float}
use oms_gateway.Float.Laws.{IsOrdered, clamp_bounds}
use oms_gateway.Value.{Value, Fields, dict, null, get_field, to_float, list, Items}
use oms_gateway.LpMultiplier.{
  payload_get, is_stale, multiplier_of, gated_multiplier, multiplier_of_payload, loaded,
  parse_multiplier_payload, read_multiplier, fetch_multiplier, clamped_multiplier,
  alpha_asset_to_lp_alias, multiplier_key,
}

module _ {F : Type 0} ⦃f : Float F⦄ where
  open f use {lit, sub, lt}

  abbrev pub InRange : F → Type 0
  InRange x = (lit 5 1 ≼ x) × (x ≼ lit 2 0)

  module _ (laws : IsOrdered F) where
    open laws use {lit_mono}

    one-InRange : InRange one_float
    one-InRange = (lit_mono 5 1 1 0 (omega arith), lit_mono 1 0 2 0 (omega arith))

    clamped-InRange : (x : F) → InRange (clamped_multiplier x)
    unfolding clamped_multiplier
    clamped-InRange x = clamp_bounds laws (lit 5 1) (lit 2 0) x (lit_mono 5 1 2 0 (omega arith))

    chosen-InRange :
        (stale : Bool) (x : F) → InRange (if stale then one_float else clamped_multiplier x)
    chosen-InRange true x = one-InRange
    chosen-InRange false x = clamped-InRange x

    gated-InRange :
        (now max_age : F) (payload : Value F) (x : Option F)
        → Returns InRange (gated_multiplier now max_age payload x)
    unfolding gated_multiplier
    gated-InRange now max_age payload none = one-InRange
    gated-InRange now max_age payload (some x) =
        Returns-bind InRange (payload_get "computed_at_unix" null payload) _
          (λ at. Returns-bind InRange (is_stale now max_age at) _ (λ stale. chosen-InRange stale x))

    loaded-InRange :
        (now max_age : F) (r : Result (Value F)) → Returns InRange (loaded now max_age r)
    unfolding loaded multiplier_of_payload
    loaded-InRange now max_age (ok payload) =
        Returns-bind InRange (multiplier_of payload) _ (gated-InRange now max_age payload)
    loaded-InRange now max_age (err json_error) = one-InRange
    loaded-InRange now max_age (err e) = tt

    parsed-InRange :
        (loads : Text → Result (Value F)) (raw : Option Text) (now max_age : F)
        → Returns InRange (parse_multiplier_payload loads raw now max_age)
    unfolding parse_multiplier_payload
    parsed-InRange loads none now max_age = one-InRange
    parsed-InRange loads (some raw) now max_age = elim (Bool-cases (is_empty raw)) [
      | inl e ↦ rw e one-InRange
      | inr e ↦ rw e (loaded-InRange now max_age (loads raw))
    ]

    read-InRange :
        (loads : Text → Result (Value F)) (now max_age : F) (reply : Result (Option Text))
        → Returns InRange (read_multiplier loads now max_age reply)
    unfolding read_multiplier
    read-InRange loads now max_age (ok raw) = parsed-InRange loads raw now max_age
    read-InRange loads now max_age (err e) = one-InRange

    -- A multiplier that is returned lies in [0.5, 2.0], whatever the asset, the payload and the
    -- reply of Redis are.
    pub fetch_multiplier-InRange :
        (loads : Text → Result (Value F)) (get : Text → Result (Option Text)) (now : F)
        (asset : Option Text) (max_age x : F)
        → fetch_multiplier loads get now asset max_age ≡ ok x
        → InRange x
    unfolding fetch_multiplier
    fetch_multiplier-InRange loads get now asset max_age x h =
        subst (Returns InRange) h (ranged (alpha_asset_to_lp_alias asset))
      where
        ranged :
            (alias : Option Text)
            → Returns InRange (elim alias [
              | none ↦ ok one_float
              | some a ↦ read_multiplier loads now max_age (get (multiplier_key a))
            ])
        ranged none = one-InRange
        ranged (some a) = read-InRange loads now max_age (get (multiplier_key a))

  is_stale_of :
      (now max_age at : F) (w : Value F)
      → to_float w ≡ ok at
      → lt max_age (sub now at) ≡ true
      → is_stale now max_age w ≡ ok true
  unfolding is_stale
  is_stale_of now max_age at null e old = unfold to_float in cc
  is_stale_of now max_age at _ e old = ground arith

  -- A payload with numeric multiplier and time whose age is above the limit gives the neutral
  -- multiplier.
  pub stale_multiplier_ignored :
      (now max_age x at : F) (fields : Fields F) (v w : Value F)
      → get_field "multiplier" fields ≡ some v
      → to_float v ≡ ok x
      → get_field "computed_at_unix" fields ≡ some w
      → to_float w ≡ ok at
      → lt max_age (sub now at) ≡ true
      → multiplier_of_payload now max_age (dict fields) ≡ ok one_float
  unfolding multiplier_of_payload
  stale_multiplier_ignored now max_age x at fields v w m n c e old =
      ground (arith, is_stale_of now max_age at w e old)

  -- For a tracked asset, a payload that is a JSON list makes the fetch raise AttributeError.
  pub list_payload_raises :
      (loads : Text → Result (Value F)) (get : Text → Result (Option Text)) (now max_age : F)
      (asset alias raw : Text) (items : Items F)
      → alpha_asset_to_lp_alias (some asset) ≡ some alias
      → get (multiplier_key alias) ≡ ok (some raw)
      → is_empty raw ≡ false
      → loads raw ≡ ok (list items)
      → fetch_multiplier loads get now (some asset) max_age ≡ err attribute_error
  unfolding fetch_multiplier
  list_payload_raises loads get now max_age asset alias raw items a g e l =
      rw (a, fetch_multiplier) (rw g (unfold read_multiplier in rw e (rw l)))
