-- ===== src/LpMultiplier/Alias.antt =====
-- The alias of an asset: a tracked asset that begins its name, and the only one.
use oms_gateway.Prelude.{◌≡◌, true, some, List, [], ◌∷◌, arith}
use oms_gateway.Text.{Text, mem_text, starts_with, text_eq_refl}
use oms_gateway.LpMultiplier.{first_prefix, normalized, alpha_asset_to_lp_alias, lp_tracked_assets}

first_prefix-found :
    (t : Text) (aliases : List Text) (a : Text)
    → first_prefix t aliases ≡ some a
    → (starts_with t a ≡ true) × (mem_text a aliases ≡ true)
unfolding mem_text first_prefix
first_prefix-found t [] a h = cc
first_prefix-found t (b ∷ rest) a h = ground (arith, first_prefix-found t rest a, text_eq_refl a)

-- The alias of an asset, if there is one, is a tracked asset and begins the asset's name without
-- separators.
pub alpha_asset_to_lp_alias_sound :
    (asset alias : Text)
    → alpha_asset_to_lp_alias (some asset) ≡ some alias
    → (starts_with (normalized asset) alias ≡ true) × (mem_text alias lp_tracked_assets ≡ true)
alpha_asset_to_lp_alias_sound asset alias h =
    first_prefix-found (normalized asset) lp_tracked_assets alias
      (unfold alpha_asset_to_lp_alias in ground arith)
