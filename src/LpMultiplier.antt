-- ===== src/LpMultiplier.antt =====
-- src/oms_gateway/lp_multiplier.py: the risk multiplier of an asset, read from Redis. The JSON
-- parser, the Redis reply and the clock are arguments. A payload is text: the client decodes it.
pub mod Alias
pub mod Range
use oms_gateway.Prelude.{
  ℕ, Bool, true, false, Option, none, some, List, [], ◌∷◌, ◌++◌, if◌then◌else◌, String,
}
use oms_gateway.Prelude.Result.{
  Result, ok, err, Error, ◌>>=◌, catch_type_value, json_error, attribute_error, type_error,
  value_error,
}
use oms_gateway.Text.{Text, codes, is_empty, lower, starts_with, without_char}
use oms_gateway.Float.{Float, zero_float, one_float, clamp}
use oms_gateway.Value.{Value, Fields, null, bool, int, float, str, list, dict, get_field, to_float}

-- The tracked assets, longest first.
unfoldable pub lp_tracked_assets : List Text
unfolding codes
lp_tracked_assets =
    codes "doge"
    ∷ codes "hype"
    ∷ codes "btc"
    ∷ codes "eth"
    ∷ codes "sol"
    ∷ codes "bnb"
    ∷ codes "xrp"
    ∷ []

abbrev pub default_freshness_sec : ℕ
default_freshness_sec = 30

-- The asset in lower case, without its separators.
unfoldable pub normalized : Text → Text
unfolding lower without_char
normalized asset = without_char b'_' (without_char b'/' (without_char b'-' (lower asset)))

-- The first alias that the text starts with.
unfoldable pub first_prefix : Text → List Text → Option Text
unfolding starts_with
first_prefix t [] = none
first_prefix t (alias ∷ rest) = if starts_with t alias then some alias else first_prefix t rest

unfoldable pub alpha_asset_to_lp_alias : Option Text → Option Text
unfolding normalized first_prefix lp_tracked_assets is_empty
alpha_asset_to_lp_alias none = none
alpha_asset_to_lp_alias (some asset) =
    if is_empty asset then none else first_prefix (normalized asset) lp_tracked_assets

unfoldable pub multiplier_key : Text → Text
unfolding codes
multiplier_key alias = codes "liquidity-pulse:" ++ alias ++ codes ":multiplier"

module _ {F : Type 0} ⦃f : Float F⦄ where
  open f use {lit, sub, lt}

  -- `payload.get(key, default)`: only a dict has the method.
  unfoldable pub payload_get : String → Value F → Value F → Result (Value F)
  payload_get key default (dict fs) = elim (get_field key fs) [ none ↦ ok default | some v ↦ ok v ]
  payload_get key default null = err attribute_error
  payload_get key default (bool b) = err attribute_error
  payload_get key default (int z) = err attribute_error
  payload_get key default (float x) = err attribute_error
  payload_get key default (str t) = err attribute_error
  payload_get key default (list vs) = err attribute_error

  -- Whether `now - float(computed_at) > max_age`; None, and what is no number, is not stale.
  unfoldable pub is_stale : F → F → Value F → Result Bool
  is_stale now max_age null = ok false
  is_stale now max_age v =
      catch_type_value (to_float v >>= λ at. ok (lt max_age (sub now at))) (ok false)

  -- `float(payload.get("multiplier", 1.0))`, with None for TypeError and ValueError.
  unfoldable pub multiplier_of : Value F → Result (Option F)
  unfolding payload_get
  multiplier_of payload =
      catch_type_value
        (payload_get "multiplier" (float one_float) payload >>= λ v.
          (to_float v >>= λ x. ok (some x)))
        (ok none)

  unfoldable pub clamped_multiplier : F → F
  clamped_multiplier = clamp (lit 5 1) (lit 2 0)

  -- The freshness gate and the clamping.
  unfoldable pub gated_multiplier : F → F → Value F → Option F → Result F
  unfolding payload_get clamped_multiplier
  gated_multiplier now max_age payload none = ok one_float
  gated_multiplier now max_age payload (some x) =
      payload_get "computed_at_unix" null payload >>= λ at.
      (is_stale now max_age at >>= λ stale. ok (if stale then one_float else clamped_multiplier x))

  unfoldable pub multiplier_of_payload : F → F → Value F → Result F
  unfolding gated_multiplier multiplier_of
  multiplier_of_payload now max_age payload =
      multiplier_of payload >>= λ x. gated_multiplier now max_age payload x

  -- `except json.JSONDecodeError: return 1.0`
  unfoldable pub loaded : F → F → Result (Value F) → Result F
  unfolding multiplier_of_payload
  loaded now max_age (ok payload) = multiplier_of_payload now max_age payload
  loaded now max_age (err json_error) = ok one_float
  loaded now max_age (err e) = err e

  unfoldable pub parse_multiplier_payload :
      (Text → Result (Value F)) → Option Text → F → F → Result F
  unfolding loaded
  parse_multiplier_payload loads none now max_age = ok one_float
  parse_multiplier_payload loads (some raw) now max_age =
      if is_empty raw then ok one_float else loaded now max_age (loads raw)

  -- `except Exception: return 1.0` around the read.
  unfoldable pub read_multiplier :
      (Text → Result (Value F)) → F → F → Result (Option Text) → Result F
  unfolding parse_multiplier_payload
  read_multiplier loads now max_age (ok raw) = parse_multiplier_payload loads raw now max_age
  read_multiplier loads now max_age (err e) = ok one_float

  -- `get` is the reply of the client to a key.
  unfoldable pub fetch_multiplier :
      (Text → Result (Value F)) → (Text → Result (Option Text)) → F → Option Text → F → Result F
  unfolding read_multiplier
  fetch_multiplier loads get now asset max_age = elim (alpha_asset_to_lp_alias asset) [
    | none ↦ ok one_float
    | some alias ↦ read_multiplier loads now max_age (get (multiplier_key alias))
  ]
