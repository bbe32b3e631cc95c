-- ===== src/Value.antt =====
-- Python values of a dictionary read from JSON, or written for the audit trail. Keys are fixed
-- words; the code never takes a key apart.
use text.Mathlib.Text.{◌==◌ as str_eq}
use oms_gateway.Prelude.{
  Bool, true, false, not, Option, none, some, List, [], ◌∷◌, String, if◌then◌else◌, ◌==◌,
}
use oms_gateway.Prelude.Int.{ℤ, pos, negsuc}
use oms_gateway.Prelude.Result.{Result, ok, err, type_error, value_error, overflow_error}
use oms_gateway.Text.{Text, is_empty, strip}
use oms_gateway.Float.{Float, zero_float, one_float}

mutual
  pub data Value (F : Type 0) : Type 0 where
    null : Value F
    bool : Bool → Value F
    int : ℤ → Value F
    float : F → Value F
    str : Text → Value F
    list : Items F → Value F
    dict : Fields F → Value F

  pub data Items (F : Type 0) : Type 0 where
    nil : Items F
    cons : Value F → Items F → Items F

  pub data Fields (F : Type 0) : Type 0 where
    end : Fields F
    field : String → Value F → Fields F → Fields F

unfoldable pub is_zero_int : ℤ → Bool
is_zero_int (pos n) = n == 0
is_zero_int (negsuc n) = false

module _ {F : Type 0} where
  -- `fields.get(key)`; `none` is the absent key. The last entry of a JSON object wins, and
  -- dictionaries built by the code hold each key once.
  unfoldable pub get_field : String → Fields F → Option (Value F)
  get_field k end = none
  get_field k (field j v rest) = elim (get_field k rest) [
    | some w ↦ some w
    | none ↦ if str_eq j k then some v else none
  ]

  -- a list of strings
  unfoldable pub of_texts : List Text → Items F
  of_texts [] = nil
  of_texts (t ∷ ts) = cons (str t) (of_texts ts)

  unfoldable pub optional_text : Option Text → Value F
  optional_text none = null
  optional_text (some t) = str t

  unfoldable pub optional_float : Option F → Value F
  optional_float none = null
  optional_float (some x) = float x

module _ {F : Type 0} ⦃f : Float F⦄ where
  -- `bool(value)`
  unfoldable pub truthy_value : Value F → Bool
  unfolding is_zero_int is_empty
  truthy_value null = false
  truthy_value (bool b) = b
  truthy_value (int z) = not (is_zero_int z)
  truthy_value (float x) = not (f.eq x zero_float)
  truthy_value (str t) = not (is_empty t)
  truthy_value (list nil) = false
  truthy_value (list (cons v vs)) = true
  truthy_value (dict end) = false
  truthy_value (dict (field k v fs)) = true

  -- The result of a conversion with `none` for the exception.
  unfoldable pub or_raise : Option F → Result F → Result F
  or_raise none e = e
  or_raise (some x) e = ok x

  -- `float(value)`
  unfoldable pub to_float : Value F → Result F
  unfolding or_raise
  to_float null = err type_error
  to_float (bool b) = ok (if b then one_float else zero_float)
  to_float (int z) = or_raise (f.of_int z) (err overflow_error)
  to_float (float x) = ok x
  to_float (str t) = or_raise (f.parse (strip t)) (err value_error)
  to_float (list vs) = err type_error
  to_float (dict fs) = err type_error
