-- ===== src/Preflight/CapsCsv.antt =====
-- What the CSV of caps gives: positive finite numbers under keys that are not empty, and back the
-- table that was written into it.
use oms_gateway.Prelude.{◌≡◌, refl, false, some, List, [], ◌∷◌, arith, Bool-cases, inl, inr}
use oms_gateway.Text.{Text, is_empty}
use oms_gateway.Text.Split.{split}
use oms_gateway.Dict.{lookup, add_entry, Values, Values-add_entry, Values-lookup}
use oms_gateway.Float.{Float, zero_float, IsFinite}
use oms_gateway.Preflight.Budget.{parse_cap, collect_caps, parse_strategy_caps}

module _ {F : Type 0} ⦃f : Float F⦄ where
  open f use {le}

  abbrev pub IsCap : F → Type 0
  IsCap c = IsFinite c × (le c zero_float ≡ false)

  parse_cap-IsCap : (entry : Text) (p : Text × F) → parse_cap entry ≡ some p → IsCap p.1
  unfolding parse_cap
  parse_cap-IsCap entry p h = ground arith

  collect_caps-IsCap :
      (out : List (Text × F)) (entries : List Text)
      → Values IsCap out
      → Values IsCap (collect_caps out entries)
  unfolding collect_caps
  collect_caps-IsCap out [] h = h
  collect_caps-IsCap out (entry ∷ rest) h =
      collect_caps-IsCap (add_entry out (parse_cap entry)) rest
        (Values-add_entry IsCap out (parse_cap entry) (parse_cap-IsCap entry) h)

  parse_strategy_caps-Values :
      (csv : Text) (m : List (Text × F)) → parse_strategy_caps csv ≡ m → Values IsCap m
  unfolding parse_strategy_caps
  parse_strategy_caps-Values csv m h = rw (← h) (elim (Bool-cases (is_empty csv)) [
    | inl e ↦ rw e tt
    | inr e ↦ rw e (collect_caps-IsCap [] (split b',' csv) tt)
  ])

  -- Every cap that the CSV parser yields is finite and above zero.
  pub parse_strategy_caps-IsCap :
      (csv slug : Text) (c : F) → lookup slug (parse_strategy_caps csv) ≡ some c → IsCap c
  parse_strategy_caps-IsCap csv slug c h =
      Values-lookup IsCap slug c (parse_strategy_caps csv) (parse_strategy_caps-Values csv _ refl) h
