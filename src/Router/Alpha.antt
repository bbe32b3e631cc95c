-- ===== src/Router/Alpha.antt =====
-- What the router reads of an alpha, the strategy that its metadata names, and the metadata of the
-- intent. The class Alpha is of another package; `is_live` is its method.
use oms_gateway.Prelude.{Bool, false, not, ◌&&◌, Option, none, some, List, [], ◌∷◌}
use oms_gateway.Text.{Text, codes, is_empty, mem_text}
use oms_gateway.Text.Split.{csv_items}
use oms_gateway.Value.{
  Value, Fields, Items, null, bool, float, str, list, dict, nil, cons, end, field, get_field,
  optional_text,
}
use oms_gateway.Settings.{Settings}
use oms_gateway.Preflight.Decision.{Direction, Decision, Reason, Period, reason_text, period_text}

pub record Source (F : Type 0) : Type 0 where
  pub source_id : Value F
  pub weight : Value F

pub record Alpha (F : Type 0) : Type 0 where
  pub id : Text
  pub direction : Direction
  pub is_live : F → Bool
  pub asset : Text
  pub asset_class : Text
  pub confidence : F
  pub edge_bps : Value F
  pub reasoning : Value F
  pub metadata : Fields F
  pub contributing_sources : List (Source F)

-- `slug if isinstance(slug, str) else None`
unfoldable pub str_or_none : {F : Type 0} → Option (Value F) → Option Text
str_or_none (some (str t)) = some t
str_or_none _ = none

-- `slug in PAPER_STRATEGY_SLUGS`, for a slug that is not empty.
unfoldable pub is_paper : {F : Type 0} → Settings F → Option Text → Bool
is_paper s none = false
is_paper s (some slug) = not (is_empty slug) && mem_text slug (csv_items s.paper_strategy_slugs)

module _ {F : Type 0} where
  -- The id, if it parses as a UUID, and the slug. `parse_uuid` gives the text of the UUID.
  unfoldable pub resolve_strategy : (Text → Option Text) → Alpha F → Option Text × Option Text
  unfolding str_or_none
  resolve_strategy parse_uuid a = (
    elim (str_or_none (get_field "strategy_id" a.metadata)) [
      | none ↦ none
      | some sid ↦ parse_uuid sid
    ],
    str_or_none (get_field "strategy_slug" a.metadata),
  )

  unfoldable pub or_null : Option (Value F) → Value F
  or_null none = null
  or_null (some v) = v

  unfoldable pub sources_of : List (Source F) → Items F
  sources_of [] = nil
  sources_of (c ∷ cs) =
      cons (dict (field "source_id" c.source_id (field "weight" c.weight end))) (sources_of cs)

  unfoldable pub reason_value : Option Reason → Value F
  reason_value none = null
  reason_value (some why) = str (codes (reason_text why))

  unfoldable pub period_value : Option Period → Value F
  period_value none = null
  period_value (some p) = str (codes (period_text p))

  unfoldable pub build_intent_metadata :
      Settings F → Alpha F → Option Text → Option Text → F → Decision F → Option Text → Fields F
  unfolding sources_of or_null reason_value period_value is_paper
  build_intent_metadata s a bucket cluster lp_mult d slug = field "alpha_id" (str a.id) (
      field "alpha_confidence" (float a.confidence) (
        field "alpha_edge_bps" a.edge_bps (
          field "alpha_edge_pp" (or_null (get_field "edge_pp" a.metadata)) (
            field "alpha_reasoning" a.reasoning (
              field "alpha_metadata" (dict a.metadata) (
                field "bucket" (optional_text bucket) (
                  field "cluster" (optional_text cluster) (
                    field "lp_multiplier" (float lp_mult) (
                      field "paper" (bool (is_paper s slug)) (
                        field "preflight_decision"
                          (dict (
                            field "accept" (bool d.accept) (
                              field "reason" (reason_value d.reason) (
                                field "period_breached" (period_value d.period_breached)
                                  (field "snapshot_used" (dict d.snapshot_used) end)))))
                          (field "contributing_sources" (list (sources_of a.contributing_sources))
                            end)))))))))))
