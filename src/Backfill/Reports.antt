-- ===== src/Backfill/Reports.antt =====
-- The two reports of scripts/backfill_fills_tca.py: the plan for each venue before the write, and the
-- check of the view fill_tca_summary after it.
use oms_gateway.Prelude.{
  ℕ, suc, Bool, ◌&&◌, Option, List, [], ◌∷◌, ◌++◌, if◌then◌else◌, keep, length, ltb, leb,
}
use oms_gateway.Text.{Text, codes, text_eq}
use oms_gateway.Value.{Value}
use oms_gateway.Database.Schema.{Numeric}
use oms_gateway.Database.Queries.{equals}
use oms_gateway.Backfill.Schema.{FillRow, History, Candidate, VenuePlan, TcaSummary, TcaCheck}
use oms_gateway.Backfill.Queries.{is_set, has_quote, select_candidates}

abbrev pub count_if : Bool → ℕ → ℕ
count_if b n = if b then suc n else n

module _ {N F : Type 0} where
  -- `fill_ts > intent_ts`
  abbrev pub has_latency : Candidate N F → Bool
  has_latency c = ltb c.intent_ts c.fill_ts

  -- `GROUP BY venue`, with the three counts.
  unfoldable pub count_candidate : Candidate N F → List VenuePlan → List VenuePlan
  unfolding has_quote
  count_candidate c [] =
      record {
        venue = c.venue;
        recoverable = 1;
        with_arrival_quote = count_if (has_quote c.quote_at_intent) 0;
        with_latency = count_if (has_latency c) 0;
      }
      ∷ []
  count_candidate c (p ∷ ps) =
      if text_eq p.venue c.venue
      then record p {
        recoverable = suc p.recoverable;
        with_arrival_quote = count_if (has_quote c.quote_at_intent) p.with_arrival_quote;
        with_latency = count_if (has_latency c) p.with_latency;
      }
        ∷ ps
      else p ∷ count_candidate c ps

  unfoldable pub group_by_venue : List (Candidate N F) → List VenuePlan
  unfolding count_candidate
  group_by_venue [] = []
  group_by_venue (c ∷ cs) = count_candidate c (group_by_venue cs)

-- `ORDER BY recoverable DESC`
unfoldable pub place_plan : VenuePlan → List VenuePlan → List VenuePlan
place_plan p [] = p ∷ []
place_plan p (q ∷ qs) = if leb q.recoverable p.recoverable then p ∷ q ∷ qs else q ∷ place_plan p qs

unfoldable pub by_recoverable : List VenuePlan → List VenuePlan
unfolding place_plan
by_recoverable [] = []
by_recoverable (p ∷ ps) = place_plan p (by_recoverable ps)

module _ {N F : Type 0} ⦃num : Numeric N⦄ (quote_of : Text → Value F) where
  -- `report_sql`
  unfoldable pub recovery_plan : Option Text → History N F → List VenuePlan
  unfolding by_recoverable group_by_venue select_candidates
  recovery_plan venue h = by_recoverable (group_by_venue (select_candidates quote_of venue h))

module _ {N F : Type 0} (view : History N F → List (TcaSummary N)) (tag : Text → Option Text) where
  -- `fl.fill_id = s.fill_id` and `meta ->> 'tca_backfill' = 'true'`
  unfoldable pub backfilled_joins : List (FillRow N F) → TcaSummary N → List (TcaSummary N)
  unfolding codes equals
  backfilled_joins [] s = []
  backfilled_joins (f ∷ fs) s =
      if text_eq f.fill.fill_id s.fill_id && equals (tag f.fill.meta) (codes "true")
      then s ∷ backfilled_joins fs s
      else backfilled_joins fs s

  unfoldable pub backfilled_summaries :
      List (FillRow N F) → List (TcaSummary N) → List (TcaSummary N)
  unfolding backfilled_joins
  backfilled_summaries fs [] = []
  backfilled_summaries fs (s ∷ ss) = backfilled_joins fs s ++ backfilled_summaries fs ss

  -- The counts over `fill_tca_summary s JOIN fills fl ON fl.fill_id = s.fill_id`
  unfoldable pub tca_check : History N F → TcaCheck
  unfolding backfilled_summaries is_set
  tca_check h =
      let rows = backfilled_summaries h.fills (view h) in
      record {
        backfilled = length rows;
        with_slip = length (keep (λ (s : TcaSummary N). is_set s.arrival_slip_bps) rows);
        with_latency = length (keep (λ (s : TcaSummary N). is_set s.intent_to_fill_secs) rows);
      }
