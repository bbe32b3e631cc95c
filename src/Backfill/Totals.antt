-- ===== src/Backfill/Totals.antt =====
-- The report of scripts/backfill_fills_tca.py counts every candidate once.
use oms_gateway.Prelude.{
  ℕ, suc, ◌+◌, ◌≡◌, refl, sym, ap, ◌++◌, All, keep, false, ◌∙◌, Option, List, [], ◌∷◌, length,
  arith,
}
use oms_gateway.Prelude.Int.{ℤ, pos}
use oms_gateway.Prelude.Result.{Result, ok}
use oms_gateway.Text.{Text, codes, is_space, is_empty, starts_with}
use oms_gateway.Text.Split.{pieces, words, last_text}
use oms_gateway.Backfill.{Supplies, written_of}
use oms_gateway.Backfill.Recovery.{insert-mirrors}
use oms_gateway.Value.{Value}
use oms_gateway.Database.Schema.{Numeric}
use oms_gateway.Backfill.Schema.{History, Candidate, VenuePlan}
use oms_gateway.Backfill.Queries.{insert_missing, select_candidates}
use oms_gateway.Backfill.Reports.{
  count_candidate, group_by_venue, place_plan, by_recoverable, recovery_plan,
}

-- The sum of the counts.
abbrev pub total_of : List VenuePlan → ℕ
total_of [] = 0
total_of (p ∷ ps) = p.recoverable + total_of ps

total_of-place :
    (p : VenuePlan) (ps : List VenuePlan) → total_of (place_plan p ps) ≡ p.recoverable + total_of ps
unfolding place_plan
total_of-place p [] = refl
total_of-place p (q ∷ qs) = ground (arith, total_of-place p qs)

total_of-sorted : (ps : List VenuePlan) → total_of (by_recoverable ps) ≡ total_of ps
unfolding by_recoverable
total_of-sorted [] = refl
total_of-sorted (p ∷ ps) = ground (arith, total_of-place p (by_recoverable ps), total_of-sorted ps)

module _ {N F : Type 0} where
  total_of-count :
      (c : Candidate N F) (ps : List VenuePlan)
      → total_of (count_candidate c ps) ≡ suc (total_of ps)
  unfolding count_candidate
  total_of-count c [] = refl
  total_of-count c (p ∷ ps) = ground (arith, total_of-count c ps)

  total_of-group : (cs : List (Candidate N F)) → total_of (group_by_venue cs) ≡ length cs
  unfolding group_by_venue
  total_of-group [] = refl
  total_of-group (c ∷ cs) = ground (arith, total_of-count c (group_by_venue cs), total_of-group cs)

  pub total_of-plan :
      ⦃num : Numeric N⦄ (quote_of : Text → Value F) (venue : Option Text) (h : History N F)
      → total_of (recovery_plan quote_of venue h) ≡ length (select_candidates quote_of venue h)
  unfolding recovery_plan
  total_of-plan quote_of venue h =
      total_of-sorted (group_by_venue (select_candidates quote_of venue h))
      ∙ total_of-group (select_candidates quote_of venue h)

-- `int` reads the digits of a number, which are not empty and have no white space.
pub record ReadsDigits (digits : ℕ → Text) (int_of : Text → Result ℤ) : Type 0 where
  pub int_digits : (n : ℕ) → int_of (digits n) ≡ ok (pos n)
  pub full : (n : ℕ) → is_empty (digits n) ≡ false
  pub unbroken : (n : ℕ) → All (λ c. is_space c ≡ false) (digits n)

pieces-one : (t : Text) → All (λ c. is_space c ≡ false) t → pieces t ≡ t ∷ []
unfolding pieces
pieces-one [] h = refl
pieces-one (c ∷ t) h = rw (h.0, pieces-one t h.1) refl

module _ {N F S : Type 0} ⦃num : Numeric N⦄ (supplies : Supplies N F S)
    (reads : ReadsDigits supplies.digits supplies.int_of) where
  open supplies use {quote_of, random_uuid, jsonb, digits}

  written_of-tag : (n : ℕ) → written_of supplies (codes "INSERT 0 " ++ digits n) ≡ ok (pos n)
  unfolding written_of words pieces is_space is_empty starts_with last_text codes keep
  written_of-tag n =
      rw (pieces-one (digits n) (reads.unbroken n), reads.full n) (reads.int_digits n)

  -- When int reads the digits of a number back, and they are not empty and have no white space,
  -- the count that the script parses from the status of its insert is the total of the report's
  -- rows on the same tables.
  pub written_of-planned :
      (venue : Option Text) (h : History N F)
      → written_of supplies
          (codes "INSERT 0 " ++ digits (insert_missing quote_of random_uuid jsonb venue h).0)
        ≡ ok (pos (total_of (recovery_plan quote_of venue h)))
  written_of-planned venue h =
      written_of-tag (insert_missing quote_of random_uuid jsonb venue h).0
      ∙ ap (λ n. ok (pos n))
          ((insert-mirrors quote_of random_uuid jsonb venue h).2
            ∙ sym (total_of-plan quote_of venue h))
