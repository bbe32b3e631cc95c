-- ===== src/Backfill/Recovery.antt =====
-- What the insert of scripts/backfill_fills_tca.py does to the two tables.
use oms_gateway.Prelude.{
  ℕ, suc, ◌≢◌, ◌≡◌, refl, sym, ap, true, false, not, ◌&&◌, Option, none, some, List, [], ◌∷◌, ◌++◌,
  map, keep, All, All-keep, All-weaken, All-of-keep, keep-none, arith, Bool-cases, inl, inr, length,
}
use oms_gateway.Text.{Text, codes, text_eq, text_eq_iff, text_eq_refl}
use oms_gateway.Value.{Value, Fields}
use oms_gateway.Dict.{lookup, lookup_or}
use oms_gateway.Database.Schema.{Numeric}
use oms_gateway.Database.Queries.{equals}
use oms_gateway.Backfill.Schema.{Executed, FillRow, History, Candidate}
use oms_gateway.Backfill.Queries.{
  has_fill, qualifies, missing, candidate_of, select_candidates, backfill_meta, backfilled_row,
  insert_missing, fee_currency_of, fee_ccy_by_venue, default_fee_ccy,
}

length-map : {A B : Type 0} (g : A → B) (xs : List A) → length (map g xs) ≡ length xs
length-map g [] = refl
length-map g (x ∷ xs) = ap suc (length-map g xs)

suc_not_zero : {n : ℕ} → suc n ≢ 0
suc_not_zero = omega arith

module _ {N F : Type 0} where
  has_fill-append :
      (id : Text) (fs gs : List (FillRow N F))
      → has_fill id gs ≡ true
      → has_fill id (fs ++ gs) ≡ true
  unfolding has_fill
  has_fill-append id [] gs h = h
  has_fill-append id (f ∷ fs) gs h = ground (arith, has_fill-append id fs gs h)

  -- No two rows have the same intent.
  abbrev pub Fresh : Option Text → List (FillRow N F) → Type 0
  Fresh none fs = Unit
  Fresh (some id) fs = has_fill id fs ≡ false

  abbrev pub HasUniqueParents : List (FillRow N F) → Type 0
  HasUniqueParents [] = Unit
  HasUniqueParents (f ∷ fs) = Fresh f.fill.parent_intent_id fs × HasUniqueParents fs

  -- The primary key of oms_intents.
  abbrev pub HasUniqueIds : List (Executed N F) → Type 0
  HasUniqueIds [] = Unit
  HasUniqueIds (i ∷ is) =
      All (λ (j : Executed N F). text_eq j.intent.id i.intent.id ≡ false) is × HasUniqueIds is

pub currency-table :
    (venue : Text) → fee_currency_of venue ≡ lookup_or venue default_fee_ccy fee_ccy_by_venue
unfolding fee_currency_of fee_ccy_by_venue default_fee_ccy lookup_or lookup codes
currency-table venue =
    ground (arith, text_eq_iff venue (codes "polymarket"), text_eq_iff (codes "polymarket") venue)

module _ {N F : Type 0} ⦃num : Numeric N⦄ (quote_of : Text → Value F) (random_uuid : Text → Text)
    (jsonb : Fields F → Text) where
  abbrev row : Executed N F → FillRow N F
  row = backfilled_row quote_of random_uuid jsonb

  has_fill-rows :
      (is : List (Executed N F)) (fs : List (FillRow N F))
      → All (λ (i : Executed N F). has_fill i.intent.id (map row is ++ fs) ≡ true) is
  unfolding has_fill equals backfilled_row
  has_fill-rows [] fs = tt
  has_fill-rows (i ∷ is) fs = (
    rw (text_eq_refl i.intent.id) refl,
    All-weaken _ _ is (λ j. has_fill-append j.intent.id (row i ∷ []) (map row is ++ fs))
        (has_fill-rows is fs),
  )

  rows-fresh :
      (id : Text) (is : List (Executed N F)) (fs : List (FillRow N F))
      → All (λ (j : Executed N F). text_eq j.intent.id id ≡ false) is
      → has_fill id fs ≡ false
      → has_fill id (map row is ++ fs) ≡ false
  unfolding has_fill equals backfilled_row
  rows-fresh id [] fs hs h = h
  rows-fresh id (i ∷ is) fs hs h = ground (arith, rows-fresh id is fs hs.1 h)

  module _ (venue : Option Text) (h : History N F) where
    abbrev after : History N F
    after = (insert_missing quote_of random_uuid jsonb venue h).1

    still :
        (i : Executed N F)
        → qualifies venue i && not (has_fill i.intent.id h.fills) ≡ false
        → qualifies venue i && not (has_fill i.intent.id after.fills) ≡ false
    unfolding insert_missing
    still i e = ground (arith, has_fill-append i.intent.id (map row (missing venue h)) h.fills)

    missing-after : missing venue after ≡ []
    unfolding insert_missing missing
    missing-after = keep-none _ h.oms_intents (
        All-of-keep _ (λ i. qualifies venue i && not (has_fill i.intent.id h.fills)) h.oms_intents
          still
          (All-weaken _ _ (missing venue h) (λ i e. rw e (ground arith))
            (has_fill-rows (missing venue h) h.fills)))

    abbrev with_rows : List (Executed N F) → History N F
    with_rows is = record h { fills = map row is ++ h.fills }

    no_rows : (is : List (Executed N F)) → length is ≡ 0 → with_rows is ≡ h
    no_rows [] e = refl
    no_rows (i ∷ is) e = absurd (suc_not_zero e)

    pub none-missing : length (missing venue h) ≡ 0 → after ≡ h
    unfolding insert_missing
    none-missing e = no_rows (missing venue h) e

    -- The insert of the backfill, made again, inserts nothing and leaves the tables as they are.
    pub insert-again : insert_missing quote_of random_uuid jsonb venue after ≡ (0, after)
    unfolding insert_missing
    insert-again = rw missing-after refl

    kept_unique :
        (is : List (Executed N F))
        → HasUniqueIds is
        → HasUniqueParents h.fills
        → HasUniqueParents (
            map row (keep (λ i. qualifies venue i && not (has_fill i.intent.id h.fills)) is)
            ++ h.fills)
    unfolding keep backfilled_row
    kept_unique [] ids parents = parents
    kept_unique (i ∷ is) ids parents =
        elim (Bool-cases (qualifies venue i && not (has_fill i.intent.id h.fills))) [
          | inl e ↦ rw e (
            rows-fresh i.intent.id (keep _ is) h.fills (All-keep _ _ is ids.0) (ground arith),
            kept_unique is ids.1 parents,
          )
          | inr e ↦ rw e (kept_unique is ids.1 parents)
        ]

    -- When the ids of the intents are unique and no two rows of fills have the same intent, no two
    -- rows have the same intent after the insert either.
    pub unique-after :
        HasUniqueIds h.oms_intents → HasUniqueParents h.fills → HasUniqueParents after.fills
    unfolding insert_missing missing
    unique-after ids parents = kept_unique h.oms_intents ids parents

  -- The row that a candidate of the SELECT describes.
  abbrev pub row_of_candidate : Candidate N F → FillRow N F
  row_of_candidate c = record {
    fill = record {
      fill_id = random_uuid c.intent_id;
      strategy_id = c.strategy_id;
      venue = c.venue;
      asset = c.asset;
      side = c.side;
      intent_ts = c.intent_ts;
      submit_ts = c.submit_ts;
      quote_at_intent = c.quote_at_intent;
      quote_at_submit = c.quote_at_intent;
      size = c.size;
      order_type = c.order_type;
      outcome = codes "filled";
      reject_reason = none;
      parent_intent_id = some c.intent_id;
      meta = jsonb backfill_meta;
    };
    ack_ts = some c.submit_ts;
    fill_ts = some c.fill_ts;
    fill_price = c.fill_price;
    filled_size = c.filled_size;
    fee = c.fee;
    fee_currency = some (lookup_or c.venue default_fee_ccy fee_ccy_by_venue);
  }

  mirrored :
      (is : List (Executed N F))
      → map row is ≡ map row_of_candidate (map (candidate_of quote_of) is)
  unfolding backfilled_row candidate_of
  mirrored [] = refl
  mirrored (i ∷ is) = rw (currency-table i.intent.venue, mirrored is) refl

  pub length-candidates :
      (venue : Option Text) (h : History N F)
      → length (select_candidates quote_of venue h) ≡ length (missing venue h)
  unfolding select_candidates
  length-candidates venue h = length-map _ (missing venue h)

  -- The insert of the backfill leaves the intents, adds in front of the fills the rows that the
  -- candidates of the report describe, with the fee currency of the table of the module, and
  -- counts as many rows as there are candidates.
  pub insert-mirrors :
      (venue : Option Text) (h : History N F)
      → ((insert_missing quote_of random_uuid jsonb venue h).1.oms_intents ≡ h.oms_intents)
        × ((insert_missing quote_of random_uuid jsonb venue h).1.fills
            ≡ map row_of_candidate (select_candidates quote_of venue h) ++ h.fills)
        × ((insert_missing quote_of random_uuid jsonb venue h).0
            ≡ length (select_candidates quote_of venue h))
  unfolding insert_missing select_candidates
  insert-mirrors venue h =
      (refl, ap (λ fs. fs ++ h.fills) (mirrored (missing venue h)), sym (length-candidates venue h))
