-- ===== src/Metrics/Totals.antt =====
-- The totals of a snapshot, against the sum over the rows of a bucket or a cluster.
use oms_gateway.Prelude.{
  ◌≡◌, refl, ◌∙◌, Bool, not, ◌&&◌, List, [], ◌∷◌, if◌then◌else◌, keep, Bool-cases, inl, inr,
}
use oms_gateway.Text.{Text, is_empty, or_empty, text_eq, text_eq_iff}
use oms_gateway.Dict.{lookup, lookup_or, lookup_or-insert}
use oms_gateway.Float.{Float, zero_float}
use oms_gateway.Metrics.{OpenRow, add_to, add_bucket, group_rows, row_notional, row_cluster}

module _ {F : Type 0} ⦃f : Float F⦄ where
  open f use {add}

  -- `total += notional` over the rows, in their order.
  unfoldable pub sum_from : F → List (OpenRow F) → F
  sum_from total [] = total
  sum_from total (r ∷ rows) = sum_from (add total (row_notional r)) rows

  -- The rows of a bucket, and of a cluster.
  abbrev pub of_bucket : Text → OpenRow F → Bool
  of_bucket bucket r = not (is_empty (or_empty r.bucket)) && text_eq (or_empty r.bucket) bucket

  abbrev pub of_cluster : Text → OpenRow F → Bool
  of_cluster cluster r = text_eq (row_cluster r) cluster

  lookup_or-add_to :
      (key k : Text) (x : F) (m : List (Text × F))
      → lookup_or k zero_float (add_to key x m)
        ≡ (if text_eq key k then add (lookup_or k zero_float m) x else lookup_or k zero_float m)
  unfolding add_to
  lookup_or-add_to key k x m =
      lookup_or-insert key k (add (lookup_or key zero_float m) x) zero_float m
      ∙ elim (Bool-cases (text_eq key k)) [
        | inl e ↦ rw ((text_eq_iff key k).0 e) refl
        | inr e ↦ rw e refl
      ]

  lookup_or-add_bucket :
      (k : Text) (r : OpenRow F) (m : List (Text × F))
      → lookup_or k zero_float (add_bucket r m) ≡ (
          if of_bucket k r
          then add (lookup_or k zero_float m) (row_notional r)
          else lookup_or k zero_float m)
  unfolding add_bucket
  lookup_or-add_bucket k r m = elim (Bool-cases (is_empty (or_empty r.bucket))) [
    | inl e ↦ rw e refl
    | inr e ↦ rw e (lookup_or-add_to (or_empty r.bucket) k (row_notional r) m)
  ]

  -- Both dictionaries
  buckets_total :
      (k : Text) (rows : List (OpenRow F)) (m : List (Text × F) × List (Text × F))
      → lookup_or k zero_float (group_rows rows m).0
        ≡ sum_from (lookup_or k zero_float m.0) (keep (of_bucket k) rows)
  unfolding group_rows sum_from keep
  buckets_total k [] m = refl
  buckets_total k (r ∷ rows) m =
      buckets_total k rows (add_bucket r m.0, add_to (row_cluster r) (row_notional r) m.1)
      ∙ rw (lookup_or-add_bucket k r m.0)
          (elim (Bool-cases (of_bucket k r)) [ inl e ↦ rw e refl | inr e ↦ rw e refl ])

  clusters_total :
      (k : Text) (rows : List (OpenRow F)) (m : List (Text × F) × List (Text × F))
      → lookup_or k zero_float (group_rows rows m).1
        ≡ sum_from (lookup_or k zero_float m.1) (keep (of_cluster k) rows)
  unfolding group_rows sum_from keep
  clusters_total k [] m = refl
  clusters_total k (r ∷ rows) m =
      clusters_total k rows (add_bucket r m.0, add_to (row_cluster r) (row_notional r) m.1)
      ∙ rw (lookup_or-add_to (row_cluster r) k (row_notional r) m.1)
          (elim (Bool-cases (of_cluster k r)) [ inl e ↦ rw e refl | inr e ↦ rw e refl ])

  -- The total of a bucket, or of a cluster, that the loop over the rows collects is the sum, in
  -- order, over the rows of that bucket with a name that is not empty, or of that cluster.
  pub group_rows-sums :
      (k : Text) (rows : List (OpenRow F))
      → (lookup_or k zero_float (group_rows rows ([], [])).0
          ≡ sum_from zero_float (keep (of_bucket k) rows))
        × (lookup_or k zero_float (group_rows rows ([], [])).1
            ≡ sum_from zero_float (keep (of_cluster k) rows))
  unfolding lookup_or lookup
  group_rows-sums k rows = (buckets_total k rows ([], []), clusters_total k rows ([], []))
