-- ===== src/Preflight/Cluster.antt =====
-- The concentration cluster of a market, and its SQL filter.
use oms_gateway.Prelude.{not, Option, none, some, List, [], ◌∷◌, ◌++◌, if◌then◌else◌, keep}
use oms_gateway.Text.{Text, codes, text_eq, mem_text, is_empty, strip, lower, upper}
use oms_gateway.Text.Split.{split, partition}

unfoldable pub slug_prefixes : List Text
unfolding codes
slug_prefixes =
    codes "will"
    ∷ codes "does"
    ∷ codes "is"
    ∷ codes "has"
    ∷ codes "did"
    ∷ codes "can"
    ∷ codes "the"
    ∷ codes "a"
    ∷ codes "an"
    ∷ []

-- `tokens[idx]` after the loop: the first token that is no prefix word, or else the last token.
unfoldable pub semantic_head : Text → List Text → Text
semantic_head token [] = token
semantic_head token (next ∷ rest) =
    if mem_text token slug_prefixes then semantic_head next rest else token

-- The polymarket branch, for a stripped asset `a`.
unfoldable pub poly_cluster : Text → Text
unfolding semantic_head slug_prefixes
poly_cluster a = elim (keep (λ t. not (is_empty t)) (split b'-' (lower a))) [
  | [] ↦ codes "poly:" ++ a
  | token ∷ rest ↦ codes "poly:" ++ semantic_head token rest
]

-- `a.split("-", 1)[0]`
unfoldable pub before_dash : Text → Text
before_dash a = elim (partition b'-' a) [ none ↦ a | some p ↦ p.0 ]

unfoldable pub crypto_cluster : Text → Text
unfolding before_dash
crypto_cluster a =
    let head = upper (before_dash a) in
    if not (is_empty head) then codes "crypto:" ++ head else codes "crypto:" ++ upper a

unfoldable pub cluster_for : Text → Text → Text
unfolding poly_cluster crypto_cluster
cluster_for venue asset =
    let v = lower venue in
    let a = strip asset in
    if is_empty a
    then v ++ codes ":?"
    else if text_eq v (codes "polymarket")
    then poly_cluster a
    else if text_eq v (codes "binance")
    then crypto_cluster a
    else if text_eq v (codes "alpaca")
    then codes "stocks:" ++ upper a
    else v ++ b':' ∷ upper a

-- `(venue, like_pattern, exact_match)`
pub record SqlFilter : Type 0 where
  pub venue : Text
  pub like_pattern : Text
  pub exact : Text

abbrev sql_filter : Text → Text → Text → SqlFilter
sql_filter v l e = record { venue = v; like_pattern = l; exact = e }

unfoldable pub filter_of_kind : Text → Text → Option SqlFilter
filter_of_kind kind head =
    if is_empty head
    then none
    else if text_eq kind (codes "poly")
    then some (sql_filter (codes "polymarket") (head ++ codes "-%") head)
    else if text_eq kind (codes "crypto")
    then some (sql_filter (codes "binance") (head ++ codes "-%") head)
    else if text_eq kind (codes "stocks")
    then some (sql_filter (codes "alpaca") (codes "_NEVER_") head)
    else none

-- `none` also where there is no colon; the empty cluster has none.
unfoldable pub cluster_sql_filter : Text → Option SqlFilter
unfolding filter_of_kind
cluster_sql_filter cluster = elim (partition b':' cluster) [
  | none ↦ none
  | some p ↦ filter_of_kind p.0 p.1
]
