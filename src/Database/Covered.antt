-- ===== src/Database/Covered.antt =====
-- The filter of a cluster against the clusters of the positions.
use mathlib.Core.Path.{subst}
use oms_gateway.Prelude.{
  ℕ, ◌≡◌, ◌≢◌, ◌⊎◌, refl, sym, ap, ◌∙◌, inl, inr, Bool, true, false, not, ◌&&◌, ◌||◌, ◌==◌, none,
  some, List, [], ◌∷◌, ◌++◌, map, All, arith, Bool-cases, Option-cases, ==_iff, if◌then◌else◌,
}
use oms_gateway.Text.{
  Text, codes, text_eq, text_eq_refl, is_empty, strip, lower, lower_char, upper, upper_char,
}
use oms_gateway.Text.Split.{partition}
use oms_gateway.Preflight.Cluster.{
  SqlFilter, cluster_for, crypto_cluster, before_dash, cluster_sql_filter, filter_of_kind,
}
use oms_gateway.Database.Schema.{Numeric, Position}
use oms_gateway.Database.Queries.{
  Token, exactly, any_run, tokens_from, matches, like, is_open, in_cluster,
}

-- A character that stands for itself in a pattern.
abbrev pub IsPlain : ℕ → Type 0
IsPlain c = (c ≢ b'%') × (c ≢ b'_') × (c ≢ 92)

-- A text without small letters.
abbrev pub IsCapital : Text → Type 0
IsCapital = All (λ c. upper_char c ≡ c)

unequal : (a b : ℕ) → a ≢ b → (a == b) ≡ false
unequal a b h = ground arith

some_injective : {A : Type 0} {x y : A} → some x ≡ some y → x ≡ y
some_injective e = cc

tokens_from-plain :
    (head rest : Text)
    → All IsPlain head
    → tokens_from false (head ++ rest) ≡ map exactly head ++ tokens_from false rest
unfolding tokens_from
tokens_from-plain [] rest h = refl
tokens_from-plain (c ∷ head) rest h =
    let (run, one, escape) = h.0 in
    rw (unequal c 92 escape, unequal c b'%' run, unequal c b'_' one)
      (ap (λ ts. exactly c ∷ ts) (tokens_from-plain head rest h.1))

matches-exactly :
    (head : Text) (ts : List Token) (t : Text)
    → matches (map exactly head ++ ts) (head ++ t) ≡ matches ts t
unfolding matches
matches-exactly [] ts t = refl
matches-exactly (c ∷ head) ts t = rw ((==_iff c c).1 refl) (matches-exactly head ts t)

matches-any_run : (t : Text) → matches (any_run ∷ []) t ≡ true
unfolding matches
matches-any_run [] = refl
matches-any_run (c ∷ t) = ground (arith, matches-any_run t)

-- The pattern of a filter selects what begins with the head and a dash.
like-head :
    (head rest : Text) → All IsPlain head → like (head ++ codes "-%") (head ++ b'-' ∷ rest) ≡ true
unfolding like tokens_from codes
like-head head rest h =
    ap (λ ts. matches ts (head ++ b'-' ∷ rest)) (tokens_from-plain head (codes "-%") h)
    ∙ matches-exactly head _ _
    ∙ unfold matches in matches-any_run rest

partition-parts :
    (sep : ℕ) (a : Text) (p : Text × Text) → partition sep a ≡ some p → a ≡ p.0 ++ sep ∷ p.1
unfolding partition
partition-parts sep [] p e = absurd (let clash : none ≡ some p = e in cc)
partition-parts sep (c ∷ a) p e = elim (Bool-cases (c == sep)) [
  | inl t ↦
      let found : some ([], a) ≡ some p = rw t at e in
      subst IsParted (some_injective found) (ap (λ d. d ∷ a) ((==_iff c sep).0 t))
  | inr t ↦ elim (Option-cases (partition sep a)) [
    | inl n ↦ absurd (let clash : none ≡ some p = rw (t, n) at e in cc)
    | inr (q, n) ↦
        let found : some (c ∷ q.0, q.1) ≡ some p = rw (t, n) at e in
        subst IsParted (some_injective found) (ap (λ r. c ∷ r) (partition-parts sep a q n))
  ]
]
  where
    IsParted : Text × Text → Type 0
    IsParted q = c ∷ a ≡ q.0 ++ sep ∷ q.1

upper-capital : (h r : Text) → IsCapital (h ++ r) → upper h ≡ h
unfolding upper
upper-capital [] r k = refl
upper-capital (c ∷ h) r k = rw (k.0, upper-capital h r k.1) refl

abbrev tail : Text → Text
tail [] = []
tail (c ∷ t) = t

-- Behind the kind of the cluster.
behind_kind : (s t : Text) → codes "crypto:" ++ s ≡ codes "crypto:" ++ t → s ≡ t
unfolding codes
behind_kind s t e = ap (λ u. tail (tail (tail (tail (tail (tail (tail u))))))) e

chosen_head :
    (h a head : Text)
    → upper h ≡ h
    → upper a ≡ a
    → (if not (is_empty (upper h)) then codes "crypto:" ++ upper h else codes "crypto:" ++ upper a)
      ≡ codes "crypto:" ++ head
    → (h ≡ head) ⊎ (a ≡ head)
unfolding is_empty
chosen_head [] a head kh ka e = inr (sym ka ∙ behind_kind (upper a) head (rw kh at e))
chosen_head (c ∷ h) a head kh ka e = inl (behind_kind (c ∷ h) head (rw kh at e))

capital : (a : Text) → IsCapital a → upper a ≡ a
unfolding upper
capital [] k = refl
capital (c ∷ a) k = rw (k.0, capital a k.1) refl

-- The head of the cluster is the asset, or what stands before its first dash.
head_of :
    (a head : Text)
    → IsCapital a
    → crypto_cluster a ≡ codes "crypto:" ++ head
    → (a ≡ head) ⊎ ((rest : Text) × (a ≡ head ++ b'-' ∷ rest))
unfolding crypto_cluster before_dash
head_of a head k e = elim (Option-cases (partition b'-' a)) [
  | inl n ↦ elim (chosen_head a a head (capital a k) (capital a k) (rw (n, before_dash) at e)) [
    | inl same ↦ inl same
    | inr same ↦ inl same
  ]
  | inr (q, n) ↦
      let parts = partition-parts b'-' a q n in
      let k' : IsCapital (q.0 ++ b'-' ∷ q.1) = subst IsCapital parts k in
      elim (chosen_head q.0 a head (upper-capital q.0 _ k') (capital a k)
        (rw (n, before_dash) at e)) [
          | inl same ↦ inr (q.1, parts ∙ ap (λ h. h ++ b'-' ∷ q.1) same)
          | inr same ↦ inl same
        ]
]

binance_cluster :
    (a head : Text)
    → strip a ≡ a
    → cluster_for (codes "binance") a ≡ codes "crypto:" ++ head
    → crypto_cluster a ≡ codes "crypto:" ++ head
unfolding cluster_for lower lower_char text_eq codes is_empty
binance_cluster [] head s e = absurd (clash (ap first_code (rw s at e)))
  where
    first_code : Text → ℕ
    first_code [] = 0
    first_code (c ∷ t) = c

    clash : ◌≢◌ {A = ℕ} 98 99
    clash = omega arith
binance_cluster (c ∷ a) head s e = rw s at e

poly_filter :
    (c : ℕ) (head : Text)
    → cluster_sql_filter (codes "poly:" ++ c ∷ head)
      ≡ some (record {
        venue = codes "polymarket";
        like_pattern = (c ∷ head) ++ codes "-%";
        exact = c ∷ head;
      })
unfolding cluster_sql_filter filter_of_kind partition text_eq codes is_empty
poly_filter c head = refl

-- A text that begins otherwise.
like-apart :
    (c d : ℕ) (pattern rest : Text) → IsPlain c → c ≢ d → like (c ∷ pattern) (d ∷ rest) ≡ false
unfolding like tokens_from matches
like-apart c d pattern rest (run, one, escape) apart =
    rw (unequal c 92 escape, unequal c b'%' run, unequal c b'_' one, unequal c d apart) refl

text_eq-apart : (c d : ℕ) (head rest : Text) → c ≢ d → text_eq (d ∷ rest) (c ∷ head) ≡ false
unfolding text_eq
text_eq-apart c d head rest apart = rw (unequal d c (λ e. apart (sym e))) refl

none_true : (a b c d : Bool) → b ≡ false → c ≡ false → (a && (b || c) && d) ≡ false
none_true a b c d hb hc = ground arith

all_true :
    (a b c d : Bool) → a ≡ true → (b ≡ true) ⊎ (c ≡ true) → d ≡ true → (a && (b || c) && d) ≡ true
all_true a b c d ha h hd = ground arith

module _ {N : Type 0} ⦃num : Numeric N⦄ where
  -- An open position of binance whose asset is in capitals with no white space around it, and
  -- whose cluster has a head that is not empty and has no special character of LIKE, is selected
  -- by the filter of its cluster.
  pub position-covered :
      (head : Text) (p : Position N)
      → All IsPlain head
      → is_empty head ≡ false
      → IsCapital p.asset
      → strip p.asset ≡ p.asset
      → p.venue ≡ codes "binance"
      → cluster_for p.venue p.asset ≡ codes "crypto:" ++ head
      → is_open p ≡ true
      → (filter : SqlFilter) × (cluster_sql_filter (codes "crypto:" ++ head) ≡ some filter)
        × (in_cluster filter.venue filter.like_pattern filter.exact p ≡ true)
  unfolding cluster_sql_filter filter_of_kind partition text_eq codes in_cluster
  position-covered head p plain full k stripped venue cluster open_now = (
    record { venue = codes "binance"; like_pattern = head ++ codes "-%"; exact = head },
    rw full refl,
    all_true _ _ _ _ (rw venue (text_eq_refl (codes "binance"))) selected open_now,
  )
    where
      selected : (like (head ++ codes "-%") p.asset ≡ true) ⊎ (text_eq p.asset head ≡ true)
      selected =
          elim (head_of p.asset head k (
            binance_cluster p.asset head stripped
              (subst (λ v. cluster_for v p.asset ≡ codes "crypto:" ++ head) venue cluster))) [
                | inl same ↦ inr (subst (λ a. text_eq a head ≡ true) (sym same) (text_eq_refl head))
                | inr (rest, parts) ↦ inl (
                    subst (λ a. like (head ++ codes "-%") a ≡ true) (sym parts)
                      (like-head head rest plain))
              ]

  -- A position whose cluster is of the kind poly and has a head that begins with another character
  -- than the asset, one that is not special in LIKE, is not selected by the filter of its own
  -- cluster: such as will-bitcoin-reach-82k, which is of the cluster of bitcoin.
  pub position-uncovered :
      (p : Position N) (c d : ℕ) (head rest : Text)
      → p.asset ≡ d ∷ rest
      → cluster_for p.venue p.asset ≡ codes "poly:" ++ c ∷ head
      → IsPlain c
      → c ≢ d
      → (filter : SqlFilter) × (cluster_sql_filter (cluster_for p.venue p.asset) ≡ some filter)
        × (in_cluster filter.venue filter.like_pattern filter.exact p ≡ false)
  unfolding in_cluster
  position-uncovered p c d head rest asset cluster plain apart = (
    record {
      venue = codes "polymarket";
      like_pattern = (c ∷ head) ++ codes "-%";
      exact = c ∷ head;
    },
    ap cluster_sql_filter cluster ∙ poly_filter c head,
    none_true _ _ _ _
        (subst (λ a. like ((c ∷ head) ++ codes "-%") a ≡ false) (sym asset)
          (like-apart c d (head ++ codes "-%") rest plain apart))
        (subst (λ a. text_eq a (c ∷ head) ≡ false) (sym asset) (text_eq-apart c d head rest apart)),
  )
