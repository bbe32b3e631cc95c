-- ===== src/Text/Split.antt =====
-- `str.split` and `str.partition` at one character, and the comma-separated sets of the settings.
use oms_gateway.Prelude.{
  ℕ, ◌≡◌, ◌≢◌, refl, inl, inr, not, List, [], ◌∷◌, ◌++◌, map, Option, none, some, arith, ◌==◌,
  ==_iff, if◌then◌else◌, keep, All, Bool-cases,
}
use oms_gateway.Prelude.Result.{Result, ok, err, index_error}
use oms_gateway.Text.{Text, strip, is_empty, is_space}

abbrev cons_first : ℕ → List Text → List Text
cons_first c [] = (c ∷ []) ∷ []
cons_first c (t ∷ ts) = (c ∷ t) ∷ ts

-- `s.split(sep)`: never the empty list.
unfoldable pub split : ℕ → Text → List Text
split sep [] = [] ∷ []
split sep (c ∷ s) = if c == sep then [] ∷ split sep s else cons_first c (split sep s)

-- `s.split(sep, 1)` or `s.partition(sep)` where `sep in s`; `none` is `sep not in s`.
unfoldable pub partition : ℕ → Text → Option (Text × Text)
partition sep [] = none
partition sep (c ∷ s) =
    if c == sep
    then some ([], s)
    else elim (partition sep s) [ none ↦ none | some p ↦ some (c ∷ p.0, p.1) ]

-- `[s.strip() for s in csv.split(",") if s.strip()]`
unfoldable pub csv_items : Text → List Text
unfolding split
csv_items csv = keep (λ s. not (is_empty s)) (map strip (split b',' csv))

-- The text between the white space, the empty parts included.
unfoldable pub pieces : Text → List Text
unfolding is_space
pieces [] = [] ∷ []
pieces (c ∷ s) = if is_space c then [] ∷ pieces s else cons_first c (pieces s)

-- `s.split()`
unfoldable pub words : Text → List Text
unfolding pieces
words s = keep (λ t. not (is_empty t)) (pieces s)

-- `texts[-1]`
unfoldable pub last_text : List Text → Result Text
last_text [] = err index_error
last_text (t ∷ []) = ok t
last_text (t ∷ u ∷ ts) = last_text (u ∷ ts)

-- The character does not occur.
abbrev pub Free : ℕ → Text → Type 0
Free sep = All (λ c. c ≢ sep)

pub partition-join :
    (sep : ℕ) (k v : Text) → Free sep k → partition sep (k ++ sep ∷ v) ≡ some (k, v)
unfolding partition
partition-join sep [] v h = rw ((==_iff sep sep).1 refl)
partition-join sep (c ∷ k) v h = ground (arith, partition-join sep k v h.1)

pub partition-Free : (sep : ℕ) (k : Text) → Free sep k → partition sep k ≡ none
unfolding partition
partition-Free sep [] h = refl
partition-Free sep (c ∷ k) h = ground (arith, partition-Free sep k h.1)

pub split-Free : (sep : ℕ) (k : Text) → Free sep k → split sep k ≡ k ∷ []
unfolding split
split-Free sep [] h = refl
split-Free sep (c ∷ k) h = ground (arith, split-Free sep k h.1)

pub split-join : (sep : ℕ) (k s : Text) → Free sep k → split sep (k ++ sep ∷ s) ≡ k ∷ split sep s
unfolding split
split-join sep [] s h = rw ((==_iff sep sep).1 refl)
split-join sep (c ∷ k) s h = ground (arith, split-join sep k s h.1)

-- The parts of a split hold no separator.
pub split-All-Free : (sep : ℕ) (s : Text) → All (Free sep) (split sep s)
unfolding split
split-All-Free sep [] = (tt, tt)
split-All-Free sep (c ∷ s) = elim (Bool-cases (c == sep)) [
  | inl e ↦ rw e (tt, split-All-Free sep s)
  | inr e ↦ rw e (All-cons_first (split sep s) (λ p. ground arith) (split-All-Free sep s))
]
  where
    All-cons_first :
        (ts : List Text) → c ≢ sep → All (Free sep) ts → All (Free sep) (cons_first c ts)
    All-cons_first [] n h = ((n, tt), tt)
    All-cons_first (t ∷ ts) n h = ((n, h.0), h.1)
