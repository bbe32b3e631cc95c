-- ===== src/Dict.antt =====
-- Python's dict with text keys, as an association list in the order of insertion.
use mathlib.Core.Path.{subst}
use oms_gateway.Prelude.{
  All, Bool-cases, inl, inr, ◌≡◌, ap, ◌∙◌, refl, Option, none, some, List, [], ◌∷◌, if◌then◌else◌,
  arith,
}
use oms_gateway.Text.{Text, text_eq, text_eq_iff}

module _ {A : Type 0} where
  -- `items.get(key)` on a dictionary with text keys
  unfoldable pub lookup : Text → List (Text × A) → Option A
  lookup k [] = none
  lookup k ((j, v) ∷ m) = if text_eq j k then some v else lookup k m

  -- `items.get(key, default)`
  unfoldable pub lookup_or : Text → A → List (Text × A) → A
  unfolding lookup
  lookup_or k d m = elim (lookup k m) [ none ↦ d | some v ↦ v ]

  -- `items[key] = v`
  unfoldable pub insert : Text → A → List (Text × A) → List (Text × A)
  insert k v [] = (k, v) ∷ []
  insert k v ((j, w) ∷ m) = if text_eq j k then (j, v) ∷ m else (j, w) ∷ insert k v m

  -- A loop's `continue`, or the assignment of the parsed entry.
  unfoldable pub add_entry : List (Text × A) → Option (Text × A) → List (Text × A)
  unfolding insert
  add_entry m none = m
  add_entry m (some p) = insert p.0 p.1 m

  pub lookup-insert :
      (k j : Text) (v : A) (m : List (Text × A))
      → lookup j (insert k v m) ≡ (if text_eq k j then some v else lookup j m)
  unfolding lookup insert
  lookup-insert k j v [] = refl
  lookup-insert k j v ((i, w) ∷ m) =
      ground (arith, text_eq_iff k j, text_eq_iff i k, text_eq_iff i j, lookup-insert k j v m)

  pub lookup_or-insert :
      (key k : Text) (v d : A) (m : List (Text × A))
      → lookup_or k d (insert key v m) ≡ (if text_eq key k then v else lookup_or k d m)
  unfolding lookup_or
  lookup_or-insert key k v d m =
      ap (λ (o : Option A). elim o as (λ _. A) [ none ↦ d | some w ↦ w ]) (lookup-insert key k v m)
      ∙ ground arith

  -- A property of all values of the dictionary.
  abbrev pub Values : (A → Type 0) → List (Text × A) → Type 0
  Values P = All λ p. P p.1

  pub Values-insert :
      (P : A → Type 0) (k : Text) (v : A) (m : List (Text × A))
      → P v
      → Values P m
      → Values P (insert k v m)
  unfolding insert
  Values-insert P k v [] h hs = (h, tt)
  Values-insert P k v ((j, w) ∷ m) h hs = elim (Bool-cases (text_eq j k)) [
    | inl e ↦ rw e (h, hs.1)
    | inr e ↦ rw e (hs.0, Values-insert P k v m h hs.1)
  ]

  pub Values-add_entry :
      (P : A → Type 0) (m : List (Text × A)) (parsed : Option (Text × A))
      → ((p : Text × A) → parsed ≡ some p → P p.1)
      → Values P m
      → Values P (add_entry m parsed)
  unfolding add_entry
  Values-add_entry P m none h hs = hs
  Values-add_entry P m (some p) h hs = Values-insert P p.0 p.1 m (h p refl) hs

  pub Values-lookup :
      (P : A → Type 0) (k : Text) (v : A) (m : List (Text × A))
      → Values P m
      → lookup k m ≡ some v
      → P v
  unfolding lookup
  Values-lookup P k v [] hs e = cc
  Values-lookup P k v ((j, w) ∷ m) hs e = elim (Bool-cases (text_eq j k)) [
    | inl s ↦ subst P (ground arith) hs.0
    | inr s ↦ Values-lookup P k v m hs.1 (ground arith)
  ]
