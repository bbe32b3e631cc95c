-- ===== src/Metrics/Labels.antt =====
-- The reader of a label's value in the text format of Prometheus, and what it reads of an escaped
-- name.
use oms_gateway.Prelude.{
  ℕ, ◌≡◌, refl, ap, ◌∙◌, Bool, true, false, ◌==◌, ==_iff, Option, none, some, [], ◌∷◌, ◌++◌,
  if◌then◌else◌, Bool-cases, inl, inr,
}
use mathlib.Core.List.{append_assoc}
use oms_gateway.Text.{Text}
use oms_gateway.Metrics.{backslash, quote, newline, replace_char, escape_label}

-- What a backslash and `c` stand for; no other escape is valid.
abbrev pub unescaped : ℕ → Option ℕ
unescaped c =
    if c == backslash
    then some backslash
    else if c == quote
    then some quote
    else if c == b'n'
    then some newline
    else none

abbrev pub prepend : ℕ → Option (Text × Text) → Option (Text × Text)
prepend c none = none
prepend c (some p) = some (c ∷ p.0, p.1)

abbrev pub prepend_escaped : Option ℕ → Option (Text × Text) → Option (Text × Text)
prepend_escaped none r = none
prepend_escaped (some c) r = prepend c r

-- The value up to the closing quote, and the rest; none where the text has a line feed, which a
-- value must escape, an unknown escape, or no closing quote. `after` says that a backslash came
-- before.
unfoldable pub read_label : Bool → Text → Option (Text × Text)
read_label after [] = none
read_label true (c ∷ t) = prepend_escaped (unescaped c) (read_label false t)
read_label false (c ∷ t) =
    let more = read_label false t in
    let escape = read_label true t in
    if c == quote
    then some ([], t)
    else if c == backslash
    then escape
    else if c == newline
    then none
    else prepend c more

-- What one character becomes.
abbrev escaped_char : ℕ → Text
escaped_char c =
    if c == backslash
    then backslash ∷ backslash ∷ []
    else if c == quote
    then backslash ∷ quote ∷ []
    else if c == newline
    then backslash ∷ b'n' ∷ []
    else c ∷ []

escape_label-cons : (c : ℕ) (s : Text) → escape_label (c ∷ s) ≡ escaped_char c ++ escape_label s
unfolding escape_label replace_char
escape_label-cons c s = elim (Bool-cases (c == backslash)) [
  | inl e ↦ rw ((==_iff c backslash).0 e) refl
  | inr b ↦ elim (Bool-cases (c == quote)) [
    | inl e ↦ rw ((==_iff c quote).0 e) refl
    | inr q ↦ elim (Bool-cases (c == newline)) [
      | inl e ↦ rw ((==_iff c newline).0 e) refl
      | inr n ↦ rw (b, q, n) refl
    ]
  ]
]

read_plain :
    (c : ℕ) (t : Text)
    → c == backslash ≡ false
    → c == quote ≡ false
    → c == newline ≡ false
    → read_label false (c ∷ t) ≡ prepend c (read_label false t)
unfolding read_label
read_plain c t b q n = rw (q, b, n) refl

read_escaped :
    (c : ℕ) (t : Text) → read_label false (escaped_char c ++ t) ≡ prepend c (read_label false t)
unfolding read_label
read_escaped c t = elim (Bool-cases (c == backslash)) [
  | inl e ↦ rw ((==_iff c backslash).0 e) refl
  | inr b ↦ elim (Bool-cases (c == quote)) [
    | inl e ↦ rw ((==_iff c quote).0 e) refl
    | inr q ↦ elim (Bool-cases (c == newline)) [
      | inl e ↦ rw ((==_iff c newline).0 e) refl
      | inr n ↦ rw (b, q, n) (read_plain c t b q n)
    ]
  ]
]

-- A reader of Prometheus labels that starts after the opening quote, and that refuses a raw line
-- feed and every escape but those of the backslash, the quote and the line feed, reads back the
-- escaped name, up to the closing quote, whatever characters the name has, and leaves what
-- follows.
pub read_label-escape_label :
    (value rest : Text) → read_label false (escape_label value ++ quote ∷ rest) ≡ some (value, rest)
unfolding read_label escape_label replace_char
read_label-escape_label [] rest = refl
read_label-escape_label (c ∷ s) rest =
    ap (λ x. read_label false (x ++ quote ∷ rest)) (escape_label-cons c s)
    ∙ ap (read_label false) (append_assoc (escaped_char c) (escape_label s) (quote ∷ rest))
    ∙ read_escaped c (escape_label s ++ quote ∷ rest)
    ∙ ap (prepend c) (read_label-escape_label s rest)
