-- ===== src/Metrics/Lines.antt =====
-- The lines of the text: no name of a bucket or a cluster breaks one or adds one.
use oms_gateway.Prelude.{
  ℕ, ◌≡◌, ◌≢◌, refl, ap, ◌∙◌, Bool, true, false, not, ◌&&◌, ◌==◌, List, [], ◌∷◌, ◌++◌, arith, All,
  All-append, Bool-cases, inl, inr,
}
use mathlib.Core.List.{append_assoc}
use oms_gateway.Text.{Text, codes}
use oms_gateway.Text.Split.{split, split-join, Free}
use oms_gateway.Float.{Float, zero_float}
use oms_gateway.Dict.{lookup_or}
use oms_gateway.Settings.{Settings}
use oms_gateway.Metrics.{
  backslash, quote, newline, replace_char, escape_label, join_lines, sample, series, Exposures,
  cap_per_bucket, gauge, bucket_open_lines, bucket_cap_lines, bucket_utilization_lines,
  cluster_open_lines, cluster_cap_lines, cluster_utilization_lines, cluster_cap, utilization,
  metric_lines, render_metrics,
}

-- The check of `Free`, for the texts of the source.
unfoldable is_free : ℕ → Text → Bool
is_free c [] = true
is_free c (d ∷ s) = not (d == c) && is_free c s

is_free-Free : (c : ℕ) (s : Text) → is_free c s ≡ true → Free c s
unfolding is_free
is_free-Free c [] h = tt
is_free-Free c (d ∷ s) h = (ground arith, is_free-Free c s (ground arith))

abbrev NoBreak : ℕ → Type 0
NoBreak c = c ≢ newline

replace_char-Free : (c : ℕ) (word s : Text) → Free c word → Free c (replace_char c word s)
unfolding replace_char
replace_char-Free c word [] h = tt
replace_char-Free c word (d ∷ s) h = elim (Bool-cases (d == c)) [
  | inl e ↦
      rw e (All-append (λ x. x ≢ c) word (replace_char c word s) h (replace_char-Free c word s h))
  | inr e ↦ rw e (ground arith, replace_char-Free c word s h)
]

escape_label-Free : (value : Text) → Free newline (escape_label value)
unfolding escape_label is_free
escape_label-Free value =
    replace_char-Free newline (backslash ∷ b'n' ∷ [])
      (replace_char quote (backslash ∷ quote ∷ [])
        (replace_char backslash (backslash ∷ backslash ∷ []) value))
      (is_free-Free newline (backslash ∷ b'n' ∷ []) refl)

split_lines :
    (lines : List Text) (line : Text)
    → All (Free newline) (line ∷ lines)
    → split newline (join_lines (line ∷ lines) ++ newline ∷ []) ≡ (line ∷ lines) ++ [] ∷ []
unfolding join_lines split
split_lines [] line h = split-join newline line [] h.0
split_lines (next ∷ rest) line h =
    ap (split newline) (append_assoc line (newline ∷ join_lines (next ∷ rest)) (newline ∷ []))
    ∙ split-join newline line (join_lines (next ∷ rest) ++ newline ∷ []) h.0
    ∙ ap (λ ls. line ∷ ls) (split_lines rest next h.1)

-- A text without a line break, and a list of such texts.
record IsPlain (t : Text) : Type 0 where
  free : Free newline t

record ArePlain (ts : List Text) : Type 0 where
  all : All (Free newline) ts

literal : (t : Text) → is_free newline t ≡ true → IsPlain t
literal t h = record { free = is_free-Free newline t h }

IsPlain-cons : (c : ℕ) (t : Text) → c == newline ≡ false → IsPlain t → IsPlain (c ∷ t)
IsPlain-cons c t h p = record { free = (ground arith, p.free) }

IsPlain-append : (s t : Text) → IsPlain s → IsPlain t → IsPlain (s ++ t)
IsPlain-append s t p q = record { free = All-append NoBreak s t p.free q.free }

nothing : ArePlain []
nothing = record { all = tt }

line_then : {t : Text} {ts : List Text} → IsPlain t → ArePlain ts → ArePlain (t ∷ ts)
line_then p ps = record { all = (p.free, ps.all) }

lines_then : (ts us : List Text) → ArePlain ts → ArePlain us → ArePlain (ts ++ us)
lines_then ts us p q = record { all = All-append (Free newline) ts us p.all q.all }

sample-IsPlain :
    (name key label value : Text)
    → IsPlain name
    → IsPlain key
    → IsPlain value
    → IsPlain (sample name key label value)
unfolding sample
sample-IsPlain name key label value hn hk hv = IsPlain-append name _ hn (
    IsPlain-cons b'{' _ refl (
      IsPlain-append key _ hk (
        IsPlain-cons b'=' _ refl (
          IsPlain-cons quote _ refl (
            IsPlain-append (escape_label label) _ (record { free = escape_label-Free label })
              (IsPlain-cons quote _ refl
                (IsPlain-cons b'}' _ refl (IsPlain-cons b' ' _ refl hv))))))))

series-ArePlain :
    (name key : Text) (value : Text → Text) (labels : List Text)
    → IsPlain name
    → IsPlain key
    → ((label : Text) → IsPlain (value label))
    → ArePlain (series name key value labels)
unfolding series
series-ArePlain name key value [] hn hk hv = nothing
series-ArePlain name key value (label ∷ labels) hn hk hv =
    line_then (sample-IsPlain name key label (value label) hn hk (hv label))
      (series-ArePlain name key value labels hn hk hv)

split_plain :
    (ls rest : List Text) (line : Text)
    → ls ≡ line ∷ rest
    → ArePlain ls
    → split newline (join_lines ls ++ newline ∷ []) ≡ ls ++ [] ∷ []
split_plain [] rest line e p = absurd cc
split_plain (x ∷ xs) rest line e p = split_lines xs x p.all

gauge-ArePlain :
    (help kind name key : Text) (value : Text → Text) (labels : List Text)
    → is_free newline help ≡ true
    → is_free newline kind ≡ true
    → is_free newline name ≡ true
    → is_free newline key ≡ true
    → ((label : Text) → IsPlain (value label))
    → ArePlain (gauge help kind name key value labels)
unfolding gauge
gauge-ArePlain help kind name key value labels hh hk hn hy hv = line_then (literal help hh) (
    line_then (literal kind hk)
      (series-ArePlain name key value labels (literal name hn) (literal key hy) hv))

module _ {F : Type 0} ⦃f : Float F⦄ (fixed2 fixed4 : F → Text) (s : Settings F)
    (plain2 : (x : F) → Free newline (fixed2 x)) (plain4 : (x : F) → Free newline (fixed4 x)) where
  shown2 : (x : F) → IsPlain (fixed2 x)
  shown2 x = record { free = plain2 x }

  shown4 : (x : F) → IsPlain (fixed4 x)
  shown4 x = record { free = plain4 x }

  cluster_cap_lines-ArePlain : ArePlain (cluster_cap_lines fixed2 fixed4 s)
  unfolding cluster_cap_lines codes is_free
  cluster_cap_lines-ArePlain = line_then (literal _ refl) (
      line_then (literal _ refl) (
        line_then
          (IsPlain-append (codes "oms_cluster_exposure_cap_usd ") _ (literal _ refl)
            (shown2 (cluster_cap s)))
          nothing))

  bucket_open_lines-ArePlain :
      (buckets : List (Text × F)) → ArePlain (bucket_open_lines fixed2 fixed4 s buckets)
  unfolding bucket_open_lines codes is_free
  bucket_open_lines-ArePlain buckets =
      gauge-ArePlain _ _ (codes "oms_bucket_open_exposure_usd") (codes "bucket") _ _ refl refl refl
        refl (λ label. shown2 (lookup_or label zero_float buckets))

  bucket_cap_lines-ArePlain :
      (caps : List (Text × F)) → ArePlain (bucket_cap_lines fixed2 fixed4 s caps)
  unfolding bucket_cap_lines codes is_free
  bucket_cap_lines-ArePlain caps =
      gauge-ArePlain _ _ (codes "oms_bucket_exposure_cap_usd") (codes "bucket") _ _ refl refl refl
        refl (λ label. shown2 (lookup_or label zero_float caps))

  bucket_utilization_lines-ArePlain :
      (buckets caps : List (Text × F))
      → ArePlain (bucket_utilization_lines fixed2 fixed4 s buckets caps)
  unfolding bucket_utilization_lines codes is_free
  bucket_utilization_lines-ArePlain buckets caps =
      gauge-ArePlain _ _ (codes "oms_bucket_exposure_utilization") (codes "bucket") _ _ refl refl
        refl refl
        (λ label.
          shown4
            (utilization (lookup_or label zero_float buckets) (lookup_or label zero_float caps)))

  cluster_open_lines-ArePlain :
      (clusters : List (Text × F)) → ArePlain (cluster_open_lines fixed2 fixed4 s clusters)
  unfolding cluster_open_lines codes is_free
  cluster_open_lines-ArePlain clusters =
      gauge-ArePlain _ _ (codes "oms_cluster_open_exposure_usd") (codes "cluster") _ _ refl refl
        refl refl (λ label. shown2 (lookup_or label zero_float clusters))

  cluster_utilization_lines-ArePlain :
      (clusters : List (Text × F)) → ArePlain (cluster_utilization_lines fixed2 fixed4 s clusters)
  unfolding cluster_utilization_lines codes is_free
  cluster_utilization_lines-ArePlain clusters =
      gauge-ArePlain _ _ (codes "oms_cluster_exposure_utilization") (codes "cluster") _ _ refl refl
        refl refl
        (λ label. shown4 (utilization (lookup_or label zero_float clusters) (cluster_cap s)))

  -- When the formats of numbers have no line break, the text splits at its line breaks into the
  -- lines that were rendered and an empty rest, whatever the names of buckets and clusters are.
  pub split-render_metrics :
      (snap : Exposures F)
      → split newline (render_metrics fixed2 fixed4 s snap)
        ≡ metric_lines fixed2 fixed4 s snap ++ [] ∷ []
  unfolding render_metrics metric_lines bucket_open_lines gauge
  split-render_metrics snap =
      let caps = cap_per_bucket s s.bucket_total_exposure_pct_cap in
      split_plain (metric_lines fixed2 fixed4 s snap) _ _ refl (
        lines_then _ _ (bucket_open_lines-ArePlain snap.by_bucket) (
          lines_then _ _ (bucket_cap_lines-ArePlain caps) (
            lines_then _ _ (bucket_utilization_lines-ArePlain snap.by_bucket caps) (
              lines_then _ _ (cluster_open_lines-ArePlain snap.by_cluster) (
                lines_then _ _ cluster_cap_lines-ArePlain
                  (cluster_utilization_lines-ArePlain snap.by_cluster))))))
