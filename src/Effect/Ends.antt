-- ===== src/Effect/Ends.antt =====
-- What holds when an action returns: of its value and of the state that it leaves. A raise ends
-- nothing.
use oms_gateway.Prelude.{◌≡◌, refl}
use mathlib.Core.Path.{subst}
use oms_gateway.Prelude.Result.{Result, Error, ok, err}
use oms_gateway.Effect.{Action, pure, ensure, settle, ◌>>=◌}
use oms_gateway.Effect.Leads.{Yields}

-- `Q` of a value and a state.
abbrev pub EndsIn : {S A : Type 0} → (A → S → Type 0) → Result A → S → Type 0
EndsIn Q (ok a) s = Q a s
EndsIn Q (err e) s = Unit

-- From any state.
pub record Ends {S A : Type 0} (Q : A → S → Type 0) (m : Action S A) : Type 0 where
  pub at : (s : S) → EndsIn Q (m s).0 (m s).1

module _ {S A : Type 0} {Q : A → S → Type 0} where
  pub Ends-pure : (a : A) → ((s : S) → Q a s) → Ends Q (pure a)
  unfolding pure
  Ends-pure a h = record { at = λ s. h s }

  pub Ends-here : (m : S → Action S A) → ((s : S) → Ends Q (m s)) → Ends Q (λ s. m s s)
  Ends-here m h = record { at = λ s. (h s).at s }

  pub Ends-of : (m : Action S A) → ((s : S) (a : A) → (m s).0 ≡ ok a → Q a (m s).1) → Ends Q m
  Ends-of m h = record { at = λ s. settled (m s).0 (m s).1 (h s) }
    where
      settled : (r : Result A) (s : S) → ((a : A) → r ≡ ok a → Q a s) → EndsIn Q r s
      settled (ok a) s h = h a refl
      settled (err e) s h = tt

  -- The state when the action returns
  pub Ends-run : (m : Action S A) → Ends Q m → (s s' : S) (a : A) → m s ≡ (ok a, s') → Q a s'
  Ends-run m h s s' a e = subst (λ (p : Result A × S). EndsIn Q p.0 p.1) e (h.at s)

module _ {S A : Type 0} {P Q : A → S → Type 0} (weaken : (a : A) (s : S) → P a s → Q a s) where
  pub Ends-weaken : (m : Action S A) → Ends P m → Ends Q m
  Ends-weaken m h = record { at = λ s. weakened (m s).0 (m s).1 (h.at s) }
    where
      weakened : (r : Result A) (s : S) → EndsIn P r s → EndsIn Q r s
      weakened (ok a) s h = weaken a s h
      weakened (err e) s h = tt

module _ {S A B : Type 0} {Q : B → S → Type 0} where
  -- Nothing of the first action is used.
  pub Ends-after :
      (m : Action S A) (k : A → Action S B) → ((a : A) → Ends Q (k a)) → Ends Q (m >>= k)
  unfolding ◌>>=◌
  Ends-after m k h = record { at = λ s. after (m s).0 (m s).1 }
    where
      after :
          (r : Result A) (s : S) → EndsIn Q (((λ _. (r, s)) >>= k) s).0 (((λ _. (r, s)) >>= k) s).1
      after (ok a) s = (h a).at s
      after (err e) s = tt

module _ {S A B : Type 0} {P : A → S → Type 0} {Q : B → S → Type 0} where
  -- The rest starts where the first action ends.
  pub Ends-bind :
      (m : Action S A) (k : A → Action S B)
      → Ends P m
      → ((a : A) (s : S) → P a s → EndsIn Q (k a s).0 (k a s).1)
      → Ends Q (m >>= k)
  unfolding ◌>>=◌
  Ends-bind m k hm hk = record { at = λ s. after (m s).0 (m s).1 (hm.at s) }
    where
      after :
          (r : Result A) (s : S)
          → EndsIn P r s
          → EndsIn Q (((λ _. (r, s)) >>= k) s).0 (((λ _. (r, s)) >>= k) s).1
      after (ok a) s h = hk a s h
      after (err e) s h = tt

module _ {S A : Type 0} {P : S → Type 0} {R : A → Type 0} where
  -- What an action keeps, it ends with.
  pub EndsIn-Yields :
      (m : Action S A) → Yields P R m → (s : S) → P s → EndsIn (λ _ st. P st) (m s).0 (m s).1
  EndsIn-Yields m k s h = kept (m s).0 (m s).1 (k.at s h).0
    where
      kept : (r : Result A) (st : S) → P st → EndsIn (λ _ st. P st) r st
      kept (ok a) st h = h
      kept (err e) st h = tt

module _ {S A B : Type 0} (Q : B → S → Type 0) where
  -- From one state, with what the first action returns there.
  pub ends_from :
      (m : Action S A) (k : A → Action S B) (s : S)
      → ((a : A) → (m s).0 ≡ ok a → EndsIn Q (k a (m s).1).0 (k a (m s).1).1)
      → EndsIn Q ((m >>= k) s).0 ((m >>= k) s).1
  unfolding ◌>>=◌
  ends_from m k s hk = after (m s).0 (m s).1 hk
    where
      after :
          (r : Result A) (s : S)
          → ((a : A) → r ≡ ok a → EndsIn Q (k a s).0 (k a s).1)
          → EndsIn Q (((λ _. (r, s)) >>= k) s).0 (((λ _. (r, s)) >>= k) s).1
      after (ok a) s hk = hk a refl
      after (err e) s hk = tt

pub ends_in :
    {S B : Type 0} (Q : B → S → Type 0) (s' : S) (b : B) (out : Result B × S)
    → out ≡ (ok b, s')
    → EndsIn Q out.0 out.1
    → Q b s'
ends_in {S} {B} Q s' b out e h = subst (λ (p : Result B × S). EndsIn Q p.0 p.1) e h

module _ {S A B : Type 0} (X : Result B → S → Type 0) where
  -- From one state, whether the first action returns or raises.
  pub result_from :
      (m : Action S A) (k : A → Action S B) (s : S)
      → ((a : A) → (m s).0 ≡ ok a → X (k a (m s).1).0 (k a (m s).1).1)
      → ((e : Error) → (m s).0 ≡ err e → X (err e) (m s).1)
      → X ((m >>= k) s).0 ((m >>= k) s).1
  unfolding ◌>>=◌
  result_from m k s hk he = after (m s).0 (m s).1 hk he
    where
      after :
          (r : Result A) (s : S)
          → ((a : A) → r ≡ ok a → X (k a s).0 (k a s).1)
          → ((e : Error) → r ≡ err e → X (err e) s)
          → X (((λ _. (r, s)) >>= k) s).0 (((λ _. (r, s)) >>= k) s).1
      after (ok a) s hk he = hk a refl
      after (err e) s hk he = he e refl

module _ {S A : Type 0} (X : Result A → S → Type 0) where
  -- With a last step that is always taken.
  pub ensure_from :
      (m : Action S A) (c : Action S (Unit {0})) (s : S)
      → ((q : Result (Unit {0})) → X (settle (m s).0 q) (c (m s).1).1)
      → X (ensure m c s).0 (ensure m c s).1
  unfolding ensure
  ensure_from m c s h = h (c (m s).1).0
