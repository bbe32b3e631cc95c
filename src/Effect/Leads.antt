-- ===== src/Effect/Leads.antt =====
-- Triples of a precondition, an action and a postcondition, one rule for each way to build an
-- action. The postcondition holds whether the action returns or raises.
use oms_gateway.Prelude.{◌≡◌, refl, Bool, true, false, if◌then◌else◌}
use mathlib.Core.Path.{subst}
use oms_gateway.Prelude.Result.{Result, ok, err, Returns}
use oms_gateway.Effect.{Action, pure, lift, attempt, ◌>>=◌}

-- Nothing is known of the value.
abbrev pub Any : {A : Type 0} → A → Type 0
Any a = Unit

pub Returns-Any : {A : Type 0} (r : Result A) → Returns Any r
Returns-Any (ok a) = tt
Returns-Any (err e) = tt

pub Returns-of :
    {A : Type 0} (R : A → Type 0) (r : Result A) → ((a : A) → r ≡ ok a → R a) → Returns R r
Returns-of R (ok a) h = h a refl
Returns-of R (err e) h = tt

module _ {S A : Type 0} where
  -- From `P`, the action leads to `Q`.
  pub record Leads (P Q : S → Type 0) (m : Action S A) : Type 0 where
    pub at : (s : S) → P s → Q (m s).1

  -- The action keeps `P`, and what it returns satisfies `R`.
  pub record Yields (P : S → Type 0) (R : A → Type 0) (m : Action S A) : Type 0 where
    pub at : (s : S) → P s → P (m s).1 × Returns R (m s).0

module _ {S A : Type 0} {P Q : S → Type 0} (weaken : (s : S) → P s → Q s) where
  pub Leads-pure : (a : A) → Leads P Q (pure a)
  unfolding pure
  Leads-pure a = record { at = weaken }

  pub Leads-lift : (r : Result A) → Leads P Q (lift r)
  unfolding lift
  Leads-lift r = record { at = weaken }

  pub Leads-Yields : {R : A → Type 0} (m : Action S A) → Yields P R m → Leads P Q m
  Leads-Yields m k = record { at = λ s h. weaken _ (k.at s h).0 }

module _ {S A : Type 0} {P : S → Type 0} where
  pub Yields-pure : {R : A → Type 0} (a : A) → R a → Yields P R (pure a)
  unfolding pure
  Yields-pure a h = record { at = λ s p. (p, h) }

  pub Yields-lift : {R : A → Type 0} (r : Result A) → Returns R r → Yields P R (lift r)
  unfolding lift
  Yields-lift r h = record { at = λ s p. (p, h) }

  -- An action of which only the state is known.
  pub Yields-Any : (m : Action S A) → ((s : S) → P s → P (m s).1) → Yields P Any m
  Yields-Any m h = record { at = λ s p. (h s p, Returns-Any (m s).0) }

  -- The action may look at the state first.
  pub Yields-here :
      {R : A → Type 0} (m : S → Action S A) → ((s : S) → Yields P R (m s)) → Yields P R (λ s. m s s)
  Yields-here m h = record { at = λ s p. (h s).at s p }

  pub Yields-attempt :
      {R : A → Type 0} (a : A) (m : Action S A) → Yields P R m → Yields P Any (attempt a m)
  unfolding attempt
  Yields-attempt a m k = record { at = λ s p. ((k.at s p).0, tt) }

  pub Yields-if :
      {R : A → Type 0} (b : Bool) (m n : Action S A)
      → Yields P R m
      → Yields P R n
      → Yields P R (if b then m else n)
  Yields-if true m n km kn = km
  Yields-if false m n km kn = kn

module _ {S A : Type 0} {P : S → Type 0} {R : A → Type 0} where
  -- The value that is returned.
  pub Yields-value : (m : Action S A) → Yields P R m → (s : S) (a : A) → P s → (m s).0 ≡ ok a → R a
  Yields-value m k s a p e = subst (Returns R) e (k.at s p).1

module _ {S A : Type 0} {P Q : S → Type 0} where
  pub Leads-if :
      (b : Bool) (m n : Action S A) → Leads P Q m → Leads P Q n → Leads P Q (if b then m else n)
  Leads-if true m n km kn = km
  Leads-if false m n km kn = kn

  pub Leads-here : (m : S → Action S A) → ((s : S) → Leads P Q (m s)) → Leads P Q (λ s. m s s)
  Leads-here m h = record { at = λ s p. (h s).at s p }

module _ {S A B : Type 0} {P Q : S → Type 0} {R : A → Type 0} where
  pub Leads-bind :
      (m : Action S A) (k : A → Action S B)
      → Yields P R m
      → ((a : A) → R a → Leads P Q (k a))
      → ((s : S) → P s → Q s)
      → Leads P Q (m >>= k)
  unfolding ◌>>=◌
  Leads-bind m k km kk weaken = record {
    at = λ s h. let (h', r) = km.at s h in after (m s).0 (m s).1 h' r;
  }
    where
      after : (r : Result A) (s : S) → P s → Returns R r → Q (((λ _. (r, s)) >>= k) s).1
      after (ok a) s h r = (kk a r).at s h
      after (err e) s h r = weaken s h

module _ {S A B : Type 0} {P Q : S → Type 0} where
  -- The first action establishes what the rest keeps.
  pub Leads-then :
      (m : Action S A) (k : A → Action S B)
      → Leads P Q m
      → ((a : A) → Leads Q Q (k a))
      → Leads P Q (m >>= k)
  unfolding ◌>>=◌
  Leads-then m k km kk = record { at = λ s h. after (m s).0 (m s).1 (km.at s h) }
    where
      after : (r : Result A) (s : S) → Q s → Q (((λ _. (r, s)) >>= k) s).1
      after (ok a) s h = (kk a).at s h
      after (err e) s h = h

module _ {S A B : Type 0} {P : S → Type 0} {R : A → Type 0} {T : B → Type 0} where
  pub Yields-bind :
      (m : Action S A) (k : A → Action S B)
      → Yields P R m
      → ((a : A) → R a → Yields P T (k a))
      → Yields P T (m >>= k)
  unfolding ◌>>=◌
  Yields-bind m k km kk = record {
    at = λ s h. let (h', r) = km.at s h in after (m s).0 (m s).1 h' r;
  }
    where
      after :
          (r : Result A) (s : S)
          → P s
          → Returns R r
          → P (((λ _. (r, s)) >>= k) s).1 × Returns T (((λ _. (r, s)) >>= k) s).0
      after (ok a) s h r = (kk a r).at s h
      after (err e) s h r = (h, tt)

module _ {S A B : Type 0} (Q : S → Type 0) where
  -- From one state, with what the first action returns there.
  pub bind_from :
      (m : Action S A) (k : A → Action S B) (s : S)
      → Q (m s).1
      → ((a : A) → (m s).0 ≡ ok a → Q (k a (m s).1).1)
      → Q ((m >>= k) s).1
  unfolding ◌>>=◌
  bind_from m k s h hk = after (m s).0 (m s).1 h hk
    where
      after :
          (r : Result A) (s : S)
          → Q s
          → ((a : A) → r ≡ ok a → Q (k a s).1)
          → Q (((λ _. (r, s)) >>= k) s).1
      after (ok a) s h hk = hk a refl
      after (err e) s h hk = h

module _ {S A : Type 0} (Q : S → Type 0) where
  pub if_from :
      (b : Bool) (m n : Action S A) (s : S) → Q (m s).1 → Q (n s).1 → Q ((if b then m else n) s).1
  if_from true m n s hm hn = hm
  if_from false m n s hm hn = hn
