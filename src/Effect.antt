-- ===== src/Effect.antt =====
-- Calls with effects: a coroutine that awaits Redis and Postgres acts on a state, and returns or
-- raises. What was written before a raise stays written.
pub mod Leads
pub mod Ends
use oms_gateway.Prelude.{Bool, if◌then◌else◌}
use oms_gateway.Prelude.Result.{Result, ok, err, Error}

abbrev pub Action : Type 0 → Type 0 → Type 0
Action S A = S → Result A × S

-- `except Exception: fallback`
abbrev pub recover : {A : Type 0} → A → Result A → A
recover fallback (ok a) = a
recover fallback (err e) = fallback

module _ {S A : Type 0} where
  unfoldable pub pure : A → Action S A
  pure a s = (ok a, s)

  unfoldable pub lift : Result A → Action S A
  lift r s = (r, s)

  unfoldable pub attempt : A → Action S A → Action S A
  attempt fallback m s = let (r, s') = m s in (ok (recover fallback r), s')

-- `finally`: what the last step raises takes the place of the result.
abbrev pub settle : {A : Type 0} → Result A → Result (Unit {0}) → Result A
settle r (ok tt) = r
settle r (err e) = err e

-- `try: m finally: c`
unfoldable pub ensure : {S A : Type 0} → Action S A → Action S (Unit {0}) → Action S A
ensure m c s = let (r, s') = m s in let (q, s'') = c s' in (settle r q, s'')

module _ {S A B : Type 0} where
  abbrev continue : Result A → (A → Action S B) → Action S B
  continue (ok a) k s = k a s
  continue (err e) k s = (err e, s)

  infixl 5 ◌>>=◌ ◌>>◌
  unfoldable pub ◌>>=◌ : Action S A → (A → Action S B) → Action S B
  unfolding pure lift
  ◌>>=◌ m k s = let (r, s') = m s in continue r k s'

  abbrev pub ◌>>◌ : Action S A → Action S B → Action S B
  m >> n = m >>= λ _. n
