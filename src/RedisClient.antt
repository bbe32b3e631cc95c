-- ===== src/RedisClient.antt =====
-- src/oms_gateway/redis_client.py: the shared client, which the first call of `r` makes. The state is
-- the global variable, beside the rest of the world.
use oms_gateway.Prelude.{◌≡◌, refl, ap, Option, none, some}
use oms_gateway.Prelude.Result.{Result, ok, err}
use mathlib.Core.Path.{subst}
use oms_gateway.Effect.{Action}
use oms_gateway.Effect.Ends.{Ends, EndsIn, Ends-run}
use oms_gateway.Text.{Text}
use oms_gateway.Settings.{Settings}

-- redis.asyncio, with a client of the type `C`.
pub record Aioredis (C S : Type 0) : Type 0 where
  pub from_url : Text → Action S C
  pub close : C → Action S (Unit {0})

-- The global: set by what is returned.
unfoldable pub assign : {C S : Type 0} → Result C × S → Result C × (Option C × S)
assign (ok c, st) = (ok c, (some c, st))
assign (err e, st) = (err e, (none, st))

-- Reset when the close returns.
unfoldable pub reset :
    {C S : Type 0} → C → Result (Unit {0}) × S → Result (Unit {0}) × (Option C × S)
reset c (ok tt, st) = (ok tt, (none, st))
reset c (err e, st) = (err e, (some c, st))

module _ {F C S : Type 0} (aioredis : Aioredis C S) (s : Settings F) where
  unfoldable pub r : Action (Option C × S) C
  unfolding assign
  r (none, st) = assign (aioredis.from_url s.redis_url st)
  r (some c, st) = (ok c, (some c, st))

  unfoldable pub close : Action (Option C × S) (Unit {0})
  unfolding reset
  close (none, st) = (ok tt, (none, st))
  close (some c, st) = reset c (aioredis.close c st)

  r-Ends : Ends (λ c g. r g ≡ (ok c, g)) r
  unfolding r
  r-Ends = record { at = λ g. kept g.0 g.1 }
    where
      assigned : (p : Result C × S) → EndsIn (λ c g. r g ≡ (ok c, g)) (assign p).0 (assign p).1
      assigned (ok c, st) = refl
      assigned (err e, st) = tt

      kept :
          (global : Option C) (st : S)
          → EndsIn (λ c g. r g ≡ (ok c, g)) (r (global, st)).0 (r (global, st)).1
      kept none st = assigned (aioredis.from_url s.redis_url st)
      kept (some c) st = refl

  close-Ends : Ends (λ u g. g.0 ≡ none) close
  unfolding close
  close-Ends = record { at = λ g. dropped g.0 g.1 }
    where
      was_reset :
          (c : C) (p : Result (Unit {0}) × S)
          → EndsIn (λ u g. g.0 ≡ none) (reset c p).0 (reset c p).1
      was_reset c (ok tt, st) = refl
      was_reset c (err e, st) = tt

      dropped :
          (global : Option C) (st : S)
          → EndsIn (λ u g. g.0 ≡ none) (close (global, st)).0 (close (global, st)).1
      dropped none st = refl
      dropped (some c) st = was_reset c (aioredis.close c st)

  assigned-made :
      (p : Result C × S) (c : C) (g : Option C × S) → assign p ≡ (ok c, g) → p ≡ (ok c, g.1)
  unfolding assign
  assigned-made (ok d, st) c g e = ap (λ (p : Result C × (Option C × S)). (p.0, p.1.1)) e
  assigned-made (err x, st) c g e =
      absurd (let clash : err x ≡ ok c = ap (λ (p : Result C × (Option C × S)). p.0) e in cc)

  -- After a close of the shared client that returns, the next use that returns makes a new client
  -- from the URL, and the use after it returns that client again and makes none.
  pub r-close :
      (g closed opened : Option C × S) (c : C)
      → close g ≡ (ok tt, closed)
      → r closed ≡ (ok c, opened)
      → (aioredis.from_url s.redis_url closed.1 ≡ (ok c, opened.1)) × (r opened ≡ (ok c, opened))
  unfolding r
  r-close g closed opened c closes opens = (
    assigned-made _ c opened (
        subst (λ global. r (global, closed.1) ≡ (ok c, opened))
          (Ends-run _ close-Ends g closed tt closes) opens),
    Ends-run _ r-Ends closed opened c opens,
  )
