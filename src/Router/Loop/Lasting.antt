-- ===== src/Router/Loop/Lasting.antt =====
-- What lasts over the turns of the loop, whatever Redis and Postgres raise.
use oms_gateway.Prelude.{ℕ, zero, suc, ◌≡◌, refl, sym, ap, List, [], ◌∷◌, ◌++◌, All}
use mathlib.Core.Path.{subst}
use oms_gateway.Prelude.Result.{Result, ok, err, Returns}
use oms_gateway.Effect.{Action, recover, pure, attempt, ◌>>=◌}
use oms_gateway.Effect.Leads.{
  Yields, Any, Yields-pure, Yields-lift, Yields-Any, Yields-bind, Yields-attempt, Yields-if,
  Returns-Any,
}
use oms_gateway.Text.{Text}
use oms_gateway.Float.{Float}
use oms_gateway.Settings.{Settings}
use oms_gateway.Database.Schema.{Numeric, ToFloat, Intent, Tables}
use oms_gateway.Database.Isolation.{IsTransactional}
use oms_gateway.Database.Unique.{HasUniqueKeys}
use oms_gateway.Router.Alpha.{Alpha}
use oms_gateway.Router.Gather.{Services}
use oms_gateway.Router.Separate.{IsSeparate}
use oms_gateway.Router.Round.{route_one}
use oms_gateway.Router.Once.{route_one-HasUniqueKeys}
use oms_gateway.Router.Loop.{
  Entry, Bus, ensure_consumer_group, parse_alpha, route_entry, handle_parsed, handle_text,
  handle_entry, handle_entries, acknowledge, handle_streams, poll, polls, loop,
}
use oms_gateway.Router.Loop.Trace.{IsDecoded, handle_entries-Batch}

-- The bus does not touch the tables.
pub record IsBusSeparate {N F S : Type 0} (bus : Bus F S) (tables : S → Tables N F) : Type 0 where
  pub xgroup_create_keeps : (st : S) → tables (bus.xgroup_create st).1 ≡ tables st
  pub xreadgroup_keeps : (st : S) → tables (bus.xreadgroup st).1 ≡ tables st
  pub xack_keeps : (ids : List Text) (st : S) → tables (bus.xack ids st).1 ≡ tables st

module _ {N F S : Type 0} ⦃num : Numeric N⦄ ⦃cast : ToFloat N F⦄ ⦃f : Float F⦄
    (services : Services N F S) (bus : Bus F S) (s : Settings F) where
  -- What every round keeps of the intents, the loop keeps.
  module _ (tables : S → Tables N F) (bus_separate : IsBusSeparate bus tables)
      (P : List (Intent F) → Type 0)
      (round : (a : Alpha F) (st : S)
        → P (tables st).oms_intents
        → P (tables (route_one services s a st).1).oms_intents) where
    open bus_separate use {xgroup_create_keeps, xreadgroup_keeps, xack_keeps}

    abbrev Kept : S → Type 0
    Kept st = P (tables st).oms_intents

    moved : (st st' : S) → tables st' ≡ tables st → Kept st → Kept st'
    moved st st' e h = subst (λ t. P t.oms_intents) (sym e) h

    route_entry-Yields :
        (a : Alpha F) (id : Text) (acks : List Text)
        → Yields Kept Any (route_entry services bus s a id acks)
    unfolding route_entry
    route_entry-Yields a id acks = record { at = λ st h. (round a st h, tt) }

    handle_parsed-Yields :
        (r : Result (Alpha F)) (id : Text) (acks : List Text)
        → Yields Kept Any (handle_parsed services bus s r id acks)
    unfolding handle_parsed
    handle_parsed-Yields (ok a) id acks = route_entry-Yields a id acks
    handle_parsed-Yields (err e) id acks = Yields-pure _ tt

    handle_entry-Yields :
        (e : Entry) (acks : List Text) → Yields Kept Any (handle_entry services bus s e acks)
    unfolding handle_entry handle_text
    handle_entry-Yields e acks = Yields-bind _ _ (Yields-lift {R = Any} _ (Returns-Any _)) (λ raw _.
        Yields-if _ _ _ (Yields-pure _ tt)
          (handle_parsed-Yields (parse_alpha services bus s raw) e.id acks))

    handle_entries-Yields :
        (es : List Entry) (acks : List Text)
        → Yields Kept Any (handle_entries services bus s es acks)
    unfolding handle_entries
    handle_entries-Yields [] acks = Yields-pure _ tt
    handle_entries-Yields (e ∷ es) acks =
        Yields-bind _ _ (handle_entry-Yields e acks) (λ ids _. handle_entries-Yields es ids)

    acknowledge-Yields : (ids : List Text) → Yields Kept Any (acknowledge services bus s ids)
    unfolding acknowledge
    acknowledge-Yields [] = Yields-pure _ tt
    acknowledge-Yields (id ∷ ids) =
        Yields-attempt tt _ (Yields-Any _ (λ st. moved st _ (xack_keeps (id ∷ ids) st)))

    handle_streams-Yields :
        (streams : List (List Entry)) → Yields Kept Any (handle_streams services bus s streams)
    unfolding handle_streams
    handle_streams-Yields [] = Yields-pure _ tt
    handle_streams-Yields (es ∷ rest) =
        Yields-bind _ _
          (Yields-bind _ _ (handle_entries-Yields es []) (λ ids _. acknowledge-Yields ids))
          (λ u _. handle_streams-Yields rest)

    poll-Yields : Yields Kept Any (poll services bus s)
    unfolding poll
    poll-Yields =
        Yields-bind _ _
          (Yields-attempt [] _ (Yields-Any _ (λ st. moved st _ (xreadgroup_keeps st))))
          (λ streams _. handle_streams-Yields streams)

    polls-Yields : (n : ℕ) → Yields Kept Any (polls services bus s n)
    unfolding polls
    polls-Yields zero = Yields-pure _ tt
    polls-Yields (suc n) = Yields-bind _ _ poll-Yields (λ u _. polls-Yields n)

    loop-Yields : (n : ℕ) → Yields Kept Any (loop services bus s n)
    unfolding loop ensure_consumer_group
    loop-Yields n =
        Yields-bind _ _ (Yields-Any _ (λ st. moved st _ (xgroup_create_keeps st)))
          (λ u _. polls-Yields n)

    pub loop_keeps :
        (n : ℕ) (st : S)
        → P (tables st).oms_intents
        → P (tables (loop services bus s n st).1).oms_intents
    loop_keeps n st h = ((loop-Yields n).at st h).0

  module _ (tables : S → Tables N F) (laws : IsTransactional services.backend.pool tables)
      (separate : IsSeparate services tables) (bus_separate : IsBusSeparate bus tables) where
    -- When the pool runs a statement as a whole and neither Redis nor the bus touches the tables,
    -- any number of turns of the loop, whatever is read, redelivered or raised, keeps the pairs of
    -- strategy and key of the intents unique.
    pub loop-HasUniqueKeys :
        (n : ℕ) (st : S)
        → HasUniqueKeys (tables st).oms_intents
        → HasUniqueKeys (tables (loop services bus s n st).1).oms_intents
    loop-HasUniqueKeys n st h =
        loop_keeps tables bus_separate HasUniqueKeys
          (route_one-HasUniqueKeys services s tables laws separate) n st h

  abbrev IsTotal : {A : Type 0} → Action S A → Type 0
  IsTotal {A} m = (st : S) → (a : A) × ((m st).0 ≡ ok a)

  bind-IsTotal :
      {A B : Type 0} (m : Action S A) (k : A → Action S B) (st : S) (a : A)
      → (m st).0 ≡ ok a
      → IsTotal (k a)
      → (b : B) × (((m >>= k) st).0 ≡ ok b)
  unfolding ◌>>=◌
  bind-IsTotal m k st a e h = rw e (h (m st).1)

  acknowledge-IsTotal : (ids : List Text) → IsTotal (acknowledge services bus s ids)
  unfolding acknowledge pure attempt
  acknowledge-IsTotal [] st = (tt, refl)
  acknowledge-IsTotal (id ∷ ids) st = (tt, refl)

  module _
      (decoded : (st : S)
        → Returns (All (All (IsDecoded services bus s))) (bus.xreadgroup st).0) where
    handle_entries-IsTotal :
        (es : List Entry) (acks : List Text)
        → All (IsDecoded services bus s) es
        → IsTotal (handle_entries services bus s es acks)
    handle_entries-IsTotal es acks h st =
        let (ids, st', out, batch) = handle_entries-Batch services bus s es acks st h in
        (acks ++ ids, ap (λ (p : Result (List Text) × S). p.0) out)

    handle_streams-IsTotal :
        (streams : List (List Entry))
        → All (All (IsDecoded services bus s)) streams
        → IsTotal (handle_streams services bus s streams)
    unfolding handle_streams pure
    handle_streams-IsTotal [] h st = (tt, refl)
    handle_streams-IsTotal (es ∷ rest) h st =
        let (ids, e) = handle_entries-IsTotal es [] h.0 st in
        let (u, e') = bind-IsTotal _ _ st ids e (acknowledge-IsTotal ids) in
        bind-IsTotal _ _ st u e' (handle_streams-IsTotal rest h.1)

    recovered :
        (r : Result (List (List Entry)))
        → Returns (All (All (IsDecoded services bus s))) r
        → All (All (IsDecoded services bus s)) (recover [] r)
    recovered (ok streams) h = h
    recovered (err e) h = tt

    poll-IsTotal : IsTotal (poll services bus s)
    unfolding poll attempt
    poll-IsTotal st =
        bind-IsTotal _ (handle_streams services bus s) st (recover [] (bus.xreadgroup st).0) refl
          (handle_streams-IsTotal (recover [] (bus.xreadgroup st).0) (recovered _ (decoded st)))

    polls-IsTotal : (n : ℕ) → IsTotal (polls services bus s n)
    unfolding polls pure
    polls-IsTotal zero st = (tt, refl)
    polls-IsTotal (suc n) st = bind-IsTotal _ _ st tt (poll-IsTotal st).1 (polls-IsTotal n)

    -- When every entry that a read returns decodes, any number of turns of the loop returns,
    -- whatever the rounds, the reads and the acknowledgements raise.
    pub polls-return : (n : ℕ) (st : S) → (polls services bus s n st).0 ≡ ok tt
    polls-return n st = (polls-IsTotal n st).1
