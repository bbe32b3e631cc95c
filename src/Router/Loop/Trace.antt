-- ===== src/Router/Loop/Trace.antt =====
-- Which entries of a batch are acknowledged, as steps: an entry is done with when it is empty, is no
-- alpha, or its round returned.
use oms_gateway.Prelude.{
  ◌≡◌, refl, ap, ◌∙◌, Bool, true, false, List, [], ◌∷◌, ◌++◌, if◌then◌else◌, All,
}
use mathlib.Core.List.{append-nil, append_assoc}
use oms_gateway.Prelude.Result.{Result, ok, err, Error}
use oms_gateway.Effect.{pure, lift, ◌>>=◌}
use oms_gateway.Text.{Text, is_empty}
use oms_gateway.Float.{Float}
use oms_gateway.Settings.{Settings}
use oms_gateway.Database.Schema.{Numeric, ToFloat}
use oms_gateway.Router.Alpha.{Alpha}
use oms_gateway.Router.Gather.{Services}
use oms_gateway.Router.Round.{route_one}
use oms_gateway.Router.Loop.{
  Entry, Bus, first_raw, text_of, parse_alpha, route_entry, handle_parsed, handle_text,
  handle_entry, handle_entries, acknowledged_if,
}

module _ {N F S : Type 0} ⦃num : Numeric N⦄ ⦃cast : ToFloat N F⦄ ⦃f : Float F⦄
    (services : Services N F S) (bus : Bus F S) (s : Settings F) where
  open bus use {decode}

  abbrev pub Carries : Entry → Text → Type 0
  Carries e raw = text_of decode (first_raw e) ≡ ok raw

  -- An entry, the state before, whether it is acknowledged, and the state after.
  pub data Handled : Entry → S → Bool → S → Type 0 where
    is_blank : {e : Entry} {st : S} → Carries e [] → Handled e st true st
    is_bad :
        {e : Entry} {st : S} {raw : Text} {why : Error}
        → Carries e raw
        → parse_alpha services bus s raw ≡ err why
        → Handled e st true st
    is_routed :
        {e : Entry} {st st' : S} {raw : Text} {a : Alpha F}
        → Carries e raw
        → parse_alpha services bus s raw ≡ ok a
        → route_one services s a st ≡ (ok tt, st')
        → Handled e st true st'
    is_left :
        {e : Entry} {st st' : S} {raw : Text} {a : Alpha F} {why : Error}
        → Carries e raw
        → parse_alpha services bus s raw ≡ ok a
        → route_one services s a st ≡ (err why, st')
        → Handled e st false st'

  -- A batch, the state before, the ids to acknowledge, and the state after.
  pub data Batch : List Entry → S → List Text → S → Type 0 where
    finished : {st : S} → Batch [] st [] st
    acked :
        {e : Entry} {es : List Entry} {st st' st'' : S} {ids : List Text}
        → Handled e st true st'
        → Batch es st' ids st''
        → Batch (e ∷ es) st (e.id ∷ ids) st''
    left :
        {e : Entry} {es : List Entry} {st st' st'' : S} {ids : List Text}
        → Handled e st false st'
        → Batch es st' ids st''
        → Batch (e ∷ es) st ids st''

  abbrev pub IsDecoded : Entry → Type 0
  IsDecoded e = (raw : Text) × Carries e raw

  -- What handling an entry yields.
  abbrev IsHandled : Entry → List Text → S → Result (List Text) × S → Type 0
  IsHandled e acks st out =
      (b : Bool) × (st' : S) × (out ≡ (ok (if b then acks ++ e.id ∷ [] else acks), st'))
      × Handled e st b st'

  route_entry-IsHandled :
      (e : Entry) (raw : Text) (a : Alpha F) (acks : List Text) (st : S)
      → Carries e raw
      → parse_alpha services bus s raw ≡ ok a
      → IsHandled e acks st (route_entry services bus s a e.id acks st)
  unfolding route_entry
  route_entry-IsHandled e raw a acks st c p =
      settled (route_one services s a st).0 (route_one services s a st).1 refl
    where
      settled :
          (r : Result (Unit {0})) (st' : S)
          → route_one services s a st ≡ (r, st')
          → IsHandled e acks st (ok (acknowledged_if r acks e.id), st')
      settled (ok u) st' h = (true, st', refl, is_routed c p h)
      settled (err why) st' h = (false, st', refl, is_left c p h)

  handle_parsed-IsHandled :
      (e : Entry) (raw : Text) (r : Result (Alpha F)) (acks : List Text) (st : S)
      → Carries e raw
      → parse_alpha services bus s raw ≡ r
      → IsHandled e acks st (handle_parsed services bus s r e.id acks st)
  unfolding handle_parsed pure
  handle_parsed-IsHandled e raw (ok a) acks st c p = route_entry-IsHandled e raw a acks st c p
  handle_parsed-IsHandled e raw (err why) acks st c p = (true, st, refl, is_bad c p)

  handle_text-IsHandled :
      (e : Entry) (raw : Text) (acks : List Text) (st : S)
      → Carries e raw
      → IsHandled e acks st (handle_text services bus s raw e.id acks st)
  unfolding handle_text pure is_empty
  handle_text-IsHandled e [] acks st c = (true, st, refl, is_blank c)
  handle_text-IsHandled e (x ∷ xs) acks st c = handle_parsed-IsHandled e (x ∷ xs) _ acks st c refl

  handle_entry-IsHandled :
      (e : Entry) (acks : List Text) (st : S)
      → IsDecoded e
      → IsHandled e acks st (handle_entry services bus s e acks st)
  unfolding handle_entry lift ◌>>=◌
  handle_entry-IsHandled e acks st (raw, c) = rw (c, lift) (handle_text-IsHandled e raw acks st c)

  -- What handling a batch yields.
  abbrev pub IsBatch : List Entry → List Text → S → Result (List Text) × S → Type 0
  IsBatch es acks st out =
      (ids : List Text) × (st' : S) × (out ≡ (ok (acks ++ ids), st')) × Batch es st ids st'

  then_rest :
      (e : Entry) (es : List Entry) (acks : List Text) (st : S)
      → IsHandled e acks st (handle_entry services bus s e acks st)
      → ((more : List Text) (st' : S)
          → IsBatch es more st' (handle_entries services bus s es more st'))
      → IsBatch
          (e ∷ es)
          acks
          st
          ((handle_entry services bus s e acks >>= handle_entries services bus s es) st)
  unfolding ◌>>=◌
  then_rest e es acks st (true, st', out, handled) rest =
      let (ids, st'', later, batch) = rest (acks ++ e.id ∷ []) st' in
      (
        e.id ∷ ids,
        st'',
        rw out (later ∙ ap (λ x. (ok x, st'')) (append_assoc acks (e.id ∷ []) ids)),
        acked handled batch,
      )
  then_rest e es acks st (false, st', out, handled) rest =
      let (ids, st'', later, batch) = rest acks st' in (ids, st'', rw out later, left handled batch)

  -- When every entry of a batch decodes, handling the batch returns, and the ids that it adds to
  -- acknowledge are given by the steps of the batch: an entry is acknowledged when it is blank,
  -- when it is no alpha, or when its round returned, and it is left when its round raised; each
  -- step starts where the one before ended.
  pub handle_entries-Batch :
      (es : List Entry) (acks : List Text) (st : S)
      → All IsDecoded es
      → IsBatch es acks st (handle_entries services bus s es acks st)
  unfolding handle_entries pure
  handle_entries-Batch [] acks st h = ([], st, rw (append-nil acks) refl, finished)
  handle_entries-Batch (e ∷ es) acks st h =
      then_rest e es acks st (handle_entry-IsHandled e acks st h.0)
        (λ more st'. handle_entries-Batch es more st' h.1)
