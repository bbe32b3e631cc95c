-- ===== src/Router/Loop.antt =====
-- The loop of the router: it reads a batch of entries from the stream, routes each, and acknowledges
-- those that it is done with. The bus, the model class Alpha and the decoder of bytes are services.
pub mod Trace
pub mod Lasting
use oms_gateway.Prelude.{
  ℕ, zero, suc, Bool, true, false, not, ◌||◌, Option, none, some, List, [], ◌∷◌, ◌++◌,
  if◌then◌else◌,
}
use oms_gateway.Prelude.Result.{Result, ok, err, client_error}
use oms_gateway.Effect.{Action, pure, lift, attempt, ◌>>=◌, ◌>>◌}
use oms_gateway.Text.{Text, codes, is_empty, starts_with}
use oms_gateway.Float.{Float}
use oms_gateway.Value.{Value}
use oms_gateway.Settings.{Settings}
use oms_gateway.Database.Schema.{Numeric, ToFloat}
use oms_gateway.Router.Alpha.{Alpha}
use oms_gateway.Router.Gather.{Services}
use oms_gateway.Router.Round.{route_one}

-- A field of an entry.
pub data Raw : Type 0 where
  text : Text → Raw
  bytes : List ℕ → Raw

-- An entry of the stream, with its fields "data" and b"data".
pub record Entry : Type 0 where
  pub id : Text
  pub by_text : Option Raw
  pub by_bytes : Option Raw

pub record Bus (F S : Type 0) : Type 0 where
  -- `XGROUP CREATE`; the text is that of an exception
  pub xgroup_create : S → Option Text × S
  -- `XREADGROUP ... >`: the entries of each stream
  pub xreadgroup : Action S (List (List Entry))
  pub xack : List Text → Action S (Unit {0})
  -- `Alpha.model_validate`
  pub validate : Value F → Result (Alpha F)
  -- `raw.decode("utf-8")`
  pub decode : List ℕ → Result Text

-- `word in t`
unfoldable pub contains : Text → Text → Bool
contains word [] = is_empty word
contains word (c ∷ t) = starts_with word (c ∷ t) || contains word t

unfoldable pub is_truthy_raw : Option Raw → Bool
is_truthy_raw none = false
is_truthy_raw (some (text t)) = not (is_empty t)
is_truthy_raw (some (bytes [])) = false
is_truthy_raw (some (bytes (b ∷ bs))) = true

-- `fields.get("data") or fields.get(b"data")`
unfoldable pub first_raw : Entry → Option Raw
unfolding is_truthy_raw
first_raw e = if is_truthy_raw e.by_text then e.by_text else e.by_bytes

-- The text; the empty text is `not raw`.
unfoldable pub text_of : (List ℕ → Result Text) → Option Raw → Result Text
text_of decode none = ok []
text_of decode (some (text t)) = ok t
text_of decode (some (bytes bs)) = decode bs

-- What `ack_ids.append` does, or the list as it is.
abbrev pub acknowledged_if : {A : Type 0} → Result A → List Text → Text → List Text
acknowledged_if (ok a) acks id = acks ++ id ∷ []
acknowledged_if (err e) acks id = acks

module _ {N F S : Type 0} ⦃num : Numeric N⦄ ⦃cast : ToFloat N F⦄ ⦃f : Float F⦄
    (services : Services N F S) (bus : Bus F S) (s : Settings F) where
  open bus use {xgroup_create, xreadgroup, xack, validate, decode}

  -- An existing group is no error.
  unfoldable pub ensure_consumer_group : Action S (Unit {0})
  unfolding contains codes
  ensure_consumer_group st =
      let (raised, st') = xgroup_create st in
      (
        elim raised as (λ _. Result (Unit {0})) [
          | none ↦ ok tt
          | some message ↦ if contains (codes "BUSYGROUP") message then ok tt else err client_error
        ],
        st',
      )

  unfoldable pub parse_alpha : Text → Result (Alpha F)
  parse_alpha raw = elim (services.json_loads raw) [ ok payload ↦ validate payload | err e ↦ err e ]

  -- The round of an alpha, whose exception leaves the entry without an acknowledgement.
  unfoldable pub route_entry : Alpha F → Text → List Text → Action S (List Text)
  route_entry a id acks st =
      let (result, st') = route_one services s a st in (ok (acknowledged_if result acks id), st')

  unfoldable pub handle_parsed : Result (Alpha F) → Text → List Text → Action S (List Text)
  unfolding route_entry
  handle_parsed (ok a) id acks = route_entry a id acks
  handle_parsed (err e) id acks = pure (acks ++ id ∷ [])

  unfoldable pub handle_text : Text → Text → List Text → Action S (List Text)
  unfolding handle_parsed parse_alpha
  handle_text raw id acks =
      if is_empty raw then pure (acks ++ id ∷ []) else handle_parsed (parse_alpha raw) id acks

  unfoldable pub handle_entry : Entry → List Text → Action S (List Text)
  unfolding handle_text first_raw text_of
  handle_entry e acks = lift (text_of decode (first_raw e)) >>= λ raw. handle_text raw e.id acks

  unfoldable pub handle_entries : List Entry → List Text → Action S (List Text)
  unfolding handle_entry
  handle_entries [] acks = pure acks
  handle_entries (e ∷ es) acks = handle_entry e acks >>= handle_entries es

  unfoldable pub acknowledge : List Text → Action S (Unit {0})
  acknowledge [] = pure tt
  acknowledge (id ∷ ids) = attempt tt (xack (id ∷ ids))

  unfoldable pub handle_streams : List (List Entry) → Action S (Unit {0})
  unfolding handle_entries acknowledge
  handle_streams [] = pure tt
  handle_streams (entries ∷ rest) =
      (handle_entries entries [] >>= acknowledge) >> handle_streams rest

  -- One turn of the loop; a read that fails is tried again in the next turn.
  unfoldable pub poll : Action S (Unit {0})
  unfolding handle_streams
  poll = attempt [] xreadgroup >>= handle_streams

  unfoldable pub polls : ℕ → Action S (Unit {0})
  unfolding poll
  polls zero = pure tt
  polls (suc n) = poll >> polls n

  -- The first `n` turns.
  unfoldable pub loop : ℕ → Action S (Unit {0})
  unfolding ensure_consumer_group polls
  loop n = ensure_consumer_group >> polls n
