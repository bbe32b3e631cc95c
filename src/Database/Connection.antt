-- ===== src/Database/Connection.antt =====
-- src/oms_gateway/db.py: the life of the pool of DB, and the encoder of what JSON has no word for.
use oms_gateway.Prelude.{
  inl, inr, List, [], ◌∷◌, ◌++◌, ◌==◌, ==_iff, Bool-cases, ◌∙◌, ap, ℕ, ◌≡◌, refl, Option, none,
  some,
}
use oms_gateway.Prelude.Result.{Result, ok, err, runtime_error, type_error}
use oms_gateway.Effect.{Action, lift, ◌>>=◌, ◌>>◌}
use oms_gateway.Text.{Text}
use oms_gateway.Text.Split.{split, last_text, Free, split-Free}
use oms_gateway.Settings.{Settings}

-- asyncpg, with a pool of the type `C`; the sizes are those of create_pool. `info` is the log.
pub record Asyncpg (C S : Type 0) : Type 0 where
  pub create_pool : Text → ℕ → ℕ → Action S C
  pub close_pool : C → Action S (Unit {0})
  pub info_connected : Text → Action S (Unit {0})
  pub info_closed : Action S (Unit {0})

-- The property `pool`.
unfoldable pub pool_of : {C : Type 0} → Option C → Result C
pool_of none = err runtime_error
pool_of (some pool) = ok pool

module _ {C S : Type 0} where
  -- An action that leaves `_pool` as it is.
  unfoldable pub beside : {A : Type 0} → Action S A → Action (Option C × S) A
  beside m (pool, st) = let (result, st') = m st in (result, (pool, st'))

  unfoldable pub set_pool : C → Action (Option C × S) (Unit {0})
  set_pool pool (old, st) = (ok tt, (some pool, st))

-- `url.split("@")[-1]`
unfoldable pub logged_url : Text → Result Text
unfolding split last_text
logged_url url = last_text (split b'@' url)

module _ {F C S : Type 0} (asyncpg : Asyncpg C S) (s : Settings F) where
  unfoldable pub connect : Action (Option C × S) (Unit {0})
  unfolding beside set_pool logged_url
  connect = do
    pool ← beside (asyncpg.create_pool s.aicore_db_url 1 4)
    set_pool pool
    url ← lift (logged_url s.aicore_db_url)
    beside (asyncpg.info_connected url)

  unfoldable pub close_opened : Option C → Action (Option C × S) (Unit {0})
  unfolding beside
  close_opened none st = (ok tt, st)
  close_opened (some pool) st = (beside (asyncpg.close_pool pool) >> beside asyncpg.info_closed) st

  unfoldable pub close : Action (Option C × S) (Unit {0})
  unfolding close_opened
  close (pool, st) = close_opened pool (pool, st)

-- What `json.dumps` hands to `_json_default`.
pub data Unencoded : Type 0 where
  datetime : ℕ → Unencoded
  uuid : Text → Unencoded
  other : Unencoded

unfoldable pub json_default : (ℕ → Text) → Unencoded → Result Text
json_default isoformat (datetime o) = ok (isoformat o)
json_default isoformat (uuid o) = ok o
json_default isoformat other = err type_error

-- What follows the last separator.
ends_with :
    (sep : ℕ) (before host : Text)
    → Free sep host
    → (first second : Text) × (more : List Text) × (split sep (before ++ sep ∷ host)
        ≡ first ∷ second ∷ more)
      × (last_text (second ∷ more) ≡ ok host)
unfolding split last_text
ends_with sep [] host h =
    ([], host, [], rw ((==_iff sep sep).1 refl, split-Free sep host h) refl, refl)
ends_with sep (c ∷ before) host h =
    let (first, second, more, e, l) = ends_with sep before host h in
    elim (Bool-cases (c == sep)) [
      | inl t ↦ ([], first, second ∷ more, rw (t, e) refl, l)
      | inr t ↦ (c ∷ first, second, more, rw (t, e) refl, l)
    ]

-- What is logged of a URL with credentials is the part after the @, when that part has no @,
-- whatever the credentials are.
pub logged_url-hides :
    (credentials host : Text) → Free b'@' host → logged_url (credentials ++ b'@' ∷ host) ≡ ok host
unfolding logged_url
logged_url-hides credentials host h =
    let (first, second, more, e, l) = ends_with b'@' credentials host h in ap last_text e ∙ l
