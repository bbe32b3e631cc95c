-- ===== src/KellyAllocator/Served.antt =====
-- What a reader of the cache gets after a cycle, for a Redis that serves the cycle.
use oms_gateway.Prelude.{
  ℕ, ◌≡◌, ◌≢◌, arith, refl, sym, ap, ◌∙◌, true, false, Option, none, some, List, [], ◌∷◌, All,
  if◌then◌else◌, Bool-cases, inl, inr,
}
use mathlib.Core.Path.{subst}
use oms_gateway.Prelude.Result.{Result, ok, err, Returns}
use oms_gateway.Effect.{pure, lift, attempt, ◌>>=◌, ◌>>◌}
use oms_gateway.Effect.Ends.{Ends, EndsIn, Ends-of, Ends-run, Ends-after, Ends-bind}
use oms_gateway.Text.{Text, text_eq, text_eq_refl, text_eq_iff, is_empty}
use oms_gateway.Dict.{
  insert, lookup, lookup_or, lookup-insert, lookup_or-insert, Values, Values-insert, Values-lookup,
}
use oms_gateway.Float.{Float, ◌≼◌, zero_float, one_float}
use oms_gateway.Float.Laws.{IsOrdered}
use oms_gateway.Value.{Value, float, to_float}
use oms_gateway.Settings.{Settings}
use oms_gateway.Database.{Backend}
use oms_gateway.Database.Schema.{Numeric, ToFloat}
use oms_gateway.KellyAllocator.{KellyAllocation}
use oms_gateway.KellyAllocator.Range.{compute_allocation_bounds}
use oms_gateway.KellyAllocator.Cycle.{
  AllocationCache, object, allocations_state_key, refreshed_key, payload_of, allocation_payload,
  float_or_one, multiplier_at, aged_multiplier, payload_multiplier, raw_multiplier,
  read_allocation_multiplier, write_allocations, allocate, run_once,
}

-- A number of JSON
abbrev pub IsNumeral : {F : Type 0} → Value F → Type 0
IsNumeral {F} v = (x : F) × (v ≡ float x)

-- SET succeeds and GET finds what was set; JSON reads the object of
-- numbers that it wrote.
pub record Serves {F S : Type 0} (cache : AllocationCache F S) : Type 0 where
  pub set_ok : (key text : Text) (n : ℕ) (st : S) → (cache.set key text n st).0 ≡ ok tt
  pub get_set :
      (key text : Text) (n : ℕ) (st : S)
      → (cache.get key (cache.set key text n st).1).0 ≡ ok (some text)
  pub loads_dumps :
      (m : List (Text × Value F))
      → Values IsNumeral m
      → (text : Text) × (cache.dumps m ≡ ok text)
        × (is_empty text ≡ false)
        × (cache.loads text ≡ ok (object m))

payload_of-Values :
    {F : Type 0} ⦃f : Float F⦄ (P : Value F → Type 0) (allocations : List (KellyAllocation F))
    (out : List (Text × Value F))
    → All (λ a. P (float a.capped_multiplier)) allocations
    → Values P out
    → Values P (payload_of allocations out)
unfolding payload_of
payload_of-Values P [] out h hs = hs
payload_of-Values P (a ∷ rest) out h hs =
    payload_of-Values P rest _ h.1
      (Values-insert P a.strategy_slug (float a.capped_multiplier) out h.0 hs)

numerals :
    {F : Type 0} ⦃f : Float F⦄ (allocations : List (KellyAllocation F))
    → All (λ a. IsNumeral (float a.capped_multiplier)) allocations
numerals [] = tt
numerals (a ∷ rest) = ((a.capped_multiplier, refl), numerals rest)

allocation_payload-numerals :
    {F : Type 0} ⦃f : Float F⦄ (allocations : List (KellyAllocation F)) (now : F)
    → Values IsNumeral (allocation_payload allocations now)
unfolding allocation_payload
allocation_payload-numerals allocations now =
    Values-insert IsNumeral refreshed_key (float now) _ (now, refl)
      (payload_of-Values IsNumeral allocations [] (numerals allocations) tt)

module _ {F : Type 0} ⦃f : Float F⦄ (floor ceiling : F) where
  -- A multiplier between the floor and the ceiling, and a value that is one.
  abbrev pub IsCapped : F → Type 0
  IsCapped x = (floor ≼ x) × (x ≼ ceiling)

  abbrev CappedValue : Value F → Type 0
  CappedValue v = (x : F) × (v ≡ float x) × IsCapped x

  capped_values :
      (allocations : List (KellyAllocation F))
      → All (λ a. IsCapped a.capped_multiplier) allocations
      → All (λ a. CappedValue (float a.capped_multiplier)) allocations
  capped_values [] h = tt
  capped_values (a ∷ rest) h = ((a.capped_multiplier, refl, h.0), capped_values rest h.1)

  -- What a lookup gives, through `float`.
  looked_up :
      (o : Option (Value F))
      → IsCapped one_float
      → ((v : Value F) → o ≡ some v → CappedValue v)
      → (x : F) × (float_or_one (elim o as (λ _. Value F) [ none ↦ float one_float | some v ↦ v ])
          ≡ ok x)
        × IsCapped x
  unfolding float_or_one to_float
  looked_up none neutral h = (one_float, refl, neutral)
  looked_up (some v) neutral h =
      let (x, e, capped) = h v refl in (x, ap (λ u. float_or_one u) e, capped)

  module _ (slug : Text) (now at : F) (m : List (Text × Value F)) (neutral : IsCapped one_float)
      (fresh : text_eq refreshed_key slug ≡ false) (h : Values CappedValue m) where
    abbrev stored : List (Text × Value F)
    stored = insert refreshed_key (float at) m

    multiplier_at-IsCapped : (x : F) × (multiplier_at slug now stored at ≡ ok x) × IsCapped x
    unfolding multiplier_at lookup_or
    multiplier_at-IsCapped = elim (Bool-cases (f.lt (f.lit 600 0) (f.sub now at))) [
      | inl e ↦ (one_float, rw e refl, neutral)
      | inr e ↦
          let (x, looked, capped) = looked_up (lookup slug stored) neutral (λ v found.
            Values-lookup CappedValue slug v m h (
              sym (ap (λ b. if b then some (float at) else lookup slug m) fresh)
              ∙ sym (lookup-insert refreshed_key slug (float at) m)
              ∙ found)) in
          (x, rw e looked, capped)
    ]

    refreshed : to_float (lookup_or refreshed_key (float zero_float) stored) ≡ ok at
    unfolding to_float
    refreshed = ap to_float (
        lookup_or-insert refreshed_key refreshed_key (float at) (float zero_float) m
        ∙ ap (λ b. if b then float at else lookup_or refreshed_key (float zero_float) m)
            (text_eq_refl refreshed_key))

    payload_multiplier-IsCapped :
        (x : F) × (payload_multiplier slug now (ok (object stored)) ≡ ok x) × IsCapped x
    unfolding payload_multiplier aged_multiplier
    payload_multiplier-IsCapped =
        let (x, e, capped) = multiplier_at-IsCapped in
        (x, ap (aged_multiplier slug now stored) refreshed ∙ e, capped)

module _ {F S : Type 0} ⦃f : Float F⦄ (cache : AllocationCache F S) (clock : S → F) (s : Settings F)
    (serves : Serves cache) where
  open serves use {set_ok, get_set, loads_dumps}

  -- The cache holds the payload of the allocations.
  abbrev IsCached : List (KellyAllocation F) → S → Type 0
  IsCached allocations st =
      (text : Text) × (at : F) × ((cache.get allocations_state_key st).0 ≡ ok (some text))
      × (is_empty text ≡ false)
      × (cache.loads text
          ≡ ok (object (insert refreshed_key (float at) (payload_of allocations []))))

  write_allocations-IsCached :
      (allocations : List (KellyAllocation F)) (st : S)
      → IsCached allocations (write_allocations cache clock s allocations st).1
  unfolding write_allocations allocation_payload attempt lift ◌>>=◌
  write_allocations-IsCached allocations st =
      let (text, dumped, full, loaded) =
        loads_dumps _ (allocation_payload-numerals allocations (clock st)) in
      (text, clock st, rw dumped (get_set allocations_state_key text 1200 st), full, loaded)

  read_cached :
      (allocations : List (KellyAllocation F)) (slug : Text) (floor ceiling : F) (st : S)
      → s.kelly_allocator_enabled ≡ true
      → IsCapped floor ceiling one_float
      → text_eq refreshed_key slug ≡ false
      → All (λ a. IsCapped floor ceiling a.capped_multiplier) allocations
      → IsCached allocations st
      → (x : F) × ((read_allocation_multiplier cache clock s slug st).0 ≡ ok x)
        × IsCapped floor ceiling x
  unfolding read_allocation_multiplier raw_multiplier attempt lift ◌>>=◌
  read_cached allocations slug floor ceiling st enabled neutral fresh capped
        (text, at, got, full, loaded) =
      let (x, e, within) =
        payload_multiplier-IsCapped floor ceiling slug
          (clock (cache.get allocations_state_key st).1) at (payload_of allocations []) neutral
          fresh
          (payload_of-Values (CappedValue floor ceiling) allocations []
            (capped_values floor ceiling allocations capped) tt) in
      (x, rw (enabled, got, full, loaded) e, within)

module _ {F : Type 0} ⦃f : Float F⦄ (laws : IsOrdered F) (sum : List F → F) (square : F → Result F)
    (s : Settings F) (low : s.kelly_floor_multiplier ≼ one_float)
    (high : one_float ≼ s.kelly_ceiling_multiplier) where
  abbrev AllCapped : List (KellyAllocation F) → Type 0
  AllCapped =
      All (λ a. IsCapped s.kelly_floor_multiplier s.kelly_ceiling_multiplier a.capped_multiplier)

  allocate-IsCapped :
      (trades : List (Text × List (F × F))) → Returns AllCapped (allocate sum square s trades)
  unfolding allocate
  allocate-IsCapped [] = tt
  allocate-IsCapped ((slug, trades) ∷ rest) =
      with_rest _ (allocate sum square s rest)
        (λ a e. compute_allocation_bounds laws sum square _ _ _ low high slug trades a e)
        (allocate-IsCapped rest)
    where
      with_rest :
          (r : Result (KellyAllocation F)) (more : Result (List (KellyAllocation F)))
          → ((a : KellyAllocation F)
              → r ≡ ok a
              → IsCapped s.kelly_floor_multiplier s.kelly_ceiling_multiplier a.capped_multiplier)
          → Returns AllCapped more
          → Returns AllCapped (elim r as (λ _. Result (List (KellyAllocation F))) [
            | err e ↦ err e
            | ok a ↦ elim more [ err e ↦ err e | ok later ↦ ok (a ∷ later) ]
          ])
      with_rest (err e) more h hs = tt
      with_rest (ok a) (err e) h hs = tt
      with_rest (ok a) (ok later) h hs = (h a refl, hs)

  module _ {N S : Type 0} ⦃num : Numeric N⦄ ⦃cast : ToFloat N F⦄ (backend : Backend N F S)
      (cache : AllocationCache F S) (clock : S → F) (now : ℕ) (serves : Serves cache) where
    -- The allocations are capped and cached.
    abbrev IsServed : List (KellyAllocation F) → S → Type 0
    IsServed allocations st = AllCapped allocations × IsCached cache clock s serves allocations st

    written :
        (allocations : List (KellyAllocation F)) (st : S)
        → AllCapped allocations
        → EndsIn IsServed
            ((write_allocations cache clock s allocations >> pure allocations) st).0
            ((write_allocations cache clock s allocations >> pure allocations) st).1
    unfolding write_allocations attempt pure ◌>>=◌
    written allocations st capped =
        (capped, write_allocations-IsCached cache clock s serves allocations st)

    allocated :
        (trades : List (Text × List (F × F)))
        → Ends {S = S}
            (λ allocations st. AllCapped allocations)
            (lift (allocate sum square s trades))
    unfolding lift
    allocated trades =
        Ends-of _ (λ st allocations e. subst (Returns AllCapped) e (allocate-IsCapped trades))

    run_once-Ends : Ends IsServed (run_once backend cache clock now sum square s)
    unfolding run_once
    run_once-Ends = Ends-after _ _ (λ trades.
        Ends-bind _ _ (allocated trades) (λ allocations st capped. written allocations st capped))

    -- With the laws of the order, a floor of at most 1, a ceiling of at least 1 and a Redis that
    -- serves the cycle, after a cycle that returns, an enabled reader gets a multiplier between
    -- the floor and the ceiling for every slug other than the key of the refresh time.
    pub run_once-read :
        (st st' : S) (allocations : List (KellyAllocation F)) (slug : Text)
        → s.kelly_allocator_enabled ≡ true
        → slug ≢ refreshed_key
        → run_once backend cache clock now sum square s st ≡ (ok allocations, st')
        → (x : F) × ((read_allocation_multiplier cache clock s slug st').0 ≡ ok x)
          × IsCapped s.kelly_floor_multiplier s.kelly_ceiling_multiplier x
    run_once-read st st' allocations slug enabled other returned =
        let (capped, cached) = Ends-run _ run_once-Ends st st' allocations returned in
        read_cached cache clock s serves allocations slug s.kelly_floor_multiplier
          s.kelly_ceiling_multiplier st' enabled (low, high)
          (ground (arith, text_eq_iff refreshed_key slug)) capped cached
