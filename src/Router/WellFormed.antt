-- ===== src/Router/WellFormed.antt =====
-- The rows that rounds write, and what the loop does to those that are there.
use mathlib.Core.Path.{subst}
use oms_gateway.Prelude.{
  ℕ, ◌≡◌, ◌⊎◌, refl, sym, ap, inl, inr, true, false, Option, none, some, List, [], ◌∷◌, ◌++◌, All,
  arith, Bool-cases,
}
use oms_gateway.Prelude.Result.{ok, ok_injective}
use oms_gateway.Text.{Text, codes, text_eq}
use oms_gateway.Float.{Float, zero_float}
use oms_gateway.Settings.{Settings}
use oms_gateway.Preflight.Decision.{
  accepted, Decision, Direction, Reason, is_flat, direction_text, reason_text,
}
use oms_gateway.Preflight.Admission.{evaluate-outcome}
use oms_gateway.Sizing.Notional.{derive_side}
use oms_gateway.Database.Schema.{Numeric, ToFloat, Intent, Tables}
use oms_gateway.Database.Isolation.{IsTransactional}
use oms_gateway.Router.{budgeted, reserve_for}
use oms_gateway.Router.Alpha.{Alpha, resolve_strategy}
use oms_gateway.Router.Rows.{side_of, intent_of, notional_of, reason_of}
use oms_gateway.Router.Gather.{Services, gather}
use oms_gateway.Router.Separate.{IsSeparate}
use oms_gateway.Router.Round.{route_one}
use oms_gateway.Router.Written.{IsWritten, route_one_from}
use oms_gateway.Router.Reads.{judge-evaluate}
use oms_gateway.Router.Sound.{
  traded_notional, rejected_notional, status-queued, status-rejected, reason-refused,
}
use oms_gateway.Router.Loop.{Bus, loop}
use oms_gateway.Router.Loop.Lasting.{IsBusSeparate, loop_keeps}

abbrev pub IsTradeSide : Text → Type 0
IsTradeSide side = (side ≡ codes "buy") ⊎ (side ≡ codes "sell")

module _ {F : Type 0} ⦃f : Float F⦄ where
  open f use {le}

  -- A close without an amount, or a buy or sell of an amount that is not at most zero: a NaN is not.
  abbrev pub IsQueuedRow : Intent F → Type 0
  IsQueuedRow row =
      (row.status ≡ codes "queued")
      × (row.rejection_reason ≡ none)
      × (((row.side ≡ codes "close") × (row.notional_usd ≡ none))
          ⊎ (IsTradeSide row.side
              × ((n : F) × (row.notional_usd ≡ some n) × (le n zero_float ≡ false))))

  -- A reason, and no amount.
  abbrev pub IsRejectedRow : Intent F → Type 0
  IsRejectedRow row =
      (row.status ≡ codes "rejected")
      × ((why : Reason) × (row.rejection_reason ≡ some (codes (reason_text why))))
      × (row.notional_usd ≡ none)
      × ((row.side ≡ codes "close") ⊎ IsTradeSide row.side)

  pub record IsWellFormed (row : Intent F) : Type 0 where
    pub order_type : row.order_type ≡ codes "market"
    pub qty : row.qty ≡ none
    pub decided : IsQueuedRow row ⊎ IsRejectedRow row

  -- The sides of a decision.
  closes :
      (d : Decision F) (direction : Direction) (side : Text)
      → is_flat direction ≡ true
      → side_of d direction ≡ ok side
      → side ≡ codes "close"
  unfolding side_of
  closes d direction side e h = sym (ok_injective (ground arith))

  trades :
      (d : Decision F) (direction : Direction) (side : Text)
      → is_flat direction ≡ false
      → side_of d direction ≡ ok side
      → IsTradeSide side
  unfolding side_of derive_side direction_text text_eq codes
  trades d Direction.long side e h = inl (sym (ok_injective (ground arith)))
  trades d Direction.short side e h = inr (sym (ok_injective (ground arith)))
  trades d Direction.flat side e h = absurd (let clash : true ≡ false = e in cc)
  trades d Direction.watch side e h = ground arith

  side-IsListed :
      (d : Decision F) (direction : Direction) (side : Text)
      → side_of d direction ≡ ok side
      → (side ≡ codes "close") ⊎ IsTradeSide side
  side-IsListed d direction side h = elim (Bool-cases (is_flat direction)) [
    | inl e ↦ inl (closes d direction side e h)
    | inr e ↦ inr (trades d direction side e h)
  ]

  unreasoned : (d : Decision F) → d.reason ≡ none → reason_of d ≡ none
  unfolding reason_of
  unreasoned d e = rw e

  closed_notional :
      (d : Decision F) (direction : Direction) (proposed : Option F)
      → d.accept ≡ true
      → is_flat direction ≡ true
      → notional_of d direction proposed ≡ none
  unfolding notional_of
  closed_notional d direction proposed e o = ground arith

module _ {N F S : Type 0} ⦃num : Numeric N⦄ ⦃cast : ToFloat N F⦄ ⦃f : Float F⦄
    (services : Services N F S) (s : Settings F) where
  open services use {redis, clock}

  queued_row :
      (start : S) (a : Alpha F) (row : Intent F) (w : IsWritten services s start a row)
      → w.d ≡ accepted
      → IsQueuedRow (intent_of a w.id (resolve_strategy services.parse_uuid a).1 w.round w.d w.side)
  unfolding intent_of
  queued_row start a row w e =
      let accepts : w.d.accept ≡ true = ap (λ (d : Decision F). d.accept) e in
      (
        status-queued w.d accepts,
        unreasoned w.d (ap (λ (d : Decision F). d.reason) e),
        elim (Bool-cases (is_flat a.direction)) [
          | inl c ↦
              inl (
                closes w.d a.direction w.side c w.sided,
                closed_notional w.d a.direction _ accepts c,
              )
          | inr o ↦ inr (
            trades w.d a.direction w.side o w.sided,
            traded_notional w.d a.direction _ accepts w.not_skipped o,
          )
        ],
      )

  pub IsWritten-IsWellFormed :
      (start : S) (a : Alpha F) (row : Intent F)
      → IsWritten services s start a row
      → IsWellFormed row
  unfolding intent_of
  IsWritten-IsWellFormed start a row w =
      let q = w.round.request in
      let st = (gather services s a w.id (resolve_strategy services.parse_uuid a).1 start).1 in
      let pending =
        (reserve_for redis q.strategy_slug q.alpha_direction q.proposed_notional_usd st).0 in
      subst IsWellFormed (sym w.row_eq) (record {
        order_type = refl;
        qty = refl;
        decided =
            elim (evaluate-outcome s (clock st) (budgeted q pending) w.d
              (judge-evaluate redis s (clock st) q st w.d w.judged)) [
                | inl e ↦ inl (queued_row start a row w e)
                | inr (why, (refuses, reason)) ↦ inr (
                  status-rejected w.d refuses,
                  (why, reason-refused w.d why reason),
                  rejected_notional w.d a.direction q.proposed_notional_usd refuses,
                  side-IsListed w.d a.direction w.side w.sided,
                )
              ];
      })

-- New rows in front, each well-formed, and those that were there.
abbrev pub IsAppended : {F : Type 0} → ⦃f : Float F⦄ → List (Intent F) → List (Intent F) → Type 0
IsAppended {F} before after =
    (new : List (Intent F)) × (after ≡ new ++ before) × All IsWellFormed new

module _ {N F S : Type 0} ⦃num : Numeric N⦄ ⦃cast : ToFloat N F⦄ ⦃f : Float F⦄
    (services : Services N F S) (bus : Bus F S) (s : Settings F) (tables : S → Tables N F)
    (laws : IsTransactional services.backend.pool tables) (separate : IsSeparate services tables)
    (bus_separate : IsBusSeparate bus tables) where
  round-IsAppended :
      (before : List (Intent F)) (a : Alpha F) (st : S)
      → IsAppended before (tables st).oms_intents
      → IsAppended before (tables (route_one services s a st).1).oms_intents
  round-IsAppended before a st =
      route_one_from services s tables laws separate (IsAppended before) (IsAppended before) a st
        (λ rows h. h)
        (λ rows row written fresh (new, e, h).
          (row ∷ new, ap (λ r. row ∷ r) e, (IsWritten-IsWellFormed services s st a row written, h)))

  -- When the pool runs a statement as a whole and neither Redis nor the bus touches the tables,
  -- any number of turns of the loop, whatever is read, redelivered or raised, leaves the intents
  -- that were there as they were, in their order, and puts new rows in front of them. Each new row
  -- is a market order without a quantity: queued with no reason, as a close with no notional or as
  -- a buy or sell with a notional for which the test that it is at most zero fails (it may be
  -- NaN), or rejected with a reason of preflight, no notional and one of these sides.
  pub loop-IsAppended :
      (n : ℕ) (st : S)
      → IsAppended (tables st).oms_intents (tables (loop services bus s n st).1).oms_intents
  loop-IsAppended n st =
      loop_keeps services bus s tables bus_separate (IsAppended (tables st).oms_intents)
        (round-IsAppended (tables st).oms_intents) n st ([], refl, tt)
