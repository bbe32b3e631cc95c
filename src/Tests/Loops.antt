-- ===== src/Tests/Loops.antt =====
-- Runs of the loop: a stream that always has the same three entries, an empty one, one that is no
-- alpha, and one that is.
use oms_gateway.Prelude.{◌≡◌, refl, none, some, List, [], ◌∷◌, All, if◌then◌else◌}
use oms_gateway.Prelude.Result.{Result, ok, err, value_error}
use oms_gateway.Text.{Text, codes, text_eq, is_empty}
use oms_gateway.Float.Fixed.{Fixed, fixed_float}
use oms_gateway.Value.{Value, str}
use oms_gateway.Preflight.Decision.{Direction}
use oms_gateway.Database.Unique.{HasUniqueKeys}
use oms_gateway.Router.Alpha.{Alpha}
use oms_gateway.Router.WellFormed.{IsAppended, loop-IsAppended}
use oms_gateway.Router.Loop.{
  Raw, Entry, Bus, first_raw, is_truthy_raw, text_of, handle_entries, polls, loop,
}
use oms_gateway.Router.Loop.Trace.{IsBatch, IsDecoded, handle_entries-Batch}
use oms_gateway.Router.Loop.Lasting.{IsBusSeparate, loop-HasUniqueKeys, polls-return}
use oms_gateway.Tests.Data.{settings}
use oms_gateway.Tests.Rounds.{
  natural, to_dollars, World, tables_of, world_services, world_laws, world_separate, alpha, world,
}

abbrev entry : Text → Text → Entry
entry id payload = record { id = id; by_text = some (Raw.text payload); by_bytes = none }

unfoldable entries : List Entry
unfolding codes
entries =
    entry (codes "1-0") []
    ∷ entry (codes "2-0") (codes "{")
    ∷ entry (codes "3-0") (codes "close")
    ∷ []

unfoldable validate_close : Value Fixed → Result (Alpha Fixed)
unfolding codes text_eq
validate_close (str t) =
    if text_eq t (codes "close") then ok (alpha Direction.flat) else err value_error
validate_close v = err value_error

abbrev world_bus : Bus Fixed World
world_bus = record {
  xgroup_create = λ w. (some (codes "BUSYGROUP"), w);
  xreadgroup = λ w. (ok (entries ∷ []), w);
  xack = λ ids w. (ok tt, w);
  validate = validate_close;
  decode = λ bs. ok bs;
}

world_bus_separate : IsBusSeparate world_bus tables_of
world_bus_separate = record {
  xgroup_create_keeps = λ w. refl;
  xreadgroup_keeps = λ w. refl;
  xack_keeps = λ ids w. refl;
}

entries-IsDecoded : All (IsDecoded world_services world_bus settings) entries
unfolding entries codes first_raw is_truthy_raw text_of is_empty
entries-IsDecoded = (([], refl), ((codes "{", refl), ((codes "close", refl), tt)))

handle_entries-Batch_example :
    IsBatch world_services world_bus settings entries [] world
      (handle_entries world_services world_bus settings entries [] world)
handle_entries-Batch_example =
    handle_entries-Batch world_services world_bus settings entries [] world entries-IsDecoded

loop-HasUniqueKeys_example :
    HasUniqueKeys (tables_of (loop world_services world_bus settings 2 world).1).oms_intents
unfolding world
loop-HasUniqueKeys_example =
    loop-HasUniqueKeys world_services world_bus settings tables_of world_laws world_separate
      world_bus_separate 2 world tt

polls-return_example : (polls world_services world_bus settings 2 world).0 ≡ ok tt
polls-return_example =
    polls-return world_services world_bus settings (λ w. (entries-IsDecoded, tt)) 2 world

loop-IsAppended_example :
    IsAppended
      (tables_of world).oms_intents
      (tables_of (loop world_services world_bus settings 2 world).1).oms_intents
loop-IsAppended_example =
    loop-IsAppended world_services world_bus settings tables_of world_laws world_separate
      world_bus_separate 2 world
