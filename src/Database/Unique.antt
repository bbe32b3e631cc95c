-- ===== src/Database/Unique.antt =====
-- The unique index of oms_intents on (strategy_id, idempotency_key).
use oms_gateway.Prelude.{◌≡◌, false, List, [], ◌∷◌}
use oms_gateway.Database.Schema.{Intent}
use oms_gateway.Database.Queries.{has_key}

-- No two rows have the same strategy and key.
abbrev pub HasUniqueKeys : {F : Type 0} → List (Intent F) → Type 0
HasUniqueKeys [] = Unit
HasUniqueKeys (row ∷ rows) =
    (has_key row.strategy_id row.idempotency_key rows ≡ false) × HasUniqueKeys rows
