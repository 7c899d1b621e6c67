-- ===== src/Kv/Witnesses.antt =====
-- core/KVGroup.go: the theorems at a store with two keys.
use majula.Prelude.{ℕ, some, none, List, [], ◌∷◌}
use majula.Kv.{LogEntry}

abbrev history : List (LogEntry ℕ)
history =
    record { index = 1; term = 1; op = "put"; key = "x"; value = some 1 }
    ∷ record { index = 2; term = 1; op = "put"; key = "y"; value = some 2 }
    ∷ record { index = 3; term = 1; op = "delete"; key = "x"; value = none }
    ∷ []
