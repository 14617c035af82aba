-- ===== src/Base/Worlds.antt =====
-- A state of two parts: tables, of type `T`, beside the state of everything else.
use schema_forge_backend.Base.Results.{ok, Action}

module _ {T W E : Type 0} where
  -- A step of everything else.
  unfoldable pub within : {A : Type 0} → Action W E A → Action (T × W) E A
  within m (tables, w) = let (r, w') = m w in (r, (tables, w'))

  unfoldable pub drawn : {A : Type 0} → (W → A × W) → Action (T × W) E A
  drawn m (tables, w) = let (a, w') = m w in (ok a, (tables, w'))

  unfoldable pub tables_of : Action (T × W) E T
  tables_of (tables, w) = (ok tables, (tables, w))

  unfoldable pub write : (T → T) → Action (T × W) E (Unit {0})
  write f (tables, w) = (ok tt, (f tables, w))
