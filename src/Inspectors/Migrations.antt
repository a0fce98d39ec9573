-- ===== src/Inspectors/Migrations.antt =====
-- inspector_migration.go: the function that reports the migrations, and the three tools that call it.
-- A call of it acts on a world and has no result where it panics, which the tools recover from with a
-- nil result, `null`. sort.Slice is a parameter.
use go_debug_agent.Prelude.{
  ◌+◌, Bool, true, false, List, [], ◌∷◌, ◌++◌, map, Option, none, some, length, take, drop,
  if◌then◌else◌, ltb, ◌==◌,
}
use go_debug_agent.Prelude.Text.{Text, ascii}
use go_debug_agent.Registry.Value.{Value, str, bool}
use go_debug_agent.Inspectors.Base.{object, array, count_value, index_byte}

pub record MigrationRecord : Type 0 where
  pub version : Text
  pub applied_at : Text
  pub duration : Text

pub record MigrationStatus : Type 0 where
  pub current : Text
  pub applied : List Text
  pub pending : List Text
  pub history : List MigrationRecord

-- migrationStatusFn, where it is not nil.
abbrev pub StatusFn : Type 0 → Type 0
StatusFn W = Option (W → Option MigrationStatus × W)

unfoldable pub register_migration_status :
    {W : Type 0} → (W → Option MigrationStatus × W) → StatusFn W → StatusFn W
register_migration_status fn registered = some fn

pub record PendingMigration : Type 0 where
  pub version : Text
  pub description : Option Text

-- An entry of the loop over Pending, with the version and the description on the sides of a colon.
unfoldable pub pending_entry : Text → PendingMigration
pending_entry p = elim (index_byte 58 p) [
  | none ↦ record { version = p; description = none }
  | some idx ↦ record { version = take idx p; description = some (drop (idx + 1) p) }
]

-- The order of strings, by bytes.
unfoldable pub text_ltb : Text → Text → Bool
text_ltb s [] = false
text_ltb [] (d ∷ t) = true
text_ltb (c ∷ s) (d ∷ t) = let rest = text_ltb s t in if c == d then rest else ltb c d

unfoldable pub by_version : PendingMigration → PendingMigration → Bool
by_version a b = text_ltb a.version b.version

-- The last of the entries.
unfoldable pub last_applied : List Text → Option Text
last_applied [] = none
last_applied (x ∷ []) = some x
last_applied (x ∷ y ∷ xs) = last_applied (y ∷ xs)

module _ {X : Type 0} where
  unfoldable pub text_or_null : Value X → Option Text → Value X
  text_or_null null none = null
  text_or_null null (some text) = str text

  unfoldable pub status_value : Value X → MigrationStatus → Value X
  status_value null status = object (
      (ascii "configured", bool true)
      ∷ (ascii "current_version", str status.current)
      ∷ (ascii "applied_count", count_value (length status.applied))
      ∷ (ascii "pending_count", count_value (length status.pending))
      ∷ (ascii "last_applied", text_or_null null (last_applied status.applied))
      ∷ (ascii "has_pending", bool (ltb 0 (length status.pending)))
      ∷ [])

  unfoldable pub unregistered_value : Text → Value X
  unregistered_value key = object (
      (ascii "message", str (ascii "No migration status function registered."))
      ∷ (ascii "configured", bool false)
      ∷ (key, array [])
      ∷ [])

  unfoldable pub pending_value : PendingMigration → Value X
  pending_value p = object (
      (ascii "version", str p.version)
      ∷ elim p.description [ none ↦ [] | some d ↦ (ascii "description", str d) ∷ [] ])

  unfoldable pub record_value : MigrationRecord → Value X
  record_value rec = object (
      (ascii "version", str rec.version)
      ∷ (ascii "applied_at", str rec.applied_at)
      ∷ (ascii "duration", str rec.duration)
      ∷ [])

module _ {W X : Type 0} (null : Value X) where
  -- A tool's answer by a status, and the answer where nothing is registered.
  unfoldable pub with_status : Value X → (MigrationStatus → Value X) → StatusFn W → W → Value X × W
  with_status unregistered answer none w = (unregistered, w)
  with_status unregistered answer (some fn) w =
      let (status, w') = fn w in
      elim status [ none ↦ (null, w') | some status ↦ (answer status, w') ]

  unfoldable pub get_migration_status : StatusFn W → W → Value X × W
  get_migration_status fn w =
      with_status
        (object (
          (
            ascii "message",
            str (
                ascii "No migration status function registered. Call "
                ++ ascii "debugagent.RegisterMigrationStatus(fn) to enable migration inspection."),
          )
          ∷ (ascii "configured", bool false)
          ∷ []))
        (status_value null) fn w

  unfoldable pub get_pending_migrations :
      ((PendingMigration → PendingMigration → Bool) → List PendingMigration → List PendingMigration)
      → StatusFn W
      → W
      → Value X × W
  get_pending_migrations sort fn w =
      with_status (unregistered_value (ascii "pending"))
        (λ status.
          (let pending = sort by_version (map pending_entry status.pending) in
            object (
              (ascii "configured", bool true)
              ∷ (ascii "current", str status.current)
              ∷ (ascii "pending_count", count_value (length pending))
              ∷ (ascii "pending", array (map pending_value pending))
              ∷ [])))
        fn w

  unfoldable pub get_migration_history : StatusFn W → W → Value X × W
  get_migration_history fn w =
      with_status (unregistered_value (ascii "history"))
        (λ status.
          (object (
            (ascii "configured", bool true)
            ∷ (ascii "current", str status.current)
            ∷ (ascii "count", count_value (length status.history))
            ∷ (ascii "history", array (map record_value status.history))
            ∷ [])))
        fn w
