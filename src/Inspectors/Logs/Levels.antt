-- ===== src/Inspectors/Logs/Levels.antt =====
-- inspector_logging.go: the registered loggers and the tools get_log_level and set_log_level. `L` is
-- the type of the loggers; what reflection finds of them is a parameter.
use go_debug_agent.Prelude.{
  Bool, ◌||◌, List, [], ◌∷◌, ◌++◌, map, Option, none, some, if◌then◌else◌, length, is_empty,
}
use go_debug_agent.Prelude.Map
use go_debug_agent.Prelude.Map.{text_key}
use go_debug_agent.Prelude.Result.{Result, ok, err}
use go_debug_agent.Prelude.Text.{Text, ascii, text_eq}
use go_debug_agent.Registry.Value.{Value, str}
use go_debug_agent.Inspectors.Base.{object, array, count_value}
use go_debug_agent.Inspectors.Logs.Buffer.{Strings}
use go_debug_agent.Inspectors.Logs.Writer.{short_level}

pub record LoggerInfo (L : Type 0) : Type 0 where
  pub logger : L
  pub level : Text

abbrev pub Loggers : Type 0 → Type 0
Loggers L = List (Text × LoggerInfo L)

-- reflectCallStringMethod, reflectCallSetLevel with the logger after it, reflectTypeName, and %T.
pub record Reflection (L : Type 0) : Type 0 where
  pub call_string_method : L → Text → Text
  pub call_set_level : L → Text → Bool × L
  pub type_name : L → Text
  pub type_verb : L → Text

-- validLevels[level]
unfoldable pub is_valid_level : Text → Bool
is_valid_level level =
    text_eq level (ascii "debug")
    || text_eq level (ascii "info")
    || text_eq level (ascii "warn")
    || text_eq level (ascii "warning")
    || text_eq level (ascii "error")

module _ {L : Type 0} (strings : Strings) (reflection : Reflection L) where
  unfoldable pub register_logger : Text → L → Loggers L → Loggers L
  register_logger name logger loggers =
      Map.insert name (record { logger = logger; level = ascii "info" }) loggers

  unfoldable pub get_logger_level : LoggerInfo L → Text
  get_logger_level info =
      let level = reflection.call_string_method info.logger (ascii "Level") in
      let got = reflection.call_string_method info.logger (ascii "GetLevel") in
      if is_empty level
      then (if is_empty got
          then (if is_empty info.level then ascii "unknown" else info.level)
          else strings.to_lower got)
      else strings.to_lower level

  -- The warning, where the logger takes no level, and the entry after.
  unfoldable pub set_logger_level : Text → LoggerInfo L → Option Text × LoggerInfo L
  set_logger_level level info =
      let first = reflection.call_set_level info.logger level in
      let second = reflection.call_set_level first.1 (strings.to_upper level) in
      let last = if first.0 then first else second in
      (
        if last.0
            then none
            else some (
                ascii "logger type "
                ++ reflection.type_verb last.1
                ++ ascii " does not expose a SetLevel method; level stored in registry only"),
        record { logger = last.1; level = level },
      )

module _ {L X : Type 0} (strings : Strings) (reflection : Reflection L) where
  -- The loggers in the order of the range.
  unfoldable pub get_log_level : Loggers L → Value X
  get_log_level [] = object (
      (
        ascii "message",
        str (
            ascii "No loggers registered. Call RegisterLogger(name, logger) to enable "
            ++ ascii "log inspection."),
      )
      ∷ (ascii "count", count_value 0)
      ∷ [])
  get_log_level (l ∷ ls) =
      let entry : Text × LoggerInfo L → Value X = λ e. object (
        (ascii "name", str e.0)
        ∷ (ascii "level", str (get_logger_level strings reflection e.1))
        ∷ (ascii "type", str (reflection.type_name e.1.logger))
        ∷ []) in
      object (
        (ascii "count", count_value (length (l ∷ ls)))
        ∷ (ascii "loggers", array (map entry (l ∷ ls)))
        ∷ [])

  unfoldable pub level_fields : Text → Text → Option Text → Value X
  level_fields name level none = object (
      (ascii "name", str name)
      ∷ (ascii "level", str level)
      ∷ (ascii "status", str (ascii "updated"))
      ∷ [])
  level_fields name level (some warning) =
      object (
        (ascii "name", str name) ∷ (ascii "level", str level) ∷ (ascii "warning", str warning) ∷ [])

  -- The arguments are "" where they are missing.
  unfoldable pub set_log_level : Text → Text → Loggers L → Result Text (Value X) × Loggers L
  set_log_level name given loggers =
      let level = strings.to_lower (strings.trim_space given) in
      if is_empty name
      then (err (ascii "logger_name is required"), loggers)
      else (if is_valid_level level
          then elim (Map.lookup name loggers) [
            | none ↦
                (err (ascii "logger " ++ strings.quoted name ++ ascii " not registered"), loggers)
            | some info ↦
                let set = set_logger_level strings reflection (short_level level) info in
                (ok (level_fields name (short_level level) set.0), Map.insert name set.1 loggers)
          ]
          else (
            err (
                ascii "invalid level "
                ++ strings.quoted level
                ++ ascii ": must be debug, info, warn, or error"),
            loggers,
          ))
