-- ===== src/Inspectors/Logs/Buffer.antt =====
-- inspector_logging.go: LogCapture, the slog handler and the tool get_log_buffer.
use go_debug_agent.Prelude.{
  ℕ, ◌-◌, Bool, true, ◌&&◌, List, [], ◌∷◌, map, Option, none, some, ltb, if◌then◌else◌, length,
  is_empty, drop, select,
}
use go_debug_agent.Prelude.Int.{ℤ, pos, negsuc}
use go_debug_agent.Prelude.Text.{Text, ascii, text_eq}
use go_debug_agent.Registry.Value.{Value}
use go_debug_agent.Inspectors.Base.{Format, object, array, count_value}
use go_debug_agent.Inspectors.Ring.{ring_push}

-- strings.ToLower, strings.ToUpper and strings.TrimSpace, and fmt's %q.
pub record Strings : Type 0 where
  pub to_lower : Text → Text
  pub to_upper : Text → Text
  pub trim_space : Text → Text
  pub quoted : Text → Text

pub record LogEntry (X : Type 0) : Type 0 where
  pub timestamp : Text
  pub level : Text
  pub message : Text
  pub source : Text
  pub fields : List (Text × Value X)

module _ {X : Type 0} (fmt : Format) where
  unfoldable pub log_capture : ℕ → LogEntry X → List (LogEntry X) → List (LogEntry X)
  log_capture now entry log_buffer =
      let timestamp = if is_empty entry.timestamp then fmt.rfc3339_nano now else entry.timestamp in
      ring_push 100 (record entry { timestamp = timestamp }) log_buffer

  -- CaptureSlogHandler.Handle, up to the call of the inner handler: `time`, `level` and `fields` are
  -- the record's, the level as r.Level.String() has it.
  unfoldable pub handle_slog :
      Text → ℕ → ℕ → Text → Text → List (Text × Value X) → List (LogEntry X) → List (LogEntry X)
  handle_slog source now time level message fields log_buffer =
      log_capture now
        (record {
          timestamp = fmt.rfc3339_nano time;
          level = level;
          message = message;
          source = source;
          fields = fields;
        })
        log_buffer

-- The limit of get_log_buffer, where `total` is the number of entries.
unfoldable pub log_limit : Option ℤ → ℕ → ℕ
log_limit none total = total
log_limit (some (negsuc n)) total = total
log_limit (some (pos n)) total = if ltb 0 n && ltb n total then n else total

module _ {X : Type 0} (strings : Strings) where
  -- A filter is "" where it is missing.
  unfoldable pub passes : Text → Text → LogEntry X → Bool
  passes level_filter source_filter e =
      (if is_empty level_filter then true else text_eq e.level (strings.to_lower level_filter))
      && (if is_empty source_filter then true else text_eq e.source source_filter)

  unfoldable pub shown_entries : Option ℤ → Text → Text → List (LogEntry X) → List (LogEntry X)
  shown_entries limit level_filter source_filter entries =
      let most = log_limit limit (length entries) in
      let filtered = select (passes level_filter source_filter) entries in
      if ltb most (length filtered) then drop (length filtered - most) filtered else filtered

  unfoldable pub get_log_buffer :
      (LogEntry X → Value X) → Option ℤ → Text → Text → List (LogEntry X) → Value X
  get_log_buffer encode limit level_filter source_filter log_buffer =
      let filtered = shown_entries limit level_filter source_filter log_buffer in
      object (
        (ascii "total_in_buffer", count_value (length log_buffer))
        ∷ (ascii "returned", count_value (length filtered))
        ∷ (ascii "entries", array (map encode filtered))
        ∷ [])
