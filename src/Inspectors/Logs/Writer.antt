-- ===== src/Inspectors/Logs/Writer.antt =====
-- inspector_logging.go: CaptureWriter and parseLogLevel.
use go_debug_agent.Prelude.{
  ℕ, zero, suc, ◌+◌, Bool, ◌||◌, List, [], ◌∷◌, ◌++◌, Option, none, some, if◌then◌else◌, length,
  is_empty, take, drop,
}
use go_debug_agent.Prelude.Text.{Text, ascii, text_eq, has_prefix}
use go_debug_agent.Server.Page.{Lines}
use go_debug_agent.Inspectors.Base.{Format, index_byte}
use go_debug_agent.Inspectors.Logs.Buffer.{Strings, LogEntry, log_capture}

-- The fields "level", "msg" and "message" of a decoded line, where they are strings.
pub record JsonEntry : Type 0 where
  pub level : Option Text
  pub msg : Option Text
  pub message : Option Text

-- strings.Contains(s, sub)
unfoldable pub contains : Text → Text → Bool
contains [] sub = is_empty sub
contains (c ∷ s) sub = has_prefix (c ∷ s) sub || contains s sub

abbrev pub keywords : List Text
keywords =
    ascii "DEBUG"
    ∷ ascii "INFO"
    ∷ ascii "WARN"
    ∷ ascii "WARNING"
    ∷ ascii "ERROR"
    ∷ ascii "FATAL"
    ∷ ascii "PANIC"
    ∷ ascii "TRACE"
    ∷ []

-- if level == "warning" { level = "warn" }
unfoldable pub short_level : Text → Text
short_level level = if text_eq level (ascii "warning") then ascii "warn" else level

module _ (strings : Strings) where
  -- The loop over the keywords, with "" where it finds none.
  unfoldable pub keyword_level : Text → List Text → Text
  keyword_level upper [] = []
  keyword_level upper (l ∷ ls) =
      let rest = keyword_level upper ls in
      if contains upper l then short_level (strings.to_lower l) else rest

  unfoldable pub json_level : JsonEntry → Text → Text × Text
  json_level entry line = (
    short_level (elim entry.level [ none ↦ ascii "info" | some l ↦ strings.to_lower l ]),
    elim entry.msg [ some m ↦ m | none ↦ elim entry.message [ some m ↦ m | none ↦ line ] ],
  )

  -- json.Unmarshal of a line into a map is a parameter.
  unfoldable pub parse_log_level : (Text → Option JsonEntry) → Text → Text × Text
  parse_log_level unmarshal text =
      let line = strings.trim_space text in
      if is_empty line then (ascii "info", []) else elim (unmarshal line) [
        | some entry ↦ json_level entry line
        | none ↦
            let level = keyword_level (strings.to_upper line) keywords in
            (if is_empty level then ascii "info" else level, line)
      ]

-- The loop of Write over the buffered bytes: the lines that it takes, and the bytes that it leaves.
-- A turn takes one byte at least.
unfoldable pub write_loop : ℕ → Text → Lines
write_loop zero partial = record { whole = []; rest = partial }
write_loop (suc n) partial = elim (index_byte 10 partial) [
  | none ↦ record { whole = []; rest = partial }
  | some idx ↦
      let r = write_loop n (drop (idx + 1) partial) in
      record { whole = take idx partial ∷ r.whole; rest = r.rest }
]

unfoldable pub write_bytes : Text → Text → Lines
write_bytes partial p = write_loop (length (partial ++ p)) (partial ++ p)

module _ {W X : Type 0} (fmt : Format) (now : W → ℕ × W) (strings : Strings)
    (unmarshal : Text → Option JsonEntry) (source : Text) where
  -- The entry of a line.
  unfoldable pub capture_line : Text → List (LogEntry X) × W → List (LogEntry X) × W
  capture_line line s =
      let parsed = parse_log_level strings unmarshal line in
      let t = now s.1 in
      (
        log_capture fmt t.0
            (record {
              timestamp = fmt.rfc3339_nano t.0;
              level = parsed.0;
              message = parsed.1;
              source = source;
              fields = [];
            })
            s.0,
        t.1,
      )

  unfoldable pub capture_lines : List Text → List (LogEntry X) × W → List (LogEntry X) × W
  capture_lines [] s = s
  capture_lines (line ∷ lines) s = capture_lines lines (capture_line line s)

  -- Write, up to the call of the inner writer: the bytes left, the buffer and the world.
  unfoldable pub writer_write : Text → Text → List (LogEntry X) × W → Text × (List (LogEntry X) × W)
  writer_write partial p s = let r = write_bytes partial p in (r.rest, capture_lines r.whole s)
