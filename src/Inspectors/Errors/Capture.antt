-- ===== src/Inspectors/Errors/Capture.antt =====
-- inspector_error.go: CaptureError, CapturePanic, and the tools get_recent_errors and
-- get_error_stats.
use go_debug_agent.Prelude.{
  ℕ, ◌+◌, ◌-◌, ◌^◌, List, [], ◌∷◌, ◌++◌, map, Option, none, some, ltb, leb, if◌then◌else◌, length,
  take, drop, ◌&&◌,
}
use go_debug_agent.Prelude.Int.{ℤ, pos, negsuc}
use go_debug_agent.Prelude.Map
use go_debug_agent.Prelude.Map.{text_key}
use go_debug_agent.Prelude.Text.{Text, ascii}
use go_debug_agent.Registry.Value.{Value, str}
use go_debug_agent.Inspectors.Base.{Format, object, array, count_value, index_byte}
use go_debug_agent.Inspectors.Ring.{ring_push}

pub record ErrorEntry : Type 0 where
  pub timestamp : Text
  pub message : Text
  pub stack : Text
  pub type : Text
  pub goroutine : ℕ

abbrev pub max_errors : ℕ
max_errors = 50

unfoldable pub capture_error_entry : ErrorEntry → List ErrorEntry → List ErrorEntry
capture_error_entry entry error_buffer = ring_push max_errors entry error_buffer

-- Where the first colon stands, if not at the start.
unfoldable pub error_type : Text → Text
error_type msg = elim (index_byte 58 msg) [
  | none ↦ ascii "error"
  | some idx ↦ if ltb 0 idx then take idx msg else ascii "error"
]

module _ (fmt : Format) (now : ℕ) where
  -- An error is its text, and nil is `none`.
  unfoldable pub capture_error : Option Text → Text → List ErrorEntry → List ErrorEntry
  capture_error none stack error_buffer = error_buffer
  capture_error (some msg) stack error_buffer =
      capture_error_entry
        (record {
          timestamp = fmt.rfc3339_nano now;
          message = msg;
          stack = stack;
          type = error_type msg;
          goroutine = 0;
        })
        error_buffer

  -- A panic's value is its text under %v, and nil is `none`.
  unfoldable pub capture_panic : Option Text → Text → List ErrorEntry → List ErrorEntry
  capture_panic none stack error_buffer = error_buffer
  capture_panic (some value) stack error_buffer =
      capture_error_entry
        (record {
          timestamp = fmt.rfc3339_nano now;
          message = value;
          stack = stack;
          type = ascii "panic";
          goroutine = 0;
        })
        error_buffer

-- The limit of get_recent_errors: the argument, as int converts it, where it is a number from 1 to
-- maxErrors, and 20 otherwise.
unfoldable pub recent_limit : Option ℤ → ℕ
recent_limit none = 20
recent_limit (some (negsuc n)) = 20
recent_limit (some (pos n)) = if ltb 0 n && leb n max_errors then n else 20

-- errorBuffer[startIdx:]
unfoldable pub recent_errors : ℕ → List ErrorEntry → List ErrorEntry
recent_errors limit error_buffer =
    let total = length error_buffer in
    drop (if ltb limit total then total - limit else 0) error_buffer

module _ {X : Type 0} (encode : ErrorEntry → Value X) where
  unfoldable pub get_recent_errors : Option ℤ → List ErrorEntry → Value X
  get_recent_errors limit [] = object (
      (
        ascii "message",
        str (
            ascii "No errors captured yet. Errors are captured via CaptureError(), "
            ++ ascii "CapturePanic(), or the error recovery middleware."),
      )
      ∷ (ascii "count", count_value 0)
      ∷ [])
  get_recent_errors limit (e ∷ es) =
      let result = recent_errors (recent_limit limit) (e ∷ es) in
      object (
        (ascii "count", count_value (length result))
        ∷ (ascii "total_captured", count_value (length (e ∷ es)))
        ∷ (ascii "errors", array (map encode result))
        ∷ [])

-- typeCounts[entry.Type]++, for each entry.
unfoldable pub count_types : List ErrorEntry → List (Text × ℕ) → List (Text × ℕ)
count_types [] counts = counts
count_types (entry ∷ es) counts = count_types es (
    Map.insert entry.type (elim (Map.lookup entry.type counts) [ none ↦ 1 | some n ↦ n + 1 ])
      counts)

module _ {X : Type 0} (fmt : Format) (order : List (Text × ℕ) → List (Text × ℕ)) where
  -- Times are counted in nanoseconds; `elapsed` is time.Since(errorStart).
  unfoldable pub get_error_stats : ℕ → List ErrorEntry → Value X
  get_error_stats elapsed [] = object (
      (ascii "total_errors", count_value 0)
      ∷ (ascii "error_rate", str (ascii "0/min"))
      ∷ (ascii "top_error_types", array [])
      ∷ [])
  get_error_stats elapsed (e ∷ es) =
      let total = length (e ∷ es) in
      let since = if ltb elapsed (10 ^ 9) then 10 ^ 9 else elapsed in
      let top =
        map
          (λ t. object (
            (ascii "type", str t.0)
            ∷ (ascii "count", count_value t.1)
            ∷ (ascii "pct", str (fmt.percent t.1 total))
            ∷ []))
          (order (count_types (e ∷ es) [])) in
      object (
        (ascii "total_errors", count_value total)
        ∷ (ascii "error_rate", str (fmt.per_minute total since))
        ∷ (ascii "uptime", str (fmt.uptime since))
        ∷ (ascii "top_error_types", array top)
        ∷ [])
