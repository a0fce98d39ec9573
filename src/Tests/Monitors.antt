-- ===== src/Tests/Monitors.antt =====
-- Runs of the inspectors.
use go_debug_agent.Prelude.{
  ℕ, refl, ◌+◌, ◌-◌, ◌≡◌, ◌↔◌, List, [], ◌∷◌, ◌++◌, none, some, true, false, Bool, arith, drop,
  take, length, ◌≢◌, ◌==◌, if◌then◌else◌,
}
use go_debug_agent.Prelude.Map
use go_debug_agent.Prelude.Map.{text_key}
use go_debug_agent.Prelude.Text.{Text, ascii}
use go_debug_agent.Registry.Value.{Value, str}
use go_debug_agent.Server.Page.{split_lines}
use go_debug_agent.Server.Chunks.{followed}
use go_debug_agent.Inspectors.Base.{Format, count_if, index_byte}
use go_debug_agent.Inspectors.Migrations.{pending_entry}
use go_debug_agent.Inspectors.Errors.Capture.{ErrorEntry, recent_errors}
use go_debug_agent.Inspectors.Errors.Patterns.{
  group_errors, report_of, with_pattern, lookup-group_errors,
}
use go_debug_agent.Inspectors.Errors.Reads.{capture_entries, recent_errors-capture_entries}
use go_debug_agent.Inspectors.Health.{
  reported, panicked, Checks, overall, tally_checks, tally_start, overall-tally_checks,
}
use go_debug_agent.Inspectors.Jobs.{
  Outcome, finished, new_job, IsJob, run_scheduled_job, run_scheduled_job-IsJob,
}
use go_debug_agent.Inspectors.Logs.Lines.{write_bytes-split_lines}
use go_debug_agent.Inspectors.Logs.Writer.{write_bytes}
use go_debug_agent.Inspectors.Requests.Buffer.{
  HttpRecord, is_slower, at_least, slow_requests, get_request_stats,
}
use go_debug_agent.Inspectors.Requests.Order.{slow_requests-IsSorted, get_request_stats-eq-none_iff}
use go_debug_agent.Inspectors.Requests.Sorting.{IsSorted}
use go_debug_agent.Inspectors.Sockets.Members.{
  WsCall, register, join, unregister, ws_run, IsTracked, ws_run-IsTracked,
}
use go_debug_agent.Inspectors.Sockets.Registry.{ws_start}
use go_debug_agent.Inspectors.Ticker.{
  Ticker, running, returned, stop_ticker, finish_run, ended, TickerSteps, no_step, then_step,
  stop_during_run,
}
use go_debug_agent.Tests.Data.{now}

abbrev format : Format
format = record {
  percent = λ a b. ascii "50.0%";
  rfc3339 = λ t. ascii "1970-01-01T00:00:00Z";
  rfc3339_nano = λ t. ascii "1970-01-01T00:00:00Z";
  per_minute = λ n t. ascii "1.0/min";
  uptime = λ t. ascii "1s";
  duration = λ t. ascii "1s";
}

abbrev entry : Text → Text → ErrorEntry
entry time text = record {
  timestamp = time;
  message = text;
  stack = [];
  type = ascii "timeout";
  goroutine = 0;
}

abbrev errors : List ErrorEntry
errors =
    entry (ascii "1") (ascii "timeout after 30s")
    ∷ entry (ascii "2") (ascii "no such host")
    ∷ entry (ascii "3") (ascii "timeout after 5s")
    ∷ []

recent_errors-capture_entries_example :
    (capture_entries [] errors ≡ drop (length errors - 50) errors)
    × (recent_errors 2 (capture_entries [] errors) ≡ drop (length errors - 2) errors)
recent_errors-capture_entries_example = recent_errors-capture_entries 2 errors (omega arith)

lookup-group_errors_example :
    Map.lookup (ascii "timeout after #s") (group_errors errors [])
    ≡ report_of (with_pattern (ascii "timeout after #s") errors)
lookup-group_errors_example = lookup-group_errors (ascii "timeout after #s") errors

abbrev request : ℕ → ℕ → HttpRecord
request status duration = record {
  timestamp = 0;
  method = ascii "GET";
  path = ascii "/";
  status = status;
  duration_ms = duration;
  client = ascii "::1";
}

abbrev requests : List HttpRecord
requests = request 200 12 ∷ request 500 90 ∷ request 200 30 ∷ []

slow_requests-IsSorted_example :
    (sorted : List HttpRecord) × (slow_requests (some 20) requests ≡ take 20 sorted)
    × IsSorted is_slower sorted
    × ((p : HttpRecord → Bool) → count_if p sorted ≡ count_if p (at_least (some 20) requests))
slow_requests-IsSorted_example = slow_requests-IsSorted (some 20) requests

abbrev number : ℕ → Value Unit
number n = str (ascii "number")

get_request_stats-eq-none_iff_example :
    (get_request_stats format number (request 200 12 ∷ []) ≡ none)
    ↔ (length (request 200 12 ∷ []) ≡ 1)
get_request_stats-eq-none_iff_example =
    get_request_stats-eq-none_iff format number (request 200 12 ∷ [])

abbrev ws_calls : List WsCall
ws_calls =
    register 1 (ascii "a") (ascii "::1")
    ∷ register 2 (ascii "b") (ascii "::1")
    ∷ join (ascii "room") (ascii "a")
    ∷ join (ascii "room") (ascii "b")
    ∷ join (ascii "room") (ascii "a")
    ∷ unregister (ascii "a")
    ∷ []

ws_run-IsTracked_example : IsTracked (ws_run ws_start ws_calls)
ws_run-IsTracked_example = ws_run-IsTracked ws_calls

abbrev failing_job : ℕ → Outcome × ℕ
failing_job w = (finished (some (ascii "disk full")), w + 1)

run_scheduled_job-IsJob_example :
    IsJob (run_scheduled_job format now failing_job (new_job (ascii "backup") (ascii "@daily")) 0).0
run_scheduled_job-IsJob_example =
    run_scheduled_job-IsJob format now failing_job (new_job (ascii "backup") (ascii "@daily")) 0

abbrev health_checks : Checks ℕ Unit
health_checks =
    (ascii "db", record { name = ascii "db"; check = some (λ w. (reported (ascii "UP") none, w)) })
    ∷ (
      ascii "cache",
      record { name = ascii "cache"; check = some (λ w. (panicked (ascii "nil map"), w)) },
    )
    ∷ []

overall-tally_checks_example :
    let t = (tally_checks health_checks tally_start 0).0 in
    (t.up_count + t.down_count ≡ length health_checks)
    × (overall t ≡ (
        if t.down_count == 0
        then ascii "UP"
        else (if t.down_count == length health_checks then ascii "DOWN" else ascii "DEGRADED")))
overall-tally_checks_example = overall-tally_checks health_checks 0 (omega arith)

write_bytes-split_lines_example :
    (write_bytes (ascii "INF") (ascii "O up") ≡ split_lines (ascii "INF" ++ ascii "O up"))
    × (followed
          (write_bytes (ascii "INF") (ascii "O up"))
          (write_bytes (write_bytes (ascii "INF") (ascii "O up")).rest (10 ∷ ascii "WARN"))
        ≡ write_bytes (ascii "INF") (ascii "O up" ++ 10 ∷ ascii "WARN"))
write_bytes-split_lines_example =
    write_bytes-split_lines (ascii "INF") (ascii "O up") (10 ∷ ascii "WARN")

abbrev during_run : Ticker
during_run = record { done = true; closed = false; goroutine = running; runs = 0 }

abbrev after_run : TickerSteps (stop_ticker during_run) (finish_run (stop_ticker during_run))
unfolding stop_ticker
after_run = then_step no_step (ended (stop_ticker during_run) refl)

stop_during_run_example : (finish_run (stop_ticker during_run)).goroutine ≢ returned
stop_during_run_example =
    stop_during_run during_run (finish_run (stop_ticker during_run)) refl after_run refl

pending_entry-described :
    pending_entry (ascii "7:users")
    ≡ record { version = ascii "7"; description = some (ascii "users") }
unfolding pending_entry index_byte
pending_entry-described = refl
