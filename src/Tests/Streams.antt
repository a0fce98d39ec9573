-- ===== src/Tests/Streams.antt =====
-- Runs of the client and of the page.
use go_debug_agent.Prelude.{
  ℕ, zero, suc, ◌+◌, ◌*◌, ◌/◌, ◌^◌, ◌≤◌, ◌<◌, ◌≡◌, refl, List, [], ◌∷◌, ◌++◌, map, Option, none,
  some, if◌then◌else◌, false, arith, min,
}
use go_debug_agent.Prelude.Int.{pos}
use go_debug_agent.Prelude.Map
use go_debug_agent.Prelude.Map.{int_key}
use go_debug_agent.Prelude.Result.{ok, err}
use go_debug_agent.Prelude.Text.{Text, ascii, text_eq, has_prefix}
use go_debug_agent.Llm.Types.{LlmConfig, HttpResponse, Network, Chunk, ToolCallDelta}
use go_debug_agent.Llm.Chunks.{apply_deltas, collect, read_lines, stream_start}
use go_debug_agent.Llm.Delay.{DelaysFit, calculate_delay_bounds}
use go_debug_agent.Llm.Fragments.{assembled, fragments, collect_gap}
use go_debug_agent.Llm.Calls.{stream_deltas, lookup-read_lines}
use go_debug_agent.Llm.Handler.{Streams, chat_stream-Streams}
use go_debug_agent.Llm.Retry.{calculate_delay}
use go_debug_agent.Llm.Stream.{chat_stream}
use go_debug_agent.Engine.Types.{Callback, on_content, on_tool_start, on_complete, on_error}
use go_debug_agent.Server.Sse.{SseJson, write_all, frame_of}
use go_debug_agent.Server.Page.{read_bytes, reader_start, read_page_lines, split_lines, prepend}
use go_debug_agent.Server.Transport.{IsSent, read_bytes-write_all}
use go_debug_agent.Server.Chunks.{read_bytes-append, read_bytes_error_line}
use go_debug_agent.Tests.Data.{conversation}

abbrev config : LlmConfig
config = record {
  base_url = ascii "http://localhost";
  api_key = ascii "key";
  model = ascii "small";
  temperature = 300;
  max_tokens = 4096;
  max_tool_rounds = 3;
  timeout_seconds = 60;
  max_retries = pos 2;
  retry_base_delay_ms = 1000;
  retry_max_delay_ms = 30000;
  context_window_tokens = 128000;
}

-- The service is busy at the first request, and streams one line at the next.
abbrev replies : ℕ → HttpResponse
replies zero = record { status_code = 503; body = ascii "busy"; read_error = none }
replies (suc n) = record { status_code = 200; body = ascii "data: fine"; read_error = none }

abbrev network : Network ℕ Unit
network = record {
  send = λ request w. (ok (replies w), w + 1);
  marshal = λ request. ascii "{}";
  unmarshal_chunk = λ text. some (record {
    choices =
        record { delta = record { content = text; tool_calls = [] }; finish_reason = [] } ∷ [];
    usage = none;
  });
  unmarshal_response = λ text. err (ascii "no json");
  scan = λ body. body ∷ [];
  intn = λ n w. (0, w);
  sleep = λ ms w. w;
}

random : (n : ℕ) (v : ℕ) → 1 ≤ n → (network.intn n v).0 < n
random n v h = omega (arith, h)

config-DelaysFit : DelaysFit config
config-DelaysFit = omega arith

chat_stream-Streams_example : Streams (chat_stream network config conversation none none 0)
chat_stream-Streams_example =
    chat_stream-Streams network config random config-DelaysFit conversation none none 0

calculate_delay_bounds_example :
    let base = 1000 * 2 ^ 1 in
    (d : ℕ) × (v : ℕ) × (calculate_delay network config 1 0 ≡ some (pos d, v))
    × (d ≤ 30000 * 1000000)
    × (min base 30000 * 1000000 ≤ d)
    × (d ≤ (base + base / 2) * 1000000)
calculate_delay_bounds_example =
    calculate_delay_bounds network config 1 0 random config-DelaysFit (omega arith) refl

abbrev first_part : ToolCallDelta
first_part = record {
  index = pos 1;
  id = ascii "call_1";
  type = ascii "function";
  name = ascii "get_";
  arguments = [];
}

abbrev second_part : ToolCallDelta
second_part = record {
  index = pos 1;
  id = [];
  type = [];
  name = ascii "mem";
  arguments = ascii "{}";
}

-- A chunk with one fragment.
abbrev one_delta : Text → Option Chunk
one_delta text = some (record {
  choices =
      record {
        delta = record {
          content = [];
          tool_calls = (if text_eq text (ascii "1") then first_part else second_part) ∷ [];
        };
        finish_reason = [];
      }
      ∷ [];
  usage = none;
})

abbrev two_chunks : List Text
two_chunks = ascii "data: 1" ∷ [] ∷ ascii "data: 2" ∷ ascii "data: [DONE]" ∷ []

lookup-read_lines_example :
    Map.lookup (pos 1) (read_lines one_delta stream_start two_chunks).tool_call_map
    ≡ assembled (fragments (pos 1) (stream_deltas one_delta two_chunks))
lookup-read_lines_example = lookup-read_lines one_delta (pos 1) two_chunks

collect_gap_example : collect (apply_deltas [] (first_part ∷ second_part ∷ [])) ≡ []
collect_gap_example = collect_gap 0 (first_part ∷ second_part ∷ []) (refl, (refl, tt))

abbrev json : SseJson
json = record { marshal_text = λ text. text; marshal_counts = λ a b c. ascii "{}" }

abbrev callbacks : List Callback
callbacks =
    on_content (ascii "fine") ∷ on_tool_start (ascii "get_mem") (ascii "{}") ∷ on_complete ∷ []

callbacks-IsSent : IsSent json callbacks
unfolding frame_of
callbacks-IsSent = (refl, (refl, (refl, tt)))

read_bytes-write_all_example :
    ((read_bytes reader_start (write_all json callbacks)).page.delivered
      ≡ map (frame_of json) callbacks)
    × ((read_bytes reader_start (write_all json callbacks)).buffer ≡ [])
read_bytes-write_all_example = read_bytes-write_all json callbacks callbacks-IsSent

half_open : (read_bytes reader_start (ascii "event: con")).page.stream_done ≡ false
unfolding read_bytes read_page_lines split_lines prepend
half_open = refl

read_bytes-append_example :
    read_bytes (read_bytes reader_start (ascii "event: con")) (ascii "tent")
    ≡ read_bytes reader_start (ascii "event: con" ++ ascii "tent")
read_bytes-append_example =
    read_bytes-append reader_start (ascii "event: con") (ascii "tent") half_open

read_bytes_error_line_example :
    (read_bytes reader_start
      (write_all json (on_error (ascii "500" ++ 10 ∷ ascii "busy") ∷ []))).page.delivered
    ≡ record { event = ascii "error"; body = ascii "500" } ∷ []
read_bytes_error_line_example =
    read_bytes_error_line json (ascii "500") (ascii "busy") refl refl refl
      (unfold has_prefix in refl) (unfold has_prefix in refl)
