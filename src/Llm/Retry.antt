-- ===== src/Llm/Retry.antt =====
-- llm_client.go: which errors are tried again, after what delay, and postWithRetry.
use go_debug_agent.Prelude.{
  ℕ, zero, suc, ◌+◌, ◌*◌, ◌/◌, ◌^◌, ◌-◌, ◌%◌, Bool, true, false, ◌&&◌, ◌||◌, List, ◌++◌, Option,
  none, some, leb, ◌==◌, if◌then◌else◌,
}
use go_debug_agent.Prelude.Int.{ℤ, pos, negsuc, to_int64, exceeds}
use go_debug_agent.Prelude.Result.{Result, ok, err}
use go_debug_agent.Prelude.Text.{Text, ascii, decimal}
use go_debug_agent.Chat.Message.{ChatMessage}
use go_debug_agent.Registry.Value.{Value}
use go_debug_agent.Llm.Types.{
  LlmConfig, LlmError, retriable, other, ChatRequest, ChatResponse, HttpRequest, HttpResponse,
  Network,
}

unfoldable pub is_retriable_status : ℕ → Bool
is_retriable_status code = code == 429 || code == 500 || code == 502 || code == 503 || code == 504

unfoldable pub is_retriable_err : LlmError → Bool
is_retriable_err (retriable status_code _) = is_retriable_status status_code
is_retriable_err (other _) = true

-- fmt.Sprintf("HTTP %d: %s", ...) of a status of 400 or more.
unfoldable pub status_error : HttpResponse → LlmError
status_error resp =
    retriable resp.status_code
      (ascii "HTTP " ++ decimal resp.status_code ++ ascii ": " ++ resp.body)

-- if delay > maxDelay { delay = maxDelay }
unfoldable pub cap_delay : ℕ → ℤ → ℤ
cap_delay max_delay delay = if exceeds delay max_delay then pos max_delay else delay

-- j - 1
abbrev minus_one : ℕ → ℤ
minus_one zero = negsuc 0
minus_one (suc j) = pos j

-- The number of turns of `for attempt := 0; attempt <= maxRetries; attempt++`.
unfoldable pub attempt_count : ℤ → ℕ
attempt_count (pos n) = suc n
attempt_count (negsuc n) = 0

-- time.Duration(delay) * time.Millisecond, which wraps around at 64 bits.
unfoldable pub milliseconds : ℤ → ℤ
milliseconds (pos n) = to_int64 (n * 1000000)
milliseconds (negsuc n) = to_int64 (2 ^ 64 - (n + 1) * 1000000 % 2 ^ 64)

module _ {W X : Type 0} (net : Network W X) (cfg : LlmConfig) where
  -- calculateDelay up to its last line; `none` is the panic of rand.Intn at a bound below 1. The
  -- product and the sum wrap around at 64 bits.
  unfoldable pub delay_ms : ℕ → W → Option (ℤ × W)
  unfolding cap_delay
  delay_ms attempt w = elim (to_int64 (cfg.retry_base_delay_ms * 2 ^ attempt)) [
    | pos base ↦
        let (jitter, w') = net.intn (base / 2 + 1) w in
        some (cap_delay cfg.retry_max_delay_ms (to_int64 (base + jitter)), w')
    | negsuc n ↦
        let (jitter, w') = net.intn 1 w in
        if n == 0 then some (cap_delay cfg.retry_max_delay_ms (minus_one jitter), w') else none
  ]

  -- The delay in nanoseconds.
  unfoldable pub calculate_delay : ℕ → W → Option (ℤ × W)
  calculate_delay attempt w = elim (delay_ms attempt w) [
    | none ↦ none
    | some (delay, w') ↦ some (milliseconds delay, w')
  ]

  unfoldable pub http_request : Text → ChatRequest X → HttpRequest
  http_request path body = record {
    url = cfg.base_url ++ path;
    authorization = ascii "Bearer " ++ cfg.api_key;
    content_type = ascii "application/json";
    body = net.marshal body;
  }

  -- post, from the status of the response on.
  read_response : HttpResponse → Result LlmError ChatResponse
  read_response resp = elim resp.read_error [
    | some e ↦ err (other e)
    | none ↦
        if leb 400 resp.status_code
        then err (status_error resp)
        else elim (net.unmarshal_response resp.body) [
          | ok result ↦ ok result
          | err e ↦ err (other (ascii "failed to parse LLM response: " ++ e))
        ]
  ]

  unfoldable pub post : Text → ChatRequest X → W → Result LlmError ChatResponse × W
  unfolding read_response http_request
  post path body w =
      let (reply, w') = net.send (http_request path body) w in
      elim reply [ err e ↦ (err (other e), w') | ok resp ↦ (read_response resp, w') ]

  -- The turns of postWithRetry that are left, from turn `attempt` on; `none` is a panic.
  unfoldable pub post_attempts :
      Text → ChatRequest X → ℕ → ℕ → W → Option (Result LlmError ChatResponse × W)
  post_attempts path body zero attempt w = some (err (other (ascii "exhausted retries")), w)
  post_attempts path body (suc left) attempt w =
      let (result, w') = post path body w in
      elim result [
        | ok response ↦ some (ok response, w')
        | err e ↦ elim (is_retriable_err e && exceeds cfg.max_retries attempt) [
          | true ↦ elim (calculate_delay attempt w') [
            | none ↦ none
            | some (delay, w'') ↦ post_attempts path body left (attempt + 1) (net.sleep delay w'')
          ]
          | false ↦ some (err e, w')
        ]
      ]

  unfoldable pub post_with_retry :
      Text → ChatRequest X → W → Option (Result LlmError ChatResponse × W)
  unfolding post_attempts
  post_with_retry path body w = post_attempts path body (attempt_count cfg.max_retries) 0 w

  unfoldable pub chat_non_streaming :
      List ChatMessage → Option (List (Value X)) → W → Option (Result LlmError ChatResponse × W)
  chat_non_streaming messages tools w =
      post_with_retry (ascii "/chat/completions")
        (record {
          model = cfg.model;
          messages = messages;
          temperature = 0;
          max_tokens = 1024;
          stream = false;
          stream_options = none;
          tools = tools;
          tool_choice = none;
        })
        w
