-- ===== src/Llm/Stream.antt =====
-- llm_client.go: streamRequest and ChatStream, as the calls that they make of the StreamHandler.
use go_debug_agent.Prelude.{
  ℕ, zero, suc, ◌+◌, true, false, ◌&&◌, List, [], ◌∷◌, ◌++◌, Option, none, some, leb, if◌then◌else◌,
}
use go_debug_agent.Prelude.Int.{decimal_int, exceeds}
use go_debug_agent.Prelude.Result.{Result, ok, err}
use go_debug_agent.Prelude.Text.{Text, ascii}
use go_debug_agent.Chat.Message.{ChatMessage}
use go_debug_agent.Registry.Value.{Value}
use go_debug_agent.Llm.Types.{
  LlmConfig, LlmError, other, ChatRequest, HttpResponse, Network, StreamEvent, on_stream_error,
}
use go_debug_agent.Llm.Chunks.{read_stream}
use go_debug_agent.Llm.Retry.{
  is_retriable_err, status_error, attempt_count, calculate_delay, http_request,
}

-- The calls of earlier turns come first.
abbrev pub before :
    {W : Type 0} → List StreamEvent → Option (List StreamEvent × W) → Option (List StreamEvent × W)
before events none = none
before events (some (later, w)) = some (events ++ later, w)

module _ {W X : Type 0} (net : Network W X) (cfg : LlmConfig) where
  -- streamRequest, from the status of the response on. A body that an error cuts off is read as far
  -- as it goes, and no error is reported.
  unfoldable pub read_reply : HttpResponse → List StreamEvent × Option LlmError
  read_reply resp =
      if leb 400 resp.status_code
      then ([], some (status_error resp))
      else (read_stream net.unmarshal_chunk (net.scan resp.body), none)

  unfoldable pub read_answer : Result Text HttpResponse → List StreamEvent × Option LlmError
  read_answer (err e) = ([], some (other e))
  read_answer (ok resp) = read_reply resp

  -- The calls of the handler, the error that streamRequest returns, and the world.
  unfoldable pub stream_request : Text → ChatRequest X → W → List StreamEvent × Option LlmError × W
  stream_request path body w =
      let (reply, w') = net.send (http_request net cfg path body) w in
      let (events, failure) = read_answer reply in (events, failure, w')

  abbrev pub exhausted : LlmError
  exhausted =
      other (ascii "exhausted retries after " ++ decimal_int cfg.max_retries ++ ascii " attempts")

  -- The turns of ChatStream that are left, from turn `attempt` on; `none` is a panic.
  unfoldable pub stream_attempts : ChatRequest X → ℕ → ℕ → W → Option (List StreamEvent × W)
  stream_attempts body zero attempt w = some (on_stream_error exhausted ∷ [], w)
  stream_attempts body (suc left) attempt w =
      let (events, failure, w') = stream_request (ascii "/chat/completions") body w in
      elim failure [
        | none ↦ some (events, w')
        | some e ↦ elim (is_retriable_err e && exceeds cfg.max_retries attempt) [
          | true ↦ elim (calculate_delay net cfg attempt w') [
            | none ↦ none
            | some (delay, w'') ↦
                before events (stream_attempts body left (attempt + 1) (net.sleep delay w''))
          ]
          | false ↦ some (events ++ on_stream_error e ∷ [], w')
        ]
      ]

  unfoldable pub stream_body :
      List ChatMessage → Option (List (Value X)) → Option Text → ChatRequest X
  stream_body messages tools tool_choice = record {
    model = cfg.model;
    messages = messages;
    temperature = cfg.temperature;
    max_tokens = cfg.max_tokens;
    stream = true;
    stream_options = some (record { include_usage = true });
    tools = tools;
    tool_choice = tool_choice;
  }

  unfoldable pub chat_stream :
      List ChatMessage → Option (List (Value X)) → Option Text → W → Option (List StreamEvent × W)
  unfolding stream_body
  chat_stream messages tools tool_choice w =
      stream_attempts (stream_body messages tools tool_choice) (attempt_count cfg.max_retries) 0 w
