-- ===== src/Llm/Client.antt =====
-- The client as the engine sees it: functions that return, and the handler calls that they make.
-- Filled by ChatStream and ChatNonStreaming where the delays fit.
use go_debug_agent.Prelude.{
  ℕ, zero, suc, ◌+◌, ◌≤◌, ◌<◌, ◌≡◌, refl, ◌&&◌, List, Option, none, some, arith, Bool-cases, inl,
  inr,
}
use go_debug_agent.Prelude.Int.{exceeds}
use go_debug_agent.Prelude.Result.{Result, ok, err, Result-cases}
use go_debug_agent.Prelude.Text.{Text}
use go_debug_agent.Chat.Message.{ChatMessage}
use go_debug_agent.Registry.Value.{Value}
use go_debug_agent.Llm.Types.{LlmConfig, LlmError, ChatRequest, ChatResponse, Network, StreamEvent}
use go_debug_agent.Llm.Delay.{DelaysFit, calculate_delay_returns}
use go_debug_agent.Llm.Retry.{
  is_retriable_err, post, post_attempts, post_with_retry, chat_non_streaming,
}
use go_debug_agent.Llm.Stream.{chat_stream}
use go_debug_agent.Llm.Handler.{IsStream, chat_stream-Streams}

pub record Client (W X : Type 0) : Type 0 where
  pub stream : List ChatMessage → Option (List (Value X)) → Option Text → W → List StreamEvent × W
  pub ask : List ChatMessage → W → Result LlmError ChatResponse × W

-- What the engine relies on: a stream is contents and then one completion or error.
abbrev pub IsClient : {W X : Type 0} → Client W X → Type 0
IsClient {W} {X} llm =
    (messages : List ChatMessage) (tools : Option (List (Value X))) (tool_choice : Option Text)
    (w : W)
    → IsStream (llm.stream messages tools tool_choice w).0

module _ {W X : Type 0} (net : Network W X) (cfg : LlmConfig)
    (rand : (n : ℕ) (v : W) → 1 ≤ n → (net.intn n v).0 < n) (fit : DelaysFit cfg) where
  post_attempts_total :
      (path : Text) (body : ChatRequest X) (left attempt : ℕ) (w : W)
      → (r : Result LlmError ChatResponse) × (v : W) × (post_attempts net cfg path body left attempt
            w
          ≡ some (r, v))
  unfolding post_attempts
  post_attempts_total path body zero attempt w = (_, w, refl)
  post_attempts_total path body (suc left) attempt w =
      elim (Result-cases (post net cfg path body w).0) [
        | inl (response, e) ↦
            (ok response, (post net cfg path body w).1, rw (e, post_attempts) refl)
        | inr (failure, e) ↦
            elim (Bool-cases (is_retriable_err failure && exceeds cfg.max_retries attempt)) [
              | inr stop ↦
                  (err failure, (post net cfg path body w).1, rw (e, stop, post_attempts) refl)
              | inl more ↦
                  let v = (post net cfg path body w).1 in
                  let (d, u, delay) =
                    calculate_delay_returns net cfg attempt v rand fit (ground arith) in
                  let (r, x, rest) =
                    post_attempts_total path body left (attempt + 1) (net.sleep d u) in
                  (r, x, rw (e, more, delay, post_attempts) rest)
            ]
      ]

  chat_non_streaming_total :
      (messages : List ChatMessage) (tools : Option (List (Value X))) (w : W)
      → (r : Result LlmError ChatResponse) × (v : W) × (chat_non_streaming net cfg messages tools w
          ≡ some (r, v))
  unfolding chat_non_streaming post_with_retry
  chat_non_streaming_total messages tools w = post_attempts_total _ _ _ 0 w

  -- The functions that the totality proofs contain.
  pub llm_client : Client W X
  llm_client = record {
    stream = λ messages tools tool_choice w.
        let r = chat_stream-Streams net cfg rand fit messages tools tool_choice w in (r.0, r.1);
    ask = λ messages w. let r = chat_non_streaming_total messages none w in (r.0, r.1);
  }

  -- The code's client, where its delays fit, is what the engine relies on.
  pub llm_client-IsClient : IsClient llm_client
  unfolding llm_client
  llm_client-IsClient messages tools tool_choice w =
      (chat_stream-Streams net cfg rand fit messages tools tool_choice w).3

  -- The client of the engine is the code's: each call returns what ChatStream or ChatNonStreaming
  -- returns.
  pub llm_client-chat_stream :
      (messages : List ChatMessage) (tools : Option (List (Value X))) (tool_choice : Option Text)
      (w : W)
      → (chat_stream net cfg messages tools tool_choice w
          ≡ some (llm_client.stream messages tools tool_choice w))
        × (chat_non_streaming net cfg messages none w ≡ some (llm_client.ask messages w))
  unfolding llm_client
  llm_client-chat_stream messages tools tool_choice w = (
    (chat_stream-Streams net cfg rand fit messages tools tool_choice w).2,
    (chat_non_streaming_total messages none w).2,
  )
