-- ===== src/Llm/Types.antt =====
-- llm_client.go and config.go: the client's configuration, what it sends, what comes back, and what
-- it takes from the network, the JSON and line readers, the clock and the random numbers.
use go_debug_agent.Prelude.{ℕ, Bool, List, Option}
use go_debug_agent.Prelude.Int.{ℤ}
use go_debug_agent.Prelude.Result.{Result}
use go_debug_agent.Prelude.Text.{Text}
use go_debug_agent.Chat.Message.{ChatMessage, ToolCall, TokenUsage}
use go_debug_agent.Registry.Value.{Value}

-- The temperature is counted in thousandths.
pub record LlmConfig : Type 0 where
  pub base_url : Text
  pub api_key : Text
  pub model : Text
  pub temperature : ℕ
  pub max_tokens : ℕ
  pub max_tool_rounds : ℕ
  pub timeout_seconds : ℕ
  pub max_retries : ℤ
  pub retry_base_delay_ms : ℕ
  pub retry_max_delay_ms : ℕ
  pub context_window_tokens : ℕ

-- The errors of the client: `retriableErr` with its status, and every other error.
pub data LlmError : Type 0 where
  retriable : ℕ → Text → LlmError
  other : Text → LlmError

-- err.Error()
unfoldable pub error_text : LlmError → Text
error_text (retriable status_code msg) = msg
error_text (other msg) = msg

pub record Choice : Type 0 where
  pub message : ChatMessage
  pub finish_reason : Text

pub record ChatResponse : Type 0 where
  pub choices : List Choice
  pub usage : Option TokenUsage

pub record StreamOptions : Type 0 where
  pub include_usage : Bool

pub record ChatRequest (X : Type 0) : Type 0 where
  pub model : Text
  pub messages : List ChatMessage
  pub temperature : ℕ
  pub max_tokens : ℕ
  pub stream : Bool
  pub stream_options : Option StreamOptions
  pub tools : Option (List (Value X))
  pub tool_choice : Option Text

-- The calls of a StreamHandler.
pub data StreamEvent : Type 0 where
  on_content : Text → StreamEvent
  on_stream_complete : List ToolCall → Text → Option TokenUsage → StreamEvent
  on_stream_error : LlmError → StreamEvent

-- A chunk of the stream, decoded.
pub record ToolCallDelta : Type 0 where
  pub index : ℤ
  pub id : Text
  pub type : Text
  pub name : Text
  pub arguments : Text

pub record Delta : Type 0 where
  pub content : Text
  pub tool_calls : List ToolCallDelta

pub record ChunkChoice : Type 0 where
  pub delta : Delta
  pub finish_reason : Text

pub record Chunk : Type 0 where
  pub choices : List ChunkChoice
  pub usage : Option TokenUsage

pub record HttpRequest : Type 0 where
  pub url : Text
  pub authorization : Text
  pub content_type : Text
  pub body : Text

-- A response, with the bytes of its body up to its end or to the error that cut it off.
pub record HttpResponse : Type 0 where
  pub status_code : ℕ
  pub body : Text
  pub read_error : Option Text

-- What the client takes from elsewhere. `send` is http.NewRequest and http.Client.Do, `scan` the
-- lines of a bufio.Scanner, `intn` rand.Intn of a positive number, `sleep` time.Sleep of
-- nanoseconds; the others are json.Marshal and json.Unmarshal.
pub record Network (W X : Type 0) : Type 0 where
  pub send : HttpRequest → W → Result Text HttpResponse × W
  pub marshal : ChatRequest X → Text
  pub unmarshal_chunk : Text → Option Chunk
  pub unmarshal_response : Text → Result Text ChatResponse
  pub scan : Text → List Text
  pub intn : ℕ → W → ℕ × W
  pub sleep : ℤ → W → W
