-- ===== src/Tests/Data.antt =====
-- What the runs share: messages, a session, a registry, and a world that counts the requests.
use go_debug_agent.Prelude.{ℕ, zero, suc, ◌+◌, refl, arith, List, [], ◌∷◌, none, some, true}
use go_debug_agent.Prelude.Result.{Result, ok, err}
use go_debug_agent.Prelude.Text.{Text, ascii}
use go_debug_agent.Chat.Message.{
  ChatMessage, ToolCall, TokenUsage, user_role, assistant_role, tool_role,
}
use go_debug_agent.Chat.Session.{ChatSession}
use go_debug_agent.Compressor.Summary.{plain}
use go_debug_agent.Compressor.Compress.{ContextCompressor}
use go_debug_agent.Llm.Types.{
  LlmError, other, ChatResponse, StreamEvent, on_content, on_stream_complete,
}
use go_debug_agent.Llm.Client.{Client, IsClient}
use go_debug_agent.Llm.Handler.{IsStream}
use go_debug_agent.Registry.Value.{str}
use go_debug_agent.Registry.Tools.{ToolParam, ToolFunc, Registry, execute_tool}
use go_debug_agent.Engine.Types.{Runtime, DebugEngine}
use go_debug_agent.Engine.Rounds.{Panics}
use go_debug_agent.Prelude.Map
use go_debug_agent.Prelude.Map.{text_key}

abbrev pub call : ToolCall
call = record {
  id = ascii "call_1";
  type = ascii "function";
  function = record { name = ascii "get_mem"; arguments = ascii "{}" };
}

abbrev pub asked : ChatMessage
asked = record { role = assistant_role; content = []; tool_calls = call ∷ []; tool_call_id = [] }

abbrev pub answer : ChatMessage
answer = record {
  role = tool_role;
  content = ascii "{}";
  tool_calls = [];
  tool_call_id = ascii "call_1";
}

abbrev pub conversation : List ChatMessage
conversation =
    plain user_role (ascii "memory?")
    ∷ asked
    ∷ answer
    ∷ plain assistant_role (ascii "fine")
    ∷ plain user_role (ascii "threads?")
    ∷ []

abbrev pub usage : TokenUsage
usage = record { prompt_tokens = 90; completion_tokens = 5; total_tokens = 95 }

abbrev pub old_session : ChatSession
old_session = record {
  session_id = ascii "s";
  messages = conversation;
  created_at = 0;
  last_active_at = 0;
  last_token_usage = some usage;
  cumulative_prompt_tokens = 90;
  cumulative_completion_tokens = 5;
}

abbrev pub small_window : ContextCompressor
small_window = record { max_context_tokens = 100; recent_rounds_to_keep = 1 }

abbrev pub now : ℕ → ℕ × ℕ
now w = (w, w)

abbrev pub unreachable_model : List ChatMessage → ℕ → Result LlmError ChatResponse × ℕ
unreachable_model messages w = (err (other (ascii "down")), w + 1)

abbrev pub memory_tool : ToolFunc ℕ Text Unit
memory_tool args w = (some (ok (str (ascii "4 MB"))), w)

abbrev pub memory_params : List (Text × ToolParam)
memory_params =
    (
      ascii "unit",
      record { type = ascii "string"; description = ascii "unit of the sizes"; required = true },
    )
    ∷ []

abbrev pub memory_registry : Registry ℕ Text Unit
memory_registry =
    (
      ascii "get_mem",
      record {
        name = ascii "get_mem";
        description = ascii "memory";
        func = memory_tool;
        params = memory_params;
      },
    )
    ∷ []

-- The first answer calls the tool, the others are text.
abbrev answers : ℕ → List StreamEvent
answers zero = on_stream_complete (call ∷ []) (ascii "tool_calls") none ∷ []
answers (suc n) = on_content (ascii "fine") ∷ on_stream_complete [] (ascii "stop") (some usage) ∷ []

pub answers-IsStream : (w : ℕ) → IsStream (answers w)
answers-IsStream zero = refl
answers-IsStream (suc n) = refl

abbrev pub model : Client ℕ Unit
model = record { stream = λ messages tools choice w. (answers w, w + 1); ask = unreachable_model }

pub model-IsClient : IsClient model
model-IsClient messages tools choice w = answers-IsStream w

-- No tool of the registry panics.
pub memory_registry-NoPanic : ¬ Panics memory_registry
unfolding execute_tool Map.lookup
memory_registry-NoPanic (name, args, w, eq) = ground arith

abbrev pub runtime : Runtime ℕ Text Unit
runtime = record {
  now = now;
  range_tools = λ tools w. (tools, w);
  range_params = λ params. params;
  no_args = [];
  unmarshal_args = λ text. text;
  marshal = λ value. ascii "{}";
}

abbrev pub engine : DebugEngine ℕ Text Unit
engine = record {
  max_tool_rounds = 3;
  system_prompt = ascii "You debug Go programs.";
  context_compressor = small_window;
  llm = model;
  tools = memory_registry;
}
