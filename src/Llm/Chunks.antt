-- ===== src/Llm/Chunks.antt =====
-- llm_client.go, streamRequest: the loop over the lines of a stream, which puts the fragments of the
-- tool calls together.
use go_debug_agent.Prelude.{
  ℕ, zero, suc, ◌+◌, ◌||◌, not, List, [], ◌∷◌, ◌++◌, Option, none, some, ltb, if◌then◌else◌, length,
  is_empty,
}
use go_debug_agent.Prelude.Int.{ℤ, pos}
use go_debug_agent.Prelude.Map
use go_debug_agent.Prelude.Map.{int_key}
use go_debug_agent.Prelude.Text.{Text, ascii, text_eq, has_prefix, trim_prefix}
use go_debug_agent.Chat.Message.{ToolCall, TokenUsage}
use go_debug_agent.Llm.Types.{
  Chunk, ChunkChoice, ToolCallDelta, StreamEvent, on_content, on_stream_complete,
}

-- &toolCall{Type: "function", Function: toolFunction{}}
abbrev pub new_call : ToolCall
new_call = record {
  id = [];
  type = ascii "function";
  function = record { name = []; arguments = [] };
}

-- The three conditional assignments to an entry.
unfoldable pub extend_call : ToolCallDelta → ToolCall → ToolCall
extend_call tc entry = record entry {
  id = if is_empty tc.id then entry.id else tc.id;
  function = record {
    name = if is_empty tc.name then entry.function.name else entry.function.name ++ tc.name;
    arguments =
        if is_empty tc.arguments
        then entry.function.arguments
        else entry.function.arguments ++ tc.arguments;
  };
}

abbrev pub CallMap : Type 0
CallMap = List (ℤ × ToolCall)

-- toolCallMap[index], made where it is missing.
abbrev pub entry_of : Option ToolCall → ToolCall
entry_of none = new_call
entry_of (some entry) = entry

unfoldable pub apply_delta : CallMap → ToolCallDelta → CallMap
apply_delta calls tc =
    Map.insert tc.index (extend_call tc (entry_of (Map.lookup tc.index calls))) calls

unfoldable pub apply_deltas : CallMap → List ToolCallDelta → CallMap
apply_deltas calls [] = calls
apply_deltas calls (tc ∷ tcs) = apply_deltas (apply_delta calls tc) tcs

pub record StreamState : Type 0 where
  pub tool_call_map : CallMap
  pub finish_reason : Text
  pub usage : Option TokenUsage
  pub events : List StreamEvent

-- A usage record counts if its prompt tokens are positive.
unfoldable pub note_usage : Option TokenUsage → Option TokenUsage → Option TokenUsage
note_usage none old = old
note_usage (some u) old = if ltb 0 u.prompt_tokens then some u else old

unfoldable pub read_choice : StreamState → ChunkChoice → StreamState
read_choice st choice = record {
  tool_call_map = apply_deltas st.tool_call_map choice.delta.tool_calls;
  finish_reason = if is_empty choice.finish_reason then st.finish_reason else choice.finish_reason;
  usage = st.usage;
  events =
      if is_empty choice.delta.content
      then st.events
      else st.events ++ on_content choice.delta.content ∷ [];
}

unfoldable pub read_choices : StreamState → List ChunkChoice → StreamState
read_choices st [] = st
read_choices st (choice ∷ _) = read_choice st choice

unfoldable pub read_chunk : StreamState → Chunk → StreamState
read_chunk st chunk =
    read_choices (record st { usage = note_usage chunk.usage st.usage }) chunk.choices

abbrev pub data_prefix : Text
data_prefix = ascii "data: "

module _ (unmarshal_chunk : Text → Option Chunk) where
  unfoldable pub read_data : StreamState → Text → StreamState
  read_data st text =
      if text_eq text (ascii "[DONE]")
      then st
      else elim (unmarshal_chunk text) [ none ↦ st | some chunk ↦ read_chunk st chunk ]

  -- The body of the loop.
  unfoldable pub read_line : StreamState → Text → StreamState
  read_line st line =
      if is_empty line || not (has_prefix line data_prefix)
      then st
      else read_data st (trim_prefix line data_prefix)

  unfoldable pub read_lines : StreamState → List Text → StreamState
  read_lines st [] = st
  read_lines st (line ∷ lines) = read_lines (read_line st line) lines

-- The loop that collects the calls by index: `left` of its rounds, from index `i`.
unfoldable pub collect_from : ℕ → ℕ → CallMap → List ToolCall
collect_from zero i calls = []
collect_from (suc left) i calls =
    let rest = collect_from left (i + 1) calls in
    elim (Map.lookup (pos i) calls) [
      | none ↦ rest
      | some tc ↦ if is_empty tc.function.name then rest else tc ∷ rest
    ]

unfoldable pub collect : CallMap → List ToolCall
unfolding collect_from
collect calls = collect_from (length calls) 0 calls

abbrev pub stream_start : StreamState
stream_start = record { tool_call_map = []; finish_reason = []; usage = none; events = [] }

-- The loop over the lines, and the call of OnStreamComplete after it.
unfoldable pub read_stream : (Text → Option Chunk) → List Text → List StreamEvent
read_stream unmarshal_chunk lines =
    let st = read_lines unmarshal_chunk stream_start lines in
    st.events ++ on_stream_complete (collect st.tool_call_map) st.finish_reason st.usage ∷ []
