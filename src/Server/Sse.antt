-- ===== src/Server/Sse.antt =====
-- middleware.go: sseCallback, which writes each call of the engine's callback as an event.
use go_debug_agent.Prelude.{ℕ, List, [], ◌∷◌, ◌++◌}
use go_debug_agent.Prelude.Text.{Text, ascii}
use go_debug_agent.Engine.Types.{
  Callback, on_content, on_tool_start, on_tool_result, on_complete, on_error, on_context_compressed,
}

-- json.Marshal of a string, and of the map of the three counts.
pub record SseJson : Type 0 where
  pub marshal_text : Text → Text
  pub marshal_counts : ℕ → ℕ → ℕ → Text

-- The event and the data of a call.
pub record Frame : Type 0 where
  pub event : Text
  pub body : Text

-- fmt.Fprintf(c.w, "event: %s\ndata: %s\n\n", event, data)
unfoldable pub write : Frame → Text
write f = ascii "event: " ++ (f.event ++ 10 ∷ (ascii "data: " ++ (f.body ++ 10 ∷ 10 ∷ [])))

module _ (json : SseJson) where
  -- The six methods of the callback.
  unfoldable pub frame_of : Callback → Frame
  frame_of (on_content chunk) = record { event = ascii "content"; body = json.marshal_text chunk }
  frame_of (on_tool_start tool_name args) = record { event = ascii "tool_start"; body = tool_name }
  frame_of (on_tool_result tool_name result) = record {
    event = ascii "tool_result";
    body = tool_name ++ ascii ": " ++ result;
  }
  frame_of on_complete = record { event = ascii "done"; body = [] }
  frame_of (on_error message) = record { event = ascii "error"; body = message }
  frame_of (on_context_compressed original compressed removed_rounds) = record {
    event = ascii "context_compressed";
    body = json.marshal_counts original compressed removed_rounds;
  }

  unfoldable pub write_all : List Callback → Text
  write_all [] = []
  write_all (c ∷ cs) = write (frame_of c) ++ write_all cs
