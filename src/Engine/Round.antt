-- ===== src/Engine/Round.antt =====
-- engine.go, runToolLoop: the parts of a round.
use go_debug_agent.Prelude.{
  ℕ, ◌+◌, Bool, true, false, ◌&&◌, not, List, [], ◌∷◌, ◌++◌, Option, none, some, ltb, ◌==◌,
  if◌then◌else◌, is_empty,
}
use go_debug_agent.Prelude.Result.{Result, ok, err}
use go_debug_agent.Prelude.Text.{Text, ascii, decimal, cut}
use go_debug_agent.Chat.Message.{
  ChatMessage, ToolCall, TokenUsage, system_role, assistant_role, tool_role,
}
use go_debug_agent.Chat.Session.{record_token_usage, get_current_context_tokens}
use go_debug_agent.Compressor.Compress.{CompressionResult, needs_compression, compress}
use go_debug_agent.Compressor.Summary.{plain, newline}
use go_debug_agent.Llm.Types.{StreamEvent, on_stream_complete, on_stream_error, error_text}
use go_debug_agent.Registry.Tools.{all_schemas, execute_tool}
use go_debug_agent.Engine.Types.{
  Callback, on_content, on_tool_start, on_tool_result, on_complete, on_error, on_context_compressed,
  Runtime, DebugEngine, Turn, emit, add, Step, again, done, crashed, stuck,
}

-- The notice of a compression; 0xE2 0x86 0x92 is an arrow in UTF-8.
unfoldable pub compression_notice : CompressionResult → Text
compression_notice r =
    newline
    ++ newline
    ++ ascii "> [Context auto-compressed: "
    ++ decimal r.original_tokens
    ++ (32 ∷ 0xE2 ∷ 0x86 ∷ 0x92 ∷ [])
    ++ ascii " ~"
    ++ decimal r.compressed_tokens
    ++ ascii " tokens ("
    ++ r.strategy
    ++ ascii ")]"
    ++ newline
    ++ newline

unfoldable pub no_analysis_prompt : Text
no_analysis_prompt =
    ascii "You just completed diagnostic tool calls but returned no analysis. "
    ++ ascii "Based on the tool results above, please provide a clear summary "
    ++ ascii "of your findings and actionable recommendations."

-- The variables that the stream handler of a round writes; `released` counts wg.Done.
pub record Holder : Type 0 where
  pub content : Text
  pub tool_calls : List ToolCall
  pub usage : Option TokenUsage
  pub had_error : Bool
  pub released : ℕ
  pub calls : List Callback

abbrev pub holder_start : Holder
holder_start = record {
  content = [];
  tool_calls = [];
  usage = none;
  had_error = false;
  released = 0;
  calls = [];
}

unfoldable pub handle : Holder → StreamEvent → Holder
handle h (StreamEvent.on_content chunk) = record h {
  content = h.content ++ chunk;
  calls = h.calls ++ on_content chunk ∷ [];
}
handle h (on_stream_complete tool_calls reason usage) = record h {
  tool_calls = tool_calls;
  usage = usage;
  released = h.released + 1;
}
handle h (on_stream_error e) = record h {
  had_error = true;
  calls = h.calls ++ on_error (ascii "LLM API error: " ++ error_text e) ∷ [];
  released = h.released + 1;
}

unfoldable pub handle_all : Holder → List StreamEvent → Holder
handle_all h [] = h
handle_all h (e ∷ es) = handle_all (handle h e) es

-- A message of the assistant.
abbrev pub assistant : Text → List ToolCall → ChatMessage
assistant content calls = record {
  role = assistant_role;
  content = content;
  tool_calls = calls;
  tool_call_id = [];
}

-- The usage of a round goes to the session.
unfoldable pub with_usage : {W : Type 0} → Option TokenUsage → Turn W → Turn W
with_usage usage t = record t { session = record_token_usage usage t.session }

module _ {W A X : Type 0} (run : Runtime W A X) (e : DebugEngine W A X) where
  -- The compression check at the head of a round.
  unfoldable pub report_compression : Option CompressionResult → Turn W → Turn W
  report_compression none t = t
  report_compression (some r) t =
      emit (on_context_compressed r.original_tokens r.compressed_tokens r.removed_rounds)
        (emit (on_content (compression_notice r)) t)

  unfoldable pub check_context : ℕ → Turn W → Turn W
  check_context round t =
      if ltb 0 round
        && needs_compression e.context_compressor (get_current_context_tokens t.session)
      then (let (result, session, w) =
            compress run.now e.llm.ask e.context_compressor t.session t.world in
          report_compression result (record t { session = session; world = w }))
      else t

  -- The stream of a round: the holder after it, with its callbacks made.
  unfoldable pub stream_round : Turn W → Holder × Turn W
  stream_round t =
      let (visited, w) = run.range_tools e.tools t.world in
      let (events, w') =
        e.llm.stream (plain system_role e.system_prompt ∷ t.session.messages)
          (some (all_schemas run.range_params visited)) (some (ascii "auto")) w in
      let h = handle_all holder_start events in
      (h, record t { calls = t.calls ++ h.calls; world = w' })

  -- The body of the loop over the tool calls. `err` is the panic of a tool, and what it leaves.
  unfoldable pub run_tool_call : ToolCall → Turn W → Result (Turn W) (Turn W)
  run_tool_call tc t =
      let arguments = tc.function.arguments in
      let args = if is_empty arguments then run.no_args else run.unmarshal_args arguments in
      let t' = emit (on_tool_start tc.function.name arguments) t in
      let (answer, w) = execute_tool e.tools tc.function.name args t'.world in
      elim answer [
        | none ↦ err (record t' { world = w })
        | some result ↦
            let result_text = cut 12000 (run.marshal result) in
            ok (
              add run.now
                (record {
                  role = tool_role;
                  content = result_text;
                  tool_calls = [];
                  tool_call_id = tc.id;
                })
                (emit (on_tool_result tc.function.name result_text) (record t' { world = w })))
      ]

  unfoldable pub run_tool_calls : List ToolCall → Turn W → Result (Turn W) (Turn W)
  run_tool_calls [] t = ok t
  run_tool_calls (tc ∷ tcs) t = elim (run_tool_call tc t) [
    | ok t' ↦ run_tool_calls tcs t'
    | err t' ↦ err t'
  ]

  -- From the answer with tool calls on, which the session has by now.
  unfoldable pub call_tools : List ToolCall → Turn W → Step W
  call_tools tcs t = elim (run_tool_calls tcs t) [ ok t' ↦ again false t' | err t' ↦ crashed t' ]

  -- An answer with no tool calls: asked for a summary once where it is empty, final otherwise.
  unfoldable pub finish_round : ℕ → Bool → Holder → Turn W → Step W
  finish_round round empty_retried h t =
      if is_empty h.content && not empty_retried && ltb 0 round
      then again true
          (add run.now (plain system_role no_analysis_prompt) (add run.now (assistant [] []) t))
      else done (emit on_complete (add run.now (assistant h.content []) t))

  unfoldable pub after_stream : ℕ → Bool → Holder → Turn W → Step W
  after_stream round empty_retried h t =
      if is_empty h.tool_calls
      then finish_round round empty_retried h t
      else call_tools h.tool_calls (add run.now (assistant h.content h.tool_calls) t)

  -- From wg.Wait on.
  unfoldable pub after_wait : ℕ → Bool → Holder → Turn W → Step W
  after_wait round empty_retried h t =
      if h.released == 1
      then (if h.had_error
          then done t
          else after_stream round empty_retried h (with_usage h.usage t))
      else stuck

  unfoldable pub run_round : ℕ → Bool → Turn W → Step W
  run_round round empty_retried t =
      let (h, t') = stream_round (check_context round t) in after_wait round empty_retried h t'
