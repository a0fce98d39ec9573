-- ===== src/Engine/Rounds.antt =====
-- A round of runToolLoop, from the context check to the answers of the tools.
use go_debug_agent.Prelude.{
  ℕ, ◌≡◌, refl, ◌⊎◌, inl, inr, Bool, true, false, ◌&&◌, List, [], ◌∷◌, ◌++◌, map, All-append,
  Option, none, some, Bool-cases, Option-cases, ltb, is_empty, not, if◌then◌else◌,
}
use go_debug_agent.Prelude.Text.{Text, ascii, text_eq, length-cut}
use go_debug_agent.Chat.Message.{ToolCall, has_role, system_role}
use go_debug_agent.Chat.Session.{
  add_message, record_token_usage-messages, get_current_context_tokens,
}
use go_debug_agent.Compressor.Compress.{CompressionResult, needs_compression}
use go_debug_agent.Compressor.Pairing.{compress-Paired, compress-All}
use go_debug_agent.Compressor.Summary.{plain}
use go_debug_agent.Chat.Protocol.{Paired}
use go_debug_agent.Prelude.Result.{Result, ok, err, Result-cases}
use go_debug_agent.Llm.Client.{IsClient}
use go_debug_agent.Registry.Tools.{Registry, all_schemas, execute_tool}
use go_debug_agent.Engine.Types.{
  Callback, Runtime, DebugEngine, Turn, emit, add, Step, again, done, crashed, stuck,
}
use go_debug_agent.Engine.Round.{
  Holder, holder_start, handle_all, report_compression, check_context, stream_round, run_tool_call,
  run_tool_calls, call_tools, assistant, finish_round, after_stream, with_usage, after_wait,
  run_round,
}
use go_debug_agent.Engine.Output.{
  IsOpen, IsClosed, IsOpen-snoc, IsClosed-snoc, IsClosed-append, IsSettled, handle_all-IsSettled,
}
use go_debug_agent.Engine.Invariant.{
  IsShort, IsOrdered, Awaits, Awaits-IsOrdered, Awaits-unanswered, NoTool, IsOrdered-ask,
  Awaits-answer, plain-IsShort, IsRunning, IsOver, add-IsRunning, emit-IsRunning,
}

-- A call of a tool with some arguments, in some world, panics.
abbrev pub Panics : {W A X : Type 0} → Registry W A X → Type 0
Panics {W} {A} tools =
    (name : Text) × (args : A) × (w : W) × ((execute_tool tools name args w).0 ≡ none)

module _ {W A X : Type 0} (run : Runtime W A X) (e : DebugEngine W A X)
    (client : IsClient e.llm) where
  report_compression-IsRunning :
      (r : Option CompressionResult) (t : Turn W)
      → IsRunning t
      → IsRunning (report_compression run e r t)
  unfolding report_compression
  report_compression-IsRunning none t h = h
  report_compression-IsRunning (some r) t h = emit-IsRunning _ _ refl (emit-IsRunning _ t refl h)

  check_context-IsRunning :
      (round : ℕ) (t : Turn W) → IsRunning t → IsRunning (check_context run e round t)
  unfolding check_context
  check_context-IsRunning round t h =
      elim (Bool-cases (
        ltb 0 round
        && needs_compression e.context_compressor (get_current_context_tokens t.session))) [
          | inr no_need ↦ rw no_need h
          | inl need ↦ rw need (
              report_compression-IsRunning _ _ (record {
                open_calls = h.open_calls;
                ordered = record {
                  paired =
                      compress-Paired run.now e.llm.ask e.context_compressor t.session t.world
                        h.ordered.paired;
                  short =
                      compress-All run.now e.llm.ask e.context_compressor t.session t.world IsShort
                        plain-IsShort h.ordered.short;
                };
              }))
        ]

  -- The tool calls `ids` are still to be answered.
  record IsCalling (ids : List Text) (t : Turn W) : Type 0 where
    open_calls : IsOpen t.calls
    awaits : Awaits ids t.session.messages

  -- A tool of the engine can panic, the page is told of no end, and a call has no answer.
  pub record IsCutShort (t : Turn W) : Type 0 where
    pub panics : Panics e.tools
    pub open_calls : IsOpen t.calls
    pub unanswered : ¬ Paired [] t.session.messages

  -- A call is answered, or its tool panics.
  IsCalled : List Text → Result (Turn W) (Turn W) → Type 0
  IsCalled ids (ok t) = IsCalling ids t
  IsCalled ids (err t) = IsCutShort t

  run_tool_call-IsCalled :
      (tc : ToolCall) (ids : List Text) (t : Turn W)
      → IsCalling (tc.id ∷ ids) t
      → IsCalled ids (run_tool_call run e tc t)
  unfolding run_tool_call emit add add_message IsCalled
  run_tool_call-IsCalled tc ids t c =
      let arguments = tc.function.arguments in
      let args = if is_empty arguments then run.no_args else run.unmarshal_args arguments in
      let started = IsOpen-snoc t.calls _ refl c.open_calls in
      elim (Option-cases (execute_tool e.tools tc.function.name args t.world).0) [
        | inl eq ↦
            rw (eq, run_tool_call)
              (record {
                panics = (tc.function.name, args, t.world, eq);
                open_calls = started;
                unanswered = Awaits-unanswered tc.id ids t.session.messages c.awaits;
              })
        | inr (result, eq) ↦
            rw (eq, run_tool_call)
              (record {
                open_calls = IsOpen-snoc _ _ refl started;
                awaits =
                    Awaits-answer tc.id ids t.session.messages _ (unfold has_role text_eq in refl)
                      refl (length-cut 12000 _) c.awaits;
              })
      ]

  run_tool_calls-IsCalled :
      (tcs : List ToolCall) (t : Turn W)
      → IsCalling (map (λ c. c.id) tcs) t
      → IsCalled [] (run_tool_calls run e tcs t)
  unfolding run_tool_calls IsCalled
  run_tool_calls-IsCalled [] t c = c
  run_tool_calls-IsCalled (tc ∷ tcs) t c =
      let called = run_tool_call-IsCalled tc (map (λ c. c.id) tcs) t c in
      elim (Result-cases (run_tool_call run e tc t)) [
        | inl (t', eq) ↦ rw (eq, run_tool_calls) (run_tool_calls-IsCalled tcs t' (rw eq at called))
        | inr (t', eq) ↦ rw (eq, run_tool_calls) (rw eq at called)
      ]

  -- A round goes on or ends in order, or a tool of it panics, and is never stuck.
  abbrev pub IsStep : Step W → Type 0
  IsStep (again retried t) = IsRunning t
  IsStep (done t) = IsOver t
  IsStep (crashed t) = IsCutShort t
  IsStep stuck = ⊥

  call_tools-IsStep :
      (tcs : List ToolCall) (t : Turn W)
      → IsCalling (map (λ c. c.id) tcs) t
      → IsStep (call_tools run e tcs t)
  unfolding call_tools IsCalled
  call_tools-IsStep tcs t c =
      let called = run_tool_calls-IsCalled tcs t c in
      elim (Result-cases (run_tool_calls run e tcs t)) [
        | inl (t', eq) ↦
            let c' : IsCalling [] t' = rw eq at called in
            rw (eq, call_tools)
              (record { open_calls = c'.open_calls; ordered = Awaits-IsOrdered _ c'.awaits })
        | inr (t', eq) ↦ rw (eq, call_tools) (rw eq at called)
      ]

  assistant-NoTool : (content : Text) (calls : List ToolCall) → NoTool (assistant content calls)
  unfolding has_role text_eq
  assistant-NoTool content calls = refl

  finish_round-IsStep :
      (round : ℕ) (retried : Bool) (h : Holder) (t : Turn W)
      → IsRunning t
      → IsStep (finish_round run e round retried h t)
  unfolding finish_round emit
  finish_round-IsStep round retried h t r =
      elim (Bool-cases (is_empty h.content && not retried && ltb 0 round)) [
        | inl c ↦ rw c (
            add-IsRunning run.now _ _ (unfold has_role text_eq in refl) refl
              (add-IsRunning run.now _ t (assistant-NoTool [] []) refl r))
        | inr c ↦
            let t' = add run.now (assistant h.content []) t in
            let r' = add-IsRunning run.now _ t (assistant-NoTool h.content []) refl r in
            rw c (record {
              closed_calls = IsClosed-snoc t'.calls _ refl r'.open_calls;
              ordered = r'.ordered;
            })
      ]

  asked-IsCalling :
      (content : Text) (tcs : List ToolCall) (t : Turn W)
      → IsRunning t
      → IsCalling (map (λ c. c.id) tcs) (add run.now (assistant content tcs) t)
  unfolding add add_message
  asked-IsCalling content tcs t r = record {
    open_calls = r.open_calls;
    awaits =
        IsOrdered-ask t.session.messages (assistant content tcs) (assistant-NoTool content tcs)
          r.ordered;
  }

  after_stream-IsStep :
      (round : ℕ) (retried : Bool) (h : Holder) (t : Turn W)
      → IsRunning t
      → IsStep (after_stream run e round retried h t)
  unfolding after_stream
  after_stream-IsStep round retried h t r = elim (Bool-cases (is_empty h.tool_calls)) [
    | inl c ↦ rw c (finish_round-IsStep round retried h t r)
    | inr c ↦ rw c (call_tools-IsStep h.tool_calls _ (asked-IsCalling h.content h.tool_calls t r))
  ]

  after_wait-IsStep :
      (round : ℕ) (retried : Bool) (h : Holder) (t : Turn W)
      → IsSettled h
      → IsOrdered t.session.messages
      → ((h.had_error ≡ false) × IsOpen t.calls) ⊎ ((h.had_error ≡ true) × IsClosed t.calls)
      → IsStep (after_wait run e round retried h t)
  unfolding after_wait with_usage
  after_wait-IsStep round retried h t s o (inl fine) =
      simp (s.once, fine.0)
        (after_stream-IsStep round retried h (with_usage h.usage t) (record {
          open_calls = fine.1;
          ordered = rw (record_token_usage-messages h.usage t.session) o;
        }))
  after_wait-IsStep round retried h t s o (inr broken) =
      simp (s.once, broken.0) (record { closed_calls = broken.1; ordered = o })

  joined :
      (earlier : List Callback) (h : Holder)
      → IsOpen earlier
      → ((h.had_error ≡ false) × IsOpen h.calls) ⊎ ((h.had_error ≡ true) × IsClosed h.calls)
      → ((h.had_error ≡ false) × IsOpen (earlier ++ h.calls))
        ⊎ ((h.had_error ≡ true) × IsClosed (earlier ++ h.calls))
  joined earlier h o (inl (n, p)) = inl (n, All-append _ earlier h.calls o p)
  joined earlier h o (inr (n, p)) = inr (n, IsClosed-append earlier h.calls o p)

  pub run_round-IsStep :
      (round : ℕ) (retried : Bool) (t : Turn W)
      → IsRunning t
      → IsStep (run_round run e round retried t)
  unfolding run_round stream_round
  run_round-IsStep round retried t r =
      let c = check_context run e round t in
      let rc = check_context-IsRunning round t r in
      let (visited, w) = run.range_tools e.tools c.world in
      let messages = plain system_role e.system_prompt ∷ c.session.messages in
      let schemas = some (all_schemas run.range_params visited) in
      let events = (e.llm.stream messages schemas (some (ascii "auto")) w).0 in
      let settled =
        handle_all-IsSettled holder_start events (client messages schemas (some (ascii "auto")) w)
          refl refl tt in
      after_wait-IsStep round retried _ _ settled rc.ordered
        (joined c.calls (handle_all holder_start events) rc.open_calls settled.outcome)
