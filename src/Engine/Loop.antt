-- ===== src/Engine/Loop.antt =====
-- engine.go: runToolLoop, and the sessions: getOrCreateSession, Chat and ClearSession.
use go_debug_agent.Prelude.{
  ℕ, zero, suc, ◌+◌, Bool, false, List, [], ◌∷◌, ◌++◌, none, some, ◌==◌, if◌then◌else◌, is_empty,
}
use go_debug_agent.Prelude.Map
use go_debug_agent.Prelude.Map.{text_key}
use go_debug_agent.Prelude.Text.{Text, ascii}
use go_debug_agent.Chat.Message.{system_role, user_role}
use go_debug_agent.Chat.Session.{ChatSession, new_chat_session, record_token_usage, clear}
use go_debug_agent.Compressor.Summary.{plain, newline}
use go_debug_agent.Llm.Types.{StreamEvent, on_stream_complete, on_stream_error}
use go_debug_agent.Engine.Types.{
  Callback, on_content, on_complete, Runtime, DebugEngine, Turn, emit, add, again, done, crashed,
  stuck, Ending, returned, panicked, hung,
}
use go_debug_agent.Engine.Round.{run_round}

unfoldable pub max_rounds_prompt : Text
max_rounds_prompt =
    ascii "You have reached the maximum number of tool-calling rounds. "
    ++ ascii "Based on all the diagnostic data you have gathered so far, "
    ++ ascii "provide a comprehensive analysis and actionable recommendations NOW. "
    ++ ascii "Do not attempt to call more tools."

unfoldable pub limit_notice : Text
limit_notice =
    newline
    ++ newline
    ++ ascii "*I've gathered diagnostic data from multiple tools but reached the analysis limit.*"

-- The session and the callbacks that the handler of the final stream changes; `released` counts
-- wg.Done.
pub record FinalHolder : Type 0 where
  pub session : ChatSession
  pub released : ℕ
  pub calls : List Callback

unfoldable pub handle_final : FinalHolder → StreamEvent → FinalHolder
handle_final h (StreamEvent.on_content chunk) = record h {
  calls = h.calls ++ on_content chunk ∷ [];
}
handle_final h (on_stream_complete tool_calls reason usage) = record h {
  session = record_token_usage usage h.session;
  released = h.released + 1;
}
handle_final h (on_stream_error e) = record h {
  calls = h.calls ++ on_content limit_notice ∷ [];
  released = h.released + 1;
}

unfoldable pub handle_final_all : FinalHolder → List StreamEvent → FinalHolder
handle_final_all h [] = h
handle_final_all h (e ∷ es) = handle_final_all (handle_final h e) es

module _ {W A X : Type 0} (run : Runtime W A X) (e : DebugEngine W A X) where
  -- What follows the loop: the forced summary. `hung` is a WaitGroup that never comes to zero or
  -- falls below it.
  unfoldable pub force_summary : Turn W → Ending (Turn W)
  force_summary t =
      let (events, w) =
        e.llm.stream
          (plain system_role e.system_prompt
            ∷ (t.session.messages ++ plain system_role max_rounds_prompt ∷ []))
          (some []) (some (ascii "none")) t.world in
      let h =
        handle_final_all (record { session = t.session; released = 0; calls = t.calls }) events in
      if h.released == 1
      then returned (emit on_complete (record { session = h.session; calls = h.calls; world = w }))
      else hung

  -- The rounds that are left, from round `round` on.
  unfoldable pub run_rounds : ℕ → ℕ → Bool → Turn W → Ending (Turn W)
  run_rounds zero round empty_retried t = force_summary t
  run_rounds (suc left) round empty_retried t = elim (run_round run e round empty_retried t) [
    | again retried t' ↦ run_rounds left (round + 1) retried t'
    | done t' ↦ returned t'
    | crashed t' ↦ panicked t'
    | stuck ↦ hung
  ]

  unfoldable pub run_tool_loop : Turn W → Ending (Turn W)
  run_tool_loop t = run_rounds e.max_tool_rounds 0 false t

-- The key of a session: "default" for the empty one.
unfoldable pub session_key : Text → Text
session_key session_id = if is_empty session_id then ascii "default" else session_id

-- The sessions, the calls and the world after a chat. The map is of pointers: what the loop does to a
-- session is there under its key.
unfoldable pub chat_end :
    {W : Type 0}
    → Text
    → List (Text × ChatSession)
    → Turn W
    → List (Text × ChatSession) × List Callback × W
chat_end session_id sessions t =
    (Map.insert (session_key session_id) t.session sessions, t.calls, t.world)

module _ {W A X : Type 0} (run : Runtime W A X) where
  -- The session under the key, and the sessions with it.
  unfoldable pub get_or_create_session :
      Text → List (Text × ChatSession) → W → ChatSession × List (Text × ChatSession) × W
  get_or_create_session session_id sessions w =
      let key = session_key session_id in
      elim (Map.lookup key sessions) [
        | some session ↦ (session, sessions, w)
        | none ↦
            let (time, w') = run.now w in
            let session = new_chat_session time key in
            (session, Map.insert key session sessions, w')
      ]

  -- Chat: the sessions, the calls of the callback and the world after it.
  unfoldable pub chat :
      DebugEngine W A X
      → Text
      → Text
      → List (Text × ChatSession)
      → W
      → Ending (List (Text × ChatSession) × List Callback × W)
  chat e user_message session_id sessions w =
      let (session, sessions', w') = get_or_create_session session_id sessions w in
      let t =
        add run.now (plain user_role user_message)
          (record { session = session; calls = []; world = w' }) in
      elim (run_tool_loop run e t) [
        | returned t' ↦ returned (chat_end session_id sessions' t')
        | panicked t' ↦ panicked (chat_end session_id sessions' t')
        | hung ↦ hung
      ]

  unfoldable pub clear_session :
      Text → List (Text × ChatSession) → W → List (Text × ChatSession) × W
  clear_session session_id sessions w = elim (Map.lookup session_id sessions) [
    | none ↦ (sessions, w)
    | some session ↦
        let (time, w') = run.now w in (Map.insert session_id (clear time session) sessions, w')
  ]
