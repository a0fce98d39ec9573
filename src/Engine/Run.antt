-- ===== src/Engine/Run.antt =====
-- engine.go: runToolLoop and Chat as wholes.
use go_debug_agent.Prelude.{
  ℕ, zero, suc, ◌+◌, ◌≡◌, refl, subst, ◌∙◌, ◌⊎◌, inl, inr, Bool, false, List, [], ◌∷◌, ◌++◌, arith,
  some, Option-cases, Bool-cases, ◌==◌, if◌then◌else◌,
}
use go_debug_agent.Prelude.Map
use go_debug_agent.Prelude.Map.{text_key}
use go_debug_agent.Prelude.Text.{Text, ascii, text_eq, text_eq_iff}
use go_debug_agent.Chat.Message.{has_role, system_role, user_role}
use go_debug_agent.Chat.Session.{ChatSession, new_chat_session}
use go_debug_agent.Compressor.Summary.{plain}
use go_debug_agent.Chat.Protocol.{Paired}
use go_debug_agent.Llm.Client.{IsClient}
use go_debug_agent.Engine.Types.{
  Callback, Runtime, DebugEngine, Turn, emit, add, Step, again, done, crashed, stuck, Ending,
  returned, panicked, hung,
}
use go_debug_agent.Engine.Round.{run_round}
use go_debug_agent.Engine.Loop.{
  FinalHolder, max_rounds_prompt, force_summary, run_rounds, run_tool_loop, session_key,
  get_or_create_session, chat, chat_end,
}
use go_debug_agent.Engine.Output.{IsOpen, IsClosed, IsClosed-snoc, handle_final_all_once}
use go_debug_agent.Engine.Invariant.{IsOrdered, IsRunning, IsOver, add-IsRunning}
use go_debug_agent.Engine.Rounds.{Panics, IsCutShort, run_round-IsStep, IsStep}

module _ {W A X : Type 0} (run : Runtime W A X) (e : DebugEngine W A X)
    (client : IsClient e.llm) where
  -- The run returns and is over in order, or a tool panics and cuts it short.
  abbrev pub Ends : Ending (Turn W) → Type 0
  Ends (returned t) = IsOver t
  Ends (panicked t) = IsCutShort run e client t
  Ends hung = ⊥

  released-Ends :
      (released : ℕ) (t : Turn W)
      → released ≡ 1
      → IsOver t
      → Ends (if released == 1 then returned t else hung)
  released-Ends released t one o = rw one o

  force_summary-Ends : (t : Turn W) → IsRunning t → Ends (force_summary run e t)
  unfolding force_summary emit
  force_summary-Ends t r =
      let messages =
        plain system_role e.system_prompt
        ∷ (t.session.messages ++ plain system_role max_rounds_prompt ∷ []) in
      let events = (e.llm.stream messages (some []) (some (ascii "none")) t.world).0 in
      let start : FinalHolder = record { session = t.session; released = 0; calls = t.calls } in
      let (once, open_calls, same) =
        handle_final_all_once start events (client messages (some []) (some (ascii "none")) t.world)
          refl r.open_calls in
      released-Ends _ _ once
        (record { closed_calls = IsClosed-snoc _ _ refl open_calls; ordered = rw same r.ordered })

  Step-cases :
      (s : Step W)
      → IsStep run e client s
      → ((b : Bool) × (t : Turn W) × (s ≡ again b t) × IsRunning t)
        ⊎ ((t : Turn W) × (s ≡ done t) × IsOver t)
        ⊎ ((t : Turn W) × (s ≡ crashed t) × Ends (panicked t))
  Step-cases (again b t) h = inl (b, t, refl, h)
  Step-cases (done t) h = inr (inl (t, refl, h))
  Step-cases (crashed t) h = inr (inr (t, refl, h))
  Step-cases stuck h = absurd h

  run_rounds-Ends :
      (left round : ℕ) (retried : Bool) (t : Turn W)
      → IsRunning t
      → Ends (run_rounds run e left round retried t)
  unfolding run_rounds
  run_rounds-Ends zero round retried t r = force_summary-Ends t r
  run_rounds-Ends (suc left) round retried t r =
      elim (Step-cases (run_round run e round retried t)
        (run_round-IsStep run e client round retried t r)) [
          | inl (b, t', eq, r') ↦ rw (eq, run_rounds) (run_rounds-Ends left (round + 1) b t' r')
          | inr (inl (t', eq, o)) ↦ rw (eq, run_rounds) o
          | inr (inr (t', eq, o)) ↦ rw (eq, run_rounds) o
        ]

  run_tool_loop-Ends : (t : Turn W) → IsRunning t → Ends (run_tool_loop run e t)
  unfolding run_tool_loop
  run_tool_loop-Ends t r = run_rounds-Ends e.max_tool_rounds 0 false t r

-- Every session of the map is in order.
abbrev pub AllOrdered : List (Text × ChatSession) → Type 0
AllOrdered sessions =
    (id : Text) (s : ChatSession) → Map.lookup id sessions ≡ some s → IsOrdered s.messages

pub AllOrdered-insert :
    (id : Text) (s : ChatSession) (sessions : List (Text × ChatSession))
    → IsOrdered s.messages
    → AllOrdered sessions
    → AllOrdered (Map.insert id s sessions)
AllOrdered-insert id s sessions o all q t found = elim (Bool-cases (text_eq id q)) [
  | inl same ↦
      let e : s ≡ t = ground (arith, Map.lookup-insert id q s sessions) in
      subst (λ x. IsOrdered x.messages) e o
  | inr other ↦ all q t (ground (arith, Map.lookup-insert id q s sessions))
]

module _ {W A X : Type 0} (run : Runtime W A X) where
  get_or_create_session-IsOrdered :
      (session_id : Text) (sessions : List (Text × ChatSession)) (w : W)
      → AllOrdered sessions
      → let r = get_or_create_session run session_id sessions w in
        IsOrdered r.0.messages × AllOrdered r.1
  unfolding get_or_create_session new_chat_session
  get_or_create_session-IsOrdered session_id sessions w all =
      elim (Option-cases (Map.lookup (session_key session_id) sessions)) [
        | inl new ↦
            rw (new, get_or_create_session) (fresh, AllOrdered-insert _ _ sessions fresh all)
        | inr (s, old) ↦ rw (old, get_or_create_session) (all _ s old, all)
      ]
    where
      fresh : IsOrdered (new_chat_session (run.now w).0 (session_key session_id)).messages
      fresh = record { paired = tt; short = tt }

  -- A chat that returns tells the page of exactly one end, the last call, and leaves every session in
  -- order; one in which a tool panics tells it of none, and leaves a call of its session unanswered.
  abbrev pub IsChatEnd :
      DebugEngine W A X → Text → Ending (List (Text × ChatSession) × List Callback × W) → Type 0
  IsChatEnd e session_id (returned (after, calls, v)) = IsClosed calls × AllOrdered after
  IsChatEnd e session_id (panicked (after, calls, v)) =
      Panics e.tools
      × IsOpen calls
      × ((s : ChatSession) × (Map.lookup (session_key session_id) after ≡ some s)
          × ¬ Paired [] s.messages)
  IsChatEnd e session_id hung = ⊥

  chat_end-IsChatEnd :
      (e : DebugEngine W A X) (client : IsClient e.llm) (session_id : Text)
      (sessions : List (Text × ChatSession)) (o : Ending (Turn W))
      → AllOrdered sessions
      → Ends run e client o
      → IsChatEnd e session_id (elim o [
        | returned t ↦ returned (chat_end session_id sessions t)
        | panicked t ↦ panicked (chat_end session_id sessions t)
        | hung ↦ hung
      ])
  unfolding chat_end
  chat_end-IsChatEnd e client session_id sessions (returned t) all over =
      (over.closed_calls, AllOrdered-insert _ _ sessions over.ordered all)
  chat_end-IsChatEnd e client session_id sessions (panicked t) all cut =
      let key = session_key session_id in
      (
        cut.panics,
        cut.open_calls,
        (
          t.session,
          Map.lookup-insert key key t.session sessions ∙ rw ((text_eq_iff key key).1 refl) refl,
          cut.unanswered,
        ),
      )
  chat_end-IsChatEnd e client session_id sessions hung all h = h

  -- Where every session is in order, and each stream of the client is contents and then one completion
  -- or error: Chat comes to an end, whatever the model and the tools do. If it returns, then the page
  -- got exactly one call of OnComplete or OnError, the last, and every session is in order after. If
  -- it panics, then a tool can panic, the page got no call of OnComplete or OnError, and the session
  -- is left with a tool call that has no answer, so it is not in order. In order
  -- means that the tool calls of each message are answered by the messages that follow it, in order,
  -- and that no tool message is longer than 12000 bytes.
  pub chat-IsChatEnd :
      (e : DebugEngine W A X) (client : IsClient e.llm) (message session_id : Text)
      (sessions : List (Text × ChatSession)) (w : W)
      → AllOrdered sessions
      → IsChatEnd e session_id (chat run e message session_id sessions w)
  unfolding chat
  chat-IsChatEnd e client message session_id sessions w all =
      let got = get_or_create_session run session_id sessions w in
      let ordered = get_or_create_session-IsOrdered session_id sessions w all in
      let start : Turn W = record { session = got.0; calls = []; world = got.2 } in
      let t = add run.now (plain user_role message) start in
      let r =
        add-IsRunning run.now (plain user_role message) start (unfold has_role text_eq in refl) refl
          (record { open_calls = tt; ordered = ordered.0 }) in
      chat_end-IsChatEnd e client session_id got.1 (run_tool_loop run e t) ordered.1
        (run_tool_loop-Ends run e client t r)

  IsChatEnd-returned :
      (e : DebugEngine W A X) (session_id : Text)
      (o : Ending (List (Text × ChatSession) × List Callback × W))
      → ¬ Panics e.tools
      → IsChatEnd e session_id o
      → (after : List (Text × ChatSession)) × (calls : List Callback) × (v : W) × (o
          ≡ returned (after, calls, v))
        × IsClosed calls
        × AllOrdered after
  IsChatEnd-returned e session_id (returned (after, calls, v)) calm h =
      (after, calls, v, refl, h.0, h.1)
  IsChatEnd-returned e session_id (panicked o) calm h = absurd (calm h.0)
  IsChatEnd-returned e session_id hung calm h = absurd h

  -- Where every session is in order, no tool panics, and each stream of the client is contents and
  -- then one completion or error: Chat returns, whatever the model and the tools answer; the page gets
  -- exactly one call of OnComplete or OnError, the last, and every session is in order after. In order
  -- means that the tool calls of each message are answered by the messages that follow it, in order,
  -- and that no tool message is longer than 12000 bytes.
  pub chat-AllOrdered :
      (e : DebugEngine W A X) (message session_id : Text) (sessions : List (Text × ChatSession))
      (w : W)
      → IsClient e.llm
      → ¬ Panics e.tools
      → AllOrdered sessions
      → (after : List (Text × ChatSession)) × (calls : List Callback) × (v : W) × (chat run e
            message session_id sessions w
          ≡ returned (after, calls, v))
        × IsClosed calls
        × AllOrdered after
  chat-AllOrdered e message session_id sessions w client calm all =
      IsChatEnd-returned e session_id _ calm
        (chat-IsChatEnd e client message session_id sessions w all)
