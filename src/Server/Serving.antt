-- ===== src/Server/Serving.antt =====
-- middleware.go with engine.go: every request is answered, and the sessions stay in order.
use go_debug_agent.Prelude.{
  ◌≡◌, refl, ap, ◌∙◌, Bool, true, false, ◌||◌, List, ◌++◌, some, if◌then◌else◌, is_empty,
  Bool-cases, Option-cases, inl, inr,
}
use go_debug_agent.Prelude.Map
use go_debug_agent.Prelude.Map.{text_key}
use go_debug_agent.Prelude.Text.{Text, ascii, text_eq}
use go_debug_agent.Chat.Session.{ChatSession, clear}
use go_debug_agent.Llm.Client.{IsClient}
use go_debug_agent.Engine.Types.{Callback, Runtime, DebugEngine, Ending, returned}
use go_debug_agent.Engine.Rounds.{Panics}
use go_debug_agent.Engine.Loop.{clear_session}
use go_debug_agent.Engine.Output.{IsClosed}
use go_debug_agent.Engine.Run.{AllOrdered, AllOrdered-insert, chat-AllOrdered}
use go_debug_agent.Server.Sse.{SseJson, write_all}
use go_debug_agent.Server.Handlers.{
  WebRequest, WebResponse, Pattern, page, below_page, api_chat, api_clear, api_health, api_tools,
  no_pattern, Sessions, Replies, event_stream, with_cors, add_cors, session_of, no_content,
  chat_response, handle_chat, handle_clear, tools_response, serve_mux, serve,
}

-- A request that is answered, with the sessions in order after it.
abbrev pub IsServed : {W : Type 0} → Ending (WebResponse × Sessions W) → Type 0
IsServed answer =
    (response : WebResponse) × (after : Sessions _) × (answer ≡ returned (response, after))
    × AllOrdered after.0

-- A choice between two answers.
either-IsServed :
    {W : Type 0} (b : Bool) (x y : Ending (WebResponse × Sessions W))
    → IsServed x
    → IsServed y
    → IsServed (if b then x else y)
either-IsServed true x y hx hy = hx
either-IsServed false x y hx hy = hy

module _ {W A X : Type 0} (run : Runtime W A X) where
  clear_session-AllOrdered :
      (id : Text) (sessions : List (Text × ChatSession)) (w : W)
      → AllOrdered sessions
      → AllOrdered (clear_session run id sessions w).0
  unfolding clear_session clear
  clear_session-AllOrdered id sessions w all = elim (Option-cases (Map.lookup id sessions)) [
    | inl e ↦ rw (e, clear_session) all
    | inr found ↦
        rw (found.1, clear_session)
          (AllOrdered-insert id _ sessions (record { paired = tt; short = tt }) all)
  ]

module _ {W A X : Type 0} (run : Runtime W A X) (e : DebugEngine W A X) (json : SseJson)
    (replies : Replies) (client : IsClient e.llm) (calm : ¬ Panics e.tools) where
  -- What a POST to the chat is answered with: the events of calls that end the chat.
  abbrev pub IsStreamed : WebRequest → Sessions W → Type 0
  IsStreamed r s =
      (calls : List Callback) × (after : Sessions W) × (chat_response run e json replies r s
        ≡ returned (event_stream (write_all json calls), after))
      × IsClosed calls
      × AllOrdered after.0

  chat_response-IsStreamed : (r : WebRequest) (s : Sessions W) → AllOrdered s.0 → IsStreamed r s
  unfolding chat_response
  chat_response-IsStreamed r (sessions, w) all =
      let got = session_of run e json replies r.session_id w in
      let (after, calls, v, eq, closed, ordered) =
        chat-AllOrdered run e r.message got.0 sessions got.1 client calm all in
      (calls, (after, v), rw (eq, chat_response) refl, closed, ordered)

  handle_chat-IsServed :
      (r : WebRequest) (s : Sessions W)
      → AllOrdered s.0
      → IsServed (handle_chat run e json replies r s)
  unfolding handle_chat
  handle_chat-IsServed r s all =
      let (calls, after, eq, closed, ordered) = chat_response-IsStreamed r s all in
      either-IsServed (text_eq r.method (ascii "OPTIONS")) _ _ (_, s, refl, all)
        (either-IsServed (text_eq r.method (ascii "POST")) _ _ (_, after, eq, ordered)
          (_, s, refl, all))

  handle_clear-AllOrdered :
      (r : WebRequest) (s : Sessions W)
      → AllOrdered s.0
      → AllOrdered (handle_clear run e json replies r s).1.0
  unfolding handle_clear
  handle_clear-AllOrdered r (sessions, w) all =
      let cleared = clear_session-AllOrdered run r.session_id sessions w all in
      elim (Bool-cases (text_eq r.method (ascii "OPTIONS"))) [
        | inl o ↦ rw o all
        | inr o ↦ rw o (elim (Bool-cases (text_eq r.method (ascii "POST"))) [
          | inl p ↦ rw p (elim (Bool-cases (is_empty r.session_id)) [
            | inl q ↦ rw q all
            | inr q ↦ rw q cleared
          ])
          | inr p ↦ rw p all
        ])
      ]

  serve_mux-IsServed :
      (render : Text → Text) (base : Text) (pattern : Pattern) (r : WebRequest) (s : Sessions W)
      → AllOrdered s.0
      → IsServed (serve_mux run e json replies render base pattern r s)
  unfolding serve_mux tools_response
  serve_mux-IsServed render base page r s all = (_, s, refl, all)
  serve_mux-IsServed render base below_page r s all =
      either-IsServed (text_eq r.path (base ++ ascii "/") || text_eq r.path base) _ _
        (_, s, refl, all) (_, s, refl, all)
  serve_mux-IsServed render base api_chat r s all = handle_chat-IsServed r s all
  serve_mux-IsServed render base api_clear r s all = (_, _, refl, handle_clear-AllOrdered r s all)
  serve_mux-IsServed render base api_health r s all = (_, s, refl, all)
  serve_mux-IsServed render base api_tools r (sessions, w) all = (_, _, refl, all)
  serve_mux-IsServed render base no_pattern r s all = (_, s, refl, all)

  -- Where every session is in order, no tool panics, and each stream of the client is contents and
  -- then one completion or error, the handler that Middleware returns answers every request, whatever
  -- its path and method and whatever the model and the tools answer, and every session is in order
  -- after.
  pub serve-IsServed :
      (render : Text → Text) (base : Text) (mux : Text → Pattern) (r : WebRequest) (s : Sessions W)
      → AllOrdered s.0
      → IsServed (serve run e json replies render base mux r s)
  unfolding serve add_cors
  serve-IsServed render base mux r s all =
      let (response, after, eq, ordered) = serve_mux-IsServed render base (mux r.path) r s all in
      elim (Bool-cases (text_eq r.method (ascii "OPTIONS"))) [
        | inl o ↦ (with_cors no_content, s, rw (o, serve) refl, all)
        | inr o ↦ (with_cors response, after, rw (o, serve) (ap add_cors eq), ordered)
      ]

  -- The guards on the way of a POST to the chat.
  post_served :
      (render : Text → Text) (base : Text) (mux : Text → Pattern) (r : WebRequest) (s : Sessions W)
      → mux r.path ≡ api_chat
      → r.method ≡ ascii "POST"
      → serve run e json replies render base mux r s
        ≡ add_cors (chat_response run e json replies r s)
  unfolding serve serve_mux handle_chat text_eq
  post_served render base mux r s chat_path post =
      let not_options : text_eq r.method (ascii "OPTIONS") ≡ false =
        ap (λ m. text_eq m (ascii "OPTIONS")) post in
      let is_post : text_eq r.method (ascii "POST") ≡ true =
        ap (λ m. text_eq m (ascii "POST")) post in
      rw (serve, not_options, chat_path, serve_mux, handle_chat, not_options, is_post) refl

  -- Where every session is in order, no tool panics, and each stream of the client is contents and
  -- then one completion or error, Middleware answers a POST to the chat with status 200 and the type
  -- text/event-stream; the body has the events of calls that end in exactly one OnComplete or OnError;
  -- and every session is in order after.
  pub serve_chat :
      (render : Text → Text) (base : Text) (mux : Text → Pattern) (r : WebRequest) (s : Sessions W)
      → AllOrdered s.0
      → mux r.path ≡ api_chat
      → r.method ≡ ascii "POST"
      → (response : WebResponse) × (calls : List Callback) × (after : Sessions W) × (serve run e
            json replies render base mux r s
          ≡ returned (response, after))
        × (response.status ≡ 200)
        × (Map.lookup (ascii "Content-Type") response.headers ≡ some (ascii "text/event-stream"))
        × (response.body ≡ write_all json calls)
        × IsClosed calls
        × AllOrdered after.0
  unfolding add_cors with_cors event_stream Map.lookup text_eq
  serve_chat render base mux r s all chat_path post =
      let (calls, after, eq, closed, ordered) = chat_response-IsStreamed r s all in
      (
        with_cors (event_stream (write_all json calls)),
        calls,
        after,
        post_served render base mux r s chat_path post ∙ ap add_cors eq,
        refl,
        refl,
        refl,
        closed,
        ordered,
      )
