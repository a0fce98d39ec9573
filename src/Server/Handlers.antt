-- ===== src/Server/Handlers.antt =====
-- middleware.go: Middleware and its handlers. http.ServeMux is a parameter, by the pattern that it
-- chooses for a path; the JSON decoder of a body is the request's own fields, "" where it fails.
use go_debug_agent.Prelude.{ℕ, ◌||◌, List, [], ◌∷◌, ◌++◌, if◌then◌else◌, is_empty}
use go_debug_agent.Prelude.Text.{Text, ascii, text_eq, decimal}
use go_debug_agent.Chat.Session.{ChatSession}
use go_debug_agent.Registry.Value.{Value, str}
use go_debug_agent.Registry.Tools.{all_schemas}
use go_debug_agent.Inspectors.Base.{object, array}
use go_debug_agent.Engine.Types.{Runtime, DebugEngine, Ending, returned, panicked, hung}
use go_debug_agent.Engine.Loop.{chat, clear_session}
use go_debug_agent.Server.Sse.{SseJson, write_all}

-- What is read of a request: its method and path, and the fields message and sessionId of its body.
pub record WebRequest : Type 0 where
  pub method : Text
  pub path : Text
  pub message : Text
  pub session_id : Text

pub record WebResponse : Type 0 where
  pub status : ℕ
  pub headers : List (Text × Text)
  pub body : Text

-- The patterns that are registered, and none of them.
pub data Pattern : Type 0 where
  page : Pattern
  below_page : Pattern
  api_chat : Pattern
  api_clear : Pattern
  api_health : Pattern
  api_tools : Pattern
  no_pattern : Pattern

-- The engine's sessions and the world.
abbrev pub Sessions : Type 0 → Type 0
Sessions W = List (Text × ChatSession) × W

unfoldable pub no_content : WebResponse
no_content = record { status = 204; headers = []; body = [] }

-- http.Error and http.NotFound.
pub record Replies : Type 0 where
  pub http_error : Text → ℕ → WebResponse
  pub not_found : WebResponse

unfoldable pub not_allowed : Replies → WebResponse
not_allowed replies = replies.http_error (ascii "Method not allowed") 405

unfoldable pub json_response : Text → WebResponse
json_response body = record {
  status = 200;
  headers = (ascii "Content-Type", ascii "application/json") ∷ [];
  body = body;
}

unfoldable pub page_response : (Text → Text) → Text → WebResponse
page_response render base = record {
  status = 200;
  headers = (ascii "Content-Type", ascii "text/html") ∷ [];
  body = render base;
}

unfoldable pub with_cors : WebResponse → WebResponse
with_cors r = record r {
  headers =
      (ascii "Access-Control-Allow-Origin", ascii "*")
      ∷ (ascii "Access-Control-Allow-Methods", ascii "GET, POST, OPTIONS")
      ∷ (ascii "Access-Control-Allow-Headers", ascii "Content-Type, Authorization")
      ∷ r.headers;
}

unfoldable pub event_stream : Text → WebResponse
event_stream body = record {
  status = 200;
  headers =
      (ascii "Content-Type", ascii "text/event-stream")
      ∷ (ascii "Cache-Control", ascii "no-cache")
      ∷ (ascii "Connection", ascii "keep-alive")
      ∷ [];
  body = body;
}

unfoldable pub add_cors :
    {W : Type 0} → Ending (WebResponse × Sessions W) → Ending (WebResponse × Sessions W)
add_cors (returned (r, s)) = returned (with_cors r, s)
add_cors (panicked (r, s)) = panicked (with_cors r, s)
add_cors hung = hung

module _ {W A X : Type 0} (run : Runtime W A X) (e : DebugEngine W A X) (json : SseJson)
    (replies : Replies) where
  -- The session id of a request, or one that is made from the time.
  unfoldable pub session_of : Text → W → Text × W
  session_of session_id w =
      if is_empty session_id
      then (let (time, w') = run.now w in (ascii "session-" ++ decimal time, w'))
      else (session_id, w)

  -- Where the chat panics, the response has what was written before; net/http recovers after it.
  unfoldable pub chat_response : WebRequest → Sessions W → Ending (WebResponse × Sessions W)
  chat_response r (sessions, w) =
      let (session_id, w1) = session_of r.session_id w in
      elim (chat run e r.message session_id sessions w1) [
        | returned (after, calls, w2) ↦ returned (event_stream (write_all json calls), (after, w2))
        | panicked (after, calls, w2) ↦ panicked (event_stream (write_all json calls), (after, w2))
        | hung ↦ hung
      ]

  unfoldable pub handle_chat : WebRequest → Sessions W → Ending (WebResponse × Sessions W)
  handle_chat r s =
      if text_eq r.method (ascii "OPTIONS")
      then returned (no_content, s)
      else (if text_eq r.method (ascii "POST")
          then chat_response r s
          else returned (not_allowed replies, s))

  -- The encoder's values end with a line feed.
  unfoldable pub encode : Value X → Text
  encode value = run.marshal value ++ 10 ∷ []

  unfoldable pub handle_clear : WebRequest → Sessions W → WebResponse × Sessions W
  handle_clear r s =
      if text_eq r.method (ascii "OPTIONS")
      then (no_content, s)
      else (if text_eq r.method (ascii "POST")
          then (
            json_response (encode (object ((ascii "status", str (ascii "cleared")) ∷ []))),
            (if is_empty r.session_id then s else clear_session run r.session_id s.0 s.1),
          )
          else (not_allowed replies, s))

  unfoldable pub health_response : WebResponse
  health_response = json_response (
      encode (
        object (
          (ascii "status", str (ascii "ok")) ∷ (ascii "agent", str (ascii "go-debug-agent")) ∷ [])))

  unfoldable pub tools_response : W → WebResponse × W
  tools_response w =
      let (visited, w') = run.range_tools e.tools w in
      (
        json_response
            (encode (object ((ascii "tools", array (all_schemas run.range_params visited)) ∷ []))),
        w',
      )

  -- What the multiplexer does with a request.
  unfoldable pub serve_mux :
      (Text → Text) → Text → Pattern → WebRequest → Sessions W → Ending (WebResponse × Sessions W)
  serve_mux render base page r s = returned (page_response render base, s)
  serve_mux render base below_page r s =
      if text_eq r.path (base ++ ascii "/") || text_eq r.path base
      then returned (page_response render base, s)
      else returned (replies.not_found, s)
  serve_mux render base api_chat r s = handle_chat r s
  serve_mux render base api_clear r s = returned (handle_clear r s)
  serve_mux render base api_health r s = returned (health_response, s)
  serve_mux render base api_tools r (sessions, w) =
      let (response, w') = tools_response w in returned (response, (sessions, w'))
  serve_mux render base no_pattern r s = returned (replies.not_found, s)

  -- The handler that Middleware returns, where `mux` chooses a pattern.
  unfoldable pub serve :
      (Text → Text)
      → Text
      → (Text → Pattern)
      → WebRequest
      → Sessions W
      → Ending (WebResponse × Sessions W)
  serve render base mux r s = add_cors (
      if text_eq r.method (ascii "OPTIONS")
      then returned (no_content, s)
      else serve_mux render base (mux r.path) r s)
