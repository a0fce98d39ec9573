-- ===== src/Tests/Serving.antt =====
-- Runs of the HTTP handlers.
use go_debug_agent.Prelude.{ℕ, ◌≡◌, refl, List, [], some, if◌then◌else◌}
use go_debug_agent.Prelude.Map
use go_debug_agent.Prelude.Map.{text_key}
use go_debug_agent.Prelude.Text.{Text, ascii, text_eq}
use go_debug_agent.Engine.Types.{Callback, returned}
use go_debug_agent.Engine.Output.{IsClosed}
use go_debug_agent.Engine.Run.{AllOrdered}
use go_debug_agent.Server.Sse.{SseJson, write_all}
use go_debug_agent.Server.Handlers.{
  WebRequest, WebResponse, Pattern, api_chat, no_pattern, Sessions, Replies, serve,
}
use go_debug_agent.Server.Serving.{IsServed, serve-IsServed, serve_chat}
use go_debug_agent.Tests.Data.{runtime, engine, model-IsClient, memory_registry-NoPanic}

abbrev json : SseJson
json = record {
  marshal_text = λ text. text;
  marshal_counts = λ original compressed removed. ascii "{}";
}

abbrev plain_text : Text → ℕ → WebResponse
plain_text body status = record { status = status; headers = []; body = body }

abbrev replies : Replies
replies = record {
  http_error = plain_text;
  not_found = plain_text (ascii "404 page not found") 404;
}

abbrev mux : Text → Pattern
mux path = if text_eq path (ascii "/agent/api/chat") then api_chat else no_pattern

abbrev request : WebRequest
request = record {
  method = ascii "POST";
  path = ascii "/agent/api/chat";
  message = ascii "how much memory is in use?";
  session_id = [];
}

abbrev no_sessions : Sessions ℕ
no_sessions = ([], 0)

no_sessions-AllOrdered : AllOrdered no_sessions.0
unfolding Map.lookup
no_sessions-AllOrdered = λ id s found. cc

request-mux : mux request.path ≡ api_chat
unfolding text_eq
request-mux = refl

serve-IsServed_example :
    IsServed
      (serve runtime engine json replies (λ base. base) (ascii "/agent") mux request no_sessions)
serve-IsServed_example =
    serve-IsServed runtime engine json replies model-IsClient memory_registry-NoPanic (λ base. base)
      (ascii "/agent") mux request no_sessions no_sessions-AllOrdered

serve_chat_example :
    (response : WebResponse) × (calls : List Callback) × (after : Sessions ℕ) × (serve runtime
        engine json replies
        (λ base. base)
        (ascii "/agent")
        mux
        request
        no_sessions
      ≡ returned (response, after))
    × (response.status ≡ 200)
    × (Map.lookup (ascii "Content-Type") response.headers ≡ some (ascii "text/event-stream"))
    × (response.body ≡ write_all json calls)
    × IsClosed calls
    × AllOrdered after.0
serve_chat_example =
    serve_chat runtime engine json replies model-IsClient memory_registry-NoPanic (λ base. base)
      (ascii "/agent") mux request no_sessions no_sessions-AllOrdered request-mux refl
