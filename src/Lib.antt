-- ===== src/Lib.antt =====
-- Verification library of the Go debug agent: a chat agent that lives in a Go program, sends its
-- user's questions to a language model, lets the model call the debug tools of the program, and
-- streams the answer to a page.
--
-- Parts and files:
--   Prelude      texts as lists of bytes, numbers, results, association lists, lemmas on lists.
--   Chat         Chat/Message: the messages of llm_client.go. Chat/Session: chat_session.go.
--                Chat/Protocol: the order of calls and answers that the chat API wants.
--   Llm          llm_client.go and LLMConfig of config.go. Llm/Types: data and the network as a
--                parameter. Llm/Chunks: reading a stream (streamRequest). Llm/Fragments and
--                Llm/Calls: its tool calls. Llm/Retry: postWithRetry, post, calculateDelay.
--                Llm/Stream: ChatStream. Llm/Client: the client as an interface of the engine,
--                filled by ChatStream and ChatNonStreaming where the delays fit.
--   Registry     tool_registry.go.
--   Compressor   context_compressor.go. Compressor/Rounds: identifyRounds. Compressor/Summary:
--                summarizeWithLLM, fallbackTruncate, estimateTokens. Compressor/Compress: Compress.
--   Engine       engine.go. Engine/Round: a turn of the loop of runToolLoop. Engine/Loop: the loop,
--                the forced summary, Chat, ClearSession and the session map.
--   Server       middleware.go, config.go and chat_page.go. Server/Sse: sseCallback.
--                Server/Handlers: Middleware, its handlers and the CORS wrapper. Server/Serving: what
--                they answer. Server/Config: DefaultConfig. Server/Page: the reader in the page's
--                script.
--   Inspectors   the debug tools. Inspectors/Ring: the ring buffers. Inspectors/Errors:
--                inspector_error.go. Inspectors/Requests: inspector_http.go. Inspectors/Logs:
--                inspector_logging.go. Inspectors/Jobs and Inspectors/Ticker:
--                inspector_scheduler.go. Inspectors/Sockets: inspector_websocket.go.
--                Inspectors/Flags: inspector_featureflag.go.
--                Inspectors/Health: inspector_health.go. Inspectors/Outbound:
--                inspector_http_client.go. Inspectors/Config: inspector_config.go.
--                Inspectors/Security: inspector_security.go. Inspectors/Pool:
--                inspector_pool.go. Inspectors/Endpoints: inspector_endpoint_test_inspector.go.
--                Inspectors/Profile: inspector_cpu_profile.go. Inspectors/Locks:
--                inspector_locks.go. Inspectors/Leak: inspector_leak.go.
--                Inspectors/Services: inspector_registry.go.
--                Inspectors/Migrations: inspector_migration.go.
--                Inspectors/Caches: inspector_cache.go.
--                Inspectors/Slices: what is taken of sort.Slice.
--   Tests        runs on concrete data.
-- Chat of the engine takes a session, compresses its history when the model's window fills, streams
-- an answer from the client, runs the tools that the answer calls through the registry, and repeats;
-- what the page is told are the calls of a callback, which sseCallback writes and the page reads.
--
-- How state is modelled: an operation takes the state and returns it. Whatever the program takes
-- from elsewhere acts on a world of any type: time.Now, time.Sleep, math/rand, the network, the
-- order in which a range meets a map's entries, and the tools' functions. The JSON library and
-- bufio.Scanner are parameters too. A stream's handler calls are a list of events; a WaitGroup is a
-- count of its Done calls, and a count other than 1 at Wait is a run with no result. A tool's
-- function that panics has no result; Chat then ends in a panic, and net/http goes on after it.
--
-- Bounds: loops recurse on the rounds or the attempts that are left, so no fuel is chosen; decimal
-- has as many digits as the number needs. calculateDelay keeps the wrap-around of 64-bit integers,
-- and rand.Intn's panic. Token counts, limits and lengths are natural numbers and do not wrap.
-- NeedsCompression is exact below 2^51 tokens, where float64 is. A temperature is counted in
-- thousandths, a time in any unit. The percentiles of inspector_http.go are exact up to its 500
-- requests. A nil slice and an empty one are not told apart.
--
-- Not modelled: two chats at once on one session, how
-- http.ServeMux matches a path (its choice is a parameter), the page's markup and rendering, the
-- prompts of the system, and the inspectors that Inspectors does not name.
pub mod Prelude
pub mod Chat
pub mod Llm
pub mod Registry
pub mod Compressor
pub mod Engine
pub mod Server
pub mod Inspectors
pub mod Tests
