-- ===== src/Llm/Handler.antt =====
-- llm_client.go: the calls that ChatStream makes of its handler.
use go_debug_agent.Prelude.{
  ℕ, zero, suc, ◌+◌, ◌≤◌, ◌<◌, ◌≡◌, refl, ◌&&◌, List, [], ◌∷◌, ◌++◌, Option, none, some, arith, All,
  All-append, Option-cases, Bool-cases, inl, inr, leb,
}
use go_debug_agent.Prelude.Int.{exceeds}
use go_debug_agent.Prelude.Result.{Result, ok, err}
use go_debug_agent.Prelude.Text.{Text, ascii}
use go_debug_agent.Chat.Message.{ChatMessage}
use go_debug_agent.Registry.Value.{Value}
use go_debug_agent.Llm.Types.{
  LlmConfig, LlmError, ChatRequest, HttpResponse, Network, StreamEvent, on_content,
  on_stream_complete, on_stream_error, Chunk, ChunkChoice,
}
use go_debug_agent.Llm.Chunks.{
  StreamState, read_choice, read_choices, read_chunk, read_data, read_line, read_lines, read_stream,
  stream_start,
}
use go_debug_agent.Llm.Retry.{http_request, is_retriable_err}
use go_debug_agent.Llm.Delay.{DelaysFit, calculate_delay_returns}
use go_debug_agent.Llm.Stream.{
  stream_request, read_reply, read_answer, before, stream_attempts, chat_stream,
}

-- Pieces of content, then one call of OnStreamComplete or OnStreamError, then nothing.
abbrev pub IsStream : List StreamEvent → Type 0
IsStream [] = ⊥
IsStream (on_content chunk ∷ es) = IsStream es
IsStream (on_stream_complete calls reason usage ∷ es) = es ≡ []
IsStream (on_stream_error e ∷ es) = es ≡ []

abbrev IsContent : StreamEvent → Type 0
IsContent (on_content chunk) = Unit
IsContent (on_stream_complete calls reason usage) = ⊥
IsContent (on_stream_error e) = ⊥

IsStream-append : (xs ys : List StreamEvent) → All IsContent xs → IsStream ys → IsStream (xs ++ ys)
IsStream-append [] ys h s = s
IsStream-append (on_content chunk ∷ xs) ys h s = IsStream-append xs ys h.1 s
IsStream-append (on_stream_complete calls reason usage ∷ xs) ys h s = absurd h.0
IsStream-append (on_stream_error e ∷ xs) ys h s = absurd h.0

read_choice-IsContent :
    (st : StreamState) (choice : ChunkChoice)
    → All IsContent st.events
    → All IsContent (read_choice st choice).events
unfolding read_choice
read_choice-IsContent st choice h =
    ground
      (arith, h, All-append IsContent st.events (on_content choice.delta.content ∷ []) h (tt, tt))

read_choices-IsContent :
    (st : StreamState) (choices : List ChunkChoice)
    → All IsContent st.events
    → All IsContent (read_choices st choices).events
unfolding read_choices
read_choices-IsContent st [] h = h
read_choices-IsContent st (choice ∷ choices) h = read_choice-IsContent st choice h

read_line-IsContent :
    (unmarshal_chunk : Text → Option Chunk) (st : StreamState) (line : Text)
    → All IsContent st.events
    → All IsContent (read_line unmarshal_chunk st line).events
unfolding read_line read_data read_chunk
read_line-IsContent unmarshal_chunk st line h = grind (
  arith,
  h,
  λ (st : StreamState) (cs : List ChunkChoice) (g : All IsContent st.events).
      read_choices-IsContent st cs g,
)

read_lines-IsContent :
    (unmarshal_chunk : Text → Option Chunk) (st : StreamState) (lines : List Text)
    → All IsContent st.events
    → All IsContent (read_lines unmarshal_chunk st lines).events
unfolding read_lines
read_lines-IsContent unmarshal_chunk st [] h = h
read_lines-IsContent unmarshal_chunk st (line ∷ lines) h =
    read_lines-IsContent unmarshal_chunk (read_line unmarshal_chunk st line) lines
      (read_line-IsContent unmarshal_chunk st line h)

pub read_stream-IsStream :
    (unmarshal_chunk : Text → Option Chunk) (lines : List Text)
    → IsStream (read_stream unmarshal_chunk lines)
unfolding read_stream
read_stream-IsStream unmarshal_chunk lines =
    IsStream-append (read_lines unmarshal_chunk stream_start lines).events _
      (read_lines-IsContent unmarshal_chunk stream_start lines tt) refl

-- A request that fails has called no handler.
abbrev IsReply : List StreamEvent → Option LlmError → Type 0
IsReply es none = IsStream es
IsReply es (some e) = es ≡ []

module _ {W X : Type 0} (net : Network W X) (cfg : LlmConfig) where
  read_reply-IsReply :
      (resp : HttpResponse) → IsReply (read_reply net cfg resp).0 (read_reply net cfg resp).1
  unfolding read_reply
  read_reply-IsReply resp = elim (Bool-cases (leb 400 resp.status_code)) [
    | inl e ↦ rw e refl
    | inr e ↦ rw e (read_stream-IsStream net.unmarshal_chunk (net.scan resp.body))
  ]

  read_answer-IsReply :
      (reply : Result Text HttpResponse)
      → IsReply (read_answer net cfg reply).0 (read_answer net cfg reply).1
  unfolding read_answer
  read_answer-IsReply (err e) = refl
  read_answer-IsReply (ok resp) = read_reply-IsReply resp

  stream_request-IsReply :
      (path : Text) (body : ChatRequest X) (w : W)
      → let r = stream_request net cfg path body w in IsReply r.0 r.1
  unfolding stream_request
  stream_request-IsReply path body w =
      read_answer-IsReply (net.send (http_request net cfg path body) w).0

-- A result that exists and is a stream.
abbrev pub Streams : {W : Type 0} → Option (List StreamEvent × W) → Type 0
Streams {W} r = (es : List StreamEvent) × (w : W) × (r ≡ some (es, w)) × IsStream es

Streams-before :
    {W : Type 0} (r : Option (List StreamEvent × W)) → Streams r → Streams (before [] r)
Streams-before r (es, w, e, s) = (es, w, rw e refl, s)

module _ {W X : Type 0} (net : Network W X) (cfg : LlmConfig)
    (rand : (n : ℕ) (v : W) → 1 ≤ n → (net.intn n v).0 < n) (fit : DelaysFit cfg) where
  stream_attempts-Streams :
      (body : ChatRequest X) (left attempt : ℕ) (w : W)
      → Streams (stream_attempts net cfg body left attempt w)
  unfolding stream_attempts
  stream_attempts-Streams body zero attempt w = (_, w, refl, refl)
  stream_attempts-Streams body (suc left) attempt w =
      let r = stream_request net cfg (ascii "/chat/completions") body w in
      let shape = stream_request-IsReply net cfg (ascii "/chat/completions") body w in
      elim (Option-cases r.1) [
        | inl e ↦ rw (e, stream_attempts) (r.0, r.2, refl, rw e at shape)
        | inr (failure, e) ↦
            let none_sent : r.0 ≡ [] = rw e at shape in
            elim (Bool-cases (is_retriable_err failure && exceeds cfg.max_retries attempt)) [
              | inr stop ↦ rw (e, stop, none_sent, stream_attempts) (_, r.2, refl, refl)
              | inl more ↦
                  let (d, v, delay) =
                    calculate_delay_returns net cfg attempt r.2 rand fit (ground arith) in
                  rw (e, more, delay, none_sent, stream_attempts)
                    (Streams-before _
                      (stream_attempts-Streams body left (attempt + 1) (net.sleep d v)))
            ]
      ]

  -- While the delays fit in 64 bits and rand.Intn stays below its bound, ChatStream returns, whatever the network does, and its handler gets pieces
  -- of content and then exactly one of OnStreamComplete and OnStreamError.
  pub chat_stream-Streams :
      (messages : List ChatMessage) (tools : Option (List (Value X))) (tool_choice : Option Text)
      (w : W)
      → Streams (chat_stream net cfg messages tools tool_choice w)
  unfolding chat_stream
  chat_stream-Streams messages tools tool_choice w = stream_attempts-Streams _ _ 0 w
