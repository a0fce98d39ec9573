-- ===== src/Engine/Output.antt =====
-- engine.go: the callbacks of a run, and the handlers of its streams.
use go_debug_agent.Prelude.{
  ◌≡◌, refl, sym, ap, ◌∙◌, ◌⊎◌, inl, inr, Bool, true, false, List, [], ◌∷◌, ◌++◌, All, All-append,
  append_assoc,
}
use go_debug_agent.Llm.Types.{StreamEvent, on_stream_complete, on_stream_error}
use go_debug_agent.Llm.Handler.{IsStream}
use go_debug_agent.Chat.Session.{record_token_usage-messages}
use go_debug_agent.Engine.Types.{
  Callback, on_content, on_tool_start, on_tool_result, on_complete, on_error, on_context_compressed,
}
use go_debug_agent.Engine.Round.{Holder, handle, handle_all}
use go_debug_agent.Engine.Loop.{FinalHolder, handle_final, handle_final_all}

-- OnComplete and OnError tell the page that the answer is over.
abbrev pub is_terminal : Callback → Bool
is_terminal on_complete = true
is_terminal (on_error message) = true
is_terminal (on_content chunk) = false
is_terminal (on_tool_start name args) = false
is_terminal (on_tool_result name result) = false
is_terminal (on_context_compressed original compressed removed) = false

abbrev pub IsOpen : List Callback → Type 0
IsOpen = All (λ c. is_terminal c ≡ false)

-- One terminal call, and it is the last.
pub record IsClosed (calls : List Callback) : Type 0 where
  pub earlier : List Callback
  pub last : Callback
  pub split : calls ≡ earlier ++ last ∷ []
  pub earlier_open : IsOpen earlier
  pub last_terminal : is_terminal last ≡ true

pub IsOpen-snoc :
    (calls : List Callback) (c : Callback)
    → is_terminal c ≡ false
    → IsOpen calls
    → IsOpen (calls ++ c ∷ [])
IsOpen-snoc calls c h o = All-append _ calls (c ∷ []) o (h, tt)

pub IsClosed-snoc :
    (calls : List Callback) (c : Callback)
    → is_terminal c ≡ true
    → IsOpen calls
    → IsClosed (calls ++ c ∷ [])
IsClosed-snoc calls c h o = record {
  earlier = calls;
  last = c;
  split = refl;
  earlier_open = o;
  last_terminal = h;
}

pub IsClosed-append : (xs ys : List Callback) → IsOpen xs → IsClosed ys → IsClosed (xs ++ ys)
IsClosed-append xs ys o c = record {
  earlier = xs ++ c.earlier;
  last = c.last;
  split = ap (λ l. xs ++ l) c.split ∙ sym (append_assoc xs c.earlier (c.last ∷ []));
  earlier_open = All-append _ xs c.earlier o c.earlier_open;
  last_terminal = c.last_terminal;
}

-- A holder after its stream: released once, and closed exactly if there was an error.
pub record IsSettled (h : Holder) : Type 0 where
  pub once : h.released ≡ 1
  pub outcome : ((h.had_error ≡ false) × IsOpen h.calls) ⊎ ((h.had_error ≡ true) × IsClosed h.calls)

pub handle_all-IsSettled :
    (h : Holder) (es : List StreamEvent)
    → IsStream es
    → h.released ≡ 0
    → h.had_error ≡ false
    → IsOpen h.calls
    → IsSettled (handle_all h es)
unfolding handle_all handle
handle_all-IsSettled h [] s r n o = absurd s
handle_all-IsSettled h (StreamEvent.on_content chunk ∷ es) s r n o =
    handle_all-IsSettled _ es s r n (IsOpen-snoc h.calls _ refl o)
handle_all-IsSettled h (on_stream_complete calls reason usage ∷ es) s r n o =
    rw s (record { once = rw r refl; outcome = inl (n, o) })
handle_all-IsSettled h (on_stream_error e ∷ es) s r n o =
    rw s (record { once = rw r refl; outcome = inr (refl, IsClosed-snoc h.calls _ refl o) })

-- The final stream is released once, leaves the messages alone and makes no terminal call.
pub handle_final_all_once :
    (h : FinalHolder) (es : List StreamEvent)
    → IsStream es
    → h.released ≡ 0
    → IsOpen h.calls
    → ((handle_final_all h es).released ≡ 1)
      × IsOpen (handle_final_all h es).calls
      × ((handle_final_all h es).session.messages ≡ h.session.messages)
unfolding handle_final_all handle_final
handle_final_all_once h [] s r o = absurd s
handle_final_all_once h (StreamEvent.on_content chunk ∷ es) s r o =
    handle_final_all_once _ es s r (IsOpen-snoc h.calls _ refl o)
handle_final_all_once h (on_stream_complete calls reason usage ∷ es) s r o =
    rw s (rw r refl, o, record_token_usage-messages usage h.session)
handle_final_all_once h (on_stream_error e ∷ es) s r o =
    rw s (rw r refl, IsOpen-snoc h.calls _ refl o, refl)
