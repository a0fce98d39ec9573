-- ===== src/Tests/Chats.antt =====
-- Runs of the engine, the compressor and the registry.
use go_debug_agent.Prelude.{
  ℕ, ◌+◌, ◌-◌, ◌≤◌, ◌≡◌, refl, ◌↔◌, ◌⊎◌, List, [], ◌∷◌, ◌++◌, none, some, false, arith, All, drop,
  take, concat, length, min,
}
use go_debug_agent.Prelude.Map
use go_debug_agent.Prelude.Map.{text_key}
use go_debug_agent.Prelude.Text.{Text, ascii, text_eq, decimal}
use go_debug_agent.Chat.Message.{system_role, has_role}
use go_debug_agent.Chat.Session.{ChatSession, get_current_context_tokens}
use go_debug_agent.Chat.Protocol.{Paired}
use go_debug_agent.Compressor.Rounds.{identify_rounds, concat-identify_rounds}
use go_debug_agent.Compressor.Shape.{IsRound, IsLed, identify_rounds_shape}
use go_debug_agent.Compressor.Summary.{plain, estimate_tokens, summary_of, fallback_truncate}
use go_debug_agent.Compressor.Compress.{
  CompressionResult, compress, compress_older, keep_count, needs_compression, summarize,
  summary_header,
}
use go_debug_agent.Compressor.Window.{compress-eq-none_iff, compress_window}
use go_debug_agent.Compressor.Pairing.{compress-Paired}
use go_debug_agent.Engine.Types.{Callback, DebugEngine, returned}
use go_debug_agent.Engine.Invariant.{IsOrdered}
use go_debug_agent.Engine.Loop.{chat}
use go_debug_agent.Engine.Output.{IsClosed}
use go_debug_agent.Engine.Run.{
  AllOrdered, AllOrdered-insert, chat-AllOrdered, IsChatEnd, chat-IsChatEnd,
}
use go_debug_agent.Tests.Data.{
  conversation, old_session, small_window, now, unreachable_model, memory_params, runtime, engine,
  model-IsClient, memory_registry-NoPanic,
}

conversation-Paired : Paired [] conversation
unfolding has_role text_eq
conversation-Paired = (refl, (refl, (refl, refl, (refl, (refl, tt)))))

conversation-IsOrdered : IsOrdered conversation
unfolding has_role text_eq
conversation-IsOrdered = record {
  paired = conversation-Paired;
  short = (
    (λ h. omega arith),
    ((λ h. omega arith), ((λ h. omega arith), ((λ h. omega arith), ((λ h. omega arith), tt)))),
  );
}

abbrev sessions : List (Text × ChatSession)
sessions = (ascii "s", old_session) ∷ []

sessions-AllOrdered : AllOrdered sessions
unfolding Map.lookup Map.insert
sessions-AllOrdered =
    AllOrdered-insert (ascii "s") old_session [] conversation-IsOrdered (λ id s found. cc)

chat-AllOrdered_example :
    (after : List (Text × ChatSession)) × (calls : List Callback) × (v : ℕ) × (chat runtime engine
        (ascii "and now?")
        (ascii "s")
        sessions
        0
      ≡ returned (after, calls, v))
    × IsClosed calls
    × AllOrdered after
chat-AllOrdered_example =
    chat-AllOrdered runtime engine (ascii "and now?") (ascii "s") sessions 0 model-IsClient
      memory_registry-NoPanic sessions-AllOrdered

-- A registry whose tool panics.
abbrev panicking : DebugEngine ℕ Text Unit
panicking = record engine {
  tools =
      (
        ascii "get_mem",
        record {
          name = ascii "get_mem";
          description = ascii "memory";
          func = λ args w. (none, w);
          params = memory_params;
        },
      )
      ∷ [];
}

chat-IsChatEnd_example :
    IsChatEnd runtime panicking
      (ascii "s")
      (chat runtime panicking (ascii "and now?") (ascii "s") sessions 0)
chat-IsChatEnd_example =
    chat-IsChatEnd runtime panicking model-IsClient (ascii "and now?") (ascii "s") sessions 0
      sessions-AllOrdered

compress-Paired_example :
    Paired [] (compress now unreachable_model small_window old_session 0).1.messages
compress-Paired_example =
    compress-Paired now unreachable_model small_window old_session 0 conversation-Paired

abbrev compressed : CompressionResult
compressed = record {
  original_tokens = 90;
  compressed_tokens = 38;
  removed_rounds = 2;
  strategy = ascii "LLM summarized 2 rounds";
}

compress-compressed :
    (compress now unreachable_model small_window old_session 0).0 ≡ some compressed
unfolding compress compress_older needs_compression get_current_context_tokens keep_count
    identify_rounds has_role text_eq estimate_tokens decimal summary_header summarize summary_of
    fallback_truncate
compress-compressed = refl

compress_window_example :
    let rounds = identify_rounds conversation in
    let s = (compress now unreachable_model small_window old_session 0).1 in
    (s.messages
      ≡ plain system_role
          (summary_header 2 ++ (summarize now unreachable_model (concat (take 2 rounds)) 0).0)
        ∷ concat (drop 2 rounds))
    × (1 ≤ 2)
    × (2 + min 1 (length rounds - 1) ≡ length rounds)
    × (38 ≡ estimate_tokens s.messages)
    × (90 ≡ get_current_context_tokens s)
compress_window_example =
    compress_window now unreachable_model small_window old_session 0 compressed compress-compressed

compress-eq-none_iff_example :
    (((compress now unreachable_model small_window old_session 0).0 ≡ none) ↔ (
      (needs_compression small_window (get_current_context_tokens old_session) ≡ false)
      ⊎ (length (identify_rounds conversation) ≤ 1)))
    × ((compress now unreachable_model small_window old_session 0).0 ≡ none
        → compress now unreachable_model small_window old_session 0 ≡ (none, old_session, 0))
compress-eq-none_iff_example =
    compress-eq-none_iff now unreachable_model small_window old_session 0 (omega arith)

concat-identify_rounds_example : concat (identify_rounds conversation) ≡ conversation
concat-identify_rounds_example = concat-identify_rounds conversation

identify_rounds_shape_example :
    All IsRound (identify_rounds conversation) × All IsLed (drop 1 (identify_rounds conversation))
identify_rounds_shape_example = identify_rounds_shape conversation
