-- ===== src/Compressor/Window.antt =====
-- context_compressor.go: the results of Compress.
use go_debug_agent.Prelude.{
  ℕ, ◌+◌, ◌-◌, ◌≤◌, ◌≡◌, ◌↔◌, ◌⊎◌, false, List, ◌∷◌, ◌++◌, none, some, arith, length, take, drop,
  concat, min,
}
use go_debug_agent.Prelude.Result.{Result}
use go_debug_agent.Chat.Message.{ChatMessage, system_role}
use go_debug_agent.Chat.Session.{ChatSession, get_current_context_tokens, replace_messages}
use go_debug_agent.Llm.Types.{LlmError, ChatResponse}
use go_debug_agent.Compressor.Rounds.{identify_rounds}
use go_debug_agent.Compressor.Summary.{plain, estimate_tokens}
use go_debug_agent.Compressor.Compress.{
  ContextCompressor, CompressionResult, needs_compression, keep_count, summary_header, summarize,
  compress, compress_older,
}

module _ {W : Type 0} (now : W → ℕ × W)
    (chat_non_streaming : List ChatMessage → W → Result LlmError ChatResponse × W)
    (c : ContextCompressor) (s : ChatSession) (w : W) where
  pub compress_idle :
      (compress now chat_non_streaming c s w).0 ≡ none
      → compress now chat_non_streaming c s w ≡ (none, s, w)
  unfolding compress compress_older
  compress_idle h = ground arith

  -- Where a round is to be kept, Compress returns nil exactly when the conversation is within the
  -- limit or has one round at most; and whenever it returns nil, the session and the world stay as
  -- they are.
  pub compress-eq-none_iff :
      1 ≤ c.recent_rounds_to_keep
      → (((compress now chat_non_streaming c s w).0 ≡ none) ↔ (
          (needs_compression c (get_current_context_tokens s) ≡ false)
          ⊎ (length (identify_rounds s.messages) ≤ 1)))
        × ((compress now chat_non_streaming c s w).0 ≡ none
            → compress now chat_non_streaming c s w ≡ (none, s, w))
  unfolding compress compress_older keep_count
  compress-eq-none_iff h = (ground arith, compress_idle)

  -- Where Compress returns a result, a header and the summary of the oldest rounds stand in their
  -- place, of one round at least; the other rounds, as many as are to be kept or all but one, stay as
  -- they were. The result counts the tokens before, as the session has them, and after.
  pub compress_window :
      (r : CompressionResult)
      → (compress now chat_non_streaming c s w).0 ≡ some r
      → let rounds = identify_rounds s.messages in
        let s' = (compress now chat_non_streaming c s w).1 in
        let old = concat (take r.removed_rounds rounds) in
        let summary = (summarize now chat_non_streaming old w).0 in
        (s'.messages
          ≡ plain system_role (summary_header r.removed_rounds ++ summary)
            ∷ concat (drop r.removed_rounds rounds))
        × (1 ≤ r.removed_rounds)
        × (r.removed_rounds + min c.recent_rounds_to_keep (length rounds - 1) ≡ length rounds)
        × (r.compressed_tokens ≡ estimate_tokens s'.messages)
        × (r.original_tokens ≡ get_current_context_tokens s')
  unfolding compress compress_older keep_count replace_messages get_current_context_tokens
  compress_window r h = (ground arith, ground arith, ground arith, ground arith, ground arith)
