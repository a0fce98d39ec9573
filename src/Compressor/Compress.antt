-- ===== src/Compressor/Compress.antt =====
-- context_compressor.go: NeedsCompression and Compress. The client and the clock act on a world of
-- which only they know more.
use go_debug_agent.Prelude.{
  ℕ, ◌-◌, ◌*◌, ◌/◌, Bool, List, ◌∷◌, ◌++◌, Option, none, some, ltb, leb, if◌then◌else◌, length,
  take, drop, concat,
}
use go_debug_agent.Prelude.Result.{Result, ok, err}
use go_debug_agent.Prelude.Text.{Text, ascii, decimal}
use go_debug_agent.Chat.Message.{ChatMessage, system_role}
use go_debug_agent.Chat.Session.{ChatSession, get_current_context_tokens, replace_messages}
use go_debug_agent.Llm.Types.{LlmError, ChatResponse}
use go_debug_agent.Compressor.Rounds.{identify_rounds}
use go_debug_agent.Compressor.Summary.{
  plain, em_dash, newline, summary_request, summary_of, fallback_truncate, estimate_tokens,
}

pub record ContextCompressor : Type 0 where
  pub max_context_tokens : ℕ
  pub recent_rounds_to_keep : ℕ

unfoldable pub new_context_compressor : ℕ → ContextCompressor
new_context_compressor max_tokens = record {
  max_context_tokens = max_tokens;
  recent_rounds_to_keep = 3;
}

-- currentTokens > int(float64(maxContextTokens) * 0.75): the product is exact below 2^51.
unfoldable pub needs_compression : ContextCompressor → ℕ → Bool
needs_compression c current_tokens = ltb (3 * c.max_context_tokens / 4) current_tokens

pub record CompressionResult : Type 0 where
  pub original_tokens : ℕ
  pub compressed_tokens : ℕ
  pub removed_rounds : ℕ
  pub strategy : Text

-- keepCount, where `n` is len(rounds). It is -1 for no rounds in the code, and 0 here: both are
-- below 1.
unfoldable pub keep_count : ContextCompressor → ℕ → ℕ
keep_count c n = if leb n c.recent_rounds_to_keep then n - 1 else c.recent_rounds_to_keep

unfoldable pub summary_header : ℕ → Text
summary_header n =
    ascii "[Previous conversation summary "
    ++ em_dash
    ++ ascii " "
    ++ decimal n
    ++ ascii " rounds compressed]"
    ++ newline
    ++ newline

module _ {W : Type 0} (now : W → ℕ × W)
    (chat_non_streaming : List ChatMessage → W → Result LlmError ChatResponse × W) where
  -- The summary, by the model or by fallbackTruncate where the model fails.
  unfoldable pub summarize : List ChatMessage → W → Text × W
  summarize old w =
      let (answer, w') = chat_non_streaming (summary_request old) w in
      elim (summary_of answer) [ ok summary ↦ (summary, w') | err _ ↦ (fallback_truncate old, w') ]

  -- Compress, from `summarizeCount` on.
  unfoldable pub compress_older :
      ChatSession → List (List ChatMessage) → ℕ → W → Option CompressionResult × ChatSession × W
  compress_older s rounds summarize_count w =
      let to_summarize = concat (take summarize_count rounds) in
      let to_keep = concat (drop summarize_count rounds) in
      let (summary, w') = summarize to_summarize w in
      let compressed = plain system_role (summary_header summarize_count ++ summary) ∷ to_keep in
      let (t, w'') = now w' in
      (
        some (record {
          original_tokens = get_current_context_tokens s;
          compressed_tokens = estimate_tokens compressed;
          removed_rounds = summarize_count;
          strategy = ascii "LLM summarized " ++ decimal summarize_count ++ ascii " rounds";
        }),
        replace_messages t compressed s,
        w'',
      )

  -- The guards of Compress; nil is returned with nothing done.
  unfoldable pub compress :
      ContextCompressor → ChatSession → W → Option CompressionResult × ChatSession × W
  compress c s w =
      let rounds = identify_rounds s.messages in
      let keep = keep_count c (length rounds) in
      if needs_compression c (get_current_context_tokens s)
      then (if ltb keep 1 then (none, s, w) else compress_older s rounds (length rounds - keep) w)
      else (none, s, w)
