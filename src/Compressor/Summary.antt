-- ===== src/Compressor/Summary.antt =====
-- context_compressor.go: the text that stands for the older rounds, asked of the model by
-- summarizeWithLLM or put together by fallbackTruncate, and estimateTokens.
use go_debug_agent.Prelude.{
  ℕ, ◌+◌, ◌/◌, ◌&&◌, not, List, [], ◌∷◌, ◌++◌, ltb, if◌then◌else◌, length, is_empty, take,
}
use go_debug_agent.Prelude.Result.{Result, ok, err}
use go_debug_agent.Prelude.Text.{Text, ascii}
use go_debug_agent.Chat.Message.{
  ChatMessage, ToolCall, has_role, user_role, assistant_role, tool_role, system_role,
}
use go_debug_agent.Llm.Types.{LlmError, ChatResponse}

-- An em dash, in UTF-8.
abbrev pub em_dash : Text
em_dash = 0xE2 ∷ 0x80 ∷ 0x94 ∷ []

abbrev pub newline : Text
newline = 10 ∷ []

abbrev blank : Text
blank = newline ++ newline

-- The text s, or its first n bytes and a mark where it is longer.
unfoldable pub clip : ℕ → Text → Text → Text
clip n mark s = if ltb n (length s) then take n s ++ mark else s

tool_call_lines : List ToolCall → Text
tool_call_lines [] = []
tool_call_lines (tc ∷ tcs) =
    (ascii "[Tool Call] "
      ++ tc.function.name
      ++ ascii "("
      ++ tc.function.arguments
      ++ ascii ")"
      ++ blank)
    ++ tool_call_lines tcs

-- The switch over the role in summarizeWithLLM.
transcript_message : ChatMessage → Text
transcript_message msg =
    if has_role user_role msg
    then ascii "[User] " ++ msg.content ++ blank
    else (if has_role assistant_role msg
        then (if is_empty msg.content then [] else ascii "[Assistant] " ++ msg.content ++ blank)
          ++ tool_call_lines msg.tool_calls
        else (if has_role tool_role msg
            then ascii "[Tool Result] " ++ clip 2000 (ascii "...[truncated]") msg.content ++ blank
            else []))

unfoldable pub transcript : List ChatMessage → Text
unfolding tool_call_lines transcript_message clip
transcript [] = []
transcript (msg ∷ msgs) = transcript_message msg ++ transcript msgs

unfoldable pub summary_prompt : Text
summary_prompt =
    ascii "You are a conversation summarizer for a Go debugging assistant."
    ++ newline
    ++ ascii "Summarize the KEY diagnostic findings from the conversation below concisely."
    ++ blank
    ++ ascii "Focus on preserving:"
    ++ newline
    ++ ascii "- Problems investigated and their root causes (if found)"
    ++ newline
    ++ ascii "- Key tool results: actual numbers, statuses, error messages, configuration values"
    ++ newline
    ++ ascii "- Recommendations or fixes already suggested"
    ++ newline
    ++ ascii "- Any unresolved issues or follow-up actions pending"
    ++ blank
    ++ ascii "Rules:"
    ++ newline
    ++ ascii "- Be concise but preserve ALL important data points"
    ++ newline
    ++ ascii "- Use bullet points"
    ++ newline
    ++ ascii "- Do NOT include full JSON dumps "
    ++ em_dash
    ++ ascii " extract only the meaningful values"
    ++ newline
    ++ ascii "- Keep it under 600 words"

abbrev pub plain : Text → Text → ChatMessage
plain role content = record { role = role; content = content; tool_calls = []; tool_call_id = [] }

unfoldable pub summary_request : List ChatMessage → List ChatMessage
unfolding transcript summary_prompt
summary_request old =
    plain system_role summary_prompt
    ∷ plain user_role (ascii "Conversation to summarize:" ++ blank ++ transcript old)
    ∷ []

-- What summarizeWithLLM makes of the client's answer.
unfoldable pub summary_of : Result LlmError ChatResponse → Result LlmError Text
summary_of (err e) = err e
summary_of (ok resp) = elim resp.choices [
  | [] ↦ ok (ascii "(summary unavailable)")
  | choice ∷ _ ↦ ok choice.message.content
]

called_tools : List ToolCall → Text
called_tools [] = []
called_tools (tc ∷ tcs) =
    (ascii "- Called tool: " ++ tc.function.name ++ newline) ++ called_tools tcs

fallback_message : ChatMessage → Text
unfolding called_tools
fallback_message msg =
    (if has_role user_role msg && not (is_empty msg.content)
      then ascii "- User asked: " ++ clip 100 (ascii "...") msg.content ++ newline
      else [])
    ++ (if has_role assistant_role msg then called_tools msg.tool_calls else [])

fallback_lines : List ChatMessage → Text
unfolding fallback_message
fallback_lines [] = []
fallback_lines (msg ∷ msgs) = fallback_message msg ++ fallback_lines msgs

unfoldable pub fallback_truncate : List ChatMessage → Text
unfolding fallback_lines clip
fallback_truncate messages =
    ascii "Previous conversation summary (fallback):" ++ blank ++ fallback_lines messages

call_chars : List ToolCall → ℕ
call_chars [] = 0
call_chars (tc ∷ tcs) = length tc.function.name + length tc.function.arguments + call_chars tcs

unfoldable pub message_chars : List ChatMessage → ℕ
unfolding call_chars
message_chars [] = 0
message_chars (msg ∷ msgs) = length msg.content + call_chars msg.tool_calls + message_chars msgs

unfoldable pub estimate_tokens : List ChatMessage → ℕ
unfolding message_chars
estimate_tokens messages = message_chars messages / 4
