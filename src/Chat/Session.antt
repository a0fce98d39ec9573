-- ===== src/Chat/Session.antt =====
-- chat_session.go: the history of a conversation and its token counts. The time of each call is an
-- argument; a pointer to a usage record is an option.
use go_debug_agent.Prelude.{ℕ, ◌+◌, ◌≡◌, refl, List, [], ◌∷◌, ◌++◌, Option, none, some}
use go_debug_agent.Prelude.Text.{Text}
use go_debug_agent.Chat.Message.{ChatMessage, TokenUsage}

pub record ChatSession : Type 0 where
  pub session_id : Text
  pub messages : List ChatMessage
  pub created_at : ℕ
  pub last_active_at : ℕ
  pub last_token_usage : Option TokenUsage
  pub cumulative_prompt_tokens : ℕ
  pub cumulative_completion_tokens : ℕ

unfoldable pub new_chat_session : ℕ → Text → ChatSession
new_chat_session now session_id = record {
  session_id = session_id;
  messages = [];
  created_at = now;
  last_active_at = now;
  last_token_usage = none;
  cumulative_prompt_tokens = 0;
  cumulative_completion_tokens = 0;
}

unfoldable pub add_message : ℕ → ChatMessage → ChatSession → ChatSession
add_message now msg s = record s { messages = s.messages ++ msg ∷ []; last_active_at = now }

unfoldable pub replace_messages : ℕ → List ChatMessage → ChatSession → ChatSession
replace_messages now msgs s = record s { messages = msgs; last_active_at = now }

unfoldable pub record_token_usage : Option TokenUsage → ChatSession → ChatSession
record_token_usage none s = s
record_token_usage (some usage) s = record s {
  last_token_usage = some usage;
  cumulative_prompt_tokens = usage.prompt_tokens;
  cumulative_completion_tokens = s.cumulative_completion_tokens + usage.completion_tokens;
}

unfoldable pub get_current_context_tokens : ChatSession → ℕ
get_current_context_tokens s = s.cumulative_prompt_tokens

unfoldable pub clear : ℕ → ChatSession → ChatSession
clear now s = record s {
  messages = [];
  last_token_usage = none;
  cumulative_prompt_tokens = 0;
  cumulative_completion_tokens = 0;
  last_active_at = now;
}

pub record_token_usage-messages :
    (usage : Option TokenUsage) (s : ChatSession)
    → (record_token_usage usage s).messages ≡ s.messages
unfolding record_token_usage
record_token_usage-messages none s = refl
record_token_usage-messages (some usage) s = refl
