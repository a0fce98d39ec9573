-- ===== src/Chat/Message.antt =====
-- llm_client.go: the chat messages, tool calls and token counts that the client exchanges, and the
-- four roles that the program gives its messages.
use go_debug_agent.Prelude.{ℕ, ◌≡◌, List, Bool, true, false}
use go_debug_agent.Prelude.Text.{Text, ascii, text_eq, text_eq_iff}

pub record ToolFunction : Type 0 where
  pub name : Text
  pub arguments : Text

pub record ToolCall : Type 0 where
  pub id : Text
  pub type : Text
  pub function : ToolFunction

pub record ChatMessage : Type 0 where
  pub role : Text
  pub content : Text
  pub tool_calls : List ToolCall
  pub tool_call_id : Text

pub record TokenUsage : Type 0 where
  pub prompt_tokens : ℕ
  pub completion_tokens : ℕ
  pub total_tokens : ℕ

abbrev pub user_role : Text
user_role = ascii "user"

abbrev pub assistant_role : Text
assistant_role = ascii "assistant"

abbrev pub system_role : Text
system_role = ascii "system"

abbrev pub tool_role : Text
tool_role = ascii "tool"

-- msg.Role == "user", and so on.
unfoldable pub has_role : Text → ChatMessage → Bool
has_role r m = text_eq m.role r

-- The roles are four different texts.
pub not-has_role :
    (r q : Text) (m : ChatMessage)
    → text_eq r q ≡ false
    → has_role r m ≡ true
    → has_role q m ≡ false
unfolding has_role
not-has_role r q m ne h = rw ((text_eq_iff m.role r).0 h) ne
