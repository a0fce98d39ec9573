-- ===== src/Server/Config.antt =====
-- config.go: AgentConfig, DefaultConfig and envOrDefault. getenv is a parameter, "" where a variable is
-- missing.
use go_debug_agent.Prelude.{Bool, true, [], if◌then◌else◌, is_empty}
use go_debug_agent.Prelude.Int.{pos}
use go_debug_agent.Prelude.Text.{Text, ascii}
use go_debug_agent.Llm.Types.{LlmConfig}

pub record AgentConfig : Type 0 where
  pub enabled : Bool
  pub base_path : Text
  pub llm : LlmConfig

module _ (getenv : Text → Text) where
  unfoldable pub env_or_default : Text → Text → Text
  env_or_default key default_val = if is_empty (getenv key) then default_val else getenv key

  unfoldable pub default_config : AgentConfig
  default_config = record {
    enabled = true;
    base_path = ascii "/agent";
    llm = record {
      base_url =
          env_or_default (ascii "LLM_BASE_URL")
            (ascii "https://open.bigmodel.cn/api/coding/paas/v4");
      api_key = env_or_default (ascii "LLM_API_KEY") (env_or_default (ascii "OPENAI_API_KEY") []);
      model = env_or_default (ascii "LLM_MODEL") (ascii "glm-5.2");
      temperature = 300;
      max_tokens = 4096;
      max_tool_rounds = 25;
      timeout_seconds = 120;
      max_retries = pos 3;
      retry_base_delay_ms = 1000;
      retry_max_delay_ms = 30000;
      context_window_tokens = 100000;
    };
  }
