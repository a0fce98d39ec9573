-- ===== src/Engine/Types.antt =====
-- engine.go and llm_client.go: the engine's parts, the calls of a ChatCallback, and what a turn of
-- the loop changes.
use go_debug_agent.Prelude.{ℕ, List, [], ◌∷◌, ◌++◌, Bool}
use go_debug_agent.Prelude.Text.{Text}
use go_debug_agent.Chat.Message.{ChatMessage}
use go_debug_agent.Chat.Session.{ChatSession, add_message}
use go_debug_agent.Compressor.Compress.{ContextCompressor}
use go_debug_agent.Llm.Client.{Client}
use go_debug_agent.Registry.Tools.{Registry, ToolParam}
use go_debug_agent.Registry.Value.{Value}

-- The calls of a ChatCallback.
pub data Callback : Type 0 where
  on_content : Text → Callback
  on_tool_start : Text → Text → Callback
  on_tool_result : Text → Text → Callback
  on_complete : Callback
  on_error : Text → Callback
  on_context_compressed : ℕ → ℕ → ℕ → Callback

-- time.Now, the order in which a range meets the tools and their parameters, and the JSON library:
-- the map that json.Unmarshal leaves in an empty one, and the bytes of json.Marshal.
pub record Runtime (W A X : Type 0) : Type 0 where
  pub now : W → ℕ × W
  pub range_tools : Registry W A X → W → Registry W A X × W
  pub range_params : List (Text × ToolParam) → List (Text × ToolParam)
  pub no_args : A
  pub unmarshal_args : Text → A
  pub marshal : Value X → Text

pub record DebugEngine (W A X : Type 0) : Type 0 where
  pub max_tool_rounds : ℕ
  pub system_prompt : Text
  pub context_compressor : ContextCompressor
  pub llm : Client W X
  pub tools : Registry W A X

-- The session, the calls of the callback so far, and the world.
pub record Turn (W : Type 0) : Type 0 where
  pub session : ChatSession
  pub calls : List Callback
  pub world : W

module _ {W : Type 0} where
  unfoldable pub emit : Callback → Turn W → Turn W
  emit call t = record t { calls = t.calls ++ call ∷ [] }

  -- session.AddMessage(msg)
  unfoldable pub add : (W → ℕ × W) → ChatMessage → Turn W → Turn W
  add now msg t =
      let (time, w) = now t.world in
      record t { session = add_message time msg t.session; world = w }

-- What a round of the loop ends in: another round, with the new value of emptyRetried; a return; the
-- panic of a tool, which nothing recovers from here; or a WaitGroup that never comes to zero or falls
-- below it.
pub data Step (W : Type 0) : Type 0 where
  again : Bool → Turn W → Step W
  done : Turn W → Step W
  crashed : Turn W → Step W
  stuck : Step W

-- What a call of the engine ends in: a return, a panic with what it leaves behind, or neither.
pub data Ending (B : Type 0) : Type 0 where
  returned : B → Ending B
  panicked : B → Ending B
  hung : Ending B
