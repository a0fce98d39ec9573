-- ===== src/Registry/Tools.antt =====
-- tool_registry.go: definitions of tools, the registry and its operations. A tool's function acts on
-- a world; its arguments and the values of other Go types that it returns are parameters.
use go_debug_agent.Prelude.{Bool, List, [], ◌∷◌, ◌++◌, map, Option, none, some, if◌then◌else◌}
use go_debug_agent.Prelude.Map
use go_debug_agent.Prelude.Map.{text_key}
use go_debug_agent.Prelude.Result.{Result, ok, err}
use go_debug_agent.Prelude.Text.{Text, ascii}
use go_debug_agent.Registry.Value.{Value, str, arr, obj, Items, nil, cons, Fields, end, field}

pub record ToolParam : Type 0 where
  pub type : Text
  pub description : Text
  pub required : Bool

-- `A` stands for map[string]any, the decoded arguments, and the error of a tool is its text. A call
-- that panics has no result.
abbrev pub ToolFunc : Type 0 → Type 0 → Type 0 → Type 0
ToolFunc W A X = A → W → Option (Result Text (Value X)) × W

pub record ToolDefinition (W A X : Type 0) : Type 0 where
  pub name : Text
  pub description : Text
  pub func : ToolFunc W A X
  pub params : List (Text × ToolParam)

-- map[string]any{"type": ..., "description": ...}
param_schema : {X : Type 0} → ToolParam → Value X
param_schema p =
    obj (field (ascii "type") (str p.type) (field (ascii "description") (str p.description) end))

-- The loop of Schema over the parameters, in the order of the range: props and required.
props : {X : Type 0} → List (Text × ToolParam) → Fields X
unfolding param_schema
props [] = end
props ((pname, pmeta) ∷ ps) = field pname (param_schema pmeta) (props ps)

required : {X : Type 0} → List (Text × ToolParam) → Items X
required [] = nil
required ((pname, pmeta) ∷ ps) =
    if pmeta.required then cons (str pname) (required ps) else required ps

abbrev pub Registry : Type 0 → Type 0 → Type 0 → Type 0
Registry W A X = List (Text × ToolDefinition W A X)

-- map[string]any{"error": msg}
unfoldable pub error_value : {X : Type 0} → Text → Value X
error_value msg = obj (field (ascii "error") (str msg) end)

module _ {W A X : Type 0} where
  -- Schema, where `visited` is the order in which the range meets the parameters.
  unfoldable pub schema_in : List (Text × ToolParam) → ToolDefinition W A X → Value X
  unfolding props required
  schema_in visited t = obj (
      field (ascii "type") (str (ascii "function")) (
        field (ascii "function")
          (obj (
            field (ascii "name") (str t.name) (
              field (ascii "description") (str t.description) (
                field (ascii "parameters")
                  (obj (
                    field (ascii "type") (str (ascii "object")) (
                      field (ascii "properties") (obj (props visited))
                        (field (ascii "required") (arr (required visited)) end))))
                  end))))
          end))

  unfoldable pub register_tool :
      Text → Text → List (Text × ToolParam) → ToolFunc W A X → Registry W A X → Registry W A X
  register_tool name description params fn tools =
      Map.insert name
        (record { name = name; description = description; func = fn; params = params }) tools

  -- AllSchemas, where `visited` is the order in which the range meets the tools, and `order` that of
  -- each tool's parameters.
  unfoldable pub all_schemas :
      (List (Text × ToolParam) → List (Text × ToolParam)) → Registry W A X → List (Value X)
  all_schemas order visited = map (λ e. schema_in (order e.1.params) e.1) visited

  -- The panic of a tool's function is the panic of ExecuteTool.
  unfoldable pub execute_tool : Registry W A X → Text → A → W → Option (Value X) × W
  unfolding error_value
  execute_tool tools name args w = elim (Map.lookup name tools) [
    | none ↦ (some (error_value (ascii "Unknown tool: " ++ name)), w)
    | some tool ↦
        let (answer, w') = tool.func args w in
        elim answer [
          | none ↦ (none, w')
          | some (ok result) ↦ (some result, w')
          | some (err message) ↦ (some (error_value message), w')
        ]
  ]

  -- ToolNames, in the order of the range.
  unfoldable pub tool_names : Registry W A X → List Text
  tool_names visited = map (λ e. e.0) visited
