-- ===== src/Inspectors/Services/Groups.antt =====
-- inspector_registry.go: groupToolsByInspector and the tool get_registered_services. sort.Strings,
-- sort.Slice and the order of a range are parameters.
use go_debug_agent.Prelude.{ℕ, ◌+◌, List, [], ◌∷◌, ◌++◌, map, Option, none, some, length, Bool}
use go_debug_agent.Prelude.Map
use go_debug_agent.Prelude.Map.{text_key}
use go_debug_agent.Prelude.Text.{Text, ascii, text_eq}
use go_debug_agent.Registry.Value.{Value, str}
use go_debug_agent.Inspectors.Base.{object, array, count_value}
use go_debug_agent.Inspectors.Services.Categories.{infer_inspector_name, inspector_description}

pub record InspectorGroup : Type 0 where
  pub name : Text
  pub tools : List Text
  pub description : Text

abbrev pub Groups : Type 0
Groups = List (Text × List Text)

-- groups[inspector], which is empty where it is missing.
unfoldable pub tools_of : Option (List Text) → List Text
tools_of none = []
tools_of (some tools) = tools

unfoldable pub add_tool : Text → Groups → Groups
add_tool name groups =
    let inspector = infer_inspector_name name in
    Map.insert inspector (tools_of (Map.lookup inspector groups) ++ name ∷ []) groups

unfoldable pub add_tools : List Text → Groups → Groups
add_tools [] groups = groups
add_tools (name ∷ names) groups = add_tools names (add_tool name groups)

unfoldable pub group_of : Text × List Text → InspectorGroup
group_of (name, tools) = record {
  name = name;
  tools = tools;
  description = inspector_description name;
}

-- The slice of groups before it is sorted by name, where a range visits the map in an order.
unfoldable pub group_tools_by_inspector :
    (List Text → List Text)
    → (Groups → Groups)
    → (List InspectorGroup → List InspectorGroup)
    → List Text
    → List InspectorGroup
group_tools_by_inspector sort_strings range sort_groups names =
    sort_groups (map group_of (range (add_tools (sort_strings names) [])))

-- totalTools
unfoldable pub total_tools : List InspectorGroup → ℕ
total_tools [] = 0
total_tools (svc ∷ services) = length svc.tools + total_tools services

module _ {X : Type 0} where
  unfoldable pub service_entry : InspectorGroup → Value X
  service_entry svc = object (
      (ascii "inspector", str svc.name)
      ∷ (ascii "tool_count", count_value (length svc.tools))
      ∷ (ascii "tools", array (map str svc.tools))
      ∷ (ascii "description", str svc.description)
      ∷ [])

  unfoldable pub get_registered_services : List InspectorGroup → Value X
  get_registered_services services = object (
      (ascii "total_tools", count_value (total_tools services))
      ∷ (ascii "total_inspectors", count_value (length services))
      ∷ (ascii "services", array (map service_entry services))
      ∷ [])

-- The tools of an inspector.
abbrev pub is_of : Text → Text → Bool
is_of inspector name = text_eq (infer_inspector_name name) inspector
