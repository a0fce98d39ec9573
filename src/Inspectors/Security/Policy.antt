-- ===== src/Inspectors/Security/Policy.antt =====
-- inspector_security.go: extractPasswordPolicy and get_password_policy.
use go_debug_agent.Prelude.{List, [], ◌∷◌, ◌++◌, Option, none, some, if◌then◌else◌, length}
use go_debug_agent.Prelude.Map
use go_debug_agent.Prelude.Map.{text_key}
use go_debug_agent.Prelude.Text.{Text, ascii}
use go_debug_agent.Registry.Value.{Value, str, obj, Fields, end, field}
use go_debug_agent.Inspectors.Base.{object, array, count_value}
use go_debug_agent.Inspectors.Security.Words.{to_lower, to_lower_snake, contains_any}
use go_debug_agent.Inspectors.Security.Secrets.{
  NestedField, AuthField, AuthConfig, mapping, absent, struct, plain, tag_or, put_fields,
}

abbrev pub policy_keys : List Text
policy_keys =
    ascii "min_length"
    ∷ ascii "min_password_length"
    ∷ ascii "require_uppercase"
    ∷ ascii "require_lowercase"
    ∷ ascii "require_digit"
    ∷ ascii "require_symbol"
    ∷ ascii "expiry_days"
    ∷ ascii "password_expiry"
    ∷ []

-- Field names that are shown, and names of fields whose struct is shown.
abbrev policy_words : List Text
policy_words =
    ascii "password"
    ∷ ascii "minlength"
    ∷ ascii "min_length"
    ∷ ascii "expiry"
    ∷ ascii "complexity"
    ∷ []

abbrev nested_words : List Text
nested_words = ascii "password" ∷ ascii "policy" ∷ []

module _ {X : Type 0} where
  unfoldable pub put_keys :
      List Text → List (Text × Value X) → List (Text × Value X) → List (Text × Value X)
  put_keys [] m result = result
  put_keys (key ∷ keys) m result =
      put_keys keys m (elim (Map.lookup key m) [ none ↦ result | some v ↦ Map.insert key v result ])

  unfoldable pub entries_of : Fields X → List (Text × Value X)
  entries_of end = []
  entries_of (field name value fs) = (name, value) ∷ entries_of fs

  -- The entries of a value that is a map.
  unfoldable pub map_entries : Option (Value X) → List (Text × Value X)
  map_entries (some (obj fs)) = entries_of fs
  map_entries _ = []

  unfoldable pub put_nested : List (NestedField X) → List (Text × Value X) → List (Text × Value X)
  put_nested [] result = result
  put_nested (f ∷ fs) result = put_nested fs (
      if f.exported
      then Map.insert (tag_or f.json_tag (to_lower_snake f.name)) f.value result
      else result)

  unfoldable pub put_if_nested :
      Text → Option (List (NestedField X)) → List (Text × Value X) → List (Text × Value X)
  put_if_nested name none result = result
  put_if_nested name (some fs) result =
      if contains_any (to_lower name) nested_words then put_nested fs result else result

  unfoldable pub put_policy_field : AuthField X → List (Text × Value X) → List (Text × Value X)
  put_policy_field f result =
      if f.exported
      then put_if_nested f.name f.nested (
          if contains_any (to_lower f.name) policy_words
          then Map.insert (tag_or f.json_tag (to_lower_snake f.name)) f.value result
          else result)
      else result

  unfoldable pub put_policy_fields :
      List (AuthField X) → List (Text × Value X) → List (Text × Value X)
  put_policy_fields [] result = result
  put_policy_fields (f ∷ fs) result = put_policy_fields fs (put_policy_field f result)

  unfoldable pub extract_password_policy : AuthConfig X → List (Text × Value X)
  extract_password_policy (mapping m) =
      put_fields (map_entries (Map.lookup (ascii "password_policy") m)) (put_keys policy_keys m [])
  extract_password_policy absent = []
  extract_password_policy (struct fields) = put_policy_fields fields []
  extract_password_policy (plain cfg) = []

  -- The configurations stand in the order of the range.
  unfoldable pub policies : List (Text × AuthConfig X) → List (Value X)
  policies [] = []
  policies ((name, cfg) ∷ cfgs) =
      object (Map.insert (ascii "auth_config") (str name) (extract_password_policy cfg))
      ∷ policies cfgs

  unfoldable pub get_password_policy : List (Text × AuthConfig X) → Value X
  get_password_policy [] = object (
      (
        ascii "message",
        str (
            ascii "No auth configs registered. Register a config with password policy fields via "
            ++ ascii "RegisterAuthConfig()."),
      )
      ∷ (ascii "count", count_value 0)
      ∷ [])
  get_password_policy (c ∷ cs) =
      let shown = policies (c ∷ cs) in
      object ((ascii "count", count_value (length shown)) ∷ (ascii "policies", array shown) ∷ [])
