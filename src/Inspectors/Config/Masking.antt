-- ===== src/Inspectors/Config/Masking.antt =====
-- inspector_config.go: the keys whose values are masked, and get_env_vars.
use go_debug_agent.Prelude.{
  ℕ, ◌+◌, ◌≡◌, refl, ◌∙◌, ap, Bool, false, ◌&&◌, ◌||◌, not, List, [], ◌∷◌, map, Option, none, some,
  if◌then◌else◌, length, is_empty, take, drop, arith, Bool-cases, inl, inr, Option-cases,
}
use mathlib.Core.Option
use go_debug_agent.Prelude.Map
use go_debug_agent.Prelude.Map.{text_key, lookup-insert}
use go_debug_agent.Prelude.Text.{Text, ascii, text_eq, text_eq_iff, has_prefix}
use go_debug_agent.Registry.Value.{Value, str}
use go_debug_agent.Inspectors.Base.{object, count_value, count_if, index_byte}
use go_debug_agent.Inspectors.Logs.Buffer.{Strings}
use go_debug_agent.Inspectors.Logs.Writer.{contains}

-- In the order that init sorts them into.
abbrev pub sensitive_key_words : List Text
sensitive_key_words =
    ascii "api_key"
    ∷ ascii "credential"
    ∷ ascii "password"
    ∷ ascii "private_key"
    ∷ ascii "secret"
    ∷ ascii "token"
    ∷ []

unfoldable pub contains_some : Text → List Text → Bool
contains_some s [] = false
contains_some s (word ∷ words) = contains s word || contains_some s words

abbrev pub mask : Text
mask = ascii "***"

-- A map of values by key, and the number of values that were masked.
abbrev pub Masked : Type 0
Masked = List (Text × Text) × ℕ

module _ (strings : Strings) where
  unfoldable pub is_sensitive_key : Text → Bool
  is_sensitive_key key = contains_some (strings.to_lower key) sensitive_key_words

  unfoldable pub put_value : Text → Text → Masked → Masked
  put_value key value m =
      if is_sensitive_key key
      then (Map.insert key mask m.0, m.1 + 1)
      else (Map.insert key value m.0, m.1)

  unfoldable pub put_values : List (Text × Text) → Masked → Masked
  put_values [] m = m
  put_values (entry ∷ entries) m = put_values entries (put_value entry.0 entry.1 m)

-- The key and the value of "KEY=value", which is skipped without a "=".
unfoldable pub split_env : Text → Option (Text × Text)
split_env env = Option.map (λ idx. (take idx env, drop (idx + 1) env)) (index_byte 61 env)

-- The variables that pass the prefix, "" being none, as keys and values.
unfoldable pub env_entries : Text → List Text → List (Text × Text)
env_entries prefix [] = []
env_entries prefix (env ∷ envs) =
    let rest = env_entries prefix envs in
    if not (is_empty prefix) && not (has_prefix env prefix)
    then rest
    else elim (split_env env) [ none ↦ rest | some entry ↦ entry ∷ rest ]

module _ (strings : Strings) where
  unfoldable pub env_vars : Text → List Text → Masked
  env_vars prefix envs = put_values strings (env_entries prefix envs) ([], 0)

  -- os.Environ() is an argument.
  unfoldable pub get_env_vars : {X : Type 0} → Text → List Text → Value X
  get_env_vars prefix envs =
      let (result, masked_count) = env_vars prefix envs in
      object (
        (ascii "count", count_value (length result))
        ∷ (ascii "masked_count", count_value masked_count)
        ∷ (ascii "env_vars", object (map (λ e. (e.0, str e.1)) result))
        ∷ (ascii "prefix", str prefix)
        ∷ [])

-- The value that a key has last, if it has one.
unfoldable pub last_value : Text → List (Text × Text) → Option Text
last_value key [] = none
last_value key (entry ∷ entries) =
    let later = last_value key entries in
    elim later [
      | some value ↦ some value
      | none ↦ if text_eq entry.0 key then some entry.1 else none
    ]

module _ (strings : Strings) where
  -- What is shown of the value of a key.
  unfoldable pub shown : Text → Text → Text
  shown key value = if is_sensitive_key strings key then mask else value

  put_value-insert :
      (k value : Text) (m : Masked)
      → (put_value strings k value m).0 ≡ Map.insert k (shown k value) m.0
  unfolding put_value shown
  put_value-insert k value m = elim (Bool-cases (is_sensitive_key strings k)) [
    | inl e ↦ rw e refl
    | inr e ↦ rw e refl
  ]

  lookup-put_value :
      (key k value : Text) (m : Masked)
      → Map.lookup key (put_value strings k value m).0
        ≡ (if text_eq k key then some (shown key value) else Map.lookup key m.0)
  lookup-put_value key k value m =
      let found =
        ap (Map.lookup key) (put_value-insert k value m)
        ∙ lookup-insert k key (shown k value) m.0 in
      elim (Bool-cases (text_eq k key)) [
        | inl e ↦ rw e (rw e at found ∙ ap (λ t. some (shown t value)) ((text_eq_iff k key).0 e))
        | inr e ↦ rw e (rw e at found)
      ]

  -- What is shown of a key's last value, or what the map held of a key without one.
  or_held : Text → Option Text → Option Text → Option Text
  or_held key none held = held
  or_held key (some value) held = some (shown key value)

  lookup-put_values :
      (key : Text) (entries : List (Text × Text)) (m : Masked)
      → Map.lookup key (put_values strings entries m).0
        ≡ or_held key (last_value key entries) (Map.lookup key m.0)
  unfolding put_values last_value or_held
  lookup-put_values key [] m = refl
  lookup-put_values key (entry ∷ entries) m =
      let later = lookup-put_values key entries (put_value strings entry.0 entry.1 m) in
      let now = lookup-put_value key entry.0 entry.1 m in
      elim (Option-cases (last_value key entries)) [
        | inr found ↦ rw found.1 (rw found.1 at later)
        | inl e ↦ rw e (
            (rw e at later)
            ∙ now
            ∙ (elim (Bool-cases (text_eq entry.0 key)) [ inl t ↦ rw t refl | inr t ↦ rw t refl ]))
      ]

  count-put_values :
      (entries : List (Text × Text)) (m : Masked)
      → (put_values strings entries m).1
        ≡ m.1 + count_if (λ e. is_sensitive_key strings e.0) entries
  unfolding put_values put_value count_if
  count-put_values [] m = omega arith
  count-put_values (entry ∷ entries) m =
      ground (arith, count-put_values entries (put_value strings entry.0 entry.1 m))

  or_held_empty :
      (key : Text) (value : Option Text) → or_held key value none ≡ Option.map (shown key) value
  unfolding or_held
  or_held_empty key none = refl
  or_held_empty key (some value) = refl

  -- Each key has what is shown of its last value, and the sensitive ones are counted.
  abbrev pub IsShown : List (Text × Text) → Masked → Type 0
  IsShown entries m =
      ((key : Text) → Map.lookup key m.0 ≡ Option.map (shown key) (last_value key entries))
      × (m.1 ≡ count_if (λ e. is_sensitive_key strings e.0) entries)

  pub put_values-IsShown :
      (entries : List (Text × Text)) → IsShown entries (put_values strings entries ([], 0))
  unfolding Map.lookup
  put_values-IsShown entries = (
    λ key. lookup-put_values key entries ([], 0) ∙ or_held_empty key (last_value key entries),
    omega (arith, count-put_values entries ([], 0)),
  )

  -- get_env_vars: a key has the value that the last of its variables with the prefix has, or "***"
  -- if the key is sensitive, and no value if there is none; and masked_count is the number of
  -- variables shown whose key is sensitive.
  env_vars-IsShown :
      (prefix : Text) (envs : List Text)
      → IsShown (env_entries prefix envs) (env_vars strings prefix envs)
  unfolding env_vars
  env_vars-IsShown prefix envs = put_values-IsShown (env_entries prefix envs)
