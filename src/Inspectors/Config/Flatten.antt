-- ===== src/Inspectors/Config/Flatten.antt =====
-- inspector_config.go: flattenConfig and stringifyValue, on what reflection shows of a value.
use go_debug_agent.Prelude.{
  ℕ, ◌≡◌, refl, sym, ◌∙◌, Bool, List, [], ◌∷◌, ◌++◌, Option, none, some, if◌then◌else◌, is_empty,
  take, subst, ap, ◌==◌, Bool-cases, Option-cases, inl, inr,
}
use go_debug_agent.Prelude.Map
use go_debug_agent.Prelude.Map.{text_key}
use go_debug_agent.Prelude.Int.{ℤ, decimal_int}
use go_debug_agent.Prelude.Text.{Text, ascii, text_eq, decimal}
use go_debug_agent.Inspectors.Base.{index_byte}
use go_debug_agent.Inspectors.Logs.Buffer.{Strings}
use go_debug_agent.Inspectors.Config.Masking.{
  Masked, put_value, put_values, IsShown, put_values-IsShown,
}

-- A value by its kind. `printed` is one of a kind that fmt prints with %v, by what it prints, and a
-- value whose reading panics is `unreadable`.
pub data Reflected : Type 0 where
  unreadable : Reflected
  string : Text → Reflected
  boolean : Bool → Reflected
  signed : ℤ → Reflected
  unsigned : ℕ → Reflected
  printed : Text → Reflected
  null : Reflected
  pointer : Reflected → Reflected

pub record ConfigField : Type 0 where
  pub name : Text
  pub json_tag : Text
  pub exported : Bool
  pub value : Reflected

-- A configuration behind at most one pointer: nil, a struct, a map with its keys as %v prints them,
-- or a value of another kind.
pub data Config : Type 0 where
  absent : Config
  struct : List ConfigField → Config
  mapping : List (Text × Reflected) → Config
  single : Reflected → Config

unfoldable pub stringify_value : Reflected → Text
stringify_value unreadable = []
stringify_value (string s) = s
stringify_value (boolean b) = if b then ascii "true" else ascii "false"
stringify_value (signed i) = decimal_int i
stringify_value (unsigned n) = decimal n
stringify_value (printed s) = s
stringify_value null = ascii "<nil>"
stringify_value (pointer value) = stringify_value value

-- The tag up to a comma, or the field's name where there is no tag.
unfoldable pub json_name : ConfigField → Text
json_name field =
    if is_empty field.json_tag then field.name else elim (index_byte 44 field.json_tag) [
      | none ↦ field.json_tag
      | some comma_idx ↦ take comma_idx field.json_tag
    ]

-- The key and the text of a field, which is skipped where it is not exported or has the tag "-".
unfoldable pub field_entry : ConfigField → Option (Text × Text)
field_entry field =
    if field.exported
    then (if is_empty field.json_tag
        then some (field.name, stringify_value field.value)
        else (if text_eq (json_name field) (ascii "-")
            then none
            else some (json_name field, stringify_value field.value)))
    else none

module _ (strings : Strings) where
  -- The turn of a field, which a skipped one leaves at once.
  unfoldable pub put_entry : Option (Text × Text) → Masked → Masked
  put_entry none m = m
  put_entry (some entry) m = put_value strings entry.0 entry.1 m

  unfoldable pub flatten_fields : List ConfigField → Masked → Masked
  flatten_fields [] m = m
  flatten_fields (field ∷ fields) m = flatten_fields fields (put_entry (field_entry field) m)

  unfoldable pub flatten_map : List (Text × Reflected) → Masked → Masked
  flatten_map [] m = m
  flatten_map ((name, value) ∷ entries) m =
      flatten_map entries (put_value strings name (stringify_value value) m)

  unfoldable pub flatten_config : Config → Masked
  flatten_config absent = ([], 0)
  flatten_config (struct fields) = flatten_fields fields ([], 0)
  flatten_config (mapping entries) = flatten_map entries ([], 0)
  flatten_config (single value) = ((ascii "value", stringify_value value) ∷ [], 0)

optional : {A : Type 0} → Option A → List A
optional none = []
optional (some a) = a ∷ []

-- A text up to its first comma.
abbrev pub up_to_comma : Text → Text
up_to_comma [] = []
up_to_comma (c ∷ s) = if c == 44 then [] else c ∷ up_to_comma s

-- What a field says: nothing where it is not exported or its tag names it "-"; else its text, under
-- its tag up to the first comma, or under its own name where it has no tag.
abbrev pub field_says : ConfigField → Option (Text × Text)
field_says field =
    if field.exported
    then (if is_empty field.json_tag
        then some (field.name, stringify_value field.value)
        else (if text_eq (up_to_comma field.json_tag) (ascii "-")
            then none
            else some (up_to_comma field.json_tag, stringify_value field.value)))
    else none

-- What a configuration's struct or map says, in order.
unfoldable pub struct_entries : List ConfigField → List (Text × Text)
unfolding optional
struct_entries [] = []
struct_entries (field ∷ fields) = optional (field_says field) ++ struct_entries fields

unfoldable pub config_entries : Config → List (Text × Text)
config_entries absent = []
config_entries (struct fields) = struct_entries fields
config_entries (mapping entries) = Map.map_values stringify_value entries
config_entries (single value) = []

-- The tag up to its comma, or all of it.
take-index_byte :
    (s : Text)
    → (elim (index_byte 44 s) [ none ↦ s | some comma_idx ↦ take comma_idx s ]) ≡ up_to_comma s
unfolding index_byte
take-index_byte [] = refl
take-index_byte (c ∷ s) = elim (Bool-cases (c == 44)) [
  | inl e ↦ rw e refl
  | inr e ↦ rw e (elim (Option-cases (index_byte 44 s)) [
    | inl o ↦ rw o (ap (λ l. c ∷ l) (rw o at (take-index_byte s)))
    | inr (n, o) ↦ rw o (ap (λ l. c ∷ l) (rw o at (take-index_byte s)))
  ])
]

field_entry-field_says : (field : ConfigField) → field_entry field ≡ field_says field
unfolding field_entry json_name
field_entry-field_says field = elim (Bool-cases (is_empty field.json_tag)) [
  | inl e ↦ rw e refl
  | inr e ↦ rw (e, take-index_byte field.json_tag) refl
]

module _ (strings : Strings) where
  put_entry-eq-put_values :
      (entry : Option (Text × Text)) (entries : List (Text × Text)) (m : Masked)
      → put_values strings entries (put_entry strings entry m)
        ≡ put_values strings (optional entry ++ entries) m
  unfolding put_entry put_values optional
  put_entry-eq-put_values none entries m = refl
  put_entry-eq-put_values (some entry) entries m = refl

  flatten_fields-eq-put_values :
      (fields : List ConfigField) (m : Masked)
      → flatten_fields strings fields m ≡ put_values strings (struct_entries fields) m
  unfolding flatten_fields struct_entries put_values
  flatten_fields-eq-put_values [] m = refl
  flatten_fields-eq-put_values (field ∷ fields) m =
      flatten_fields-eq-put_values fields (put_entry strings (field_entry field) m)
      ∙ put_entry-eq-put_values (field_entry field) (struct_entries fields) m
      ∙ ap (λ entry. put_values strings (optional entry ++ struct_entries fields) m)
          (field_entry-field_says field)

  flatten_map-eq-put_values :
      (entries : List (Text × Reflected)) (m : Masked)
      → flatten_map strings entries m
        ≡ put_values strings (Map.map_values stringify_value entries) m
  unfolding flatten_map Map.map_values put_values
  flatten_map-eq-put_values [] m = refl
  flatten_map-eq-put_values ((name, value) ∷ entries) m =
      flatten_map-eq-put_values entries (put_value strings name (stringify_value value) m)

  -- The map of a struct's exported fields, each under its JSON tag up to the first comma, or under its
  -- name where it has no tag, and without those whose tag is "-" up to there; or of a map's entries:
  -- it has for each key what the last of them says, or "***" if the key is sensitive; and the count is
  -- the number of those that are masked.
  pub flatten_config-IsShown :
      (fields : List ConfigField) (entries : List (Text × Reflected))
      → IsShown strings (config_entries (struct fields)) (flatten_config strings (struct fields))
        × IsShown strings
            (config_entries (mapping entries))
            (flatten_config strings (mapping entries))
  unfolding flatten_config config_entries
  flatten_config-IsShown fields entries = (
    subst (IsShown strings (struct_entries fields))
        (sym (flatten_fields-eq-put_values fields ([], 0)))
        (put_values-IsShown strings (struct_entries fields)),
    subst (IsShown strings (Map.map_values stringify_value entries))
        (sym (flatten_map-eq-put_values entries ([], 0)))
        (put_values-IsShown strings (Map.map_values stringify_value entries)),
  )
