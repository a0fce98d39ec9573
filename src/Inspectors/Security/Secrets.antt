-- ===== src/Inspectors/Security/Secrets.antt =====
-- inspector_security.go: the fields of an auth configuration, and the masking of the secret ones.
use go_debug_agent.Prelude.{
  ℕ, ◌-◌, ◌≤◌, ◌≡◌, ◌⊎◌, Bool, true, ◌||◌, List, [], ◌∷◌, ◌++◌, Option, none, some, if◌then◌else◌,
  length, take, drop, leb, is_empty,
}
use go_debug_agent.Prelude.Map
use go_debug_agent.Prelude.Map.{text_key}
use go_debug_agent.Prelude.Text.{Text, ascii, text_eq}
use go_debug_agent.Registry.Value.{Value, str}
use go_debug_agent.Inspectors.Security.Words.{to_lower, contains_any}

-- A field of a nested struct.
pub record NestedField (X : Type 0) : Type 0 where
  pub name : Text
  pub json_tag : Text
  pub exported : Bool
  pub value : Value X

-- A field of a struct: its value, its text where it is a string, and the fields of the struct that
-- it is or points to.
pub record AuthField (X : Type 0) : Type 0 where
  pub name : Text
  pub json_tag : Text
  pub exported : Bool
  pub value : Value X
  pub text : Option Text
  pub nested : Option (List (NestedField X))

-- A registered configuration, behind at most one pointer.
pub data AuthConfig (X : Type 0) : Type 0 where
  mapping : List (Text × Value X) → AuthConfig X
  absent : AuthConfig X
  struct : List (AuthField X) → AuthConfig X
  plain : Value X → AuthConfig X

unfoldable pub is_secret_field : Text → Bool
is_secret_field name = contains_any (to_lower name) (
    ascii "secret"
    ∷ ascii "password"
    ∷ ascii "token"
    ∷ ascii "apikey"
    ∷ ascii "api_key"
    ∷ ascii "privatekey"
    ∷ [])

-- The text that maskSecret reads of a value of any kind, and what it shows of it.
unfoldable pub secret_text : Option Text → Text
secret_text none = ascii "[redacted]"
secret_text (some s) = s

unfoldable pub mask_secret : Option Text → Text
mask_secret value =
    let s = secret_text value in
    if is_empty s
    then ascii "[empty]"
    else (if leb (length s) 4
        then ascii "****"
        else take 2 s ++ ascii "****" ++ drop (length s - 2) s)

-- The tag, or another name where it is "" or "-".
unfoldable pub tag_or : Text → Text → Text
tag_or json_tag name = if is_empty json_tag || text_eq json_tag (ascii "-") then name else json_tag

module _ {X : Type 0} where
  unfoldable pub put_fields : List (Text × Value X) → List (Text × Value X) → List (Text × Value X)
  put_fields [] entry = entry
  put_fields ((k, v) ∷ fs) entry = put_fields fs (Map.insert k v entry)

  -- What is shown of a field.
  unfoldable pub shown_value : AuthField X → Value X
  shown_value field =
      if is_secret_field field.name then str (mask_secret field.text) else field.value

  unfoldable pub put_auth_field : AuthField X → List (Text × Value X) → List (Text × Value X)
  put_auth_field field entry =
      if field.exported
      then Map.insert (tag_or field.json_tag field.name) (shown_value field) entry
      else entry

  unfoldable pub put_auth_fields :
      List (AuthField X) → List (Text × Value X) → List (Text × Value X)
  put_auth_fields [] entry = entry
  put_auth_fields (field ∷ fields) entry = put_auth_fields fields (put_auth_field field entry)

  unfoldable pub extract_auth_fields : AuthConfig X → List (Text × Value X) → List (Text × Value X)
  extract_auth_fields (mapping m) entry = put_fields m entry
  extract_auth_fields absent entry = entry
  extract_auth_fields (struct fields) entry = put_auth_fields fields entry
  extract_auth_fields (plain cfg) entry = Map.insert (ascii "config") cfg entry

-- A text with two bytes before a middle of at least one, and two after it.
abbrev pub around : ℕ × ℕ → Text → ℕ × ℕ → Text
around (a, b) middle (c, d) = a ∷ b ∷ (middle ++ c ∷ d ∷ [])

-- Two secrets with the two bytes at each end in common, and something between.
pub record IsAlike (s t : Text) : Type 0 where
  pub first : ℕ × ℕ
  pub last : ℕ × ℕ
  pub middle : Text
  pub other : Text
  pub some_middle : 1 ≤ length middle
  pub some_other : 1 ≤ length other
  pub left : s ≡ around first middle last
  pub right : t ≡ around first other last

module _ {X : Type 0} where
  -- Fields that differ at most in the middle of a secret, or in the value of one that is masked
  -- whatever it is.
  pub record IsAlikeField (f g : AuthField X) : Type 0 where
    pub same_name : f.name ≡ g.name
    pub same_tag : f.json_tag ≡ g.json_tag
    pub same_exported : f.exported ≡ g.exported
    pub alike :
        ((f.value ≡ g.value) × (f.text ≡ g.text))
        ⊎ ((is_secret_field f.name ≡ true)
            × ((s : Text) × (t : Text) × (f.text ≡ some s) × (g.text ≡ some t) × IsAlike s t))

  -- Lists of such fields, one by one.
  abbrev pub AreAlike : List (AuthField X) → List (AuthField X) → Type 0
  AreAlike [] [] = Unit
  AreAlike (f ∷ fs) (g ∷ gs) = IsAlikeField f g × AreAlike fs gs
  AreAlike _ _ = ⊥
