-- ===== src/Inspectors/Config/Tools.antt =====
-- inspector_config.go: RegisterConfig, get_config_snapshot and get_config_diff. The configurations
-- and the keys of each stand in the order of the range.
use go_debug_agent.Prelude.{ℕ, ◌+◌, List, [], ◌∷◌, ◌++◌, map, if◌then◌else◌, length, is_empty, ◌==◌}
use go_debug_agent.Prelude.Map
use go_debug_agent.Prelude.Map.{text_key}
use go_debug_agent.Prelude.Text.{Text, ascii}
use go_debug_agent.Registry.Value.{Value, str, bool}
use go_debug_agent.Inspectors.Base.{object, array, count_value}
use go_debug_agent.Inspectors.Logs.Buffer.{Strings}
use go_debug_agent.Inspectors.Config.Masking.{mask, is_sensitive_key}
use go_debug_agent.Inspectors.Config.Flatten.{Config, flatten_config}

abbrev pub Configs : Type 0
Configs = List (Text × Config)

unfoldable pub register_config : Text → Config → Configs → Configs
register_config name config configs = Map.insert name config configs

-- strings.ReplaceAll(s, old, new) of one byte by another.
unfoldable pub replace_byte : ℕ → ℕ → Text → Text
replace_byte old new [] = []
replace_byte old new (c ∷ s) = (if c == old then new else c) ∷ replace_byte old new s

unfoldable pub env_key_of : Strings → Text → Text → Text
env_key_of strings name key =
    replace_byte 45 95 (replace_byte 32 95 (strings.to_upper (name ++ ascii "_" ++ key)))

-- The loop of get_config_snapshot.
pub record ConfigTally (X : Type 0) : Type 0 where
  pub configs : List (Value X)
  pub masked_count : ℕ

-- The loops of get_config_diff.
pub record DiffTally (X : Type 0) : Type 0 where
  pub diffs : List (Value X)
  pub override_count : ℕ

module _ {X : Type 0} where
  abbrev pub no_configs : Value X
  no_configs = object (
      (
        ascii "message",
        str (
            ascii "No configs registered. Call debugagent.RegisterConfig(name, config) to enable "
            ++ ascii "config inspection."),
      )
      ∷ (ascii "count", count_value 0)
      ∷ [])

module _ {X : Type 0} (strings : Strings) where
  unfoldable pub tally_configs : Configs → ConfigTally X → ConfigTally X
  tally_configs [] t = t
  tally_configs ((name, cfg) ∷ cfgs) t =
      let (fields, masked) = flatten_config strings cfg in
      let entry = object (
        (ascii "name", str name)
        ∷ (ascii "values", object (map (λ f. (f.0, str f.1)) fields))
        ∷ (ascii "field_count", count_value (length fields))
        ∷ (ascii "masked_fields", count_value masked)
        ∷ []) in
      tally_configs cfgs
        (record { configs = t.configs ++ entry ∷ []; masked_count = t.masked_count + masked })

  unfoldable pub get_config_snapshot : Configs → Value X
  get_config_snapshot [] = no_configs
  get_config_snapshot (c ∷ cs) =
      let t = tally_configs (c ∷ cs) (record { configs = []; masked_count = 0 }) in
      object (
        (ascii "count", count_value (length (c ∷ cs)))
        ∷ (ascii "configs", array t.configs)
        ∷ (ascii "total_masked", count_value t.masked_count)
        ∷ [])

module _ {X : Type 0} (strings : Strings) (getenv : Text → Text) where
  unfoldable pub diff_entry : Text → Text → Text → Value X
  diff_entry name key value =
      let is_masked = is_sensitive_key strings key in
      object (
        (ascii "config", str name)
        ∷ (ascii "field", str key)
        ∷ (ascii "default", str (if is_masked then mask else value))
        ∷ (ascii "env_override", bool is_masked)
        ∷ (ascii "env_key", str (env_key_of strings name key))
        ∷ [])

  unfoldable pub diff_fields : Text → List (Text × Text) → DiffTally X → DiffTally X
  diff_fields name [] t = t
  diff_fields name ((key, value) ∷ fields) t = diff_fields name fields (
      if is_empty (getenv (env_key_of strings name key)) then t else record {
        diffs = t.diffs ++ diff_entry name key value ∷ [];
        override_count = t.override_count + 1;
      })

  unfoldable pub diff_configs : Configs → DiffTally X → DiffTally X
  diff_configs [] t = t
  diff_configs ((name, cfg) ∷ cfgs) t =
      diff_configs cfgs (diff_fields name (flatten_config strings cfg).0 t)

  unfoldable pub get_config_diff : Configs → Value X
  get_config_diff [] = no_configs
  get_config_diff (c ∷ cs) =
      let t = diff_configs (c ∷ cs) (record { diffs = []; override_count = 0 }) in
      object (
        (ascii "count", count_value (length t.diffs))
        ∷ (ascii "override_count", count_value t.override_count)
        ∷ (ascii "diffs", array t.diffs)
        ∷ [])
