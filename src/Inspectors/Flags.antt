-- ===== src/Inspectors/Flags.antt =====
-- inspector_featureflag.go: the registered flags, and the tools get_feature_flags and evaluate_flag.
-- sort.Strings and the order of a range are parameters.
use go_debug_agent.Prelude.{
  ℕ, ◌+◌, ◌≡◌, Bool, false, List, [], ◌∷◌, ◌++◌, map, none, some, not, if◌then◌else◌, length,
  is_empty, arith, Bool-cases, inl, inr, length-append,
}
use go_debug_agent.Prelude.Map
use go_debug_agent.Prelude.Map.{text_key}
use go_debug_agent.Prelude.Result.{Result, ok, err}
use go_debug_agent.Prelude.Text.{Text, ascii}
use go_debug_agent.Registry.Value.{Value, str, bool}
use go_debug_agent.Inspectors.Base.{object, array, count_value, count_if}

pub record FeatureFlag : Type 0 where
  pub name : Text
  pub enabled : Bool
  pub variant : Text
  pub reason : Text

abbrev pub Flags : Type 0
Flags = List (Text × FeatureFlag)

unfoldable pub register_feature_flag : Text → FeatureFlag → Flags → Flags
register_feature_flag name flag flags = Map.insert name (record flag { name = name }) flags

-- featureFlags[name], which is the zero value where it is missing.
unfoldable pub flag_at : Text → Flags → FeatureFlag
flag_at name flags = elim (Map.lookup name flags) [
  | none ↦ record { name = []; enabled = false; variant = []; reason = [] }
  | some flag ↦ flag
]

-- The variables of the loop of get_feature_flags.
pub record FlagTally (X : Type 0) : Type 0 where
  pub enabled_count : ℕ
  pub disabled_count : ℕ
  pub listed : List (Value X)

unfoldable pub state_text : FeatureFlag → Text
state_text ff = if ff.enabled then ascii "on" else ascii "off"

module _ {X : Type 0} where
  unfoldable pub flag_entry : FeatureFlag → Value X
  flag_entry ff = object (
      (ascii "name", str ff.name)
        ∷ (ascii "enabled", bool ff.enabled)
        ∷ (if is_empty ff.variant then [] else (ascii "variant", str ff.variant) ∷ [])
      ++ (if is_empty ff.reason then [] else (ascii "reason", str ff.reason) ∷ [])
      ++ (ascii "state", str (state_text ff)) ∷ [])

  unfoldable pub tally_flag : FeatureFlag → FlagTally X → FlagTally X
  tally_flag ff t = record {
    enabled_count = (if ff.enabled then t.enabled_count + 1 else t.enabled_count);
    disabled_count = (if ff.enabled then t.disabled_count else t.disabled_count + 1);
    listed = t.listed ++ flag_entry ff ∷ [];
  }

  unfoldable pub tally_flags : List Text → Flags → FlagTally X → FlagTally X
  tally_flags [] flags t = t
  tally_flags (name ∷ names) flags t = tally_flags names flags (tally_flag (flag_at name flags) t)

  abbrev pub flag_start : FlagTally X
  flag_start = record { enabled_count = 0; disabled_count = 0; listed = [] }

unfoldable pub sorted_names : (List Text → List Text) → Flags → List Text
sorted_names sort_strings flags = sort_strings (map (λ f. f.0) flags)

unfoldable pub flag_reason : FeatureFlag → Text
flag_reason ff =
    if is_empty ff.reason
    then (if ff.enabled then ascii "flag_is_enabled" else ascii "flag_is_disabled")
    else ff.reason

module _ {X : Type 0} (sort_strings : List Text → List Text) where
  unfoldable pub get_feature_flags : Flags → Value X
  get_feature_flags [] = object (
      (
        ascii "message",
        str (
            ascii "No feature flags registered. Call debugagent.RegisterFeatureFlag(name, flag) "
            ++ ascii "to enable feature flag inspection."),
      )
      ∷ (ascii "count", count_value 0)
      ∷ [])
  get_feature_flags (f ∷ fs) =
      let t : FlagTally X = tally_flags (sorted_names sort_strings (f ∷ fs)) (f ∷ fs) flag_start in
      object (
        (ascii "count", count_value (length t.listed))
        ∷ (ascii "enabled_count", count_value t.enabled_count)
        ∷ (ascii "disabled_count", count_value t.disabled_count)
        ∷ (ascii "feature_flags", array t.listed)
        ∷ [])

  -- The arguments are "" where they are missing.
  unfoldable pub evaluate_flag : Text → Text → Flags → Result Text (Value X)
  evaluate_flag flag_name user_context flags =
      if is_empty flag_name
      then err (ascii "flag_name is required")
      else elim (Map.lookup flag_name flags) [
        | none ↦ ok (
            object (
              (ascii "error", str (ascii "Feature flag not found: " ++ flag_name))
              ∷ (ascii "available", array (map str (sorted_names sort_strings flags)))
              ∷ []))
        | some ff ↦ ok (
            object (
              (ascii "flag_name", str ff.name)
              ∷ (ascii "enabled", bool ff.enabled)
              ∷ (ascii "variant", str ff.variant)
              ∷ (ascii "state", str (state_text ff))
              ∷ (ascii "reason", str (flag_reason ff))
              ∷ (
                ascii "user_context",
                str (if is_empty user_context then ascii "(default)" else user_context),
              )
              ∷ (
                ascii "evaluated_for",
                str (if is_empty user_context then ascii "global" else user_context),
              )
              ∷ []))
      ]

abbrev IsCounted : {X : Type 0} → Flags → List Text → FlagTally X → FlagTally X → Type 0
IsCounted flags names s t =
    (t.enabled_count ≡ s.enabled_count + count_if (λ n. (flag_at n flags).enabled) names)
    × (t.disabled_count ≡ s.disabled_count + count_if (λ n. not ((flag_at n flags).enabled)) names)
    × (length t.listed ≡ length s.listed + length names)

module _ {X : Type 0} where
  tally_flags-IsCounted :
      (names : List Text) (flags : Flags) (t : FlagTally X)
      → IsCounted flags names t (tally_flags names flags t)
  unfolding tally_flags tally_flag count_if
  tally_flags-IsCounted [] flags t = (omega arith, omega arith, omega arith)
  tally_flags-IsCounted (name ∷ names) flags t =
      let ff = flag_at name flags in
      let r = tally_flags-IsCounted names flags (tally_flag ff t) in
      let one = length-append t.listed (flag_entry ff ∷ []) in
      elim (Bool-cases ff.enabled) [
        | inl e ↦ (ground (arith, r.0, e), ground (arith, r.1, e), omega (arith, r.2, one))
        | inr e ↦ (ground (arith, r.0, e), ground (arith, r.1, e), omega (arith, r.2, one))
      ]

-- The loop of get_feature_flags lists every name it is given, and counts as enabled and as disabled
-- those whose flag is.
tally_flags_counts :
    (X : Type 0) (names : List Text) (flags : Flags)
    → let t : FlagTally X = tally_flags names flags flag_start in
      (length t.listed ≡ length names)
      × (t.enabled_count ≡ count_if (λ n. (flag_at n flags).enabled) names)
      × (t.disabled_count ≡ count_if (λ n. not ((flag_at n flags).enabled)) names)
tally_flags_counts X names flags =
    let start : FlagTally X = flag_start in
    let r = tally_flags-IsCounted names flags start in
    (omega (arith, r.2), omega (arith, r.0), omega (arith, r.1))
