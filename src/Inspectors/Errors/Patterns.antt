-- ===== src/Inspectors/Errors/Patterns.antt =====
-- inspector_error.go: errorPattern, and the tool get_error_patterns.
use go_debug_agent.Prelude.{
  ℕ, ◌+◌, ◌≡◌, refl, ap, ◌∙◌, Bool, true, false, ◌&&◌, List, [], ◌∷◌, map, Option, none, some, leb,
  if◌then◌else◌, length, All, select, arith, Bool-cases, inl, inr,
}
use go_debug_agent.Prelude.Map
use go_debug_agent.Prelude.Map.{text_key}
use go_debug_agent.Prelude.Text.{Text, ascii, text_eq, text_eq_iff}
use go_debug_agent.Registry.Value.{Value, str}
use go_debug_agent.Inspectors.Base.{object, array, count_value}
use go_debug_agent.Inspectors.Errors.Capture.{ErrorEntry}

-- c >= '0' && c <= '9'
unfoldable pub is_digit : ℕ → Bool
is_digit c = leb 48 c && leb c 57

-- The loops of errorPattern; `skipping` is the inner one, over the rest of a digit sequence.
unfoldable pub pattern_from : Bool → Text → Text
pattern_from skipping [] = []
pattern_from skipping (c ∷ msg) =
    if is_digit c
    then (if skipping then pattern_from true msg else 35 ∷ pattern_from true msg)
    else c ∷ pattern_from false msg

unfoldable pub error_pattern : Text → Text
error_pattern msg = pattern_from false msg

pub record PatternInfo : Type 0 where
  pub count : ℕ
  pub first : Text
  pub last : Text
  pub example : Text
  pub err_type : Text

-- The entry of the map, made where it is missing, after another error.
unfoldable pub note_error : ErrorEntry → Option PatternInfo → PatternInfo
note_error entry none = record {
  count = 1;
  first = entry.timestamp;
  last = entry.timestamp;
  example = entry.message;
  err_type = entry.type;
}
note_error entry (some info) = record info { count = info.count + 1; last = entry.timestamp }

abbrev pub PatternMap : Type 0
PatternMap = List (Text × PatternInfo)

unfoldable pub group_errors : List ErrorEntry → PatternMap → PatternMap
group_errors [] patterns = patterns
group_errors (entry ∷ es) patterns =
    let pattern = error_pattern entry.message in
    group_errors es (Map.insert pattern (note_error entry (Map.lookup pattern patterns)) patterns)

module _ {X : Type 0} (order : PatternMap → PatternMap) where
  unfoldable pub get_error_patterns : List ErrorEntry → Value X
  get_error_patterns [] =
      object (
        (ascii "message", str (ascii "No errors captured yet."))
        ∷ (ascii "patterns", array [])
        ∷ [])
  get_error_patterns (e ∷ es) =
      let visited = order (group_errors (e ∷ es) []) in
      let result =
        map
          (λ p. object (
            (ascii "pattern", str p.0)
            ∷ (ascii "type", str p.1.err_type)
            ∷ (ascii "count", count_value p.1.count)
            ∷ (ascii "first_seen", str p.1.first)
            ∷ (ascii "last_seen", str p.1.last)
            ∷ (ascii "example", str p.1.example)
            ∷ []))
          visited in
      object (
        (ascii "total_patterns", count_value (length result))
        ∷ (ascii "patterns", array result)
        ∷ [])

pattern_from-All :
    (skipping : Bool) (msg : Text) → All (λ c. is_digit c ≡ false) (pattern_from skipping msg)
unfolding pattern_from
pattern_from-All skipping [] = tt
pattern_from-All skipping (c ∷ msg) = elim (Bool-cases (is_digit c)) [
  | inr e ↦ rw e (e, pattern_from-All false msg)
  | inl e ↦ elim (Bool-cases skipping) [
    | inl s ↦ rw (e, s) (pattern_from-All true msg)
    | inr s ↦ rw (e, s) (unfold is_digit in refl, pattern_from-All true msg)
  ]
]

pattern_from_fixed : (msg : Text) → All (λ c. is_digit c ≡ false) msg → pattern_from false msg ≡ msg
unfolding pattern_from
pattern_from_fixed [] h = refl
pattern_from_fixed (c ∷ msg) h = rw (h.0) (ap (λ l. c ∷ l) (pattern_from_fixed msg h.1))

-- A pattern has no digit, and is its own pattern.
error_pattern_idem :
    (msg : Text)
    → All (λ c. is_digit c ≡ false) (error_pattern msg)
      × (error_pattern (error_pattern msg) ≡ error_pattern msg)
unfolding error_pattern
error_pattern_idem msg =
    (pattern_from-All false msg, pattern_from_fixed _ (pattern_from-All false msg))

-- The errors with a pattern, in the order of the buffer.
abbrev pub with_pattern : Text → List ErrorEntry → List ErrorEntry
with_pattern pattern = select (λ e. text_eq (error_pattern e.message) pattern)

abbrev pub last_timestamp : Text → List ErrorEntry → Text
last_timestamp t [] = t
last_timestamp t (e ∷ es) = last_timestamp e.timestamp es

-- What is to be reported of some errors: their number, the first one's time, text and type, and the
-- time of the last.
abbrev pub report_of : List ErrorEntry → Option PatternInfo
report_of [] = none
report_of (e ∷ es) = some (record {
  count = length (e ∷ es);
  first = e.timestamp;
  last = last_timestamp e.timestamp es;
  example = e.message;
  err_type = e.type;
})

abbrev noted : Option PatternInfo → List ErrorEntry → Option PatternInfo
noted found [] = found
noted found (e ∷ es) = noted (some (note_error e found)) es

noted-some :
    (info : PatternInfo) (es : List ErrorEntry)
    → noted (some info) es
      ≡ some (record info { count = info.count + length es; last = last_timestamp info.last es })
unfolding note_error
noted-some info [] = ground arith
noted-some info (e ∷ es) = noted-some (note_error e (some info)) es ∙ ground arith

group_step :
    (p : Text) (e : ErrorEntry) (es : List ErrorEntry) (patterns : PatternMap)
    → noted
        (Map.lookup p (
          Map.insert
            (error_pattern e.message)
            (note_error e (Map.lookup (error_pattern e.message) patterns))
            patterns))
        (with_pattern p es)
      ≡ noted (Map.lookup p patterns) (with_pattern p (e ∷ es))
group_step p e es patterns = elim (Bool-cases (text_eq (error_pattern e.message) p)) [
  | inl h ↦
      let same = (text_eq_iff (error_pattern e.message) p).0 h in
      ground (
        arith,
        h,
        same,
        Map.lookup-insert (error_pattern e.message) p
            (note_error e (Map.lookup (error_pattern e.message) patterns)) patterns,
      )
  | inr h ↦ ground (
    arith,
    h,
    Map.lookup-insert (error_pattern e.message) p
        (note_error e (Map.lookup (error_pattern e.message) patterns)) patterns,
  )
]

lookup-group_errors_from :
    (p : Text) (es : List ErrorEntry) (patterns : PatternMap)
    → Map.lookup p (group_errors es patterns) ≡ noted (Map.lookup p patterns) (with_pattern p es)
unfolding group_errors
lookup-group_errors_from p [] patterns = refl
lookup-group_errors_from p (e ∷ es) patterns =
    lookup-group_errors_from p es _ ∙ group_step p e es patterns

-- Each pattern's entry reports the errors of the buffer that have this pattern, whatever their types
-- are, and every pattern of an error has one.
pub lookup-group_errors :
    (p : Text) (es : List ErrorEntry)
    → Map.lookup p (group_errors es []) ≡ report_of (with_pattern p es)
unfolding note_error Map.lookup
lookup-group_errors p es = lookup-group_errors_from p es [] ∙ go (with_pattern p es)
  where
    go : (ds : List ErrorEntry) → noted none ds ≡ report_of ds
    go [] = refl
    go (d ∷ ds) = noted-some (note_error d none) ds ∙ ground arith
