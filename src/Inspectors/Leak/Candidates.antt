-- ===== src/Inspectors/Leak/Candidates.antt =====
-- inspector_leak.go: detectLeakCandidates and get_leak_candidates.
use go_debug_agent.Prelude.{
  ℕ, ◌+◌, ◌-◌, ◌*◌, Bool, true, false, ◌&&◌, List, [], ◌∷◌, ◌++◌, map, Option, none, some,
  if◌then◌else◌, length, ltb,
}
use go_debug_agent.Prelude.Text.{Text, ascii}
use go_debug_agent.Registry.Value.{Value, str, bool}
use go_debug_agent.Inspectors.Base.{object, array, count_value}
use go_debug_agent.Inspectors.Leak.Snapshots.{HeapSnapshot, HeapState, bytes_at, add_types}

-- The variables of the loop over the snapshots, for one type.
pub record Track : Type 0 where
  pub monotonic_growth : Bool
  pub prev_bytes : ℕ
  pub first_bytes : ℕ
  pub last_bytes : ℕ
  pub first_snap : ℕ
  pub last_snap : ℕ

abbrev pub no_track : Track
no_track = record {
  monotonic_growth = false;
  prev_bytes = 0;
  first_bytes = 0;
  last_bytes = 0;
  first_snap = 0;
  last_snap = 0;
}

unfoldable pub track_turn : ℕ → ℕ → Track → Track
track_turn i b t = record {
  monotonic_growth =
      (if ltb 0 i && ltb t.prev_bytes b
        then true
        else (if ltb 0 i && ltb b t.prev_bytes then false else t.monotonic_growth));
  prev_bytes = b;
  first_bytes = (if ltb 0 i then t.first_bytes else b);
  last_bytes = b;
  first_snap = (if ltb 0 i then t.first_snap else i);
  last_snap = i;
}

unfoldable pub track : ℕ → List ℕ → Track → Track
track i [] t = t
track i (b ∷ bs) t = track (i + 1) bs (track_turn i b t)

-- The type's bytes in each snapshot.
unfoldable pub bytes_of : Text → List HeapSnapshot → List ℕ
bytes_of t snapshots = map (λ s. bytes_at t s.type_bytes) snapshots

-- A type that is reported. Its growth in percent is a float64, for whose comparison with 50 a
-- fraction stands, or 100 where the first bytes are 0.
pub record Candidate : Type 0 where
  pub type : Text
  pub bytes_first : ℕ
  pub bytes_last : ℕ
  pub monotonic : Bool
  pub snapshots_span : ℕ

unfoldable pub bytes_growth : Candidate → ℕ
bytes_growth c = c.bytes_last - c.bytes_first

unfoldable pub grows_by_half : Candidate → Bool
grows_by_half c = if ltb 0 c.bytes_first then ltb c.bytes_first (2 * bytes_growth c) else true

unfoldable pub severity : Candidate → Text
severity c =
    if c.monotonic then ascii "high" else (if grows_by_half c then ascii "medium" else ascii "low")

unfoldable pub reason : Candidate → Text
reason c =
    if c.monotonic
    then ascii "Monotonic growth across all snapshots"
    else (if grows_by_half c
        then ascii "Significant growth (>50%) but not monotonic"
        else ascii "Moderate growth")

unfoldable pub grown : Text → Track → Candidate
grown type t = record {
  type = type;
  bytes_first = t.first_bytes;
  bytes_last = t.last_bytes;
  monotonic = t.monotonic_growth;
  snapshots_span = t.last_snap - t.first_snap;
}

unfoldable pub report_growth : Text → Track → Option Candidate
report_growth type t = if ltb t.first_bytes t.last_bytes then some (grown type t) else none

unfoldable pub candidate_of : Text → List HeapSnapshot → Option Candidate
candidate_of type snapshots = report_growth type (track 0 (bytes_of type snapshots) no_track)

unfoldable pub all_types : List HeapSnapshot → List (Text × Bool) → List (Text × Bool)
all_types [] types = types
all_types (s ∷ snapshots) types = all_types snapshots (add_types s.type_bytes types)

unfoldable pub add_candidate : Option Candidate → List Candidate → List Candidate
add_candidate none cs = cs
add_candidate (some c) cs = c ∷ cs

unfoldable pub candidates_of : List (Text × Bool) → List HeapSnapshot → List Candidate
candidates_of [] snapshots = []
candidates_of ((t, b) ∷ types) snapshots =
    add_candidate (candidate_of t snapshots) (candidates_of types snapshots)

unfoldable pub more_growth : Candidate → Candidate → Bool
more_growth y x = ltb (bytes_growth x) (bytes_growth y)

module _ (sort : List Candidate → List Candidate) where
  unfoldable pub detect_leak_candidates : List HeapSnapshot → List Candidate
  detect_leak_candidates snapshots =
      if ltb (length snapshots) 2
      then []
      else sort (candidates_of (all_types snapshots []) snapshots)

module _ {X : Type 0} (growth_pct : ℕ → ℕ → Value X) where
  unfoldable pub candidate_value : Candidate → Value X
  candidate_value c = object (
      (ascii "type", str c.type)
      ∷ (ascii "bytes_first", count_value c.bytes_first)
      ∷ (ascii "bytes_last", count_value c.bytes_last)
      ∷ (ascii "bytes_growth", count_value (bytes_growth c))
      ∷ (ascii "growth_pct", growth_pct c.bytes_first c.bytes_last)
      ∷ (ascii "monotonic", bool c.monotonic)
      ∷ (ascii "snapshots_span", count_value c.snapshots_span)
      ∷ (ascii "severity", str (severity c))
      ∷ (ascii "reason", str (reason c))
      ∷ [])

  unfoldable pub get_leak_candidates : (List Candidate → List Candidate) → HeapState → Value X
  get_leak_candidates sort s =
      if ltb (length s.snapshots) 2
      then object (
          (
            ascii "message",
            str (
                ascii "Need at least 2 heap snapshots to detect leaks. Call take_heap_snapshot "
                ++ ascii "multiple times."),
          )
          ∷ (ascii "snapshot_count", count_value (length s.snapshots))
          ∷ [])
      else object (
          (ascii "snapshot_count", count_value (length s.snapshots))
          ∷ (
            ascii "candidates",
            array (map candidate_value (detect_leak_candidates sort s.snapshots)),
          )
          ∷ [])
