-- ===== src/Inspectors/Locks/Tools.antt =====
-- inspector_locks.go: RegisterMutex, isMutexLocked, get_lock_contention, get_block_profile,
-- detect_deadlock and get_mutex_holders. A profile is `none` where pprof.Lookup gives nil, and the
-- registered mutexes stand in the order of the range.
use go_debug_agent.Prelude.{
  ℕ, Bool, true, false, ◌||◌, not, List, [], ◌∷◌, ◌++◌, map, Option, none, some, if◌then◌else◌,
  length, take, ltb,
}
use go_debug_agent.Prelude.Map
use go_debug_agent.Prelude.Map.{text_key}
use go_debug_agent.Prelude.Int.{ℤ, pos, negsuc, int_eq}
use go_debug_agent.Prelude.Text.{Text, ascii}
use go_debug_agent.Registry.Value.{Value, str, bool}
use go_debug_agent.Inspectors.Base.{object, array, count_value}
use go_debug_agent.Inspectors.Locks.Sites.{Site, parse_contention_sites, parse_block_sites}
use go_debug_agent.Inspectors.Locks.Deadlock.{
  Flagged, Finding, findings_of, risk_level, detect_deadlock_patterns,
}

-- A field of a sync.Mutex: one of sync/atomic's Int32 and Uint32, by the values of its own fields of
-- those kinds, an int32, or another.
pub data MutexField : Type 0 where
  atomic_field : List ℤ → MutexField
  int32_field : ℤ → MutexField
  other_field : MutexField

-- A mutex that is not nil.
abbrev pub Mutex : Type 0
Mutex = List MutexField

unfoldable pub some_nonzero : List ℤ → Bool
some_nonzero [] = false
some_nonzero (v ∷ vs) = not (int_eq v (pos 0)) || some_nonzero vs

unfoldable pub is_field_set : MutexField → Bool
is_field_set (atomic_field values) = some_nonzero values
is_field_set (int32_field v) = not (int_eq v (pos 0))
is_field_set other_field = false

unfoldable pub is_mutex_locked : Mutex → Bool
is_mutex_locked [] = false
is_mutex_locked (f ∷ fs) = is_field_set f || is_mutex_locked fs

abbrev pub Mutexes : Type 0
Mutexes = List (Text × Option Mutex)

unfoldable pub register_mutex : Text → Option Mutex → Mutexes → Mutexes
register_mutex name m mutexes = Map.insert name m mutexes

-- int of an argument that is positive, or a default.
unfoldable pub positive_or : ℕ → Option ℤ → ℕ
positive_or default none = default
positive_or default (some (negsuc n)) = default
positive_or default (some (pos n)) = if ltb 0 n then n else default

-- The number of samples of a profile, and its text.
pub record LockProfile : Type 0 where
  pub count : ℕ
  pub text : Text

module _ {X : Type 0} where
  unfoldable pub site_value : Site → Value X
  site_value site = object (
      (ascii "raw", str site.raw)
      ∷ (elim site.stack [ none ↦ [] | some stack ↦ (ascii "stack", str stack) ∷ [] ]))

  -- The fields of a profile with samples; the key of the sites and the note are the tool's own.
  unfoldable pub sampled_fields : Text → Text → ℕ → List Site → LockProfile → List (Text × Value X)
  sampled_fields name key max_bytes sites p =
      (ascii "profile_name", str name)
      ∷ (ascii "enabled", bool true)
      ∷ (ascii "count", count_value p.count)
      ∷ (ascii "sample_count", count_value p.count)
      ∷ (key, array (map site_value sites))
      ∷ (
        ascii "raw_profile",
        str (
            if ltb max_bytes (length p.text)
            then take max_bytes p.text ++ 10 ∷ ascii "... (truncated)"
            else p.text),
      )
      ∷ []

  unfoldable pub unsampled_fields : Text → Text → List (Text × Value X)
  unsampled_fields name note =
      (ascii "profile_name", str name)
      ∷ (ascii "enabled", bool false)
      ∷ (ascii "count", count_value 0)
      ∷ (ascii "note", str note)
      ∷ []

  unfoldable pub profile_value :
      (ℕ → List Text → List Site)
      → (Text → List Text)
      → Text
      → Text
      → Text
      → Option ℤ
      → Option ℤ
      → Option LockProfile
      → Value X
  profile_value parse split_lines name key note top_n max_bytes none =
      object (unsampled_fields name note)
  profile_value parse split_lines name key note top_n max_bytes (some p) =
      if ltb 0 p.count
      then object (
          sampled_fields name key (positive_or 8000 max_bytes)
            (parse (positive_or 10 top_n) (split_lines p.text)) p)
      else object (unsampled_fields name note)

  unfoldable pub get_lock_contention :
      (Text → Text) → (Text → List Text) → Option ℤ → Option ℤ → Option LockProfile → Value X
  get_lock_contention trim_space split_lines top_n max_bytes p =
      profile_value (parse_contention_sites trim_space) split_lines (ascii "mutex")
        (ascii "top_contention_sites")
        (ascii "Set runtime.SetMutexProfileFraction(1) to enable mutex contention profiling.") top_n
        max_bytes p

  unfoldable pub get_block_profile :
      (Text → Text) → (Text → List Text) → Option ℤ → Option ℤ → Option LockProfile → Value X
  get_block_profile trim_space split_lines top_n max_bytes p =
      profile_value (parse_block_sites trim_space) split_lines (ascii "block")
        (ascii "top_blocking_sites")
        (ascii "Set runtime.SetBlockProfileRate(1) to enable block profiling (1 = sample every "
          ++ ascii "nanosecond of block time).")
        top_n max_bytes p

  unfoldable pub flagged_value : Flagged → Value X
  flagged_value f = object (
      (ascii "goroutine_id", str f.goroutine_id)
      ∷ (ascii "state", str f.state)
      ∷ (ascii "reason", str (ascii "blocked on mutex"))
      ∷ (ascii "stack_snippet", str f.stack_snippet)
      ∷ [])

  unfoldable pub finding_value : Finding → Value X
  finding_value f = object (
      (ascii "type", str f.type)
      ∷ (ascii "description", str f.description)
      ∷ (ascii "severity", str f.severity)
      ∷ [])

  -- runtime.NumGoroutine() is an argument.
  unfoldable pub detect_deadlock : (Text → Text) → (Text → List Text) → ℕ → List Text → Value X
  detect_deadlock trim_space split_lines num_goroutine blocks =
      let t = detect_deadlock_patterns trim_space split_lines blocks in
      object (
        (ascii "total_goroutines", count_value num_goroutine)
        ∷ (ascii "blocked_on_mutex", count_value t.blocked_on_mutex)
        ∷ (ascii "blocked_on_channel", count_value t.blocked_on_channel)
        ∷ (ascii "blocked_on_waitgroup", count_value t.blocked_on_wait_group)
        ∷ (ascii "semacquire_count", count_value t.semacquire_count)
        ∷ (ascii "risk_level", str (risk_level t))
        ∷ (ascii "findings", array (map finding_value (findings_of t)))
        ∷ (ascii "flagged_goroutines", array (map flagged_value t.flagged_goroutines))
        ∷ [])

  unfoldable pub holder_value : Text × Option Mutex → Value X
  holder_value (name, none) = object (
      (ascii "name", str name)
      ∷ (ascii "error", str (ascii "nil mutex"))
      ∷ (ascii "locked", bool false)
      ∷ [])
  holder_value (name, some m) = object (
      (ascii "name", str name)
      ∷ (ascii "locked", bool (is_mutex_locked m))
      ∷ (ascii "status", str (if is_mutex_locked m then ascii "held" else ascii "free"))
      ∷ [])

  unfoldable pub get_mutex_holders : Mutexes → Value X
  get_mutex_holders [] = object (
      (
        ascii "message",
        str (
            ascii "No mutexes registered. Call debugagent.RegisterMutex(name, m) to enable mutex "
            ++ ascii "holder inspection."),
      )
      ∷ (ascii "count", count_value 0)
      ∷ [])
  get_mutex_holders (m ∷ ms) = object (
      (ascii "count", count_value (length (m ∷ ms)))
      ∷ (ascii "mutexes", array (map holder_value (m ∷ ms)))
      ∷ [])
