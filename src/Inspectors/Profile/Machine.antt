-- ===== src/Inspectors/Profile/Machine.antt =====
-- inspector_cpu_profile.go: start_cpu_profile, stop_cpu_profile, the function of the timer, and
-- get_top_functions. runtime/pprof acts on a world; times are nanoseconds of a monotonic clock.
use go_debug_agent.Prelude.{
  ℕ, ◌+◌, ◌*◌, ◌-◌, Bool, true, false, List, [], ◌∷◌, ◌++◌, map, Option, none, some, if◌then◌else◌,
  length, is_empty, take, ltb,
}
use go_debug_agent.Prelude.Int.{ℤ, pos, negsuc}
use go_debug_agent.Prelude.Text.{Text, ascii, text_eq, decimal}
use go_debug_agent.Registry.Value.{Value, str, bool}
use go_debug_agent.Inspectors.Base.{object, array, count_value}
use go_debug_agent.Inspectors.Profile.Parse.{Sample, CpuFuncEntry, profile_entries}

-- The buffer's reset, pprof.StartCPUProfile with its error, pprof.StopCPUProfile, and what
-- profile.ParseData makes of the buffer, `none` where it is empty or no profile.
pub record Pprof (W : Type 0) : Type 0 where
  pub reset : W → W
  pub start : W → Option Text × W
  pub stop : W → W
  pub samples : W → Option (List Sample)

-- The variables of the file, and the deadlines of the timers that have not fired.
pub record CpuProfile : Type 0 where
  pub active : Bool
  pub duration : ℕ
  pub start : ℕ
  pub last_top_functions : List CpuFuncEntry
  pub timers : List ℕ

abbrev pub seconds : ℕ → ℕ
seconds n = n * 1000000000

-- int of the argument, between 1 and 120, or 30.
unfoldable pub duration_of : Option ℤ → ℕ
duration_of none = 30
duration_of (some (negsuc n)) = 30
duration_of (some (pos n)) = if ltb 0 n then (if ltb 120 n then 120 else n) else 30

-- a[i].CumulativeNs > a[j].CumulativeNs, and likewise for the other orders.
unfoldable pub by_cumulative : CpuFuncEntry → CpuFuncEntry → Bool
by_cumulative y x = ltb x.cumulative_ns y.cumulative_ns

unfoldable pub by_self : CpuFuncEntry → CpuFuncEntry → Bool
by_self y x = ltb x.self_ns y.self_ns

unfoldable pub by_count : CpuFuncEntry → CpuFuncEntry → Bool
by_count y x = ltb x.count y.count

-- sort.Slice
abbrev pub SortSlice : Type 0
SortSlice = (CpuFuncEntry → CpuFuncEntry → Bool) → List CpuFuncEntry → List CpuFuncEntry

unfoldable pub parse_cpu_profile : SortSlice → Option (List Sample) → List CpuFuncEntry
parse_cpu_profile sort none = []
parse_cpu_profile sort (some samples) = sort by_cumulative (profile_entries samples)

-- What follows from the answer of StartCPUProfile, at a time.
unfoldable pub begin_profile : ℕ → ℕ → Option Text → CpuProfile → CpuProfile
begin_profile now duration (some e) s = s
begin_profile now duration none s = record s {
  active = true;
  duration = duration;
  start = now;
  timers = (now + seconds duration) ∷ s.timers;
}

module _ {W : Type 0} (pprof : Pprof W) (sort : SortSlice) where
  -- pprof.StopCPUProfile(), and what follows it.
  unfoldable pub end_profile : CpuProfile → W → CpuProfile × W
  end_profile s w =
      let w' = pprof.stop w in
      (
        record s { active = false; last_top_functions = parse_cpu_profile sort (pprof.samples w') },
        w',
      )

  -- The function of a timer.
  unfoldable pub fire_timer : CpuProfile → W → CpuProfile × W
  fire_timer s w = if s.active then end_profile s w else (s, w)

  unfoldable pub start_cpu_profile : ℕ → Option ℤ → CpuProfile → W → CpuProfile × W
  start_cpu_profile now seconds_arg s w =
      if s.active
      then (s, w)
      else (let (error, w') = pprof.start (pprof.reset w) in
          (begin_profile now (duration_of seconds_arg) error s, w'))

  unfoldable pub stop_cpu_profile : CpuProfile → W → CpuProfile × W
  stop_cpu_profile s w = if s.active then end_profile s w else (s, w)

unfoldable pub limited : ℕ → List CpuFuncEntry → List CpuFuncEntry
limited limit functions = if ltb limit (length functions) then take limit functions else functions

unfoldable pub limit_of : Option ℤ → ℕ
limit_of (some (pos n)) = if ltb 0 n then n else 20
limit_of _ = 20

unfoldable pub sort_functions : SortSlice → Text → List CpuFuncEntry → List CpuFuncEntry
sort_functions sort sort_by functions =
    if text_eq sort_by (ascii "self")
    then sort by_self functions
    else (if text_eq sort_by (ascii "count")
        then sort by_count functions
        else sort by_cumulative functions)

module _ {X : Type 0} (duration_text : ℕ → Text) where
  unfoldable pub function_value : CpuFuncEntry → Value X
  function_value e = object (
      (ascii "name", str e.name)
      ∷ (ascii "file", str e.file)
      ∷ (ascii "line", count_value e.line)
      ∷ (ascii "cumulative_ns", count_value e.cumulative_ns)
      ∷ (ascii "self_ns", count_value e.self_ns)
      ∷ (ascii "count", count_value e.count)
      ∷ [])

  -- The answers of the tools, from the state before and after; durations are rounded by their format.
  unfoldable pub start_value : ℕ → Option ℤ → Text → Option Text → CpuProfile → Value X
  start_value now seconds_arg started_at error s =
      if s.active
      then object (
          (
            ascii "error",
            str (ascii "CPU profiling is already active. Call stop_cpu_profile first."),
          )
          ∷ (ascii "active", bool true)
          ∷ (ascii "elapsed", str (duration_text (now - s.start)))
          ∷ [])
      else (elim error [
        | some e ↦ object ((ascii "error", str (ascii "Failed to start CPU profiling: " ++ e)) ∷ [])
        | none ↦ object (
            (
              ascii "message",
              str (
                  ascii "profiling started, will run for "
                  ++ decimal (duration_of seconds_arg)
                  ++ ascii " seconds"),
            )
            ∷ (ascii "active", bool true)
            ∷ (ascii "started_at", str started_at)
            ∷ [])
      ])

  unfoldable pub stop_value : ℕ → CpuProfile → CpuProfile → Value X
  stop_value now s s' =
      if s.active
      then object (
          (
            ascii "message",
            str (ascii "CPU profiling stopped after " ++ duration_text (now - s.start)),
          )
          ∷ (ascii "elapsed", str (duration_text (now - s.start)))
          ∷ (ascii "total_samples", count_value (length s'.last_top_functions))
          ∷ (ascii "top_functions", array (map function_value (limited 20 s'.last_top_functions)))
          ∷ [])
      else object (
          (ascii "error", str (ascii "No CPU profiling is active."))
          ∷ (ascii "last_available", bool (ltb 0 (length s.last_top_functions)))
          ∷ [])

  -- The order is "" where it is missing.
  unfoldable pub get_top_functions : SortSlice → Option ℤ → Text → CpuProfile → Value X
  get_top_functions sort limit sort_by_arg s =
      if is_empty s.last_top_functions
      then object (
          (
            ascii "message",
            str (
                ascii "No CPU profile data available. Call start_cpu_profile then stop_cpu_profile "
                ++ ascii "first."),
          )
          ∷ (ascii "count", count_value 0)
          ∷ [])
      else (let sort_by = if is_empty sort_by_arg then ascii "cumulative" else sort_by_arg in
          let functions =
            limited (limit_of limit) (sort_functions sort sort_by s.last_top_functions) in
          object (
            (ascii "count", count_value (length functions))
            ∷ (ascii "sort_by", str sort_by)
            ∷ (ascii "functions", array (map function_value functions))
            ∷ []))
