-- ===== src/Tests/Profiles.antt =====
-- Runs of the inspectors of profiles, locks and the heap.
use go_debug_agent.Prelude.{
  ℕ, ◌+◌, ◌-◌, ◌≤◌, ◌<◌, ◌≡◌, refl, List, [], ◌∷◌, map, none, some, true, false, Bool, arith,
  length, if◌then◌else◌, take, min,
}
use go_debug_agent.Prelude.Text.{Text, ascii, text_eq}
use go_debug_agent.Prelude.Int.{pos}
use go_debug_agent.Prelude.Map
use go_debug_agent.Prelude.Map.{text_key}
use go_debug_agent.Inspectors.Base.{count_if}
use go_debug_agent.Inspectors.Profile.Parse.{ProfileLine, Sample}
use go_debug_agent.Inspectors.Profile.Machine.{
  Pprof, CpuProfile, seconds, SortSlice, fire_timer, start_cpu_profile, stop_cpu_profile,
}
use go_debug_agent.Inspectors.Profile.Steps.{
  Profiler, IsPprof, Fires, CpuSteps, no_step, then_step, started, at,
}
use go_debug_agent.Inspectors.Profile.Timers.{profile_ends, profile_cut_short}
use go_debug_agent.Inspectors.Locks.Sites.{
  parse_contention_sites, parse_block_sites, sites_of, is_header, parse_contention_sites-take,
}
use go_debug_agent.Inspectors.Leak.Snapshots.{HeapSnapshot, bytes_at}
use go_debug_agent.Inspectors.Leak.Candidates.{Candidate, bytes_of, candidate_of}
use go_debug_agent.Inspectors.Leak.Growth.{
  last_of, last_change, or_flag, IsRising, candidate_of_growth,
}

abbrev frame : Text → ℕ → ProfileLine
frame name number = record { function = some (name, ascii "a.go"); number = number }

abbrev samples : List Sample
samples =
    record {
      values = 1 ∷ 100 ∷ [];
      locations = (frame (ascii "f") 3 ∷ []) ∷ (frame (ascii "g") 9 ∷ []) ∷ [];
    }
    ∷ record { values = 2 ∷ 50 ∷ []; locations = (frame (ascii "g") 9 ∷ []) ∷ [] }
    ∷ []

-- A world that says whether a profile runs.
abbrev pprof : Pprof Bool
pprof = record {
  reset = λ w. w;
  start = λ w. if w then (some (ascii "cpu profiling already in use"), w) else (none, true);
  stop = λ w. false;
  samples = λ w. some samples;
}

started_if_off : (w : Bool) → w ≡ false → ((pprof.start w).0 ≡ none) × ((pprof.start w).1 ≡ true)
started_if_off true off = absurd (ground (arith, off))
started_if_off false off = (refl, refl)

pprof-IsPprof : IsPprof pprof (λ w. w)
pprof-IsPprof = record {
  reset_keeps = λ w. refl;
  start_runs = λ w off. started_if_off w off;
  stop_ends = λ w. refl;
}

abbrev unsorted : SortSlice
unsorted = λ before entries. entries

abbrev idle : Profiler Bool
idle = record {
  state = record { active = false; duration = 0; start = 0; last_top_functions = []; timers = [] };
  world = false;
  time = 1000;
}

abbrev first : Profiler Bool
first = at pprof unsorted (start_cpu_profile pprof unsorted 1000 none idle.state false) 1000

abbrev between : Profiler Bool
between = at pprof unsorted (stop_cpu_profile pprof unsorted first.state first.world) 1000

abbrev second : Profiler Bool
second =
    at pprof unsorted
      (start_cpu_profile pprof unsorted 1010 (some (pos 500)) between.state between.world) 1010

profile_cut_short_example :
    let before = at pprof unsorted (second.state, second.world) (1010 + (seconds 30 - 10)) in
    let own_timer = 1010 + seconds 120 in
    let left : CpuProfile = record second.state { timers = own_timer ∷ [] } in
    let after =
      at pprof unsorted (fire_timer pprof unsorted left second.world) (1010 + (seconds 30 - 10)) in
    CpuSteps pprof unsorted idle before
    × (first.state.active ≡ true)
    × (first.state.duration ≡ 30)
    × (between.state.active ≡ false)
    × (second.state.active ≡ true)
    × (second.state.start ≡ 1010)
    × (second.state.duration ≡ 120)
    × (second.state.timers ≡ own_timer ∷ (1000 + seconds 30) ∷ [])
    × (before.time ≡ 1000 + seconds 30)
    × (before.time < second.state.start + seconds second.state.duration)
    × Fires pprof unsorted before after
    × (after.state.active ≡ false)
    × (after.world ≡ false)
profile_cut_short_example =
    profile_cut_short pprof unsorted (λ w. w) pprof-IsPprof idle 10 (seconds 30 - 10) refl refl
      (omega arith)

abbrev begun : Profiler Bool
begun = at pprof unsorted (start_cpu_profile pprof unsorted 1000 none idle.state false) 1000

profile_ends_example :
    (begun.world ≡ begun.state.active)
    × (begun.state.active ≡ true
        → begun.state.start + seconds begun.state.duration ≤ begun.time
        → (o : Profiler Bool) × Fires pprof unsorted begun o
          × (o.state.active ≡ false)
          × (o.world ≡ false))
profile_ends_example =
    profile_ends pprof unsorted (λ w. w) pprof-IsPprof idle begun refl refl
      (then_step idle idle begun (no_step idle) (started idle none))

-- strings.TrimSpace leaves these lines alone.
abbrev profile_lines : List Text
profile_lines =
    ascii "--- mutex:"
    ∷ ascii "contention: 12ns 1"
    ∷ ascii "main.f (a.go:3)"
    ∷ ascii "contention: 5ns 2"
    ∷ []

parse_contention_sites-take_example :
    let all = sites_of (map (λ s. s) profile_lines) none in
    let wanted = min 1 (count_if is_header (map (λ s. s) profile_lines)) in
    (parse_contention_sites (λ s. s) 1 profile_lines ≡ take 1 all)
    × (parse_block_sites (λ s. s) 1 profile_lines ≡ take 1 all)
    × (length (take 1 all) ≡ wanted)
parse_contention_sites-take_example =
    parse_contention_sites-take (λ s. s) 1 profile_lines (omega arith)

-- Every block has one more line, of a goroutine that waits for a mutex.
abbrev lines_of : Text → List Text
lines_of block = block ∷ ascii "sync.(*Mutex).Lock(0x1)" ∷ []

abbrev heap : ℕ → HeapSnapshot
heap bytes = record {
  id = ascii "heap-001";
  timestamp = 0;
  heap_in_use = 0;
  heap_alloc = 0;
  heap_objects = 0;
  total_alloc = 0;
  type_bytes = (ascii "heap/objects", bytes) ∷ [];
  type_counts = (ascii "heap/objects", 1) ∷ [];
}

candidate_of_growth_example :
    (last_of 10 (5 ∷ 20 ∷ []) ≤ 10
      → candidate_of (ascii "heap/objects") (heap 10 ∷ heap 5 ∷ heap 20 ∷ []) ≡ none)
    × (10 < last_of 10 (5 ∷ 20 ∷ [])
        → (c : Candidate) × (candidate_of (ascii "heap/objects") (heap 10 ∷ heap 5 ∷ heap 20 ∷ [])
            ≡ some c)
          × (c.bytes_first ≡ 10)
          × (c.bytes_last ≡ last_of 10 (5 ∷ 20 ∷ []))
          × (c.monotonic ≡ or_flag (last_change 10 (5 ∷ 20 ∷ [])) false)
          × (IsRising 10 (5 ∷ 20 ∷ []) → c.monotonic ≡ true))
unfolding bytes_of bytes_at Map.lookup Map.value_or_zero text_eq
candidate_of_growth_example =
    candidate_of_growth (ascii "heap/objects") (heap 10 ∷ heap 5 ∷ heap 20 ∷ []) 10 (5 ∷ 20 ∷ [])
      refl
