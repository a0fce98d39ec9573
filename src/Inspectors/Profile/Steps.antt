-- ===== src/Inspectors/Profile/Steps.antt =====
-- inspector_cpu_profile.go: the steps of the profiler: the requests to start and to stop a profile, and the timers, in any order.
use go_debug_agent.Prelude.{ℕ, ◌+◌, ◌≤◌, ◌≡◌, Bool, true, false, List, ◌∷◌, ◌++◌, Option, none}
use go_debug_agent.Prelude.Int.{ℤ}
use go_debug_agent.Inspectors.Profile.Machine.{
  Pprof, CpuProfile, SortSlice, fire_timer, start_cpu_profile, stop_cpu_profile,
}

-- The state, the world, and the time on the clock.
pub record Profiler (W : Type 0) : Type 0 where
  pub state : CpuProfile
  pub world : W
  pub time : ℕ

-- What runtime/pprof documents: a profile can be started exactly if none is running.
pub record IsPprof {W : Type 0} (pprof : Pprof W) (is_running : W → Bool) : Type 0 where
  pub reset_keeps : (w : W) → is_running (pprof.reset w) ≡ is_running w
  pub start_runs :
      (w : W)
      → is_running w ≡ false
      → ((pprof.start w).0 ≡ none) × (is_running (pprof.start w).1 ≡ true)
  pub stop_ends : (w : W) → is_running (pprof.stop w) ≡ false

module _ {W : Type 0} (pprof : Pprof W) (sort : SortSlice) where
  abbrev pub at : CpuProfile × W → ℕ → Profiler W
  at r time = record { state = r.0; world = r.1; time = time }

  -- A timer whose deadline has passed fires.
  pub data Fires : Profiler W → Profiler W → Type 0 where
    fires :
        (m : Profiler W) (front back : List ℕ) (deadline : ℕ)
        → m.state.timers ≡ front ++ deadline ∷ back
        → deadline ≤ m.time
        → Fires m
            (at (fire_timer pprof sort (record m.state { timers = front ++ back }) m.world) m.time)

  pub data CpuStep : Profiler W → Profiler W → Type 0 where
    started :
        (m : Profiler W) (arg : Option ℤ)
        → CpuStep m (at (start_cpu_profile pprof sort m.time arg m.state m.world) m.time)
    stopped : (m : Profiler W) → CpuStep m (at (stop_cpu_profile pprof sort m.state m.world) m.time)
    fired : (m m' : Profiler W) → Fires m m' → CpuStep m m'
    passed : (m : Profiler W) (n : ℕ) → CpuStep m (at (m.state, m.world) (m.time + n))

  pub data CpuSteps : Profiler W → Profiler W → Type 0 where
    no_step : (m : Profiler W) → CpuSteps m m
    then_step : (m n o : Profiler W) → CpuSteps m n → CpuStep n o → CpuSteps m o
