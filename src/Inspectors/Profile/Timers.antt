-- ===== src/Inspectors/Profile/Timers.antt =====
-- inspector_cpu_profile.go: the profile and its timers, under starts, stops and timers in any order.
use go_debug_agent.Prelude.{
  ℕ, ◌+◌, ◌≤◌, ◌<◌, ◌≡◌, refl, sym, ap, ◌∙◌, subst, Bool, true, false, List, [], ◌∷◌, ◌++◌, Option,
  none, some, arith, Bool-cases, inl, inr,
}
use go_debug_agent.Prelude.Int.{ℤ, pos}
use go_debug_agent.Inspectors.Profile.Machine.{
  Pprof, CpuProfile, SortSlice, seconds, duration_of, end_profile, fire_timer, begin_profile,
  start_cpu_profile, stop_cpu_profile,
}
use go_debug_agent.Inspectors.Profile.Steps.{
  Profiler, IsPprof, at, Fires, fires, CpuStep, started, stopped, fired, passed, CpuSteps, no_step,
  then_step,
}

-- A timer is pending for a deadline.
abbrev pub IsPending : ℕ → List ℕ → Type 0
IsPending deadline timers = (front : List ℕ) × (back : List ℕ) × (timers ≡ front ++ deadline ∷ back)

-- pprof runs exactly while the state says so, and then a timer is pending for the profile's end.
abbrev pub IsTimed : {W : Type 0} → (W → Bool) → CpuProfile × W → Type 0
IsTimed is_running r =
    (is_running r.1 ≡ r.0.active)
    × (r.0.active ≡ true → IsPending (r.0.start + seconds r.0.duration) r.0.timers)

module _ {W : Type 0} (pprof : Pprof W) (sort : SortSlice) (is_running : W → Bool)
    (h : IsPprof pprof is_running) where
  -- A start where nothing runs.
  start_cpu_profile_idle :
      (now : ℕ) (arg : Option ℤ) (s : CpuProfile) (w : W)
      → s.active ≡ false
      → is_running w ≡ false
      → let r = start_cpu_profile pprof sort now arg s w in
        (r.0.active ≡ true)
        × (r.0.start ≡ now)
        × (r.0.duration ≡ duration_of arg)
        × (r.0.timers ≡ (now + seconds (duration_of arg)) ∷ s.timers)
        × (is_running r.1 ≡ true)
  unfolding start_cpu_profile begin_profile
  start_cpu_profile_idle now arg s w idle off =
      let runs = h.start_runs (pprof.reset w) (h.reset_keeps w ∙ off) in
      rw idle (rw runs.0 (refl, refl, refl, refl, runs.1))

  stop_cpu_profile_active :
      (s : CpuProfile) (w : W)
      → s.active ≡ true
      → let r = stop_cpu_profile pprof sort s w in
        (r.0.active ≡ false) × (r.0.timers ≡ s.timers) × (is_running r.1 ≡ false)
  unfolding stop_cpu_profile end_profile
  stop_cpu_profile_active s w active = rw active (refl, refl, h.stop_ends w)

  -- A state in which nothing runs needs no timer.
  inactive-IsTimed :
      (s : CpuProfile) (w : W) → s.active ≡ false → is_running w ≡ false → IsTimed is_running (s, w)
  inactive-IsTimed s w idle off = (off ∙ sym idle, λ active. absurd (ground (arith, idle, active)))

  start-IsTimed :
      (now : ℕ) (arg : Option ℤ) (s : CpuProfile) (w : W)
      → IsTimed is_running (s, w)
      → IsTimed is_running (start_cpu_profile pprof sort now arg s w)
  unfolding start_cpu_profile
  start-IsTimed now arg s w t = elim (Bool-cases s.active) [
    | inl active ↦
        let same : start_cpu_profile pprof sort now arg s w ≡ (s, w) = rw active refl in
        subst (IsTimed is_running) (sym same) t
    | inr idle ↦
        let f = start_cpu_profile_idle now arg s w idle (t.0 ∙ idle) in
        let r = start_cpu_profile pprof sort now arg s w in
        let deadline : now + seconds (duration_of arg) ≡ r.0.start + seconds r.0.duration =
          ap (λ b. b + seconds (duration_of arg)) (sym f.1)
          ∙ ap (λ d. r.0.start + seconds d) (sym f.2) in
        (f.4 ∙ sym f.0, λ active. ([], s.timers, f.3 ∙ ap (λ d. d ∷ s.timers) deadline))
  ]

  stop-IsTimed :
      (s : CpuProfile) (w : W)
      → IsTimed is_running (s, w)
      → IsTimed is_running (stop_cpu_profile pprof sort s w)
  unfolding stop_cpu_profile
  stop-IsTimed s w t = elim (Bool-cases s.active) [
    | inl active ↦
        let f = stop_cpu_profile_active s w active in
        let r = stop_cpu_profile pprof sort s w in inactive-IsTimed r.0 r.1 f.0 f.2
    | inr idle ↦
        let same : stop_cpu_profile pprof sort s w ≡ (s, w) = rw idle refl in
        subst (IsTimed is_running) (sym same) t
  ]

  -- A timer leaves nothing running, whatever its deadline was.
  fire_timer_ends :
      (s : CpuProfile) (w : W) (timers : List ℕ)
      → is_running w ≡ s.active
      → let r = fire_timer pprof sort (record s { timers = timers }) w in
        (r.0.active ≡ false) × (is_running r.1 ≡ false)
  unfolding fire_timer end_profile
  fire_timer_ends s w timers e = elim (Bool-cases s.active) [
    | inl active ↦ rw active (refl, h.stop_ends w)
    | inr idle ↦ rw idle (refl, e ∙ idle)
  ]

  fire_timer-Fires :
      (m m' : Profiler W)
      → IsTimed is_running (m.state, m.world)
      → Fires pprof sort m m'
      → (m'.state.active ≡ false) × (is_running m'.world ≡ false)
  fire_timer-Fires _ _ t (fires m front back deadline e past) =
      fire_timer_ends m.state m.world (front ++ back) t.0

  CpuStep-IsTimed :
      (m m' : Profiler W)
      → CpuStep pprof sort m m'
      → IsTimed is_running (m.state, m.world)
      → IsTimed is_running (m'.state, m'.world)
  CpuStep-IsTimed _ _ (started m arg) t = start-IsTimed m.time arg m.state m.world t
  CpuStep-IsTimed _ _ (stopped m) t = stop-IsTimed m.state m.world t
  CpuStep-IsTimed _ _ (fired m m' f) t =
      let ended = fire_timer-Fires m m' t f in inactive-IsTimed m'.state m'.world ended.0 ended.1
  CpuStep-IsTimed _ _ (passed m n) t = t

  CpuSteps-IsTimed :
      (m m' : Profiler W)
      → CpuSteps pprof sort m m'
      → IsTimed is_running (m.state, m.world)
      → IsTimed is_running (m'.state, m'.world)
  CpuSteps-IsTimed _ _ (no_step m) t = t
  CpuSteps-IsTimed _ _ (then_step m n o before last) t =
      CpuStep-IsTimed n o last (CpuSteps-IsTimed m n before t)

  -- From a state without a profile, through any starts, stops and timers: runtime/pprof runs exactly
  -- while cpuProfilingActive says so; and a profile whose duration has passed can be ended by a
  -- timer that is pending, after which nothing runs.
  pub profile_ends :
      (m m' : Profiler W)
      → m.state.active ≡ false
      → is_running m.world ≡ false
      → CpuSteps pprof sort m m'
      → (is_running m'.world ≡ m'.state.active)
        × (m'.state.active ≡ true
            → m'.state.start + seconds m'.state.duration ≤ m'.time
            → (o : Profiler W) × Fires pprof sort m' o
              × (o.state.active ≡ false)
              × (is_running o.world ≡ false))
  profile_ends m m' idle off steps =
      let t = CpuSteps-IsTimed m m' steps (inactive-IsTimed m.state m.world idle off) in
      (
        t.0,
        λ active past.
            let (front, back, e) = t.1 active in
            let f = fires m' front back _ e past in
            let ended = fire_timer-Fires m' _ t f in (_, f, ended.0, ended.1),
      )

  -- A profile of 30 seconds is started and stopped at once, and n nanoseconds after, with k of the 30
  -- seconds left, one of the longest duration, 120 seconds, is started. Stop does not cancel the timer
  -- of the first, which is still pending beside that of the second. When the 30 seconds since the first
  -- began have passed, before the second's own end, the first's timer fires, and ends the second.
  pub profile_cut_short :
      (m : Profiler W) (n k : ℕ)
      → m.state.active ≡ false
      → is_running m.world ≡ false
      → n + k ≡ seconds 30
      → let first =
          at pprof sort (start_cpu_profile pprof sort m.time none m.state m.world) m.time in
        let idle = at pprof sort (stop_cpu_profile pprof sort first.state first.world) m.time in
        let second =
          at pprof sort
            (start_cpu_profile pprof sort (m.time + n) (some (pos 500)) idle.state idle.world)
            (m.time + n) in
        let before = at pprof sort (second.state, second.world) (m.time + n + k) in
        let own_timer = m.time + n + seconds 120 in
        let left : CpuProfile = record second.state { timers = own_timer ∷ m.state.timers } in
        let after = at pprof sort (fire_timer pprof sort left second.world) (m.time + n + k) in
        CpuSteps pprof sort m before
        × (first.state.active ≡ true)
        × (first.state.duration ≡ 30)
        × (idle.state.active ≡ false)
        × (second.state.active ≡ true)
        × (second.state.start ≡ m.time + n)
        × (second.state.duration ≡ 120)
        × (second.state.timers ≡ own_timer ∷ (m.time + seconds 30) ∷ m.state.timers)
        × (before.time ≡ m.time + seconds 30)
        × (before.time < second.state.start + seconds second.state.duration)
        × Fires pprof sort before after
        × (after.state.active ≡ false)
        × (is_running after.world ≡ false)
  unfolding duration_of
  profile_cut_short m n k idle off h30 =
      let s1 = start_cpu_profile pprof sort m.time none m.state m.world in
      let f1 = start_cpu_profile_idle m.time none m.state m.world idle off in
      let s2 = stop_cpu_profile pprof sort s1.0 s1.1 in
      let f2 = stop_cpu_profile_active s1.0 s1.1 f1.0 in
      let later = m.time + n in
      let s3 = start_cpu_profile pprof sort later (some (pos 500)) s2.0 s2.1 in
      let f3 = start_cpu_profile_idle later (some (pos 500)) s2.0 s2.1 f2.0 f2.2 in
      let before : Profiler W = at pprof sort s3 (later + k) in
      let own_timer = later + seconds 120 in
      let pending : s3.0.timers ≡ own_timer ∷ (m.time + seconds 30) ∷ m.state.timers =
        f3.3 ∙ ap (λ l. own_timer ∷ l) (f2.1 ∙ f1.3) in
      let own_end : s3.0.start + seconds s3.0.duration ≡ own_timer =
        ap (λ b. b + seconds s3.0.duration) f3.1 ∙ ap (λ d. later + seconds d) f3.2 in
      let stopped_first =
        then_step _ _ _ (then_step _ _ _ (no_step m) (started m none))
          (stopped (at pprof sort s1 m.time)) in
      let steps =
        then_step _ _ _
          (then_step _ _ _ (then_step _ _ _ stopped_first (passed (at pprof sort s2 m.time) n))
            (started (at pprof sort s2 later) (some (pos 500))))
          (passed (at pprof sort s3 later) k) in
      let ended = fire_timer_ends s3.0 s3.1 (own_timer ∷ m.state.timers) (f3.4 ∙ sym f3.0) in
      (
        steps,
        f1.0,
        f1.2,
        f2.0,
        f3.0,
        f3.1,
        f3.2,
        pending,
        omega (arith, h30),
        omega (arith, own_end, h30),
        fires before (own_timer ∷ []) m.state.timers (m.time + seconds 30) pending
            (omega (arith, h30)),
        ended.0,
        ended.1,
      )
