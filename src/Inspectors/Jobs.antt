-- ===== src/Inspectors/Jobs.antt =====
-- inspector_scheduler.go: jobs, their runs and the tools that read them. A time is counted in
-- nanoseconds and 0 is the zero time.
use go_debug_agent.Prelude.{
  ℕ, ◌+◌, ◌-◌, ◌≤◌, ◌≡◌, refl, Bool, true, false, List, [], ◌∷◌, ◌++◌, map, Option, none, some, ltb,
  ◌==◌, sym, ◌∙◌, Bool-cases, if◌then◌else◌, length, is_empty, arith, inl, inr,
}
use go_debug_agent.Prelude.Map
use go_debug_agent.Prelude.Map.{text_key}
use go_debug_agent.Prelude.Result.{Result, ok, err}
use go_debug_agent.Prelude.Text.{Text, ascii}
use go_debug_agent.Registry.Value.{Value, str}
use go_debug_agent.Inspectors.Base.{Format, object, array, count_value, count_if}
use go_debug_agent.Inspectors.Ring.{ring_push, length-keep_last, ring_push-snoc}

pub record JobRun : Type 0 where
  pub time : Text
  pub duration : Text
  pub success : Bool
  pub error : Text

pub record ScheduledJob : Type 0 where
  pub name : Text
  pub schedule : Text
  pub next_run : ℕ
  pub last_run : Option ℕ
  pub last_error : Text
  pub history : List JobRun
  pub interval : ℕ

abbrev pub Jobs : Type 0
Jobs = List (Text × ScheduledJob)

unfoldable pub new_job : Text → Text → ScheduledJob
new_job name schedule = record {
  name = name;
  schedule = schedule;
  next_run = 0;
  last_run = none;
  last_error = [];
  history = [];
  interval = 0;
}

unfoldable pub register_scheduled_job : Text → Text → Jobs → Jobs
register_scheduled_job name schedule jobs = Map.insert name (new_job name schedule) jobs

unfoldable pub append_history : List JobRun → JobRun → List JobRun
append_history history run = ring_push 100 run history

-- What a job's function does: return nil or an error, or panic.
pub data Outcome : Type 0 where
  finished : Option Text → Outcome
  panicked : Text → Outcome

module _ {W : Type 0} (fmt : Format) (now : W → ℕ × W) where
  -- The deferred function, after a panic with a value of this text.
  unfoldable pub record_panic : Text → ScheduledJob → W → ScheduledJob × W
  record_panic value j w =
      let (t, w') = now w in
      let (next, w'') = now w' in
      (
        record j {
          last_error = ascii "panic: " ++ value;
          last_run = some t;
          history = append_history j.history (record {
            time = fmt.rfc3339 t;
            duration = ascii "0s";
            success = false;
            error = ascii "panic: " ++ value;
          });
          next_run = next + j.interval;
        },
        w'',
      )

  -- What follows fn: the run that began at `start` ended with `failure`.
  unfoldable pub record_run : ℕ → Option Text → ScheduledJob → W → ScheduledJob × W
  record_run start failure j w =
      let (end_time, w') = now w in
      let (t, w'') = now w' in
      let (next, w''') = now w'' in
      let message : Text = elim failure [ none ↦ [] | some e ↦ e ] in
      let done : ScheduledJob = record j {
        last_run = some t;
        last_error = message;
        history = append_history j.history (record {
          time = fmt.rfc3339 t;
          duration = fmt.duration (end_time - start);
          success = elim failure [ none ↦ true | some _ ↦ false ];
          error = message;
        });
      } in
      if ltb 0 j.interval then (record done { next_run = next + j.interval }, w''') else (done, w'')

  unfoldable pub run_scheduled_job : (W → Outcome × W) → ScheduledJob → W → ScheduledJob × W
  run_scheduled_job fn j w =
      let (start, w') = now w in
      let (outcome, w'') = fn w' in
      elim outcome [
        | finished failure ↦ record_run start failure j w''
        | panicked value ↦ record_panic value j w''
      ]

module _ {X : Type 0} (fmt : Format) (encode : JobRun → Value X) where
  unfoldable pub format_time : ℕ → Text
  format_time t = if t == 0 then [] else fmt.rfc3339 t

  unfoldable pub format_time_ptr : Option ℕ → Text
  format_time_ptr none = []
  format_time_ptr (some t) = fmt.rfc3339 t

  -- The jobs in the order of the range.
  unfoldable pub get_scheduled_jobs : Jobs → Value X
  get_scheduled_jobs [] = object (
      (
        ascii "message",
        str (
            ascii
              "No scheduled jobs registered. Call debugagent.RegisterScheduledJob(name, schedule) "
            ++ ascii "to enable scheduler inspection."),
      )
      ∷ (ascii "count", count_value 0)
      ∷ [])
  get_scheduled_jobs (j ∷ js) =
      let entries =
        map
          (λ entry. object (
            (ascii "name", str entry.0)
            ∷ (ascii "schedule", str entry.1.schedule)
            ∷ (ascii "next_run", str (format_time entry.1.next_run))
            ∷ (ascii "last_run", str (format_time_ptr entry.1.last_run))
            ∷ (ascii "last_error", str entry.1.last_error)
            ∷ (ascii "runs", count_value (length entry.1.history))
            ∷ []))
          (j ∷ js) in
      object ((ascii "count", count_value (length (j ∷ js))) ∷ (ascii "jobs", array entries) ∷ [])

  unfoldable pub job_fields : ScheduledJob → List (Text × Value X)
  job_fields job =
      (ascii "name", str job.name)
        ∷ (ascii "schedule", str job.schedule)
        ∷ (ascii "total_runs", count_value (length job.history))
        ∷ (ascii "last_error", str job.last_error)
        ∷ (ascii "history", array (map encode job.history))
        ∷ (elim job.last_run [ none ↦ [] | some t ↦ (ascii "last_run", str (fmt.rfc3339 t)) ∷ [] ])
      ++ (if is_empty job.history
          then []
          else (
            ascii "success_rate",
            str (fmt.percent (count_if (λ r. r.success) job.history) (length job.history)),
          )
            ∷ [])

  -- The argument is "" where it is missing or no string.
  unfoldable pub get_job_history : Text → Jobs → Result Text (Value X)
  get_job_history job_name jobs =
      if is_empty job_name
      then err (ascii "job_name is required")
      else elim (Map.lookup job_name jobs) [
        | none ↦ ok (
            object (
              (ascii "error", str (ascii "Scheduled job not found: " ++ job_name))
              ∷ (ascii "available", array (map (λ entry. str entry.0) jobs))
              ∷ []))
        | some job ↦ ok (object (job_fields job))
      ]

-- The error of the last run, where there is one.
abbrev pub last_run_error : Text → List JobRun → Text
last_run_error e [] = e
last_run_error e (r ∷ rs) = last_run_error r.error rs

-- A job has run exactly if it has a history, of 100 runs at most, and it shows the error of the
-- last.
pub record IsJob (j : ScheduledJob) : Type 0 where
  pub ran : (elim j.last_run [ none ↦ true | some _ ↦ false ]) ≡ is_empty j.history
  pub error : j.last_error ≡ last_run_error [] j.history
  pub short : length j.history ≤ 100

last_run_error-append :
    (e : Text) (rs : List JobRun) (r : JobRun) → last_run_error e (rs ++ r ∷ []) ≡ r.error
last_run_error-append e [] r = refl
last_run_error-append e (q ∷ rs) r = last_run_error-append q.error rs r

is_empty_snoc : (rs : List JobRun) (r : JobRun) → is_empty (rs ++ r ∷ []) ≡ false
is_empty_snoc [] r = refl
is_empty_snoc (q ∷ rs) r = refl

appended-IsJob :
    (j : ScheduledJob) (t : ℕ) (h : List JobRun) (r : JobRun)
    → j.last_run ≡ some t
    → j.last_error ≡ r.error
    → j.history ≡ append_history h r
    → IsJob j
unfolding append_history ring_push
appended-IsJob j t h r ran error kept =
    let (front, split) = ring_push-snoc 100 r h (omega arith) in
    let same : j.history ≡ front ++ r ∷ [] = kept ∙ split in
    record {
      ran = rw (ran, same) (sym (is_empty_snoc front r));
      error = error ∙ rw same (sym (last_run_error-append [] front r));
      short = rw kept (length-keep_last 100 (h ++ r ∷ []));
    }

-- A run leaves a job whose state and history agree, whatever the job was and however its function
-- ends: with nil, with an error or in a panic.
pub run_scheduled_job-IsJob :
    {W : Type 0} (fmt : Format) (now : W → ℕ × W) (fn : W → Outcome × W) (j : ScheduledJob) (w : W)
    → IsJob (run_scheduled_job fmt now fn j w).0
unfolding run_scheduled_job record_panic record_run
run_scheduled_job-IsJob fmt now fn j w = go (fn (now w).1).0 refl
  where
    go : (o : Outcome) → (fn (now w).1).0 ≡ o → IsJob (run_scheduled_job fmt now fn j w).0
    go (panicked value) e =
        rw (e, run_scheduled_job) (appended-IsJob _ _ j.history _ refl refl refl)
    go (finished failure) e = elim (Bool-cases (ltb 0 j.interval)) [
      | inl i ↦ rw (e, i, run_scheduled_job) (appended-IsJob _ _ j.history _ refl refl refl)
      | inr i ↦ rw (e, i, run_scheduled_job) (appended-IsJob _ _ j.history _ refl refl refl)
    ]
