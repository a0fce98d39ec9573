-- ===== src/Inspectors/Health.antt =====
-- inspector_health.go: health checks, and the tools that run them. A check acts on a world; the
-- checks stand in the order of the range.
use go_debug_agent.Prelude.{
  ℕ, ◌+◌, ◌≤◌, ◌≡◌, refl, ◌&&◌, List, [], ◌∷◌, ◌++◌, map, Option, none, some, ltb, ◌==◌,
  if◌then◌else◌, length, is_empty, arith, Bool-cases, inl, inr,
}
use go_debug_agent.Prelude.Map
use go_debug_agent.Prelude.Map.{text_key}
use go_debug_agent.Prelude.Result.{Result, ok, err}
use go_debug_agent.Prelude.Text.{Text, ascii, text_eq}
use go_debug_agent.Registry.Value.{Value, str}
use go_debug_agent.Inspectors.Base.{object, array, count_value}

-- What a check's function does: return a status and details, nil being `none`, or panic.
pub data CheckResult (X : Type 0) : Type 0 where
  reported : Text → Option (Value X) → CheckResult X
  panicked : Text → CheckResult X

-- A nil function is `none`.
pub record HealthCheck (W X : Type 0) : Type 0 where
  pub name : Text
  pub check : Option (W → CheckResult X × W)

abbrev pub Checks : Type 0 → Type 0 → Type 0
Checks W X = List (Text × HealthCheck W X)

-- The counters and the status of get_health_status, and its entries.
pub record HealthTally (X : Type 0) : Type 0 where
  pub overall_status : Text
  pub up_count : ℕ
  pub down_count : ℕ
  pub entries : List (Value X)

module _ {X : Type 0} where
  -- A status and details, with a panic turned into DOWN.
  unfoldable pub settle : CheckResult X → Text × Option (Value X)
  settle (reported status details) = (if is_empty status then ascii "UNKNOWN" else status, details)
  settle (panicked value) = (
    ascii "DOWN",
    some (
        object
          ((ascii "error", str (ascii "Health check panicked")) ∷ (ascii "panic", str value) ∷ [])),
  )

  unfoldable pub details_field : Option (Value X) → List (Text × Value X)
  details_field none = []
  details_field (some details) = (ascii "details", details) ∷ []

  -- The body of the loop of get_health_status.
  unfoldable pub tally_check : Text → Text → Option (Value X) → HealthTally X → HealthTally X
  tally_check name status details t =
      let entry =
        object ((ascii "name", str name) ∷ (ascii "status", str status) ∷ details_field details) in
      if text_eq status (ascii "UP")
      then record t { up_count = t.up_count + 1; entries = t.entries ++ entry ∷ [] }
      else record t {
        down_count = t.down_count + 1;
        overall_status = ascii "DEGRADED";
        entries = t.entries ++ entry ∷ [];
      }

  abbrev pub tally_start : HealthTally X
  tally_start = record { overall_status = ascii "UP"; up_count = 0; down_count = 0; entries = [] }

  -- if downCount > 0 && upCount == 0 { overallStatus = "DOWN" }
  unfoldable pub overall : HealthTally X → Text
  overall t = if ltb 0 t.down_count && t.up_count == 0 then ascii "DOWN" else t.overall_status

module _ {W X : Type 0} where
  unfoldable pub register_health_check :
      Text → Option (W → CheckResult X × W) → Checks W X → Checks W X
  register_health_check name check checks =
      Map.insert name (record { name = name; check = check }) checks

  unfoldable pub execute_health_check : HealthCheck W X → W → (Text × Option (Value X)) × W
  execute_health_check hc w = elim hc.check [
    | none ↦ (
      (
        ascii "UNKNOWN",
        some (object ((ascii "error", str (ascii "No check function registered")) ∷ [])),
      ),
      w,
    )
    | some check ↦ (settle (check w).0, (check w).1)
  ]

  unfoldable pub tally_checks : Checks W X → HealthTally X → W → HealthTally X × W
  tally_checks [] t w = (t, w)
  tally_checks (c ∷ cs) t w =
      let (answer, w') = execute_health_check c.1 w in
      tally_checks cs (tally_check c.0 answer.0 answer.1 t) w'

  unfoldable pub get_health_status : Checks W X → W → Value X × W
  get_health_status [] w = (
    object (
        (
          ascii "message",
          str (
              ascii "No health checks registered. Call debugagent.RegisterHealthCheck(name, check) "
              ++ ascii "to enable health inspection."),
        )
        ∷ (ascii "count", count_value 0)
        ∷ []),
    w,
  )
  get_health_status (c ∷ cs) w =
      let (t, w') = tally_checks (c ∷ cs) tally_start w in
      (
        object (
            (ascii "overall_status", str (overall t))
            ∷ (ascii "total_checks", count_value (length (c ∷ cs)))
            ∷ (ascii "up", count_value t.up_count)
            ∷ (ascii "down", count_value t.down_count)
            ∷ (ascii "checks", array t.entries)
            ∷ []),
        w',
      )

module _ {X : Type 0} (null : Value X) where
  -- The value of `details`, which is null for nil.
  unfoldable pub or_null : Option (Value X) → Value X
  or_null none = null
  or_null (some details) = details

  unfoldable pub component_value : Text → Text → Text × Option (Value X) → Value X
  component_value key name answer =
      object (
        (key, str name) ∷ (ascii "status", str answer.0) ∷ (ascii "details", or_null answer.1) ∷ [])

module _ {W X : Type 0} (null : Value X) where
  unfoldable pub get_health_detail : Text → Checks W X → W → Result Text (Value X) × W
  get_health_detail component_name checks w =
      if is_empty component_name
      then (err (ascii "component_name is required"), w)
      else elim (Map.lookup component_name checks) [
        | none ↦ (
          ok (
              object (
                (ascii "error", str (ascii "Health check component not found: " ++ component_name))
                ∷ (ascii "available", array (map (λ c. str c.0) checks))
                ∷ [])),
          w,
        )
        | some hc ↦
            let (answer, w') = execute_health_check hc w in
            (ok (component_value null (ascii "name") component_name answer), w')
      ]

  unfoldable pub run_all_checks : Checks W X → W → List (Value X) × W
  run_all_checks [] w = ([], w)
  run_all_checks (c ∷ cs) w =
      let (answer, w') = execute_health_check c.1 w in
      let (values, w'') = run_all_checks cs w' in
      (component_value null (ascii "component") c.0 answer ∷ values, w'')

  unfoldable pub run_health_check : Text → Checks W X → W → Value X × W
  run_health_check target_name checks w =
      if is_empty target_name
      then (let (results, w') = run_all_checks checks w in
          (
            object (
                (ascii "count", count_value (length results))
                ∷ (ascii "results", array results)
                ∷ []),
            w',
          ))
      else elim (Map.lookup target_name checks) [
        | none ↦
            (object ((ascii "error", str (ascii "Unknown health check: " ++ target_name)) ∷ []), w)
        | some hc ↦
            let (answer, w') = execute_health_check hc w in
            (component_value null (ascii "component") target_name answer, w')
      ]

-- UP without a check that is down, DEGRADED with one.
abbrev IsFair : {X : Type 0} → ℕ → HealthTally X → Type 0
IsFair n t =
    (t.up_count + t.down_count ≡ n)
    × (t.overall_status ≡ (if t.down_count == 0 then ascii "UP" else ascii "DEGRADED"))

module _ {X : Type 0} where
  tally_check-IsFair :
      (n : ℕ) (name status : Text) (details : Option (Value X)) (t : HealthTally X)
      → IsFair n t
      → IsFair (n + 1) (tally_check name status details t)
  unfolding tally_check
  tally_check-IsFair n name status details t f = elim (Bool-cases (text_eq status (ascii "UP"))) [
    | inl e ↦ rw e (omega (arith, f.0), f.1)
    | inr e ↦ rw e (omega (arith, f.0), ground arith)
  ]

module _ {W X : Type 0} where
  tally_checks-IsFair :
      (cs : Checks W X) (n : ℕ) (t : HealthTally X) (w : W)
      → IsFair n t
      → IsFair (n + length cs) (tally_checks cs t w).0
  unfolding tally_checks
  tally_checks-IsFair [] n t w f = (omega (arith, f.0), f.1)
  tally_checks-IsFair (c ∷ cs) n t w f =
      let answer = execute_health_check c.1 w in
      let r =
        tally_checks-IsFair cs (n + 1) (tally_check c.0 answer.0.0 answer.0.1 t) answer.1
          (tally_check-IsFair n c.0 answer.0.0 answer.0.1 t f) in
      (omega (arith, r.0), r.1)

  -- get_health_status counts every check once, up or down; and of one check at least, the overall
  -- status is UP if none is down, DOWN if all are, and DEGRADED otherwise.
  pub overall-tally_checks :
      (cs : Checks W X) (w : W)
      → 1 ≤ length cs
      → let t = (tally_checks cs tally_start w).0 in
        (t.up_count + t.down_count ≡ length cs)
        × (overall t ≡ (
            if t.down_count == 0
            then ascii "UP"
            else (if t.down_count == length cs then ascii "DOWN" else ascii "DEGRADED")))
  unfolding overall
  overall-tally_checks cs w h =
      let r = tally_checks-IsFair cs 0 tally_start w (refl, refl) in
      (omega (arith, r.0), ground (arith, r.0, r.1))
