-- ===== src/Inspectors/Endpoints/Marks.antt =====
-- inspector_endpoint_test_inspector.go: what batch_test_endpoints counts and marks as tested.
use go_debug_agent.Prelude.{
  ℕ, ◌+◌, ◌≤◌, ◌≡◌, refl, ap, ◌∙◌, Bool, true, false, List, [], ◌∷◌, Option, none, some,
  if◌then◌else◌, length, is_empty, arith, length-append, Bool-cases, inl, inr, All,
}
use go_debug_agent.Prelude.Map
use go_debug_agent.Prelude.Map.{text_key, lookup-insert}
use go_debug_agent.Prelude.Result.{Result, ok, err}
use go_debug_agent.Prelude.Text.{Text, text_eq, text_eq_iff}
use go_debug_agent.Inspectors.Endpoints.Client.{
  Response, Http, Tested, mark_endpoint_tested, endpoint_key, method_of,
}
use go_debug_agent.Inspectors.Endpoints.Batch.{
  EndpointTest, BatchTally, Verdict, refused, add_verdict, judge, send_batch_test, run_test,
  run_tests,
}

-- An endpoint that is marked.
abbrev pub IsMarked : Text → Tested → Type 0
IsMarked key tested = Map.lookup key tested ≡ some true

-- All marks are kept.
abbrev AreKept : Tested → Tested → Type 0
AreKept s t = (key : Text) → IsMarked key s → IsMarked key t

either :
    (b : Bool) (held : Option Bool) → held ≡ some true → (if b then some true else held) ≡ some true
either true held h = refl
either false held h = h

mark-IsMarked :
    (to_upper : Text → Text) (method path : Text) (tested : Tested)
    → IsMarked
        (endpoint_key to_upper method path)
        (mark_endpoint_tested to_upper method path tested)
      × AreKept tested (mark_endpoint_tested to_upper method path tested)
unfolding mark_endpoint_tested
mark-IsMarked to_upper method path tested =
    let key = endpoint_key to_upper method path in
    (
      lookup-insert key key true tested
          ∙ ap (λ b. if b then some true else Map.lookup key tested) ((text_eq_iff key key).1 refl),
      λ k h. lookup-insert key k true tested ∙ either (text_eq key k) (Map.lookup k tested) h,
    )

-- The endpoint of a test that is a map is marked.
abbrev pub IsTested : (Text → Text) → Option EndpointTest → Tested → Type 0
IsTested to_upper none tested = ⊥
IsTested to_upper (some test) tested =
    IsMarked (endpoint_key to_upper (method_of to_upper test.args) test.args.path) tested

AreKept-IsTested :
    (to_upper : Text → Text) (test : Option EndpointTest) (s t : Tested)
    → AreKept s t
    → IsTested to_upper test s
    → IsTested to_upper test t
AreKept-IsTested to_upper none s t kept h = h
AreKept-IsTested to_upper (some test) s t kept h = kept _ h

judge_marks :
    (X : Type 0) (to_upper : Text → Text) (duration_text : ℕ → Text) (i : ℕ) (test : EndpointTest)
    (duration : ℕ) (answer : Result Text Response) (tested : Tested)
    → let r : Verdict X × Tested =
        judge to_upper duration_text i (method_of to_upper test.args) test duration answer tested in
      AreKept tested r.1 × (r.0.passed ≡ true → IsTested to_upper (some test) r.1)
unfolding judge
judge_marks X to_upper duration_text i test duration (err e) tested =
    (λ k h. h, λ h. absurd (ground (arith, h)))
judge_marks X to_upper duration_text i test duration (ok resp) tested =
    let m = mark-IsMarked to_upper (method_of to_upper test.args) test.args.path tested in
    (m.1, λ h. m.0)

add_verdict_counts :
    {X : Type 0} (v : Verdict X) (t : BatchTally X)
    → (length (add_verdict v t).results ≡ length t.results + 1)
      × ((add_verdict v t).pass_count + (add_verdict v t).fail_count
          ≡ t.pass_count + t.fail_count + 1)
      × (t.fail_count ≤ (add_verdict v t).fail_count)
      × ((add_verdict v t).fail_count ≡ t.fail_count → v.passed ≡ true)
unfolding add_verdict
add_verdict_counts v t = elim (Bool-cases v.passed) [
  | inl e ↦ (
    omega (arith, length-append t.results (v.entry ∷ [])),
    ground (arith, e),
    ground (arith, e),
    λ h. e,
  )
  | inr e ↦ (
    omega (arith, length-append t.results (v.entry ∷ [])),
    ground (arith, e),
    ground (arith, e),
    λ h. absurd (ground (arith, e, h)),
  )
]

module _ {R W : Type 0} (X : Type 0) (http : Http R W) (to_upper : Text → Text)
    (duration_text : ℕ → Text) where
  send_batch_test_marks :
      (i : ℕ) (test : EndpointTest) (built : Result Text R) (tested : Tested) (w : W)
      → let r : Verdict X × Tested × W =
          send_batch_test http to_upper duration_text i
            (method_of to_upper test.args)
            test
            built
            tested
            w in
        AreKept tested r.1 × (r.0.passed ≡ true → IsTested to_upper (some test) r.1)
  unfolding send_batch_test
  send_batch_test_marks i test (err e) tested w = (λ k h. h, λ h. absurd (ground (arith, h)))
  send_batch_test_marks i test (ok req) tested w =
      let (answer, duration, w') = http.do_request req w in
      judge_marks X to_upper duration_text i test duration answer tested

  run_test_marks :
      (port : Text) (i : ℕ) (test : Option EndpointTest) (tested : Tested) (w : W)
      → let r : Verdict X × Tested × W =
          run_test http to_upper duration_text port i test tested w in
        AreKept tested r.1 × (r.0.passed ≡ true → IsTested to_upper test r.1)
  unfolding run_test refused
  run_test_marks port i none tested w = (λ k h. h, λ h. absurd (ground (arith, h)))
  run_test_marks port i (some test) tested w = elim (Bool-cases (is_empty test.args.path)) [
    | inl e ↦ rw e (λ k h. h, λ h. absurd (ground (arith, h)))
    | inr e ↦ rw e (send_batch_test_marks i test _ tested w)
  ]

  -- Every turn adds an entry and counts it, marks are kept, and a test that passed is marked.
  run_tests_marks :
      (port : Text) (i : ℕ) (tests : List (Option EndpointTest)) (t : BatchTally X)
      (tested : Tested) (w : W)
      → let r = run_tests http to_upper duration_text port i tests t tested w in
        (length r.0.results ≡ length t.results + length tests)
        × (r.0.pass_count + r.0.fail_count ≡ t.pass_count + t.fail_count + length tests)
        × (t.fail_count ≤ r.0.fail_count)
        × AreKept tested r.1
        × (r.0.fail_count ≡ t.fail_count → All (λ test. IsTested to_upper test r.1) tests)
  unfolding run_tests add_verdict
  run_tests_marks port i [] t tested w = (omega arith, omega arith, omega arith, λ k h. h, λ h. tt)
  run_tests_marks port i (test ∷ tests) t tested w =
      let turn : Verdict X × Tested × W =
        run_test http to_upper duration_text port i test tested w in
      let now = run_test_marks port i test tested w in
      let t' = add_verdict turn.0 t in
      let r = run_tests_marks port (i + 1) tests t' turn.1 turn.2 in
      let after = (run_tests http to_upper duration_text port (i + 1) tests t' turn.1 turn.2).1 in
      let one = add_verdict_counts turn.0 t in
      (
        omega (arith, r.0, one.0),
        omega (arith, r.1, one.1),
        omega (arith, r.2, one.2),
        λ k h. r.3 k (now.0 k h),
        λ h. (
          AreKept-IsTested to_upper test turn.1 after r.3
              (now.1 (one.3 (omega (arith, h, r.2, one.2)))),
          r.4 (omega (arith, h, r.2, one.2)),
        ),
      )

  -- batch_test_endpoints: there is an entry for each test, each is counted once, as passed or as
  -- failed, endpoints that were marked stay marked, and if no test failed, then every test was a map
  -- whose endpoint is now marked as tested.
  pub run_tests-IsTested :
      (port : Text) (tests : List (Option EndpointTest)) (tested : Tested) (w : W)
      → let start : BatchTally X = record { results = []; pass_count = 0; fail_count = 0 } in
        let r = run_tests http to_upper duration_text port 0 tests start tested w in
        (length r.0.results ≡ length tests)
        × (r.0.pass_count + r.0.fail_count ≡ length tests)
        × ((key : Text) → IsMarked key tested → IsMarked key r.1)
        × (r.0.fail_count ≡ 0 → All (λ test. IsTested to_upper test r.1) tests)
  run_tests-IsTested port tests tested w =
      let start : BatchTally X = record { results = []; pass_count = 0; fail_count = 0 } in
      let r = run_tests_marks port 0 tests start tested w in
      (omega (arith, r.0), omega (arith, r.1), r.3, r.4)
