-- ===== src/Inspectors/Endpoints/Batch.antt =====
-- inspector_endpoint_test_inspector.go: batch_test_endpoints.
use go_debug_agent.Prelude.{
  ℕ, ◌+◌, ◌/◌, Bool, true, false, List, [], ◌∷◌, ◌++◌, Option, none, some, if◌then◌else◌, length,
  is_empty,
}
use go_debug_agent.Prelude.Map.{text_key}
use go_debug_agent.Prelude.Int.{ℤ, int_eq, exceeds, decimal_int}
use go_debug_agent.Prelude.Result.{Result, ok, err}
use go_debug_agent.Prelude.Text.{Text, ascii}
use go_debug_agent.Registry.Value.{Value, str, int, bool}
use go_debug_agent.Inspectors.Base.{object, array, count_value}
use go_debug_agent.Inspectors.Endpoints.Client.{
  Response, Http, Tested, Arguments, mark_endpoint_tested, method_of, base_url, shorten,
  build_request,
}

-- A test: its arguments, and the status that it expects, int of a float64 where there is one.
pub record EndpointTest : Type 0 where
  pub args : Arguments
  pub expected_status : Option ℤ

-- The variables of the loop.
pub record BatchTally (X : Type 0) : Type 0 where
  pub results : List (Value X)
  pub pass_count : ℕ
  pub fail_count : ℕ

-- What a turn of the loop adds: an entry of the results, and whether it passed.
pub record Verdict (X : Type 0) : Type 0 where
  pub entry : Value X
  pub passed : Bool

unfoldable pub is_expected : Option ℤ → Response → Bool
is_expected none resp = true
is_expected (some status) resp = int_eq resp.status_code status

-- expectedStatus, which is 0 where there is none.
unfoldable pub expected_or_zero : Option ℤ → ℤ
expected_or_zero none = ℤ.pos 0
expected_or_zero (some status) = status

module _ {X : Type 0} where
  unfoldable pub refused : ℕ → Text → Verdict X
  refused i message = record {
    entry = object ((ascii "index", count_value i) ∷ (ascii "error", str message) ∷ []);
    passed = false;
  }

  unfoldable pub add_verdict : Verdict X → BatchTally X → BatchTally X
  add_verdict v t = record {
    results = t.results ++ v.entry ∷ [];
    pass_count = (if v.passed then t.pass_count + 1 else t.pass_count);
    fail_count = (if v.passed then t.fail_count else t.fail_count + 1);
  }

module _ {X : Type 0} (duration_text : ℕ → Text) where
  unfoldable pub expectation_fields : ℤ → Bool → Response → List (Text × Value X)
  expectation_fields expected passed resp =
      if exceeds expected 0
      then ((ascii "expected_status", int expected)
          ∷ (if passed
              then []
              else (
                ascii "error",
                str (
                    ascii "Expected status "
                    ++ decimal_int expected
                    ++ ascii ", got "
                    ++ decimal_int resp.status_code),
              )
                ∷ []))
      else []

  unfoldable pub checked_entry : ℕ → Text → EndpointTest → Response → ℕ → Verdict X
  checked_entry i method test resp duration =
      let passed = is_expected test.expected_status resp in
      record {
        entry = object (
            (ascii "index", count_value i)
            ∷ (ascii "method", str method)
            ∷ (ascii "path", str test.args.path)
            ∷ (ascii "status", int resp.status_code)
            ∷ (ascii "duration", str (duration_text duration))
            ∷ (ascii "duration_ms", count_value (duration / 1000000))
            ∷ (ascii "body", str (shorten 2000 (ascii "...") resp.body))
            ∷ (ascii "passed", bool passed)
            ∷ expectation_fields (expected_or_zero test.expected_status) passed resp);
        passed = passed;
      }

module _ {X : Type 0} (to_upper : Text → Text) (duration_text : ℕ → Text) where
  -- What follows from the answer of the client.
  unfoldable pub judge :
      ℕ → Text → EndpointTest → ℕ → Result Text Response → Tested → Verdict X × Tested
  judge i method test duration (err e) tested = (
    record {
      entry = object (
          (ascii "index", count_value i)
          ∷ (ascii "method", str method)
          ∷ (ascii "path", str test.args.path)
          ∷ (ascii "error", str (ascii "Request failed: " ++ e))
          ∷ (ascii "passed", bool false)
          ∷ (ascii "duration", str (duration_text duration))
          ∷ []);
      passed = false;
    },
    tested,
  )
  judge i method test duration (ok resp) tested = (
    checked_entry duration_text i method test resp duration,
    mark_endpoint_tested to_upper method test.args.path tested,
  )

module _ {R W X : Type 0} (http : Http R W) (to_upper : Text → Text)
    (duration_text : ℕ → Text) where
  unfoldable pub send_batch_test :
      ℕ → Text → EndpointTest → Result Text R → Tested → W → Verdict X × Tested × W
  send_batch_test i method test (err e) tested w = (
    record {
      entry = object (
          (ascii "index", count_value i)
          ∷ (ascii "path", str test.args.path)
          ∷ (ascii "error", str (ascii "Failed to create request: " ++ e))
          ∷ (ascii "passed", bool false)
          ∷ []);
      passed = false;
    },
    tested,
    w,
  )
  send_batch_test i method test (ok req) tested w =
      let (answer, duration, w') = http.do_request req w in
      let (verdict, tested') = judge to_upper duration_text i method test duration answer tested in
      (verdict, tested', w')

  -- A turn of the loop, where a test that is not a map is `none`.
  unfoldable pub run_test : Text → ℕ → Option EndpointTest → Tested → W → Verdict X × Tested × W
  run_test port i none tested w =
      (refused i (ascii "invalid test object (expected map)"), tested, w)
  run_test port i (some test) tested w =
      if is_empty test.args.path
      then (refused i (ascii "path is required"), tested, w)
      else (let method = method_of to_upper test.args in
          let built = build_request http method (base_url port ++ test.args.path) test.args in
          send_batch_test i method test built tested w)

  unfoldable pub run_tests :
      Text → ℕ → List (Option EndpointTest) → BatchTally X → Tested → W → BatchTally X × Tested × W
  run_tests port i [] t tested w = (t, tested, w)
  run_tests port i (test ∷ tests) t tested w =
      let (verdict, tested', w') = run_test port i test tested w in
      run_tests port (i + 1) tests (add_verdict verdict t) tested' w'

  unfoldable pub batch_test_endpoints :
      Text → List (Option EndpointTest) → Tested → W → Result Text (Value X) × Tested × W
  batch_test_endpoints port [] tested w =
      (err (ascii "tests array is required and must not be empty"), tested, w)
  batch_test_endpoints port (test ∷ tests) tested w =
      let start : BatchTally X = record { results = []; pass_count = 0; fail_count = 0 } in
      let (t, tested', w') = run_tests port 0 (test ∷ tests) start tested w in
      (
        ok (
            object (
              (ascii "total", count_value (length t.results))
              ∷ (ascii "passed", count_value t.pass_count)
              ∷ (ascii "failed", count_value t.fail_count)
              ∷ (ascii "results", array t.results)
              ∷ [])),
        tested',
        w',
      )
