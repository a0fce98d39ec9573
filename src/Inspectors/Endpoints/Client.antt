-- ===== src/Inspectors/Endpoints/Client.antt =====
-- inspector_endpoint_test_inspector.go: the tested endpoints and test_endpoint. The requests and the
-- client of net/http are parameters; a call of the client acts on a world and takes a time.
use go_debug_agent.Prelude.{
  ℕ, ◌/◌, Bool, true, List, [], ◌∷◌, ◌++◌, Option, none, some, if◌then◌else◌, length, is_empty,
  take, ltb,
}
use go_debug_agent.Prelude.Map
use go_debug_agent.Prelude.Map.{text_key}
use go_debug_agent.Prelude.Int.{ℤ}
use go_debug_agent.Prelude.Result.{Result, ok, err}
use go_debug_agent.Prelude.Text.{Text, ascii}
use go_debug_agent.Registry.Value.{Value, str, int}
use go_debug_agent.Inspectors.Base.{object, count_value}

-- What is read of a response whose body is read to its end, or to an error.
pub record Response : Type 0 where
  pub status_code : ℤ
  pub status : Text
  pub headers : List (Text × List Text)
  pub body : Text

-- http.NewRequest, the header of a request, and client.Do with a timeout of ten seconds.
pub record Http (R W : Type 0) : Type 0 where
  pub new_request : Text → Text → Option Text → Result Text R
  pub set_header : Text → Text → R → R
  pub get_header : Text → R → Text
  pub do_request : R → W → Result Text Response × ℕ × W

-- testedEndpoints
abbrev pub Tested : Type 0
Tested = List (Text × Bool)

-- "METHOD:path"
unfoldable pub endpoint_key : (Text → Text) → Text → Text → Text
endpoint_key to_upper method path = to_upper method ++ ascii ":" ++ path

unfoldable pub mark_endpoint_tested : (Text → Text) → Text → Text → Tested → Tested
mark_endpoint_tested to_upper method path tested =
    Map.insert (endpoint_key to_upper method path) true tested

-- The arguments of a test: strings are "" where they are missing, and the headers are those whose
-- values are strings.
pub record Arguments : Type 0 where
  pub method : Text
  pub path : Text
  pub headers : List (Text × Text)
  pub body : Text

unfoldable pub method_of : (Text → Text) → Arguments → Text
method_of to_upper args = to_upper (if is_empty args.method then ascii "GET" else args.method)

-- The environment's PORT is "" where it is missing.
unfoldable pub base_url : Text → Text
base_url port =
    if is_empty port then ascii "http://localhost:8080" else ascii "http://localhost:" ++ port

unfoldable pub body_reader : Arguments → Option Text
body_reader args = if is_empty args.body then none else some args.body

unfoldable pub shorten : ℕ → Text → Text → Text
shorten max suffix body = if ltb max (length body) then take max body ++ suffix else body

unfoldable pub join_values : List Text → Text
join_values [] = []
join_values (v ∷ []) = v
join_values (v ∷ w ∷ vs) = v ++ ascii ", " ++ join_values (w ∷ vs)

module _ {R W : Type 0} (http : Http R W) where
  unfoldable pub set_headers : List (Text × Text) → R → R
  set_headers [] req = req
  set_headers ((key, s) ∷ headers) req = set_headers headers (http.set_header key s req)

  unfoldable pub default_content_type : Option Text → R → R
  default_content_type none req = req
  default_content_type (some body) req =
      if is_empty (http.get_header (ascii "Content-Type") req)
      then http.set_header (ascii "Content-Type") (ascii "application/json") req
      else req

  -- The request with its headers.
  unfoldable pub build_request : Text → Text → Arguments → Result Text R
  build_request method url args = elim (http.new_request method url (body_reader args)) [
    | err e ↦ err e
    | ok req ↦ ok (default_content_type (body_reader args) (set_headers args.headers req))
  ]

module _ {X : Type 0} (duration_text : ℕ → Text) where
  unfoldable pub header_fields : List (Text × List Text) → List (Text × Value X)
  header_fields [] = []
  header_fields ((k, vs) ∷ headers) = (k, str (join_values vs)) ∷ header_fields headers

  unfoldable pub response_value : Text → Text → Text → Response → ℕ → Value X
  response_value method url path resp duration = object (
      (ascii "method", str method)
      ∷ (ascii "url", str url)
      ∷ (ascii "path", str path)
      ∷ (ascii "status", int resp.status_code)
      ∷ (ascii "status_text", str resp.status)
      ∷ (ascii "headers", object (header_fields resp.headers))
      ∷ (ascii "body", str (shorten 5000 (10 ∷ ascii "... (truncated, 5000 chars)") resp.body))
      ∷ (ascii "body_size", count_value (length resp.body))
      ∷ (ascii "duration", str (duration_text duration))
      ∷ (ascii "duration_ms", count_value (duration / 1000000))
      ∷ [])

module _ {R W X : Type 0} (http : Http R W) (to_upper : Text → Text)
    (duration_text : ℕ → Text) where
  unfoldable pub send_test :
      Text → Text → Arguments → R → Tested → W → Result Text (Value X) × Tested × W
  send_test method url args req tested w =
      let (answer, duration, w') = http.do_request req w in
      elim answer [
        | err e ↦ (
          ok (
              object (
                (ascii "error", str (ascii "Request failed"))
                ∷ (ascii "detail", str e)
                ∷ (ascii "method", str method)
                ∷ (ascii "url", str url)
                ∷ (ascii "duration", str (duration_text duration))
                ∷ [])),
          tested,
          w',
        )
        | ok resp ↦ (
          ok (response_value duration_text method url args.path resp duration),
          mark_endpoint_tested to_upper method args.path tested,
          w',
        )
      ]

  unfoldable pub test_endpoint : Text → Arguments → Tested → W → Result Text (Value X) × Tested × W
  test_endpoint port args tested w =
      if is_empty args.path
      then (err (ascii "path is required"), tested, w)
      else (let method = method_of to_upper args in
          let url = base_url port ++ args.path in
          elim (build_request http method url args) [
            | err e ↦ (
              ok (
                  object (
                    (ascii "error", str (ascii "Failed to create request"))
                    ∷ (ascii "detail", str e)
                    ∷ [])),
              tested,
              w,
            )
            | ok req ↦ send_test method url args req tested w
          ])
