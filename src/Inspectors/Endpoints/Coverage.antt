-- ===== src/Inspectors/Endpoints/Coverage.antt =====
-- inspector_endpoint_test_inspector.go: getTestedEndpoints and get_endpoint_coverage. sort.Strings is
-- a parameter, and the routes of the registered engines are what their readers return, with `none`
-- for an error.
use go_debug_agent.Prelude.{
  ◌≡◌, refl, sym, ap, ◌∙◌, Bool, true, false, ◌||◌, not, List, [], ◌∷◌, ◌++◌, map, Option, none,
  some, if◌then◌else◌, length, is_empty, arith, Bool-cases, inl, inr, ltb, select, select-keep,
  select-skip, append-nil, append_assoc,
}
use go_debug_agent.Prelude.Map
use go_debug_agent.Prelude.Map.{text_key, lookup-insert}
use go_debug_agent.Prelude.Text.{Text, ascii, text_eq}
use go_debug_agent.Registry.Value.{Value, str}
use go_debug_agent.Inspectors.Base.{Format, object, array, count_value, count_if}
use go_debug_agent.Inspectors.Endpoints.Client.{Tested}

unfoldable pub get_tested_endpoints : (List Text → List Text) → Tested → List Text
get_tested_endpoints sort_strings tested = sort_strings (map (λ e. e.0) tested)

-- The loop over the routes of an engine: methods and paths, "" where they are missing.
unfoldable pub route_keys : (Text → Text) → List (Text × Text) → List Text
route_keys to_upper [] = []
route_keys to_upper ((method, path) ∷ routes) =
    let rest = route_keys to_upper routes in
    if is_empty method || is_empty path then rest else (to_upper method ++ ascii ":" ++ path) ∷ rest

-- The routes of all engines, which are those of Gin and of Echo: the code reads no route of Chi.
unfoldable pub all_routes : (Text → Text) → List (Option (List (Text × Text))) → List Text
all_routes to_upper [] = []
all_routes to_upper (none ∷ engines) = all_routes to_upper engines
all_routes to_upper (some routes ∷ engines) =
    route_keys to_upper routes ++ all_routes to_upper engines

unfoldable pub tested_set : List Text → Tested → Tested
tested_set [] set = set
tested_set (t ∷ ts) set = tested_set ts (Map.insert t true set)

-- testedSet[route]
unfoldable pub or_false : Option Bool → Bool
or_false none = false
or_false (some b) = b

-- covered and uncovered.
unfoldable pub cover : Tested → List Text → List Text × List Text → List Text × List Text
cover set [] lists = lists
cover set (route ∷ routes) lists = cover set routes (
    if or_false (Map.lookup route set)
    then (lists.0 ++ route ∷ [], lists.1)
    else (lists.0, lists.1 ++ route ∷ []))

-- The two lists that get_endpoint_coverage reports, and its value.
unfoldable pub coverage : List Text → List Text → List Text × List Text
coverage tested routes = cover (tested_set tested []) routes ([], [])

module _ {X : Type 0} (format : Format) (sort_strings : List Text → List Text) where
  unfoldable pub get_endpoint_coverage :
      (Text → Text) → List (Option (List (Text × Text))) → Tested → Value X
  get_endpoint_coverage to_upper engines tested =
      let keys = get_tested_endpoints sort_strings tested in
      let routes = sort_strings (all_routes to_upper engines) in
      let (covered, uncovered) = coverage keys routes in
      object (
        (ascii "total_routes", count_value (length routes))
        ∷ (ascii "total_tested", count_value (length keys))
        ∷ (ascii "covered_count", count_value (length covered))
        ∷ (ascii "uncovered_count", count_value (length uncovered))
        ∷ (
          ascii "coverage_percent",
          str (
              if ltb 0 (length routes)
              then format.percent (length covered) (length routes)
              else ascii "0.0%"),
        )
        ∷ (ascii "covered", array (map str covered))
        ∷ (ascii "uncovered", array (map str uncovered))
        ∷ (ascii "all_tested", array (map str keys))
        ∷ [])

-- A route is among some keys.
unfoldable pub is_among : Text → List Text → Bool
is_among route [] = false
is_among route (key ∷ keys) = text_eq key route || is_among route keys

is_among-count_if :
    (route : Text) (keys : List Text)
    → is_among route keys ≡ ltb 0 (count_if (λ key. text_eq key route) keys)
unfolding is_among count_if
is_among-count_if route [] = refl
is_among-count_if route (key ∷ keys) = ground (arith, is_among-count_if route keys)

inserted_or :
    (here later : Bool) (held : Option Bool)
    → (later || or_false (if here then some true else held)) ≡ ((here || later) || or_false held)
unfolding or_false
inserted_or true true held = refl
inserted_or true false held = refl
inserted_or false true held = refl
inserted_or false false held = refl

lookup-tested_set :
    (route : Text) (keys : List Text) (set : Tested)
    → or_false (Map.lookup route (tested_set keys set))
      ≡ (is_among route keys || or_false (Map.lookup route set))
unfolding tested_set is_among
lookup-tested_set route [] set = refl
lookup-tested_set route (key ∷ keys) set =
    lookup-tested_set route keys (Map.insert key true set)
    ∙ ap (λ o. is_among route keys || or_false o) (lookup-insert key route true set)
    ∙ inserted_or (text_eq key route) (is_among route keys) (Map.lookup route set)

or_false_right : (b : Bool) → (b || false) ≡ b
or_false_right true = refl
or_false_right false = refl

-- What the loop adds: the routes that are in the set, and those that are not.
cover-select :
    (set : Tested) (routes : List Text) (lists : List Text × List Text)
    → cover set routes lists ≡ (
      lists.0 ++ select (λ r. or_false (Map.lookup r set)) routes,
      lists.1 ++ select (λ r. not (or_false (Map.lookup r set))) routes,
    )
unfolding cover
cover-select set [] (c, u) =
    ap (λ l. (l, u)) (sym (append-nil c)) ∙ ap (λ l. (c ++ [], l)) (sym (append-nil u))
cover-select set (route ∷ routes) (c, u) =
    let p : Text → Bool = λ r. or_false (Map.lookup r set) in
    let q : Text → Bool = λ r. not (or_false (Map.lookup r set)) in
    let chosen = select p routes in
    let others = select q routes in
    elim (Bool-cases (or_false (Map.lookup route set))) [
      | inl e ↦
          ap (λ b. cover set routes (if b then (c ++ route ∷ [], u) else (c, u ++ route ∷ []))) e
          ∙ cover-select set routes (c ++ route ∷ [], u)
          ∙ ap (λ l. (l, u ++ others)) (append_assoc c (route ∷ []) chosen)
          ∙ ap (λ l. (c ++ l, u ++ others)) (sym (select-keep p route routes e))
          ∙ ap (λ l. (c ++ select p (route ∷ routes), u ++ l))
              (sym (select-skip q route routes (ap not e)))
      | inr e ↦
          ap (λ b. cover set routes (if b then (c ++ route ∷ [], u) else (c, u ++ route ∷ []))) e
          ∙ cover-select set routes (c, u ++ route ∷ [])
          ∙ ap (λ l. (c ++ chosen, l)) (append_assoc u (route ∷ []) others)
          ∙ ap (λ l. (c ++ l, u ++ (route ∷ others))) (sym (select-skip p route routes e))
          ∙ ap (λ l. (c ++ select p (route ∷ routes), u ++ l))
              (sym (select-keep q route routes (ap not e)))
    ]

select-cong :
    (p q : Text → Bool) (routes : List Text)
    → ((r : Text) → p r ≡ q r)
    → select p routes ≡ select q routes
select-cong p q [] h = refl
select-cong p q (route ∷ routes) h = elim (Bool-cases (q route)) [
  | inl e ↦
      select-keep p route routes (h route ∙ e)
      ∙ ap (λ l. route ∷ l) (select-cong p q routes h)
      ∙ sym (select-keep q route routes e)
  | inr e ↦
      select-skip p route routes (h route ∙ e)
      ∙ select-cong p q routes h
      ∙ sym (select-skip q route routes e)
]

-- get_endpoint_coverage: if sort.Strings keeps each text as often as it was, then the covered routes
-- are those of the collected routes that are marked as tested, the uncovered ones are the other
-- collected ones, and both stand in the order of the routes.
pub coverage-get_tested_endpoints :
    (sort_strings : List Text → List Text) (tested : Tested) (routes : List Text)
    → ((p : Text → Bool) (xs : List Text) → count_if p (sort_strings xs) ≡ count_if p xs)
    → let marked : Text → Bool = λ r. is_among r (map (λ e. e.0) tested) in
      coverage (get_tested_endpoints sort_strings tested) routes
      ≡ (select marked routes, select (λ r. not (marked r)) routes)
unfolding coverage get_tested_endpoints or_false Map.lookup
coverage-get_tested_endpoints sort_strings tested routes h =
    let keys = sort_strings (map (λ e. e.0) tested) in
    let in_set : (r : Text)
        → or_false (Map.lookup r (tested_set keys [])) ≡ is_among r (map (λ e. e.0) tested) =
      λ r.
        lookup-tested_set r keys []
        ∙ or_false_right (is_among r keys)
        ∙ is_among-count_if r keys
        ∙ ap (ltb 0) (h (λ key. text_eq key r) (map (λ e. e.0) tested))
        ∙ sym (is_among-count_if r (map (λ e. e.0) tested)) in
    cover-select (tested_set keys []) routes ([], [])
    ∙ ap (λ l. (l, select (λ r. not (or_false (Map.lookup r (tested_set keys [])))) routes))
        (select-cong _ _ routes in_set)
    ∙ ap (λ l. (select (λ r. is_among r (map (λ e. e.0) tested)) routes, l))
        (select-cong _ _ routes (λ r. ap not (in_set r)))
