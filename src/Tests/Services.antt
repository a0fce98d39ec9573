-- ===== src/Tests/Services.antt =====
-- Runs of the service registry's tools.
use mathlib.Core.List.Permᴰ
use go_debug_agent.Prelude.{Bool, ◌≡◌, refl, List, [], ◌∷◌, length}
use go_debug_agent.Prelude.Map.{text_key}
use go_debug_agent.Prelude.Text.{Text, ascii, text_eq, has_prefix}
use go_debug_agent.Inspectors.Services.Categories.{
  categories, first_word, category_in, infer_inspector_name,
}
use go_debug_agent.Inspectors.Services.Groups.{group_tools_by_inspector, total_tools}
use go_debug_agent.Inspectors.Base.{count_if}
use go_debug_agent.Inspectors.Services.Totals.{sum_by, group_tools_by_inspector-inferred}

abbrev offered : List Text
offered = ascii "get_error_requests" ∷ ascii "get_error_stats" ∷ ascii "get_slow_requests" ∷ []

-- The tools of the error inspector.
abbrev of_error : Text → Text → Bool
of_error i name = text_eq i (ascii "error")

group_tools_by_inspector-inferred_example :
    let services = group_tools_by_inspector (λ xs. xs) (λ gs. gs) (λ ss. ss) offered in
    (sum_by (λ svc. count_if (of_error svc.name) svc.tools) services
      ≡ count_if (λ name. of_error (infer_inspector_name name) name) offered)
    × (total_tools services ≡ length offered)
group_tools_by_inspector-inferred_example =
    group_tools_by_inspector-inferred (λ xs. xs) (λ gs. gs) (λ ss. ss) (λ xs. Permᴰ.refl xs)
      (λ gs. Permᴰ.refl gs) (λ ss. Permᴰ.refl ss) of_error offered

-- Tools of the HTTP request inspector, the lock inspector and the connection pool inspector.
infer_inspector_name-requests : infer_inspector_name (ascii "get_error_requests") ≡ ascii "error"
unfolding infer_inspector_name category_in categories first_word has_prefix text_eq
infer_inspector_name-requests = refl

infer_inspector_name-holders : infer_inspector_name (ascii "get_mutex_holders") ≡ ascii "pprof"
unfolding infer_inspector_name category_in categories first_word has_prefix text_eq
infer_inspector_name-holders = refl

infer_inspector_name-leaks : infer_inspector_name (ascii "detect_pool_leaks") ≡ ascii "detect"
unfolding infer_inspector_name category_in categories first_word has_prefix text_eq
infer_inspector_name-leaks = refl

-- Names that a shorter prefix takes before the prefix of their own inspector.
infer_inspector_name-clients : infer_inspector_name (ascii "get_http_client") ≡ ascii "http"
unfolding infer_inspector_name category_in categories first_word has_prefix text_eq
infer_inspector_name-clients = refl

infer_inspector_name-contention : infer_inspector_name (ascii "get_mutex_cont") ≡ ascii "pprof"
unfolding infer_inspector_name category_in categories first_word has_prefix text_eq
infer_inspector_name-contention = refl
