-- ===== src/Inspectors/Requests/Order.antt =====
-- inspector_http.go: what get_slow_requests and get_request_stats make of the buffer.
use go_debug_agent.Prelude.{
  ℕ, zero, suc, ◌-◌, ◌*◌, ◌/◌, ◌≤◌, ◌<◌, ◌≡◌, ◌≢◌, refl, ◌↔◌, Bool, List, [], ◌∷◌, map, Option,
  none, some, arith, length, length-map, take, get_elem?, min,
}
use go_debug_agent.Registry.Value.{Value}
use go_debug_agent.Inspectors.Base.{Format, count_if, ◌>>=◌}
use go_debug_agent.Inspectors.Requests.Sorting.{
  sort_entries, sort_turns, swap_rest, IsSorted, sort_entries-IsSorted, largest_first,
  length-sort_entries,
}
use go_debug_agent.Inspectors.Requests.Buffer.{
  HttpRecord, is_slower, is_shorter, at_least, slow_requests, percentile, Latency, latency_of,
  sorted_durations, get_request_stats, value_at,
}

-- get_slow_requests shows the first 20 of a list that holds the requests of the threshold, each as
-- often as the buffer, and none after a faster one.
pub slow_requests-IsSorted :
    (threshold : Option ℕ) (buf : List HttpRecord)
    → (sorted : List HttpRecord) × (slow_requests threshold buf ≡ take 20 sorted)
      × IsSorted is_slower sorted
      × ((p : HttpRecord → Bool) → count_if p sorted ≡ count_if p (at_least threshold buf))
unfolding slow_requests
slow_requests-IsSorted threshold buf =
    let r =
      sort_entries-IsSorted is_slower (largest_first (λ x. x.duration_ms))
        (at_least threshold buf) in
    (sort_entries is_slower (at_least threshold buf), refl, r.0, r.1)

get_elem?-some :
    {A : Type 0} (l : List A) (i : ℕ) → i < length l → (x : A) × (get_elem? l i ≡ some x)
get_elem?-some [] i h = absurd (omega arith)
get_elem?-some (x ∷ l) zero h = (x, refl)
get_elem?-some (x ∷ l) (suc i) h = get_elem?-some l i (omega arith)

value_at-some : (l : List ℕ) (k : ℕ) → 1 ≤ k → 1 ≤ length l → (x : ℕ) × (value_at l k ≡ some x)
unfolding value_at
value_at-some l zero h one = absurd (omega arith)
value_at-some l (suc k) h one = get_elem?-some l (min k (length l - 1)) (omega arith)

latency_of-some : (l : List ℕ) → 2 ≤ length l → (v : Latency) × (latency_of l ≡ some v)
unfolding latency_of percentile
latency_of-some l two =
    let n = length l in
    let (a, ea) = get_elem?-some l 0 (omega arith) in
    let (b, eb) = value_at-some l (n * 50 / 100) (omega arith) (omega arith) in
    let (c, ec) = value_at-some l (n * 95 / 100) (omega arith) (omega arith) in
    let (d, ed) = value_at-some l (n * 99 / 100) (omega arith) (omega arith) in
    let (f, ef) = get_elem?-some l (n - 1) (omega arith) in
    (record { min_ms = a; p50 = b; p95 = c; p99 = d; max_ms = f }, rw (ea, eb, ec, ed, ef) refl)

two_durations :
    (r q : HttpRecord) (rs : List HttpRecord) → 2 ≤ length (sorted_durations (r ∷ q ∷ rs))
unfolding sorted_durations
two_durations r q rs = omega (
  arith,
  length-sort_entries is_shorter (map (λ x. x.duration_ms) (r ∷ q ∷ rs)),
  length-map (λ (x : HttpRecord). x.duration_ms) rs,
)

bind-some :
    {A B : Type 0} (o : Option A) (g : A → B) (a : A) → o ≡ some a → (o >>= λ x. some (g x)) ≢ none
bind-some none g a e h = cc
bind-some (some b) g a e h = cc

-- get_request_stats panics for a buffer of one request, and returns for every other.
pub get_request_stats-eq-none_iff :
    {X : Type 0} (fmt : Format) (float : ℕ → Value X) (buf : List HttpRecord)
    → (get_request_stats fmt float buf ≡ none) ↔ (length buf ≡ 1)
unfolding get_request_stats latency_of percentile value_at sorted_durations sort_entries sort_turns
    swap_rest
get_request_stats-eq-none_iff fmt float [] = (λ h. cc, λ h. absurd (omega arith))
get_request_stats-eq-none_iff fmt float (r ∷ []) = (λ h. refl, λ h. refl)
get_request_stats-eq-none_iff {X} fmt float (r ∷ q ∷ rs) =
    let (v, e) = latency_of-some (sorted_durations (r ∷ q ∷ rs)) (two_durations r q rs) in
    (
      λ h. absurd (bind-some (latency_of (sorted_durations (r ∷ q ∷ rs))) _ v e h),
      λ h. absurd (ground arith),
    )
