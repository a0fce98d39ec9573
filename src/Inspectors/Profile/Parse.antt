-- ===== src/Inspectors/Profile/Parse.antt =====
-- inspector_cpu_profile.go: parseCPUProfile, on what profile.ParseData returns, and get_top_functions.
-- The values of a CPU profile are natural numbers; sort.Slice is a parameter.
use go_debug_agent.Prelude.{
  ℕ, ◌+◌, ◌≤◌, ◌≡◌, ◌↔◌, refl, ap, Bool, true, ◌&&◌, List, [], ◌∷◌, map, Option, none, some,
  if◌then◌else◌, ◌==◌, arith, Bool-cases, inl, inr, All, subst,
}
use go_debug_agent.Prelude.Map
use go_debug_agent.Prelude.Map.{Key, lookup-insert}
use go_debug_agent.Prelude.Text.{Text, text_eq, text_eq_iff}

pub record FuncKey : Type 0 where
  pub name : Text
  pub file : Text
  pub line : ℕ

-- A line of a location: the name and the file of its function, where it has one, and its number.
pub record ProfileLine : Type 0 where
  pub function : Option (Text × Text)
  pub number : ℕ

pub record Sample : Type 0 where
  pub values : List ℕ
  pub locations : List (List ProfileLine)

pub record CpuFuncEntry : Type 0 where
  pub name : Text
  pub file : Text
  pub line : ℕ
  pub cumulative_ns : ℕ
  pub self_ns : ℕ
  pub count : ℕ

-- k == j
unfoldable pub func_key_eq : FuncKey → FuncKey → Bool
func_key_eq j k = text_eq j.name k.name && (text_eq j.file k.file && j.line == k.line)

-- k == j holds of one key.
func_key_eq_refl : (k : FuncKey) → func_key_eq k k ≡ true
unfolding func_key_eq
func_key_eq_refl k =
    ground (arith, (text_eq_iff k.name k.name).1 refl, (text_eq_iff k.file k.file).1 refl)

pub func_key_eq_iff : (j k : FuncKey) → (func_key_eq j k ≡ true) ↔ (j ≡ k)
unfolding func_key_eq
func_key_eq_iff j k = (
  λ h.
      let names : j.name ≡ k.name = (text_eq_iff j.name k.name).0 (ground (arith, h)) in
      let files : j.file ≡ k.file = (text_eq_iff j.file k.file).0 (ground (arith, h)) in
      let lines : j.line ≡ k.line = ground (arith, h) in
      λ i. record { name = names i; file = files i; line = lines i },
  λ e. subst (λ x. func_key_eq j x ≡ true) e (func_key_eq_refl j),
)

instance abbrev pub func_key : Key FuncKey
func_key = record { beq = func_key_eq; beq_iff = func_key_eq_iff }

-- A function without a file name has the file "".
unfoldable pub key_of : ProfileLine → FuncKey
key_of line = elim line.function [
  | none ↦ record { name = []; file = []; line = line.number }
  | some (name, file) ↦ record { name = name; file = file; line = line.number }
]

unfoldable pub sum : List ℕ → ℕ
sum [] = 0
sum (n ∷ ns) = n + sum ns

abbrev pub Sums : Type 0
Sums = List (FuncKey × ℕ)

-- m[k], which is 0 where it is missing, and m[k] += n.
unfoldable pub sum_at : FuncKey → Sums → ℕ
sum_at k m = Map.value_or_zero (λ n. n) (Map.lookup k m)

unfoldable pub add_at : FuncKey → ℕ → Sums → Sums
add_at k n m = Map.insert k (sum_at k m + n) m

-- The first line of the first location.
unfoldable pub first_line : List (List ProfileLine) → Option ProfileLine
first_line [] = none
first_line ([] ∷ locations) = none
first_line ((line ∷ lines) ∷ locations) = some line

unfoldable pub add_first : Option ProfileLine → ℕ → Sums → Sums
add_first none n m = m
add_first (some line) n m = add_at (key_of line) n m

unfoldable pub add_lines : List ProfileLine → ℕ → Sums → Sums
add_lines [] n m = m
add_lines (line ∷ lines) n m = add_lines lines n (add_at (key_of line) n m)

unfoldable pub add_locations : List (List ProfileLine) → ℕ → Sums → Sums
add_locations [] n m = m
add_locations (lines ∷ locations) n m = add_locations locations n (add_lines lines n m)

-- The maps of the loop.
pub record ProfileSums : Type 0 where
  pub cumulative : Sums
  pub self : Sums
  pub counts : Sums

unfoldable pub add_sample : Sample → ProfileSums → ProfileSums
add_sample s sums =
    let cum_value = sum s.values in
    record {
      cumulative = add_locations s.locations cum_value sums.cumulative;
      self = add_first (first_line s.locations) cum_value sums.self;
      counts = add_first (first_line s.locations) 1 sums.counts;
    }

unfoldable pub add_samples : List Sample → ProfileSums → ProfileSums
add_samples [] sums = sums
add_samples (s ∷ ss) sums = add_samples ss (add_sample s sums)

unfoldable pub func_entry : ProfileSums → FuncKey × ℕ → CpuFuncEntry
func_entry sums (k, n) = record {
  name = k.name;
  file = k.file;
  line = k.line;
  cumulative_ns = sum_at k sums.cumulative;
  self_ns = sum_at k sums.self;
  count = sum_at k sums.counts;
}

unfoldable pub profile_entries : List Sample → List CpuFuncEntry
profile_entries samples =
    let sums = add_samples samples (record { cumulative = []; self = []; counts = [] }) in
    map (func_entry sums) sums.cumulative

sum_at-add_at :
    (k j : FuncKey) (n : ℕ) (m : Sums)
    → sum_at k (add_at j n m) ≡ sum_at k m + (if func_key_eq j k then n else 0)
unfolding sum_at add_at Map.value_or_zero
sum_at-add_at k j n m =
    let found : sum_at k (add_at j n m)
        ≡ Map.value_or_zero (λ v. v)
            (if func_key_eq j k then some (sum_at j m + n) else Map.lookup k m) =
      ap (Map.value_or_zero (λ v. v)) (lookup-insert j k (sum_at j m + n) m) in
    elim (Bool-cases (func_key_eq j k)) [
      | inl e ↦
          let same : sum_at j m ≡ sum_at k m = ap (λ i. sum_at i m) ((func_key_eq_iff j k).0 e) in
          rw e (omega (arith, rw e at found, same))
      | inr e ↦ rw e (omega (arith, rw e at found))
    ]

sum_at-add_lines :
    (k : FuncKey) (lines : List ProfileLine) (n : ℕ) (m : Sums)
    → sum_at k m ≤ sum_at k (add_lines lines n m)
unfolding add_lines
sum_at-add_lines k [] n m = omega arith
sum_at-add_lines k (line ∷ lines) n m = omega (
  arith,
  sum_at-add_at k (key_of line) n m,
  sum_at-add_lines k lines n (add_at (key_of line) n m),
)

sum_at-add_locations :
    (k : FuncKey) (locations : List (List ProfileLine)) (n : ℕ) (m : Sums)
    → sum_at k m ≤ sum_at k (add_locations locations n m)
unfolding add_locations
sum_at-add_locations k [] n m = omega arith
sum_at-add_locations k (lines ∷ locations) n m =
    omega (
      arith,
      sum_at-add_lines k lines n m,
      sum_at-add_locations k locations n (add_lines lines n m),
    )

-- What is added to the self time is added to the cumulative time too.
add_first_le :
    (k : FuncKey) (locations : List (List ProfileLine)) (n : ℕ) (self cumulative : Sums)
    → sum_at k self ≤ sum_at k cumulative
    → sum_at k (add_first (first_line locations) n self)
      ≤ sum_at k (add_locations locations n cumulative)
unfolding first_line add_first add_locations add_lines
add_first_le k [] n self cumulative h = h
add_first_le k ([] ∷ locations) n self cumulative h =
    omega (arith, h, sum_at-add_locations k locations n cumulative)
add_first_le k ((line ∷ lines) ∷ locations) n self cumulative h =
    let j = key_of line in
    let first = add_at j n cumulative in
    omega (
      arith,
      h,
      sum_at-add_at k j n self,
      sum_at-add_at k j n cumulative,
      sum_at-add_lines k lines n first,
      sum_at-add_locations k locations n (add_lines lines n first),
    )

add_samples_le :
    (k : FuncKey) (samples : List Sample) (sums : ProfileSums)
    → sum_at k sums.self ≤ sum_at k sums.cumulative
    → sum_at k (add_samples samples sums).self ≤ sum_at k (add_samples samples sums).cumulative
unfolding add_samples add_sample
add_samples_le k [] sums h = h
add_samples_le k (s ∷ ss) sums h =
    add_samples_le k ss (add_sample s sums)
      (add_first_le k s.locations (sum s.values) sums.self sums.cumulative h)

All-map :
    {A B : Type 0} (P : B → Type 0) (f : A → B) (xs : List A)
    → ((x : A) → P (f x))
    → All P (map f xs)
All-map P f [] h = tt
All-map P f (x ∷ xs) h = (h x, All-map P f xs h)

-- parseCPUProfile: no entry has a self time above its cumulative time.
profile_entries_le :
    (samples : List Sample) → All (λ e. e.self_ns ≤ e.cumulative_ns) (profile_entries samples)
unfolding profile_entries func_entry
profile_entries_le samples =
    let start : ProfileSums = record { cumulative = []; self = []; counts = [] } in
    let sums = add_samples samples start in
    All-map _ (func_entry sums) sums.cumulative
      (λ e. add_samples_le e.0 samples start (omega arith))
