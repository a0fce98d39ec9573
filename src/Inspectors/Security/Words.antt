-- ===== src/Inspectors/Security/Words.antt =====
-- inspector_security.go: toLower, toLowerSnake and containsAny.
use go_debug_agent.Prelude.{
  ℕ, zero, suc, ◌+◌, ◌-◌, ◌≤◌, ◌<◌, ◌≡◌, ◌↔◌, inl, inr, refl, sym, ap, ◌∙◌, Bool, true, false, ◌&&◌,
  ◌||◌, List, [], ◌∷◌, ◌++◌, if◌then◌else◌, length, take, drop, leb, ltb, arith, Bool-cases,
  take-append-drop, length-append, subst, some, get_elem?,
}
use go_debug_agent.Prelude.Text.{Text, text_eq, text_eq_iff}

-- A byte from 'A' to 'Z'.
unfoldable pub is_upper : ℕ → Bool
is_upper c = leb 65 c && leb c 90

unfoldable pub to_lower : Text → Text
to_lower [] = []
to_lower (c ∷ s) = (if is_upper c then c + 32 else c) ∷ to_lower s

-- The loop of toLowerSnake from position i on, where `first` says that i is 0.
unfoldable pub lower_snake_from : Bool → Text → Text
lower_snake_from first [] = []
lower_snake_from first (c ∷ s) =
    (if is_upper c then (if first then (c + 32) ∷ [] else 95 ∷ (c + 32) ∷ []) else c ∷ [])
    ++ lower_snake_from false s

unfoldable pub to_lower_snake : Text → Text
to_lower_snake s = lower_snake_from true s

-- s[i : i+len(sub)] == sub
unfoldable pub stands_at : Text → Text → ℕ → Bool
stands_at s sub i = text_eq (take (length sub) (drop i s)) sub

-- The inner loop of containsAny: n positions from i on.
unfoldable pub scan : Text → Text → ℕ → ℕ → Bool
scan s sub zero i = false
scan s sub (suc n) i = stands_at s sub i || scan s sub n (suc i)

unfoldable pub contains_any : Text → List Text → Bool
contains_any s [] = false
contains_any s (sub ∷ substrs) =
    let rest = contains_any s substrs in
    if leb (length sub) (length s) then scan s sub (length s - length sub + 1) 0 || rest else rest

-- The position of a window that is found.
Found : Text → Text → ℕ → ℕ → Type 0
Found s sub i n = (k : ℕ) × (i ≤ k) × (k < i + n) × (stands_at s sub k ≡ true)

scan-Found : (s sub : Text) (n i : ℕ) → scan s sub n i ≡ true → Found s sub i n
unfolding scan Found
scan-Found s sub zero i h = absurd (ground (arith, h))
scan-Found s sub (suc n) i h = elim (Bool-cases (stands_at s sub i)) [
  | inl e ↦ (i, omega arith, omega arith, e)
  | inr e ↦
      let later = scan-Found s sub n (suc i) (rw e at h) in
      (later.0, omega (arith, later.1), omega (arith, later.2), later.3)
]

past :
    (s sub : Text) (i k : ℕ)
    → i ≤ k
    → stands_at s sub k ≡ true
    → stands_at s sub i ≡ false
    → suc i ≤ k
past s sub i k h e not_here = elim (Bool-cases (ltb i k)) [
  | inl l ↦ ground (arith, l)
  | inr l ↦
      let same : k ≡ i = ground (arith, l) in
      let here : stands_at s sub i ≡ true = subst (λ j. stands_at s sub j ≡ true) same e in
      absurd (ground (arith, here, not_here))
]

scan_finds :
    (s sub : Text) (n i k : ℕ)
    → i ≤ k
    → k < i + n
    → stands_at s sub k ≡ true
    → scan s sub n i ≡ true
unfolding scan
scan_finds s sub zero i k h1 h2 e = absurd (omega arith)
scan_finds s sub (suc n) i k h1 h2 e = elim (Bool-cases (stands_at s sub i)) [
  | inl here ↦ rw here refl
  | inr not_here ↦
      rw not_here (scan_finds s sub n (suc i) k (past s sub i k h1 e not_here) (omega arith) e)
]

-- One text stands in another.
abbrev pub Occurs : Text → Text → Type 0
Occurs sub s = (front : Text) × (back : Text) × (s ≡ front ++ (sub ++ back))

stands_at-Occurs : (s sub : Text) (k : ℕ) → stands_at s sub k ≡ true → Occurs sub s
unfolding stands_at
stands_at-Occurs s sub k h =
    let window : take (length sub) (drop k s) ≡ sub = (text_eq_iff _ _).0 h in
    (
      take k s,
      drop (length sub) (drop k s),
      sym (take-append-drop k s)
          ∙ ap (λ t. take k s ++ t) (sym (take-append-drop (length sub) (drop k s)))
          ∙ ap (λ t. take k s ++ (t ++ drop (length sub) (drop k s))) window,
    )

pub drop-front : (front s : Text) → drop (length front) (front ++ s) ≡ s
drop-front [] s = refl
drop-front (c ∷ front) s = drop-front front s

take-front : (front s : Text) → take (length front) (front ++ s) ≡ front
take-front [] s = refl
take-front (c ∷ front) s = ap (λ t. c ∷ t) (take-front front s)

occurs-stands_at :
    (front sub back : Text) → stands_at (front ++ (sub ++ back)) sub (length front) ≡ true
unfolding stands_at
occurs-stands_at front sub back =
    (text_eq_iff _ _).1
      (ap (take (length sub)) (drop-front front (sub ++ back)) ∙ take-front sub back)

-- The test of one word in containsAny.
holds_word : Text → Text → Bool
holds_word s sub =
    if leb (length sub) (length s) then scan s sub (length s - length sub + 1) 0 else false

holds_word_iff : (s sub : Text) → (holds_word s sub ≡ true) ↔ Occurs sub s
unfolding holds_word Found
holds_word_iff s sub = (
  λ h. elim (Bool-cases (leb (length sub) (length s))) [
    | inl e ↦
        let found = scan-Found s sub (length s - length sub + 1) 0 (rw e at h) in
        stands_at-Occurs s sub found.0 found.3
    | inr e ↦ absurd (ground (arith, rw e at h))
  ],
  λ o.
      let (front, back, e) = o in
      let lengths : length s ≡ length front + (length sub + length back) =
        ap length e
        ∙ length-append front (sub ++ back)
        ∙ ap (λ n. length front + n) (length-append sub back) in
      let short : leb (length sub) (length s) ≡ true = ground (arith, lengths) in
      let here : stands_at s sub (length front) ≡ true =
        subst (λ t. stands_at t sub (length front) ≡ true) (sym e)
          (occurs-stands_at front sub back) in
      rw short (
        scan_finds s sub (length s - length sub + 1) 0 (length front) (omega arith)
          (omega (arith, lengths)) here),
)

contains_any-suc :
    (s sub : Text) (substrs : List Text)
    → contains_any s (sub ∷ substrs) ≡ (holds_word s sub || contains_any s substrs)
unfolding contains_any holds_word
contains_any-suc s sub substrs = elim (Bool-cases (leb (length sub) (length s))) [
  | inl e ↦ rw e refl
  | inr e ↦ rw e refl
]

-- A word of the list that occurs is found, given that it is found among the later ones.
word_at :
    (s sub : Text) (substrs : List Text) (i : ℕ) (word : Text)
    → get_elem? (sub ∷ substrs) i ≡ some word
    → Occurs word s
    → ((j : ℕ) (w : Text)
        → get_elem? substrs j ≡ some w
        → Occurs w s
        → contains_any s substrs ≡ true)
    → (holds_word s sub || contains_any s substrs) ≡ true
word_at s sub substrs zero word e oc later =
    let same : word ≡ sub = cc in
    rw ((holds_word_iff s sub).1 (subst (λ w. Occurs w s) same oc)) refl
word_at s sub substrs (suc i) word e oc later = elim (Bool-cases (holds_word s sub)) [
  | inl h ↦ rw h refl
  | inr h ↦ rw h (later i word e oc)
]

-- containsAny says true exactly if one of the words stands in the text, at any position.
pub contains_any_iff :
    (s : Text) (substrs : List Text)
    → (contains_any s substrs ≡ true)
      ↔ ((i : ℕ) × (sub : Text) × (get_elem? substrs i ≡ some sub) × Occurs sub s)
unfolding contains_any
contains_any_iff s [] = (λ h. absurd (ground (arith, h)), λ o. absurd (ground (arith, o.2)))
contains_any_iff s (sub ∷ substrs) = (
  λ h. elim (Bool-cases (holds_word s sub)) [
    | inl e ↦ (0, sub, refl, (holds_word_iff s sub).0 e)
    | inr e ↦
        let later : contains_any s substrs ≡ true =
          rw e at (sym (contains_any-suc s sub substrs) ∙ h) in
        let o = (contains_any_iff s substrs).0 later in (suc o.0, o.1, o.2, o.3)
  ],
  λ o.
      contains_any-suc s sub substrs
      ∙ word_at s sub substrs o.0 o.1 o.2 o.3
          (λ i w e oc. (contains_any_iff s substrs).1 (i, w, e, oc)),
)
