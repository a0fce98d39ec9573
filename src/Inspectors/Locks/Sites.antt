-- ===== src/Inspectors/Locks/Sites.antt =====
-- inspector_locks.go: parseContentionSites, and parseBlockSites, whose text is the same. The lines are
-- those of strings.Split(raw, "\n").
use go_debug_agent.Prelude.{
  ℕ, zero, suc, ◌+◌, ◌≤◌, ◌<◌, ◌≡◌, refl, sym, ap, ◌∙◌, Bool, true, false, ◌||◌, List, [], ◌∷◌,
  ◌++◌, map, Option, none, some, if◌then◌else◌, length, take, is_empty, ltb, leb, min, arith,
  Bool-cases, inl, inr, append_assoc, length-append, length-take,
}
use go_debug_agent.Prelude.Text.{Text, ascii, has_prefix}
use go_debug_agent.Inspectors.Base.{count_if}
use go_debug_agent.Inspectors.Logs.Writer.{contains}

-- map[string]any with "raw" and, after the first line of a stack, "stack".
pub record Site : Type 0 where
  pub raw : Text
  pub stack : Option Text

-- What a turn of the loop does: return the sites, or go on with them and with the current site, nil
-- being `none`.
pub data SiteTurn : Type 0 where
  leave_loop : List Site → SiteTurn
  go_on : List Site → Option Site → SiteTurn

unfoldable pub is_header : Text → Bool
is_header line = has_prefix line (ascii "contention:")

unfoldable pub is_frame : Text → Bool
is_frame line = contains line (ascii ".go:") || contains line (ascii "(")

-- current["stack"].(string), or "".
unfoldable pub stack_text : Option Text → Text
stack_text none = []
stack_text (some s) = s

unfoldable pub add_frame : Text → Option Site → Option Site
add_frame line none = none
add_frame line (some site) =
    if is_frame line
    then some (record site { stack = some (stack_text site.stack ++ line ++ 10 ∷ []) })
    else some site

unfoldable pub new_site : Text → Option Site
new_site line = some (record { raw = line; stack = none })

-- A header line, which closes the current site.
unfoldable pub close_site : ℕ → Text → List Site → Option Site → SiteTurn
close_site top_n line sites none = go_on sites (new_site line)
close_site top_n line sites (some site) =
    if leb top_n (length (sites ++ site ∷ []))
    then leave_loop (sites ++ site ∷ [])
    else go_on (sites ++ site ∷ []) (new_site line)

-- A line whose spaces are cut off.
unfoldable pub turn : ℕ → Text → List Site → Option Site → SiteTurn
turn top_n line sites current =
    if is_empty line
    then go_on sites current
    else (if is_header line
        then close_site top_n line sites current
        else go_on sites (add_frame line current))

unfoldable pub optional : Option Site → List Site
optional none = []
optional (some site) = site ∷ []

-- The loop from the outcome of the turn before, and what follows it.
unfoldable pub site_loop : ℕ → List Text → SiteTurn → List Site
site_loop top_n lines (leave_loop sites) = sites
site_loop top_n [] (go_on sites current) =
    let all = sites ++ optional current in if ltb top_n (length all) then take top_n all else all
site_loop top_n (line ∷ lines) (go_on sites current) =
    site_loop top_n lines (turn top_n line sites current)

unfoldable pub parse_contention_sites : (Text → Text) → ℕ → List Text → List Site
parse_contention_sites trim_space top_n lines =
    site_loop top_n (map trim_space lines) (go_on [] none)

unfoldable pub parse_block_sites : (Text → Text) → ℕ → List Text → List Site
parse_block_sites trim_space top_n lines = site_loop top_n (map trim_space lines) (go_on [] none)

-- All sites of the trimmed lines, given the one that the lines before them left open.
unfoldable pub sites_of : List Text → Option Site → List Site
sites_of [] current = optional current
sites_of (line ∷ lines) current =
    if is_header line
    then optional current ++ sites_of lines (new_site line)
    else sites_of lines (if is_empty line then current else add_frame line current)

take_all : {A : Type 0} (n : ℕ) (xs : List A) → length xs ≤ n → take n xs ≡ xs
take_all zero [] h = refl
take_all zero (x ∷ xs) h = absurd (omega arith)
take_all (suc n) [] h = refl
take_all (suc n) (x ∷ xs) h = ap (λ l. x ∷ l) (take_all n xs (omega arith))

take_exact : {A : Type 0} (n : ℕ) (xs ys : List A) → length xs ≡ n → take n (xs ++ ys) ≡ xs
take_exact zero [] ys h = refl
take_exact zero (x ∷ xs) ys h = absurd (omega arith)
take_exact (suc n) [] ys h = absurd (omega arith)
take_exact (suc n) (x ∷ xs) ys h = ap (λ l. x ∷ l) (take_exact n xs ys (omega arith))

end_take :
    {A : Type 0} (n : ℕ) (xs : List A) → (if ltb n (length xs) then take n xs else xs) ≡ take n xs
end_take n xs = elim (Bool-cases (ltb n (length xs))) [
  | inl e ↦ rw e refl
  | inr e ↦ rw e (sym (take_all n xs (ground (arith, e))))
]

-- What the loop returns with fewer sites than it may return.
IsCut : ℕ → List Text → Type 0
IsCut n lines =
    (sites : List Site) (current : Option Site)
    → length sites < n
    → site_loop n lines (go_on sites current) ≡ take n (sites ++ sites_of lines current)

close_site-IsCut :
    (n : ℕ) (line : Text) (lines : List Text) (sites : List Site) (current : Option Site)
    → IsCut n lines
    → length sites < n
    → site_loop n lines (close_site n line sites current)
      ≡ take n (sites ++ (optional current ++ sites_of lines (new_site line)))
unfolding IsCut close_site optional site_loop
close_site-IsCut n line lines sites none cut h = cut sites (new_site line) h
close_site-IsCut n line lines sites (some site) cut h =
    let closed = sites ++ site ∷ [] in
    let rest = sites_of lines (new_site line) in
    let one : length closed ≡ length sites + 1 = length-append sites (site ∷ []) in
    let joined : take n (closed ++ rest) ≡ take n (sites ++ (site ∷ rest)) =
      ap (take n) (append_assoc sites (site ∷ []) rest) in
    elim (Bool-cases (leb n (length closed))) [
      | inl e ↦
          let full : length closed ≡ n = ground (arith, e, one, h) in
          rw e (sym (take_exact n closed rest full) ∙ joined)
      | inr e ↦ rw e (cut closed (new_site line) (ground (arith, e)) ∙ joined)
    ]

-- A conditional on both sides of an equation.
branch :
    {A B C : Type 0} (f : A → C) (g : B → C) (b : Bool) {x y : A} {p q : B}
    → f x ≡ g p
    → f y ≡ g q
    → f (if b then x else y) ≡ g (if b then p else q)
branch f g true e o = e
branch f g false e o = o

site_loop-IsCut : (n : ℕ) (lines : List Text) → IsCut n lines
unfolding IsCut site_loop sites_of turn is_header has_prefix
site_loop-IsCut n [] = λ sites current h. end_take n (sites ++ optional current)
site_loop-IsCut n ([] ∷ lines) = λ sites current h. site_loop-IsCut n lines sites current h
site_loop-IsCut n ((c ∷ cs) ∷ lines) = λ sites current h.
    branch (site_loop n lines) (λ l. take n (sites ++ l)) (is_header (c ∷ cs))
      (close_site-IsCut n (c ∷ cs) lines sites current (site_loop-IsCut n lines) h)
      (site_loop-IsCut n lines sites (add_frame (c ∷ cs) current) h)

length-add_frame :
    (line : Text) (current : Option Site)
    → length (optional (add_frame line current)) ≡ length (optional current)
unfolding add_frame optional
length-add_frame line none = refl
length-add_frame line (some site) = elim (Bool-cases (is_frame line)) [
  | inl e ↦ rw e refl
  | inr e ↦ rw e refl
]

length-sites_of :
    (lines : List Text) (current : Option Site)
    → length (sites_of lines current) ≡ length (optional current) + count_if is_header lines
unfolding sites_of count_if new_site optional
length-sites_of [] current = omega arith
length-sites_of (line ∷ lines) current = elim (Bool-cases (is_header line)) [
  | inl e ↦ rw e (
      omega (
        arith,
        length-append (optional current) (sites_of lines (new_site line)),
        length-sites_of lines (new_site line),
      ))
  | inr e ↦ rw e (elim (Bool-cases (is_empty line)) [
    | inl o ↦ rw o (omega (arith, length-sites_of lines current))
    | inr o ↦ rw o (
        omega
          (arith, length-sites_of lines (add_frame line current), length-add_frame line current))
  ])
]

-- If at least one site is asked for, parseContentionSites and parseBlockSites return the first of all
-- sites of the profile, as many as were asked for, or as there are lines that begin one where these
-- are fewer.
pub parse_contention_sites-take :
    (trim_space : Text → Text) (top_n : ℕ) (lines : List Text)
    → 1 ≤ top_n
    → let all = sites_of (map trim_space lines) none in
      let wanted = min top_n (count_if is_header (map trim_space lines)) in
      (parse_contention_sites trim_space top_n lines ≡ take top_n all)
      × (parse_block_sites trim_space top_n lines ≡ take top_n all)
      × (length (take top_n all) ≡ wanted)
unfolding parse_contention_sites parse_block_sites optional IsCut
parse_contention_sites-take trim_space top_n lines h =
    let trimmed = map trim_space lines in
    let same = site_loop-IsCut top_n trimmed [] none h in
    (
      same,
      same,
      omega (arith, length-take top_n (sites_of trimmed none), length-sites_of trimmed none),
    )
