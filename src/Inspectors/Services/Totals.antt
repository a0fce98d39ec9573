-- ===== src/Inspectors/Services/Totals.antt =====
-- inspector_registry.go: what get_registered_services reports, whatever the orders of the sorts and of
-- the range.
use mathlib.Core.List.{Permᴰ}
use go_debug_agent.Prelude.{
  ℕ, ◌+◌, ◌≡◌, refl, ap, sym, ◌∙◌, Bool, true, List, [], ◌∷◌, ◌++◌, map, Option, none, some, length,
  arith, if◌then◌else◌,
}
use go_debug_agent.Prelude.Map
use go_debug_agent.Prelude.Map.{text_key}
use go_debug_agent.Prelude.Text.{Text, text_eq_iff}
use go_debug_agent.Inspectors.Base.{count_if, count_if-append}
use go_debug_agent.Inspectors.Services.Categories.{infer_inspector_name}
use go_debug_agent.Inspectors.Services.Groups.{
  InspectorGroup, Groups, tools_of, add_tool, add_tools, group_of, group_tools_by_inspector,
  total_tools,
}

abbrev pub sum_by : {A : Type 0} → (A → ℕ) → List A → ℕ
sum_by f [] = 0
sum_by f (x ∷ xs) = f x + sum_by f xs

sum_by-Perm : {A : Type 0} (f : A → ℕ) {xs ys : List A} → Permᴰ xs ys → sum_by f xs ≡ sum_by f ys
sum_by-Perm f Permᴰ.nil = refl
sum_by-Perm f (Permᴰ.cons e p) = omega (arith, ap f e, sum_by-Perm f p)
sum_by-Perm f (Permᴰ.swap e d) = omega (arith, ap f e, ap f d)
sum_by-Perm f (Permᴰ.trans p q) = sum_by-Perm f p ∙ sum_by-Perm f q

count_if-sum_by :
    {A : Type 0} (p : A → Bool) (xs : List A)
    → count_if p xs ≡ sum_by (λ x. if p x then 1 else 0) xs
unfolding count_if
count_if-sum_by p [] = refl
count_if-sum_by p (x ∷ xs) = omega (arith, count_if-sum_by p xs)

-- How many tools that pass a test are reported under an inspector.
abbrev pub reported : (Text → Text → Bool) → InspectorGroup → ℕ
reported p svc = count_if (p svc.name) svc.tools

abbrev in_group : (Text → Text → Bool) → Text × List Text → ℕ
in_group p g = count_if (p g.0) g.1

-- The share of a key's entry.
abbrev share : (Text → Text → Bool) → Text → Option (List Text) → ℕ
share p i none = 0
share p i (some tools) = count_if (p i) tools

sum_by-insert :
    (p : Text → Text → Bool) (i : Text) (tools : List Text) (groups : Groups)
    → sum_by (in_group p) (Map.insert i tools groups) + share p i (Map.lookup i groups)
      ≡ sum_by (in_group p) groups + count_if (p i) tools
unfolding Map.insert Map.lookup
sum_by-insert p i tools [] = omega arith
sum_by-insert p i tools ((j, ts) ∷ groups) =
    ground (arith, text_eq_iff j i, sum_by-insert p i tools groups)

share-tools_of :
    (p : Text → Text → Bool) (i : Text) (found : Option (List Text))
    → share p i found ≡ count_if (p i) (tools_of found)
unfolding tools_of count_if
share-tools_of p i none = refl
share-tools_of p i (some tools) = refl

-- Whether a test passes a tool under the inspector of its name.
abbrev pub inferred : (Text → Text → Bool) → Text → Bool
inferred p name = p (infer_inspector_name name) name

sum_by-add_tool :
    (p : Text → Text → Bool) (name : Text) (groups : Groups)
    → sum_by (in_group p) (add_tool name groups)
      ≡ sum_by (in_group p) groups + (if inferred p name then 1 else 0)
unfolding add_tool count_if
sum_by-add_tool p name groups =
    let i = infer_inspector_name name in
    let found = Map.lookup i groups in
    omega (
      arith,
      sum_by-insert p i (tools_of found ++ name ∷ []) groups,
      share-tools_of p i found,
      count_if-append (p i) (tools_of found) (name ∷ []),
    )

sum_by-add_tools :
    (p : Text → Text → Bool) (names : List Text) (groups : Groups)
    → sum_by (in_group p) (add_tools names groups)
      ≡ sum_by (in_group p) groups + count_if (inferred p) names
unfolding add_tools count_if
sum_by-add_tools p [] groups = omega arith
sum_by-add_tools p (name ∷ names) groups =
    omega (arith, sum_by-add_tools p names (add_tool name groups), sum_by-add_tool p name groups)

sum_by-group_of :
    (p : Text → Text → Bool) (groups : Groups)
    → sum_by (reported p) (map group_of groups) ≡ sum_by (in_group p) groups
unfolding group_of
sum_by-group_of p [] = refl
sum_by-group_of p (g ∷ groups) = omega (arith, sum_by-group_of p groups)

length-count_if : {A : Type 0} (xs : List A) → length xs ≡ count_if (λ x. true) xs
unfolding count_if
length-count_if [] = refl
length-count_if (x ∷ xs) = omega (arith, length-count_if xs)

total_tools-sum_by :
    (svcs : List InspectorGroup) → total_tools svcs ≡ sum_by (reported (λ i name. true)) svcs
unfolding total_tools
total_tools-sum_by [] = refl
total_tools-sum_by (svc ∷ svcs) = omega (arith, total_tools-sum_by svcs, length-count_if svc.tools)

module _ (sort_strings : List Text → List Text) (range : Groups → Groups)
    (sort_groups : List InspectorGroup → List InspectorGroup)
    (hs : (xs : List Text) → Permᴰ (sort_strings xs) xs) (hr : (gs : Groups) → Permᴰ (range gs) gs)
    (hg : (ss : List InspectorGroup) → Permᴰ (sort_groups ss) ss) where
  counted :
      (p : Text → Text → Bool) (names : List Text)
      → sum_by (reported p) (group_tools_by_inspector sort_strings range sort_groups names)
        ≡ count_if (inferred p) names
  unfolding group_tools_by_inspector
  counted p names =
      let sorted = sort_strings names in
      let groups = add_tools sorted [] in
      sum_by-Perm (reported p) (hg (map group_of (range groups)))
      ∙ sum_by-group_of p (range groups)
      ∙ sum_by-Perm (in_group p) (hr groups)
      ∙ (let e : sum_by (in_group p) groups ≡ count_if (inferred p) sorted =
            omega (arith, sum_by-add_tools p sorted []) in
          e)
      ∙ count_if-sum_by (inferred p) sorted
      ∙ sum_by-Perm (λ name. if inferred p name then 1 else 0) (hs names)
      ∙ sym (count_if-sum_by (inferred p) names)

  -- Where the sorts and the range leave each entry as often as before: for every test of a tool and
  -- its inspector, the services report as many tools that pass it, each under the name of its service,
  -- as there are names that pass it under the inspector that inferInspectorName gives. So every tool
  -- is reported as often as it is named, under its inspector and under no other. The total is the
  -- number of names.
  pub group_tools_by_inspector-inferred :
      (p : Text → Text → Bool) (names : List Text)
      → let services = group_tools_by_inspector sort_strings range sort_groups names in
        (sum_by (λ svc. count_if (p svc.name) svc.tools) services
          ≡ count_if (λ name. p (infer_inspector_name name) name) names)
        × (total_tools services ≡ length names)
  group_tools_by_inspector-inferred p names = (
    counted p names,
    total_tools-sum_by (group_tools_by_inspector sort_strings range sort_groups names)
        ∙ counted (λ i name. true) names
        ∙ sym (length-count_if names),
  )
