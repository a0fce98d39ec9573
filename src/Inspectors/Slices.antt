-- ===== src/Inspectors/Slices.antt =====
-- sort.Slice, which the inspectors call with an order of their own: a parameter `sort` of the code
-- that uses it, which is documented to leave the entries, each as often as before, in order. What is
-- here holds of every such function, and of the first entries that a tool keeps after it.
use go_debug_agent.Prelude.{
  ℕ, zero, suc, ◌≡◌, Bool, true, false, List, [], ◌∷◌, All, length, take, drop, min, arith,
  take-append-drop, length-take, All-drop, refl, ap, sym, ◌∙◌, ◌++◌,
}
use go_debug_agent.Inspectors.Base.{count_if}
use go_debug_agent.Inspectors.Requests.Sorting.{IsSorted}

module _ {A : Type 0} (before : A → A → Bool) where
  -- What is documented of sort.Slice(xs, before).
  pub record IsSort (sort : List A → List A) : Type 0 where
    pub ordered : (xs : List A) → IsSorted before (sort xs)
    pub same_counts : (p : A → Bool) (xs : List A) → count_if p (sort xs) ≡ count_if p xs

  -- No entry of ys comes before one of xs.
  abbrev pub IsAhead : List A → List A → Type 0
  IsAhead xs ys = All (λ x. All (λ y. before y x ≡ false) ys) xs

  IsAhead-take-drop : (n : ℕ) (xs : List A) → IsSorted before xs → IsAhead (take n xs) (drop n xs)
  IsAhead-take-drop zero xs h = tt
  IsAhead-take-drop (suc n) [] h = tt
  IsAhead-take-drop (suc n) (x ∷ xs) h =
      (All-drop (λ y. before y x ≡ false) n xs h.0, IsAhead-take-drop n xs h.1)

all_entries : {A : Type 0} → A → Bool
all_entries x = true

length-count_if : {A : Type 0} (xs : List A) → count_if all_entries xs ≡ length xs
unfolding count_if all_entries
length-count_if [] = refl
length-count_if (x ∷ xs) = omega (arith, length-count_if xs)

module _ {A : Type 0} (before : A → A → Bool) (sort : List A → List A)
    (h : IsSort before sort) where
  pub length-sort : (xs : List A) → length (sort xs) ≡ length xs
  length-sort xs =
      sym (length-count_if (sort xs)) ∙ h.same_counts all_entries xs ∙ length-count_if xs

  -- The first n sorted entries: as many as there are up to n, with none of the others before them,
  -- and together with the others all entries.
  pub take-sort :
      (n : ℕ) (xs : List A)
      → let kept = take n (sort xs) in
        let others = drop n (sort xs) in
        (length kept ≡ min n (length xs))
        × IsAhead before kept others
        × ((p : A → Bool) → count_if p (kept ++ others) ≡ count_if p xs)
  take-sort n xs = (
    length-take n (sort xs) ∙ ap (min n) (length-sort xs),
    IsAhead-take-drop before n (sort xs) (h.ordered xs),
    λ p. ap (count_if p) (take-append-drop n (sort xs)) ∙ h.same_counts p xs,
  )
