-- ===== src/Inspectors/Requests/Sorting.antt =====
-- inspector_http.go: the two nested loops that sort a slice in place, where `before y x` says that
-- the later entry y is to change places with the entry x at hand.
use go_debug_agent.Prelude.{
  ℕ, zero, suc, ◌≡◌, Bool, true, false, List, [], ◌∷◌, if◌then◌else◌, arith, All, Bool-cases, inl,
  inr, refl, ap, ◌∙◌, length, ◌≤◌, ltb,
}
use go_debug_agent.Inspectors.Base.{count_if}

module _ {A : Type 0} (before : A → A → Bool) where
  -- The inner loop, from the entry after position i: what stands at i after it, and what follows.
  unfoldable pub swap_rest : A → List A → A × List A
  swap_rest x [] = (x, [])
  swap_rest x (y ∷ ys) =
      let swap = before y x in
      let rest = swap_rest (if swap then y else x) ys in (rest.0, (if swap then x else y) ∷ rest.1)

  -- The outer loop, on the entries from position i on: as many turns as there are entries.
  unfoldable pub sort_turns : ℕ → List A → List A
  sort_turns zero xs = xs
  sort_turns (suc n) [] = []
  sort_turns (suc n) (x ∷ xs) = let placed = swap_rest x xs in placed.0 ∷ sort_turns n placed.1

  unfoldable pub sort_entries : List A → List A
  sort_entries xs = sort_turns (length xs) xs

  -- No entry is to come before an earlier one.
  abbrev pub IsSorted : List A → Type 0
  IsSorted [] = Unit
  IsSorted (x ∷ xs) = All (λ y. before y x ≡ false) xs × IsSorted xs

  -- The order is strict, and so is its complement.
  pub record IsStrict : Type 0 where
    irreflexive : (x : A) → before x x ≡ false
    asymmetric : (x y : A) → before x y ≡ true → before y x ≡ false
    negative : (x y z : A) → before x y ≡ false → before y z ≡ false → before x z ≡ false

  length-swap_rest : (x : A) (ys : List A) → length (swap_rest x ys).1 ≡ length ys
  unfolding swap_rest
  length-swap_rest x [] = refl
  length-swap_rest x (y ∷ ys) = ap suc (length-swap_rest (if before y x then y else x) ys)

  count_if-swap_rest :
      (p : A → Bool) (x : A) (ys : List A)
      → let r = swap_rest x ys in count_if p (r.0 ∷ r.1) ≡ count_if p (x ∷ ys)
  unfolding swap_rest count_if
  count_if-swap_rest p x [] = refl
  count_if-swap_rest p x (y ∷ ys) = elim (Bool-cases (before y x)) [
    | inl e ↦ rw e (omega (arith, count_if-swap_rest p y ys))
    | inr e ↦ rw e (omega (arith, count_if-swap_rest p x ys))
  ]

  All-swap_rest {κ} :
      (P : A → Type κ) (x : A) (ys : List A)
      → P x
      → All P ys
      → P (swap_rest x ys).0 × All P (swap_rest x ys).1
  unfolding swap_rest
  All-swap_rest P x [] h hs = (h, hs)
  All-swap_rest P x (y ∷ ys) h hs = elim (Bool-cases (before y x)) [
    | inl e ↦ let r = All-swap_rest P y ys hs.0 hs.1 in rw e (r.0, (h, r.1))
    | inr e ↦ let r = All-swap_rest P x ys h hs.1 in rw e (r.0, (hs.0, r.1))
  ]

  count_if-sort_turns :
      (p : A → Bool) (n : ℕ) (xs : List A) → count_if p (sort_turns n xs) ≡ count_if p xs
  unfolding sort_turns count_if
  count_if-sort_turns p zero xs = refl
  count_if-sort_turns p (suc n) [] = refl
  count_if-sort_turns p (suc n) (x ∷ xs) =
      omega (arith, count_if-sort_turns p n (swap_rest x xs).1, count_if-swap_rest p x xs)

  All-sort_turns {κ} : (P : A → Type κ) (n : ℕ) (xs : List A) → All P xs → All P (sort_turns n xs)
  unfolding sort_turns
  All-sort_turns P zero xs h = h
  All-sort_turns P (suc n) [] h = h
  All-sort_turns P (suc n) (x ∷ xs) h =
      let r = All-swap_rest P x xs h.0 h.1 in (r.0, All-sort_turns P n _ r.1)

  length-sort_turns : (n : ℕ) (xs : List A) → length (sort_turns n xs) ≡ length xs
  unfolding sort_turns
  length-sort_turns zero xs = refl
  length-sort_turns (suc n) [] = refl
  length-sort_turns (suc n) (x ∷ xs) =
      ap suc (length-sort_turns n (swap_rest x xs).1 ∙ length-swap_rest x xs)

  pub length-sort_entries : (xs : List A) → length (sort_entries xs) ≡ length xs
  unfolding sort_entries
  length-sort_entries xs = length-sort_turns (length xs) xs

  module _ (strict : IsStrict) where
    -- What comes after the one that stands first after the exchange comes after both.
    exchanged :
        (x y m : A)
        → before (if before y x then y else x) m ≡ false
        → (before x m ≡ false) × (before (if before y x then x else y) m ≡ false)
    exchanged x y m h = elim (Bool-cases (before y x)) [
      | inl e ↦
          let after = strict.negative x y m (strict.asymmetric y x e) (rw e at h) in
          (after, rw e after)
      | inr e ↦ (rw e at h, rw e (strict.negative y x m e (rw e at h)))
    ]

    -- The entry that is placed is before none of the others.
    swap_rest_first :
        (x : A) (ys : List A)
        → let r = swap_rest x ys in (before x r.0 ≡ false) × All (λ y. before y r.0 ≡ false) r.1
    unfolding swap_rest
    swap_rest_first x [] = (strict.irreflexive x, tt)
    swap_rest_first x (y ∷ ys) =
        let r = swap_rest_first (if before y x then y else x) ys in
        let both = exchanged x y _ r.0 in (both.0, (both.1, r.1))

    sort_turns-IsSorted : (n : ℕ) (xs : List A) → length xs ≤ n → IsSorted (sort_turns n xs)
    unfolding sort_turns
    sort_turns-IsSorted zero [] h = tt
    sort_turns-IsSorted zero (x ∷ xs) h = absurd (omega arith)
    sort_turns-IsSorted (suc n) [] h = tt
    sort_turns-IsSorted (suc n) (x ∷ xs) h = (
      All-sort_turns _ n _ (swap_rest_first x xs).1,
      sort_turns-IsSorted n (swap_rest x xs).1 (omega (arith, length-swap_rest x xs)),
    )

    -- Under a strict order the loops leave the entries they were given, each as often as before, and
    -- sorted.
    pub sort_entries-IsSorted :
        (xs : List A)
        → IsSorted (sort_entries xs)
          × ((p : A → Bool) → count_if p (sort_entries xs) ≡ count_if p xs)
    unfolding sort_entries
    sort_entries-IsSorted xs = (
      sort_turns-IsSorted (length xs) xs (omega arith),
      λ p. count_if-sort_turns p (length xs) xs,
    )

-- The order of a measure, from the largest on or from the smallest on.
pub largest_first : {A : Type 0} (f : A → ℕ) → IsStrict (λ (y x : A). ltb (f x) (f y))
largest_first f = record {
  irreflexive = λ x. ground arith;
  asymmetric = λ x y h. ground arith;
  negative = λ x y z h k. ground arith;
}

pub smallest_first : {A : Type 0} (f : A → ℕ) → IsStrict (λ (y x : A). ltb (f y) (f x))
smallest_first f = record {
  irreflexive = λ x. ground arith;
  asymmetric = λ x y h. ground arith;
  negative = λ x y z h k. ground arith;
}
