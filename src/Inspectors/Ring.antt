-- ===== src/Inspectors/Ring.antt =====
-- The ring buffers of the inspectors: a slice that is cut to its last entries after each append.
use go_debug_agent.Prelude.{
  ℕ, ◌-◌, ◌≤◌, ◌≡◌, refl, sym, ap, ◌∙◌, List, [], ◌∷◌, ◌++◌, arith, ltb, length, drop,
  length-append, length-drop, drop-append_le, drop-drop, if◌then◌else◌, append_assoc, append-nil,
  Bool-cases, inl, inr,
}

module _ {A : Type 0} where
  -- if len(buf) > max { buf = buf[len(buf)-max:] }
  unfoldable pub keep_last : ℕ → List A → List A
  keep_last max buf = if ltb max (length buf) then drop (length buf - max) buf else buf

  -- buf = append(buf, entry), and the cut.
  unfoldable pub ring_push : ℕ → A → List A → List A
  ring_push max entry buf = keep_last max (buf ++ entry ∷ [])

  pub keep_last-drop : (max : ℕ) (l : List A) → keep_last max l ≡ drop (length l - max) l
  unfolding keep_last
  keep_last-drop max l = elim (Bool-cases (ltb max (length l))) [
    | inl e ↦ rw e refl
    | inr e ↦
        let zero_diff : 0 ≡ length l - max = ground (arith, e) in
        rw e (ap (λ n. drop n l) zero_diff)
  ]

  pub length-keep_last : (max : ℕ) (l : List A) → length (keep_last max l) ≤ max
  length-keep_last max l = rw (keep_last-drop max l) (omega (arith, length-drop (length l - max) l))

  keep_last-append :
      (max : ℕ) (xs ys : List A) → keep_last max (keep_last max xs ++ ys) ≡ keep_last max (xs ++ ys)
  keep_last-append max xs ys =
      let n = length xs - max in
      let joined : drop n xs ++ ys ≡ drop n (xs ++ ys) =
        sym (drop-append_le n xs ys (omega arith)) in
      ap (λ l. keep_last max (l ++ ys)) (keep_last-drop max xs)
      ∙ keep_last-drop max (drop n xs ++ ys)
      ∙ ap (λ l. drop (length (drop n xs ++ ys) - max) l) joined
      ∙ drop-drop (length (drop n xs ++ ys) - max) n (xs ++ ys)
      ∙ ap (λ k. drop k (xs ++ ys))
          (omega (arith, length-append (drop n xs) ys, length-append xs ys, length-drop n xs))
      ∙ sym (keep_last-drop max (xs ++ ys))

  -- A buffer that every entry is pushed to, in order.
  unfoldable pub ring_pushes : ℕ → List A → List A → List A
  ring_pushes max buf [] = buf
  ring_pushes max buf (entry ∷ entries) = ring_pushes max (ring_push max entry buf) entries

  ring_pushes_kept :
      (max : ℕ) (buf entries : List A)
      → ring_pushes max (keep_last max buf) entries ≡ keep_last max (buf ++ entries)
  unfolding ring_pushes ring_push
  ring_pushes_kept max buf [] = ap (keep_last max) (sym (append-nil buf))
  ring_pushes_kept max buf (entry ∷ entries) =
      ap (λ l. ring_pushes max l entries) (keep_last-append max buf (entry ∷ []))
      ∙ ring_pushes_kept max (buf ++ entry ∷ []) entries
      ∙ ap (keep_last max) (append_assoc buf (entry ∷ []) entries)

  keep_last-nil : (max : ℕ) → keep_last max [] ≡ []
  unfolding keep_last
  keep_last-nil max = elim (Bool-cases (ltb max 0)) [
    | inl e ↦ absurd (ground (arith, e))
    | inr e ↦ rw e refl
  ]

  -- An empty buffer holds, after pushes, the last of what was pushed.
  pub ring_pushes-drop :
      (max : ℕ) (entries : List A)
      → ring_pushes max [] entries ≡ drop (length entries - max) entries
  ring_pushes-drop max entries =
      ap (λ l. ring_pushes max l entries) (sym (keep_last-nil max))
      ∙ ring_pushes_kept max [] entries
      ∙ keep_last-drop max entries

  -- The entry that was pushed is the last.
  pub ring_push-snoc :
      (max : ℕ) (entry : A) (buf : List A)
      → 1 ≤ max
      → (front : List A) × (ring_push max entry buf ≡ front ++ entry ∷ [])
  unfolding ring_push
  ring_push-snoc max entry buf h =
      let k = length (buf ++ entry ∷ []) - max in
      (
        drop k buf,
        keep_last-drop max (buf ++ entry ∷ [])
            ∙ drop-append_le k buf (entry ∷ []) (omega (arith, length-append buf (entry ∷ []))),
      )
