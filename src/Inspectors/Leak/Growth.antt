-- ===== src/Inspectors/Leak/Growth.antt =====
-- inspector_leak.go: what the flag `monotonic` of a leak candidate says of its type.
use go_debug_agent.Prelude.{
  ℕ, ◌+◌, ◌≤◌, ◌<◌, ◌≡◌, refl, sym, ◌∙◌, ap, Bool, true, false, List, [], ◌∷◌, Option, none, some,
  if◌then◌else◌, ltb, arith, Bool-cases, inl, inr, ◌⊎◌,
}
use go_debug_agent.Prelude.Text.{Text}
use go_debug_agent.Inspectors.Leak.Snapshots.{HeapSnapshot}
use go_debug_agent.Inspectors.Leak.Candidates.{
  Track, no_track, track_turn, track, bytes_of, Candidate, grown, report_growth, candidate_of,
}

-- Whether a value rises or falls to the next; `none` where it stays.
unfoldable pub change : ℕ → ℕ → Option Bool
change b c = if ltb b c then some true else (if ltb c b then some false else none)

unfoldable pub or_else : Option Bool → Option Bool → Option Bool
or_else none o = o
or_else (some rise) o = some rise

-- Whether the last of the changes from one value to the next is a rise.
unfoldable pub last_change : ℕ → List ℕ → Option Bool
last_change b [] = none
last_change b (c ∷ cs) = or_else (last_change c cs) (change b c)

-- What a change says, or a flag without one.
unfoldable pub or_flag : Option Bool → Bool → Bool
or_flag none flag = flag
or_flag (some rise) flag = rise

-- The last value.
unfoldable pub last_of : ℕ → List ℕ → ℕ
last_of b [] = b
last_of b (c ∷ cs) = last_of c cs

or_flag-or_else :
    (o p : Option Bool) (flag : Bool) → or_flag (or_else o p) flag ≡ or_flag o (or_flag p flag)
unfolding or_flag or_else
or_flag-or_else none p flag = refl
or_flag-or_else (some rise) p flag = refl

track_turn-change :
    (i b : ℕ) (t : Track)
    → 1 ≤ i
    → (track_turn i b t).monotonic_growth ≡ or_flag (change t.prev_bytes b) t.monotonic_growth
unfolding track_turn change or_flag
track_turn-change i b t h = ground arith

track-last_change :
    (i : ℕ) (bs : List ℕ) (t : Track)
    → 1 ≤ i
    → t.prev_bytes ≡ t.last_bytes
    → let r = track i bs t in
      (r.monotonic_growth ≡ or_flag (last_change t.prev_bytes bs) t.monotonic_growth)
      × (r.first_bytes ≡ t.first_bytes)
      × (r.last_bytes ≡ last_of t.prev_bytes bs)
unfolding track last_change or_flag last_of track_turn
track-last_change i [] t h e = (refl, refl, sym e)
track-last_change i (b ∷ bs) t h e =
    let r = track-last_change (i + 1) bs (track_turn i b t) (omega arith) refl in
    (
      r.0
          ∙ ap (or_flag (last_change b bs)) (track_turn-change i b t h)
          ∙ sym (or_flag-or_else (last_change b bs) (change t.prev_bytes b) t.monotonic_growth),
      r.1 ∙ ground (arith, h),
      r.2,
    )

-- No value is below the one before it.
abbrev pub IsRising : ℕ → List ℕ → Type 0
IsRising b [] = Unit
IsRising b (c ∷ cs) = (b ≤ c) × IsRising c cs

last_change-IsRising :
    (b : ℕ) (bs : List ℕ)
    → IsRising b bs
    → ((last_change b bs ≡ none) × (last_of b bs ≡ b))
      ⊎ ((last_change b bs ≡ some true) × (b < last_of b bs))
unfolding last_change last_of or_else change
last_change-IsRising b [] h = inl (refl, refl)
last_change-IsRising b (c ∷ cs) h = elim (last_change-IsRising c cs h.1) [
  | inr some_rise ↦
      inr (ap (λ o. or_else o (change b c)) some_rise.0, omega (arith, h.0, some_rise.1))
  | inl same ↦
      let only : last_change b (c ∷ cs) ≡ change b c = ap (λ o. or_else o (change b c)) same.0 in
      elim (Bool-cases (ltb b c)) [
        | inl e ↦ inr (
          only ∙ ap (λ t. if t then some true else (if ltb c b then some false else none)) e,
          ground (arith, e, same.1),
        )
        | inr e ↦
            let equal : b ≡ c = ground (arith, e, h.0) in
            inl (only ∙ ground (arith, equal), same.1 ∙ sym equal)
      ]
]

-- detectLeakCandidates, for a type with the bytes b and then bs in the snapshots: it is reported
-- exactly if the last are more than the first; and then `monotonic` says whether the last change is
-- a rise, whatever came before, which holds of bytes that never fall.
pub candidate_of_growth :
    (type : Text) (snapshots : List HeapSnapshot) (b : ℕ) (bs : List ℕ)
    → bytes_of type snapshots ≡ b ∷ bs
    → (last_of b bs ≤ b → candidate_of type snapshots ≡ none)
      × (b < last_of b bs
          → (c : Candidate) × (candidate_of type snapshots ≡ some c)
            × (c.bytes_first ≡ b)
            × (c.bytes_last ≡ last_of b bs)
            × (c.monotonic ≡ or_flag (last_change b bs) false)
            × (IsRising b bs → c.monotonic ≡ true))
unfolding candidate_of report_growth grown track track_turn or_flag
candidate_of_growth type snapshots b bs e =
    let t = track 0 (bytes_of type snapshots) no_track in
    let same : t ≡ track 1 bs (track_turn 0 b no_track) = ap (λ l. track 0 l no_track) e in
    let r = track-last_change 1 bs (track_turn 0 b no_track) (omega arith) refl in
    let first : t.first_bytes ≡ b = ap (λ u. u.first_bytes) same ∙ r.1 in
    let last : t.last_bytes ≡ last_of b bs = ap (λ u. u.last_bytes) same ∙ r.2 in
    let flag : t.monotonic_growth ≡ or_flag (last_change b bs) false =
      ap (λ u. u.monotonic_growth) same ∙ r.0 in
    (
      λ h.
          let no : ltb t.first_bytes t.last_bytes ≡ false = ground (arith, first, last, h) in
          ap (λ g. if g then some (grown type t) else none) no,
      λ h.
          let yes : ltb t.first_bytes t.last_bytes ≡ true = ground (arith, first, last, h) in
          (
            grown type t,
            ap (λ g. if g then some (grown type t) else none) yes,
            first,
            last,
            flag,
            λ rising. flag ∙ (elim (last_change-IsRising b bs rising) [
              | inl o ↦ absurd (omega (arith, o.1, h))
              | inr o ↦ ap (λ c. or_flag c false) o.0
            ]),
          ),
    )
