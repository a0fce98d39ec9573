-- ===== src/Inspectors/Logs/Lines.antt =====
-- inspector_logging.go: the lines that CaptureWriter takes from what is written to it.
use go_debug_agent.Prelude.{
  ℕ, zero, suc, ◌+◌, ◌≤◌, ◌≡◌, refl, sym, ap, ◌∙◌, [], ◌∷◌, ◌++◌, none, some, arith, length, take,
  drop, length-drop, Option-cases, Bool-cases, inl, inr, ◌==◌, append_assoc,
}
use go_debug_agent.Prelude.Text.{Text}
use go_debug_agent.Server.Page.{prepend, split_lines}
use go_debug_agent.Server.Transport.{ahead}
use go_debug_agent.Server.Chunks.{followed, split_lines-append}
use go_debug_agent.Inspectors.Base.{index_byte}
use go_debug_agent.Inspectors.Logs.Writer.{write_loop, write_bytes}

unended : (s : Text) → index_byte 10 s ≡ none → split_lines s ≡ record { whole = []; rest = s }
unfolding split_lines index_byte prepend
unended [] h = refl
unended (c ∷ s) h = elim (Bool-cases (c == 10)) [
  | inl e ↦ ground (arith, e, h)
  | inr e ↦ elim (Option-cases (index_byte 10 s)) [
    | inl n ↦ rw (e, unended s n) refl
    | inr (i, n) ↦ ground (arith, e, n, h)
  ]
]

-- The first line ends at the first line feed.
ended :
    (s : Text) (idx : ℕ)
    → index_byte 10 s ≡ some idx
    → (split_lines s ≡ ahead (take idx s) (split_lines (drop (idx + 1) s))) × (idx + 1 ≤ length s)
unfolding split_lines index_byte prepend
ended [] idx h = cc
ended (c ∷ s) zero h = elim (Bool-cases (c == 10)) [
  | inl e ↦ (rw e refl, omega arith)
  | inr e ↦ elim (Option-cases (index_byte 10 s)) [
    | inl n ↦ ground (arith, e, n, h)
    | inr (i, n) ↦ ground (arith, e, n, h)
  ]
]
ended (c ∷ s) (suc idx) h = elim (Bool-cases (c == 10)) [
  | inl e ↦ ground (arith, e, h)
  | inr e ↦ elim (Option-cases (index_byte 10 s)) [
    | inl n ↦ ground (arith, e, n, h)
    | inr (i, n) ↦
        let same : i ≡ idx = ground (arith, e, n, h) in
        let r = ended s idx (n ∙ ap some same) in
        let next : suc (idx + 1) ≡ suc idx + 1 = omega arith in
        (
          rw (e, r.0) (ap (λ k. ahead (c ∷ take idx s) (split_lines (drop k (c ∷ s)))) next),
          omega (arith, r.1),
        )
  ]
]

write_loop-split_lines : (n : ℕ) (s : Text) → length s ≤ n → write_loop n s ≡ split_lines s
unfolding write_loop split_lines
write_loop-split_lines zero [] h = refl
write_loop-split_lines zero (c ∷ s) h = absurd (omega arith)
write_loop-split_lines (suc n) s h = elim (Option-cases (index_byte 10 s)) [
  | inl none_left ↦ rw (none_left, write_loop) (sym (unended s none_left))
  | inr (idx, found) ↦
      let r = ended s idx found in
      let rest =
        write_loop-split_lines n (drop (idx + 1) s) (omega (arith, length-drop (idx + 1) s, r.1)) in
      rw (found, write_loop, rest) (sym r.0)
]

-- The loop of CaptureWriter takes the lines that the text has, and leaves what follows the last line
-- feed; and how the text is divided among the writes makes no difference.
pub write_bytes-split_lines :
    (partial p q : Text)
    → (write_bytes partial p ≡ split_lines (partial ++ p))
      × (followed (write_bytes partial p) (write_bytes (write_bytes partial p).rest q)
          ≡ write_bytes partial (p ++ q))
unfolding write_bytes
write_bytes-split_lines partial p q =
    let whole : (s : Text) → write_loop (length s) s ≡ split_lines s =
      λ s. write_loop-split_lines (length s) s (omega arith) in
    (
      whole (partial ++ p),
      ap (λ r. followed r (write_loop (length (r.rest ++ q)) (r.rest ++ q))) (whole (partial ++ p))
          ∙ ap (followed (split_lines (partial ++ p)))
              (whole ((split_lines (partial ++ p)).rest ++ q))
          ∙ sym (split_lines-append (partial ++ p) q)
          ∙ ap split_lines (append_assoc partial p q)
          ∙ sym (whole (partial ++ (p ++ q))),
    )
