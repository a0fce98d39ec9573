-- ===== src/Inspectors/Errors/Reads.antt =====
-- inspector_error.go: what get_recent_errors shows of the errors captured.
use go_debug_agent.Prelude.{
  ℕ, ◌-◌, ◌≤◌, ◌≡◌, refl, ap, ◌∙◌, List, [], ◌∷◌, arith, length, drop, length-drop, drop-drop,
}
use go_debug_agent.Inspectors.Ring.{ring_pushes, ring_pushes-drop}
use go_debug_agent.Inspectors.Errors.Capture.{
  ErrorEntry, max_errors, capture_error_entry, recent_errors,
}

-- captureErrorEntry of each entry, in order.
unfoldable pub capture_entries : List ErrorEntry → List ErrorEntry → List ErrorEntry
capture_entries error_buffer [] = error_buffer
capture_entries error_buffer (e ∷ es) = capture_entries (capture_error_entry e error_buffer) es

capture_entries-ring_pushes :
    (buf es : List ErrorEntry) → capture_entries buf es ≡ ring_pushes max_errors buf es
unfolding capture_entries capture_error_entry ring_pushes
capture_entries-ring_pushes buf [] = refl
capture_entries-ring_pushes buf (e ∷ es) =
    capture_entries-ring_pushes (capture_error_entry e buf) es

-- The buffer holds the last 50 errors captured; and under a limit of at most 50 the tool shows the
-- last of all errors captured, as many as the limit allows.
pub recent_errors-capture_entries :
    (limit : ℕ) (es : List ErrorEntry)
    → limit ≤ max_errors
    → (capture_entries [] es ≡ drop (length es - max_errors) es)
      × (recent_errors limit (capture_entries [] es) ≡ drop (length es - limit) es)
unfolding recent_errors
recent_errors-capture_entries limit es h =
    let kept : capture_entries [] es ≡ drop (length es - max_errors) es =
      capture_entries-ring_pushes [] es ∙ ring_pushes-drop max_errors es in
    (
      kept,
      ap (recent_errors limit) kept
          ∙ drop-drop _ (length es - max_errors) es
          ∙ ap (λ k. drop k es) (ground (arith, length-drop (length es - max_errors) es)),
    )
