-- ===== src/Llm/Fragments.antt =====
-- llm_client.go, streamRequest: the fragments of the tool calls of a stream, and the final loop over
-- their indices.
use go_debug_agent.Prelude.{
  ℕ, suc, ◌≡◌, refl, sym, ap, ◌∙◌, ◌⊎◌, inl, inr, true, false, List, [], ◌∷◌, ◌++◌, map, Option,
  none, some, arith, All, select, concat, is_empty, if◌then◌else◌, Bool-cases, append_assoc,
  append-nil,
}
use go_debug_agent.Prelude.Int.{ℤ, pos, int_eq, int_eq_iff}
use go_debug_agent.Prelude.Map
use go_debug_agent.Prelude.Map.{int_key}
use go_debug_agent.Prelude.Text.{Text, ascii}
use go_debug_agent.Chat.Message.{ToolCall}
use go_debug_agent.Llm.Types.{ToolCallDelta}
use go_debug_agent.Llm.Chunks.{
  CallMap, new_call, extend_call, entry_of, apply_delta, apply_deltas, collect, collect_from,
}

-- The fragments of one index, in the order of the stream.
abbrev pub fragments : ℤ → List ToolCallDelta → List ToolCallDelta
fragments i = select (λ tc. int_eq tc.index i)

-- The last id that is not empty.
abbrev pub last_id : Text → List ToolCallDelta → Text
last_id id [] = id
last_id id (tc ∷ tcs) = last_id (if is_empty tc.id then id else tc.id) tcs

-- What a call is put together to: nothing where it has no fragment.
abbrev pub assembled : List ToolCallDelta → Option ToolCall
assembled [] = none
assembled (tc ∷ tcs) = some (record {
  id = last_id [] (tc ∷ tcs);
  type = ascii "function";
  function = record {
    name = concat (map (λ d. d.name) (tc ∷ tcs));
    arguments = concat (map (λ d. d.arguments) (tc ∷ tcs));
  };
})

extended : ToolCall → List ToolCallDelta → ToolCall
extended call [] = call
extended call (tc ∷ tcs) = extended (extend_call tc call) tcs

append_or : (s t : Text) → (if is_empty t then s else s ++ t) ≡ s ++ t
append_or s [] = sym (append-nil s)
append_or s (c ∷ t) = refl

-- The fields of a call after some fragments.
after_fragments : ToolCall → List ToolCallDelta → ToolCall
after_fragments call tcs = record {
  id = last_id call.id tcs;
  type = call.type;
  function = record {
    name = call.function.name ++ concat (map (λ d. d.name) tcs);
    arguments = call.function.arguments ++ concat (map (λ d. d.arguments) tcs);
  };
}

extended-after_fragments :
    (call : ToolCall) (tcs : List ToolCallDelta) → extended call tcs ≡ after_fragments call tcs
unfolding extended after_fragments extend_call
extended-after_fragments call [] =
    ground (arith, append-nil call.function.name, append-nil call.function.arguments)
extended-after_fragments call (tc ∷ tcs) =
    extended-after_fragments (extend_call tc call) tcs
    ∙ ground (
      arith,
      append_or call.function.name tc.name,
      append_or call.function.arguments tc.arguments,
      append_assoc call.function.name tc.name (concat (map (λ d. d.name) tcs)),
      append_assoc call.function.arguments tc.arguments (concat (map (λ d. d.arguments) tcs)),
    )

abbrev start_or : Option ToolCall → List ToolCallDelta → Option ToolCall
start_or found [] = found
start_or found (tc ∷ tcs) = some (extended (entry_of found) (tc ∷ tcs))

start_or_step :
    (found : Option ToolCall) (tc : ToolCallDelta) (tcs : List ToolCallDelta)
    → start_or (some (extend_call tc (entry_of found))) tcs ≡ start_or found (tc ∷ tcs)
unfolding extended
start_or_step found tc [] = refl
start_or_step found tc (d ∷ tcs) = refl

fragments_hit :
    (i : ℤ) (tc : ToolCallDelta) (tcs : List ToolCallDelta)
    → int_eq tc.index i ≡ true
    → fragments i (tc ∷ tcs) ≡ tc ∷ fragments i tcs
fragments_hit i tc tcs e = ground (arith, e)

fragments_miss :
    (i : ℤ) (tc : ToolCallDelta) (tcs : List ToolCallDelta)
    → int_eq tc.index i ≡ false
    → fragments i (tc ∷ tcs) ≡ fragments i tcs
fragments_miss i tc tcs e = ground (arith, e)

lookup-apply_deltas_from :
    (i : ℤ) (calls : CallMap) (tcs : List ToolCallDelta)
    → Map.lookup i (apply_deltas calls tcs) ≡ start_or (Map.lookup i calls) (fragments i tcs)
unfolding apply_deltas apply_delta
lookup-apply_deltas_from i calls [] = refl
lookup-apply_deltas_from i calls (tc ∷ tcs) =
    lookup-apply_deltas_from i (apply_delta calls tc) tcs ∙ elim (Bool-cases (int_eq tc.index i)) [
      | inl e ↦
          rw (found, e)
            (start_or_step (Map.lookup tc.index calls) tc (fragments i tcs)
              ∙ ap (λ j. start_or (Map.lookup j calls) (tc ∷ fragments i tcs))
                  ((int_eq_iff tc.index i).0 e)
              ∙ ap (start_or (Map.lookup i calls)) (sym (fragments_hit i tc tcs e)))
      | inr e ↦ rw (found, e) (ap (start_or (Map.lookup i calls)) (sym (fragments_miss i tc tcs e)))
    ]
  where
    found : Map.lookup i (apply_delta calls tc) ≡ (
        if int_eq tc.index i
        then some (extend_call tc (entry_of (Map.lookup tc.index calls)))
        else Map.lookup i calls)
    found = Map.lookup-insert tc.index i _ calls

-- Each index of a stream holds the call that its fragments, in order, spell: the last id that is not
-- empty, and the names and the arguments joined.
pub lookup-apply_deltas :
    (i : ℤ) (tcs : List ToolCallDelta)
    → Map.lookup i (apply_deltas [] tcs) ≡ assembled (fragments i tcs)
unfolding after_fragments Map.lookup
lookup-apply_deltas i tcs = lookup-apply_deltas_from i [] tcs ∙ go (fragments i tcs)
  where
    go : (ds : List ToolCallDelta) → start_or none ds ≡ assembled ds
    go [] = refl
    go (d ∷ ds) = ap some (extended-after_fragments new_call (d ∷ ds))

one_index_step :
    (k : ℕ) (tc : ToolCallDelta) (calls : CallMap)
    → tc.index ≡ pos (suc k)
    → (calls ≡ []) ⊎ ((c : ToolCall) × (calls ≡ (pos (suc k), c) ∷ []))
    → (c : ToolCall) × (apply_delta calls tc ≡ (pos (suc k), c) ∷ [])
unfolding apply_delta Map.insert Map.lookup
one_index_step k tc calls h (inl e) = (extend_call tc new_call, ground arith)
one_index_step k tc calls h (inr (c, e)) =
    (extend_call tc c, ground (arith, int_eq_iff (pos (suc k)) (pos (suc k))))

-- A stream with one index, not 0.
one_index_length :
    (k : ℕ) (tcs : List ToolCallDelta) (calls : CallMap)
    → All (λ tc. tc.index ≡ pos (suc k)) tcs
    → (calls ≡ []) ⊎ ((c : ToolCall) × (calls ≡ (pos (suc k), c) ∷ []))
    → (apply_deltas calls tcs ≡ [])
      ⊎ ((c : ToolCall) × (apply_deltas calls tcs ≡ (pos (suc k), c) ∷ []))
unfolding apply_deltas
one_index_length k [] calls h s = s
one_index_length k (tc ∷ tcs) calls h s =
    one_index_length k tcs (apply_delta calls tc) h.1 (inr (one_index_step k tc calls h.0 s))

-- A tool call whose index is not 0, where the stream has no other, is lost: the final loop counts
-- the calls and looks for the indices below that count only.
pub collect_gap :
    (k : ℕ) (tcs : List ToolCallDelta)
    → All (λ tc. tc.index ≡ pos (suc k)) tcs
    → collect (apply_deltas [] tcs) ≡ []
unfolding collect collect_from Map.lookup int_eq
collect_gap k tcs h = elim (one_index_length k tcs [] h (inl refl)) [
  | inl e ↦ rw e refl
  | inr (c, e) ↦ rw e (ground arith)
]
