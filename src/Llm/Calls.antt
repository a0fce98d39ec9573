-- ===== src/Llm/Calls.antt =====
-- llm_client.go, streamRequest: the tool calls that the chunks of a whole stream put together.
use go_debug_agent.Prelude.{
  ◌≡◌, refl, sym, ap, ◌∙◌, ◌||◌, not, List, [], ◌∷◌, ◌++◌, Option, none, some, inl, inr, is_empty,
  if◌then◌else◌, Bool-cases, Option-cases,
}
use go_debug_agent.Prelude.Int.{ℤ}
use go_debug_agent.Prelude.Map
use go_debug_agent.Prelude.Map.{int_key}
use go_debug_agent.Prelude.Text.{Text, ascii, text_eq, has_prefix, trim_prefix}
use go_debug_agent.Llm.Types.{Chunk, ChunkChoice, ToolCallDelta}
use go_debug_agent.Llm.Chunks.{
  CallMap, StreamState, apply_delta, apply_deltas, data_prefix, read_choices, read_choice,
  read_chunk, read_data, read_line, read_lines, stream_start,
}
use go_debug_agent.Llm.Fragments.{fragments, assembled, lookup-apply_deltas}

-- The fragments of a chunk: those of its first choice.
abbrev chunk_deltas : List ChunkChoice → List ToolCallDelta
chunk_deltas [] = []
chunk_deltas (choice ∷ _) = choice.delta.tool_calls

-- The chunk of a line: what stands after "data: ", where that is not the end mark and can be decoded.
abbrev pub chunk_of : (Text → Option Chunk) → Text → Option Chunk
chunk_of unmarshal_chunk line =
    if is_empty line || not (has_prefix line data_prefix)
    then none
    else (if text_eq (trim_prefix line data_prefix) (ascii "[DONE]")
        then none
        else unmarshal_chunk (trim_prefix line data_prefix))

abbrev deltas_in : Option Chunk → List ToolCallDelta
deltas_in none = []
deltas_in (some chunk) = chunk_deltas chunk.choices

-- The fragments of all chunks of a stream, in order.
abbrev pub stream_deltas : (Text → Option Chunk) → List Text → List ToolCallDelta
stream_deltas unmarshal_chunk [] = []
stream_deltas unmarshal_chunk (line ∷ lines) =
    deltas_in (chunk_of unmarshal_chunk line) ++ stream_deltas unmarshal_chunk lines

apply_deltas-append :
    (calls : CallMap) (xs ys : List ToolCallDelta)
    → apply_deltas calls (xs ++ ys) ≡ apply_deltas (apply_deltas calls xs) ys
unfolding apply_deltas
apply_deltas-append calls [] ys = refl
apply_deltas-append calls (x ∷ xs) ys = apply_deltas-append (apply_delta calls x) xs ys

read_choices-tool_call_map :
    (st : StreamState) (choices : List ChunkChoice)
    → (read_choices st choices).tool_call_map ≡ apply_deltas st.tool_call_map (chunk_deltas choices)
unfolding read_choices read_choice apply_deltas
read_choices-tool_call_map st [] = refl
read_choices-tool_call_map st (choice ∷ choices) = refl

module _ (unmarshal_chunk : Text → Option Chunk) where
  read_line-tool_call_map :
      (st : StreamState) (line : Text)
      → (read_line unmarshal_chunk st line).tool_call_map
        ≡ apply_deltas st.tool_call_map (deltas_in (chunk_of unmarshal_chunk line))
  unfolding read_line read_data read_chunk apply_deltas
  read_line-tool_call_map st line =
      let text = trim_prefix line data_prefix in
      elim (Bool-cases (is_empty line || not (has_prefix line data_prefix))) [
        | inl skip ↦ rw skip refl
        | inr whole ↦ rw whole (elim (Bool-cases (text_eq text (ascii "[DONE]"))) [
          | inl last ↦ rw last refl
          | inr more ↦ rw more (elim (Option-cases (unmarshal_chunk text)) [
            | inl bad ↦ rw bad refl
            | inr (chunk, good) ↦ rw good (read_choices-tool_call_map _ chunk.choices)
          ])
        ])
      ]

  read_lines-tool_call_map :
      (st : StreamState) (lines : List Text)
      → (read_lines unmarshal_chunk st lines).tool_call_map
        ≡ apply_deltas st.tool_call_map (stream_deltas unmarshal_chunk lines)
  unfolding read_lines apply_deltas
  read_lines-tool_call_map st [] = refl
  read_lines-tool_call_map st (line ∷ lines) =
      read_lines-tool_call_map (read_line unmarshal_chunk st line) lines
      ∙ ap (λ calls. apply_deltas calls (stream_deltas unmarshal_chunk lines))
          (read_line-tool_call_map st line)
      ∙ sym (
          apply_deltas-append st.tool_call_map (deltas_in (chunk_of unmarshal_chunk line))
            (stream_deltas unmarshal_chunk lines))

  -- After the lines of a stream, each index holds the call that its fragments spell, over all chunks
  -- of the stream, in order: the last id that is not empty, and the names and the arguments joined.
  -- An index with no fragment holds nothing.
  pub lookup-read_lines :
      (i : ℤ) (lines : List Text)
      → Map.lookup i (read_lines unmarshal_chunk stream_start lines).tool_call_map
        ≡ assembled (fragments i (stream_deltas unmarshal_chunk lines))
  lookup-read_lines i lines =
      ap (Map.lookup i) (read_lines-tool_call_map stream_start lines)
      ∙ lookup-apply_deltas i (stream_deltas unmarshal_chunk lines)
