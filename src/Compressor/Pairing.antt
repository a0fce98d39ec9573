-- ===== src/Compressor/Pairing.antt =====
-- context_compressor.go: Compress and the order that the chat API wants of a conversation.
use go_debug_agent.Prelude.{
  ℕ, ◌≡◌, refl, ap, subst, ◌∙◌, sym, false, true, ◌||◌, List, [], ◌∷◌, ◌++◌, arith, Option-cases,
  inl, inr, take, drop, concat, append_assoc, concat-append, take-append-drop, All, All-drop,
  All-append_right, suc, zero, ◌≤◌,
}
use go_debug_agent.Prelude.Result.{Result}
use go_debug_agent.Prelude.Text.{Text, text_eq}
use go_debug_agent.Chat.Message.{
  ChatMessage, system_role, user_role, assistant_role, tool_role, has_role, not-has_role,
}
use go_debug_agent.Chat.Session.{ChatSession}
use go_debug_agent.Chat.Protocol.{Paired, Paired-suffix}
use go_debug_agent.Llm.Types.{LlmError, ChatResponse}
use go_debug_agent.Compressor.Rounds.{identify_rounds, concat-identify_rounds}
use go_debug_agent.Compressor.Shape.{IsLed, identify_rounds_shape}
use go_debug_agent.Compressor.Summary.{plain}
use go_debug_agent.Compressor.Compress.{ContextCompressor, compress}
use go_debug_agent.Compressor.Window.{compress_idle, compress_window}

leader_no_tool :
    (m : ChatMessage)
    → (has_role user_role m || has_role assistant_role m) ≡ true
    → has_role tool_role m ≡ false
leader_no_tool m h = ground (
  arith,
  not-has_role user_role tool_role m (unfold text_eq in refl),
  not-has_role assistant_role tool_role m (unfold text_eq in refl),
)

-- Rounds from the second on, the first of them led.
Paired-tail :
    (xs : List ChatMessage) (yss : List (List ChatMessage))
    → All IsLed yss
    → Paired [] (xs ++ concat yss)
    → Paired [] (concat yss)
Paired-tail xs [] l p = tt
Paired-tail xs ([] ∷ yss) l p = absurd l.0
Paired-tail xs ((y ∷ ys) ∷ yss) l p =
    Paired-suffix [] xs y (ys ++ concat yss) (leader_no_tool y l.0) p

Paired-drop :
    (n : ℕ) (rounds : List (List ChatMessage))
    → 1 ≤ n
    → All IsLed (drop 1 rounds)
    → Paired [] (concat rounds)
    → Paired [] (concat (drop n rounds))
Paired-drop zero rounds h l p = absurd (omega arith)
Paired-drop (suc n) [] h l p = tt
Paired-drop (suc n) (r ∷ rounds) h l p =
    Paired-tail (r ++ concat (take n rounds)) (drop n rounds) (All-drop IsLed n rounds l) (
      subst (Paired [])
        (ap (λ t. r ++ t)
            (ap concat (sym (take-append-drop n rounds))
              ∙ concat-append (take n rounds) (drop n rounds))
          ∙ sym (append_assoc r (concat (take n rounds)) (concat (drop n rounds))))
        p)

-- If every tool call of the conversation is answered in order before Compress, so it is after.
pub compress-Paired :
    {W : Type 0} (now : W → ℕ × W)
    (chat_non_streaming : List ChatMessage → W → Result LlmError ChatResponse × W)
    (c : ContextCompressor) (s : ChatSession) (w : W)
    → Paired [] s.messages
    → Paired [] (compress now chat_non_streaming c s w).1.messages
compress-Paired now ask c s w p = elim (Option-cases (compress now ask c s w).0) [
  | inl e ↦ rw (compress_idle now ask c s w e) p
  | inr (r, e) ↦
      let facts = compress_window now ask c s w r e in
      rw facts.0 (
        unfold has_role text_eq in refl,
        Paired-drop r.removed_rounds (identify_rounds s.messages) facts.1
            (identify_rounds_shape s.messages).1 (rw (concat-identify_rounds s.messages) p),
      )
]

All-concat-drop {κ} :
    (P : ChatMessage → Type κ) (n : ℕ) (rounds : List (List ChatMessage))
    → All P (concat rounds)
    → All P (concat (drop n rounds))
All-concat-drop P zero rounds h = h
All-concat-drop P (suc n) [] h = h
All-concat-drop P (suc n) (r ∷ rounds) h =
    All-concat-drop P n rounds (All-append_right P r (concat rounds) h)

-- What every message of the conversation has, and every system message, every message has after
-- Compress.
pub compress-All :
    {W : Type 0} (now : W → ℕ × W)
    (chat_non_streaming : List ChatMessage → W → Result LlmError ChatResponse × W)
    (c : ContextCompressor) (s : ChatSession) (w : W) (P : ChatMessage → Type 0)
    → ((content : Text) → P (plain system_role content))
    → All P s.messages
    → All P (compress now chat_non_streaming c s w).1.messages
compress-All now ask c s w P sys p = elim (Option-cases (compress now ask c s w).0) [
  | inl e ↦ rw (compress_idle now ask c s w e) p
  | inr (r, e) ↦ rw ((compress_window now ask c s w r e).0) (
    sys _,
    All-concat-drop P r.removed_rounds (identify_rounds s.messages)
        (rw (concat-identify_rounds s.messages) p),
  )
]
