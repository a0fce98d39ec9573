-- ===== src/Chat/Protocol.antt =====
-- The order that the chat API wants of a conversation: after a message with tool calls come the
-- tool messages that answer them, one for each call and in order, and no tool message elsewhere.
use go_debug_agent.Prelude.{◌≡◌, true, false, List, [], ◌∷◌, ◌++◌, map}
use go_debug_agent.Prelude.Text.{Text}
use go_debug_agent.Chat.Message.{ChatMessage, has_role, tool_role}

abbrev pub call_ids : ChatMessage → List Text
call_ids m = map (λ c. c.id) m.tool_calls

-- `Paired ids ms`: the messages begin by answering the calls `ids`, and are in order from there.
abbrev pub Paired : List Text → List ChatMessage → Type 0
Paired [] [] = Unit
Paired (id ∷ ids) [] = ⊥
Paired [] (m ∷ ms) = (has_role tool_role m ≡ false) × Paired (call_ids m) ms
Paired (id ∷ ids) (m ∷ ms) = (has_role tool_role m ≡ true) × (m.tool_call_id ≡ id) × Paired ids ms

pub Paired-append :
    (ids : List Text) (xs ys : List ChatMessage)
    → Paired ids xs
    → Paired [] ys
    → Paired ids (xs ++ ys)
Paired-append [] [] ys p q = q
Paired-append (id ∷ ids) [] ys p q = absurd p
Paired-append [] (x ∷ xs) ys p q = (p.0, Paired-append (call_ids x) xs ys p.1 q)
Paired-append (id ∷ ids) (x ∷ xs) ys p q = (p.0, p.1, Paired-append ids xs ys p.2 q)

-- A part that begins with a message that is no tool message is in order by itself.
pub Paired-suffix :
    (ids : List Text) (xs : List ChatMessage) (y : ChatMessage) (ys : List ChatMessage)
    → has_role tool_role y ≡ false
    → Paired ids (xs ++ y ∷ ys)
    → Paired [] (y ∷ ys)
Paired-suffix [] [] y ys h p = p
Paired-suffix (id ∷ ids) [] y ys h p = cc
Paired-suffix [] (x ∷ xs) y ys h p = Paired-suffix (call_ids x) xs y ys h p.1
Paired-suffix (id ∷ ids) (x ∷ xs) y ys h p = Paired-suffix ids xs y ys h p.2
