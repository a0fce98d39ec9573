-- ===== src/Compressor/Rounds.antt =====
-- context_compressor.go, identifyRounds: the loop over the messages, with its two variables and the
-- slice of finished rounds.
use go_debug_agent.Prelude.{
  ◌≡◌, refl, sym, ap, ◌∙◌, Bool, true, false, List, [], ◌∷◌, ◌++◌, append-nil, append_assoc, arith,
  if◌then◌else◌, is_empty, concat, concat-append, Bool-cases, inl, inr,
}
use go_debug_agent.Chat.Message.{ChatMessage, user_role, assistant_role, has_role}

pub record Scan : Type 0 where
  pub rounds : List (List ChatMessage)
  pub current : List ChatMessage
  pub has_assistant : Bool

-- rounds = append(rounds, current); current = nil; hasAssistant = false
unfoldable pub flush : Scan → Scan
flush s = record { rounds = s.rounds ++ s.current ∷ []; current = []; has_assistant = false }

-- current = append(current, msg)
unfoldable pub push : ChatMessage → Scan → Scan
push msg s = record s { current = s.current ++ msg ∷ [] }

abbrev mark_assistant : Scan → Scan
mark_assistant s = record s { has_assistant = true }

-- The body of the loop.
unfoldable pub scan_message : Scan → ChatMessage → Scan
scan_message s msg =
    if has_role user_role msg
    then push msg (if is_empty s.current then s else flush s)
    else (if has_role assistant_role msg
        then mark_assistant (push msg (if s.has_assistant then flush s else s))
        else push msg s)

unfoldable pub scan_messages : Scan → List ChatMessage → Scan
scan_messages s [] = s
scan_messages s (msg ∷ msgs) = scan_messages (scan_message s msg) msgs

unfoldable pub finish : Scan → List (List ChatMessage)
finish s = if is_empty s.current then s.rounds else s.rounds ++ s.current ∷ []

abbrev pub start : Scan
start = record { rounds = []; current = []; has_assistant = false }

unfoldable pub identify_rounds : List ChatMessage → List (List ChatMessage)
unfolding flush push scan_message scan_messages finish
identify_rounds messages = finish (scan_messages start messages)

-- What has been read so far, in order.
abbrev seen : Scan → List ChatMessage
seen s = concat s.rounds ++ s.current

seen-flush : (s : Scan) → seen (flush s) ≡ seen s
unfolding flush
seen-flush s =
    append-nil _
    ∙ concat-append s.rounds (s.current ∷ [])
    ∙ ap (λ t. concat s.rounds ++ t) (append-nil s.current)

seen-push : (msg : ChatMessage) (s : Scan) → seen (push msg s) ≡ seen s ++ msg ∷ []
unfolding push
seen-push msg s = sym (append_assoc (concat s.rounds) s.current (msg ∷ []))

-- A step reads the message, and loses none.
seen-scan_message : (s : Scan) (msg : ChatMessage) → seen (scan_message s msg) ≡ seen s ++ msg ∷ []
unfolding scan_message
seen-scan_message s msg = ground (arith, seen-push msg s, seen-push msg (flush s), seen-flush s)

seen-scan_messages :
    (s : Scan) (msgs : List ChatMessage) → seen (scan_messages s msgs) ≡ seen s ++ msgs
unfolding scan_messages
seen-scan_messages s [] = sym (append-nil (seen s))
seen-scan_messages s (msg ∷ msgs) =
    seen-scan_messages (scan_message s msg) msgs
    ∙ ap (λ l. l ++ msgs) (seen-scan_message s msg)
    ∙ append_assoc (seen s) (msg ∷ []) msgs

concat-finish : (s : Scan) → concat (finish s) ≡ seen s
unfolding finish
concat-finish s = elim (Bool-cases (is_empty s.current)) [
  | inl e ↦ rw e (sym (ap (λ l. concat s.rounds ++ l) (nil_of_empty s.current e) ∙ append-nil _))
  | inr e ↦ rw e (
      concat-append s.rounds (s.current ∷ [])
      ∙ ap (λ t. concat s.rounds ++ t) (append-nil s.current))
]
  where
    nil_of_empty : (l : List ChatMessage) → is_empty l ≡ true → l ≡ []
    nil_of_empty [] h = refl
    nil_of_empty (x ∷ l) h = cc

-- The rounds hold every message once, in the order of the conversation.
pub concat-identify_rounds :
    (messages : List ChatMessage) → concat (identify_rounds messages) ≡ messages
unfolding identify_rounds
concat-identify_rounds messages =
    concat-finish (scan_messages start messages) ∙ seen-scan_messages start messages
