-- ===== src/Compressor/Shape.antt =====
-- What a round of identifyRounds looks like: where one begins, and what it holds.
use go_debug_agent.Prelude.{
  ℕ, ◌+◌, ◌≤◌, ◌≡◌, refl, ◌∙◌, ◌⊎◌, inl, inr, true, false, ◌||◌, List, [], ◌∷◌, ◌++◌, arith,
  is_empty, All, All-append, drop, Bool-cases, if◌then◌else◌,
}
use go_debug_agent.Prelude.Text.{Text, text_eq}
use go_debug_agent.Chat.Message.{ChatMessage, user_role, assistant_role, has_role, not-has_role}
use go_debug_agent.Compressor.Rounds.{
  Scan, flush, push, scan_message, scan_messages, start, identify_rounds,
}

-- The number of messages with a role.
abbrev pub count_role : Text → List ChatMessage → ℕ
count_role r [] = 0
count_role r (m ∷ ms) = (if has_role r m then 1 else 0) + count_role r ms

-- A round has a message, no user message but the first, and one assistant message at most.
pub record IsRound (ms : List ChatMessage) : Type 0 where
  pub has_message : is_empty ms ≡ false
  pub user_first : count_role user_role (drop 1 ms) ≡ 0
  pub one_assistant : count_role assistant_role ms ≤ 1

-- It begins with a message of the user or of the assistant.
abbrev pub IsLed : List ChatMessage → Type 0
IsLed [] = ⊥
IsLed (m ∷ ms) = (has_role user_role m || has_role assistant_role m) ≡ true

count_role-append :
    (r : Text) (xs ys : List ChatMessage)
    → count_role r (xs ++ ys) ≡ count_role r xs + count_role r ys
count_role-append r [] ys = omega arith
count_role-append r (x ∷ xs) ys = omega (arith, count_role-append r xs ys)

IsLed-append : (xs ys : List ChatMessage) → IsLed xs → IsLed (xs ++ ys)
IsLed-append [] ys h = absurd h
IsLed-append (x ∷ xs) ys h = h

count_role_tail_push :
    (r : Text) (xs : List ChatMessage) (m : ChatMessage)
    → has_role r m ≡ false
    → count_role r (drop 1 (xs ++ m ∷ [])) ≡ count_role r (drop 1 xs)
count_role_tail_push r [] m h = refl
count_role_tail_push r (x ∷ xs) m h = ground (arith, count_role-append r xs (m ∷ []))

All-tail_push :
    (xss : List (List ChatMessage)) (xs : List ChatMessage)
    → All IsLed (drop 1 xss)
    → (is_empty xss ≡ true) ⊎ IsLed xs
    → All IsLed (drop 1 (xss ++ xs ∷ []))
All-tail_push [] xs h b = tt
All-tail_push (x ∷ xss) xs h (inl e) = cc
All-tail_push (x ∷ xss) xs h (inr l) = All-append IsLed xss (xs ∷ []) h (l, tt)

-- The rounds finished so far and the current one.
record IsGood (s : Scan) : Type 0 where
  finished : All IsRound s.rounds
  led : All IsLed (drop 1 s.rounds)
  begun : (is_empty s.rounds ≡ true) ⊎ IsLed s.current
  user_first : count_role user_role (drop 1 s.current) ≡ 0
  assistants : count_role assistant_role s.current ≡ (if s.has_assistant then 1 else 0)

start-IsGood : IsGood start
start-IsGood = record {
  finished = tt;
  led = tt;
  begun = inl refl;
  user_first = refl;
  assistants = refl;
}

current-IsRound : (s : Scan) → IsGood s → is_empty s.current ≡ false → IsRound s.current
current-IsRound s g h = record {
  has_message = h;
  user_first = g.user_first;
  one_assistant = ground arith;
}

rounds-IsRound :
    (s : Scan) → IsGood s → is_empty s.current ≡ false → All IsRound (s.rounds ++ s.current ∷ [])
rounds-IsRound s g h =
    All-append IsRound s.rounds (s.current ∷ []) g.finished (current-IsRound s g h, tt)

-- The state after `flush` and `push` of a message that begins a round.
fresh-IsGood :
    (s t : Scan) (m : ChatMessage)
    → IsGood s
    → is_empty s.current ≡ false
    → IsLed (m ∷ [])
    → t.rounds ≡ s.rounds ++ s.current ∷ []
    → t.current ≡ m ∷ []
    → count_role assistant_role (m ∷ []) ≡ (if t.has_assistant then 1 else 0)
    → IsGood t
fresh-IsGood s t m g h l er ec ea = record {
  finished = rw er (rounds-IsRound s g h);
  led = rw er (All-tail_push s.rounds s.current g.led g.begun);
  begun = inr (rw ec l);
  user_first = rw ec refl;
  assistants = rw ec ea;
}

-- The state after `push` alone.
pushed-IsGood :
    (s t : Scan) (m : ChatMessage)
    → IsGood s
    → t.rounds ≡ s.rounds
    → t.current ≡ s.current ++ m ∷ []
    → (is_empty s.rounds ≡ true) ⊎ IsLed (s.current ++ m ∷ [])
    → count_role user_role (drop 1 (s.current ++ m ∷ [])) ≡ 0
    → count_role assistant_role (s.current ++ m ∷ []) ≡ (if t.has_assistant then 1 else 0)
    → IsGood t
pushed-IsGood s t m g er ec b u a = record {
  finished = rw er g.finished;
  led = rw er g.led;
  begun = rw (er, ec) b;
  user_first = rw ec u;
  assistants = rw ec a;
}

is_empty-true : (l : List ChatMessage) → is_empty l ≡ true → l ≡ []
is_empty-true [] h = refl
is_empty-true (x ∷ l) h = cc

IsLed-push :
    (s : Scan) (m : ChatMessage)
    → IsGood s
    → (is_empty s.rounds ≡ true) ⊎ IsLed (s.current ++ m ∷ [])
IsLed-push s m g = elim g.begun [ inl e ↦ inl e | inr l ↦ inr (IsLed-append s.current (m ∷ []) l) ]

user-IsGood :
    (s : Scan) (m : ChatMessage)
    → has_role user_role m ≡ true
    → has_role assistant_role m ≡ false
    → IsGood s
    → IsGood (scan_message s m)
unfolding scan_message push flush
user-IsGood s m h n g = elim (Bool-cases (is_empty s.current)) [
  | inl e ↦
      let nil = is_empty-true s.current e in
      rw (h, e)
        (pushed-IsGood s _ m g refl refl (inr (rw (nil, h) refl)) (rw nil refl)
          (ground (arith, count_role-append assistant_role s.current (m ∷ []), g.assistants)))
  | inr e ↦ rw (h, e) (fresh-IsGood s _ m g e (rw h) refl refl (rw n refl))
]

assistant-IsGood :
    (s : Scan) (m : ChatMessage)
    → has_role user_role m ≡ false
    → has_role assistant_role m ≡ true
    → IsGood s
    → IsGood (scan_message s m)
unfolding scan_message push flush
assistant-IsGood s m n h g = elim (Bool-cases s.has_assistant) [
  | inl e ↦
      rw (n, h, e)
        (fresh-IsGood s _ m g (nonempty s.current (g.assistants ∙ rw e refl)) (rw (n, h) refl) refl
          refl (rw h refl))
  | inr e ↦
      rw (n, h, e)
        (pushed-IsGood s _ m g refl refl (IsLed-push s m g)
          (count_role_tail_push user_role s.current m n ∙ g.user_first)
          (ground (arith, count_role-append assistant_role s.current (m ∷ []), g.assistants)))
]
  where
    nonempty : (l : List ChatMessage) → count_role assistant_role l ≡ 1 → is_empty l ≡ false
    nonempty [] c = absurd (omega arith)
    nonempty (x ∷ l) c = refl

other-IsGood :
    (s : Scan) (m : ChatMessage)
    → has_role user_role m ≡ false
    → has_role assistant_role m ≡ false
    → IsGood s
    → IsGood (scan_message s m)
unfolding scan_message push
other-IsGood s m n k g =
    rw (n, k)
      (pushed-IsGood s _ m g refl refl (IsLed-push s m g)
        (count_role_tail_push user_role s.current m n ∙ g.user_first)
        (ground (arith, count_role-append assistant_role s.current (m ∷ []), g.assistants)))

scan_message-IsGood : (s : Scan) (m : ChatMessage) → IsGood s → IsGood (scan_message s m)
scan_message-IsGood s m g = elim (Bool-cases (has_role user_role m)) [
  | inl h ↦ user-IsGood s m h (not-has_role user_role assistant_role m (unfold text_eq in refl) h) g
  | inr n ↦ elim (Bool-cases (has_role assistant_role m)) [
    | inl h ↦ assistant-IsGood s m n h g
    | inr k ↦ other-IsGood s m n k g
  ]
]

scan_messages-IsGood : (s : Scan) (ms : List ChatMessage) → IsGood s → IsGood (scan_messages s ms)
unfolding scan_messages
scan_messages-IsGood s [] g = g
scan_messages-IsGood s (m ∷ ms) g =
    scan_messages-IsGood (scan_message s m) ms (scan_message-IsGood s m g)

-- Every round has a message, no user message but its first, and one assistant message at most; and
-- every round but the first begins with a message of the user or of the assistant.
pub identify_rounds_shape :
    (messages : List ChatMessage)
    → All IsRound (identify_rounds messages) × All IsLed (drop 1 (identify_rounds messages))
unfolding identify_rounds
identify_rounds_shape messages =
    let g = scan_messages-IsGood start messages start-IsGood in
    let s = scan_messages start messages in
    elim (Bool-cases (is_empty s.current)) [
      | inl e ↦ rw e (g.finished, g.led)
      | inr e ↦ rw e (rounds-IsRound s g e, All-tail_push s.rounds s.current g.led g.begun)
    ]
