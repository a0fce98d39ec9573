-- ===== src/Engine/Invariant.antt =====
-- engine.go: the state of a turn of runToolLoop, its callbacks and its history.
use go_debug_agent.Prelude.{
  ℕ, ◌≤◌, ◌≡◌, sym, subst, true, false, List, [], ◌∷◌, ◌++◌, All, All-append, append_assoc,
  append-nil, length,
}
use go_debug_agent.Prelude.Text.{Text, text_eq}
use go_debug_agent.Chat.Message.{ChatMessage, has_role, system_role, tool_role}
use go_debug_agent.Chat.Protocol.{Paired, Paired-append, Paired-suffix, call_ids}
use go_debug_agent.Chat.Session.{add_message}
use go_debug_agent.Compressor.Summary.{plain}
use go_debug_agent.Engine.Types.{Callback, Turn, emit, add}
use go_debug_agent.Engine.Output.{is_terminal, IsOpen, IsClosed, IsOpen-snoc}

abbrev pub IsShort : ChatMessage → Type 0
IsShort m = has_role tool_role m ≡ true → length m.content ≤ 12000

pub record IsOrdered (ms : List ChatMessage) : Type 0 where
  pub paired : Paired [] ms
  pub short : All IsShort ms

-- The messages wait for the answers to some calls.
pub record Awaits (ids : List Text) (ms : List ChatMessage) : Type 0 where
  pub answered : (tail : List ChatMessage) → Paired ids tail → Paired [] (ms ++ tail)
  pub waiting : (tail : List ChatMessage) → Paired [] (ms ++ tail) → Paired ids tail
  pub short : All IsShort ms

pub Awaits-IsOrdered : (ms : List ChatMessage) → Awaits [] ms → IsOrdered ms
Awaits-IsOrdered ms a = record {
  paired = subst (Paired []) (append-nil ms) (a.answered [] tt);
  short = a.short;
}

-- A history that still waits for an answer is not in order.
pub Awaits-unanswered :
    (id : Text) (ids : List Text) (ms : List ChatMessage) → Awaits (id ∷ ids) ms → ¬ Paired [] ms
Awaits-unanswered id ids ms a p = a.waiting [] (subst (Paired []) (sym (append-nil ms)) p)

abbrev pub NoTool : ChatMessage → Type 0
NoTool m = has_role tool_role m ≡ false

-- A message with calls, or with none, after an ordered history.
pub IsOrdered-ask :
    (ms : List ChatMessage) (m : ChatMessage)
    → NoTool m
    → IsOrdered ms
    → Awaits (call_ids m) (ms ++ m ∷ [])
IsOrdered-ask ms m n o = record {
  answered = λ tail p.
      subst (Paired []) (sym (append_assoc ms (m ∷ []) tail))
        (Paired-append [] ms (m ∷ tail) o.paired (n, p));
  waiting = λ tail p.
      (Paired-suffix [] ms m tail n (subst (Paired []) (append_assoc ms (m ∷ []) tail) p)).1;
  short = All-append IsShort ms (m ∷ []) o.short ((λ t. cc), tt);
}

-- The answer to the next call.
pub Awaits-answer :
    (id : Text) (ids : List Text) (ms : List ChatMessage) (m : ChatMessage)
    → has_role tool_role m ≡ true
    → m.tool_call_id ≡ id
    → length m.content ≤ 12000
    → Awaits (id ∷ ids) ms
    → Awaits ids (ms ++ m ∷ [])
Awaits-answer id ids ms m t i l a = record {
  answered = λ tail p.
      subst (Paired []) (sym (append_assoc ms (m ∷ []) tail)) (a.answered (m ∷ tail) (t, i, p));
  waiting =
      λ tail p. (a.waiting (m ∷ tail) (subst (Paired []) (append_assoc ms (m ∷ []) tail) p)).2;
  short = All-append IsShort ms (m ∷ []) a.short ((λ _. l), tt);
}

pub plain-IsShort : (content : Text) → IsShort (plain system_role content)
unfolding has_role text_eq
plain-IsShort content h = cc

module _ {W : Type 0} where
  -- A turn in which the run goes on, and one in which it is over.
  pub record IsRunning (t : Turn W) : Type 0 where
    pub open_calls : IsOpen t.calls
    pub ordered : IsOrdered t.session.messages

  pub record IsOver (t : Turn W) : Type 0 where
    pub closed_calls : IsClosed t.calls
    pub ordered : IsOrdered t.session.messages

  pub add-IsRunning :
      (now : W → ℕ × W) (m : ChatMessage) (t : Turn W)
      → NoTool m
      → call_ids m ≡ []
      → IsRunning t
      → IsRunning (add now m t)
  unfolding add add_message
  add-IsRunning now m t n e r = record {
    open_calls = r.open_calls;
    ordered = Awaits-IsOrdered _ (rw e at (IsOrdered-ask t.session.messages m n r.ordered));
  }

  pub emit-IsRunning :
      (c : Callback) (t : Turn W) → is_terminal c ≡ false → IsRunning t → IsRunning (emit c t)
  unfolding emit
  emit-IsRunning c t h r = record {
    open_calls = IsOpen-snoc t.calls c h r.open_calls;
    ordered = r.ordered;
  }
