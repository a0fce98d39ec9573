-- ===== src/Inspectors/Locks/Deadlock.antt =====
-- inspector_locks.go: detectDeadlockPatterns. The blocks are those of
-- strings.Split(raw, "\ngoroutine "), and strings.Split(block, "\n") is a parameter.
use go_debug_agent.Prelude.{
  ℕ, ◌+◌, Bool, ◌||◌, ◌&&◌, not, List, [], ◌∷◌, ◌++◌, none, some, if◌then◌else◌, length, take, drop,
  is_empty, ltb, leb, ◌==◌,
}
use go_debug_agent.Prelude.Text.{Text, ascii, has_prefix, decimal}
use go_debug_agent.Inspectors.Base.{index_byte}
use go_debug_agent.Inspectors.Logs.Writer.{contains}

-- What is found in a block.
pub record Block : Type 0 where
  pub goroutine_id : Text
  pub state : Text
  pub on_mutex : Bool
  pub on_channel : Bool
  pub on_wait_group : Bool
  pub semacquire : Bool
  pub snippet : Text

pub record Flagged : Type 0 where
  pub goroutine_id : Text
  pub state : Text
  pub stack_snippet : Text

pub record DeadlockCounts : Type 0 where
  pub blocked_on_mutex : ℕ
  pub blocked_on_channel : ℕ
  pub blocked_on_wait_group : ℕ
  pub semacquire_count : ℕ
  pub flagged_goroutines : List Flagged

-- A finding: its type, description and severity.
pub record Finding : Type 0 where
  pub type : Text
  pub description : Text
  pub severity : Text

-- firstLine[:idx] before a space that is not the first byte.
unfoldable pub goroutine_id_of : Text → Text
goroutine_id_of line = elim (index_byte 32 line) [
  | none ↦ []
  | some idx ↦ if ltb 0 idx then take idx line else []
]

-- What stands between "[" and a later first "]".
unfoldable pub state_of : Text → Text
state_of line = elim (index_byte 91 line) [
  | none ↦ ascii "running"
  | some idx ↦ elim (index_byte 93 line) [
    | none ↦ ascii "running"
    | some end_idx ↦ if ltb idx end_idx then drop (idx + 1) (take end_idx line) else ascii "running"
  ]
]

-- strings.Join(lines, "\n")
unfoldable pub join_lines : List Text → Text
join_lines [] = []
join_lines (line ∷ []) = line
join_lines (line ∷ next ∷ lines) = line ++ 10 ∷ join_lines (next ∷ lines)

-- The loop that collects the lines of a snippet, until it is longer than 300 bytes.
unfoldable pub snippet_from : (Text → Text) → Text → List Text → Text
snippet_from trim_space snippet [] = snippet
snippet_from trim_space snippet (l ∷ lines) =
    let line = trim_space l in
    let longer = snippet ++ line ++ 10 ∷ [] in
    let skipped = is_empty line || has_prefix line (ascii "created by") in
    let rest = snippet_from trim_space (if skipped then snippet else longer) lines in
    if not skipped && ltb 300 (length longer) then longer else rest

unfoldable pub block_of : (Text → Text) → Text → List Text → Block
block_of trim_space first_line rest =
    let full_stack = join_lines rest in
    record {
      goroutine_id = goroutine_id_of first_line;
      state = state_of first_line;
      on_mutex =
          contains full_stack (ascii "sync.(*Mutex)")
          || contains full_stack (ascii "sync.(*RWMutex)");
      on_channel =
          contains full_stack (ascii "chan ")
          || contains full_stack (ascii "chansend")
          || contains full_stack (ascii "chanrecv");
      on_wait_group = contains full_stack (ascii "sync.(*WaitGroup)");
      semacquire = contains full_stack (ascii "semacquire");
      snippet = snippet_from trim_space [] rest;
    }

unfoldable pub is_flagged : Block → Bool
is_flagged b = b.on_mutex || (b.semacquire && contains b.state (ascii "semacquire"))

unfoldable pub bump : Bool → ℕ → ℕ
bump found n = if found then n + 1 else n

unfoldable pub count_block : Block → DeadlockCounts → DeadlockCounts
count_block b t = record {
  blocked_on_mutex = bump b.on_mutex t.blocked_on_mutex;
  blocked_on_channel = bump b.on_channel t.blocked_on_channel;
  blocked_on_wait_group = bump b.on_wait_group t.blocked_on_wait_group;
  semacquire_count = bump b.semacquire t.semacquire_count;
  flagged_goroutines =
      (if is_flagged b
        then t.flagged_goroutines
          ++ record { goroutine_id = b.goroutine_id; state = b.state; stack_snippet = b.snippet }
            ∷ []
        else t.flagged_goroutines);
}

-- The turn of a block whose spaces are cut off, by its lines; an empty one is skipped.
unfoldable pub count_lines : (Text → Text) → List Text → DeadlockCounts → DeadlockCounts
count_lines trim_space [] t = t
count_lines trim_space (first_line ∷ rest) t = count_block (block_of trim_space first_line rest) t

unfoldable pub count_blocks :
    (Text → Text) → (Text → List Text) → List Text → DeadlockCounts → DeadlockCounts
count_blocks trim_space split_lines [] t = t
count_blocks trim_space split_lines (b ∷ blocks) t =
    let block = trim_space b in
    count_blocks trim_space split_lines blocks
      (if is_empty block then t else count_lines trim_space (split_lines block) t)

unfoldable pub risk_level : DeadlockCounts → Text
risk_level t =
    if leb 3 t.blocked_on_mutex
    then ascii "high"
    else (if leb 1 t.blocked_on_mutex then ascii "medium" else ascii "none")

unfoldable pub circular_findings : DeadlockCounts → List Finding
circular_findings t =
    if leb 2 t.blocked_on_mutex
    then record {
      type = ascii "potential_circular_wait";
      description =
          decimal t.blocked_on_mutex
          ++ ascii " goroutines blocked on mutexes "
          ++ 226 ∷ 128 ∷ 148 ∷ ascii " possible circular wait deadlock";
      severity = risk_level t;
    }
      ∷ []
    else []

unfoldable pub semacquire_findings : DeadlockCounts → List Finding
semacquire_findings t =
    if ltb 0 t.semacquire_count
    then record {
      type = ascii "semacquire_blocking";
      description =
          decimal t.semacquire_count
          ++ ascii " goroutines in semacquire state (waiting for semaphore)";
      severity = ascii "info";
    }
      ∷ []
    else []

unfoldable pub channel_findings : DeadlockCounts → List Finding
channel_findings t =
    if ltb 0 t.blocked_on_channel
    then record {
      type = ascii "channel_blocking";
      description =
          decimal t.blocked_on_channel ++ ascii " goroutines blocked on channel operations";
      severity = ascii "info";
    }
      ∷ []
    else []

unfoldable pub findings_of : DeadlockCounts → List Finding
findings_of t =
    let found = circular_findings t ++ semacquire_findings t ++ channel_findings t in
    if is_empty found && t.blocked_on_mutex == 0
    then record {
      type = ascii "no_deadlock_detected";
      description = ascii "No deadlock patterns detected in current goroutine stacks";
      severity = ascii "none";
    }
      ∷ []
    else found

abbrev pub no_counts : DeadlockCounts
no_counts = record {
  blocked_on_mutex = 0;
  blocked_on_channel = 0;
  blocked_on_wait_group = 0;
  semacquire_count = 0;
  flagged_goroutines = [];
}

unfoldable pub detect_deadlock_patterns :
    (Text → Text) → (Text → List Text) → List Text → DeadlockCounts
detect_deadlock_patterns trim_space split_lines blocks =
    count_blocks trim_space split_lines blocks no_counts
