-- ===== src/Inspectors/Locks/Flagging.antt =====
-- inspector_locks.go: what detectDeadlockPatterns flags and finds.
use go_debug_agent.Prelude.{◌≤◌, length}
use go_debug_agent.Prelude.Text.{Text}
use go_debug_agent.Inspectors.Locks.Deadlock.{DeadlockCounts}

IsCovered : DeadlockCounts → Type 0
IsCovered t = t.blocked_on_mutex ≤ length t.flagged_goroutines
