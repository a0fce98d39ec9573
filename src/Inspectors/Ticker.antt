-- ===== src/Inspectors/Ticker.antt =====
-- inspector_scheduler.go: the goroutine of StartTicker and Stop, as steps that interleave in any
-- order. A job is started once.
use go_debug_agent.Prelude.{
  ℕ, ◌+◌, ◌≡◌, ◌≢◌, refl, sym, ap, subst, ◌⊎◌, inl, inr, Bool, true, false, if◌then◌else◌, arith,
}

-- Where the goroutine is: in select, with whether the channel that it read from j.done is the job's
-- (true) or nil (false); in runScheduledJob; or returned.
pub data Goroutine : Type 0 where
  waiting : Bool → Goroutine
  running : Goroutine
  returned : Goroutine

-- j.done != nil, whether the channel is closed, the goroutine, and the runs that have ended.
pub record Ticker : Type 0 where
  pub done : Bool
  pub closed : Bool
  pub goroutine : Goroutine
  pub runs : ℕ

-- The state that StartTicker leaves, with the goroutine in its first select.
abbrev pub start_ticker : Ticker
start_ticker = record { done = true; closed = false; goroutine = waiting true; runs = 0 }

-- Stop
unfoldable pub stop_ticker : Ticker → Ticker
stop_ticker s = if s.done then record s { done = false; closed = true } else s

abbrev pub fire : Ticker → Ticker
fire s = record s { goroutine = running }

-- The run ends, and the next turn of the loop reads j.done anew.
abbrev pub finish_run : Ticker → Ticker
finish_run s = record s { goroutine = waiting s.done; runs = s.runs + 1 }

abbrev pub leave : Ticker → Ticker
leave s = record s { goroutine = returned }

pub data TickerStep : Ticker → Ticker → Type 0 where
  fired : (s : Ticker) (b : Bool) → s.goroutine ≡ waiting b → TickerStep s (fire s)
  ended : (s : Ticker) → s.goroutine ≡ running → TickerStep s (finish_run s)
  received : (s : Ticker) → s.goroutine ≡ waiting true → s.closed ≡ true → TickerStep s (leave s)
  stopped : (s : Ticker) → TickerStep s (stop_ticker s)

pub data TickerSteps (s : Ticker) : Ticker → Type 0 where
  no_step : TickerSteps s s
  then_step : {t u : Ticker} → TickerSteps s t → TickerStep t u → TickerSteps s u

-- The channel is gone, and the goroutine does not wait on it.
record IsLost (s : Ticker) : Type 0 where
  no_channel : s.done ≡ false
  away : (s.goroutine ≡ running) ⊎ (s.goroutine ≡ waiting false)

stop_ticker_idle : (s : Ticker) → s.done ≡ false → stop_ticker s ≡ s
unfolding stop_ticker
stop_ticker_idle s e = ground (arith, e)

step-IsLost : {s t : Ticker} → TickerStep s t → IsLost s → IsLost t
unfolding stop_ticker
step-IsLost (fired s b w) l = record { no_channel = l.no_channel; away = inl refl }
step-IsLost (ended s r) l = record {
  no_channel = l.no_channel;
  away = inr (ap waiting l.no_channel);
}
step-IsLost (received s w c) l = elim l.away [ inl r ↦ cc | inr f ↦ cc ]
step-IsLost (stopped s) l = subst IsLost (sym (stop_ticker_idle s l.no_channel)) l

steps-IsLost : {s t : Ticker} → TickerSteps s t → IsLost s → IsLost t
steps-IsLost no_step l = l
steps-IsLost (then_step steps step) l = step-IsLost step (steps-IsLost steps l)

-- If Stop is called while a run of the job is under way, the goroutine never returns, whatever
-- steps follow.
pub stop_during_run :
    (s t : Ticker)
    → s.goroutine ≡ running
    → TickerSteps (stop_ticker s) t
    → s.done ≡ true
    → t.goroutine ≢ returned
unfolding stop_ticker
stop_during_run s t r steps d h =
    let lost : IsLost (stop_ticker s) =
      rw (d, stop_ticker) (record { no_channel = refl; away = inl r }) in
    elim ((steps-IsLost steps lost).away) [ inl e ↦ cc | inr e ↦ cc ]
