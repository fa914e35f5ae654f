-- ===== src/Notifications/Worker.antt =====
-- backend/afal/notifications.ts: `SettlementNotificationOutboxWorker`, what its calls do to its status.
-- The timer is set exactly while it is running; a call finds no other tick in flight.
use agent_financial_action_l.Base.{
  ℕ, Bool, true, false, Option, none, some, ltb, if◌then◌else◌, ◌or_else◌,
}
use agent_financial_action_l.Base.Action.{Error, Result, ok, err}
use agent_financial_action_l.Types.{Timestamp}

-- SettlementNotificationOutboxWorkerStatus; an error is kept as a value in place of its message.
pub record WorkerStatus : Type 0 where
  pub running : Bool
  pub interval_ms : ℕ
  pub last_run_at : Option Timestamp
  pub last_result : Option ℕ
  pub last_error : Option Error

-- Math.max(10, options.intervalMs ?? 1_000)
abbrev clamped : ℕ → ℕ
clamped n = if ltb n 10 then 10 else n

abbrev pub new_worker : (interval_ms : Option ℕ) → WorkerStatus
new_worker interval_ms = record {
  running = false;
  interval_ms = clamped (interval_ms or_else 1000);
  last_run_at = none;
  last_result = none;
  last_error = none;
}

abbrev pub start : WorkerStatus → WorkerStatus
start w = record w { running = true }

abbrev pub stop : WorkerStatus → WorkerStatus
stop w = record w { running = false }

-- What a tick at `now` writes before it redelivers, and after what that gave.
abbrev pub tick_started : Timestamp → WorkerStatus → WorkerStatus
tick_started now w = record w { last_run_at = some now }

abbrev pub tick_ended : Result ℕ → WorkerStatus → WorkerStatus
tick_ended (ok result) w = record w { last_result = some result; last_error = none }
tick_ended (err error) w = record w { last_error = some error }
