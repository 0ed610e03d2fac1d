-- ===== src/Worker/Runner.antt =====
-- internal/worker/runner.go. `others` is what other transactions do to the queue while an event is
-- handled, and `Server` how the calls of the repository end.
pub mod Delay
pub mod Settles
use be_better.Prelude.{
  ℕ, zero, suc, ◌+◌, ◌*◌, ◌-◌, String, Bool, true, false, Option, none, some, List, [], ◌∷◌, ltb,
  leb, if◌then◌else◌, length,
}
use be_better.Model.{Uuid, Time, second, minute, hour}
use be_better.Exec.{Tx, pure, modify, ◌>>=◌, ◌>>◌}
use be_better.Worker.Queue.{OutboxEvent, OutboxRetry, Queue, Reply, claim, complete, retry}

-- The loop of `retryDelay`, with `left` rounds left.
unfoldable pub doubled : ℕ → ℕ → ℕ
doubled zero delay = delay
doubled (suc left) delay =
    let rest = doubled left (delay * 2) in if ltb delay hour then rest else delay

-- `retryDelay`
unfoldable pub retry_delay : ℕ → ℕ
retry_delay attempts =
    let delay = doubled (attempts - 1) (5 * second) in if ltb hour delay then hour else delay

pub record Runner : Type 0 where
  -- a handler answers whether it succeeded
  pub handlers : String → Option (OutboxEvent → Bool)
  pub batch_size : ℕ
  pub stale_after : ℕ
  pub max_attempts : ℕ
  -- the reading of the clock after an event was handled
  pub now : OutboxEvent → Time

-- `NewRunner`
abbrev pub new_runner : (String → Option (OutboxEvent → Bool)) → (OutboxEvent → Time) → Runner
new_runner handlers now = record {
  handlers = handlers;
  batch_size = 25;
  stale_after = 5 * minute;
  max_attempts = 10;
  now = now;
}

-- How the call of Claim ends in a round, and the one that settles an event.
pub record Server : Type 0 where
  pub on_claim : Reply
  pub on_event : OutboxEvent → Reply

module _ (runner : Runner) where
  abbrev pub unsupported : OutboxEvent → OutboxRetry
  unsupported event = record {
    event_id = event.id;
    lock_token = event.lock_token;
    available_at = runner.now event;
    last_error = "unsupported event type";
    terminal = true;
  }

  abbrev pub failed : OutboxEvent → OutboxRetry
  failed event = record {
    event_id = event.id;
    lock_token = event.lock_token;
    available_at = runner.now event + retry_delay event.attempts;
    last_error = "event handler failed";
    terminal = leb runner.max_attempts event.attempts;
  }

  -- The body of the loop of `RunOnce`.
  unfoldable pub run_event : Server → OutboxEvent → Tx Queue (Unit {0})
  run_event server event = elim (runner.handlers event.event_type) [
    | none ↦ retry (server.on_event event) (unsupported event)
    | some handle ↦
        if handle event
        then complete (server.on_event event) event.id event.lock_token
        else retry (server.on_event event) (failed event)
  ]

  unfoldable pub run_events :
      Server → (OutboxEvent → Queue → Queue) → List OutboxEvent → Tx Queue (Unit {0})
  run_events server others [] = pure tt
  run_events server others (event ∷ events) = do
    modify (others event)
    run_event server event
    run_events server others events

  -- `Runner.RunOnce`, with the lock token that it drew.
  unfoldable pub run_once :
      Server → (Uuid → Bool) → (OutboxEvent → Queue → Queue) → Uuid → Tx Queue ℕ
  run_once server skipped others token = do
    events ← claim server.on_claim skipped runner.batch_size token runner.stale_after
    run_events server others events
    pure (length events)
