-- ===== src/Tests/Queues.antt =====
-- A queue of two events, one due and one dead.
use Prim.Native.Nat.{min}
use be_better.Prelude.{
  ℕ, ◌*◌, ◌-◌, ◌^◌, ◌≡◌, refl, String, Bool, true, false, some, Option, [], ◌∷◌, All, arith, none,
  ◌&&◌, not, ◌⊎◌, ◌==◌, if◌then◌else◌,
}
use be_better.Model.{Uuid, second, hour, empty, Error, failure, ok, err}
use be_better.Worker.Queue.{OutboxEvent, QueueRow, Status, Queue, answered, refused}
use be_better.Worker.Agent.{
  AgentRunProcessor, checked_run, handle_agent_event, handle_agent_event-terminal,
}
use be_better.Worker.Runner.{Server, failed, new_runner, run_once, retry_delay}
use be_better.Worker.Runner.Delay.{retry_delay-doubles}
use be_better.Worker.Runner.Settles.{locked_by, error_of, run_once-settles}

abbrev event : Uuid → OutboxEvent
event id = record {
  id = id;
  user_id = 1;
  event_type = "reminder.due";
  aggregate_type = "reminder";
  aggregate_id = 10;
  payload = empty;
  attempts = 0;
  lock_token = 0;
}

abbrev row : Uuid → Status → QueueRow
row id status = record {
  event = event id;
  status = status;
  available_at = 100;
  created_at = 90;
  locked_at = 0;
  last_error = "";
}

abbrev queue : Queue
queue = record { rows = row 1 Status.pending ∷ row 2 Status.dead ∷ []; clock = 1000 }

abbrev failing : String → Option (OutboxEvent → Bool)
failing type = some (λ e. false)

-- Claim is answered, and so is every call but that for the second event.
abbrev server : Server
server = record {
  on_claim = answered;
  on_event = λ e. if e.id == 2 then refused failure else answered;
}

run_once-settles_example :
    ((n : ℕ) × (t : Queue) × (run_once
          (new_runner failing (λ e. 2000))
          server
          (λ id. false)
          (λ e s. s)
          77
          queue
        ≡ (ok n, t))
      × All (λ r. locked_by 77 r ≡ false) t.rows)
    ⊎ ((error : Error) × (t : Queue) × (run_once
            (new_runner failing (λ e. 2000))
            server
            (λ id. false)
            (λ e s. s)
            77
            queue
          ≡ (err error, t))
        × ((error_of server.on_claim ≡ some error)
            ⊎ ((e : OutboxEvent) × (e.lock_token ≡ 77)
                × (error_of (server.on_event e) ≡ some error))))
run_once-settles_example =
    run_once-settles failing (λ e. 2000) server (λ id. false) 77 queue
      ((λ h. omega arith, tt), (tt, tt)) (refl, (refl, tt))

retry_delay-doubles_example : retry_delay 4 ≡ min hour (5 * second * 2 ^ (4 - 1))
retry_delay-doubles_example = retry_delay-doubles 4

abbrev processor : AgentRunProcessor
processor = record {
  run_id = λ payload. some 10;
  process = λ user run. false;
  fail = λ user run. true;
}

abbrev last_attempt : OutboxEvent
last_attempt = record (event 3) { aggregate_type = "agent_run"; attempts = 10 }

handle_agent_event-terminal_example :
    ((handle_agent_event processor last_attempt).marked_failed
      ≡ elim (checked_run processor last_attempt) [
        | none ↦ false
        | some run ↦
            not (processor.process 1 run)
            && (failed (new_runner failing (λ e. 2000)) last_attempt).terminal
            && processor.fail 1 run
      ])
    × ((handle_agent_event processor last_attempt).succeeded
        ≡ elim (checked_run processor last_attempt) [
          | none ↦ false
          | some run ↦ processor.process 1 run
        ])
handle_agent_event-terminal_example =
    handle_agent_event-terminal processor failing (λ e. 2000) last_attempt
