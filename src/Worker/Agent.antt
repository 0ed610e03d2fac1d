-- ===== src/Worker/Agent.antt =====
-- internal/worker/agent.go. `process` and `fail` answer whether the processor's `Process` and `Fail`
-- succeeded; `run_id` reads the field runId of a payload, where it is a JSON document with a UUID.
use be_better.Prelude.{
  ℕ, ◌≡◌, String, ◌=ˢ◌, Bool, true, false, not, ◌&&◌, ◌||◌, Option, none, some, arith, ltb, ◌==◌,
  if◌then◌else◌,
}
use be_better.Model.{Uuid, Time, is_nil, RawMessage}
use be_better.Worker.Queue.{OutboxEvent}
use be_better.Worker.Runner.{new_runner, failed}

-- `agentTerminalAttempt`
abbrev pub agent_terminal_attempt : ℕ
agent_terminal_attempt = 10

pub record AgentRunProcessor : Type 0 where
  pub run_id : RawMessage → Option Uuid
  pub process : Uuid → Uuid → Bool
  pub fail : Uuid → Uuid → Bool

-- What a call of the handler did: whether it returned nil, and whether a call of `Fail` succeeded.
pub record Handled : Type 0 where
  pub succeeded : Bool
  pub marked_failed : Bool

abbrev refused : Handled
refused = record { succeeded = false; marked_failed = false }

-- The part of `Handle` after the checks. An error of `Fail` is joined to that of
-- `Process`, so the result does not depend on it.
unfoldable pub handle_run : AgentRunProcessor → OutboxEvent → Uuid → Handled
handle_run processor event run =
    if processor.process event.user_id run
    then record { succeeded = true; marked_failed = false }
    else if ltb event.attempts agent_terminal_attempt
    then refused
    else record { succeeded = false; marked_failed = processor.fail event.user_id run }

-- The checks of `Handle`: the run of a valid event.
unfoldable pub checked_run : AgentRunProcessor → OutboxEvent → Option Uuid
checked_run processor event =
    if is_nil event.user_id
      || not (event.aggregate_type =ˢ "agent_run")
      || is_nil event.aggregate_id
    then none
    else elim (processor.run_id event.payload) [
      | none ↦ none
      | some run ↦ if is_nil run || not (run == event.aggregate_id) then none else some run
    ]

-- `AgentHandler.Handle`
unfoldable pub handle_agent_event : AgentRunProcessor → OutboxEvent → Handled
handle_agent_event processor event = elim (checked_run processor event) [
  | none ↦ refused
  | some run ↦ handle_run processor event run
]

-- A call of `Fail` succeeds in the handler exactly where the event is valid, `Process` failed, the retry
-- that the runner asks for after this failure is terminal, and `Fail` answers without an error. The
-- handler returns nil exactly where the event is valid and `Process` succeeded, whatever `Fail`
-- answers.
pub handle_agent_event-terminal :
    (processor : AgentRunProcessor) (handlers : String → Option (OutboxEvent → Bool))
    (now : OutboxEvent → Time) (event : OutboxEvent)
    → ((handle_agent_event processor event).marked_failed ≡ elim (checked_run processor event) [
      | none ↦ false
      | some run ↦
          not (processor.process event.user_id run)
          && (failed (new_runner handlers now) event).terminal
          && processor.fail event.user_id run
    ])
      × ((handle_agent_event processor event).succeeded ≡ elim (checked_run processor event) [
        | none ↦ false
        | some run ↦ processor.process event.user_id run
      ])
unfolding handle_agent_event handle_run
handle_agent_event-terminal processor handlers now event = (ground arith, ground arith)
