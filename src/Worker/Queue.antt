-- ===== src/Worker/Queue.antt =====
-- internal/postgres/outbox_repository.go: its three methods, with the claim, complete and retry
-- statements that they call, over dayorder.outbox_events. A row's lock token and lock time count only
-- while it is in processing.
use Prim.Native.Nat.{max}
use be_better.Prelude.{
  ℕ, ◌+◌, ◌*◌, String, Bool, true, false, not, ◌&&◌, ◌||◌, List, [], ◌∷◌, ltb, leb, ◌==◌,
  if◌then◌else◌, take, one_of,
}
use be_better.Model.{
  Uuid, Time, second, hour, RawMessage, document, object, end, Error, postgres, conflict, ok, err,
}
use be_better.Exec.{Tx}

pub record OutboxEvent : Type 0 where
  pub id : Uuid
  pub user_id : Uuid
  pub event_type : String
  pub aggregate_type : String
  pub aggregate_id : Uuid
  pub payload : RawMessage
  pub attempts : ℕ
  pub lock_token : Uuid

pub record OutboxRetry : Type 0 where
  pub event_id : Uuid
  pub lock_token : Uuid
  pub available_at : Time
  pub last_error : String
  pub terminal : Bool

pub data Status : Type 0 where
  pending : Status
  processing : Status
  processed : Status
  dead : Status

pub record QueueRow : Type 0 where
  pub event : OutboxEvent
  pub status : Status
  pub available_at : Time
  pub created_at : Time
  pub locked_at : Time
  pub last_error : String

-- The table, and the time of the statements that run on it.
pub record Queue : Type 0 where
  pub rows : List QueueRow
  pub clock : Time

abbrev pub is_processing : Status → Bool
is_processing Status.processing = true
is_processing _ = false

abbrev pub is_pending : Status → Bool
is_pending Status.pending = true
is_pending _ = false

-- Pending and due, or in processing for longer than `stale_after`.
unfoldable pub claimable : Time → ℕ → QueueRow → Bool
claimable now stale_after row =
    is_pending row.status && leb row.available_at now
    || is_processing row.status && ltb (row.locked_at + stale_after) now

-- `ORDER BY available_at, created_at, id`
abbrev pub before : QueueRow → QueueRow → Bool
before a b =
    ltb a.available_at b.available_at
    || a.available_at == b.available_at
      && (ltb a.created_at b.created_at
          || a.created_at == b.created_at && ltb a.event.id b.event.id)

abbrev pub insert_row : QueueRow → List QueueRow → List QueueRow
insert_row row [] = row ∷ []
insert_row row (r ∷ rs) =
    let rest = insert_row row rs in if before r row then r ∷ rest else row ∷ r ∷ rs

-- The claimable rows that no other transaction has locked, in order.
abbrev pub candidates : (Uuid → Bool) → Time → ℕ → List QueueRow → List QueueRow
candidates skipped now stale_after [] = []
candidates skipped now stale_after (r ∷ rs) =
    let rest = candidates skipped now stale_after rs in
    if claimable now stale_after r && not (skipped r.event.id) then insert_row r rest else rest

abbrev pub among : Uuid → List QueueRow → Bool
among id [] = false
among id (r ∷ rs) = r.event.id == id || among id rs

abbrev pub claimed_event : Uuid → OutboxEvent → OutboxEvent
claimed_event token event = record event { attempts = event.attempts + 1; lock_token = token }

abbrev pub claim_row : Uuid → Time → List QueueRow → QueueRow → QueueRow
claim_row token now chosen row =
    if among row.event.id chosen
    then record row {
      event = claimed_event token row.event;
      status = Status.processing;
      locked_at = now;
      last_error = "";
    }
    else row

abbrev pub map_rows : (QueueRow → QueueRow) → List QueueRow → List QueueRow
map_rows f [] = []
map_rows f (r ∷ rs) = f r ∷ map_rows f rs

-- `RETURNING`: the events of the updated rows.
abbrev pub claimed_events : Uuid → List QueueRow → List QueueRow → List OutboxEvent
claimed_events token chosen [] = []
claimed_events token chosen (r ∷ rs) =
    let rest = claimed_events token chosen rs in
    if among r.event.id chosen then claimed_event token r.event ∷ rest else rest

-- How the call of a statement ends: with its answer, without the statement, or after the statement
-- with its answer lost.
pub data Reply : Type 0 where
  answered : Reply
  refused : Error → Reply
  lost : Error → Reply

abbrev pub called : {A : Type 0} → Reply → Tx Queue A → Tx Queue A
called answered statement q = statement q
called (refused e) statement q = (err e, q)
called (lost e) statement q = (err e, (statement q).1)

-- dayorder.claim_outbox_events
abbrev pub claim_outbox_events : (Uuid → Bool) → ℕ → Uuid → ℕ → Tx Queue (List OutboxEvent)
claim_outbox_events skipped limit token stale_after q =
    if ltb limit 1 || ltb 100 limit || ltb stale_after (30 * second) || ltb hour stale_after
    then (err (postgres "22023"), q)
    else let chosen = take limit (candidates skipped q.clock stale_after q.rows) in
      (
        ok (claimed_events token chosen q.rows),
        record q { rows = map_rows (claim_row token q.clock chosen) q.rows },
      )

-- `OutboxRepository.Claim`; `skipped` are the rows that other transactions hold at that moment.
unfoldable pub claim : Reply → (Uuid → Bool) → ℕ → Uuid → ℕ → Tx Queue (List OutboxEvent)
claim reply skipped limit token stale_after =
    called reply (claim_outbox_events skipped limit token stale_after)

-- `WHERE id AND status = 'processing' AND lock_token`
unfoldable pub holds : Uuid → Uuid → QueueRow → Bool
holds id token row = row.event.id == id && is_processing row.status && row.event.lock_token == token

abbrev pub any_holds : Uuid → Uuid → List QueueRow → Bool
any_holds id token [] = false
any_holds id token (r ∷ rs) = holds id token r || any_holds id token rs

abbrev pub update_held : Uuid → Uuid → (QueueRow → QueueRow) → QueueRow → QueueRow
update_held id token f row = if holds id token row then f row else row

-- An UPDATE of the row that is held, and the error where there is none.
abbrev pub update : Uuid → Uuid → (QueueRow → QueueRow) → Tx Queue (Unit {0})
update id token f q =
    if any_holds id token q.rows
    then (ok tt, record q { rows = map_rows (update_held id token f) q.rows })
    else (err conflict, q)

-- A settled event of an email loses its payload, which holds a token.
unfoldable pub erased : OutboxEvent → OutboxEvent
erased event =
    if one_of ("email.verification.requested" ∷ "email.password_reset.requested" ∷ [])
      event.event_type
    then record event { payload = document (object end) }
    else event

abbrev pub processed_row : QueueRow → QueueRow
processed_row row = record row {
  event = erased row.event;
  status = Status.processed;
  last_error = "";
}

abbrev pub retried_row : OutboxRetry → Time → QueueRow → QueueRow
retried_row retry now row =
    if retry.terminal
    then record row {
      event = erased row.event;
      status = Status.dead;
      last_error = retry.last_error;
    }
    else record row {
      status = Status.pending;
      available_at = max retry.available_at now;
      last_error = retry.last_error;
    }

-- `OutboxRepository.Complete`
unfoldable pub complete : Reply → Uuid → Uuid → Tx Queue (Unit {0})
complete reply id token = called reply (update id token processed_row)

-- `OutboxRepository.Retry`
unfoldable pub retry : Reply → OutboxRetry → Tx Queue (Unit {0})
retry reply r = called reply (λ q. update r.event_id r.lock_token (retried_row r q.clock) q)
