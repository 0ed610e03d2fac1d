-- ===== src/Worker/Runner/Settles.antt =====
-- What a round of `Runner.RunOnce` of internal/worker/runner.go leaves in the queue.
use be_better.Prelude.{
  ℕ, ◌*◌, String, ◌≡◌, ◌≢◌, refl, ap, ◌∙◌, Bool, true, false, ◌&&◌, ◌||◌, Option, List, [], ◌∷◌,
  All, arith, none, some, ◌⊎◌, ◌==◌, if◌then◌else◌, Option-cases, Bool-cases, inl, inr, length,
  take,
}
use be_better.Model.{Uuid, Time, minute, Error, ok, err}
use be_better.Exec.{Tx, ◌>>=◌}
use be_better.Worker.Queue.{
  OutboxEvent, OutboxRetry, erased, QueueRow, Queue, is_processing, candidates, among,
  claimed_event, claim_row, map_rows, claimed_events, claim, holds, any_holds, update_held,
  processed_row, retried_row, complete, retry, update, claim_outbox_events, Reply, answered,
  refused, lost, called,
}
use be_better.Worker.Runner.{
  Runner, Server, new_runner, run_event, run_events, run_once, unsupported, failed,
}

abbrev pub locked_by : Uuid → QueueRow → Bool
locked_by token row = is_processing row.status && row.event.lock_token == token

abbrev pub named : Uuid → List OutboxEvent → Bool
named id [] = false
named id (e ∷ es) = e.id == id || named id es

-- The rows that a token locks are those of the events still to be handled.
abbrev Owned : Uuid → List OutboxEvent → List QueueRow → Type 0
Owned token events = All (λ row. locked_by token row ≡ true → named row.event.id events ≡ true)

abbrev DistinctIds : List OutboxEvent → Type 0
DistinctIds [] = Unit
DistinctIds (e ∷ es) = (named e.id es ≡ false) × DistinctIds es

-- The id is the primary key.
abbrev pub DistinctRows : List QueueRow → Type 0
DistinctRows [] = Unit
DistinctRows (r ∷ rs) = All (λ s. r.event.id ≢ s.event.id) rs × DistinctRows rs

abbrev Held : Uuid → List QueueRow → List OutboxEvent → Type 0
Held token rows = All (λ e. (e.lock_token ≡ token) × (any_holds e.id token rows ≡ true))

-- What a settled row becomes: it keeps its id and leaves processing.
abbrev Releases : (QueueRow → QueueRow) → Type 0
Releases f =
    (row : QueueRow) → ((f row).event.id ≡ row.event.id) × (is_processing (f row).status ≡ false)

erased-id : (e : OutboxEvent) → (erased e).id ≡ e.id
unfolding erased
erased-id e = ground arith

Owned-update :
    (token : Uuid) (e : OutboxEvent) (es : List OutboxEvent) (f : QueueRow → QueueRow)
    (rows : List QueueRow)
    → Releases f
    → Owned token (e ∷ es) rows
    → Owned token es (map_rows (update_held e.id token f) rows)
unfolding holds
Owned-update token e es f [] hf h = tt
Owned-update token e es f (r ∷ rs) hf h =
    let (same, free) = hf r in
    let first : locked_by token (update_held e.id token f r) ≡ true
        → named (update_held e.id token f r).event.id es ≡ true =
      λ k. ground (arith, h.0) in
    (first, Owned-update token e es f rs hf h.1)

any_holds-update :
    (token id other : Uuid) (f : QueueRow → QueueRow) (rows : List QueueRow)
    → Releases f
    → other ≢ id
    → any_holds other token (map_rows (update_held id token f) rows) ≡ any_holds other token rows
unfolding holds
any_holds-update token id other f [] hf h = refl
any_holds-update token id other f (r ∷ rs) hf h =
    let (same, free) = hf r in ground (arith, same, any_holds-update token id other f rs hf h)

Held-update :
    (token id : Uuid) (f : QueueRow → QueueRow) (rows : List QueueRow) (es : List OutboxEvent)
    → Releases f
    → named id es ≡ false
    → Held token rows es
    → Held token (map_rows (update_held id token f) rows) es
Held-update token id f rows [] hf hn h = tt
Held-update token id f rows (e ∷ es) hf hn h =
    let apart : e.id ≢ id = ground arith in
    let (mine, there) = h.0 in
    (
      (mine, any_holds-update token id e.id f rows hf apart ∙ there),
      Held-update token id f rows es hf (ground arith) h.1,
    )

processed_row-Releases : Releases processed_row
processed_row-Releases row = (erased-id row.event, refl)

retried_row-Releases : (r : OutboxRetry) (now : Time) → Releases (retried_row r now)
retried_row-Releases r now row = elim (Bool-cases r.terminal) [
  | inl dead ↦ rw dead (erased-id row.event, refl)
  | inr again ↦ rw again (refl, refl)
]

-- The error of a call that was not answered.
abbrev pub error_of : Reply → Option Error
error_of answered = none
error_of (refused e) = some e
error_of (lost e) = some e

called-answered :
    {A : Type 0} (reply : Reply) (statement : Tx Queue A) (q : Queue)
    → error_of reply ≡ none
    → called reply statement q ≡ statement q
called-answered answered statement q h = refl
called-answered (refused e) statement q h = absurd (cc h)
called-answered (lost e) statement q h = absurd (cc h)

called-failed :
    {A : Type 0} (reply : Reply) (statement : Tx Queue A) (q : Queue) (e : Error)
    → error_of reply ≡ some e
    → (t : Queue) × (called reply statement q ≡ (err e, t))
called-failed answered statement q e h = absurd (cc h)
called-failed (refused x) statement q e h = (q, cc h)
called-failed (lost x) statement q e h = ((statement q).1, cc h)

module _ (runner : Runner) (server : Server) where
  -- The update of an event's row that its handling asks for.
  abbrev settlement : OutboxEvent → Time → Option (OutboxEvent → Bool) → QueueRow → QueueRow
  settlement e now none = retried_row (unsupported runner e) now
  settlement e now (some handle) =
      if handle e then processed_row else retried_row (failed runner e) now

  settlement-Releases :
      (e : OutboxEvent) (now : Time) (handler : Option (OutboxEvent → Bool))
      → Releases (settlement e now handler)
  settlement-Releases e now none row = retried_row-Releases (unsupported runner e) now row
  settlement-Releases e now (some handle) row = elim (Bool-cases (handle e)) [
    | inl good ↦ simp good (processed_row-Releases row)
    | inr bad ↦ simp bad (retried_row-Releases (failed runner e) now row)
  ]

  run_event-called :
      (e : OutboxEvent) (q : Queue)
      → run_event runner server e q
        ≡ called
            (server.on_event e)
            (update e.id e.lock_token (settlement e q.clock (runner.handlers e.event_type)))
            q
  unfolding run_event complete retry
  run_event-called e q = elim (Option-cases (runner.handlers e.event_type)) [
    | inl none' ↦ ground (arith, none')
    | inr (handle, some') ↦ elim (Bool-cases (handle e)) [
      | inl good ↦ ground (arith, some', good)
      | inr bad ↦ ground (arith, some', bad)
    ]
  ]

  -- How the loop ends: every event released, or at the first call that was not answered.
  data Ended (token : Uuid) (es : List OutboxEvent) (q : Queue) : Type 0 where
    released :
        (t : Queue)
        → run_events runner server (λ e s. s) es q ≡ (ok tt, t)
        → All (λ row. locked_by token row ≡ false) t.rows
        → Ended token es q
    stopped :
        (t : Queue) (event : OutboxEvent) (error : Error)
        → run_events runner server (λ e s. s) es q ≡ (err error, t)
        → event.lock_token ≡ token
        → error_of (server.on_event event) ≡ some error
        → Ended token es q

  unowned :
      (token : Uuid) (rows : List QueueRow)
      → Owned token [] rows
      → All (λ row. locked_by token row ≡ false) rows
  unowned token [] h = tt
  unowned token (r ∷ rs) h = (ground (arith, h.0), unowned token rs h.1)

  Ended-cons :
      (token : Uuid) (e : OutboxEvent) (es : List OutboxEvent) (q q' : Queue)
      → run_event runner server e q ≡ (ok tt, q')
      → Ended token es q'
      → Ended token (e ∷ es) q
  unfolding run_events ◌>>=◌
  Ended-cons token e es q q' step (released t run free) = released t (rw step run) free
  Ended-cons token e es q q' step (stopped t event error run mine failure) =
      stopped t event error (rw step run) mine failure

  run_events-Ended :
      (token : Uuid) (es : List OutboxEvent) (q : Queue)
      → DistinctIds es
      → Held token q.rows es
      → Owned token es q.rows
      → Ended token es q
  unfolding run_events ◌>>=◌
  run_events-Ended token [] q hd hh ho = released q refl (unowned token q.rows ho)
  run_events-Ended token (e ∷ es) q hd hh ho = elim (Option-cases (error_of (server.on_event e))) [
    | inl answer ↦
        let (mine, there) = hh.0 in
        let f = settlement e q.clock (runner.handlers e.event_type) in
        let hf = settlement-Releases e q.clock (runner.handlers e.event_type) in
        let q' : Queue = record q { rows = map_rows (update_held e.id token f) q.rows } in
        let step : run_event runner server e q ≡ (ok tt, q') =
          run_event-called e q
          ∙ called-answered (server.on_event e) (update e.id e.lock_token f) q answer
          ∙ ap (λ k. update e.id k f q) mine
          ∙ rw there refl in
        Ended-cons token e es q q' step (
          run_events-Ended token es q' hd.1 (Held-update token e.id f q.rows es hf hd.0 hh.1)
            (Owned-update token e es f q.rows hf ho))
    | inr (x, failure) ↦
        let (t, refused') =
          called-failed (server.on_event e)
            (update e.id e.lock_token (settlement e q.clock (runner.handlers e.event_type))) q x
            failure in
        let step = run_event-called e q ∙ refused' in stopped t e x (rw step refl) hh.0.0 failure
  ]

Owned-more :
    (token : Uuid) (e : OutboxEvent) (es : List OutboxEvent) (rows : List QueueRow)
    → Owned token es rows
    → Owned token (e ∷ es) rows
Owned-more token e es [] h = tt
Owned-more token e es (r ∷ rs) h = (λ k. ground (arith, h.0), Owned-more token e es rs h.1)

Owned-cons :
    (token : Uuid) (b : Bool) (e : OutboxEvent) (es : List OutboxEvent) (rows : List QueueRow)
    → Owned token es rows
    → Owned token (if b then e ∷ es else es) rows
Owned-cons token true e es rows h = Owned-more token e es rows h
Owned-cons token false e es rows h = h

-- The events that a claim returns.
module _ (token : Uuid) (now : ℕ) (chosen : List QueueRow) where
  named-claimed :
      (id : Uuid) (rows : List QueueRow)
      → All (λ s. id ≢ s.event.id) rows
      → named id (claimed_events token chosen rows) ≡ false
  named-claimed id [] h = refl
  named-claimed id (r ∷ rs) h = ground (arith, named-claimed id rs h.1)

  claimed-DistinctIds :
      (rows : List QueueRow) → DistinctRows rows → DistinctIds (claimed_events token chosen rows)
  claimed-DistinctIds [] h = tt
  claimed-DistinctIds (r ∷ rs) h =
      let first = named-claimed r.event.id rs h.0 in
      let rest = claimed-DistinctIds rs h.1 in ground arith

  Held-more :
      (rows : List QueueRow) (r : QueueRow) (es : List OutboxEvent)
      → Held token rows es
      → Held token (r ∷ rows) es
  Held-more rows r [] h = tt
  Held-more rows r (e ∷ es) h = ((h.0.0, ground (arith, h.0.1)), Held-more rows r es h.1)

  claimed-Held :
      (rows : List QueueRow)
      → Held token (map_rows (claim_row token now chosen) rows) (claimed_events token chosen rows)
  unfolding holds
  claimed-Held [] = tt
  claimed-Held (r ∷ rs) =
      let rest =
        Held-more (map_rows (claim_row token now chosen) rs) (claim_row token now chosen r) _
          (claimed-Held rs) in
      ground arith

  -- With a fresh token, the claimed rows are the ones it locks.
  claimed-Owned :
      (rows : List QueueRow)
      → All (λ row. locked_by token row ≡ false) rows
      → Owned token (claimed_events token chosen rows) (map_rows (claim_row token now chosen) rows)
  claimed-Owned [] h = tt
  claimed-Owned (r ∷ rs) h = (
    λ k. ground (arith, h.0),
    Owned-cons token (among r.event.id chosen) (claimed_event token r.event)
        (claimed_events token chosen rs) (map_rows (claim_row token now chosen) rs)
        (claimed-Owned rs h.1),
  )

module _ (handlers : String → Option (OutboxEvent → Bool)) (clock : OutboxEvent → Time) where
  -- In a queue with unique event ids where no row is locked by the token that was drawn, and with no
  -- other writer meanwhile, a round ends in one of two ways, whatever the handlers answer. It returns
  -- a count, and no event is left locked by the token. Or it returns an error, and this is the error
  -- of its call of Claim, or of a call of Complete or Retry for an event with the token, that was
  -- not answered; so where all are answered, it returns a count.
  pub run_once-settles :
      (server : Server) (skipped : Uuid → Bool) (token : Uuid) (q : Queue)
      → DistinctRows q.rows
      → All (λ row. locked_by token row ≡ false) q.rows
      → ((n : ℕ) × (t : Queue) × (run_once
              (new_runner handlers clock)
              server
              skipped
              (λ e s. s)
              token
              q
            ≡ (ok n, t))
          × All (λ row. locked_by token row ≡ false) t.rows)
        ⊎ ((error : Error) × (t : Queue) × (run_once
                (new_runner handlers clock)
                server
                skipped
                (λ e s. s)
                token
                q
              ≡ (err error, t))
            × ((error_of server.on_claim ≡ some error)
                ⊎ ((event : OutboxEvent) × (event.lock_token ≡ token)
                    × (error_of (server.on_event event) ≡ some error))))
  unfolding run_once claim ◌>>=◌
  run_once-settles server skipped token q distinct fresh =
      let runner = new_runner handlers clock in
      let chosen = take 25 (candidates skipped q.clock (5 * minute) q.rows) in
      let events = claimed_events token chosen q.rows in
      let claiming = claim_outbox_events skipped 25 token (5 * minute) in
      elim (Option-cases (error_of server.on_claim)) [
        | inl answer ↦
            let claimed = called-answered server.on_claim claiming q answer in
            elim (run_events-Ended runner server token events
              (record q { rows = map_rows (claim_row token q.clock chosen) q.rows })
              (claimed-DistinctIds token q.clock chosen q.rows distinct)
              (claimed-Held token q.clock chosen q.rows)
              (claimed-Owned token q.clock chosen q.rows fresh)) [
                | released t run free ↦ inl (length events, t, rw (claimed, run) refl, free)
                | stopped t event error run mine failure ↦
                    inr (error, t, rw (claimed, run) refl, inr (event, mine, failure))
              ]
        | inr (error, failure) ↦
            let (t, refused') = called-failed server.on_claim claiming q error failure in
            inr (error, t, rw refused' refl, inl failure)
      ]
