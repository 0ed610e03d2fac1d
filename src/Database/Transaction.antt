-- ===== src/Database/Transaction.antt =====
-- internal/database/transaction.go. What the server, the network and other clients do in one round
-- of the retry loop is an `Attempt`; the loop takes one for every round, so a theorem over all of
-- them holds whatever the environment does.
pub mod Atomicity
use be_better.Prelude.{
  ℕ, zero, suc, ◌+◌, String, Bool, true, false, not, ◌||◌, Option, none, some, List, [], ◌∷◌, ◌==◌,
  ◌=ˢ◌, if◌then◌else◌,
}
use be_better.Model.{Uuid, is_nil, Error, postgres, failure, Result, ok, err}
use be_better.Exec.{Tx}

-- What a COMMIT does: it is applied; it is refused; or it is applied and the connection is lost
-- before the reply, which the client sees as an error that is no `*pgconn.PgError`.
pub data Commit : Type 0 where
  committed : Commit
  aborted : Error → Commit
  lost : Commit

pub record Attempt (S : Type 0) : Type 0 where
  -- transactions of others that commit before this one begins
  pub others : S → S
  pub begin : Option Error
  pub set_context : Option Error
  -- an error of the server in some statement of the operation
  pub fault : Option Error
  pub commit : Commit
  -- `transactor.sleep` after the round: an error where the context is cancelled
  pub sleep : Option Error

-- `retryableTransactionError`: serialization_failure and deadlock_detected
unfoldable pub retryable : Error → Bool
retryable (postgres code) = code =ˢ "40001" || code =ˢ "40P01"
retryable e = false

module _ {S A : Type 0} where
  -- The state after the transaction ends: an error rolls it back.
  abbrev pub finish : Commit → S → Result A × S → Result A × S
  finish c before (err e, s) = (err e, before)
  finish committed before (ok a, s) = (ok a, s)
  finish (aborted e) before (ok a, s) = (err e, before)
  finish lost before (ok a, s) = (err failure, s)

  -- From BEGIN to COMMIT or ROLLBACK.
  unfoldable pub run_attempt : Attempt S → Tx S A → S → Result A × S
  run_attempt t operation s = elim t.set_context [
    | some e ↦ (err e, s)
    | none ↦ elim t.fault [ some e ↦ (err e, s) | none ↦ finish t.commit s (operation s) ]
  ]

  -- `if !retryableTransactionError(err) || attempt == transactor.attempts { return err }`, then
  -- the sleep; `again` is the next round of the loop.
  abbrev after_attempt : Option Error → Bool → Result A × S → (S → Result A × S) → Result A × S
  after_attempt sleep last (ok a, s) again = (ok a, s)
  after_attempt sleep last (err e, s) again = elim (retryable e) [
    | false ↦ (err e, s)
    | true ↦ elim last [
      | true ↦ (err e, s)
      | false ↦ elim sleep [ some e' ↦ (err e', s) | none ↦ again s ]
    ]
  ]

  -- The loop of `WithUser`: `left` rounds are left, and the next is number `n`. The operation may
  -- read the clock and draw identifiers anew in each round, so it is one action for each.
  unfoldable pub attempts_from : ℕ → ℕ → (ℕ → Attempt S) → (ℕ → Tx S A) → S → Result A × S
  attempts_from zero n env operation s = (err failure, s)
  attempts_from (suc left) n env operation s =
      let t = env n in
      let s0 = t.others s in
      elim t.begin [
        | some e ↦ (err e, s0)
        | none ↦
            after_attempt t.sleep (left == 0) (run_attempt t (operation n) s0)
              (λ s1. attempts_from left (suc n) env operation s1)
      ]

  -- `Transactor.WithUser`, with the `attempts` of the Transactor (3 in `NewTransactor`).
  unfoldable pub with_user : ℕ → (ℕ → Attempt S) → Uuid → (ℕ → Tx S A) → S → Result A × S
  with_user attempts env user operation s = elim (is_nil user) [
    | true ↦ (err failure, s)
    | false ↦ attempts_from attempts 0 env operation s
  ]

-- `NewTransactor`
abbrev pub default_attempts : ℕ
default_attempts = 3
