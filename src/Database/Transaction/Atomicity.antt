-- ===== src/Database/Transaction/Atomicity.antt =====
-- A user transaction is atomic, whatever the environment does in its rounds.
use be_better.Prelude.{
  ℕ, zero, suc, ◌≡◌, refl, Bool, true, false, Option, none, some, ◌==◌, Bool-cases, inl, inr,
}
use be_better.Model.{Uuid, Error, Result, ok, err, failure, is_nil}
use be_better.Exec.{Tx}
use be_better.Database.Transaction.{
  Attempt, Commit, committed, aborted, lost, retryable, finish, after_attempt, run_attempt,
  attempts_from, with_user,
}

-- The states that a run passes through while its own transaction has written nothing: only the
-- transactions of others move it.
pub data Waits {S : Type 0} (env : ℕ → Attempt S) (s : S) : S → Type 0 where
  start : Waits env s s
  wait : {t : S} (n : ℕ) → Waits env s t → Waits env s ((env n).others t)

-- How a run of `operation` from `s` may end, with a result and a state.
pub data Outcome {S A : Type 0} (env : ℕ → Attempt S) (operation : ℕ → Tx S A) (s : S)
    : Result A → S → Type 0 where
  -- the whole effect of one run of the operation, whose value is returned
  applied :
      {b s' : S} {a : A} (n : ℕ)
      → Waits env s b
      → operation n b ≡ (ok a, s')
      → Outcome env operation s (ok a) s'
  -- an error, and no effect
  unchanged : {s' : S} {e : Error} → Waits env s s' → Outcome env operation s (err e) s'
  -- the whole effect of one run of the operation, and its reply lost
  unacknowledged :
      {b s' : S} {a : A} (n : ℕ)
      → Waits env s b
      → operation n b ≡ (ok a, s')
      → Outcome env operation s (err failure) s'

module _ {S A : Type 0} (env : ℕ → Attempt S) (operation : ℕ → Tx S A) (s : S) where
  abbrev Ends : Result A × S → Type 0
  Ends (r, s') = Outcome env operation s r s'

  finish-Ends :
      (n : ℕ) (c : Commit) (b : S)
      → Waits env s b
      → (r : Result A × S) → operation n b ≡ r
      → Ends (finish c b r)
  finish-Ends n committed b w (ok a, s') e = applied n w e
  finish-Ends n committed b w (err x, s') e = unchanged w
  finish-Ends n (aborted x) b w (ok a, s') e = unchanged w
  finish-Ends n (aborted x) b w (err y, s') e = unchanged w
  finish-Ends n lost b w (ok a, s') e = unacknowledged n w e
  finish-Ends n lost b w (err x, s') e = unchanged w

  fault-Ends :
      (n : ℕ) (fault : Option Error) (c : Commit) (b : S)
      → Waits env s b
      → Ends (elim fault [ some e ↦ (err e, b) | none ↦ finish c b (operation n b) ])
  fault-Ends n (some e) c b w = unchanged w
  fault-Ends n none c b w = finish-Ends n c b w (operation n b) refl

  run_attempt-Ends :
      (n : ℕ) (context : Option Error) (t : Attempt S) (b : S)
      → t.set_context ≡ context
      → Waits env s b
      → Ends (run_attempt t (operation n) b)
  unfolding run_attempt
  run_attempt-Ends n (some e) t b h w = rw h (unchanged w)
  run_attempt-Ends n none t b h w = rw h (fault-Ends n t.fault t.commit b w)

  -- An error that is retried has left no trace.
  retryable-Waits :
      {e : Error} {s' : S}
      → Outcome env operation s (err e) s'
      → retryable e ≡ true
      → Waits env s s'
  unfolding retryable
  retryable-Waits (unchanged w) h = w
  retryable-Waits (unacknowledged n w o) h = cc

  sleep-Ends :
      (sleep : Option Error) (e : Error) (s1 : S) (again : S → Result A × S)
      → Waits env s s1
      → (Waits env s s1 → Ends (again s1))
      → Ends (elim sleep [ some e' ↦ (err e', s1) | none ↦ again s1 ])
  sleep-Ends (some e') e s1 again w next = unchanged w
  sleep-Ends none e s1 again w next = next w

  last-Ends :
      (last : Bool) (sleep : Option Error) (e : Error) (s1 : S) (again : S → Result A × S)
      → Outcome env operation s (err e) s1
      → retryable e ≡ true
      → (Waits env s s1 → Ends (again s1))
      → Ends (elim last [
        | true ↦ (err e, s1)
        | false ↦ elim sleep [ some e' ↦ (err e', s1) | none ↦ again s1 ]
      ])
  last-Ends true sleep e s1 again o h next = o
  last-Ends false sleep e s1 again o h next = sleep-Ends sleep e s1 again (retryable-Waits o h) next

  after_attempt-Ends :
      (sleep : Option Error) (last : Bool) (r : Result A × S) (again : S → Result A × S)
      → Ends r
      → ((s1 : S) → Waits env s s1 → Ends (again s1))
      → Ends (after_attempt sleep last r again)
  after_attempt-Ends sleep last (ok a, s1) again o next = o
  after_attempt-Ends sleep last (err e, s1) again o next = elim (Bool-cases (retryable e)) [
    | inl h ↦ rw (h, after_attempt) (last-Ends last sleep e s1 again o h (next s1))
    | inr h ↦ rw (h, after_attempt) o
  ]

  begin-Ends :
      (n : ℕ) (begin : Option Error) (t : Attempt S) (last : Bool) (b : S)
      (again : S → Result A × S)
      → Waits env s b
      → ((s1 : S) → Waits env s s1 → Ends (again s1))
      → Ends (elim begin [
        | some e ↦ (err e, b)
        | none ↦ after_attempt t.sleep last (run_attempt t (operation n) b) again
      ])
  begin-Ends n (some e) t last b again w next = unchanged w
  begin-Ends n none t last b again w next =
      after_attempt-Ends t.sleep last (run_attempt t (operation n) b) again
        (run_attempt-Ends n t.set_context t b refl w) next

  attempts_from-Ends :
      (left n : ℕ) (b : S) → Waits env s b → Ends (attempts_from left n env operation b)
  unfolding attempts_from
  attempts_from-Ends zero n b w = unchanged w
  attempts_from-Ends (suc left) n b w =
      begin-Ends n (env n).begin (env n) (left == 0) ((env n).others b)
        (λ s1. attempts_from left (suc n) env operation s1) (wait n w)
        (λ s1 w1. attempts_from-Ends left (suc n) s1 w1)

  -- Whatever fails in its rounds, `WithUser` ends in one of three ways: it returns a value, and
  -- that value and the final state are those of one whole run of the operation from a state that
  -- only other transactions made; it returns an error, and the state is one that only other
  -- transactions made; or the reply to a COMMIT was lost, and the state is that of one whole run.
  pub with_user-Outcome :
      (attempts : ℕ) (user : Uuid)
      → Outcome env operation s
          (with_user attempts env user operation s).0
          (with_user attempts env user operation s).1
  unfolding with_user
  with_user-Outcome attempts user = elim (Bool-cases (is_nil user)) [
    | inl h ↦ rw (h, with_user) (unchanged start)
    | inr h ↦ rw (h, with_user) (attempts_from-Ends attempts 0 s start)
  ]
