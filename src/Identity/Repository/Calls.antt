-- ===== src/Identity/Repository/Calls.antt =====
-- What a call of internal/postgres/account_repository.go that returned a value did.
use be_better.Prelude.{ℕ, ◌≡◌, Option, none, some, ap}
use be_better.Model.{Error, Result, ok, err}
use be_better.Exec.{Tx}
use be_better.Database.Transaction.{Attempt, Commit, committed, aborted, lost, finish}
use be_better.Identity.Repository.{
  mapped, mapped_result, faulted, in_context, in_user_transaction, run_statement,
}

module _ {S A : Type 0} where
  mapped_result-ok :
      (r : Result A × S) {a : A} {t : S} → mapped_result r ≡ (ok a, t) → r ≡ (ok a, t)
  mapped_result-ok (ok a, s) h = h
  mapped_result-ok (err e, s) h = absurd (cc (ap (λ q. q.0) h))

  pub mapped-ok : (m : Tx S A) (s : S) {a : A} {t : S} → mapped m s ≡ (ok a, t) → m s ≡ (ok a, t)
  unfolding mapped
  mapped-ok m s h = mapped_result-ok (m s) h

  finish-ok :
      (c : Commit) (before : S) (r : Result A × S) {a : A} {t : S}
      → finish c before r ≡ (ok a, t)
      → r ≡ (ok a, t)
  finish-ok committed before (ok a, s) h = h
  finish-ok (aborted e) before (ok a, s) h = absurd (cc (ap (λ q. q.0) h))
  finish-ok lost before (ok a, s) h = absurd (cc (ap (λ q. q.0) h))
  finish-ok c before (err e, s) h = absurd (cc (ap (λ q. q.0) h))

  faulted-ok :
      (fault : Option Error) (m : Tx S A) (s : S) {a : A} {t : S}
      → faulted fault m s ≡ (ok a, t)
      → m s ≡ (ok a, t)
  faulted-ok none m s h = h
  faulted-ok (some e) m s h = absurd (cc (ap (λ q. q.0) h))

  in_context-ok :
      (context : Option Error) (m : Tx S A) (s : S) {a : A} {t : S}
      → in_context context m s ≡ (ok a, t)
      → m s ≡ (ok a, t)
  in_context-ok none m s h = h
  in_context-ok (some e) m s h = absurd (cc (ap (λ q. q.0) h))

  -- The operation ran once, on what the others had left, and was committed.
  pub in_user_transaction-ok :
      (e : Attempt S) (m : Tx S A) (s : S) {a : A} {t : S}
      → in_user_transaction e m s ≡ (ok a, t)
      → m (e.others s) ≡ (ok a, t)
  unfolding in_user_transaction
  in_user_transaction-ok e m s h =
      let before = e.others s in
      faulted-ok e.fault m before (
        finish-ok e.commit before _
          (in_context-ok e.set_context _ before (in_context-ok e.begin _ before h)))

  pub run_statement-ok :
      (e : Attempt S) (m : Tx S A) (s : S) {a : A} {t : S}
      → run_statement e m s ≡ (ok a, t)
      → m (e.others s) ≡ (ok a, t)
  unfolding run_statement
  run_statement-ok e m s h =
      let before = e.others s in
      mapped-ok m before (faulted-ok e.fault _ before (finish-ok e.commit before _ h))

-- Calls that the server answers without an error, and no transaction of others between them.
abbrev pub calm : {S : Type 0} → ℕ → Attempt S
calm n = record {
  others = λ s. s;
  begin = none;
  set_context = none;
  fault = none;
  commit = committed;
  sleep = none;
}
