-- ===== src/Identity/Reads.antt =====
-- The state after `Login` of internal/service/session.go has read the throttles.
use be_better.Prelude.{
  ℕ, suc, ◌≡◌, refl, sym, ap, subst, inl, inr, Option, none, some, List, [], ◌∷◌, find_first,
  Option-cases,
}
use be_better.Model.{Time, Error, Result, ok, err}
use be_better.Exec.{Tx, continue}
use be_better.Database.Transaction.{Attempt, Commit, committed, aborted, lost, finish}
use be_better.Identity.Store.{Dimension, IdentityDb}
use be_better.Identity.Store.Sessions.{same_key, throttle_status}
use be_better.Identity.Repository.{mapped, faulted, run_statement, login_throttle_status}
use be_better.Identity.Sessions.{Env, status_block, read_throttles}

finish-same :
    {A : Type 0} (c : Commit) (s : IdentityDb) (r : Result A × IdentityDb)
    → r.1 ≡ s
    → (finish c s r).1 ≡ s
finish-same committed s (ok a, t) h = h
finish-same (aborted e) s (ok a, t) h = refl
finish-same lost s (ok a, t) h = h
finish-same c s (err e, t) h = refl

throttle_status-same :
    (fault : Option Error) (d : Dimension) (s : IdentityDb)
    → (faulted fault (mapped (throttle_status d)) s).1 ≡ s
unfolding mapped throttle_status
throttle_status-same (some e) d s = refl
throttle_status-same none d s = elim (Option-cases (find_first (same_key d) s.throttles)) [
  | inl e ↦ rw (throttle_status, e) refl
  | inr (row, e) ↦ rw (throttle_status, e) refl
]

-- Reading a throttle leaves what the others had left.
login_throttle_status-same :
    (e : Attempt IdentityDb) (d : Dimension) (s : IdentityDb)
    → (login_throttle_status e d s).1 ≡ e.others s
unfolding login_throttle_status run_statement
login_throttle_status-same e d s =
    finish-same e.commit (e.others s) _ (throttle_status-same e.fault d (e.others s))

continue-ok :
    {A B : Type 0} (q : Result A × IdentityDb) (f : A → Tx IdentityDb B) {b : B} {t : IdentityDb}
    → continue q f ≡ (ok b, t)
    → (a : A) × (f a q.1 ≡ (ok b, t))
continue-ok (ok a, s) f h = (a, h)
continue-ok (err e, s) f h = absurd (cc (ap (λ x. x.0) h))

read_throttles-step :
    (env : Env) (n : ℕ) (now retry_at : Time) (d : Dimension) (ds : List Dimension) (s : IdentityDb)
    {a : Time} {t : IdentityDb}
    → read_throttles env n now retry_at (d ∷ ds) s ≡ (ok a, t)
    → (later : Time) × (read_throttles env (suc n) now later ds ((env n).others s) ≡ (ok a, t))
unfolding read_throttles
read_throttles-step env n now retry_at d ds s {a = a} {t = t} h =
    let q = login_throttle_status (env n) d s in
    let (later, next) =
      continue-ok (status_block now retry_at q.0, q.1)
        (λ later. read_throttles env (suc n) now later ds) h in
    (
      later,
      subst (λ u. read_throttles env (suc n) now later ds u ≡ (ok a, t))
          (login_throttle_status-same (env n) d s) next,
    )

-- After the two throttles were read, the state is as other transactions left it.
pub read_throttles-same :
    (env : Env) (n : ℕ) (now retry_at : Time) (d e : Dimension) (s : IdentityDb) {a : Time}
    {t : IdentityDb}
    → read_throttles env n now retry_at (d ∷ e ∷ []) s ≡ (ok a, t)
    → t ≡ (env (suc n)).others ((env n).others s)
unfolding read_throttles
read_throttles-same env n now retry_at d e s h =
    let (later, next) = read_throttles-step env n now retry_at d (e ∷ []) s h in
    let (last, done) = read_throttles-step env (suc n) now later e [] ((env n).others s) next in
    sym (ap (λ q. q.1) done)
