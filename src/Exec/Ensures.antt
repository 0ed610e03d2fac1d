-- ===== src/Exec/Ensures.antt =====
-- What an action that returns a value ensures, with one rule for each way to build an action.
use be_better.Prelude.{◌≡◌, ap, subst, Bool, true, false}
use be_better.Model.{Error, Result, ok, err}
use be_better.Exec.{Tx, pure, fail_if, lift, ◌>>=◌, >>=-eq-ok}

-- From a state with `Pre`, if `m` returns `a` and ends in `t`, then `Post a t`.
pub record Ensures {S A : Type 0} (Pre : S → Type 0) (m : Tx S A) (Post : A → S → Type 0)
    : Type 0 where
  pub at : (s : S) → Pre s → (a : A) (t : S) → m s ≡ (ok a, t) → Post a t

-- `m` leaves `P` as it found it.
abbrev pub Keeps : {S A : Type 0} → (S → Type 0) → Tx S A → Type 0
Keeps P m = Ensures P m (λ _. P)

abbrev pub Holds : {S A : Type 0} → (A → S → Type 0) → Result A × S → Type 0
Holds Post (ok a, s) = Post a s
Holds Post (err e, s) = Unit

module _ {S : Type 0} where
  pub Ensures-bind :
      {A B : Type 0} {Pre : S → Type 0} {Post : B → S → Type 0} (Mid : A → S → Type 0) (m : Tx S A)
      (f : A → Tx S B)
      → Ensures Pre m Mid
      → ((a : A) → Ensures (Mid a) (f a) Post)
      → Ensures Pre (m >>= f) Post
  Ensures-bind Mid m f hm hf = record {
    at =
        λ s p b t e. let (a, s1, g, h) = >>=-eq-ok m f s e in (hf a).at s1 (hm.at s p a s1 g) b t h;
  }

  -- A first action that keeps the precondition.
  pub Ensures-bind_keeps :
      {A B : Type 0} {P : S → Type 0} {Post : B → S → Type 0} (m : Tx S A) (f : A → Tx S B)
      → Keeps P m
      → ((a : A) → Ensures P (f a) Post)
      → Ensures P (m >>= f) Post
  Ensures-bind_keeps {P = P} m f = Ensures-bind (λ _. P) m f

  -- A first action of which nothing is known.
  pub Ensures-after :
      {A B : Type 0} {Post : B → S → Type 0} (m : Tx S A) (f : A → Tx S B)
      → ((a : A) → Ensures (λ s. Unit {0}) (f a) Post)
      → Ensures (λ s. Unit {0}) (m >>= f) Post
  Ensures-after m f hf = Ensures-bind (λ a s. Unit {0}) m f (record { at = λ s p a t e. tt }) hf

  pub Ensures-pure :
      {A : Type 0} {Pre : S → Type 0} {Post : A → S → Type 0} (a : A)
      → ((s : S) → Pre s → Post a s)
      → Ensures Pre (pure a) Post
  unfolding pure
  Ensures-pure {A = A} {Post = Post} a h = record {
    at = λ s p b t e. subst (λ (q : Result A × S). Holds Post q) e (h s p);
  }

  pub Keeps-fail_if : {P : S → Type 0} (b : Bool) (e : Error) → Keeps P (fail_if b e)
  unfolding fail_if
  Keeps-fail_if true e = record { at = λ s p a t h. absurd (cc (ap (λ r. r.0) h)) }
  Keeps-fail_if {P = P} false e = record { at = λ s p a t h. subst P (ap (λ r. r.1) h) p }

  pub Keeps-lift : {A : Type 0} {P : S → Type 0} (r : Result A) → Keeps P (lift r)
  unfolding lift
  Keeps-lift {P = P} r = record { at = λ s p a t h. subst P (ap (λ r. r.1) h) p }

pub ruleset keeps_rules = (Ensures-bind_keeps, Keeps-fail_if, Keeps-lift)
