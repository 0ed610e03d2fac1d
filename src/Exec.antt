-- ===== src/Exec.antt =====
-- Work inside a database transaction: an action reads and writes the state that the transaction
-- sees, and returns a value or an error. What it wrote before an error stays in its state; the
-- transaction's rollback is in Database.Transaction.
pub mod Ensures
use be_better.Prelude.{◌≡◌, refl, ap, ◌∙◌, Bool, true, false}
use be_better.Model.{Error, Result, ok, err}

abbrev pub Tx {ℓ} : Type 0 → Type ℓ → Type ℓ
Tx S A = S → Result A × S

unfoldable pub pure {ℓ} : {S : Type 0} {A : Type ℓ} → A → Tx S A
pure a s = (ok a, s)

unfoldable pub fail {ℓ} : {S : Type 0} {A : Type ℓ} → Error → Tx S A
fail e s = (err e, s)

unfoldable pub lift {ℓ} : {S : Type 0} {A : Type ℓ} → Result A → Tx S A
lift r s = (r, s)

unfoldable pub gets {ℓ} : {S : Type 0} {A : Type ℓ} → (S → A) → Tx S A
gets f s = (ok (f s), s)

unfoldable pub modify : {S : Type 0} → (S → S) → Tx S (Unit {0})
modify f s = (ok tt, f s)

-- `if test { return err }`
unfoldable pub fail_if : {S : Type 0} → Bool → Error → Tx S (Unit {0})
fail_if true e s = (err e, s)
fail_if false e s = (ok tt, s)

abbrev pub continue {ℓ κ} :
    {S : Type 0} {A : Type ℓ} {B : Type κ} → Result A × S → (A → Tx S B) → Result B × S
continue (ok a, s) f = f a s
continue (err e, s) f = (err e, s)

infixl 5 ◌>>=◌ ◌>>◌
-- Opening this opens the other ways to build an action too.
unfoldable pub ◌>>=◌ {ℓ κ} : {S : Type 0} {A : Type ℓ} {B : Type κ} → Tx S A → (A → Tx S B) → Tx S B
unfolding pure fail lift gets modify fail_if
◌>>=◌ m f s = continue (m s) f

abbrev pub ◌>>◌ {ℓ} : {S : Type 0} {B : Type ℓ} → Tx S (Unit {0}) → Tx S B → Tx S B
m >> k = m >>= λ _. k

-- A chain that returned a value: its first action did, and the rest did from there.
pub >>=-eq-ok {ℓ κ} :
    {S : Type 0} {A : Type ℓ} {B : Type κ} (m : Tx S A) (f : A → Tx S B) {b : B} (s : S) {t : S}
    → (m >>= f) s ≡ (ok b, t)
    → (a : A) × (s1 : S) × (m s ≡ (ok a, s1)) × (f a s1 ≡ (ok b, t))
unfolding ◌>>=◌
>>=-eq-ok {S = S} {A = A} m f {b = b} s {t = t} h = go (m s) refl h
  where
    go :
        (r : Result A × S)
        → m s ≡ r
        → continue r f ≡ (ok b, t)
        → (a : A) × (s1 : S) × (m s ≡ (ok a, s1)) × (f a s1 ≡ (ok b, t))
    go (ok a, s1) e k = (a, s1, e, k)
    go (err x, s1) e k = absurd (cc (ap (λ q. q.0) k))

-- A chain that returned a value passed its guard.
pub fail_if-then :
    {S A : Type 0} (b : Bool) (e : Error) (f : Unit {0} → Tx S A) (s : S) {a : A} {t : S}
    → (fail_if b e >>= f) s ≡ (ok a, t)
    → f tt s ≡ (ok a, t)
unfolding ◌>>=◌
fail_if-then true e f s h = absurd (cc (ap (λ q. q.0) h))
fail_if-then false e f s h = h

pub lift-then :
    {S A B : Type 0} (r : Result A) (f : A → Tx S B) (s : S) {b : B} {t : S}
    → (lift r >>= f) s ≡ (ok b, t)
    → (a : A) × (r ≡ ok a) × (f a s ≡ (ok b, t))
unfolding ◌>>=◌
lift-then (ok a) f s h = (a, refl, h)
lift-then (err e) f s h = absurd (cc (ap (λ q. q.0) h))

-- A step whose value is only shaped by the last.
pub shaped-ok {ℓ κ} :
    {S : Type 0} {A : Type ℓ} {B : Type κ} (m : Tx S A) (g : A → B) (s : S) {b : B} {t : S}
    → (m >>= λ a. pure (g a)) s ≡ (ok b, t)
    → (a : A) × (m s ≡ (ok a, t)) × (b ≡ g a)
unfolding pure
shaped-ok {S = S} {B = B} m g s {b = b} {t = t} h =
    let (a, s1, e, k) = >>=-eq-ok m (λ a. pure (g a)) s h in
    let value : ok (g a) ≡ ok b = ap (λ (q : Result B × S). q.0) k in
    (a, e ∙ ap (λ (q : Result B × S). (ok a, q.1)) k, cc value)

-- A chain that begins with a read.
pub reads-ok :
    {S A B : Type 0} (q : S → Result A) (f : A → Tx S B) (s : S) {b : B} {t : S}
    → ((λ u. (q u, u)) >>= f) s ≡ (ok b, t)
    → (a : A) × (q s ≡ ok a) × (f a s ≡ (ok b, t))
unfolding ◌>>=◌
reads-ok q f s h = lift-then (q s) f s h
