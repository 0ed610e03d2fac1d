-- ===== src/Prelude/Tables.antt =====
-- Tables as lists of rows: the rows that a WHERE clause selects.
use mathlib.Core.Path.{◌≡◌, refl, sym, subst}
use mathlib.Core.Logic.{◌⊎◌, inl, inr}
use mathlib.Core.Bool.{Bool, true, false, ◌||◌}
use mathlib.Core.Option.{Option, none, some}
use mathlib.Core.List.{List, [], ◌∷◌}
use be_better.Prelude.Tests.{if◌then◌else◌, Bool-cases}
use be_better.Prelude.Lists.{All}

abbrev pub is_some {ℓ} : {A : Type ℓ} → Option A → Bool
is_some none = false
is_some (some a) = true

pub found_here :
    {A : Type 0} (b : Bool) (t : A) (rest : Option A) {x : A}
    → (if b then some t else rest) ≡ some x
    → (t ≡ x) ⊎ (rest ≡ some x)
found_here true t rest e = inl cc
found_here false t rest e = inr e

module _ {A : Type 0} where
  -- SELECT ... WHERE ... LIMIT 1
  abbrev pub find_first : (A → Bool) → List A → Option A
  find_first p [] = none
  find_first p (x ∷ xs) = let rest = find_first p xs in if p x then some x else rest

  -- whether some row is selected
  abbrev pub any_row : (A → Bool) → List A → Bool
  any_row p [] = false
  any_row p (x ∷ xs) = p x || any_row p xs

  -- UPDATE ... WHERE ...
  abbrev pub update_rows : (A → Bool) → (A → A) → List A → List A
  update_rows p f [] = []
  update_rows p f (x ∷ xs) = (if p x then f x else x) ∷ update_rows p f xs

  -- SELECT ... WHERE ..., and DELETE ... WHERE ... with the test turned round
  abbrev pub select_rows : (A → Bool) → List A → List A
  select_rows p [] = []
  select_rows p (x ∷ xs) = let rest = select_rows p xs in if p x then x ∷ rest else rest

  pub taken :
      (b : Bool) (y : A) (rest : Option A) {x : A}
      → (if b then some y else rest) ≡ some x
      → ((b ≡ true) × (y ≡ x)) ⊎ (rest ≡ some x)
  taken true y rest h = inl (refl, cc)
  taken false y rest h = inr h

  -- A selected row passes the test.
  pub find_first-holds :
      (p : A → Bool) (xs : List A) (x : A) → find_first p xs ≡ some x → p x ≡ true
  find_first-holds p [] x h = cc
  find_first-holds p (y ∷ ys) x h = elim (taken (p y) y (find_first p ys) h) [
    | inl here ↦ rw (sym here.1) here.0
    | inr later ↦ find_first-holds p ys x later
  ]

  -- A property of every row holds of the selected one.
  pub find_first-All :
      (P : A → Type 0) (p : A → Bool) (xs : List A) (x : A)
      → All P xs
      → find_first p xs ≡ some x
      → P x
  find_first-All P p [] x all h = cc
  find_first-All P p (y ∷ ys) x all h = elim (taken (p y) y (find_first p ys) h) [
    | inl here ↦ subst P here.1 all.0
    | inr later ↦ find_first-All P p ys x all.1 later
  ]

  -- A property that every row has after the update.
  pub All-update_rows :
      (P : A → Type 0) (p : A → Bool) (f : A → A) (xs : List A)
      → ((x : A) → P (if p x then f x else x))
      → All P (update_rows p f xs)
  All-update_rows P p f [] h = tt
  All-update_rows P p f (x ∷ xs) h = (h x, All-update_rows P p f xs h)

  -- A selection that keeps what the test finds.
  pub find_first-select_rows :
      (p q : A → Bool) (xs : List A)
      → ((x : A) → p x ≡ true → q x ≡ true)
      → find_first p (select_rows q xs) ≡ find_first p xs
  find_first-select_rows p q [] h = refl
  find_first-select_rows p q (x ∷ xs) h = elim (Bool-cases (p x)) [
    | inl e ↦ rw (h x e, e) refl
    | inr e ↦ elim (Bool-cases (q x)) [
      | inl k ↦ rw (k, e, find_first-select_rows p q xs h) refl
      | inr k ↦ rw (k, e, find_first-select_rows p q xs h) refl
    ]
  ]

  -- The first row that a test finds, after an UPDATE that leaves the columns of the test.
  pub find_first-update_rows :
      (p q : A → Bool) (f : A → A) (rows : List A)
      → ((r : A) → p (f r) ≡ p r)
      → find_first p (update_rows q f rows)
        ≡ elim (find_first p rows) [ none ↦ none | some r ↦ some (if q r then f r else r) ]
  find_first-update_rows p q f [] same = refl
  find_first-update_rows p q f (r ∷ rs) same = elim (Bool-cases (q r)) [
    | inl e ↦ elim (Bool-cases (p r)) [
      | inl k ↦ rw (e, same r, k, e) refl
      | inr k ↦ rw (e, same r, k) (find_first-update_rows p q f rs same)
    ]
    | inr e ↦ elim (Bool-cases (p r)) [
      | inl k ↦ rw (e, k, e) refl
      | inr k ↦ rw (e, k) (find_first-update_rows p q f rs same)
    ]
  ]
