-- ===== src/Resources/Swept.antt =====
-- The statements of internal/db/query/domain.sql that write every row of their condition.
use be_better.Prelude.{Bool, false, ◌≡◌, refl, List, [], ◌∷◌, any_row, Bool-cases, inl, inr}
use be_better.Model.{Uuid}
use be_better.Resources.Rows.{Versioned, Row, on_value, attached, written_rows}

-- An UPDATE whose rows no longer meet its condition leaves none that does.
pub any_row-written_rows :
    {A : Type 0} ⦃v : Versioned A⦄ (user : Uuid) (p : A → Bool) (f : A → A) (rows : List (Row A))
    → ((r : Row A) → attached user p (on_value f r) ≡ false)
    → any_row (attached user p) (written_rows user p f rows) ≡ false
any_row-written_rows user p f [] gone = refl
any_row-written_rows user p f (r ∷ rs) gone =
    let rest = any_row-written_rows user p f rs gone in
    elim (Bool-cases (attached user p r)) [ inl e ↦ rw (e, gone r) rest | inr e ↦ rw (e, e) rest ]
