-- ===== src/Resources/Chain.antt =====
-- Statements in a row, of which each writes rows that the changes name.
use be_better.Prelude.{String, List}
use be_better.Model.{SyncChangeDraft}
use be_better.Resources.Rows.{Versioned, Row}
use be_better.Resources.Tracked.{Tracked, done, kept, written, added}

pub Tracked-trans :
    {A : Type 0} ⦃v : Versioned A⦄ {type : String} {changes : List SyncChangeDraft}
    {rs1 rs2 rs3 : List (Row A)}
    → Tracked type changes rs1 rs2
    → Tracked type changes rs2 rs3
    → Tracked type changes rs1 rs3
Tracked-trans x done = x
Tracked-trans x (added r n y) = added r n (Tracked-trans x y)
Tracked-trans (kept r x) (kept r1 y) = kept r (Tracked-trans x y)
Tracked-trans (written r r1 n x) (kept r2 y) = written r r1 n (Tracked-trans x y)
Tracked-trans (added r1 n x) (kept r2 y) = added r1 n (Tracked-trans x y)
Tracked-trans (kept r x) (written r1 r2 n y) = written r r2 n (Tracked-trans x y)
Tracked-trans (written r r1 m x) (written r3 r2 n y) = written r r2 n (Tracked-trans x y)
Tracked-trans (added r1 m x) (written r3 r2 n y) = added r2 n (Tracked-trans x y)
