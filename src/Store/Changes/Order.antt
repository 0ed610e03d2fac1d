-- ===== src/Store/Changes/Order.antt =====
-- What `ListSyncChanges` reads: the changes of a user above a sequence, in the order of sequence.
use be_better.Prelude.{
  ℕ, ◌≤◌, ◌<◌, ◌≡◌, ◌≢◌, refl, ap, ◌∙◌, sym, List, [], ◌∷◌, ◌++◌, All, arith, ◌⊎◌, inl, inr,
}
use be_better.Model.{SyncChange, Uuid}
use be_better.Store.{ChangeRow}
use be_better.Store.Changes.{above, insert_ordered, order_by_sequence, changes_of}

-- Strictly increasing sequences, all above `n`.
abbrev pub Ascending : ℕ → List SyncChange → Type 0
Ascending n [] = Unit
Ascending n (c ∷ cs) = (n < c.sequence) × Ascending c.sequence cs

-- No two changes have one sequence, and none has sequence 0: an identity column.
abbrev pub Distinct : List SyncChange → Type 0
Distinct [] = Unit
Distinct (c ∷ cs) = (0 < c.sequence) × All (λ d. c.sequence ≢ d.sequence) cs × Distinct cs

All-insert_ordered :
    (P : SyncChange → Type 0) (c : SyncChange) (cs : List SyncChange)
    → P c
    → All P cs
    → All P (insert_ordered c cs)
All-insert_ordered P c [] p h = (p, tt)
All-insert_ordered P c (d ∷ ds) p h = ground (arith, All-insert_ordered P c ds p h.1)

All-order_by_sequence :
    (P : SyncChange → Type 0) (cs : List SyncChange) → All P cs → All P (order_by_sequence cs)
All-order_by_sequence P [] h = tt
All-order_by_sequence P (c ∷ cs) h =
    All-insert_ordered P c (order_by_sequence cs) h.0 (All-order_by_sequence P cs h.1)

insert_ordered-Ascending :
    (n : ℕ) (c : SyncChange) (cs : List SyncChange)
    → n < c.sequence
    → All (λ d. c.sequence ≢ d.sequence) cs
    → Ascending n cs
    → Ascending n (insert_ordered c cs)
insert_ordered-Ascending n c [] hn hd h = (hn, tt)
insert_ordered-Ascending n c (d ∷ ds) hn hd h =
    let rest : d.sequence < c.sequence → Ascending d.sequence (insert_ordered c ds) =
      λ less. insert_ordered-Ascending d.sequence c ds less hd.1 h.1 in
    ground arith

-- With distinct sequences the order is strict.
pub order_by_sequence-Ascending :
    (cs : List SyncChange) → Distinct cs → Ascending 0 (order_by_sequence cs)
order_by_sequence-Ascending [] h = tt
order_by_sequence-Ascending (c ∷ cs) h =
    insert_ordered-Ascending 0 c (order_by_sequence cs) h.0
      (All-order_by_sequence (λ d. c.sequence ≢ d.sequence) cs h.1)
      (order_by_sequence-Ascending cs h.2)

Ascending-weaken : (m n : ℕ) (cs : List SyncChange) → m ≤ n → Ascending n cs → Ascending m cs
Ascending-weaken m n [] hm h = tt
Ascending-weaken m n (c ∷ cs) hm h = (omega (arith, h.0), h.1)

pub above-below : (n : ℕ) (cs : List SyncChange) → Ascending n cs → above n cs ≡ cs
above-below n [] h = refl
above-below n (c ∷ cs) h =
    ground (arith, above-below n cs (Ascending-weaken n c.sequence cs (omega (arith, h.0)) h.1))

-- Cutting an ascending list leaves an ascending list, above the cut.
pub above-Ascending :
    (n after : ℕ) (cs : List SyncChange) → Ascending n cs → Ascending after (above after cs)
above-Ascending n after [] h = tt
above-Ascending n after (c ∷ cs) h =
    let rest = above-Ascending c.sequence after cs h.1 in
    let kept : after < c.sequence → above after cs ≡ cs =
      λ less. above-below after cs (Ascending-weaken after c.sequence cs (omega arith) h.1) in
    ground (arith, h.1)

pub above-above :
    (after later : ℕ) (cs : List SyncChange)
    → after ≤ later
    → above later (above after cs) ≡ above later cs
above-above after later [] h = refl
above-above after later (c ∷ cs) h = ground (arith, above-above after later cs h)

-- A change at or below the cut does not count, wherever it is inserted.
above-insert_low :
    (after : ℕ) (c : SyncChange) (cs : List SyncChange)
    → c.sequence ≤ after
    → above after (insert_ordered c cs) ≡ above after cs
above-insert_low after c [] h = ground arith
above-insert_low after c (d ∷ ds) h = ground (arith, above-insert_low after c ds h)

above-insert_high :
    (after : ℕ) (c : SyncChange) (cs : List SyncChange)
    → after < c.sequence
    → above after (insert_ordered c cs) ≡ insert_ordered c (above after cs)
above-insert_high after c [] h = ground arith
above-insert_high after c (d ∷ ds) h = ground (arith, above-insert_high after c ds h)

lt_or_le : (a b : ℕ) → (a < b) ⊎ (b ≤ a)
lt_or_le a b = ground arith

-- Equal above a cut stays equal when one change is inserted in both.
above-insert_cong :
    (after : ℕ) (c : SyncChange) (as' bs : List SyncChange)
    → above after as' ≡ above after bs
    → above after (insert_ordered c as') ≡ above after (insert_ordered c bs)
above-insert_cong after c as' bs h = by_height (lt_or_le after c.sequence)
  where
    by_height :
        (after < c.sequence) ⊎ (c.sequence ≤ after)
        → above after (insert_ordered c as') ≡ above after (insert_ordered c bs)
    by_height (inl high) =
        above-insert_high after c as' high
        ∙ ap (insert_ordered c) h
        ∙ sym (above-insert_high after c bs high)
    by_height (inr low) =
        above-insert_low after c as' low ∙ h ∙ sym (above-insert_low after c bs low)

-- A row at or below the cut is invisible above it, wherever it stands in the table.
pub above-late_row :
    (after : ℕ) (user : Uuid) (xs ys : List ChangeRow) (row : ChangeRow)
    → row.change.sequence ≤ after
    → above after (order_by_sequence (changes_of user (xs ++ row ∷ ys)))
      ≡ above after (order_by_sequence (changes_of user (xs ++ ys)))
above-late_row after user [] ys row h =
    ground (arith, above-insert_low after row.change (order_by_sequence (changes_of user ys)) h)
above-late_row after user (x ∷ xs) ys row h =
    let rest = above-late_row after user xs ys row h in
    ground (arith, above-insert_cong after x.change _ _ rest)
