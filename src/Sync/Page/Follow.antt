-- ===== src/Sync/Page/Follow.antt =====
-- Pages of an ascending list, taken by `nextSequence` of internal/service/sync.go.
use be_better.Prelude.{ℕ, zero, suc, ◌≤◌, ◌≡◌, refl, ◌∙◌, sym, List, [], ◌∷◌, take, drop, arith}
use be_better.Model.{SyncChange}
use be_better.Store.Changes.{above}
use be_better.Store.Changes.Order.{Ascending, above-below, above-above, above-Ascending}
use be_better.Sync.Cursor.{end_of_page}

-- The end of a page of an ascending list cuts the list where the page ends.
end_of_page_le : (a n : ℕ) (cs : List SyncChange) → Ascending a cs → a ≤ end_of_page a (take n cs)
end_of_page_le a zero cs h = omega arith
end_of_page_le a (suc n) [] h = omega arith
end_of_page_le a (suc n) (c ∷ cs) h = omega (arith, h.0, end_of_page_le c.sequence n cs h.1)

pub above-end_of_page :
    (a n : ℕ) (cs : List SyncChange)
    → Ascending a cs
    → above (end_of_page a (take n cs)) cs ≡ drop n cs
above-end_of_page a zero cs h = above-below a cs h
above-end_of_page a (suc n) [] h = refl
above-end_of_page a (suc n) (c ∷ cs) h =
    ground (arith, end_of_page_le c.sequence n cs h.1, above-end_of_page c.sequence n cs h.1)

-- The next page begins where this one ends.
pub above-next_page :
    (after n : ℕ) (cs : List SyncChange)
    → Ascending 0 cs
    → above (end_of_page after (take n (above after cs))) cs ≡ drop n (above after cs)
above-next_page after n cs h =
    let feed = above-Ascending 0 after cs h in
    sym (
      above-above after (end_of_page after (take n (above after cs))) cs
        (end_of_page_le after n (above after cs) feed))
    ∙ above-end_of_page after n (above after cs) feed
