-- ===== src/Sync/Page/Feed.antt =====
-- What a page of internal/service/sync.go holds of a user's changes, and what it never holds.
use Prim.Native.Nat.{max}
use be_better.Prelude.{
  ◌⊎◌, not, is_some, ℕ, zero, suc, ◌≤◌, ◌≡◌, refl, sym, ap, subst, ◌∙◌, false, none, ◌&&◌, ◌==◌,
  true, Option, some, Bool-cases, List, [], ◌∷◌, ◌++◌, map, ltb, take, drop, length, arith,
  if◌then◌else◌, inl, inr,
}
use be_better.Model.{
  Error, Uuid, Time, is_nil, SyncChange, UserDevice, Result, ok, err, Result-cases,
}
use be_better.Exec.{pure, ◌>>=◌}
use be_better.Store.{Db, ChangeRow}
use be_better.Store.Changes.{
  above, advance_devices, order_by_sequence, changes_of, list_changes, require_active_device,
  advance_device_cursor,
}
use be_better.Store.Changes.Order.{Distinct, order_by_sequence-Ascending, above-late_row}
use be_better.Sync.Cursor.{end_of_page}
use be_better.Sync.Page.{SyncService, cons_result, resolve_change, resolve_all, page_tx}
use be_better.Sync.Page.Follow.{above-next_page}

abbrev pub sequences : List SyncChange → List ℕ
sequences = map (λ c. c.sequence)

-- The changes of a user that a cursor has not passed.
abbrev pub feed : {R : Type 0} → Uuid → ℕ → Db R → List SyncChange
feed user after s = above after (order_by_sequence (changes_of user s.changes))

-- What becomes of the rows of the devices: where a device is given, the cursor of its row, while it is
-- not revoked, moves up to the sequence, with the time it was last seen, and every other row stays.
pub data Advanced (user device : Uuid) (sequence now : ℕ)
    : List UserDevice → List UserDevice → Type 0 where
  ended : Advanced user device sequence now [] []
  kept :
      {ds es : List UserDevice} (d : UserDevice)
      → (is_nil device ≡ true)
        ⊎ ((d.user_id == user && d.id == device && not (is_some d.revoked_at)) ≡ false)
      → Advanced user device sequence now ds es
      → Advanced user device sequence now (d ∷ ds) (d ∷ es)
  moved :
      {ds es : List UserDevice} (d : UserDevice)
      → is_nil device ≡ false
      → d.user_id ≡ user
      → d.id ≡ device
      → d.revoked_at ≡ none
      → Advanced user device sequence now ds es
      → Advanced user device sequence now
          (d ∷ ds)
          (record d { last_sync_cursor = max d.last_sync_cursor sequence; last_seen_at = now } ∷ es)

Advanced-refl :
    (user device : Uuid) (sequence now : ℕ) (ds : List UserDevice)
    → is_nil device ≡ true
    → Advanced user device sequence now ds ds
Advanced-refl user device sequence now [] absent = ended
Advanced-refl user device sequence now (d ∷ ds) absent =
    kept d (inl absent) (Advanced-refl user device sequence now ds absent)

-- The row of the device, by whether it is revoked.
moved-Advanced :
    (user device : Uuid) (sequence now : ℕ) (d : UserDevice) (ds es : List UserDevice)
    (revoked : Option Time)
    → is_nil device ≡ false
    → (d.user_id == user && d.id == device) ≡ true
    → d.revoked_at ≡ revoked
    → Advanced user device sequence now ds es
    → Advanced user device sequence now (d ∷ ds) (elim revoked [
      | none ↦
          record d { last_sync_cursor = max d.last_sync_cursor sequence; last_seen_at = now } ∷ es
      | some _ ↦ d ∷ es
    ])
moved-Advanced user device sequence now d ds es none given e open' rest =
    moved d given (ground (arith, e)) (ground (arith, e)) open' rest
moved-Advanced user device sequence now d ds es (some at) given e closed rest =
    kept d (inr (ground (arith, closed))) rest

advance_devices-Advanced :
    (user device : Uuid) (sequence now : ℕ) (ds : List UserDevice)
    → is_nil device ≡ false
    → Advanced user device sequence now ds (advance_devices user device sequence now ds)
advance_devices-Advanced user device sequence now [] given = ended
advance_devices-Advanced user device sequence now (d ∷ ds) given =
    let rest = advance_devices-Advanced user device sequence now ds given in
    elim (Bool-cases (d.user_id == user && d.id == device)) [
      | inl e ↦ simp e (
          moved-Advanced user device sequence now d ds (advance_devices user device sequence now ds)
            d.revoked_at given e refl rest)
      | inr e ↦ simp e (kept d (inr (ground (arith, e))) rest)
    ]

end_of_page-sequences :
    (a : ℕ) (as' bs : List SyncChange)
    → sequences as' ≡ sequences bs
    → end_of_page a as' ≡ end_of_page a bs
end_of_page-sequences a [] [] h = refl
end_of_page-sequences a [] (b ∷ bs) h = absurd (cc h)
end_of_page-sequences a (x ∷ as') [] h = absurd (cc h)
end_of_page-sequences a (x ∷ as') (b ∷ bs) h = cc (end_of_page-sequences x.sequence as' bs cc)

cons_result-ok :
    (r : Result SyncChange) (rest : Result (List SyncChange)) (out : List SyncChange)
    → cons_result r rest ≡ ok out
    → (c : SyncChange) × (cs : List SyncChange) × (r ≡ ok c) × (rest ≡ ok cs) × (out ≡ c ∷ cs)
cons_result-ok (err e) rest out h = absurd (cc h)
cons_result-ok (ok c) (err e) out h = absurd (cc h)
cons_result-ok (ok c) (ok cs) out h = (c, cs, refl, refl, cc h)

take-take-suc : (n : ℕ) (cs : List SyncChange) → take n (take (suc n) cs) ≡ take n cs
take-take-suc zero cs = refl
take-take-suc (suc n) [] = refl
take-take-suc (suc n) (c ∷ cs) = ap (λ l. c ∷ l) (take-take-suc n cs)

-- A page with its changes replaced, one for one, is still the first part of what was listed.
take-replaced :
    (n : ℕ) (visible listed : List SyncChange)
    → sequences visible ≡ sequences (take n listed)
    → take n (visible ++ drop n listed) ≡ visible
take-replaced zero [] listed h = refl
take-replaced zero (v ∷ vs) listed h = absurd (cc h)
take-replaced (suc n) [] [] h = refl
take-replaced (suc n) [] (c ∷ cs) h = absurd (cc h)
take-replaced (suc n) (v ∷ vs) [] h = absurd (cc h)
take-replaced (suc n) (v ∷ vs) (c ∷ cs) h = ap (λ l. v ∷ l) (take-replaced n vs cs cc)

ltb-length-replaced :
    (n : ℕ) (visible feed' : List SyncChange)
    → sequences visible ≡ sequences (take n (take (suc n) feed'))
    → ltb n (length (visible ++ drop n (take (suc n) feed'))) ≡ ltb n (length feed')
ltb-length-replaced zero [] [] h = refl
ltb-length-replaced zero [] (c ∷ cs) h = ground arith
ltb-length-replaced zero (v ∷ vs) feed' h = absurd (cc h)
ltb-length-replaced (suc n) [] [] h = refl
ltb-length-replaced (suc n) [] (c ∷ cs) h = absurd (cc h)
ltb-length-replaced (suc n) (v ∷ vs) [] h = absurd (cc h)
ltb-length-replaced (suc n) (v ∷ vs) (c ∷ cs) h = ground (arith, ltb-length-replaced n vs cs cc)

module _ {R : Type 0} (service : SyncService R) (user : Uuid) where
  resolve_change-sequence :
      (tables : R) (c c' : SyncChange)
      → resolve_change service user tables c ≡ ok c'
      → c'.sequence ≡ c.sequence
  unfolding resolve_change
  resolve_change-sequence tables c c' h = ground arith

  -- Resolving changes no sequence.
  resolve_all-sequences :
      (tables : R) (cs cs' : List SyncChange)
      → resolve_all service user tables cs ≡ ok cs'
      → sequences cs' ≡ sequences cs
  unfolding resolve_all
  resolve_all-sequences tables [] cs' h = ground arith
  resolve_all-sequences tables (c ∷ cs) cs' h =
      let (c1, cs1, hc, hcs, e) =
        cons_result-ok (resolve_change service user tables c) (resolve_all service user tables cs)
          cs' h in
      ap sequences e
      ∙ cc (resolve_change-sequence tables c c1 hc, resolve_all-sequences tables cs cs1 hcs)

  -- The device check changes nothing, and moving the device's cursor changes the devices only.
  open_page-same :
      (device : Uuid) (s t : Db R)
      → (if is_nil device then pure tt else require_active_device user device) s ≡ (ok tt, t)
      → t ≡ s
  unfolding pure require_active_device
  open_page-same device s t h = ground arith

  close_page-tables :
      (device : Uuid) (sequence : ℕ) (s t : Db R)
      → (if is_nil device then pure tt else advance_device_cursor user device sequence) s
        ≡ (ok tt, t)
      → t ≡ record s { devices = t.devices }
  unfolding pure advance_device_cursor
  close_page-tables device sequence s t h = ground arith

  close_page-Advanced :
      (device : Uuid) (sequence : ℕ) (s t : Db R)
      → (if is_nil device then pure tt else advance_device_cursor user device sequence) s
        ≡ (ok tt, t)
      → Advanced user device sequence s.clock s.devices t.devices
  unfolding pure advance_device_cursor
  close_page-Advanced device sequence s t h = elim (Bool-cases (is_nil device)) [
    | inl e ↦
        let same : t ≡ s = ground (arith, e, h) in
        rw same (Advanced-refl user device sequence s.clock s.devices e)
    | inr e ↦
        let same : t.devices ≡ advance_devices user device sequence s.clock s.devices =
          ground (arith, e, h) in
        rw same (advance_devices-Advanced user device sequence s.clock s.devices e)
  ]

  -- What a page read and resolved.
  page_tx-resolved :
      (device : Uuid) (sequence n : ℕ) (s : Db R) (out visible : List SyncChange) (t : Db R)
      → resolve_all service user s.resources (take n (take (suc n) (feed user sequence s)))
        ≡ ok visible
      → page_tx service user device sequence n s ≡ (ok out, t)
      → (out ≡ visible ++ drop n (take (suc n) (feed user sequence s)))
        × (t ≡ record s { devices = t.devices })
        × ((if is_nil device
                then pure tt
                else advance_device_cursor user device (end_of_page sequence visible))
              s
            ≡ (ok tt, t))
  unfolding page_tx pure ◌>>=◌ list_changes require_active_device advance_device_cursor
  page_tx-resolved device sequence n s out visible t hv h = ground arith

  page_tx-unresolved :
      (device : Uuid) (sequence n : ℕ) (s : Db R) (out : List SyncChange) (e : Error) (t : Db R)
      → resolve_all service user s.resources (take n (take (suc n) (feed user sequence s))) ≡ err e
      → ¬ (page_tx service user device sequence n s ≡ (ok out, t))
  unfolding page_tx ◌>>=◌ list_changes require_active_device advance_device_cursor
  page_tx-unresolved device sequence n s out e t hv h = ground arith

  -- Where the user's changes have distinct positive sequences, a page that is returned holds, by
  -- sequence, the first `n` changes that the cursor has not passed; the cursor at its end has passed
  -- these and no others; there is a change beyond the page exactly if there is one beyond the first
  -- `n`; and nothing is written but, where a device is given, its row, unless it is revoked: its
  -- cursor is raised to the end of the page, with the time it was last seen, and the rows of all
  -- other devices stay.
  pub page_tx-feed :
      (device : Uuid) (sequence n : ℕ) (s : Db R) (out : List SyncChange) (t : Db R)
      → Distinct (changes_of user s.changes)
      → page_tx service user device sequence n s ≡ (ok out, t)
      → (sequences (take n out) ≡ sequences (take n (feed user sequence s)))
        × (feed user (end_of_page sequence (take n out)) t ≡ drop n (feed user sequence s))
        × (ltb n (length out) ≡ ltb n (length (feed user sequence s)))
        × (t ≡ record s { devices = t.devices })
        × Advanced user device (end_of_page sequence (take n out)) s.clock s.devices t.devices
  page_tx-feed device sequence n s out t distinct h =
      elim (Result-cases
        (resolve_all service user s.resources (take n (take (suc n) (feed user sequence s))))) [
          | inl (visible, hv) ↦
              let seqs =
                resolve_all-sequences s.resources (take n (take (suc n) (feed user sequence s)))
                  visible hv in
              let same = seqs ∙ ap sequences (take-take-suc n (feed user sequence s)) in
              let (listed, tables, closed) =
                page_tx-resolved device sequence n s out visible t hv h in
              let page =
                ap (take n) listed
                ∙ take-replaced n visible (take (suc n) (feed user sequence s)) seqs in
              (
                ap sequences page ∙ same,
                ap (λ u. feed user (end_of_page sequence (take n out)) u) tables
                    ∙ ap (λ l. feed user (end_of_page sequence l) s) page
                    ∙ ap (λ x. feed user x s)
                        (end_of_page-sequences sequence visible (take n (feed user sequence s))
                          same)
                    ∙ above-next_page sequence n (order_by_sequence (changes_of user s.changes))
                        (order_by_sequence-Ascending (changes_of user s.changes) distinct),
                ap (λ l. ltb n (length l)) listed
                    ∙ ltb-length-replaced n visible (feed user sequence s) seqs,
                tables,
                subst
                    (λ l. Advanced user device (end_of_page sequence l) s.clock s.devices t.devices)
                    (sym page)
                    (close_page-Advanced device (end_of_page sequence visible) s t closed),
              )
          | inr (e, he) ↦ absurd (page_tx-unresolved device sequence n s out e t he h)
        ]

  -- A change whose row becomes visible only after a cursor has passed its sequence is on no page
  -- from that cursor: the page is what it would be without the row, wherever the row stands.
  -- Identity values are drawn before the commit, so a slower transaction's row can come late.
  pub page_tx-late_row :
      (device : Uuid) (sequence n : ℕ) (s : Db R) (xs ys : List ChangeRow) (late : ChangeRow)
      → late.change.sequence ≤ sequence
      → (page_tx service user device sequence n (record s { changes = xs ++ late ∷ ys })).0
        ≡ (page_tx service user device sequence n (record s { changes = xs ++ ys })).0
  unfolding page_tx ◌>>=◌ list_changes require_active_device advance_device_cursor
  page_tx-late_row device sequence n s xs ys late h =
      ground (arith, above-late_row sequence user xs ys late h)
