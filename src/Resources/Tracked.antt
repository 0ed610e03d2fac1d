-- ===== src/Resources/Tracked.antt =====
-- The rows that a command of a resource service wrote, against the changes that it hands to the sync
-- feed of internal/service/sync.go.
use be_better.Prelude.{
  ℕ, ◌+◌, pos, eqb_ℤ, ◌≡◌, refl, sym, subst, ◌∙◌, map, All, any_row, String, ◌=ˢ◌, Bool, true,
  false, ◌&&◌, ◌||◌, some, List, [], ◌∷◌, ◌++◌, arith, ◌==◌, eq_iff, taken, Bool-cases, inl, inr,
  Option-cases, update_rows,
}
use be_better.Model.{Uuid, SyncChangeDraft, ok}
use be_better.Resources.Rows.{
  Versioned, Row, on_value, is_live, find_live, is_current, insert_row, write_row, attached,
  written_rows, returned_rows,
}

-- Some change names the entity with the version.
abbrev pub names : String → Uuid → ℕ → List SyncChangeDraft → Bool
names type id version [] = false
names type id version (c ∷ cs) =
    c.entity_type =ˢ type && c.entity_id == id && eqb_ℤ c.entity_version (pos version)
    || names type id version cs

names-append :
    (type : String) (id : Uuid) (version : ℕ) (xs ys : List SyncChangeDraft)
    → names type id version (xs ++ ys) ≡ (names type id version xs || names type id version ys)
names-append type id version [] ys = refl
names-append type id version (x ∷ xs) ys = ground (arith, names-append type id version xs ys)

module _ {A : Type 0} ⦃v : Versioned A⦄ where
  open v use {id_of, version_of}

  -- The changes name the row with its version.
  abbrev pub Named : String → List SyncChangeDraft → A → Type 0
  Named type changes a = names type (id_of a) (version_of a) changes ≡ true

  -- The second table is the first with some rows written and some added, all of them named.
  pub data Tracked (type : String) (changes : List SyncChangeDraft)
      : List (Row A) → List (Row A) → Type 0 where
    done : Tracked type changes [] []
    kept :
        {rs rs' : List (Row A)} (r : Row A)
        → Tracked type changes rs rs'
        → Tracked type changes (r ∷ rs) (r ∷ rs')
    written :
        {rs rs' : List (Row A)} (r r' : Row A)
        → Named type changes r'.value
        → Tracked type changes rs rs'
        → Tracked type changes (r ∷ rs) (r' ∷ rs')
    added :
        {rs rs' : List (Row A)} (r' : Row A)
        → Named type changes r'.value
        → Tracked type changes rs rs'
        → Tracked type changes rs (r' ∷ rs')

  pub Tracked-refl :
      (type : String) (changes : List SyncChangeDraft) (rows : List (Row A))
      → Tracked type changes rows rows
  Tracked-refl type changes [] = done
  Tracked-refl type changes (r ∷ rs) = kept r (Tracked-refl type changes rs)

  pub Tracked-update_rows :
      (type : String) (changes : List SyncChangeDraft) (p : Row A → Bool) (f : A → A)
      (rows : List (Row A))
      → ((r : Row A) → p r ≡ true → Named type changes (f r.value))
      → Tracked type changes rows (update_rows p (on_value f) rows)
  Tracked-update_rows type changes p f [] h = done
  Tracked-update_rows type changes p f (r ∷ rs) h =
      let rest = Tracked-update_rows type changes p f rs h in
      elim (Bool-cases (p r)) [
        | inl e ↦ rw e (written r (on_value f r) (h r e) rest)
        | inr e ↦ rw e (kept r rest)
      ]

  find_live-id :
      (user id : Uuid) (rows : List (Row A)) {a : A}
      → find_live user id rows ≡ some a
      → id_of a ≡ id
  find_live-id user id [] h = absurd (cc h)
  find_live-id user id (r ∷ rs) h =
      elim (taken (is_live user id r) r.value (find_live user id rs) h) [
        | inl here ↦ ground (arith, here.0, here.1)
        | inr later ↦ find_live-id user id rs later
      ]

  -- A versioned write that succeeded.
  pub write_row-ok :
      (user id : Uuid) (expected : ℕ) (f : A → A) (rows : List (Row A)) {a : A}
      {rows' : List (Row A)}
      → write_row user id expected f rows ≡ (ok a, rows')
      → (b : A) × (find_live user id rows ≡ some b)
        × (version_of b ≡ expected)
        × (a ≡ f b)
        × (rows' ≡ update_rows (is_current user id expected) (on_value f) rows)
  unfolding write_row
  write_row-ok user id expected f rows h = elim (Option-cases (find_live user id rows)) [
    | inl e ↦ absurd (ground (arith, h, e))
    | inr (b, e) ↦ (b, e, ground (arith, h, e), ground (arith, h, e), ground (arith, h, e))
  ]

  -- A versioned write, in whose changes the new version is named.
  pub Tracked-write_row :
      (type : String) (changes : List SyncChangeDraft) (user id : Uuid) (expected : ℕ) (f : A → A)
      (rows : List (Row A)) {a : A} {rows' : List (Row A)}
      → ((b : A) → (id_of (f b) ≡ id_of b) × (version_of (f b) ≡ version_of b + 1))
      → write_row user id expected f rows ≡ (ok a, rows')
      → Named type changes a
      → Tracked type changes rows rows'
  Tracked-write_row type changes user id expected f rows keeps h named =
      let (b, found, current, same, rows_eq) = write_row-ok user id expected f rows h in
      let there = find_live-id user id rows found in
      rw rows_eq (
        Tracked-update_rows type changes (is_current user id expected) f rows λ r e.
          let id_eq : id_of r.value ≡ id = ground (arith, e) in
          let version_eq : version_of r.value ≡ expected = ground (arith, e) in
          let ids : id_of (f r.value) ≡ id_of (f b) =
            (keeps r.value).0 ∙ id_eq ∙ sym there ∙ sym (keeps b).0 in
          let versions : version_of (f r.value) ≡ version_of (f b) =
            omega (arith, (keeps r.value).1, (keeps b).1, version_eq, current) in
          rw (ids, versions) (subst (Named type changes) same named))

  pub Tracked-insert_row :
      (type : String) (changes : List SyncChangeDraft) (user : Uuid) (a : A) (rows : List (Row A))
      {b : A} {rows' : List (Row A)}
      → insert_row user a rows ≡ (ok b, rows')
      → Named type changes b
      → Tracked type changes rows rows'
  unfolding insert_row
  Tracked-insert_row type changes user a rows {b = b} {rows' = rows'} h named =
      elim (Bool-cases (any_row (λ r. id_of r.value == id_of a) rows)) [
        | inl e ↦ absurd (ground (arith, h, e))
        | inr e ↦
            let rows_eq : record { user_id = user; value = a } ∷ rows ≡ rows' =
              ground (arith, h, e) in
            let same : a ≡ b = ground (arith, h, e) in
            subst (Tracked type changes rows) rows_eq (
              added (record { user_id = user; value = a })
                (subst (Named type changes) (sym same) named) (Tracked-refl type changes rows))
      ]

  -- The rows of an UPDATE ... RETURNING :many, where the changes name all that it returned.
  pub Tracked-written_rows :
      (type : String) (changes : List SyncChangeDraft) (user : Uuid) (p : A → Bool) (f : A → A)
      (rows : List (Row A))
      → All (Named type changes) (returned_rows user p f rows)
      → Tracked type changes rows (written_rows user p f rows)
  unfolding returned_rows
  Tracked-written_rows type changes user p f [] h = done
  Tracked-written_rows type changes user p f (r ∷ rs) h = elim (Bool-cases (attached user p r)) [
    | inl e ↦
        let both = rw e at h in
        rw e
          (written r (on_value f r) both.0 (Tracked-written_rows type changes user p f rs both.1))
    | inr e ↦ rw e (kept r (Tracked-written_rows type changes user p f rs (rw e at h)))
  ]

  -- The change that a service makes of a row.
  abbrev pub change_of : String → String → A → SyncChangeDraft
  change_of type operation a = record {
    entity_type = type;
    entity_id = id_of a;
    operation = operation;
    entity_version = pos (version_of a);
  }

  pub change_of-Named :
      (type operation : String) (a : A) (cs : List SyncChangeDraft)
      → Named type (change_of type operation a ∷ cs) a
  change_of-Named type operation a cs = ground (arith, (eq_iff type type).1 refl)

  pub Named-cons :
      (type : String) (c : SyncChangeDraft) (cs : List SyncChangeDraft) (a : A)
      → Named type cs a
      → Named type (c ∷ cs) a
  Named-cons type c cs a h = ground (arith, h)

  pub Named-append_left :
      (type : String) (xs ys : List SyncChangeDraft) (a : A)
      → Named type xs a
      → Named type (xs ++ ys) a
  Named-append_left type xs ys a h =
      ground (arith, names-append type (id_of a) (version_of a) xs ys, h)

  pub Named-append_right :
      (type : String) (xs ys : List SyncChangeDraft) (a : A)
      → Named type ys a
      → Named type (xs ++ ys) a
  Named-append_right type xs ys a h =
      ground (arith, names-append type (id_of a) (version_of a) xs ys, h)

  pub All-Named-weaken :
      (type : String) (cs ds : List SyncChangeDraft) (as' : List A)
      → ((a : A) → Named type cs a → Named type ds a)
      → All (Named type cs) as'
      → All (Named type ds) as'
  All-Named-weaken type cs ds [] w h = tt
  All-Named-weaken type cs ds (a ∷ as') w h = (w a h.0, All-Named-weaken type cs ds as' w h.1)

  -- A loop that appends one change for each row names them all.
  pub map-change_of-Named :
      (type operation : String) (as' : List A)
      → All (Named type (map (change_of type operation) as')) as'
  map-change_of-Named type operation [] = tt
  map-change_of-Named type operation (a ∷ as') = (
    change_of-Named type operation a (map (change_of type operation) as'),
    All-Named-weaken type (map (change_of type operation) as')
        (map (change_of type operation) (a ∷ as')) as'
        (Named-cons type (change_of type operation a) (map (change_of type operation) as'))
        (map-change_of-Named type operation as'),
  )
