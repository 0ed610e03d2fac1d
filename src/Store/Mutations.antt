-- ===== src/Store/Mutations.antt =====
-- internal/postgres/idempotency_repository.go over dayorder.client_mutations, whose rows are
-- unique by id and by (user_id, device_id, mutation_id).
use be_better.Prelude.{
  ℤ, Bool, true, false, ◌&&◌, Option, none, some, List, [], ◌∷◌, leb, ◌==◌, if◌then◌else◌,
}
use be_better.Model.{
  Uuid, Time, Json, ClientMutation, ClientMutationDraft, device_not_active, not_found, conflict,
  Result, ok, err,
}
use be_better.Exec.{Tx}
use be_better.Store.{Db, active_device}

abbrev pub same_key : Uuid → Uuid → Uuid → ClientMutation → Bool
same_key user device mutation m =
    m.user_id == user && m.device_id == device && m.mutation_id == mutation

abbrev pub find_key : Uuid → Uuid → Uuid → List ClientMutation → Option ClientMutation
find_key user device mutation [] = none
find_key user device mutation (m ∷ ms) =
    if same_key user device mutation m then some m else find_key user device mutation ms

abbrev pub remove_key : Uuid → Uuid → Uuid → List ClientMutation → List ClientMutation
remove_key user device mutation [] = []
remove_key user device mutation (m ∷ ms) =
    let rest = remove_key user device mutation ms in
    if same_key user device mutation m then rest else m ∷ rest

abbrev pub id_taken : Uuid → List ClientMutation → Bool
id_taken id [] = false
id_taken id (m ∷ ms) = if m.id == id then true else id_taken id ms

-- The row that `CreateClientMutation` inserts, or writes over an expired one.
abbrev pub claimed_row : ClientMutationDraft → Time → ClientMutation
claimed_row draft now = record {
  id = draft.id;
  user_id = draft.user_id;
  device_id = draft.device_id;
  mutation_id = draft.mutation_id;
  request_hash = draft.request_hash;
  response_status = none;
  response_body = none;
  created_at = now;
  expires_at = draft.expires_at;
}

-- UPDATE ... WHERE user_id, id AND response_status IS NULL: the updated row, if there is one,
-- and the table.
unfoldable pub complete_row :
    Uuid
    → Uuid
    → ℤ
    → Option Json
    → List ClientMutation
    → Option (ClientMutation × List ClientMutation)
complete_row user id status body [] = none
complete_row user id status body (m ∷ ms) =
    let done = record m { response_status = some status; response_body = body } in
    let later = complete_row user id status body ms in
    let rest : Option (ClientMutation × List ClientMutation) = elim later [
      | none ↦ none
      | some (r, rs) ↦ some (r, m ∷ rs)
    ] in
    if m.user_id == user && m.id == id
    then elim m.response_status [ none ↦ some (done, done ∷ ms) | some _ ↦ rest ]
    else rest

module _ {R : Type 0} where
  -- INSERT ... ON CONFLICT (user_id, device_id, mutation_id) DO UPDATE: the new row takes the
  -- place of the expired one. Another row with its id violates the primary key.
  abbrev write_claim : ClientMutationDraft → Db R → Result (ClientMutation × Bool) × Db R
  write_claim draft s =
      let kept = remove_key draft.user_id draft.device_id draft.mutation_id s.mutations in
      if id_taken draft.id kept then (err conflict, s) else (
        ok (claimed_row draft s.clock, true),
        record s { mutations = claimed_row draft s.clock ∷ kept },
      )

  -- `WHERE expires_at <= now()` of the upsert, and the read that follows where it wrote nothing.
  abbrev claim_over :
      ClientMutationDraft → Option ClientMutation → Tx (Db R) (ClientMutation × Bool)
  claim_over draft none s = write_claim draft s
  claim_over draft (some old) s =
      if leb old.expires_at s.clock then write_claim draft s else (ok (old, false), s)

  -- `IdempotencyRepository.Claim`
  unfoldable pub claim : ClientMutationDraft → Tx (Db R) (ClientMutation × Bool)
  claim draft s = elim (active_device draft.user_id draft.device_id s.devices) [
    | none ↦ (err device_not_active, s)
    | some _ ↦
        claim_over draft (find_key draft.user_id draft.device_id draft.mutation_id s.mutations) s
  ]

  -- `IdempotencyRepository.Complete`
  unfoldable pub complete : Uuid → Uuid → ℤ → Option Json → Tx (Db R) ClientMutation
  complete user id status body s = elim (complete_row user id status body s.mutations) [
    | none ↦ (err not_found, s)
    | some (m, ms) ↦ (ok m, record s { mutations = ms })
  ]
