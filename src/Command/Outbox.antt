-- ===== src/Command/Outbox.antt =====
-- `CommandService.prepareOutbox` of internal/service/command.go.
use be_better.Prelude.{ℕ, suc, ◌||◌, List, [], ◌∷◌, ltb, rune_count, trim_space, if◌then◌else◌}
use be_better.Model.{
  Uuid, is_nil, Time, is_zero_time, object, end, RawMessage, empty, document, OutboxDraft,
  validation, Result, ok, err, ◌>>=ᴿ◌ as ◌>>=◌,
}

-- The readings of `service.now` and `service.newUUID`, by the round of the transaction and the
-- index of the draft that asks.
pub record OutboxClock : Type 0 where
  pub now : ℕ → ℕ → Time
  pub new_uuid : ℕ → ℕ → Uuid

-- An empty payload is `{}`; any other must decode to a JSON object.
unfoldable pub outbox_payload : RawMessage → Result RawMessage
outbox_payload empty = ok (document (object end))
outbox_payload (document (object fs)) = ok (document (object fs))
outbox_payload _ = err validation

unfoldable pub prepare_draft : OutboxClock → ℕ → ℕ → OutboxDraft → Result OutboxDraft
unfolding outbox_payload
prepare_draft clock round index draft =
    let event_type = trim_space draft.event_type in
    let aggregate_type = trim_space draft.aggregate_type in
    if ltb (rune_count event_type) 1 || ltb 120 (rune_count event_type)
    then err validation
    else if ltb (rune_count aggregate_type) 1 || ltb 32 (rune_count aggregate_type)
    then err validation
    else if is_nil draft.aggregate_id
    then err validation
    else (do
      payload ← outbox_payload draft.payload
      ok (record {
        id = if is_nil draft.id then clock.new_uuid round index else draft.id;
        event_type = event_type;
        aggregate_type = aggregate_type;
        aggregate_id = draft.aggregate_id;
        payload = payload;
        available_at =
            if is_zero_time draft.available_at then clock.now round index else draft.available_at;
      }))

-- The loop: the first draft that is refused ends it.
unfoldable pub prepare_outbox : OutboxClock → ℕ → ℕ → List OutboxDraft → Result (List OutboxDraft)
prepare_outbox clock round index [] = ok []
prepare_outbox clock round index (draft ∷ drafts) = do
  prepared ← prepare_draft clock round index draft
  rest ← prepare_outbox clock round (suc index) drafts
  ok (prepared ∷ rest)
