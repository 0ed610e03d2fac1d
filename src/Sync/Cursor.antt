-- ===== src/Sync/Cursor.antt =====
-- `encodeCursor` and `decodeCursor` of internal/service/sync.go. A sequence is an int64 that is
-- not negative.
pub mod Payload
pub mod Accepts
use be_better.Prelude.{
  ℕ, ◌+◌, ◌*◌, ◌/◌, ◌≤◌, ◌<◌, ◌≡◌, ◌≢◌, refl, ap, ◌∙◌, sym, Bool, true, false, not, ◌||◌, Option,
  none, some, List, [], ◌∷◌, ◌++◌, arith, ltb, ◌==◌, if◌then◌else◌, take, drop, length, get_or,
  length-append, take_prefix, drop_prefix, All, All-append, take-append-drop, bytes_equal,
  bytes_equal_refl, bytes_equal_sound,
}
use be_better.Model.{
  SyncChange, Uuid, is_nil, Time, minute, is_zero_time, epoch_seconds, unix_seconds,
  from_unix_seconds, max_int64, invalid_sync_cursor, Result, ok, err,
}
use be_better.Codec.Bytes.{
  IsByte, uuid_bytes, uint64_bytes, from_big_endian, from_big_endian-big_endian, length-big_endian,
  big_endian-IsByte,
}
use be_better.Codec.Base64.{encode, decode, decode-encode}
use be_better.Codec.Mac.{LawfulMac, sign, length-sign, slice, tag_size}

-- `syncCursorPayload`
abbrev pub payload_size : ℕ
payload_size = 33

abbrev pub cursor_payload : Uuid → ℕ → Time → List ℕ
cursor_payload user sequence issued =
    1 ∷ (uuid_bytes user ++ (uint64_bytes sequence ++ uint64_bytes (unix_seconds issued)))

-- `nextSequence`: where the page ends, or the sequence it began after.
abbrev pub end_of_page : ℕ → List SyncChange → ℕ
end_of_page sequence [] = sequence
end_of_page sequence (c ∷ cs) = end_of_page c.sequence cs

-- `SyncService.encodeCursor`
unfoldable pub encode_cursor : (List ℕ → List ℕ) → Uuid → ℕ → Time → Result (List ℕ)
encode_cursor mac user sequence issued =
    if is_nil user || is_zero_time issued
    then err invalid_sync_cursor
    else ok (encode (sign mac (cursor_payload user sequence issued)))

-- The checks on the fields of a payload whose tag is right.
unfoldable pub accept_fields : Time → Uuid → Uuid → ℕ → ℕ → Result (ℕ × Time)
accept_fields now user cursor_user sequence issued =
    if not (cursor_user == user) || ltb max_int64 sequence || ltb max_int64 issued
    then err invalid_sync_cursor
    else if ltb (now + 5 * minute) (from_unix_seconds issued)
    then err invalid_sync_cursor
    else ok (sequence, from_unix_seconds issued)

unfoldable pub accept_payload :
    (List ℕ → List ℕ) → Time → Uuid → List ℕ → List ℕ → Result (ℕ × Time)
accept_payload mac now user payload signature =
    if not (bytes_equal signature (mac payload)) || not (get_or payload 0 0 == 1)
    then err invalid_sync_cursor
    else accept_fields now user (from_big_endian (slice 1 16 payload))
        (from_big_endian (slice 17 8 payload)) (from_big_endian (slice 25 8 payload))

-- `SyncService.decodeCursor`, at its reading of the clock.
unfoldable pub decode_cursor : (List ℕ → List ℕ) → Time → Uuid → List ℕ → Result (ℕ × Time)
unfolding accept_payload
decode_cursor mac now user cursor = elim (decode cursor) [
  | none ↦ err invalid_sync_cursor
  | some decoded ↦
      if not (length decoded == payload_size + tag_size)
      then err invalid_sync_cursor
      else accept_payload mac now user (take payload_size decoded) (drop payload_size decoded)
]
