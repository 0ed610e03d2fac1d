-- ===== src/Sync/Cursor/Accepts.antt =====
-- Which cursors `decodeCursor` of internal/service/sync.go accepts.
use be_better.Prelude.{
  ℕ, ◌+◌, ◌*◌, ◌/◌, ◌-◌, ◌^◌, ◌≤◌, ◌<◌, ◌≡◌, ◌≢◌, refl, ap, subst, ◌∙◌, sym, not, none, some, List,
  ◌++◌, arith, ◌==◌, if◌then◌else◌, take, drop, length, get_or, take-append-drop, Option-cases, inl,
  inr, bytes_equal_sound,
}
use be_better.Model.{
  Uuid, Time, second, minute, epoch_seconds, unix_seconds, from_unix_seconds, max_int64,
  invalid_sync_cursor, ok, err,
}
use be_better.Codec.Bytes.{from_big_endian}
use be_better.Codec.Base64.{encode, decode}
use be_better.Codec.Mac.{LawfulMac, sign, slice, tag_size}
use be_better.Sync.Cursor.{
  payload_size, cursor_payload, encode_cursor, accept_fields, accept_payload, decode_cursor,
}
use be_better.Sync.Cursor.Payload.{decode_cursor-signed}

accept_fields-ok :
    (now : Time) (user sequence issued : ℕ)
    → sequence ≤ max_int64
    → issued ≤ max_int64
    → from_unix_seconds issued ≤ now + 5 * minute
    → accept_fields now user user sequence issued ≡ ok (sequence, from_unix_seconds issued)
unfolding accept_fields
accept_fields-ok now user sequence issued hs hi hn = ground arith

accept_fields-other :
    (now : Time) (reader user sequence issued : ℕ)
    → reader ≢ user
    → accept_fields now reader user sequence issued ≡ err invalid_sync_cursor
unfolding accept_fields
accept_fields-other now reader user sequence issued h = ground arith

unix_seconds-bound : (t : Time) → unix_seconds t < 256 ^ 8
unix_seconds-bound t = omega arith

encode_cursor-ok :
    (mac : List ℕ → List ℕ) (user sequence issued : ℕ) {cursor : List ℕ}
    → encode_cursor mac user sequence issued ≡ ok cursor
    → encode (sign mac (cursor_payload user sequence issued)) ≡ cursor
unfolding encode_cursor
encode_cursor-ok mac user sequence issued h = ground arith

module _ (mac : List ℕ → List ℕ) (lawful : LawfulMac mac) (user sequence issued : ℕ) where
  -- A cursor that was issued to a user for a sequence, at a time from 1970 on, is accepted from that
  -- user whenever the clock has not gone back more than five minutes since, with the sequence and
  -- the time of issue cut to the second.
  pub decode_cursor-encode_cursor :
      (now : Time) (cursor : List ℕ)
      → user < 256 ^ 16
      → sequence ≤ max_int64
      → epoch_seconds * second ≤ issued
      → issued / second < epoch_seconds + max_int64
      → issued ≤ now + 5 * minute
      → encode_cursor mac user sequence issued ≡ ok cursor
      → decode_cursor mac now user cursor ≡ ok (sequence, issued / second * second)
  decode_cursor-encode_cursor now cursor hu hs he hm hn h =
      let wrap : unix_seconds issued ≡ issued / second - epoch_seconds = omega arith in
      subst (λ c. decode_cursor mac now user c ≡ ok (sequence, issued / second * second))
        (encode_cursor-ok mac user sequence issued h)
        (decode_cursor-signed user sequence (unix_seconds issued) mac lawful now user hu
            (omega arith) (unix_seconds-bound issued)
          ∙ accept_fields-ok now user sequence (unix_seconds issued) hs (omega (arith, wrap))
              (omega (arith, wrap))
          ∙ ap (λ x. ok (sequence, x)) (omega (arith, wrap)))

  -- A cursor that was issued to one user, for a sequence that an int64 holds, is refused from every
  -- other.
  pub decode_cursor-other_user :
      (now : Time) (reader : Uuid) (cursor : List ℕ)
      → user < 256 ^ 16
      → sequence ≤ max_int64
      → reader ≢ user
      → encode_cursor mac user sequence issued ≡ ok cursor
      → decode_cursor mac now reader cursor ≡ err invalid_sync_cursor
  decode_cursor-other_user now reader cursor hu hs hr h =
      subst (λ c. decode_cursor mac now reader c ≡ err invalid_sync_cursor)
        (encode_cursor-ok mac user sequence issued h)
        (decode_cursor-signed user sequence (unix_seconds issued) mac lawful now reader hu
            (omega arith) (unix_seconds-bound issued)
          ∙ accept_fields-other now reader user sequence (unix_seconds issued) hr)

-- What an accepted cursor is: a payload of version 1 under its right tag, with the fields returned.
pub record Authentic (mac : List ℕ → List ℕ) (now : Time) (user : Uuid) (cursor : List ℕ)
    (sequence : ℕ) (issued : Time) : Type 0 where
  pub payload : List ℕ
  pub signed : decode cursor ≡ some (sign mac payload)
  pub version : get_or payload 0 0 ≡ 1
  pub owner : from_big_endian (slice 1 16 payload) ≡ user
  pub position : from_big_endian (slice 17 8 payload) ≡ sequence
  pub time : from_unix_seconds (from_big_endian (slice 25 8 payload)) ≡ issued
  pub in_range : sequence ≤ max_int64
  pub not_future : issued ≤ now + 5 * minute

accept_fields-Authentic :
    (now : Time) (user cursor_user n m sequence issued : ℕ)
    → accept_fields now user cursor_user n m ≡ ok (sequence, issued)
    → (cursor_user ≡ user)
      × (n ≡ sequence)
      × (from_unix_seconds m ≡ issued)
      × (sequence ≤ max_int64)
      × (issued ≤ now + 5 * minute)
unfolding accept_fields
accept_fields-Authentic now user cursor_user n m sequence issued h = ground arith

module _ (mac : List ℕ → List ℕ) (now : Time) (user : Uuid) (sequence : ℕ) (issued : Time) where
  accept_payload-Authentic :
      (payload signature : List ℕ)
      → accept_payload mac now user payload signature ≡ ok (sequence, issued)
      → (signature ≡ mac payload)
        × (get_or payload 0 0 ≡ 1)
        × (accept_fields now user
              (from_big_endian (slice 1 16 payload))
              (from_big_endian (slice 17 8 payload))
              (from_big_endian (slice 25 8 payload))
            ≡ ok (sequence, issued))
  unfolding accept_payload
  accept_payload-Authentic payload signature h =
      ground (arith, bytes_equal_sound signature (mac payload))

  accept_decoded :
      (decoded : List ℕ)
      → (if not (length decoded == payload_size + tag_size)
          then err invalid_sync_cursor
          else accept_payload mac now user (take payload_size decoded) (drop payload_size decoded))
        ≡ ok (sequence, issued)
      → accept_payload mac now user (take payload_size decoded) (drop payload_size decoded)
        ≡ ok (sequence, issued)
  accept_decoded decoded h = ground arith

  -- Only an authentic cursor is accepted: its bytes are a payload of version 1 followed by the tag
  -- of that payload, it names the reader, and its sequence and its time, which is at most five
  -- minutes ahead of the clock, are the ones returned.
  pub decode_cursor-Authentic :
      (cursor : List ℕ)
      → decode_cursor mac now user cursor ≡ ok (sequence, issued)
      → Authentic mac now user cursor sequence issued
  unfolding decode_cursor
  decode_cursor-Authentic cursor h = elim (Option-cases (decode cursor)) [
    | inl e ↦ absurd (cc (sym (decode_none e) ∙ h))
    | inr (decoded, e) ↦
        let accepted = accept_decoded decoded (sym (decode_some e) ∙ h) in
        let (tag, version, fields) =
          accept_payload-Authentic (take payload_size decoded) (drop payload_size decoded)
            accepted in
        let (owner, position, time, in_range, not_future) =
          accept_fields-Authentic now user _ _ _ sequence issued fields in
        record {
          payload = take payload_size decoded;
          signed =
              e
              ∙ ap some (
                  sym (take-append-drop payload_size decoded)
                  ∙ ap (λ t. take payload_size decoded ++ t) tag);
          version = version;
          owner = owner;
          position = position;
          time = time;
          in_range = in_range;
          not_future = not_future;
        }
  ]
    where
      decode_none :
          decode cursor ≡ none → decode_cursor mac now user cursor ≡ err invalid_sync_cursor
      decode_none e = rw (decode_cursor, e) refl

      decode_some :
          {decoded : List ℕ}
          → decode cursor ≡ some decoded
          → decode_cursor mac now user cursor ≡ (
              if not (length decoded == payload_size + tag_size)
              then err invalid_sync_cursor
              else accept_payload mac now user
                  (take payload_size decoded)
                  (drop payload_size decoded))
      decode_some e = rw (decode_cursor, e) refl
