-- ===== src/Pagination.antt =====
-- internal/service/resource_cursor.go: the cursors of resource lists. `hash` is SHA-256 and `mac` is
-- HMAC-SHA-256 under the codec's key.
pub mod Accepts
use be_better.Prelude.{
  ℕ, ◌+◌, ◌%◌, String, ◌=ˢ◌, bytes_of, Bool, not, ◌||◌, Option, none, some, List, [], ◌∷◌, ◌++◌,
  ltb, ◌==◌, if◌then◌else◌, take, drop, length, get_or, bytes_equal,
}
use be_better.Model.{
  Uuid, is_nil, Time, is_zero_time, max_int64, ResourcePosition, invalid_cursor, Result, ok, err,
}
use be_better.Codec.Bytes.{uuid_bytes, uint64_bytes, from_big_endian}
use be_better.Codec.Base64.{encode, decode}
use be_better.Codec.Mac.{sign, slice, tag_size}

-- `resourceCursorPayloadSize`
abbrev pub resource_payload_size : ℕ
resource_payload_size = 49

pub record ResourceCursorCodec : Type 0 where
  pub hash : List ℕ → List ℕ
  pub mac : List ℕ → List ℕ

-- `time.Unix(0, 0)` in nanoseconds after the origin.
abbrev pub epoch_nanos : ℕ
epoch_nanos = 62_167_219_200_000_000_000

-- `uint64(t.UnixNano())`: the difference to the epoch, modulo 2^64.
abbrev pub unix_nanos : Time → ℕ
unix_nanos t = (t + 11_619_757_094_838_206_464) % 18_446_744_073_709_551_616

abbrev pub scope_tag : ResourceCursorCodec → String → List ℕ
scope_tag codec scope = take 8 (codec.hash (bytes_of scope))

abbrev pub resource_payload : Uuid → ℕ → Uuid → List ℕ → List ℕ
resource_payload user timestamp id tag =
    1 ∷ (uuid_bytes user ++ (uint64_bytes timestamp ++ (uuid_bytes id ++ tag)))

-- `ResourceCursorCodec.Encode`
unfoldable pub encode_position :
    ResourceCursorCodec → Uuid → String → ResourcePosition → Result (List ℕ)
encode_position codec user scope position =
    if is_nil user || scope =ˢ "" || is_nil position.id || is_zero_time position.updated_at
    then err invalid_cursor
    else ok (
        encode (
          sign codec.mac (
            resource_payload user (unix_nanos position.updated_at) position.id
              (scope_tag codec scope))))

-- The checks on the fields of a payload whose tag is right.
unfoldable pub accept_position : Uuid → List ℕ → Uuid → ℕ → Uuid → List ℕ → Result ResourcePosition
accept_position user tag cursor_user timestamp id cursor_tag =
    if not (cursor_user == user) || not (bytes_equal cursor_tag tag)
    then err invalid_cursor
    else if ltb max_int64 timestamp
    then err invalid_cursor
    else ok (record { updated_at = timestamp + epoch_nanos; id = id })

unfoldable pub accept_resource :
    ResourceCursorCodec → Uuid → String → List ℕ → List ℕ → Result ResourcePosition
accept_resource codec user scope payload signature =
    if not (get_or payload 0 0 == 1) || not (bytes_equal signature (codec.mac payload))
    then err invalid_cursor
    else accept_position user (scope_tag codec scope) (from_big_endian (slice 1 16 payload))
        (from_big_endian (slice 17 8 payload)) (from_big_endian (slice 25 16 payload))
        (slice 41 8 payload)

-- `ResourceCursorCodec.Decode`
unfoldable pub decode_position :
    ResourceCursorCodec → Uuid → String → List ℕ → Result ResourcePosition
decode_position codec user scope cursor = elim (decode cursor) [
  | none ↦ err invalid_cursor
  | some decoded ↦
      if not (length decoded == resource_payload_size + tag_size)
      then err invalid_cursor
      else accept_resource codec user scope (take resource_payload_size decoded)
          (drop resource_payload_size decoded)
]
