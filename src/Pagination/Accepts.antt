-- ===== src/Pagination/Accepts.antt =====
-- Which cursors `ResourceCursorCodec.Decode` of internal/service/resource_cursor.go accepts.
use be_better.Prelude.{
  ℕ, zero, suc, ◌+◌, ◌^◌, ◌≤◌, ◌<◌, ◌≡◌, ◌≢◌, ap, ◌∙◌, subst, sym, String, bytes_of, List, [], ◌∷◌,
  ◌++◌, arith, take, drop, length, length-append, length-take, take_prefix, drop_prefix, take_all,
  All, All-append, bytes_equal_refl, bytes_equal_sound, ◌⊎◌, inl, inr, Bool-cases, bytes_equal,
}
use be_better.Model.{Uuid, Time, max_int64, ResourcePosition, invalid_cursor, ok, err}
use be_better.Codec.Bytes.{
  IsByte, big_endian, uuid_bytes, uint64_bytes, from_big_endian-big_endian, length-big_endian,
  big_endian-IsByte,
}
use be_better.Codec.Base64.{encode, decode-encode}
use be_better.Codec.Mac.{LawfulMac, sign, length-sign, slice}
use be_better.Pagination.{
  ResourceCursorCodec, resource_payload_size, epoch_nanos, unix_nanos, scope_tag, resource_payload,
  encode_position, accept_position, accept_resource, decode_position,
}

All-take : (n : ℕ) (bs : List ℕ) → All IsByte bs → All IsByte (take n bs)
All-take zero bs h = tt
All-take (suc n) [] h = tt
All-take (suc n) (b ∷ bs) h = (h.0, All-take n bs h.1)

-- The fields of a payload are read back, whatever stands in them.
module _ (user timestamp id : ℕ) (tag : List ℕ) (eight : length tag ≡ 8)
    (tag-IsByte : All IsByte tag) where
  abbrev payload : List ℕ
  payload = resource_payload user timestamp id tag

  length-payload : length payload ≡ resource_payload_size
  length-payload = omega (
    arith,
    length-append (uuid_bytes user) (uint64_bytes timestamp ++ (uuid_bytes id ++ tag)),
    length-append (uint64_bytes timestamp) (uuid_bytes id ++ tag),
    length-append (uuid_bytes id) tag,
    length-big_endian 16 user,
    length-big_endian 8 timestamp,
    length-big_endian 16 id,
    eight,
  )

  slice-user : slice 1 16 payload ≡ uuid_bytes user
  slice-user =
      take_prefix 16 (uuid_bytes user) (uint64_bytes timestamp ++ (uuid_bytes id ++ tag))
        (length-big_endian 16 user)

  after_user : drop 17 payload ≡ uint64_bytes timestamp ++ (uuid_bytes id ++ tag)
  after_user =
      drop_prefix 16 (uuid_bytes user) (uint64_bytes timestamp ++ (uuid_bytes id ++ tag))
        (length-big_endian 16 user)

  slice-timestamp : slice 17 8 payload ≡ uint64_bytes timestamp
  slice-timestamp =
      ap (take 8) after_user
      ∙ take_prefix 8 (uint64_bytes timestamp) (uuid_bytes id ++ tag)
          (length-big_endian 8 timestamp)

  after_timestamp : drop 25 payload ≡ uuid_bytes id ++ tag
  unfolding big_endian
  after_timestamp =
      ap (drop 8) after_user
      ∙ drop_prefix 8 (uint64_bytes timestamp) (uuid_bytes id ++ tag)
          (length-big_endian 8 timestamp)

  slice-id : slice 25 16 payload ≡ uuid_bytes id
  slice-id =
      ap (take 16) after_timestamp ∙ take_prefix 16 (uuid_bytes id) tag (length-big_endian 16 id)

  slice-tag : slice 41 8 payload ≡ tag
  unfolding big_endian
  slice-tag =
      ap (take 8) (
        ap (drop 16) after_timestamp ∙ drop_prefix 16 (uuid_bytes id) tag (length-big_endian 16 id))
      ∙ take_all 8 tag (omega (arith, eight))

  payload-IsByte : All IsByte payload
  payload-IsByte = (
    omega arith,
    All-append IsByte (uuid_bytes user) (uint64_bytes timestamp ++ (uuid_bytes id ++ tag))
        (big_endian-IsByte 16 user)
        (All-append IsByte (uint64_bytes timestamp) (uuid_bytes id ++ tag)
          (big_endian-IsByte 8 timestamp)
          (All-append IsByte (uuid_bytes id) tag (big_endian-IsByte 16 id) tag-IsByte)),
  )

  -- A signed payload is accepted when its fields are.
  decode_position-signed :
      (codec : ResourceCursorCodec)
      → LawfulMac codec.mac
      → (reader : Uuid) (scope : String) → user < 256 ^ 16
      → timestamp < 256 ^ 8
      → id < 256 ^ 16
      → decode_position codec reader scope (encode (sign codec.mac payload))
        ≡ accept_position reader (scope_tag codec scope) user timestamp id tag
  unfolding decode_position accept_position accept_resource
  decode_position-signed codec lawful reader scope hu ht hi = rw (
    decode_position,
    decode-encode (sign codec.mac payload)
        (All-append IsByte payload (codec.mac payload) payload-IsByte (lawful.bytes payload)),
    length-sign codec.mac lawful resource_payload_size payload length-payload,
    take_prefix resource_payload_size payload (codec.mac payload) length-payload,
    drop_prefix resource_payload_size payload (codec.mac payload) length-payload,
    accept_resource,
    bytes_equal_refl (codec.mac payload),
    slice-user,
    slice-timestamp,
    slice-id,
    slice-tag,
    from_big_endian-big_endian 16 user hu,
    from_big_endian-big_endian 8 timestamp ht,
    from_big_endian-big_endian 16 id hi,
  )

unix_nanos-bound : (t : Time) → unix_nanos t < 256 ^ 8
unix_nanos-bound t = omega arith

accept_position-ok :
    (user timestamp id : ℕ) (tag : List ℕ)
    → timestamp ≤ max_int64
    → accept_position user tag user timestamp id tag
      ≡ ok (record { updated_at = timestamp + epoch_nanos; id = id })
unfolding accept_position
accept_position-ok user timestamp id tag h = ground (arith, bytes_equal_refl tag)

accept_position-other :
    (reader user timestamp id : ℕ) (tag cursor_tag : List ℕ)
    → (reader ≢ user) ⊎ (tag ≢ cursor_tag)
    → accept_position reader tag user timestamp id cursor_tag ≡ err invalid_cursor
unfolding accept_position
accept_position-other reader user timestamp id tag cursor_tag (inl h) = ground arith
accept_position-other reader user timestamp id tag cursor_tag (inr h) =
    elim (Bool-cases (bytes_equal cursor_tag tag)) [
      | inl e ↦ absurd (h (sym (bytes_equal_sound cursor_tag tag e)))
      | inr e ↦ ground (arith, e)
    ]

encode_position-ok :
    (codec : ResourceCursorCodec) (user : Uuid) (scope : String) (position : ResourcePosition)
    {cursor : List ℕ}
    → encode_position codec user scope position ≡ ok cursor
    → encode (
        sign codec.mac (
          resource_payload user
            (unix_nanos position.updated_at)
            position.id
            (scope_tag codec scope)))
      ≡ cursor
unfolding encode_position
encode_position-ok codec user scope position h = ground arith

module _ (codec : ResourceCursorCodec) (lawful : LawfulMac codec.mac)
    (digest : LawfulMac codec.hash) (user : Uuid) (scope : String) (position : ResourcePosition)
    (cursor : List ℕ) (hu : user < 256 ^ 16) (hi : position.id < 256 ^ 16)
    (issued : encode_position codec user scope position ≡ ok cursor) where
  decode_position-issued :
      (reader : Uuid) (scope' : String)
      → decode_position codec reader scope' cursor
        ≡ accept_position reader
            (scope_tag codec scope')
            user
            (unix_nanos position.updated_at)
            position.id
            (scope_tag codec scope)
  decode_position-issued reader scope' =
      subst
        (λ c.
          decode_position codec reader scope' c
          ≡ accept_position reader (scope_tag codec scope') user (unix_nanos position.updated_at)
              position.id (scope_tag codec scope))
        (encode_position-ok codec user scope position issued)
        (decode_position-signed user (unix_nanos position.updated_at) position.id
          (scope_tag codec scope)
          (omega (arith, length-take 8 (codec.hash (bytes_of scope)), digest.size (bytes_of scope)))
          (All-take 8 (codec.hash (bytes_of scope)) (digest.bytes (bytes_of scope))) codec lawful
          reader scope' hu (unix_nanos-bound position.updated_at) hi)

  -- A cursor that was issued to a user in a scope, for a position at a time that an int64 of
  -- nanoseconds since 1970 holds, gives that position back, to the nanosecond, in that scope.
  pub decode_position-encode_position :
      epoch_nanos ≤ position.updated_at
      → position.updated_at ≤ epoch_nanos + max_int64
      → decode_position codec user scope cursor ≡ ok position
  decode_position-encode_position low high =
      let wrap : unix_nanos position.updated_at + epoch_nanos ≡ position.updated_at = omega arith in
      decode_position-issued user scope
      ∙ accept_position-ok user (unix_nanos position.updated_at) position.id (scope_tag codec scope)
          (omega (arith, wrap))
      ∙ ap (λ t. ok (record { updated_at = t; id = position.id })) wrap

  -- A cursor that was issued to one user in one scope is refused from another user, and in a scope
  -- whose hash differs in its first eight bytes.
  pub decode_position-other :
      (reader : Uuid) (scope' : String)
      → (reader ≢ user) ⊎ (scope_tag codec scope' ≢ scope_tag codec scope)
      → decode_position codec reader scope' cursor ≡ err invalid_cursor
  decode_position-other reader scope' other =
      decode_position-issued reader scope'
      ∙ accept_position-other reader user (unix_nanos position.updated_at) position.id
          (scope_tag codec scope') (scope_tag codec scope) other
