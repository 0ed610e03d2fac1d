-- ===== src/Sync/Cursor/Payload.antt =====
-- The bytes of a signed payload of internal/service/sync.go, and how `decodeCursor` reads them.
use be_better.Prelude.{
  ℕ, ◌^◌, ◌<◌, ◌≡◌, ap, ◌∙◌, List, ◌∷◌, ◌++◌, arith, take, drop, length, length-append, take_prefix,
  drop_prefix, All, All-append, take_all, bytes_equal_refl,
}
use be_better.Model.{Uuid, Time}
use be_better.Codec.Bytes.{
  IsByte, big_endian, uuid_bytes, uint64_bytes, from_big_endian-big_endian, length-big_endian,
  big_endian-IsByte,
}
use be_better.Codec.Base64.{encode, decode-encode}
use be_better.Codec.Mac.{LawfulMac, sign, length-sign, slice}
use be_better.Sync.Cursor.{payload_size, accept_fields, accept_payload, decode_cursor}

-- The fields of a payload are read back, whatever stands in them.
module _ (user sequence issued : ℕ) where
  abbrev payload : List ℕ
  payload = 1 ∷ (uuid_bytes user ++ (uint64_bytes sequence ++ uint64_bytes issued))

  length-payload : length payload ≡ payload_size
  length-payload = omega (
    arith,
    length-append (uuid_bytes user) (uint64_bytes sequence ++ uint64_bytes issued),
    length-append (uint64_bytes sequence) (uint64_bytes issued),
    length-big_endian 16 user,
    length-big_endian 8 sequence,
    length-big_endian 8 issued,
  )

  slice-user : slice 1 16 payload ≡ uuid_bytes user
  slice-user =
      take_prefix 16 (uuid_bytes user) (uint64_bytes sequence ++ uint64_bytes issued)
        (length-big_endian 16 user)

  after_user : drop 17 payload ≡ uint64_bytes sequence ++ uint64_bytes issued
  after_user =
      drop_prefix 16 (uuid_bytes user) (uint64_bytes sequence ++ uint64_bytes issued)
        (length-big_endian 16 user)

  slice-sequence : slice 17 8 payload ≡ uint64_bytes sequence
  slice-sequence =
      ap (take 8) after_user
      ∙ take_prefix 8 (uint64_bytes sequence) (uint64_bytes issued) (length-big_endian 8 sequence)

  payload-IsByte : All IsByte payload
  payload-IsByte = (
    omega arith,
    All-append IsByte (uuid_bytes user) (uint64_bytes sequence ++ uint64_bytes issued)
        (big_endian-IsByte 16 user)
        (All-append IsByte (uint64_bytes sequence) (uint64_bytes issued)
          (big_endian-IsByte 8 sequence) (big_endian-IsByte 8 issued)),
  )

  slice-issued : slice 25 8 payload ≡ uint64_bytes issued
  unfolding big_endian
  slice-issued =
      ap (take 8) (
        ap (drop 8) after_user
        ∙ drop_prefix 8 (uint64_bytes sequence) (uint64_bytes issued)
            (length-big_endian 8 sequence))
      ∙ take_all 8 (uint64_bytes issued) (omega (arith, length-big_endian 8 issued))

  -- A signed payload is accepted when its fields are.
  pub decode_cursor-signed :
      (mac : List ℕ → List ℕ)
      → LawfulMac mac
      → (now : Time) (reader : Uuid) → user < 256 ^ 16
      → sequence < 256 ^ 8
      → issued < 256 ^ 8
      → decode_cursor mac now reader (encode (sign mac payload))
        ≡ accept_fields now reader user sequence issued
  unfolding decode_cursor accept_fields
  decode_cursor-signed mac lawful now reader hu hs hi = rw (
    decode_cursor,
    decode-encode (sign mac payload)
        (All-append IsByte payload (mac payload) payload-IsByte (lawful.bytes payload)),
    length-sign mac lawful payload_size payload length-payload,
    take_prefix payload_size payload (mac payload) length-payload,
    drop_prefix payload_size payload (mac payload) length-payload,
    accept_payload,
    bytes_equal_refl (mac payload),
    slice-user,
    slice-sequence,
    slice-issued,
    from_big_endian-big_endian 16 user hu,
    from_big_endian-big_endian 8 sequence hs,
    from_big_endian-big_endian 8 issued hi,
  )
