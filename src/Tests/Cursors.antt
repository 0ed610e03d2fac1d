-- ===== src/Tests/Cursors.antt =====
-- Cursors that are issued and read back.
use be_better.Prelude.{some, length, ℕ, ◌+◌, ◌*◌, ◌/◌, ◌≡◌, refl, inl, List, [], ◌∷◌, arith, All}
use be_better.Model.{
  Time, second, epoch_seconds, invalid_sync_cursor, invalid_cursor, ResourcePosition, ok, err,
}
use be_better.Codec.Bytes.{IsByte, big_endian, length-big_endian, big_endian-IsByte}
use be_better.Codec.Base64.{encode, decode, decode-encode}
use be_better.Codec.Mac.{LawfulMac, sign}
use be_better.Sync.Cursor.{cursor_payload, encode_cursor, decode_cursor}
use be_better.Sync.Cursor.Accepts.{
  Authentic, decode_cursor-encode_cursor, decode_cursor-other_user, decode_cursor-Authentic,
}
use be_better.Pagination.{
  ResourceCursorCodec, unix_nanos, scope_tag, resource_payload, encode_position, decode_position,
}
use be_better.Pagination.Accepts.{decode_position-encode_position, decode_position-other}

-- A tag that depends on the message by its first bytes.
abbrev mac : List ℕ → List ℕ
mac [] = big_endian 32 0
mac (b ∷ bs) = big_endian 32 b

mac-LawfulMac : LawfulMac mac
mac-LawfulMac = record { size = sizes; bytes = all_bytes }
  where
    sizes : (m : List ℕ) → length (mac m) ≡ 32
    sizes [] = length-big_endian 32 0
    sizes (b ∷ bs) = length-big_endian 32 b

    all_bytes : (m : List ℕ) → All IsByte (mac m)
    all_bytes [] = big_endian-IsByte 32 0
    all_bytes (b ∷ bs) = big_endian-IsByte 32 b

-- 2023-11-14T22:13:20.000000005Z
abbrev issued : Time
issued = (epoch_seconds + 1_700_000_000) * second + 5

abbrev cursor : List ℕ
cursor = encode (sign mac (cursor_payload 7 42 issued))

cursor-issued : encode_cursor mac 7 42 issued ≡ ok cursor
unfolding encode_cursor
cursor-issued = refl

decode_cursor-encode_cursor_example :
    decode_cursor mac (issued + second) 7 cursor ≡ ok (42, issued / second * second)
decode_cursor-encode_cursor_example =
    decode_cursor-encode_cursor mac mac-LawfulMac 7 42 issued (issued + second) cursor (omega arith)
      (omega arith) (omega arith) (omega arith) (omega arith) cursor-issued

decode_cursor-other_user_example : decode_cursor mac issued 8 cursor ≡ err invalid_sync_cursor
decode_cursor-other_user_example =
    decode_cursor-other_user mac mac-LawfulMac 7 42 issued issued 8 cursor (omega arith)
      (omega arith) (omega arith) cursor-issued

cursor-accepted : decode_cursor mac (issued + second) 7 cursor ≡ ok (42, issued / second * second)
cursor-accepted =
    decode_cursor-encode_cursor mac mac-LawfulMac 7 42 issued (issued + second) cursor (omega arith)
      (omega arith) (omega arith) (omega arith) (omega arith) cursor-issued

decode_cursor-Authentic_example :
    Authentic mac (issued + second) 7 cursor 42 (issued / second * second)
decode_cursor-Authentic_example =
    decode_cursor-Authentic mac (issued + second) 7 42 (issued / second * second) cursor
      cursor-accepted

abbrev codec : ResourceCursorCodec
codec = record { hash = mac; mac = mac }

abbrev position : ResourcePosition
position = record { updated_at = issued; id = 99 }

abbrev resource_cursor : List ℕ
resource_cursor =
    encode (sign mac (resource_payload 7 (unix_nanos issued) 99 (scope_tag codec "tasks")))

resource_cursor-issued : encode_position codec 7 "tasks" position ≡ ok resource_cursor
unfolding encode_position
resource_cursor-issued = refl

decode_position-encode_position_example :
    decode_position codec 7 "tasks" resource_cursor ≡ ok position
decode_position-encode_position_example =
    decode_position-encode_position codec mac-LawfulMac mac-LawfulMac 7 "tasks" position
      resource_cursor (omega arith) (omega arith) resource_cursor-issued (omega arith) (omega arith)

decode_position-other_example : decode_position codec 8 "tasks" resource_cursor ≡ err invalid_cursor
decode_position-other_example =
    decode_position-other codec mac-LawfulMac mac-LawfulMac 7 "tasks" position resource_cursor
      (omega arith) (omega arith) resource_cursor-issued 8 "tasks" (inl (omega arith))

decode-encode_example : decode (encode (1 ∷ 2 ∷ 255 ∷ 4 ∷ [])) ≡ some (1 ∷ 2 ∷ 255 ∷ 4 ∷ [])
decode-encode_example =
    decode-encode (1 ∷ 2 ∷ 255 ∷ 4 ∷ [])
      (omega arith, (omega arith, (omega arith, (omega arith, tt))))
