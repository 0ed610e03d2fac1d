-- ===== src/Codec/Base64.antt =====
-- `base64.RawURLEncoding`: no padding, and a decoder that skips CR and LF and accepts any bits after
-- the last whole byte.
use mathlib.Core.Bool.{◌&&◌}
use be_better.Prelude.{
  ℕ, ◌+◌, ◌*◌, ◌/◌, ◌%◌, ◌-◌, ◌<◌, ◌≡◌, refl, ap, ◌∙◌, ◌||◌, List, [], ◌∷◌, Option, none, some,
  arith, leb, ltb, ◌==◌, All, if◌then◌else◌,
}
use be_better.Codec.Bytes.{IsByte}

-- The alphabet A-Z a-z 0-9 - _.
unfoldable pub digit_char : ℕ → ℕ
digit_char d =
    if ltb d 26
    then b'A' + d
    else if ltb d 52
    then b'a' + (d - 26)
    else if ltb d 62
    then b'0' + (d - 52)
    else if d == 62
    then b'-'
    else b'_'

unfoldable pub char_digit : ℕ → Option ℕ
char_digit c =
    if leb b'A' c && leb c b'Z'
    then some (c - b'A')
    else if leb b'a' c && leb c b'z'
    then some (c - b'a' + 26)
    else if leb b'0' c && leb c b'9'
    then some (c - b'0' + 52)
    else if c == b'-'
    then some 62
    else if c == b'_'
    then some 63
    else none

unfoldable pub encode : List ℕ → List ℕ
encode (a ∷ b ∷ c ∷ rest) =
    digit_char (a / 4)
    ∷ digit_char (a % 4 * 16 + b / 16)
    ∷ digit_char (b % 16 * 4 + c / 64)
    ∷ digit_char (c % 64)
    ∷ encode rest
encode (a ∷ b ∷ []) =
    digit_char (a / 4) ∷ digit_char (a % 4 * 16 + b / 16) ∷ digit_char (b % 16 * 4) ∷ []
encode (a ∷ []) = digit_char (a / 4) ∷ digit_char (a % 4 * 16) ∷ []
encode [] = []

abbrev first_byte : ℕ → ℕ → ℕ
first_byte d e = d * 4 + e / 16

abbrev second_byte : ℕ → ℕ → ℕ
second_byte e f = e % 16 * 16 + f / 4

abbrev third_byte : ℕ → ℕ → ℕ
third_byte f g = f % 4 * 64 + g

abbrev and_then {ℓ κ} : {A : Type ℓ} {B : Type κ} → Option A → (A → Option B) → Option B
and_then none f = none
and_then (some a) f = f a

-- Four digits are three bytes, which stand before the bytes that follow.
decode_quad : ℕ → ℕ → ℕ → ℕ → Option (List ℕ) → Option (List ℕ)
decode_quad p q r s later = and_then (char_digit p) λ d. and_then (char_digit q) λ e.
    and_then (char_digit r) λ f.
      and_then (char_digit s) λ g.
        and_then later λ bytes. some (first_byte d e ∷ second_byte e f ∷ third_byte f g ∷ bytes)

decode_three : ℕ → ℕ → ℕ → Option (List ℕ)
decode_three p q r = and_then (char_digit p) λ d.
    and_then (char_digit q)
      λ e. and_then (char_digit r) λ f. some (first_byte d e ∷ second_byte e f ∷ [])

decode_two : ℕ → ℕ → Option (List ℕ)
decode_two p q =
    and_then (char_digit p) λ d. and_then (char_digit q) λ e. some (first_byte d e ∷ [])

unfoldable pub decode_chars : List ℕ → Option (List ℕ)
unfolding decode_quad decode_three decode_two
decode_chars (p ∷ q ∷ r ∷ s ∷ rest) = decode_quad p q r s (decode_chars rest)
decode_chars (p ∷ q ∷ r ∷ []) = decode_three p q r
decode_chars (p ∷ q ∷ []) = decode_two p q
decode_chars (p ∷ []) = none
decode_chars [] = some []

unfoldable pub skip_newlines : List ℕ → List ℕ
skip_newlines [] = []
skip_newlines (c ∷ cs) =
    let rest = skip_newlines cs in if c == 10 || c == 13 then rest else c ∷ rest

unfoldable pub decode : List ℕ → Option (List ℕ)
decode cs = decode_chars (skip_newlines cs)

char_digit-digit_char : (d : ℕ) → d < 64 → char_digit (digit_char d) ≡ some d
unfolding char_digit digit_char
char_digit-digit_char d h = ground arith

skip_newlines-digit_char :
    (d : ℕ) (cs : List ℕ) → skip_newlines (digit_char d ∷ cs) ≡ digit_char d ∷ skip_newlines cs
unfolding skip_newlines digit_char
skip_newlines-digit_char d cs = ground arith

skip_newlines-encode : (bs : List ℕ) → skip_newlines (encode bs) ≡ encode bs
unfolding encode
skip_newlines-encode (a ∷ b ∷ c ∷ rest) = simp (skip_newlines-digit_char, skip_newlines-encode rest)
skip_newlines-encode (a ∷ b ∷ []) = simp skip_newlines-digit_char (unfold skip_newlines in refl)
skip_newlines-encode (a ∷ []) = simp skip_newlines-digit_char (unfold skip_newlines in refl)
skip_newlines-encode [] = unfold skip_newlines in refl

decode_quad-digits :
    (d e f g : ℕ) (later : List ℕ)
    → d < 64
    → e < 64
    → f < 64
    → g < 64
    → decode_quad (digit_char d) (digit_char e) (digit_char f) (digit_char g) (some later)
      ≡ some (first_byte d e ∷ second_byte e f ∷ third_byte f g ∷ later)
unfolding decode_quad
decode_quad-digits d e f g later hd he hf hg = rw (
  char_digit-digit_char d hd,
  char_digit-digit_char e he,
  char_digit-digit_char f hf,
  char_digit-digit_char g hg,
)

decode_three-digits :
    (d e f : ℕ)
    → d < 64
    → e < 64
    → f < 64
    → decode_three (digit_char d) (digit_char e) (digit_char f)
      ≡ some (first_byte d e ∷ second_byte e f ∷ [])
unfolding decode_three
decode_three-digits d e f hd he hf =
    rw (char_digit-digit_char d hd, char_digit-digit_char e he, char_digit-digit_char f hf)

decode_two-digits :
    (d e : ℕ)
    → d < 64
    → e < 64
    → decode_two (digit_char d) (digit_char e) ≡ some (first_byte d e ∷ [])
unfolding decode_two
decode_two-digits d e hd he = rw (char_digit-digit_char d hd, char_digit-digit_char e he)

decode_chars-encode : (bs : List ℕ) → All IsByte bs → decode_chars (encode bs) ≡ some bs
unfolding encode decode_chars
decode_chars-encode (a ∷ b ∷ c ∷ rest) h =
    ap
      (λ l.
        decode_quad (digit_char (a / 4)) (digit_char (a % 4 * 16 + b / 16))
          (digit_char (b % 16 * 4 + c / 64)) (digit_char (c % 64)) l)
      (decode_chars-encode rest (h.1.1.1))
    ∙ decode_quad-digits (a / 4) (a % 4 * 16 + b / 16) (b % 16 * 4 + c / 64) (c % 64) rest
        (omega arith) (omega arith) (omega arith) (omega arith)
    ∙ (ground arith)
decode_chars-encode (a ∷ b ∷ []) h =
    decode_three-digits (a / 4) (a % 4 * 16 + b / 16) (b % 16 * 4) (omega arith) (omega arith)
      (omega arith)
    ∙ (ground arith)
decode_chars-encode (a ∷ []) h =
    decode_two-digits (a / 4) (a % 4 * 16) (omega arith) (omega arith) ∙ (ground arith)
decode_chars-encode [] h = refl

-- Every byte string is read back from its encoding.
pub decode-encode : (bs : List ℕ) → All IsByte bs → decode (encode bs) ≡ some bs
unfolding decode
decode-encode bs h = rw (skip_newlines-encode bs) (decode_chars-encode bs h)
