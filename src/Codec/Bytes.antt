-- ===== src/Codec/Bytes.antt =====
-- `binary.BigEndian.PutUint64` and `Uint64`, and `uuid.UUID` as its 16 bytes.
use mathlib.Core.List.{reverse, reverse-reverse}
use native.Mathlib.Nat.{pow-suc}
use be_better.Prelude.{
  ℕ, zero, suc, ◌+◌, ◌*◌, ◌/◌, ◌%◌, ◌^◌, ◌<◌, ◌≡◌, refl, ap, ◌∙◌, List, [], ◌∷◌, arith, length,
  length-reverse, All, All-reverse,
}

abbrev pub IsByte : ℕ → Type 0
IsByte b = b < 256

-- The low `width` bytes, the least significant first.
unfoldable pub little_endian : ℕ → ℕ → List ℕ
little_endian zero x = []
little_endian (suc width) x = x % 256 ∷ little_endian width (x / 256)

unfoldable pub from_little_endian : List ℕ → ℕ
from_little_endian [] = 0
from_little_endian (b ∷ bs) = b + 256 * from_little_endian bs

unfoldable pub big_endian : ℕ → ℕ → List ℕ
unfolding little_endian
big_endian width x = reverse (little_endian width x)

unfoldable pub from_big_endian : List ℕ → ℕ
unfolding from_little_endian
from_big_endian bs = from_little_endian (reverse bs)

from_little_endian-little_endian :
    (width x : ℕ) → x < 256 ^ width → from_little_endian (little_endian width x) ≡ x
unfolding little_endian from_little_endian
from_little_endian-little_endian zero x h = omega arith
from_little_endian-little_endian (suc width) x h =
    let small : x / 256 < 256 ^ width = omega (arith, pow-suc 256 width) in
    omega (arith, from_little_endian-little_endian width (x / 256) small)

pub from_big_endian-big_endian :
    (width x : ℕ) → x < 256 ^ width → from_big_endian (big_endian width x) ≡ x
unfolding from_big_endian big_endian
from_big_endian-big_endian width x h =
    ap from_little_endian (reverse-reverse (little_endian width x))
    ∙ from_little_endian-little_endian width x h

length-little_endian : (width x : ℕ) → length (little_endian width x) ≡ width
unfolding little_endian
length-little_endian zero x = refl
length-little_endian (suc width) x = ap suc (length-little_endian width (x / 256))

pub length-big_endian : (width x : ℕ) → length (big_endian width x) ≡ width
unfolding big_endian
length-big_endian width x = length-reverse (little_endian width x) ∙ length-little_endian width x

little_endian-IsByte : (width x : ℕ) → All IsByte (little_endian width x)
unfolding little_endian
little_endian-IsByte zero x = tt
little_endian-IsByte (suc width) x = (omega arith, little_endian-IsByte width (x / 256))

pub big_endian-IsByte : (width x : ℕ) → All IsByte (big_endian width x)
unfolding big_endian
big_endian-IsByte width x =
    All-reverse IsByte (little_endian width x) (little_endian-IsByte width x)

-- `u[:]` and `copy(u[:], bytes)` of a `uuid.UUID`
abbrev pub uuid_bytes : ℕ → List ℕ
uuid_bytes = big_endian 16

-- `binary.BigEndian.PutUint64` and `Uint64`
abbrev pub uint64_bytes : ℕ → List ℕ
uint64_bytes = big_endian 8
