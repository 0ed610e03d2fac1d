-- ===== src/Codec/Mac.antt =====
-- `hmac.New(sha256.New, key)` as the function from a message to its tag, and the tokens that are a
-- payload followed by its tag.
use be_better.Prelude.{ℕ, ◌+◌, ◌≡◌, List, ◌++◌, take, drop, length, length-append, All, arith}
use be_better.Codec.Bytes.{IsByte}

-- `sha256.Size`
abbrev pub tag_size : ℕ
tag_size = 32

-- A tag is 32 bytes.
pub record LawfulMac (mac : List ℕ → List ℕ) : Type 0 where
  pub size : (message : List ℕ) → length (mac message) ≡ tag_size
  pub bytes : (message : List ℕ) → All IsByte (mac message)

-- `append(payload, mac.Sum(nil)...)`
abbrev pub sign : (List ℕ → List ℕ) → List ℕ → List ℕ
sign mac payload = payload ++ mac payload

pub length-sign :
    (mac : List ℕ → List ℕ)
    → LawfulMac mac
    → (n : ℕ) (payload : List ℕ) → length payload ≡ n
    → length (sign mac payload) ≡ n + tag_size
length-sign mac lawful n payload h =
    omega (arith, length-append payload (mac payload), lawful.size payload, h)

-- `bytes[from:from+size]`
abbrev pub slice : ℕ → ℕ → List ℕ → List ℕ
slice from size bytes = take size (drop from bytes)
