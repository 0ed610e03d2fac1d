-- ===== src/Identity/Password.antt =====
-- internal/auth/password.go. Argon2id, `base64.RawStdEncoding`, `fmt.Sscanf` with the two formats of
-- the file, SHA-256 and the random bytes are parameters; the observer of timings is left out.
pub mod Verifies
use Prim.Native.Char.{Char, code}
use Prim.Native.String.{◌++◌ as text_append}
use be_better.Prelude.{
  ℕ, ◌*◌, String, ◌=ˢ◌, Bool, true, false, not, ◌||◌, Option, none, some, List, [], ◌∷◌, ◌==◌,
  if◌then◌else◌, length, bytes_of, bytes_equal,
}
use be_better.Model.{Result, ok, err, failure}

-- The arguments and the result of `argon2.IDKey`.
pub record ArgonCost : Type 0 where
  pub iterations : ℕ
  pub memory : ℕ
  pub parallelism : ℕ

pub record Crypto : Type 0 where
  -- `argon2.IDKey(password, salt, ..., keyLen)`
  pub id_key : List ℕ → List ℕ → ArgonCost → ℕ → List ℕ
  -- `base64.RawStdEncoding`
  pub encode_std : List ℕ → String
  pub decode_std : String → Option (List ℕ)
  -- `fmt.Sscanf(text, "v=%d", ...)` and `fmt.Sscanf(text, "m=%d,t=%d,p=%d", ...)`
  pub scan_version : String → Option ℕ
  pub scan_cost : String → Option ArgonCost
  -- `base64.RawURLEncoding.EncodeToString` and `sha256.Sum256`
  pub encode_url : List ℕ → String
  pub sha256 : List ℕ → List ℕ

abbrev pub argon_cost : ArgonCost
argon_cost = record { iterations = 2; memory = 65_536; parallelism = 1 }

abbrev pub argon_key_length : ℕ
argon_key_length = 32

-- `argon2.Version`, 0x13
abbrev pub argon_version : ℕ
argon_version = 19

-- `first + "$" + rest`
abbrev pub dollar_join : String → String → String
dollar_join first rest = text_append first (String.◌∷◌ "$" rest)

-- `fmt.Sprintf("$argon2id$v=%d$m=%d,t=%d,p=%d$%s$%s", ...)`
abbrev pub hash_text : String → String → String
hash_text salt key = dollar_join "" (
    dollar_join "argon2id"
      (dollar_join "v=19" (dollar_join "m=65536,t=2,p=1" (dollar_join salt key))))

abbrev push : Char → List String → List String
push c [] = String.◌∷◌ c String.[] ∷ []
push c (x ∷ xs) = String.◌∷◌ c x ∷ xs

-- `strings.Split(encoded, "$")`
unfoldable pub split_dollar : String → List String
split_dollar String.[] = String.[] ∷ []
split_dollar (String.◌∷◌ c s) =
    let rest = split_dollar s in if code c == b'$' then String.[] ∷ rest else push c rest

pub record EncodedHash : Type 0 where
  pub algorithm : String
  pub version : String
  pub cost : String
  pub salt : String
  pub key : String

-- The parts after the first, where there are six.
abbrev pub six_parts : List String → Option EncodedHash
six_parts (prefix ∷ algorithm ∷ version ∷ cost ∷ salt ∷ key ∷ []) =
    some (record { algorithm = algorithm; version = version; cost = cost; salt = salt; key = key })
six_parts parts = none

-- `memory != argonMemory || iterations != argonIterations || parallelism != argonParallelism`
abbrev other_cost : ArgonCost → Bool
other_cost cost =
    not (cost.memory == 65_536) || not (cost.iterations == 2) || not (cost.parallelism == 1)

module _ (crypto : Crypto) where
  open crypto use {id_key, encode_std, decode_std, scan_version, scan_cost, encode_url, sha256}

  -- `HashPassword`, from what `rand.Read(salt)` answers
  unfoldable pub hash_password : Result (List ℕ) → String → Result String
  hash_password (err e) password = err e
  hash_password (ok salt) password =
      let key = id_key (bytes_of password) salt argon_cost argon_key_length in
      ok (hash_text (encode_std salt) (encode_std key))

  abbrev pub compare_key : ArgonCost → List ℕ → List ℕ → String → Bool
  compare_key cost salt expected password =
      bytes_equal (id_key (bytes_of password) salt cost (length expected)) expected

  abbrev pub verify_key : ArgonCost → List ℕ → Option (List ℕ) → String → Result Bool
  verify_key cost salt none password = err failure
  verify_key cost salt (some []) password = err failure
  verify_key cost salt (some (b ∷ bs)) password = ok (compare_key cost salt (b ∷ bs) password)

  abbrev pub verify_parts : EncodedHash → String → Result Bool
  verify_parts parts password =
      if not (parts.algorithm =ˢ "argon2id")
      then err failure
      else elim (scan_version parts.version) [
        | none ↦ err failure
        | some version ↦
            if not (version == argon_version) then err failure else elim (scan_cost parts.cost) [
              | none ↦ err failure
              | some cost ↦ elim (decode_std parts.salt) [
                | none ↦ err failure
                | some salt ↦ verify_key cost salt (decode_std parts.key) password
              ]
            ]
      ]

  -- `VerifyPassword`
  unfoldable pub verify_password : String → String → Result Bool
  verify_password encoded password = elim (six_parts (split_dollar encoded)) [
    | none ↦ err failure
    | some parts ↦ verify_parts parts password
  ]

  -- `PasswordHashNeedsUpgrade`
  unfoldable pub password_hash_needs_upgrade : String → Bool
  password_hash_needs_upgrade encoded = elim (six_parts (split_dollar encoded)) [
    | none ↦ true
    | some parts ↦ elim (scan_cost parts.cost) [ none ↦ true | some cost ↦ other_cost cost ]
  ]

  -- `HashToken`
  unfoldable pub hash_token : String → List ℕ
  hash_token token = sha256 (bytes_of token)

  -- `NewToken`, from what `rand.Read(raw)` answers
  unfoldable pub new_token : Result (List ℕ) → Result (String × List ℕ)
  new_token (err e) = err e
  new_token (ok raw) = ok (encode_url raw, sha256 (bytes_of (encode_url raw)))
