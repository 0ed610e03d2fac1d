-- ===== src/Tests/Identities.antt =====
-- Accounts, sessions and throttles at concrete inputs.
use Prim.Native.Char.{code}
use be_better.Prelude.{
  ℕ, zero, suc, ◌+◌, ◌%◌, ◌≡◌, refl, ap, ◌∙◌, String, ◌=ˢ◌, true, false, Option, none, some, List,
  [], ◌∷◌, arith, ◌==◌, if◌then◌else◌, length, bytes_of, bytes_equal,
}
use be_better.Model.{ok}
use be_better.Identity.Validation.{IdentityService}
use be_better.Identity.Store.{Account, active, UserRow, IdentityDb}
use be_better.Identity.Password.{
  Crypto, argon_cost, hash_text, hash_password, verify_password, password_hash_needs_upgrade,
}
use be_better.Identity.Password.Verifies.{DollarFree, LawfulCrypto, verify_password-hash_password}

-- A number in unary, ended by b.
abbrev unary : ℕ → String → String
unary zero rest = String.◌∷◌ "b" rest
unary (suc n) rest = String.◌∷◌ "a" (unary n rest)

abbrev encode : List ℕ → String
encode [] = String.[]
encode (b ∷ bs) = unary b (encode bs)

abbrev decode_from : ℕ → String → Option (List ℕ)
decode_from n String.[] = some []
decode_from n (String.◌∷◌ c s) =
    let more = decode_from (suc n) s in
    let next = decode_from 0 s in
    if code c == b'a' then more else elim next [ none ↦ none | some bs ↦ some (n ∷ bs) ]

abbrev pad : ℕ → List ℕ → List ℕ
pad zero bs = []
pad (suc n) [] = 0 ∷ pad n []
pad (suc n) (b ∷ bs) = b % 4 ∷ pad n bs

abbrev pub crypto : Crypto
crypto = record {
  id_key = λ password salt cost size. pad size password;
  encode_std = encode;
  decode_std = decode_from 0;
  scan_version = λ s. if s =ˢ "v=19" then some 19 else none;
  scan_cost = λ s. if s =ˢ "m=65536,t=2,p=1" then some argon_cost else none;
  encode_url = encode;
  sha256 = λ bytes. bytes;
}

decode_from-unary :
    (n m : ℕ) (s : String) {bs : List ℕ}
    → decode_from 0 s ≡ some bs
    → decode_from m (unary n s) ≡ some ((n + m) ∷ bs)
decode_from-unary zero m s {bs = bs} h = rw h (ap (λ k. some (k ∷ bs)) (omega arith))
decode_from-unary (suc n) m s {bs = bs} h =
    decode_from-unary n (suc m) s h ∙ ap (λ k. some (k ∷ bs)) (omega arith)

decode-encode : (bs : List ℕ) → decode_from 0 (encode bs) ≡ some bs
decode-encode [] = refl
decode-encode (b ∷ bs) =
    decode_from-unary b 0 (encode bs) (decode-encode bs) ∙ ap (λ k. some (k ∷ bs)) (omega arith)

unary-DollarFree : (n : ℕ) (s : String) → DollarFree s → DollarFree (unary n s)
unary-DollarFree zero s h = (refl, h)
unary-DollarFree (suc n) s h = (refl, unary-DollarFree n s h)

encode-DollarFree : (bs : List ℕ) → DollarFree (encode bs)
encode-DollarFree [] = tt
encode-DollarFree (b ∷ bs) = unary-DollarFree b (encode bs) (encode-DollarFree bs)

length-pad : (n : ℕ) (bs : List ℕ) → length (pad n bs) ≡ n
length-pad zero bs = refl
length-pad (suc n) [] = ap suc (length-pad n [])
length-pad (suc n) (b ∷ bs) = ap suc (length-pad n bs)

crypto-LawfulCrypto : LawfulCrypto crypto
crypto-LawfulCrypto = record {
  decodes = decode-encode;
  alphabet = encode-DollarFree;
  version_text = refl;
  cost_text = refl;
  key_size = λ password salt. length-pad 32 password;
}

abbrev salt : List ℕ
salt = 3 ∷ 1 ∷ []

abbrev pub stored_hash : String
stored_hash = hash_text (encode salt) (encode (pad 32 (bytes_of "correct horse")))

verify_password-hash_password_example :
    (verify_password crypto stored_hash "correct horse" ≡ ok true)
    × (verify_password crypto stored_hash "battery staple"
        ≡ ok (
            bytes_equal
              (crypto.id_key (bytes_of "battery staple") salt argon_cost 32)
              (crypto.id_key (bytes_of "correct horse") salt argon_cost 32)))
    × (password_hash_needs_upgrade crypto stored_hash ≡ false)
unfolding hash_password
verify_password-hash_password_example =
    verify_password-hash_password crypto crypto-LawfulCrypto salt "correct horse" stored_hash refl
      "battery staple"

-- One account, with the password "correct horse".
abbrev pub service : IdentityService
service = record {
  to_lower = λ s. s;
  sql_lower = λ s. s;
  parse_ip = λ s. some s;
  mac = λ bytes. bytes;
  crypto = crypto;
  dummy_hash = stored_hash;
  now = 40_000_000_000_000_000;
  new_uuid = λ n. ok (n + 20);
  random_salt = ok salt;
  random_token = ok (2 ∷ []);
}

abbrev pub account : Account
account = record {
  id = 1;
  email = "a@b.c";
  normalized_email = "a@b.c";
  display_name = "Ann";
  status = active;
  email_verified_at = none;
  created_at = 5;
  updated_at = 5;
}

abbrev pub users : List UserRow
users = record { account = account; password_hash = stored_hash; deleted_at = none } ∷ []

abbrev pub state : IdentityDb
state = record {
  users = users;
  settings = 1 ∷ [];
  sessions = [];
  tokens = [];
  throttles = [];
  outbox = [];
  clock = 40_000_000_000_000_000;
}
