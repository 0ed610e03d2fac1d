-- ===== src/Identity/Password/Verifies.antt =====
-- What VerifyPassword of internal/auth/password.go accepts.
use Prim.Native.Char.{code}
use Prim.Native.String.append
use be_better.Prelude.{
  ℕ, ◌≡◌, refl, ap, ◌∙◌, String, true, false, some, List, [], ◌∷◌, ◌==◌, length, bytes_of,
  bytes_equal, bytes_equal_refl, subst, arith,
}
use be_better.Model.{ok}
use be_better.Identity.Password.{
  Crypto, argon_cost, dollar_join, split_dollar, hash_text, hash_password, ArgonCost, verify_key,
  compare_key, verify_password, password_hash_needs_upgrade,
}

-- No character is a dollar.
abbrev pub DollarFree : String → Type 0
DollarFree String.[] = Unit
DollarFree (String.◌∷◌ c s) = ((code c == b'$') ≡ false) × DollarFree s

-- Go's and Argon2id's documented behaviour that the file relies on.
pub record LawfulCrypto (crypto : Crypto) : Type 0 where
  pub decodes : (bytes : List ℕ) → crypto.decode_std (crypto.encode_std bytes) ≡ some bytes
  pub alphabet : (bytes : List ℕ) → DollarFree (crypto.encode_std bytes)
  pub version_text : crypto.scan_version "v=19" ≡ some 19
  pub cost_text : crypto.scan_cost "m=65536,t=2,p=1" ≡ some argon_cost
  pub key_size : (password salt : List ℕ) → length (crypto.id_key password salt argon_cost 32) ≡ 32

split_dollar-plain : (s : String) → DollarFree s → split_dollar s ≡ s ∷ []
unfolding split_dollar
split_dollar-plain String.[] h = refl
split_dollar-plain (String.◌∷◌ c s) h = rw (h.0, split_dollar-plain s h.1) refl

split_dollar-join :
    (s rest : String) → DollarFree s → split_dollar (dollar_join s rest) ≡ s ∷ split_dollar rest
unfolding split_dollar
split_dollar-join String.[] rest h = rw (append.nil (String.◌∷◌ "$" rest)) refl
split_dollar-join (String.◌∷◌ c s) rest h =
    rw (append.cons c s (String.◌∷◌ "$" rest), h.0, split_dollar-join s rest h.1) refl

verify_key-present :
    (crypto : Crypto) (cost : ArgonCost) (salt expected : List ℕ) (password : String)
    → length expected ≡ 32
    → verify_key crypto cost salt (some expected) password
      ≡ ok (compare_key crypto cost salt expected password)
verify_key-present crypto cost salt [] password h = absurd (omega arith)
verify_key-present crypto cost salt (b ∷ bs) password h = refl

split_dollar-hash_text :
    (salt key : String)
    → DollarFree salt
    → DollarFree key
    → split_dollar (hash_text salt key)
      ≡ "" ∷ "argon2id" ∷ "v=19" ∷ "m=65536,t=2,p=1" ∷ salt ∷ key ∷ []
split_dollar-hash_text salt key hs hk =
    rw
      (
        split_dollar-join "" _ tt,
        split_dollar-join "argon2id" _
            (refl, (refl, (refl, (refl, (refl, (refl, (refl, (refl, tt)))))))),
        split_dollar-join "v=19" _ (refl, (refl, (refl, (refl, tt)))),
        split_dollar-join "m=65536,t=2,p=1" _ (
          refl,
          (
            refl,
            (
              refl,
              (
                refl,
                (
                  refl,
                  (
                    refl,
                    (refl, (refl, (refl, (refl, (refl, (refl, (refl, (refl, (refl, tt))))))))),
                  ),
                ),
              ),
            ),
          ),
        ),
        split_dollar-join salt key hs,
        split_dollar-plain key hk,
      )
      refl

module _ (crypto : Crypto) (lawful : LawfulCrypto crypto) (salt : List ℕ) (password : String) where
  abbrev stored_key : List ℕ
  stored_key = crypto.id_key (bytes_of password) salt argon_cost 32

  abbrev stored_text : String
  stored_text = hash_text (crypto.encode_std salt) (crypto.encode_std stored_key)

  split_dollar-stored_text :
      split_dollar stored_text
      ≡ ""
        ∷ "argon2id"
        ∷ "v=19"
        ∷ "m=65536,t=2,p=1"
        ∷ crypto.encode_std salt
        ∷ crypto.encode_std stored_key
        ∷ []
  split_dollar-stored_text =
      split_dollar-hash_text _ _ (lawful.alphabet salt) (lawful.alphabet stored_key)

  verify_password-stored_text :
      (other : String)
      → verify_password crypto stored_text other
        ≡ ok (bytes_equal (crypto.id_key (bytes_of other) salt argon_cost 32) stored_key)
  unfolding verify_password
  verify_password-stored_text other =
      rw
        (
          verify_password,
          split_dollar-stored_text,
          lawful.version_text,
          lawful.cost_text,
          lawful.decodes salt,
          lawful.decodes stored_key,
          verify_key-present crypto argon_cost salt stored_key other
              (lawful.key_size (bytes_of password) salt),
          lawful.key_size (bytes_of password) salt,
        )
        refl

  upgrade-stored_text : password_hash_needs_upgrade crypto stored_text ≡ false
  unfolding password_hash_needs_upgrade
  upgrade-stored_text =
      rw (password_hash_needs_upgrade, split_dollar-stored_text, lawful.cost_text) refl

-- A password verifies against the hash that HashPassword made of it, another password exactly if
-- Argon2id gives it the same key, and the hash needs no upgrade.
pub verify_password-hash_password :
    (crypto : Crypto)
    → LawfulCrypto crypto
    → (salt : List ℕ) (password encoded : String)
    → hash_password crypto (ok salt) password ≡ ok encoded
    → (other : String)
    → (verify_password crypto encoded password ≡ ok true)
      × (verify_password crypto encoded other
          ≡ ok (
              bytes_equal
                (crypto.id_key (bytes_of other) salt argon_cost 32)
                (crypto.id_key (bytes_of password) salt argon_cost 32)))
      × (password_hash_needs_upgrade crypto encoded ≡ false)
unfolding hash_password
verify_password-hash_password crypto lawful salt password encoded h other =
    let same : stored_text crypto lawful salt password ≡ encoded = cc h in
    let known = verify_password-stored_text crypto lawful salt password in
    subst
      (λ e.
        (verify_password crypto e password ≡ ok true)
        × (verify_password crypto e other
            ≡ ok (
                bytes_equal (crypto.id_key (bytes_of other) salt argon_cost 32)
                  (stored_key crypto lawful salt password)))
        × (password_hash_needs_upgrade crypto e ≡ false))
      same
      (
        known password ∙ ap ok (bytes_equal_refl (stored_key crypto lawful salt password)),
        known other,
        upgrade-stored_text crypto lawful salt password,
      )
