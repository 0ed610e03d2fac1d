-- ===== src/Identity/Validation.antt =====
-- The validation of internal/service/account.go, and what the account and the session service are given.
use Prim.Native.Char.{code}
use be_better.Prelude.{
  ℕ, String, Bool, true, false, not, ◌&&◌, ◌||◌, Option, List, ltb, leb, ◌==◌, if◌then◌else◌,
  length, bytes_of, rune_count, trim_space,
}
use be_better.Model.{Uuid, Time, Result, ok, err, validation}
use be_better.Identity.Password.{Crypto}

-- The fields of `AccountService` and `SessionService`. The readings of the clock, of `uuid.NewRandom`
-- (by their number in a call) and of the random generator belong to one call of a method.
pub record IdentityService : Type 0 where
  -- `strings.ToLower`
  pub to_lower : String → String
  -- `lower(btrim(...))` of the server
  pub sql_lower : String → String
  -- `netip.ParseAddr(value)` and then `Unmap().String()`
  pub parse_ip : String → Option String
  -- `hmac.New(sha256.New, hmacKey)`
  pub mac : List ℕ → List ℕ
  pub crypto : Crypto
  pub dummy_hash : String
  pub now : Time
  pub new_uuid : ℕ → Result Uuid
  pub random_salt : Result (List ℕ)
  pub random_token : Result (List ℕ)

-- `\s`
abbrev re_space : ℕ → Bool
re_space c = leb 9 c && leb c 10 || leb 12 c && leb c 13 || c == 32

-- `[^\s@]+` to the end, or nothing
abbrev plain : String → Bool
plain String.[] = true
plain (String.◌∷◌ c s) = not (re_space (code c)) && not (code c == b'@') && plain s

abbrev is_empty : String → Bool
is_empty String.[] = true
is_empty (String.◌∷◌ c s) = false

-- A dot that is neither first nor last.
abbrev inner_dot : Bool → String → Bool
inner_dot seen String.[] = false
inner_dot seen (String.◌∷◌ c s) = code c == b'.' && seen && not (is_empty s) || inner_dot true s

-- The pattern from its start, where `seen` says whether the part before the @ has a character yet.
abbrev matches_from : Bool → String → Bool
matches_from seen String.[] = false
matches_from seen (String.◌∷◌ c s) =
    let rest = matches_from true s in
    if code c == b'@' then seen && plain s && inner_dot false s else not (re_space (code c)) && rest

-- `emailPattern.MatchString`
unfoldable pub email_pattern_matches : String → Bool
email_pattern_matches = matches_from false

-- `NormalizeEmail`; `to_lower` is `strings.ToLower`
unfoldable pub normalize_email : (String → String) → String → Result String
normalize_email to_lower raw =
    let value = to_lower (trim_space raw) in
    if ltb (length (bytes_of value)) 3
      || ltb 254 (length (bytes_of value))
      || not (email_pattern_matches value)
    then err validation
    else ok value

-- `ValidateDisplayName`
unfoldable pub validate_display_name : String → Result String
validate_display_name raw =
    let value = trim_space raw in
    if ltb (rune_count value) 1 || ltb 80 (rune_count value) then err validation else ok value

-- `ValidatePassword`
unfoldable pub validate_password : String → Result (Unit {0})
validate_password value =
    if ltb (rune_count value) 10 || ltb 128 (rune_count value) then err validation else ok tt
