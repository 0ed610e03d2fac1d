-- ===== src/Audit/Filter.antt =====
-- `filterAuditMap`, `filterAuditValue` and the tests on keys of internal/service/audit.go. A key is
-- compared as the code points of its normal form.
use Prim.Native.Char.{code}
use be_better.Prelude.{
  ℕ, String, Bool, true, false, ◌&&◌, ◌||◌, List, [], ◌∷◌, ◌==◌, if◌then◌else◌, bytes_equal,
}
use be_better.Model.{Json, array, object, Items, nil, cons, Fields, end, field}

pub record Unicode : Type 0 where
  -- `unicode.IsLetter(c) || unicode.IsDigit(c)`
  pub is_word : ℕ → Bool
  -- `unicode.ToLower`
  pub to_lower : ℕ → ℕ

unfoldable pub code_points : String → List ℕ
code_points String.[] = []
code_points (String.◌∷◌ c s) = code c ∷ code_points s

unfoldable pub keep_words : Unicode → List ℕ → List ℕ
keep_words u [] = []
keep_words u (c ∷ cs) =
    let rest = keep_words u cs in if u.is_word c then u.to_lower c ∷ rest else rest

-- `normalizeAuditKey`
abbrev pub normalize_audit_key : Unicode → String → List ℕ
normalize_audit_key u key = keep_words u (code_points key)

abbrev has_prefix : List ℕ → List ℕ → Bool
has_prefix [] cs = true
has_prefix (p ∷ ps) [] = false
has_prefix (p ∷ ps) (c ∷ cs) = p == c && has_prefix ps cs

-- `strings.Contains`
unfoldable pub contains : List ℕ → List ℕ → Bool
contains fragment [] = has_prefix fragment []
contains fragment (c ∷ cs) = has_prefix fragment (c ∷ cs) || contains fragment cs

unfoldable pub contains_any : List String → List ℕ → Bool
contains_any [] key = false
contains_any (f ∷ fs) key = contains (code_points f) key || contains_any fs key

abbrev pub sensitive_fragments : List String
sensitive_fragments =
    "password" ∷ "passphrase" ∷ "token" ∷ "secret" ∷ "apikey" ∷ "authorization" ∷ "cookie"
    ∷ "session" ∷ []

-- `isSensitiveAuditKey`
abbrev pub is_sensitive_audit_key : List ℕ → Bool
is_sensitive_audit_key key = contains_any sensitive_fragments key

abbrev pub equals_any : List String → List ℕ → Bool
equals_any [] key = false
equals_any (n ∷ ns) key = bytes_equal key (code_points n) || equals_any ns key

-- `isNoteBodyKey`
abbrev pub is_note_body_key : List ℕ → Bool
is_note_body_key key = equals_any ("body" ∷ "bodymarkdown" ∷ "markdown" ∷ "content" ∷ []) key

-- Whether `filterAuditMap` drops a key.
unfoldable pub drops : Unicode → Bool → String → Bool
drops u note key =
    let normal = normalize_audit_key u key in
    is_sensitive_audit_key normal || note && is_note_body_key normal

unfoldable mutual
  -- `filterAuditValue`
  pub filter_value : Unicode → Bool → Json → Json
  filter_value u note (object fields) = object (filter_fields u note fields)
  filter_value u note (array items) = array (filter_items u note items)
  filter_value u note value = value

  pub filter_items : Unicode → Bool → Items → Items
  filter_items u note nil = nil
  filter_items u note (cons value items) =
      cons (filter_value u note value) (filter_items u note items)

  -- `filterAuditMap`
  pub filter_fields : Unicode → Bool → Fields → Fields
  filter_fields u note end = end
  filter_fields u note (field key value fields) =
      let rest = filter_fields u note fields in
      let kept = filter_value u note value in if drops u note key then rest else field key kept rest
