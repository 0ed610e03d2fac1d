-- ===== src/Audit/Clean.antt =====
-- The documents that `sanitizeAuditObject` of internal/service/audit.go returns.
use be_better.Prelude.{
  ℕ, ◌≤◌, ◌<◌, subst, String, if◌then◌else◌, ◌≡◌, ◌⊎◌, inl, inr, Bool, true, false, arith, ltb,
  Bool-cases,
}
use be_better.Model.{
  Json, null, boolean, integer, fractional, text, array, object, Items, nil, cons, Fields, end,
  field, RawMessage, empty, blank, malformed, document, ok,
}
use be_better.Audit.Filter.{Unicode, drops, filter_value, filter_items, filter_fields}
use be_better.Audit.{AuditService, sanitize_audit_object, truncated, absent}

unfoldable mutual
  -- At no depth is there a key that the filter drops.
  pub Clean : Unicode → Bool → Json → Type 0
  Clean u note null = Unit
  Clean u note (boolean b) = Unit
  Clean u note (integer n) = Unit
  Clean u note (fractional s) = Unit
  Clean u note (text s) = Unit
  Clean u note (array items) = CleanItems u note items
  Clean u note (object fields) = CleanFields u note fields

  pub CleanItems : Unicode → Bool → Items → Type 0
  CleanItems u note nil = Unit
  CleanItems u note (cons value items) = Clean u note value × CleanItems u note items

  pub CleanFields : Unicode → Bool → Fields → Type 0
  CleanFields u note end = Unit
  CleanFields u note (field key value fields) =
      (drops u note key ≡ false) × Clean u note value × CleanFields u note fields

filter_field-Clean :
    (u : Unicode) (note : Bool) (key : String) (value : Json) (fields : Fields)
    → Clean u note value
    → CleanFields u note fields
    → CleanFields u note (if drops u note key then fields else field key value fields)
unfolding Clean
filter_field-Clean u note key value fields hv hf = elim (Bool-cases (drops u note key)) [
  | inl e ↦ rw e hf
  | inr e ↦ rw e (e, hv, hf)
]

mutual
  unfolding filter_value Clean

  filter_value-Clean :
      (u : Unicode) (note : Bool) (value : Json) → Clean u note (filter_value u note value)
  filter_value-Clean u note null = tt
  filter_value-Clean u note (boolean b) = tt
  filter_value-Clean u note (integer n) = tt
  filter_value-Clean u note (fractional s) = tt
  filter_value-Clean u note (text s) = tt
  filter_value-Clean u note (array items) = filter_items-Clean u note items
  filter_value-Clean u note (object fields) = filter_fields-Clean u note fields

  filter_items-Clean :
      (u : Unicode) (note : Bool) (items : Items) → CleanItems u note (filter_items u note items)
  filter_items-Clean u note nil = tt
  filter_items-Clean u note (cons value items) =
      (filter_value-Clean u note value, filter_items-Clean u note items)

  filter_fields-Clean :
      (u : Unicode) (note : Bool) (fields : Fields)
      → CleanFields u note (filter_fields u note fields)
  filter_fields-Clean u note end = tt
  filter_fields-Clean u note (field key value fields) =
      filter_field-Clean u note key (filter_value u note value) (filter_fields u note fields)
        (filter_value-Clean u note value) (filter_fields-Clean u note fields)

filtered-Clean :
    (u : Unicode) (note : Bool) (fields : Fields)
    → Clean u note (object (filter_fields u note fields))
unfolding Clean
filtered-Clean u note fields = filter_fields-Clean u note fields

-- What a snapshot that is stored may be: absent, a document with no key that the filter drops at any
-- depth and of at most `limit` bytes, or the marker of a longer one.
pub data Stored (service : AuditService) (note : Bool) (limit : ℕ) : RawMessage → Type 0 where
  nothing : Stored service note limit empty
  no_fields : Stored service note limit (document (object end))
  clean :
      {j : Json}
      → Clean service.unicode note j
      → service.encoded_size j ≤ limit
      → Stored service note limit (document j)
  marker : (size : ℕ) → limit < size → Stored service note limit (document (truncated size))

absent-Stored :
    (service : AuditService) (note : Bool) (limit : ℕ) (nullable : Bool)
    → Stored service note limit (absent nullable)
absent-Stored service note limit true = nothing
absent-Stored service note limit false = no_fields

-- Whatever `sanitizeAuditObject` returns is absent, an empty object, a document of at most `limit` bytes
-- that has no key that the filter drops at any depth, or the marker that a longer document was left
-- out.
pub sanitize_audit_object-Stored :
    (service : AuditService) (raw : RawMessage) (note : Bool) (limit : ℕ) (nullable : Bool)
    (out : RawMessage)
    → sanitize_audit_object service raw note limit nullable ≡ ok out
    → Stored service note limit out
unfolding sanitize_audit_object
sanitize_audit_object-Stored service empty note limit nullable out h =
    subst (Stored service note limit) (cc h) (absent-Stored service note limit nullable)
sanitize_audit_object-Stored service blank note limit nullable out h = absurd (cc h)
sanitize_audit_object-Stored service malformed note limit nullable out h = absurd (cc h)
sanitize_audit_object-Stored service (document null) note limit nullable out h =
    subst (Stored service note limit) (cc h) (absent-Stored service note limit nullable)
sanitize_audit_object-Stored service (document (boolean b)) note limit nullable out h =
    absurd (cc h)
sanitize_audit_object-Stored service (document (integer n)) note limit nullable out h =
    absurd (cc h)
sanitize_audit_object-Stored service (document (fractional s)) note limit nullable out h =
    absurd (cc h)
sanitize_audit_object-Stored service (document (text s)) note limit nullable out h = absurd (cc h)
sanitize_audit_object-Stored service (document (array items)) note limit nullable out h =
    absurd (cc h)
sanitize_audit_object-Stored service (document (object fields)) note limit nullable out h =
    subst (Stored service note limit) (cc h)
      (bounded (Bool-cases (ltb limit (service.encoded_size filtered))))
  where
    filtered : Json
    filtered = object (filter_fields service.unicode note fields)

    bounded :
        (ltb limit (service.encoded_size filtered) ≡ true)
          ⊎ (ltb limit (service.encoded_size filtered) ≡ false)
        → Stored service note limit (
            document (
              if ltb limit (service.encoded_size filtered)
              then truncated (service.encoded_size filtered)
              else filtered))
    bounded (inl e) = rw e (marker (service.encoded_size filtered) (ground (arith, e)))
    bounded (inr e) = rw e (clean (filtered-Clean service.unicode note fields) (ground (arith, e)))
