-- ===== src/Settings/Merge.antt =====
-- What a merge of internal/service/settings.go holds under each key.
use be_better.Prelude.{
  String, ◌=ˢ◌, eq_iff, ◌≡◌, refl, ap, sym, subst, ◌∙◌, true, false, Option, none, some, arith,
  Bool-cases, inl, inr,
}
use be_better.Model.{
  Json, null, boolean, integer, fractional, text, array, object, Fields, end, field,
}
use be_better.Settings.{lookup, set_field, remove_field, as_object, merge_object, merge_key}

-- A decoded object has one value for a key.
abbrev pub DistinctKeys : Fields → Type 0
DistinctKeys end = Unit
DistinctKeys (field key value rest) = (lookup key rest ≡ none) × DistinctKeys rest

-- What stands under a key after its patch, by what stood there.
abbrev pub patched : Option Json → Json → Option Json
patched current null = none
patched current (object patch) = some (elim (as_object current) [
  | none ↦ object patch
  | some fields ↦ object (merge_object fields patch)
])
patched current value = some value

abbrev pub patched_by : Option Json → Option Json → Option Json
patched_by current none = current
patched_by current (some value) = patched current value

same_key : (a b c : String) → (b =ˢ c) ≡ true → (a =ˢ b) ≡ (a =ˢ c)
same_key a b c h = ap (λ x. a =ˢ x) ((eq_iff b c).0 h)

lookup-set_field_same :
    (key : String) (value : Json) (fs : Fields)
    → (key =ˢ key) ≡ true
    → lookup key (set_field key value fs) ≡ some value
lookup-set_field_same key value end h = ground (arith, h)
lookup-set_field_same key value (field k v rest) h =
    ground (arith, lookup-set_field_same key value rest h)

lookup-set_field_other :
    (other key : String) (value : Json) (fs : Fields)
    → (other =ˢ key) ≡ false
    → lookup other (set_field key value fs) ≡ lookup other fs
lookup-set_field_other other key value end h = ground (arith, h)
lookup-set_field_other other key value (field k v rest) h =
    let same = same_key other key k in ground (arith, lookup-set_field_other other key value rest h)

lookup-remove_field_same : (key : String) (fs : Fields) → lookup key (remove_field key fs) ≡ none
lookup-remove_field_same key end = refl
lookup-remove_field_same key (field k v rest) = ground (arith, lookup-remove_field_same key rest)

lookup-remove_field_other :
    (other key : String) (fs : Fields)
    → (other =ˢ key) ≡ false
    → lookup other (remove_field key fs) ≡ lookup other fs
lookup-remove_field_other other key end h = refl
lookup-remove_field_other other key (field k v rest) h =
    let same = same_key other key k in ground (arith, lookup-remove_field_other other key rest h)

lookup-merge_key_same :
    (merged : Fields) (key : String) (value : Json)
    → (key =ˢ key) ≡ true
    → lookup key (merge_key merged key value) ≡ patched (lookup key merged) value
unfolding merge_key
lookup-merge_key_same merged key null h = lookup-remove_field_same key merged
lookup-merge_key_same merged key (boolean b) h = lookup-set_field_same key (boolean b) merged h
lookup-merge_key_same merged key (integer n) h = lookup-set_field_same key (integer n) merged h
lookup-merge_key_same merged key (fractional s) h =
    lookup-set_field_same key (fractional s) merged h
lookup-merge_key_same merged key (text s) h = lookup-set_field_same key (text s) merged h
lookup-merge_key_same merged key (array xs) h = lookup-set_field_same key (array xs) merged h
lookup-merge_key_same merged key (object patch) h = lookup-set_field_same key _ merged h

lookup-merge_key_other :
    (merged : Fields) (other key : String) (value : Json)
    → (other =ˢ key) ≡ false
    → lookup other (merge_key merged key value) ≡ lookup other merged
unfolding merge_key
lookup-merge_key_other merged other key null h = lookup-remove_field_other other key merged h
lookup-merge_key_other merged other key (boolean b) h =
    lookup-set_field_other other key (boolean b) merged h
lookup-merge_key_other merged other key (integer n) h =
    lookup-set_field_other other key (integer n) merged h
lookup-merge_key_other merged other key (fractional s) h =
    lookup-set_field_other other key (fractional s) merged h
lookup-merge_key_other merged other key (text s) h =
    lookup-set_field_other other key (text s) merged h
lookup-merge_key_other merged other key (array xs) h =
    lookup-set_field_other other key (array xs) merged h
lookup-merge_key_other merged other key (object patch) h =
    lookup-set_field_other other key _ merged h

-- A merge is settled key by key, in whatever order the patch is walked: a key that the patch does
-- not name keeps its value, a null removes it, an object is merged into an object that stands
-- there, at every depth, and any other value replaces what stood there.
pub lookup-merge_object :
    (current patch : Fields) (key : String)
    → DistinctKeys patch
    → lookup key (merge_object current patch) ≡ patched_by (lookup key current) (lookup key patch)
unfolding merge_object
lookup-merge_object current end key h = refl
lookup-merge_object current (field k v rest) key h = elim (Bool-cases (key =ˢ k)) [
  | inl e ↦
      let same : key ≡ k = (eq_iff key k).0 e in
      lookup-merge_object (merge_key current k v) rest key h.1
      ∙ ap (λ o. patched_by (lookup key (merge_key current k v)) o)
          (ap (λ x. lookup x rest) same ∙ h.0)
      ∙ subst (λ x. lookup x (merge_key current k v) ≡ patched (lookup x current) v) (sym same)
          (lookup-merge_key_same current k v ((eq_iff k k).1 refl))
      ∙ rw e refl
  | inr e ↦
      lookup-merge_object (merge_key current k v) rest key h.1
      ∙ ap (λ o. patched_by o (lookup key rest)) (lookup-merge_key_other current key k v e)
      ∙ rw e refl
]
