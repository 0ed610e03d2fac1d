-- ===== src/Settings/Validation.antt =====
-- `validateSettingsObject` and `validateDepth` of internal/service/settings.go. All their errors are of
-- one class, so the order in which Go visits a map does not matter.
use be_better.Prelude.{
  ℕ, suc, pos, ltb_ℤ, String, ◌=ˢ◌, rune_count, one_of, Bool, true, false, not, ◌&&◌, ◌||◌, [], ◌∷◌,
  ltb, if◌then◌else◌,
}
use be_better.Model.{
  Json, null, boolean, integer, text, array, object, Items, nil, cons, Fields, end, field,
  validation, Result, ok, err,
}

abbrev max_settings_depth : ℕ
max_settings_depth = 3

unfoldable mutual
  -- `validateDepth(value, depth) != nil`
  pub too_deep : ℕ → Json → Bool
  too_deep depth (object fields) =
      ltb max_settings_depth depth || fields_too_deep (suc depth) fields
  too_deep depth (array items) = ltb max_settings_depth depth || items_too_deep (suc depth) items
  too_deep depth value = ltb max_settings_depth depth

  pub fields_too_deep : ℕ → Fields → Bool
  fields_too_deep depth end = false
  fields_too_deep depth (field key value rest) = too_deep depth value || fields_too_deep depth rest

  pub items_too_deep : ℕ → Items → Bool
  items_too_deep depth nil = false
  items_too_deep depth (cons value rest) = too_deep depth value || items_too_deep depth rest

abbrev is_null : Json → Bool
is_null null = true
is_null value = false

abbrev is_boolean : Json → Bool
is_boolean (boolean b) = true
is_boolean value = false

-- `raw.(float64)`, between 1 and 5 and without a fraction
abbrev is_energy : Json → Bool
is_energy (integer n) = not (ltb_ℤ n (pos 1)) && not (ltb_ℤ (pos 5) n)
is_energy value = false

abbrev is_data_mode : Json → Bool
is_data_mode (text s) = one_of ("local" ∷ "selected" ∷ []) s
is_data_mode value = false

abbrev item_count : Items → ℕ
item_count nil = 0
item_count (cons value rest) = suc (item_count rest)

abbrev is_focus_area : Json → Bool
is_focus_area (text s) = not (ltb (rune_count s) 1) && not (ltb 40 (rune_count s))
is_focus_area value = false

abbrev all_focus_areas : Items → Bool
all_focus_areas nil = true
all_focus_areas (cons value rest) = is_focus_area value && all_focus_areas rest

abbrev is_focus_areas : Json → Bool
is_focus_areas (array items) = not (ltb 20 (item_count items)) && all_focus_areas items
is_focus_areas value = false

abbrev is_permission : Bool → String → Json → Bool
is_permission patch key value =
    one_of ("goals" ∷ "calendar" ∷ "records" ∷ "privateNotes" ∷ []) key
    && (is_null value && patch || is_boolean value)

abbrev all_permissions : Bool → Fields → Bool
all_permissions patch end = true
all_permissions patch (field key value rest) =
    is_permission patch key value && all_permissions patch rest

abbrev is_permissions : Bool → ℕ → Json → Bool
is_permissions patch depth (object fields) =
    all_permissions patch fields && not (too_deep (suc depth) (object fields))
is_permissions patch depth value = false

abbrev switches : String → Bool
switches key =
    one_of ("aiEnabled" ∷ "remindersEnabled" ∷ "onboardingCompleted" ∷ "localOnly" ∷ []) key

-- One round of the loop, without its error.
abbrev is_setting : Bool → ℕ → String → Json → Bool
is_setting patch depth key value =
    if not (
      one_of
        ("energy" ∷ "aiEnabled" ∷ "remindersEnabled" ∷ "onboardingCompleted" ∷ "focusAreas"
          ∷ "dataMode" ∷ "localOnly" ∷ "permissions" ∷ [])
        key)
    then false
    else if patch && is_null value
    then true
    else if key =ˢ "energy"
    then is_energy value
    else if switches key
    then is_boolean value
    else if key =ˢ "dataMode"
    then is_data_mode value
    else if key =ˢ "focusAreas"
    then is_focus_areas value
    else is_permissions patch depth value

abbrev all_settings : Bool → ℕ → Fields → Bool
all_settings patch depth end = true
all_settings patch depth (field key value rest) =
    is_setting patch depth key value && all_settings patch depth rest

-- `validateSettingsObject`
unfoldable pub validate_settings_object : Fields → Bool → ℕ → Result (Unit {0})
validate_settings_object fields patch depth =
    if ltb max_settings_depth depth
    then err validation
    else if all_settings patch depth fields
    then ok tt
    else err validation
