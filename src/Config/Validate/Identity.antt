-- ===== src/Config/Validate/Identity.antt =====
-- What an accepted device id is: a text that is safe as one level of an MQTT topic.
use industrial_edge_monitor.Base.{
  ℕ, zero, suc, ◌≤◌, ◌≡◌, ◌≢◌, refl, Bool, true, false, arith, List, [], ◌∷◌, ◌||◌, not, ltb, ◌==◌,
  if◌then◌else◌, take, length, get_or, c_str, bytes_eq_iff,
}
use industrial_edge_monitor.Config.Validate.{
  valid_device_id, all_id_characters, is_id_character, is_alphanumeric, any_equal, reserved_ids,
  contains,
}

-- The list does not hold the text.
abbrev pub NotIn : List ℕ → List (List ℕ) → Type 0
NotIn text [] = Unit {0}
NotIn text (r ∷ rs) = (text ≢ r) × NotIn text rs

any_equal-NotIn : (text : List ℕ) (rs : List (List ℕ)) → any_equal text rs ≡ false → NotIn text rs
any_equal-NotIn text [] h = tt
any_equal-NotIn text (r ∷ rs) h =
    (ground (arith, bytes_eq_iff text r), any_equal-NotIn text rs (ground arith))

-- No topic separator, wildcard or system prefix among identifier characters.
no_topic_character :
    (c : ℕ) (text : List ℕ)
    → is_id_character c ≡ false
    → all_id_characters text ≡ true
    → contains c text ≡ false
no_topic_character c [] bad h = refl
no_topic_character c (x ∷ xs) bad h =
    let rest = no_topic_character c xs bad (ground arith) in ground arith

c_str-take : (n : ℕ) (xs : List ℕ) → length xs ≤ n → c_str (take n xs) ≡ c_str xs
c_str-take zero [] h = refl
c_str-take zero (x ∷ xs) h = absurd (omega arith)
c_str-take (suc n) [] h = refl
c_str-take (suc n) (x ∷ xs) h = rw (c_str-take n xs (omega arith))

four_guards :
    (too_long first all reserved : Bool)
    → (if too_long
        then false
        else if not first
        then false
        else if not all
        then false
        else not reserved)
      ≡ true
    → (too_long ≡ false) × (first ≡ true) × (all ≡ true) × (reserved ≡ false)
four_guards too_long first all reserved h = ground arith

length_bounds : (n : ℕ) → (n == 0 || ltb 63 n) ≡ false → (1 ≤ n) × (n ≤ 63)
length_bounds n h = ground arith

valid_device_id-guards :
    (value : List ℕ)
    → length value ≡ 64
    → valid_device_id value ≡ true
    → ((length (c_str value) == 0 || ltb 63 (length (c_str value))) ≡ false)
      × (is_alphanumeric (get_or value 0 0) ≡ true)
      × (all_id_characters (c_str value) ≡ true)
      × (any_equal (c_str value) reserved_ids ≡ false)
unfolding valid_device_id
valid_device_id-guards value size h =
    four_guards _ _ _ _ (rw (c_str-take 64 value (omega arith)) at h)

-- A device id that is accepted, in an array of its size, has 1 to 63 characters, begins with a
-- letter or a digit, has no character that structures an MQTT topic (`/`, `+`, `#`) and no `$`, and
-- is none of the reserved identities.
pub valid_device_id_lem :
    (value : List ℕ)
    → length value ≡ 64
    → valid_device_id value ≡ true
    → let text = c_str value in
      (1 ≤ length text)
      × (length text ≤ 63)
      × (is_alphanumeric (get_or value 0 0) ≡ true)
      × (contains b'/' text ≡ false)
      × (contains b'+' text ≡ false)
      × (contains b'#' text ≡ false)
      × (contains b'$' text ≡ false)
      × NotIn text reserved_ids
valid_device_id_lem value size h =
    let parts = valid_device_id-guards value size h in
    let bounds = length_bounds (length (c_str value)) parts.0 in
    (
      bounds.0,
      bounds.1,
      parts.1,
      no_topic_character b'/' (c_str value) refl parts.2,
      no_topic_character b'+' (c_str value) refl parts.2,
      no_topic_character b'#' (c_str value) refl parts.2,
      no_topic_character b'$' (c_str value) refl parts.2,
      any_equal-NotIn (c_str value) reserved_ids parts.3,
    )
