-- ===== src/Provisioning/Access.antt =====
-- Who may use the provisioning service: the first half of
-- firmware/components/provisioning_service/provisioning_security.c. A string is the list of its
-- bytes before the NUL, and `none` is the NULL pointer.
pub mod Equal
pub mod Session
pub mod Generation
use industrial_edge_monitor.Base.{
  ℕ, zero, suc, ◌+◌, ◌-◌, ◌*◌, ◌/◌, ◌^◌, Bool, true, false, ◌&&◌, ◌||◌, not, Option, none, some,
  List, [], ◌∷◌, ltb, leb, leb_ℤ, ltb_ℤ, ℤ, ◌==◌, if◌then◌else◌, u8, u32, bit_or, bit_xor, length,
  get_or, is_digit, codes, bytes_eq, take, max, is_empty,
}

-- The byte at an index, 0 past the end.
abbrev pub byte_at : List ℕ → ℕ → ℕ
byte_at text index = if ltb index (length text) then u8 (get_or text index 0) else 0

-- The loop from `index`, with the given number of rounds left. It has no early exit.
unfoldable pub accumulate : List ℕ → List ℕ → ℕ → ℕ → ℕ → ℕ
accumulate left right index zero difference = difference
accumulate left right index (suc rounds) difference =
    accumulate left right (index + 1) rounds
      (bit_or difference (bit_xor (byte_at left index) (byte_at right index)))

-- `unsigned` and `size_t` both have 32 bits on the device.
unfoldable pub constant_time_equal : Option (List ℕ) → Option (List ℕ) → Bool
unfolding accumulate
constant_time_equal none right = false
constant_time_equal (some left) none = false
constant_time_equal (some left) (some right) =
    accumulate left right 0 (max (length left) (length right))
      (u32 (bit_xor (length left) (length right)))
    == 0

abbrev pub json_type : List ℕ
json_type = codes "application/json"

-- `strncmp(content_type, "application/json", 16) == 0`, then the byte after it.
unfoldable pub json_body_allowed : Option (List ℕ) → ℕ → ℕ → Bool
json_body_allowed none size maximum = false
json_body_allowed (some content_type) size maximum =
    bytes_eq (take 16 content_type) json_type
    && ((get_or content_type 16 0 == 0 || get_or content_type 16 0 == b';')
        && (ltb 0 size && leb size maximum))

-- `request_csrf != NULL && stored_csrf != NULL && constant_time_equal(stored_csrf, request_csrf)`.
unfoldable pub csrf_matches : Option (List ℕ) → Option (List ℕ) → Bool
csrf_matches stored none = false
csrf_matches none (some request) = false
csrf_matches (some stored) (some request) = constant_time_equal (some stored) (some request)

unfoldable pub session_authorized :
    Option (List ℕ) → Option (List ℕ) → Option (List ℕ) → Option (List ℕ) → ℤ → ℤ → Bool → Bool
session_authorized none request stored_csrf request_csrf expires now modifying = false
session_authorized (some stored) none stored_csrf request_csrf expires now modifying = false
session_authorized (some stored) (some request) stored_csrf request_csrf expires now modifying =
    if is_empty stored
      || (leb_ℤ expires now || not (constant_time_equal (some stored) (some request)))
    then false
    else not modifying || csrf_matches stored_csrf request_csrf

unfoldable pub factory_confirmed : Option (List ℕ) → Bool
factory_confirmed none = false
factory_confirmed (some confirmation) =
    constant_time_equal (some confirmation) (some (codes "ERASE-DEVICE-CONFIGURATION"))

unfoldable pub stream_session_valid : ℕ → ℕ → ℤ → ℤ → Bool → Bool → Bool
stream_session_valid stream current expires now shutdown stopping =
    not shutdown
    && (not stopping && (not (stream == 0) && (stream == current && ltb_ℤ now expires)))

-- The digits from the cursor on; `none` is the return of false.
unfoldable pub parse_digits : List ℕ → ℕ → Option ℕ
parse_digits [] parsed = some parsed
parse_digits (character ∷ rest) parsed =
    let digit = character - b'0' in
    let next = parse_digits rest (parsed * 10 + digit) in
    if not (is_digit character)
    then none
    else if ltb ((2 ^ 64 - 1 - digit) / 10) parsed
    then none
    else next

abbrev nonzero : Option ℕ → Option ℕ
nonzero none = none
nonzero (some n) = if n == 0 then none else some n

-- The value stored into `*generation`, or `none` for the return of false. `output` says that the
-- output pointer is not NULL.
unfoldable pub parse_stream_generation : Option (List ℕ) → Bool → Option ℕ
unfolding parse_digits
parse_stream_generation none output = none
parse_stream_generation (some value) output =
    if not output || is_empty value then none else nonzero (parse_digits value 0)

abbrev equals : Option ℕ → ℕ → Bool
equals none n = false
equals (some m) n = m == n

unfoldable pub stream_request_authorized : Option (List ℕ) → ℕ → ℤ → ℤ → Bool
unfolding parse_stream_generation
stream_request_authorized requested authenticated expires now =
    not (authenticated == 0)
    && (ltb_ℤ now expires && equals (parse_stream_generation requested true) authenticated)
