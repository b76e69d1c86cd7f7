-- ===== src/Config/Validate.antt =====
-- Validation of a configuration: the checks of firmware/components/device_config/device_config.c.
-- The X.509 parser is a third-party library: `parses` says whether `mbedtls_x509_crt_parse` returns
-- 0 on a text.
pub mod Port
pub mod Uri
pub mod Identity
pub mod Accepted
use industrial_edge_monitor.Base.{
  ℕ, ◌+◌, ◌-◌, ◌*◌, Bool, true, false, ◌&&◌, ◌||◌, not, Option, none, some, List, [], ◌∷◌, ltb, leb,
  ◌==◌, if◌then◌else◌, ℤ, pos, negsuc, u32, get_or, take, drop, length, c_str, has_nul, bytes_eq,
  is_digit, is_empty, codes, EspErr, esp_ok, invalid_arg, leb_ℤ, snprintf_text,
}
use industrial_edge_monitor.Config.{
  DeviceConfig, schema_version_current, device_id_max, wifi_password_max, machine_disabled,
  machine_gpio, pull_none, pull_down,
}

abbrev pub is_alphanumeric : ℕ → Bool
is_alphanumeric c =
    leb b'A' c && leb c b'Z' || (leb b'a' c && leb c b'z' || leb b'0' c && leb c b'9')

abbrev pub is_id_character : ℕ → Bool
is_id_character c = is_alphanumeric c || (c == b'.' || (c == b'_' || c == b'-'))

abbrev pub all_id_characters : List ℕ → Bool
all_id_characters [] = true
all_id_characters (c ∷ cs) = is_id_character c && all_id_characters cs

abbrev pub any_equal : List ℕ → List (List ℕ) → Bool
any_equal value [] = false
any_equal value (r ∷ rs) = bytes_eq value r || any_equal value rs

unfoldable pub reserved_ids : List (List ℕ)
reserved_ids =
    codes "collector"
    ∷ codes "healthcheck"
    ∷ codes "simulator"
    ∷ codes "legacy-test"
    ∷ codes "legacy-device"
    ∷ []

-- Of a `char` array: `strnlen` reads at most `device_id_max + 1` of its bytes.
unfoldable pub valid_device_id : List ℕ → Bool
valid_device_id value =
    let text = c_str (take (device_id_max + 1) value) in
    if length text == 0 || ltb device_id_max (length text)
    then false
    else if not (is_alphanumeric (get_or value 0 0))
    then false
    else if not (all_id_characters text)
    then false
    else not (any_equal (c_str value) reserved_ids)

abbrev pub terminated : List ℕ → Bool
terminated = has_nul

abbrev pub any_number : ℕ → List ℕ → Bool
any_number n [] = false
any_number n (r ∷ rs) = n == r || any_number n rs

abbrev pub reserved_gpios : List ℕ
reserved_gpios = 0 ∷ 1 ∷ 2 ∷ 3 ∷ 5 ∷ 6 ∷ 7 ∷ 8 ∷ 9 ∷ 10 ∷ 11 ∷ 12 ∷ 15 ∷ 21 ∷ 22 ∷ []

unfoldable pub gpio_allowed : ℤ → Bool
gpio_allowed (negsuc n) = false
gpio_allowed (pos n) = if ltb 39 n then false else not (any_number n reserved_gpios)

-- `strchr`: the text before the first such character and the text after it.
unfoldable pub split_first : ℕ → List ℕ → Option (List ℕ × List ℕ)
split_first c [] = none
split_first c (x ∷ xs) =
    if x == c
    then some ([], xs)
    else elim (split_first c xs) [ none ↦ none | some (before, after) ↦ some (x ∷ before, after) ]

-- `strrchr`: the same around the last one.
unfoldable pub split_last : ℕ → List ℕ → Option (List ℕ × List ℕ)
split_last c [] = none
split_last c (x ∷ xs) = elim (split_last c xs) [
  | none ↦ if x == c then some ([], xs) else none
  | some (before, after) ↦ some (x ∷ before, after)
]

abbrev pub contains : ℕ → List ℕ → Bool
contains c [] = false
contains c (x ∷ xs) = x == c || contains c xs

abbrev pub is_space : ℕ → Bool
is_space c = c == 32 || (c == 9 || (c == 13 || c == 10))

abbrev pub contains_space : List ℕ → Bool
contains_space [] = false
contains_space (x ∷ xs) = is_space x || contains_space xs

-- The loop over the port's text, and the last test.
unfoldable pub valid_port_from : ℕ → List ℕ → Bool
valid_port_from port [] = ltb 0 port
valid_port_from port (c ∷ cs) =
    let next = u32 (port * 10 + (c - b'0')) in
    let rest = valid_port_from next cs in
    if not (is_digit c)
    then false
    else if ltb 6553 port
    then false
    else if ltb 65535 next
    then false
    else rest

-- From `port_separator + 1` on.
unfoldable pub valid_port : List ℕ → Bool
valid_port text = if is_empty text then false else valid_port_from 0 text

-- With `[`: what follows the first `]`.
unfoldable pub valid_bracketed : Option (List ℕ × List ℕ) → Bool
valid_bracketed none = false
valid_bracketed (some (before, after)) =
    if length before == 1 || not (get_or after 0 0 == b':')
    then false
    else valid_port (drop 1 after)

-- Without: what stands around the last `:`.
unfoldable pub valid_named : Option (List ℕ × List ℕ) → Bool
valid_named none = false
valid_named (some (before, after)) = if is_empty before then false else valid_port after

abbrev pub scheme : List ℕ
scheme = codes "mqtts://"

unfoldable pub valid_authority : List ℕ → Bool
valid_authority authority =
    if get_or authority 0 0 == b'['
    then valid_bracketed (split_first b']' authority)
    else valid_named (split_last b':' authority)

unfoldable pub valid_uri_text : List ℕ → Bool
valid_uri_text text =
    if not (bytes_eq (take 8 text) scheme)
      || (is_empty (drop 8 text) || (contains b'@' (drop 8 text) || contains_space text))
    then false
    else valid_authority (drop 8 text)

-- Of the string that the array holds.
unfoldable pub valid_mqtts_uri : List ℕ → Bool
unfolding valid_uri_text
valid_mqtts_uri value = valid_uri_text (c_str value)

-- The rejections, one for each message.
pub data Complaint : Type 0 where
  configuration_required schema_unsupported revision_zero device_id_bad ssid_missing : Complaint
  wifi_password_length broker_uri_bad username_not_device password_missing client_id_bad : Complaint
  certificate_missing certificate_not_pem interval_range provider_unsupported : Complaint
  gpio_reserved gpio_no_pulls pull_bad window_range session_range : Complaint

unfoldable pub message : Complaint → List ℕ
message configuration_required = codes "configuration is required"
message schema_unsupported = codes "unsupported schema_version"
message revision_zero = codes "revision must be greater than zero"
message device_id_bad = codes "device_id is invalid or reserved"
message ssid_missing = codes "wifi_ssid is required"
message wifi_password_length = codes "wifi_password must be 8-63 characters"
message broker_uri_bad =
    codes "mqtt_broker_uri must be mqtts://host:port without credentials or path"
message username_not_device = codes "mqtt_username must equal device_id for broker ACL isolation"
message password_missing = codes "mqtt_password is required"
message client_id_bad = codes "mqtt_client_id is invalid or not distinct"
message certificate_missing = codes "mqtt_ca_certificate must contain a PEM certificate"
message certificate_not_pem = codes "mqtt_ca_certificate is not valid PEM"
message interval_range = codes "telemetry_interval_seconds must be 1-3600"
message provider_unsupported = codes "machine_status_provider is unsupported"
message gpio_reserved = codes "machine_status_gpio is reserved or unsupported"
message gpio_no_pulls = codes "GPIO 34-39 do not support internal pulls"
message pull_bad = codes "machine_status_pull is invalid"
message window_range = codes "maintenance_window_seconds must be 60-1800"
message session_range = codes "maintenance_max_session_seconds must cover the window and be <=3600"

abbrev pub begin_certificate : List ℕ
begin_certificate = codes "-----BEGIN CERTIFICATE-----"

abbrev pub starts_with : List ℕ → List ℕ → Bool
starts_with [] text = true
starts_with (p ∷ ps) [] = false
starts_with (p ∷ ps) (x ∷ xs) = p == x && starts_with ps xs

-- `strstr(text, part) != NULL`.
unfoldable pub has_part : List ℕ → List ℕ → Bool
has_part part [] = starts_with part []
has_part part (x ∷ xs) = starts_with part (x ∷ xs) || has_part part xs

abbrev pub is_bad_client_id : List ℕ → List ℕ → Bool
is_bad_client_id client username =
    not (terminated client)
    || (get_or client 0 0 == 0
        || (bytes_eq (c_str client) (c_str username)
            || (contains b'/' (c_str client)
                || (contains b'+' (c_str client) || contains b'#' (c_str client)))))

-- The checks of the GPIO provider.
unfoldable pub check_gpio : DeviceConfig → Option Complaint
check_gpio c =
    if not (gpio_allowed c.machine_status_gpio)
    then some gpio_reserved
    else if leb_ℤ (pos 34) c.machine_status_gpio && not (c.machine_status_pull == pull_none)
    then some gpio_no_pulls
    else none

-- The numeric checks, from the telemetry interval on.
unfoldable pub check_ranges : DeviceConfig → Option Complaint
check_ranges c =
    if ltb c.telemetry_interval_seconds 1 || ltb 3600 c.telemetry_interval_seconds
    then some interval_range
    else if not (c.machine_status_provider == machine_disabled)
        && not (c.machine_status_provider == machine_gpio)
    then some provider_unsupported
    else elim (if c.machine_status_provider == machine_gpio then check_gpio c else none) [
      | some complaint ↦ some complaint
      | none ↦
          if ltb pull_down c.machine_status_pull
          then some pull_bad
          else if ltb c.maintenance_window_seconds 60 || ltb 1800 c.maintenance_window_seconds
          then some window_range
          else if ltb c.maintenance_max_session_seconds c.maintenance_window_seconds
              || ltb 3600 c.maintenance_max_session_seconds
          then some session_range
          else none
    ]

-- `validation_error`, and the empty text that success leaves. A NULL buffer is size 0.
abbrev pub error_text : ℕ → List ℕ → Option (List ℕ)
error_text size text = if ltb 0 size then some (snprintf_text size text) else none

module _ (parses : List ℕ → Bool) where
  -- The checks of the MQTT identity, from the username on.
  unfoldable pub check_identity : DeviceConfig → Option Complaint
  check_identity c =
      if not (terminated c.mqtt_username)
        || not (bytes_eq (c_str c.mqtt_username) (c_str c.device_id))
      then some username_not_device
      else if not (terminated c.mqtt_password) || get_or c.mqtt_password 0 0 == 0
      then some password_missing
      else if is_bad_client_id c.mqtt_client_id c.mqtt_username
      then some client_id_bad
      else if not (terminated c.mqtt_ca_certificate)
          || not (has_part begin_certificate (c_str c.mqtt_ca_certificate))
      then some certificate_missing
      else if not (parses (c_str c.mqtt_ca_certificate))
      then some certificate_not_pem
      else check_ranges c

  -- The first complaint, `none` for a configuration that is accepted.
  unfoldable pub check : DeviceConfig → Option Complaint
  check c =
      if not (c.schema_version == schema_version_current)
      then some schema_unsupported
      else if c.revision == 0
      then some revision_zero
      else if not (terminated c.device_id) || not (valid_device_id c.device_id)
      then some device_id_bad
      else if not (terminated c.wifi_ssid) || get_or c.wifi_ssid 0 0 == 0
      then some ssid_missing
      else if ltb (length (c_str c.wifi_password)) 8
          || ltb wifi_password_max (length (c_str c.wifi_password))
      then some wifi_password_length
      else if not (terminated c.mqtt_broker_uri) || not (valid_mqtts_uri c.mqtt_broker_uri)
      then some broker_uri_bad
      else check_identity c

  -- The result, and the text in the error buffer: `none` if it is NULL or has no room.
  unfoldable pub validate : Option DeviceConfig → ℕ → EspErr × Option (List ℕ)
  validate none size = (invalid_arg, error_text size (message configuration_required))
  validate (some c) size = elim (check c) [
    | none ↦ (esp_ok, error_text size [])
    | some complaint ↦ (invalid_arg, error_text size (message complaint))
  ]
