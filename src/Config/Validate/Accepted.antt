-- ===== src/Config/Validate/Accepted.antt =====
-- What an accepted configuration is.
use industrial_edge_monitor.Base.{
  ℕ, ◌≤◌, ◌<◌, ◌≡◌, ◌≢◌, ◌↔◌, ◌⊎◌, Bool, true, false, none, some, arith, List, length, get_or,
  c_str, bytes_eq, bytes_eq_iff, esp_ok, invalid_arg, pos, leb_ℤ, has_nul,
}
use industrial_edge_monitor.Config.{
  DeviceConfig, machine_gpio, machine_disabled, pull_none, pull_down,
}
use industrial_edge_monitor.Config.Validate.{
  valid_device_id, valid_mqtts_uri, gpio_allowed, has_part, begin_certificate, check,
  check_identity, check_ranges, check_gpio, validate, contains,
}

-- The numeric settings.
pub record InRange (c : DeviceConfig) : Type 0 where
  pub interval : (1 ≤ c.telemetry_interval_seconds) × (c.telemetry_interval_seconds ≤ 3600)
  pub provider :
      (c.machine_status_provider ≡ machine_disabled) ⊎ (c.machine_status_provider ≡ machine_gpio)
  pub pin : c.machine_status_provider ≡ machine_gpio → gpio_allowed c.machine_status_gpio ≡ true
  pub no_pull :
      c.machine_status_provider ≡ machine_gpio
      → leb_ℤ (pos 34) c.machine_status_gpio ≡ true
      → c.machine_status_pull ≡ pull_none
  pub pull : c.machine_status_pull ≤ pull_down
  pub window : (60 ≤ c.maintenance_window_seconds) × (c.maintenance_window_seconds ≤ 1800)
  pub session :
      (c.maintenance_window_seconds ≤ c.maintenance_max_session_seconds)
      × (c.maintenance_max_session_seconds ≤ 3600)

check_ranges_sound : (c : DeviceConfig) → check_ranges c ≡ none → InRange c
unfolding check_ranges check_gpio
check_ranges_sound c h = ground arith

check_ranges_complete : (c : DeviceConfig) → InRange c → check_ranges c ≡ none
unfolding check_ranges check_gpio
check_ranges_complete c ok = ground arith

-- The MQTT identity: the username is the device's, the client id is another and has no topic
-- character, and the certificate is PEM that the parser takes.
pub record HasIdentity (parses : List ℕ → Bool) (c : DeviceConfig) : Type 0 where
  pub username_ended : has_nul c.mqtt_username ≡ true
  pub username_lem : c_str c.mqtt_username ≡ c_str c.device_id
  pub password : (has_nul c.mqtt_password ≡ true) × (get_or c.mqtt_password 0 0 ≢ 0)
  pub client_ended : (has_nul c.mqtt_client_id ≡ true) × (get_or c.mqtt_client_id 0 0 ≢ 0)
  pub client_distinct : c_str c.mqtt_client_id ≢ c_str c.mqtt_username
  pub client_characters :
      (contains b'/' (c_str c.mqtt_client_id) ≡ false)
      × (contains b'+' (c_str c.mqtt_client_id) ≡ false)
      × (contains b'#' (c_str c.mqtt_client_id) ≡ false)
  pub certificate :
      (has_nul c.mqtt_ca_certificate ≡ true)
      × (has_part begin_certificate (c_str c.mqtt_ca_certificate) ≡ true)
      × (parses (c_str c.mqtt_ca_certificate) ≡ true)

pub record IsAccepted (parses : List ℕ → Bool) (c : DeviceConfig) : Type 0 where
  pub schema : c.schema_version ≡ 1
  pub revised : 0 < c.revision
  pub device : (has_nul c.device_id ≡ true) × (valid_device_id c.device_id ≡ true)
  pub ssid : (has_nul c.wifi_ssid ≡ true) × (get_or c.wifi_ssid 0 0 ≢ 0)
  pub wifi : (8 ≤ length (c_str c.wifi_password)) × (length (c_str c.wifi_password) ≤ 63)
  pub broker : (has_nul c.mqtt_broker_uri ≡ true) × (valid_mqtts_uri c.mqtt_broker_uri ≡ true)
  pub identity : HasIdentity parses c
  pub ranges : InRange c

module _ (parses : List ℕ → Bool) (c : DeviceConfig) where
  same_user :
      (bytes_eq (c_str c.mqtt_username) (c_str c.device_id) ≡ true)
      ↔ (c_str c.mqtt_username ≡ c_str c.device_id)
  same_user = bytes_eq_iff (c_str c.mqtt_username) (c_str c.device_id)

  same_client :
      (bytes_eq (c_str c.mqtt_client_id) (c_str c.mqtt_username) ≡ true)
      ↔ (c_str c.mqtt_client_id ≡ c_str c.mqtt_username)
  same_client = bytes_eq_iff (c_str c.mqtt_client_id) (c_str c.mqtt_username)

  check_identity_sound :
      check_identity parses c ≡ none → HasIdentity parses c × (check_ranges c ≡ none)
  unfolding check_identity
  check_identity_sound h = ground (arith, same_user, same_client)

  check_identity_complete :
      HasIdentity parses c → check_ranges c ≡ none → check_identity parses c ≡ none
  unfolding check_identity
  check_identity_complete ok r = ground (arith, same_user, same_client)

  check_sound : check parses c ≡ none → IsAccepted parses c
  unfolding check
  check_sound h =
      let rest : check_identity parses c ≡ none = ground arith in
      let parts = check_identity_sound rest in
      record {
        schema = ground arith;
        revised = ground arith;
        device = ground arith;
        ssid = ground arith;
        wifi = ground arith;
        broker = ground arith;
        identity = parts.0;
        ranges = check_ranges_sound c parts.1;
      }

  check_complete : IsAccepted parses c → check parses c ≡ none
  unfolding check
  check_complete ok =
      ground (arith, check_identity_complete ok.identity (check_ranges_complete c ok.ranges))

  validate_ok_iff :
      (size : ℕ) → ((validate parses (some c) size).0 ≡ esp_ok) ↔ (check parses c ≡ none)
  unfolding validate
  validate_ok_iff size = ground arith

  validate_error :
      (size : ℕ)
      → ((validate parses (some c) size).0 ≡ esp_ok)
        ⊎ ((validate parses (some c) size).0 ≡ invalid_arg)
  unfolding validate
  validate_error size = ground arith

  -- Validation returns ESP_OK exactly on the configurations that meet every requirement, and
  -- ESP_ERR_INVALID_ARG on all others, whatever the size of the error buffer.
  pub validate_iff :
      (size : ℕ)
      → (((validate parses (some c) size).0 ≡ esp_ok) ↔ IsAccepted parses c)
        × (((validate parses (some c) size).0 ≡ esp_ok)
            ⊎ ((validate parses (some c) size).0 ≡ invalid_arg))
  validate_iff size = (
    (
      λ h. check_sound ((validate_ok_iff size).0 h),
      λ ok. (validate_ok_iff size).1 (check_complete ok),
    ),
    validate_error size,
  )
