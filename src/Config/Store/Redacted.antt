-- ===== src/Config/Store/Redacted.antt =====
-- `device_config_get_redacted_snapshot`: the configuration that the device shows.
use industrial_edge_monitor.Base.{
  ℕ, ◌+◌, ◌≡◌, Bool, not, ◌==◌, Option, none, some, List, replicate, get_or, c_str, ℤ, EspErr,
  esp_ok, invalid_arg,
}
use industrial_edge_monitor.Config.{
  DeviceConfig, device_id_max, wifi_ssid_max, mqtt_uri_max, mqtt_username_max, mqtt_client_id_max,
}
use industrial_edge_monitor.Config.Store.Operations.{store_text}

pub record RedactedConfig : Type 0 where
  pub schema_version : ℕ
  pub revision : ℕ
  pub device_id : List ℕ
  pub wifi_ssid : List ℕ
  pub wifi_password_configured : Bool
  pub mqtt_broker_uri : List ℕ
  pub mqtt_username : List ℕ
  pub mqtt_password_configured : Bool
  pub mqtt_client_id : List ℕ
  pub mqtt_ca_certificate_configured : Bool
  pub telemetry_interval_seconds : ℕ
  pub machine_status_provider : ℕ
  pub machine_status_gpio : ℤ
  pub machine_status_active_high : Bool
  pub machine_status_pull : ℕ
  pub maintenance_on_boot : Bool
  pub maintenance_window_seconds : ℕ
  pub maintenance_max_session_seconds : ℕ

-- `snprintf` of the string in one array into another, which was cleared.
abbrev copied_text : ℕ → List ℕ → List ℕ
copied_text maximum array = store_text (maximum + 1) (c_str array) (replicate (maximum + 1) 0)

abbrev pub configured : List ℕ → Bool
configured array = not (get_or array 0 0 == 0)

-- The result, and what the output pointer then refers to.
unfoldable pub get_redacted_snapshot :
    Option DeviceConfig → Option RedactedConfig → EspErr × Option RedactedConfig
get_redacted_snapshot none out = (invalid_arg, out)
get_redacted_snapshot (some c) none = (invalid_arg, none)
get_redacted_snapshot (some c) (some before) = (
  esp_ok,
  some (record {
    schema_version = c.schema_version;
    revision = c.revision;
    device_id = copied_text device_id_max c.device_id;
    wifi_ssid = copied_text wifi_ssid_max c.wifi_ssid;
    wifi_password_configured = configured c.wifi_password;
    mqtt_broker_uri = copied_text mqtt_uri_max c.mqtt_broker_uri;
    mqtt_username = copied_text mqtt_username_max c.mqtt_username;
    mqtt_password_configured = configured c.mqtt_password;
    mqtt_client_id = copied_text mqtt_client_id_max c.mqtt_client_id;
    mqtt_ca_certificate_configured = configured c.mqtt_ca_certificate;
    telemetry_interval_seconds = c.telemetry_interval_seconds;
    machine_status_provider = c.machine_status_provider;
    machine_status_gpio = c.machine_status_gpio;
    machine_status_active_high = c.machine_status_active_high;
    machine_status_pull = c.machine_status_pull;
    maintenance_on_boot = c.maintenance_on_boot;
    maintenance_window_seconds = c.maintenance_window_seconds;
    maintenance_max_session_seconds = c.maintenance_max_session_seconds;
  }),
)

abbrev pub with_secrets : DeviceConfig → List ℕ → List ℕ → List ℕ → DeviceConfig
with_secrets c wifi_password password certificate = record c {
  wifi_password = wifi_password;
  mqtt_password = password;
  mqtt_ca_certificate = certificate;
}

-- The snapshot reveals of the two passwords and the certificate only whether they are set: other
-- secrets that are set where these are give the same snapshot, whatever the output held before.
pub get_redacted_snapshot-with_secrets :
    (c : DeviceConfig) (wifi_password password certificate : List ℕ) (before other : RedactedConfig)
    → configured wifi_password ≡ configured c.wifi_password
    → configured password ≡ configured c.mqtt_password
    → configured certificate ≡ configured c.mqtt_ca_certificate
    → get_redacted_snapshot (some (with_secrets c wifi_password password certificate)) (some before)
      ≡ get_redacted_snapshot (some c) (some other)
unfolding get_redacted_snapshot
get_redacted_snapshot-with_secrets c wifi_password password certificate before other p q r = cc
