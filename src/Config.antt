-- ===== src/Config.antt =====
-- The device configuration (firmware/components/device_config): the types of device_config.h.
-- A `char` array is the list of all its bytes; an enumeration that the storage format casts from
-- a byte is the number that it holds.
pub mod Validate
pub mod Storage
pub mod Store
pub mod Samples
mod Tests
use industrial_edge_monitor.Base.{ℕ, Bool, List, ℤ}

abbrev pub schema_version_current : ℕ
schema_version_current = 1

abbrev pub device_id_max : ℕ
device_id_max = 63

abbrev pub wifi_ssid_max : ℕ
wifi_ssid_max = 32

abbrev pub wifi_password_max : ℕ
wifi_password_max = 63

abbrev pub mqtt_uri_max : ℕ
mqtt_uri_max = 255

abbrev pub mqtt_ca_max : ℕ
mqtt_ca_max = 4095

abbrev pub mqtt_username_max : ℕ
mqtt_username_max = 63

abbrev pub mqtt_password_max : ℕ
mqtt_password_max = 127

abbrev pub mqtt_client_id_max : ℕ
mqtt_client_id_max = 127

abbrev pub rollback_reason_max : ℕ
rollback_reason_max = 95

-- `device_config_machine_provider_t`.
abbrev pub machine_disabled : ℕ
machine_disabled = 0

abbrev pub machine_gpio : ℕ
machine_gpio = 1

-- `device_config_pull_t`.
abbrev pub pull_none : ℕ
pull_none = 0

abbrev pub pull_up : ℕ
pull_up = 1

abbrev pub pull_down : ℕ
pull_down = 2

-- `device_config_state_t`.
abbrev pub state_none : ℕ
state_none = 0

abbrev pub state_active : ℕ
state_active = 1

abbrev pub state_pending : ℕ
state_pending = 2

abbrev pub state_rollback : ℕ
state_rollback = 3

pub record DeviceConfig : Type 0 where
  pub schema_version : ℕ
  pub revision : ℕ
  pub device_id : List ℕ
  pub wifi_ssid : List ℕ
  pub wifi_password : List ℕ
  pub mqtt_broker_uri : List ℕ
  pub mqtt_ca_certificate : List ℕ
  pub mqtt_username : List ℕ
  pub mqtt_password : List ℕ
  pub mqtt_client_id : List ℕ
  pub telemetry_interval_seconds : ℕ
  pub machine_status_provider : ℕ
  pub machine_status_gpio : ℤ
  pub machine_status_active_high : Bool
  pub machine_status_pull : ℕ
  pub maintenance_on_boot : Bool
  pub maintenance_window_seconds : ℕ
  pub maintenance_max_session_seconds : ℕ

pub record Metadata : Type 0 where
  pub state : ℕ
  pub candidate_revision : ℕ
  pub boot_attempts : ℕ
  pub boot_count : ℕ
  pub last_rollback_reason : List ℕ
