-- ===== src/Provisioning/Service/Views/Shown.antt =====
-- The JSON objects that the service shows.
use industrial_edge_monitor.Base.{
  ℕ, Bool, false, Option, none, some, List, [], ◌∷◌, if◌then◌else◌, ◌==◌, ℤ, pos, codes, c_str,
}
use industrial_edge_monitor.Config.{
  DeviceConfig, Metadata, machine_gpio, pull_up, pull_down, state_active, state_pending,
  state_rollback,
}
use industrial_edge_monitor.Config.Storage.Meta.{zero_metadata}
use industrial_edge_monitor.Config.Store.Redacted.{RedactedConfig, get_redacted_snapshot}
use industrial_edge_monitor.Diagnostic.Ring.{LogRecord, Batch}
use industrial_edge_monitor.Health.{Snapshot, ComponentSnapshot}
use industrial_edge_monitor.Health.Names.{component_status_to_string, overall_status_to_string}
use industrial_edge_monitor.Provisioning.Service.{
  Value, text, number, integer, flag, null, object, array, Members, no_members, member, Values,
  no_values, element,
}

unfoldable pub configuration_state_name : ℕ → List ℕ
configuration_state_name state =
    if state == state_active
    then codes "active"
    else if state == state_pending
    then codes "pending"
    else if state == state_rollback
    then codes "rollback"
    else codes "none"

unfoldable pub provider_name : ℕ → List ℕ
provider_name provider = if provider == machine_gpio then codes "gpio" else codes "disabled"

unfoldable pub pull_name : ℕ → List ℕ
pull_name pull =
    if pull == pull_up then codes "up" else if pull == pull_down then codes "down" else codes "none"

unfoldable pub level_name : Bool → List ℕ
level_name active_high = if active_high then codes "high" else codes "low"

-- The members in the order in which they are added.
abbrev pub members : List (List ℕ × Value) → Members
members [] = no_members
members ((name, value) ∷ rest) = member name value (members rest)

-- The object that `cJSON_Add...ToObject` calls fill.
abbrev pub object_of : List (List ℕ × Value) → Value
object_of fields = object (members fields)

abbrev pub string_of : List ℕ → Value
string_of characters = text (c_str characters)

unfoldable pub redacted_value : RedactedConfig → Value
unfolding provider_name pull_name level_name
redacted_value r = object_of (
    (codes "schema_version", number r.schema_version)
    ∷ (codes "revision", number r.revision)
    ∷ (codes "device_id", string_of r.device_id)
    ∷ (codes "wifi_ssid", string_of r.wifi_ssid)
    ∷ (codes "wifi_password_configured", flag r.wifi_password_configured)
    ∷ (codes "mqtt_broker_uri", string_of r.mqtt_broker_uri)
    ∷ (codes "mqtt_username", string_of r.mqtt_username)
    ∷ (codes "mqtt_password_configured", flag r.mqtt_password_configured)
    ∷ (codes "mqtt_client_id", string_of r.mqtt_client_id)
    ∷ (codes "mqtt_ca_certificate_configured", flag r.mqtt_ca_certificate_configured)
    ∷ (codes "telemetry_interval_seconds", number r.telemetry_interval_seconds)
    ∷ (codes "machine_status_provider", text (provider_name r.machine_status_provider))
    ∷ (codes "machine_status_gpio", integer r.machine_status_gpio)
    ∷ (codes "machine_status_active_level", text (level_name r.machine_status_active_high))
    ∷ (codes "machine_status_pull", text (pull_name r.machine_status_pull))
    ∷ (codes "maintenance_on_boot", flag r.maintenance_on_boot)
    ∷ (codes "maintenance_window_seconds", number r.maintenance_window_seconds)
    ∷ (codes "maintenance_max_session_seconds", number r.maintenance_max_session_seconds)
    ∷ [])

-- The snapshot that the caller declares; all of it is set.
abbrev pub blank : RedactedConfig
blank = record {
  schema_version = 0;
  revision = 0;
  device_id = [];
  wifi_ssid = [];
  wifi_password_configured = false;
  mqtt_broker_uri = [];
  mqtt_username = [];
  mqtt_password_configured = false;
  mqtt_client_id = [];
  mqtt_ca_certificate_configured = false;
  telemetry_interval_seconds = 0;
  machine_status_provider = 0;
  machine_status_gpio = pos 0;
  machine_status_active_high = false;
  machine_status_pull = 0;
  maintenance_on_boot = false;
  maintenance_window_seconds = 0;
  maintenance_max_session_seconds = 0;
}

abbrev pub or_blank : Option RedactedConfig → RedactedConfig
or_blank none = blank
or_blank (some r) = r

unfoldable pub configuration_value : Option DeviceConfig → Value
unfolding redacted_value
configuration_value none = object_of ((codes "state", text (codes "unprovisioned")) ∷ [])
configuration_value (some c) =
    redacted_value (or_blank (get_redacted_snapshot (some c) (some blank)).1)

-- What the status handler asks of the other components: the health snapshot, the station, the
-- machine, the application, the heap and the last MQTT error. A quantity that is not there is `none`.
pub record Readings : Type 0 where
  pub health : Snapshot
  pub station_ip : Option (List ℕ)
  pub station_rssi : Option ℤ
  pub machine_status : List ℕ
  pub firmware_version : List ℕ
  pub reset_reason : ℕ
  pub free_heap_bytes : ℕ
  pub minimum_free_heap_bytes : ℕ
  pub synchronized : Bool
  pub mqtt_connected : Bool
  pub mqtt_error : List ℕ

abbrev pub device_of : Option DeviceConfig → List ℕ
device_of none = codes "unprovisioned"
device_of (some c) = c_str c.device_id

abbrev pub ssid_of : Option DeviceConfig → List ℕ
ssid_of none = []
ssid_of (some c) = c_str c.wifi_ssid

-- `char station_ip[16] = "unavailable"`, which the station's address replaces.
abbrev pub ip_of : Option (List ℕ) → List ℕ
ip_of none = codes "unavailable"
ip_of (some ip) = ip

-- The signal strength is asked for only if the station is connected.
abbrev pub rssi_of : Option (List ℕ) → Option ℤ → Value
rssi_of none rssi = null
rssi_of (some ip) none = null
rssi_of (some ip) (some rssi) = integer rssi

abbrev pub sensor_of : List ComponentSnapshot → List ℕ
sensor_of [] = []
sensor_of (sensor ∷ rest) = component_status_to_string sensor.status

unfoldable pub status_value : Option DeviceConfig → Metadata → Readings → (uptime : ℕ) → Value
unfolding configuration_state_name
status_value current metadata r uptime =
    let counters = r.health.counters in
    object_of (
      (codes "device_id", text (device_of current))
      ∷ (codes "firmware_version", text r.firmware_version)
      ∷ (codes "uptime_seconds", number uptime)
      ∷ (codes "reset_reason", number r.reset_reason)
      ∷ (codes "free_heap_bytes", number r.free_heap_bytes)
      ∷ (codes "minimum_free_heap_bytes", number r.minimum_free_heap_bytes)
      ∷ (codes "configuration_state", text (configuration_state_name metadata.state))
      ∷ (codes "candidate_revision", number metadata.candidate_revision)
      ∷ (codes "boot_attempts", number metadata.boot_attempts)
      ∷ (codes "boot_count", number metadata.boot_count)
      ∷ (codes "station_ip", text (ip_of r.station_ip))
      ∷ (codes "wifi_ssid", text (ssid_of current))
      ∷ (codes "wifi_rssi_dbm", rssi_of r.station_ip r.station_rssi)
      ∷ (codes "sntp_synchronized", flag r.synchronized)
      ∷ (codes "mqtt_tls_connected", flag r.mqtt_connected)
      ∷ (codes "mqtt_last_error", text r.mqtt_error)
      ∷ (codes "sensor_status", text (sensor_of r.health.components))
      ∷ (codes "machine_status", text r.machine_status)
      ∷ (codes "device_health", text (overall_status_to_string r.health.status))
      ∷ (
        codes "telemetry_counters",
        object_of (
            (codes "samples_ok", number counters.samples_ok)
            ∷ (codes "samples_rejected", number counters.samples_rejected)
            ∷ (codes "publish_ok", number counters.publish_ok)
            ∷ (codes "publish_failed", number counters.publish_failed)
            ∷ []),
      )
      ∷ (codes "last_rollback_reason", string_of metadata.last_rollback_reason)
      ∷ [])

-- A record's level is a string of one character.
unfoldable pub record_value : LogRecord → Value
record_value r = object_of (
    (codes "sequence", number r.sequence)
    ∷ (codes "relative_ms", number r.relative_ms)
    ∷ (codes "level", string_of (r.level ∷ []))
    ∷ (codes "component", string_of r.component)
    ∷ (codes "message", string_of r.message)
    ∷ [])

abbrev pub record_values : List LogRecord → Values
record_values [] = no_values
record_values (r ∷ rs) = element (record_value r) (record_values rs)

unfoldable pub batch_value : Batch → Value
unfolding record_value
batch_value b = object_of (
    (codes "cursor", number b.cursor)
    ∷ (codes "first_available_sequence", number b.first_available_sequence)
    ∷ (codes "next_sequence", number b.next_sequence)
    ∷ (codes "overwritten", number b.overwritten)
    ∷ (codes "lost_before_cursor", number b.lost_before_cursor)
    ∷ (codes "has_more", flag b.has_more)
    ∷ (codes "records", array (record_values b.records))
    ∷ [])

abbrev pub or_zero_metadata : Option Metadata → Metadata
or_zero_metadata none = zero_metadata
or_zero_metadata (some m) = m
