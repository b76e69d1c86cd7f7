-- ===== src/Provisioning/Service/Parsing.antt =====
-- `parse_configuration` of provisioning_service.c: a candidate configuration from a JSON object. On
-- failure the caller clears the configuration and keeps the text in the error buffer, so a failure
-- here is that text.
pub mod Fields
pub mod Accepted
use industrial_edge_monitor.Base.{
  ℕ, ◌+◌, ◌-◌, ◌*◌, ◌^◌, Bool, true, false, ◌&&◌, ◌||◌, not, Option, none, some, List, [], ◌∷◌,
  length, ltb, leb, ◌==◌, if◌then◌else◌, EspErr, is_ok, u32, ℤ, pos, negsuc, codes, bytes_eq,
  is_empty,
}
use industrial_edge_monitor.Config.{
  DeviceConfig, schema_version_current, machine_gpio, machine_disabled, pull_none, pull_up,
  pull_down,
}
use industrial_edge_monitor.Config.Validate.{validate}
use industrial_edge_monitor.Config.Storage.Configuration.{zero_configuration, to_i32, from_i32}
use industrial_edge_monitor.Config.Store.Operations.{store_text}
use industrial_edge_monitor.Provisioning.Service.Requests.{
  CJson, object_item, is_json_object, json_string,
}
use industrial_edge_monitor.Provisioning.Service.Parsing.Fields.{
  ◌>>=◌, ◌>>◌, Result, base_configuration, copy_text, field, finish_parse, guard, has_active, ok,
  or_refused, provider_of, string_is, to_uint,
}

module _ {J : Type 0} (json : CJson J) where
  abbrev pub is_null : Option J → Bool
  is_null none = true
  is_null (some j) = false

  unfoldable pub copy_json_string : Option J → List ℕ → List ℕ → ℕ → Bool → Option (List ℕ)
  copy_json_string from name target size required =
      let item = object_item json from name in
      if is_null item && not required
      then some target
      else copy_text (json_string json item) size target

  abbrev pub json_number : Option J → Option (Option ℤ)
  json_number none = none
  json_number (some j) = json.number_value j

  unfoldable pub json_uint : Option J → List ℕ → ℕ → Bool → Option ℕ
  json_uint from name target required =
      let item = object_item json from name in
      if is_null item && not required then some target else to_uint (json_number item)

  -- `cJSON_IsObject(nested) ? nested : root` and the name that goes with it.
  abbrev pub source_of : Option J → Option J → Option J
  source_of nested root = if is_json_object json nested then nested else root

  abbrev pub name_in : Option J → List ℕ → List ℕ → List ℕ
  name_in nested short long = if is_json_object json nested then short else long

  abbrev pub json_bool : Option J → Option Bool
  json_bool none = none
  json_bool (some j) = json.bool_value j

  -- The strings and the interval, in one condition of the code.
  unfoldable pub parse_fields : Option J → Bool → DeviceConfig → Result DeviceConfig
  unfolding copy_json_string json_uint
  parse_fields root active c = do
    let mqtt = object_item json root (codes "mqtt")
    let source = source_of mqtt root
    device_id ← field (copy_json_string root (codes "device_id") c.device_id 64 true)
    ssid ← field (copy_json_string root (codes "wifi_ssid") c.wifi_ssid 33 true)
    wifi ← field (copy_json_string root (codes "wifi_password") c.wifi_password 64 (not active))
    uri ← field (
        copy_json_string source (name_in mqtt (codes "broker_uri") (codes "mqtt_broker_uri"))
          c.mqtt_broker_uri 256 true)
    username ← field (
        copy_json_string source (name_in mqtt (codes "username") (codes "mqtt_username"))
          c.mqtt_username 64 true)
    password ← field (
        copy_json_string source (name_in mqtt (codes "password") (codes "mqtt_password"))
          c.mqtt_password 128 (not active))
    client_id ← field (
        copy_json_string source (name_in mqtt (codes "client_id") (codes "mqtt_client_id"))
          c.mqtt_client_id 128 true)
    certificate ← field (
        copy_json_string source
          (name_in mqtt (codes "ca_certificate") (codes "mqtt_ca_certificate"))
          c.mqtt_ca_certificate 4096 (not active))
    interval ←
        field
          (json_uint root (codes "telemetry_interval_seconds") c.telemetry_interval_seconds true)
    ok (record c {
      device_id = device_id;
      wifi_ssid = ssid;
      wifi_password = wifi;
      mqtt_broker_uri = uri;
      mqtt_username = username;
      mqtt_password = password;
      mqtt_client_id = client_id;
      mqtt_ca_certificate = certificate;
      telemetry_interval_seconds = interval;
    })

  unfoldable pub parse_maintenance : Option J → DeviceConfig → Result DeviceConfig
  unfolding json_uint
  parse_maintenance root c = do
    let nested = object_item json root (codes "maintenance")
    let source = source_of nested root
    enabled ←
        or_refused
          (json_bool (
            object_item json source
              (name_in nested (codes "on_boot") (codes "maintenance_on_boot"))))
          (codes "maintenance_on_boot must be boolean")
    window ←
        or_refused
          (json_uint source
            (name_in nested (codes "window_seconds") (codes "maintenance_window_seconds"))
            c.maintenance_window_seconds true)
          (codes "maintenance timeouts must be integers")
    session ←
        or_refused
          (json_uint source
            (name_in nested (codes "max_session_seconds") (codes "maintenance_max_session_seconds"))
            c.maintenance_max_session_seconds true)
          (codes "maintenance timeouts must be integers")
    ok (record c {
      maintenance_on_boot = enabled;
      maintenance_window_seconds = window;
      maintenance_max_session_seconds = session;
    })

  -- The active level, which stays where the member is missing.
  abbrev pub level_of : Option J → Bool → Option Bool
  level_of item before =
      if is_null item
      then some before
      else if string_is (json_string json item) (codes "high")
      then some true
      else if string_is (json_string json item) (codes "low")
      then some false
      else none

  abbrev pub pull_of : Option J → Option ℕ
  pull_of item =
      if is_null item || string_is (json_string json item) (codes "none")
      then some pull_none
      else if string_is (json_string json item) (codes "up")
      then some pull_up
      else if string_is (json_string json item) (codes "down")
      then some pull_down
      else none

  unfoldable pub parse_machine : Option J → DeviceConfig → Result DeviceConfig
  unfolding json_uint
  parse_machine root c = do
    let nested = object_item json root (codes "machine_status")
    let source = source_of nested root
    provider ←
        or_refused
          (provider_of (
            json_string json (
              object_item json source
                (name_in nested (codes "provider") (codes "machine_status_provider")))))
          (codes "machine_status_provider must be disabled or gpio")
    gpio ←
        or_refused
          (json_uint source (name_in nested (codes "gpio") (codes "machine_status_gpio"))
            (from_i32 c.machine_status_gpio) (provider == machine_gpio))
          (codes "machine_status_gpio must be an integer")
    active_high ←
        or_refused
          (level_of
            (object_item json source
              (name_in nested (codes "active_level") (codes "machine_status_active_level")))
            c.machine_status_active_high)
          (codes "machine_status_active_level must be high or low")
    pull ←
        or_refused
          (pull_of
            (object_item json source (name_in nested (codes "pull") (codes "machine_status_pull"))))
          (codes "machine_status_pull is invalid")
    ok (record c {
      machine_status_provider = provider;
      machine_status_gpio = to_i32 gpio;
      machine_status_active_high = active_high;
      machine_status_pull = pull;
    })

  module _ (parses : List ℕ → Bool) where
    -- `current` is the configuration that the service runs with.
    unfoldable pub parse_configuration : Option DeviceConfig → Option J → Result DeviceConfig
    unfolding json_uint parse_fields parse_maintenance parse_machine finish_parse
    parse_configuration current root = do
      let base = base_configuration current
      version ←
          or_refused (json_uint root (codes "schema_version") 0 true)
            (codes "schema_version is missing or unsupported")
      guard (version == schema_version_current) (codes "schema_version is missing or unsupported")
      with_fields ←
          parse_fields root (has_active current) (record base { schema_version = version })
      with_maintenance ← parse_maintenance root with_fields
      with_machine ← parse_machine root with_maintenance
      finish_parse parses with_machine
