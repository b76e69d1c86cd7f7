-- ===== src/Config/Storage/Configuration.antt =====
-- `device_config_storage_encode_configuration` and `device_config_storage_decode_configuration`.
use industrial_edge_monitor.Base.{
  ℕ, ◌+◌, ◌-◌, ◌^◌, Bool, false, ◌&&◌, ◌||◌, not, Option, none, some, List, [], ltb, ◌==◌,
  if◌then◌else◌, ℤ, pos, negsuc, u8, u32, replicate, EspErr, esp_ok, invalid_arg, invalid_size,
  is_ok,
}
use industrial_edge_monitor.Config.{
  DeviceConfig, device_id_max, wifi_ssid_max, wifi_password_max, mqtt_uri_max, mqtt_ca_max,
  mqtt_username_max, mqtt_password_max, mqtt_client_id_max,
}
use industrial_edge_monitor.Config.Storage.{
  Writer, Reader, Step, ◌then_write◌, write_header, write_bytes, write_u8, write_u32,
  configuration_magic, configuration_payload_size, configuration_size, Read, ◌>>=◌, give,
  read_bytes, read_u8, read_u32, header_size, StorageHeader, peek_header,
}

-- `(uint32_t)` of an `int32_t`, and back.
abbrev pub from_i32 : ℤ → ℕ
from_i32 (pos n) = u32 n
from_i32 (negsuc n) = u32 (2 ^ 32 - 1 - n)

abbrev pub to_i32 : ℕ → ℤ
to_i32 n = if ltb n (2 ^ 31) then pos n else negsuc (2 ^ 32 - 1 - n)

abbrev pub bool_byte : Bool → ℕ
bool_byte b = if b then 1 else 0

unfoldable pub write_configuration_fields : DeviceConfig → Step
write_configuration_fields c =
    write_header configuration_magic configuration_payload_size
    then_write write_u32 c.schema_version
    then_write write_u32 c.revision
    then_write write_bytes c.device_id
    then_write write_bytes c.wifi_ssid
    then_write write_bytes c.wifi_password
    then_write write_bytes c.mqtt_broker_uri
    then_write write_bytes c.mqtt_ca_certificate
    then_write write_bytes c.mqtt_username
    then_write write_bytes c.mqtt_password
    then_write write_bytes c.mqtt_client_id
    then_write write_u32 c.telemetry_interval_seconds
    then_write write_u8 (u8 c.machine_status_provider)
    then_write write_u32 (from_i32 c.machine_status_gpio)
    then_write write_u8 (bool_byte c.machine_status_active_high)
    then_write write_u8 (u8 c.machine_status_pull)
    then_write write_u8 (bool_byte c.maintenance_on_boot)
    then_write write_u32 c.maintenance_window_seconds
    then_write write_u32 c.maintenance_max_session_seconds

-- The result of a chain of writes into a buffer of that size, and the buffer. It is ESP_OK if every
-- write was done and the buffer is full.
abbrev pub finish_writes : ℕ → Writer × Bool → EspErr × List ℕ
finish_writes size (w, done) =
    (if done && w.offset == size then esp_ok else invalid_size, w.contents)

-- The result and the buffer afterwards, which is empty for NULL.
unfoldable pub encode_configuration : Option DeviceConfig → Option (List ℕ) → ℕ → EspErr × List ℕ
unfolding configuration_size
encode_configuration none encoded size = (invalid_arg, [])
encode_configuration (some c) none size = (invalid_arg, [])
encode_configuration (some c) (some encoded) size =
    if not (size == configuration_size)
    then (invalid_size, encoded)
    else finish_writes size
        (write_configuration_fields c (record { contents = encoded; size = size; offset = 0 }))

-- `memset(configuration, 0, sizeof(*configuration))`.
unfoldable pub zero_configuration : DeviceConfig
zero_configuration = record {
  schema_version = 0;
  revision = 0;
  device_id = replicate (device_id_max + 1) 0;
  wifi_ssid = replicate (wifi_ssid_max + 1) 0;
  wifi_password = replicate (wifi_password_max + 1) 0;
  mqtt_broker_uri = replicate (mqtt_uri_max + 1) 0;
  mqtt_ca_certificate = replicate (mqtt_ca_max + 1) 0;
  mqtt_username = replicate (mqtt_username_max + 1) 0;
  mqtt_password = replicate (mqtt_password_max + 1) 0;
  mqtt_client_id = replicate (mqtt_client_id_max + 1) 0;
  telemetry_interval_seconds = 0;
  machine_status_provider = 0;
  machine_status_gpio = pos 0;
  machine_status_active_high = false;
  machine_status_pull = 0;
  maintenance_on_boot = false;
  maintenance_window_seconds = 0;
  maintenance_max_session_seconds = 0;
}

-- What the reads yield, before the flags are tested.
pub record RawConfiguration : Type 0 where
  pub schema : ℕ
  pub revision : ℕ
  pub device_id : List ℕ
  pub ssid : List ℕ
  pub wifi_password : List ℕ
  pub uri : List ℕ
  pub ca : List ℕ
  pub username : List ℕ
  pub password : List ℕ
  pub client_id : List ℕ
  pub interval : ℕ
  pub provider : ℕ
  pub gpio : ℕ
  pub active_high : ℕ
  pub pull : ℕ
  pub maintenance : ℕ
  pub window : ℕ
  pub session : ℕ

unfoldable pub read_configuration_fields : Read RawConfiguration
read_configuration_fields = do
  schema ← read_u32
  revision ← read_u32
  device_id ← read_bytes (device_id_max + 1)
  ssid ← read_bytes (wifi_ssid_max + 1)
  wifi_password ← read_bytes (wifi_password_max + 1)
  uri ← read_bytes (mqtt_uri_max + 1)
  ca ← read_bytes (mqtt_ca_max + 1)
  username ← read_bytes (mqtt_username_max + 1)
  password ← read_bytes (mqtt_password_max + 1)
  client_id ← read_bytes (mqtt_client_id_max + 1)
  interval ← read_u32
  provider ← read_u8
  gpio ← read_u32
  active_high ← read_u8
  pull ← read_u8
  maintenance ← read_u8
  window ← read_u32
  session ← read_u32
  give (record {
    schema = schema;
    revision = revision;
    device_id = device_id;
    ssid = ssid;
    wifi_password = wifi_password;
    uri = uri;
    ca = ca;
    username = username;
    password = password;
    client_id = client_id;
    interval = interval;
    provider = provider;
    gpio = gpio;
    active_high = active_high;
    pull = pull;
    maintenance = maintenance;
    window = window;
    session = session;
  })

abbrev pub configuration_of : RawConfiguration → DeviceConfig
configuration_of r = record {
  schema_version = r.schema;
  revision = r.revision;
  device_id = r.device_id;
  wifi_ssid = r.ssid;
  wifi_password = r.wifi_password;
  mqtt_broker_uri = r.uri;
  mqtt_ca_certificate = r.ca;
  mqtt_username = r.username;
  mqtt_password = r.password;
  mqtt_client_id = r.client_id;
  telemetry_interval_seconds = r.interval;
  machine_status_provider = r.provider;
  machine_status_gpio = to_i32 r.gpio;
  machine_status_active_high = r.active_high == 1;
  machine_status_pull = r.pull;
  maintenance_on_boot = r.maintenance == 1;
  maintenance_window_seconds = r.window;
  maintenance_max_session_seconds = r.session;
}

-- A read that failed, one that left bytes over, and a flag that is not 0 or 1 clear the output.
unfoldable pub finish_configuration : ℕ → Option (RawConfiguration × Reader) → EspErr × DeviceConfig
finish_configuration size none = (invalid_size, zero_configuration)
finish_configuration size (some (raw, r)) =
    if not (r.offset == size) || (ltb 1 raw.active_high || ltb 1 raw.maintenance)
    then (invalid_size, zero_configuration)
    else (esp_ok, configuration_of raw)

abbrev pub no_header : StorageHeader
no_header = record { format_version_field = 0; header_size_field = 0; payload_size_field = 0 }

abbrev pub bytes_of : Option (List ℕ) → List ℕ
bytes_of none = []
bytes_of (some bytes) = bytes

-- The result, and the configuration that the output pointer then refers to.
unfoldable pub decode_configuration :
    Option (List ℕ) → ℕ → Option DeviceConfig → EspErr × Option DeviceConfig
unfolding finish_configuration
decode_configuration encoded size none = (invalid_arg, none)
decode_configuration encoded size (some before) =
    let (result, header) = peek_header encoded size configuration_magic no_header in
    if not (is_ok result)
    then (result, some before)
    else if not (header.payload_size_field == configuration_payload_size)
    then (invalid_size, some before)
    else let (status, after) = finish_configuration size (
        read_configuration_fields
          (record { contents = bytes_of encoded; size = size; offset = header_size })) in
      (status, some after)
