-- ===== src/Config/Storage/RoundTrip/ConfigTrip.antt =====
-- A configuration blob that was encoded decodes to the configuration.
use industrial_edge_monitor.Base.{
  ℕ, ◌+◌, ◌^◌, ◌<◌, ◌≡◌, ap, refl, Bool, true, false, ◌||◌, not, some, arith, List, [], ◌++◌,
  length, length-append, ◌==◌, ltb, esp_ok, ℤ, pos, negsuc, if◌then◌else◌,
}
use industrial_edge_monitor.Config.{
  DeviceConfig, device_id_max, wifi_ssid_max, wifi_password_max, mqtt_uri_max, mqtt_ca_max,
  mqtt_username_max, mqtt_password_max, mqtt_client_id_max,
}
use industrial_edge_monitor.Config.Storage.{
  Reader, bytes_u8, bytes_u32, configuration_magic, configuration_payload_size, configuration_size,
  header_size,
}
use industrial_edge_monitor.Config.Storage.Configuration.{
  from_i32, to_i32, bool_byte, RawConfiguration, configuration_of, no_header,
  write_configuration_fields, encode_configuration, read_configuration_fields, finish_configuration,
  decode_configuration,
}
use industrial_edge_monitor.Config.Storage.Writes.{
  ◌then_bytes◌, ◌wrote_then◌, Writes, write_bytes-Writes, write_u8-Writes, write_u8-u8,
  write_u32-Writes,
}
use industrial_edge_monitor.Config.Storage.Reads.{
  Reads, reader_at, read_bytes-Reads, ◌reading◌then◌, last-Reads, read_u8-Reads, read_u32-Reads,
}
use industrial_edge_monitor.Config.Storage.Header.{
  header_bytes, write_header-Writes, peek_header-bytes,
}
use industrial_edge_monitor.Config.Storage.RoundTrip.{finish_writes-Writes, read_payload}

abbrev pub IsI32 : ℤ → Type 0
IsI32 (pos n) = n < 2 ^ 31
IsI32 (negsuc n) = n < 2 ^ 31

-- What the types of the struct's fields allow.
pub record IsStorable (c : DeviceConfig) : Type 0 where
  pub schema_version : c.schema_version < 2 ^ 32
  pub revision : c.revision < 2 ^ 32
  pub device_id : length c.device_id ≡ device_id_max + 1
  pub wifi_ssid : length c.wifi_ssid ≡ wifi_ssid_max + 1
  pub wifi_password : length c.wifi_password ≡ wifi_password_max + 1
  pub mqtt_broker_uri : length c.mqtt_broker_uri ≡ mqtt_uri_max + 1
  pub mqtt_ca_certificate : length c.mqtt_ca_certificate ≡ mqtt_ca_max + 1
  pub mqtt_username : length c.mqtt_username ≡ mqtt_username_max + 1
  pub mqtt_password : length c.mqtt_password ≡ mqtt_password_max + 1
  pub mqtt_client_id : length c.mqtt_client_id ≡ mqtt_client_id_max + 1
  pub telemetry_interval_seconds : c.telemetry_interval_seconds < 2 ^ 32
  pub machine_status_provider : c.machine_status_provider < 2 ^ 8
  pub machine_status_gpio : IsI32 c.machine_status_gpio
  pub machine_status_pull : c.machine_status_pull < 2 ^ 8
  pub maintenance_window_seconds : c.maintenance_window_seconds < 2 ^ 32
  pub maintenance_max_session_seconds : c.maintenance_max_session_seconds < 2 ^ 32

to_i32-from_i32 : (z : ℤ) → IsI32 z → to_i32 (from_i32 z) ≡ z
to_i32-from_i32 (pos n) h = ground arith
to_i32-from_i32 (negsuc n) h = ground arith

from_i32_bound : (z : ℤ) → from_i32 z < 2 ^ 32
from_i32_bound (pos n) = omega arith
from_i32_bound (negsuc n) = omega arith

bool_byte_bound : (b : Bool) → bool_byte b < 2 ^ 8
bool_byte_bound true = omega arith
bool_byte_bound false = omega arith

bool_byte-flag : (b : Bool) → (bool_byte b == 1) ≡ b
bool_byte-flag true = refl
bool_byte-flag false = refl

bool_byte_small : (b : Bool) → ltb 1 (bool_byte b) ≡ false
bool_byte_small true = refl
bool_byte_small false = refl

abbrev payload_of : DeviceConfig → List ℕ
payload_of c =
    bytes_u32 c.schema_version
    then_bytes bytes_u32 c.revision
    then_bytes c.device_id
    then_bytes c.wifi_ssid
    then_bytes c.wifi_password
    then_bytes c.mqtt_broker_uri
    then_bytes c.mqtt_ca_certificate
    then_bytes c.mqtt_username
    then_bytes c.mqtt_password
    then_bytes c.mqtt_client_id
    then_bytes bytes_u32 c.telemetry_interval_seconds
    then_bytes bytes_u8 c.machine_status_provider
    then_bytes bytes_u32 (from_i32 c.machine_status_gpio)
    then_bytes bytes_u8 (bool_byte c.machine_status_active_high)
    then_bytes bytes_u8 c.machine_status_pull
    then_bytes bytes_u8 (bool_byte c.maintenance_on_boot)
    then_bytes bytes_u32 c.maintenance_window_seconds
    then_bytes bytes_u32 c.maintenance_max_session_seconds

abbrev raw_of : DeviceConfig → RawConfiguration
raw_of c = record {
  schema = c.schema_version;
  revision = c.revision;
  device_id = c.device_id;
  ssid = c.wifi_ssid;
  wifi_password = c.wifi_password;
  uri = c.mqtt_broker_uri;
  ca = c.mqtt_ca_certificate;
  username = c.mqtt_username;
  password = c.mqtt_password;
  client_id = c.mqtt_client_id;
  interval = c.telemetry_interval_seconds;
  provider = c.machine_status_provider;
  gpio = from_i32 c.machine_status_gpio;
  active_high = bool_byte c.machine_status_active_high;
  pull = c.machine_status_pull;
  maintenance = bool_byte c.maintenance_on_boot;
  window = c.maintenance_window_seconds;
  session = c.maintenance_max_session_seconds;
}

write_configuration_fields-Writes :
    (c : DeviceConfig)
    → Writes
        (write_configuration_fields c)
        (header_bytes configuration_magic configuration_payload_size ++ payload_of c)
unfolding write_configuration_fields
write_configuration_fields-Writes c =
    write_header-Writes configuration_magic configuration_payload_size
    wrote_then write_u32-Writes c.schema_version
    wrote_then write_u32-Writes c.revision
    wrote_then write_bytes-Writes c.device_id
    wrote_then write_bytes-Writes c.wifi_ssid
    wrote_then write_bytes-Writes c.wifi_password
    wrote_then write_bytes-Writes c.mqtt_broker_uri
    wrote_then write_bytes-Writes c.mqtt_ca_certificate
    wrote_then write_bytes-Writes c.mqtt_username
    wrote_then write_bytes-Writes c.mqtt_password
    wrote_then write_bytes-Writes c.mqtt_client_id
    wrote_then write_u32-Writes c.telemetry_interval_seconds
    wrote_then write_u8-u8 c.machine_status_provider
    wrote_then write_u32-Writes (from_i32 c.machine_status_gpio)
    wrote_then write_u8-Writes (bool_byte c.machine_status_active_high)
    wrote_then write_u8-u8 c.machine_status_pull
    wrote_then write_u8-Writes (bool_byte c.maintenance_on_boot)
    wrote_then write_u32-Writes c.maintenance_window_seconds
    wrote_then write_u32-Writes c.maintenance_max_session_seconds

read_configuration_fields-Reads :
    (c : DeviceConfig) → IsStorable c → Reads read_configuration_fields (raw_of c) (payload_of c)
unfolding read_configuration_fields
read_configuration_fields-Reads c ok =
    read_u32-Reads c.schema_version ok.schema_version reading _
    then read_u32-Reads c.revision ok.revision reading _
    then read_bytes-Reads c.device_id (device_id_max + 1) ok.device_id reading _
    then read_bytes-Reads c.wifi_ssid (wifi_ssid_max + 1) ok.wifi_ssid reading _
    then read_bytes-Reads c.wifi_password (wifi_password_max + 1) ok.wifi_password reading _
    then read_bytes-Reads c.mqtt_broker_uri (mqtt_uri_max + 1) ok.mqtt_broker_uri reading _
    then read_bytes-Reads c.mqtt_ca_certificate (mqtt_ca_max + 1) ok.mqtt_ca_certificate reading _
    then read_bytes-Reads c.mqtt_username (mqtt_username_max + 1) ok.mqtt_username reading _
    then read_bytes-Reads c.mqtt_password (mqtt_password_max + 1) ok.mqtt_password reading _
    then read_bytes-Reads c.mqtt_client_id (mqtt_client_id_max + 1) ok.mqtt_client_id reading _
    then read_u32-Reads c.telemetry_interval_seconds ok.telemetry_interval_seconds reading _
    then read_u8-Reads c.machine_status_provider ok.machine_status_provider reading _
    then read_u32-Reads (from_i32 c.machine_status_gpio) (from_i32_bound c.machine_status_gpio)
      reading _
    then read_u8-Reads (bool_byte c.machine_status_active_high)
        (bool_byte_bound c.machine_status_active_high)
      reading _
    then read_u8-Reads c.machine_status_pull ok.machine_status_pull reading _
    then read_u8-Reads (bool_byte c.maintenance_on_boot) (bool_byte_bound c.maintenance_on_boot)
      reading _
    then read_u32-Reads c.maintenance_window_seconds ok.maintenance_window_seconds reading _
    then last-Reads _
        (read_u32-Reads c.maintenance_max_session_seconds ok.maintenance_max_session_seconds)

configuration_of-raw_of : (c : DeviceConfig) → IsStorable c → configuration_of (raw_of c) ≡ c
configuration_of-raw_of c ok i = record c {
  machine_status_gpio = to_i32-from_i32 c.machine_status_gpio ok.machine_status_gpio i;
  machine_status_active_high = bool_byte-flag c.machine_status_active_high i;
  maintenance_on_boot = bool_byte-flag c.maintenance_on_boot i;
}

length-payload_of :
    (c : DeviceConfig) → IsStorable c → length (payload_of c) ≡ configuration_payload_size
length-payload_of c ok = simp length-append (
    omega (
      arith, ok.device_id, ok.wifi_ssid, ok.wifi_password, ok.mqtt_broker_uri,
      ok.mqtt_ca_certificate, ok.mqtt_username, ok.mqtt_password, ok.mqtt_client_id,
    ))

unfoldable pub configuration_bytes : DeviceConfig → List ℕ
configuration_bytes c = header_bytes configuration_magic configuration_payload_size ++ payload_of c

pub encode_configuration-bytes :
    (c : DeviceConfig) (buffer : List ℕ)
    → IsStorable c
    → length buffer ≡ configuration_size
    → encode_configuration (some c) (some buffer) configuration_size
      ≡ (esp_ok, configuration_bytes c)
unfolding encode_configuration configuration_size configuration_bytes
encode_configuration-bytes c buffer ok room =
    finish_writes-Writes buffer (header_size + configuration_payload_size)
      (write_configuration_fields-Writes c) (omega (arith, length-payload_of c ok)) room

-- Reads that end where the buffer ends give back the configuration.
finish_configuration_lem :
    (c : DeviceConfig) (size : ℕ) (r : Reader)
    → IsStorable c
    → r.offset ≡ size
    → finish_configuration size (some (raw_of c, r)) ≡ (esp_ok, c)
unfolding finish_configuration
finish_configuration_lem c size r ok ended =
    let guard : (not (r.offset == size)
          || (ltb 1 (bool_byte c.machine_status_active_high)
              || ltb 1 (bool_byte c.maintenance_on_boot)))
        ≡ false =
      rw (bool_byte_small c.machine_status_active_high, bool_byte_small c.maintenance_on_boot)
        (ground arith) in
    rw guard (ap (λ d. (esp_ok, d)) (configuration_of-raw_of c ok))

pub decode_configuration-bytes :
    (c before : DeviceConfig)
    → IsStorable c
    → decode_configuration (some (configuration_bytes c)) configuration_size (some before)
      ≡ (esp_ok, some c)
unfolding decode_configuration configuration_size configuration_bytes
decode_configuration-bytes c before ok =
    rw
      (
        peek_header-bytes 73 69 77 67 (payload_of c) (header_size + configuration_payload_size)
            configuration_payload_size no_header (length-payload_of c ok) (omega arith) refl,
        read_payload (header_bytes configuration_magic configuration_payload_size)
            (header_size + configuration_payload_size) (read_configuration_fields-Reads c ok) refl
            (omega (arith, length-payload_of c ok)),
        finish_configuration_lem c (header_size + configuration_payload_size)
            (reader_at (header_bytes configuration_magic configuration_payload_size ++ payload_of c)
              [])
            ok (omega (arith, length-payload_of c ok)),
      )
      refl

-- For a configuration that its types allow (arrays of their declared lengths, numbers of their
-- declared widths), encoding into a buffer of the declared size succeeds, and decoding what the
-- buffer then holds succeeds and gives the same configuration.
pub decode_configuration-encode_configuration :
    (c before : DeviceConfig) (buffer : List ℕ)
    → IsStorable c
    → length buffer ≡ configuration_size
    → (encode_configuration (some c) (some buffer) configuration_size).0 ≡ esp_ok
      × decode_configuration
          (some (encode_configuration (some c) (some buffer) configuration_size).1)
          configuration_size
          (some before)
        ≡ (esp_ok, some c)
decode_configuration-encode_configuration c before buffer ok room =
    rw (encode_configuration-bytes c buffer ok room) (refl, decode_configuration-bytes c before ok)
