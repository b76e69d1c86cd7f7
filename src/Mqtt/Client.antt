-- ===== src/Mqtt/Client.antt =====
-- firmware/components/mqtt_client_app/mqtt_client_app.c: the MQTT client of the device. The client
-- library and the event groups are not in the repository: what their calls return is an argument,
-- as are CONFIG_MQTT_TOPIC_PREFIX and the X.509 parser. `taken` is what taking the mutex of the error
-- state comes to.
use industrial_edge_monitor.Base.{
  ℕ, ◌+◌, Bool, true, false, not, ◌||◌, Option, none, some, List, [], ◌++◌, if◌then◌else◌, EspErr,
  esp_ok, esp_fail, no_mem, invalid_arg, invalid_state, invalid_size, timeout, other, is_ok, ◌==◌,
  u32, codes, int_text, snprintf_text, ℤ, is_negative, c_str,
}
use industrial_edge_monitor.Config.{DeviceConfig}
use industrial_edge_monitor.Config.Validate.{validate}
use industrial_edge_monitor.Mqtt.{ErrorState, init_error, set_error, copy_error, text_capacity}

abbrev pub topic_size : ℕ
topic_size = 128

abbrev pub availability_payload_size : ℕ
availability_payload_size = 160

-- The static variables; `has_client` and `has_group` say that the handles are not NULL, and
-- `connected_bit` is BIT0 of the event group.
pub record Client : Type 0 where
  pub has_client : Bool
  pub connected : Bool
  pub connection_generation : ℕ
  pub has_group : Bool
  pub connected_bit : Bool
  pub last_error : ErrorState
  pub telemetry_topic : List ℕ
  pub health_topic : List ℕ
  pub availability_topic : List ℕ
  pub offline_payload : List ℕ

-- The values of the library's enumerations that the code tells apart.
pub data ErrorType : Type 0 where
  connection_refused tcp_transport : ErrorType
  another_type : (code : ℤ) → ErrorType

pub data RefuseReason : Type 0 where
  bad_username not_authorized another_reason : RefuseReason

pub record ErrorCodes : Type 0 where
  pub error_type : ErrorType
  pub connect_return_code : RefuseReason
  pub cert_verify_flags : ℕ
  pub tls_last_err : EspErr

pub data Event : Type 0 where
  became_connected became_disconnected published other_event : Event
  failed : (error : Option ErrorCodes) → Event

abbrev or_new : ErrorState → Option ErrorState → ErrorState
or_new before none = before
or_new before (some s) = s

unfoldable pub set_last_error : Bool → List ℕ → Client → Client
set_last_error taken text c = record c {
  last_error = or_new c.last_error (set_error taken (some c.last_error) (some text));
}

-- ESP_ERR_ESP_TLS_CANNOT_RESOLVE_HOSTNAME.
abbrev is_dns_failure : EspErr → Bool
is_dns_failure (other n) = n == 0x8001
is_dns_failure _ = false

abbrev pub refusal_text : RefuseReason → List ℕ
refusal_text bad_username = codes "MQTT credentials rejected"
refusal_text not_authorized = codes "MQTT client not authorized"
refusal_text another_reason = codes "MQTT broker refused connection"

abbrev pub transport_text : ErrorCodes → List ℕ
transport_text e =
    if not (e.cert_verify_flags == 0)
    then codes "MQTT TLS certificate or hostname verification failed"
    else if is_dns_failure e.tls_last_err
    then codes "MQTT broker DNS resolution failed"
    else if not (is_ok e.tls_last_err)
    then codes "MQTT TLS transport failed"
    else codes "MQTT transport failed"

abbrev type_text : ErrorCodes → ErrorType → List ℕ
type_text e connection_refused = refusal_text e.connect_return_code
type_text e tcp_transport = transport_text e
type_text e (another_type code) =
    snprintf_text text_capacity (codes "MQTT client error type=" ++ int_text code)

unfoldable pub error_message : Option ErrorCodes → List ℕ
error_message none = codes "MQTT error without diagnostic context"
error_message (some e) = type_text e e.error_type

unfoldable pub log_mqtt_error : Bool → Option ErrorCodes → Client → Client
log_mqtt_error taken error c = set_last_error taken (error_message error) c

unfoldable pub mqtt_event_handler : Bool → Event → Client → Client
mqtt_event_handler taken became_connected c =
    record (set_last_error taken []
      (record c { connected = true; connection_generation = u32 (c.connection_generation + 1) })) {
        connected_bit = true;
      }
mqtt_event_handler taken became_disconnected c = record c {
  connected = false;
  connected_bit = false;
}
mqtt_event_handler taken published c = c
mqtt_event_handler taken (failed error) c = log_mqtt_error taken error c
mqtt_event_handler taken other_event c = c

-- What the calls of `mqtt_init` return.
pub record Creation : Type 0 where
  pub mutex : Bool
  pub group : Bool
  pub client : Bool
  pub registered : EspErr
  pub started : EspErr

-- What `esp_mqtt_client_init` is given.
pub record ClientConfig : Type 0 where
  pub uri : List ℕ
  pub certificate : List ℕ
  pub skip_cert_common_name_check : Bool
  pub username : List ℕ
  pub client_id : List ℕ
  pub password : List ℕ
  pub will_topic : List ℕ
  pub will_msg : List ℕ
  pub will_retain : Bool

abbrev pub topic_of : List ℕ → List ℕ → List ℕ → List ℕ
topic_of prefix device_id name =
    snprintf_text topic_size (prefix ++ codes "/" ++ device_id ++ codes "/" ++ name)

abbrev pub with_topics : List ℕ → List ℕ → Client → Client
with_topics prefix device_id c = record c {
  telemetry_topic = topic_of prefix device_id (codes "telemetry");
  health_topic = topic_of prefix device_id (codes "health");
  availability_topic = topic_of prefix device_id (codes "availability");
  offline_payload = snprintf_text availability_payload_size (
      codes "{\"schema_version\":1,\"device_id\":\""
      ++ device_id
      ++ codes "\",\"status\":\"offline\"}");
}

abbrev pub config_of : DeviceConfig → Client → ClientConfig
config_of d c = record {
  uri = c_str d.mqtt_broker_uri;
  certificate = c_str d.mqtt_ca_certificate;
  skip_cert_common_name_check = false;
  username = c_str d.mqtt_username;
  client_id = c_str d.mqtt_client_id;
  password = c_str d.mqtt_password;
  will_topic = c.availability_topic;
  will_msg = c.offline_payload;
  will_retain = true;
}

abbrev pub ready_error : Bool → ErrorState → ErrorState
ready_error created s = if s.has_mutex then s else or_new s ((init_error created (some s)).0)

-- From `xEventGroupCreate` on, with the client's configuration, if the library is given one.
unfoldable pub create_client :
    Creation → ClientConfig → Client → (EspErr × Client) × Option ClientConfig
create_client made config c =
    let grouped = record c { has_group = made.group; connected_bit = false } in
    if not made.group
    then ((no_mem, grouped), none)
    else if not made.client
    then ((esp_fail, record grouped { has_client = false }), some config)
    else if not (is_ok made.registered)
    then ((made.registered, record grouped { has_client = false }), some config)
    else if not (is_ok made.started)
    then ((made.started, record grouped { has_client = false }), some config)
    else ((esp_ok, record grouped { has_client = true }), some config)

module _ (parses : List ℕ → Bool) where
  unfoldable pub mqtt_configuration_is_valid : Option DeviceConfig → Bool
  mqtt_configuration_is_valid none = false
  mqtt_configuration_is_valid (some d) = is_ok ((validate parses (some d) 0).0)

  -- `prefix` is CONFIG_MQTT_TOPIC_PREFIX.
  unfoldable pub mqtt_init :
      List ℕ → Creation → Option DeviceConfig → Client → (EspErr × Client) × Option ClientConfig
  mqtt_init prefix made none c = ((invalid_state, c), none)
  mqtt_init prefix made (some d) c =
      let ready = record c { last_error = ready_error made.mutex c.last_error } in
      let named = with_topics prefix (c_str d.device_id) ready in
      if not (mqtt_configuration_is_valid (some d))
      then ((invalid_state, c), none)
      else if not ready.last_error.has_mutex
      then ((no_mem, ready), none)
      else create_client made (config_of d named) named

-- `send` is `esp_mqtt_client_publish` of a topic and a payload, retained or not. The result, and
-- whether the library is called.
unfoldable pub mqtt_publish :
    (List ℕ → List ℕ → Bool → ℤ) → List ℕ → Option (List ℕ) → Bool → Client → EspErr × Bool
mqtt_publish send topic none retain c = (invalid_arg, false)
mqtt_publish send topic (some payload) retain c =
    if not c.has_client || not c.connected
    then (invalid_state, false)
    else (if is_negative (send topic payload retain) then esp_fail else esp_ok, true)

unfoldable pub mqtt_publish_telemetry :
    (List ℕ → List ℕ → Bool → ℤ) → Option (List ℕ) → Client → EspErr × Bool
mqtt_publish_telemetry send payload c = mqtt_publish send c.telemetry_topic payload false c

unfoldable pub mqtt_publish_health :
    (List ℕ → List ℕ → Bool → ℤ) → Option (List ℕ) → Client → EspErr × Bool
mqtt_publish_health send payload c = mqtt_publish send c.health_topic payload true c

unfoldable pub mqtt_publish_availability :
    (List ℕ → List ℕ → Bool → ℤ) → Option (List ℕ) → Client → EspErr × Bool
mqtt_publish_availability send payload c = mqtt_publish send c.availability_topic payload true c

unfoldable pub mqtt_is_connected : Client → Bool
mqtt_is_connected c = c.connected

unfoldable pub mqtt_connection_generation : Client → ℕ
mqtt_connection_generation c = c.connection_generation

-- `after` is BIT0 when the wait ends, before or at its timeout.
unfoldable pub mqtt_wait_connected : Bool → Client → EspErr
mqtt_wait_connected after c =
    if not c.has_group then invalid_state else if after then esp_ok else timeout

-- The result, and the string in the buffer.
unfoldable pub mqtt_copy_last_error : Bool → Option (List ℕ) → ℕ → Client → EspErr × Option (List ℕ)
mqtt_copy_last_error taken none size c = (invalid_arg, none)
mqtt_copy_last_error taken (some before) size c =
    let (buffer, copied) = copy_error taken (some c.last_error) (some before) size in
    if size == 0
    then (invalid_arg, some before)
    else (if copied then esp_ok else invalid_size, buffer)
