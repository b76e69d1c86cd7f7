-- ===== src/Config/Tests.antt =====
-- The configuration at concrete inputs.
use industrial_edge_monitor.Base.{
  ℕ, ◌≤◌, ◌≡◌, ◌↔◌, ◌⊎◌, refl, true, false, some, List, length, length-replicate, get_or, replicate,
  c_str, esp_ok, invalid_arg,
}
use industrial_edge_monitor.Config.Validate.{
  valid_device_id, valid_mqtts_uri, validate, contains, is_alphanumeric, reserved_ids,
}
use industrial_edge_monitor.Config.Validate.Uri.{IsBrokerUri, valid_mqtts_uri_iff}
use industrial_edge_monitor.Config.Validate.Accepted.{IsAccepted, validate_iff}
use industrial_edge_monitor.Config.Validate.Identity.{NotIn, valid_device_id_lem}
use industrial_edge_monitor.Config.Storage.{configuration_size, metadata_size}
use industrial_edge_monitor.Config.Storage.Configuration.{
  encode_configuration, decode_configuration, zero_configuration,
}
use industrial_edge_monitor.Config.Storage.Meta.{encode_metadata, decode_metadata, zero_metadata}
use industrial_edge_monitor.Config.Storage.RoundTrip.MetaTrip.{decode_metadata-encode_metadata}
use industrial_edge_monitor.Config.Storage.RoundTrip.ConfigTrip.{
  decode_configuration-encode_configuration,
}
use industrial_edge_monitor.Config.Samples.{
  site, site-IsStorable, pending, pending-IsStorable, any_certificate,
}

abbrev metadata_buffer : List ℕ
metadata_buffer = replicate 121 0

abbrev configuration_buffer : List ℕ
configuration_buffer = replicate configuration_size 0

valid_mqtts_uri_iff_example :
    (valid_mqtts_uri site.mqtt_broker_uri ≡ true) ↔ IsBrokerUri (c_str site.mqtt_broker_uri)
valid_mqtts_uri_iff_example = valid_mqtts_uri_iff site.mqtt_broker_uri

validate_iff_example :
    (((validate any_certificate (some site) 128).0 ≡ esp_ok) ↔ IsAccepted any_certificate site)
    × (((validate any_certificate (some site) 128).0 ≡ esp_ok)
        ⊎ ((validate any_certificate (some site) 128).0 ≡ invalid_arg))
validate_iff_example = validate_iff any_certificate site 128

valid_device_id_lem_example :
    let text = c_str site.device_id in
    (1 ≤ length text)
    × (length text ≤ 63)
    × (is_alphanumeric (get_or site.device_id 0 0) ≡ true)
    × (contains b'/' text ≡ false)
    × (contains b'+' text ≡ false)
    × (contains b'#' text ≡ false)
    × (contains b'$' text ≡ false)
    × NotIn text reserved_ids
unfolding valid_device_id reserved_ids
valid_device_id_lem_example = valid_device_id_lem site.device_id refl refl

decode_metadata-encode_metadata_example :
    (encode_metadata (some pending) (some metadata_buffer) metadata_size).0 ≡ esp_ok
    × decode_metadata
        (some (encode_metadata (some pending) (some metadata_buffer) metadata_size).1)
        metadata_size
        (some zero_metadata)
      ≡ (esp_ok, some pending)
unfolding metadata_size
decode_metadata-encode_metadata_example =
    decode_metadata-encode_metadata pending zero_metadata metadata_buffer pending-IsStorable refl

decode_configuration-encode_configuration_example :
    (encode_configuration (some site) (some configuration_buffer) configuration_size).0 ≡ esp_ok
    × decode_configuration
        (some (encode_configuration (some site) (some configuration_buffer) configuration_size).1)
        configuration_size
        (some zero_configuration)
      ≡ (esp_ok, some site)
decode_configuration-encode_configuration_example =
    decode_configuration-encode_configuration site zero_configuration configuration_buffer
      site-IsStorable (length-replicate {A = ℕ} configuration_size 0)
