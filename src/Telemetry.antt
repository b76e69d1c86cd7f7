-- ===== src/Telemetry.antt =====
-- firmware/components/telemetry: telemetry_model.c, which makes a sample of what the sensor, the
-- clock and the machine report, and telemetry_json.c. The library's `%.2f` is an argument. A pointer
-- argument is an `Option`, `none` being NULL; a string is the list of its bytes before the NUL.
pub mod Cycle
pub mod Sample
pub mod Tally
pub mod Counted
mod Tests
use industrial_edge_monitor.Base.{
  ℕ, ◌-◌, ◌*◌, ◌^◌, Bool, true, false, ◌&&◌, ◌||◌, not, Option, none, some, List, [], ◌++◌, ltb,
  if◌then◌else◌, EspErr, esp_ok, invalid_arg, invalid_size, other, is_ok, ℤ, pos, negsuc, ltb_ℤ,
  codes, is_empty, length, take,
}
use industrial_edge_monitor.MachineStatus.{Status, unknown, to_string}
use industrial_edge_monitor.Sensor.{
  Float32, finite, infinite, not_a_number, SensorData, Driver, Sensor, invalidate, read,
}

abbrev pub device_id_size : ℕ
device_id_size = 64

abbrev pub err_sensor_read : EspErr
err_sensor_read = other 0x7101

abbrev pub err_value_not_finite : EspErr
err_value_not_finite = other 0x7102

abbrev pub err_temperature_range : EspErr
err_temperature_range = other 0x7103

abbrev pub err_humidity_range : EspErr
err_humidity_range = other 0x7104

abbrev pub err_timestamp : EspErr
err_timestamp = other 0x7105

pub record Telemetry : Type 0 where
  pub device_id : List ℕ
  pub timestamp : List ℕ
  pub temperature : Float32
  pub humidity : Float32
  pub machine_status : List ℕ
  pub machine_status_result : EspErr

-- The result, and `runtime_device_id`.
unfoldable pub configure : Option (List ℕ) → List ℕ → EspErr × List ℕ
configure none before = (invalid_arg, before)
configure (some device_id) before = if is_empty device_id then (invalid_arg, before) else (
  if ltb (length device_id) device_id_size then esp_ok else invalid_size,
  take (device_id_size - 1) device_id,
)

abbrev pub is_finite : Float32 → Bool
is_finite (finite n) = true
is_finite (infinite negative) = false
is_finite not_a_number = false

-- A whole number of degrees or percent, in the units of `finite`.
abbrev pub whole : ℕ → ℤ
whole n = pos (n * 2 ^ 149)

-- -40.
abbrev pub minus_forty : ℤ
minus_forty = negsuc (40 * 2 ^ 149 - 1)

-- `value < minimum || value > maximum`; no comparison with a NaN holds.
abbrev pub outside : ℤ → ℤ → Float32 → Bool
outside minimum maximum (finite n) = ltb_ℤ n minimum || ltb_ℤ maximum n
outside minimum maximum (infinite negative) = true
outside minimum maximum not_a_number = false

unfoldable pub validate_measurement : SensorData → EspErr
validate_measurement d =
    if not (is_finite d.temperature) || not (is_finite d.humidity)
    then err_value_not_finite
    else if outside minus_forty (whole 85) d.temperature
    then err_temperature_range
    else if outside (whole 0) (whole 100) d.humidity
    then err_humidity_range
    else esp_ok

abbrev pub zero_data : SensorData
zero_data = record {
  temperature = finite (pos 0);
  humidity = finite (pos 0);
  pressure = finite (pos 0);
}

abbrev pub or_zero : Option SensorData → SensorData
or_zero none = zero_data
or_zero (some d) = d

abbrev pub or_unknown : Option Status → Status
or_unknown none = unknown
or_unknown (some s) = s

-- What `snprintf` of a text into an array of that size is tested for.
abbrev pub fits : List ℕ → ℕ → Bool
fits text size = not (is_empty text) && ltb (length text) size

-- From the time stamp on: the results of `system_time_get_timestamp` and `machine_status_get`, with
-- what they store.
unfoldable pub complete :
    EspErr × List ℕ → EspErr × Option Status → List ℕ → SensorData → EspErr × Option Telemetry
complete (stamped, timestamp) (machine_result, machine) device_id d =
    let status_text = to_string (or_unknown machine) in
    if not (is_ok stamped)
    then (err_timestamp, none)
    else if not (fits status_text 16)
    then (invalid_size, none)
    else if not (fits device_id device_id_size)
    then (invalid_size, none)
    else (
      esp_ok,
      some (record {
        device_id = device_id;
        timestamp = timestamp;
        temperature = d.temperature;
        humidity = d.humidity;
        machine_status = status_text;
        machine_status_result = machine_result;
      }),
    )

abbrev pub or_before : {A : Type 0} → A → Option A → A
or_before a none = a
or_before a (some b) = b

module _ {W : Type 0} (bme280 : Driver W) where
  -- The result, what the pointer refers to, and the sensor.
  unfoldable pub create :
      EspErr × List ℕ
      → EspErr × Option Status
      → List ℕ
      → Option Telemetry
      → Sensor W
      → (EspErr × Option Telemetry) × Sensor W
  unfolding read validate_measurement invalidate complete
  create clock machine device_id none s = ((invalid_arg, none), s)
  create clock machine device_id (some before) s =
      let ((sensor_result, got), s1) = read bme280 (some zero_data) s in
      let validation = validate_measurement (or_zero got) in
      let (result, sample) = complete clock machine device_id (or_zero got) in
      if not (is_ok sensor_result)
      then ((err_sensor_read, some before), s1)
      else if not (is_ok validation)
      then ((validation, some before), (invalidate bme280 s1).1)
      else ((result, some (or_before before sample)), s1)

-- `format` is `%.2f`. The text and its length, or -1, which is `none`.
unfoldable pub to_json : (Float32 → List ℕ) → Option Telemetry → ℕ → Option (List ℕ)
to_json format none size = none
to_json format (some t) size =
    let written =
      codes "{\"device_id\":\""
      ++ t.device_id
      ++ codes "\",\"timestamp\":\""
      ++ t.timestamp
      ++ codes "\",\"temperature\":"
      ++ format t.temperature
      ++ codes ",\"humidity\":"
      ++ format t.humidity
      ++ codes ",\"machine_status\":\""
      ++ t.machine_status
      ++ codes "\"}" in
    if ltb (length written) size then some written else none
