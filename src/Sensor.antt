-- ===== src/Sensor.antt =====
-- firmware/components/sensor/sensor.c: the sensor, which is initialized again after a failure. The
-- driver of the BME280 is the record `Driver` over its own state. A pointer argument is an
-- `Option`, `none` being NULL.
use industrial_edge_monitor.Base.{
  Bool, true, false, ◌&&◌, not, Option, none, some, if◌then◌else◌, EspErr, esp_ok, invalid_arg,
  is_ok, ℤ,
}

-- A `float`: a finite one is a multiple of 2 ^ -149, which is its value here.
pub data Float32 : Type 0 where
  finite : ℤ → Float32
  infinite : (negative : Bool) → Float32
  not_a_number : Float32

-- `sensor_data_t` and `bme280_measurement_t`.
pub record SensorData : Type 0 where
  pub temperature : Float32
  pub humidity : Float32
  pub pressure : Float32

pub record Driver (W : Type 0) : Type 0 where
  pub init : W → EspErr × W
  pub deinit : W → EspErr × W
  pub read : W → EspErr × SensorData × W

-- The static variable, and the driver.
pub record Sensor (W : Type 0) : Type 0 where
  pub initialized : Bool
  pub driver : W

module _ {W : Type 0} (bme280 : Driver W) where
  unfoldable pub invalidate : Sensor W → EspErr × Sensor W
  invalidate s =
      let (result, w) = bme280.deinit s.driver in
      (result, record { initialized = false; driver = w })

  unfoldable pub init : Sensor W → EspErr × Sensor W
  unfolding invalidate
  init s =
      let (result, w) = bme280.init s.driver in
      let failed = record s { driver = w } in
      if not (is_ok result)
      then (result, (invalidate failed).1)
      else (esp_ok, record { initialized = true; driver = w })

  -- From `bme280_read` on.
  unfoldable pub read_initialized : SensorData → Sensor W → (EspErr × SensorData) × Sensor W
  unfolding invalidate
  read_initialized before s =
      let (result, measurement, w) = bme280.read s.driver in
      let read = record s { driver = w } in
      if not (is_ok result)
      then ((result, before), (invalidate read).1)
      else ((esp_ok, measurement), read)

  -- The result, what the pointer refers to, and the sensor.
  unfoldable pub read : Option SensorData → Sensor W → (EspErr × Option SensorData) × Sensor W
  unfolding init read_initialized
  read none s = ((invalid_arg, none), s)
  read (some before) s =
      let (result, ready) = init s in
      let ((got, measured), after) = read_initialized before (if s.initialized then s else ready) in
      if not s.initialized && not (is_ok result)
      then ((result, some before), ready)
      else ((got, some measured), after)
