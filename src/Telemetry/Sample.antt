-- ===== src/Telemetry/Sample.antt =====
-- What `telemetry_model_create` makes, and when.
use industrial_edge_monitor.Base.{
  ℕ, ◌≡◌, ◌⊎◌, inl, inr, refl, arith, true, false, not, ◌||◌, Option, none, some, List, EspErr,
  esp_ok, is_ok, if_split, not-false, subst, sym, ℤ, leb_ℤ,
}
use industrial_edge_monitor.MachineStatus.{Status, to_string}
use industrial_edge_monitor.Sensor.{
  Float32, finite, infinite, not_a_number, SensorData, Driver, Sensor, read, invalidate,
}
use industrial_edge_monitor.Telemetry.{
  Telemetry, create, complete, validate_measurement, is_finite, whole, minus_forty, fits, outside,
  device_id_size, zero_data, or_zero, err_sensor_read, or_before, or_unknown,
}

-- A finite value between two bounds.
pub data Within (low high : ℤ) : Float32 → Type 0 where
  within : {n : ℤ} → leb_ℤ low n ≡ true → leb_ℤ n high ≡ true → Within low high (finite n)

pub record IsValid (d : SensorData) : Type 0 where
  pub temperature : Within minus_forty (whole 85) d.temperature
  pub humidity : Within (whole 0) (whole 100) d.humidity

-- A sample of that device, with the time that the clock stamps it with.
pub record IsMade (clock : EspErr × List ℕ) (configured : List ℕ) (t : Telemetry) : Type 0 where
  pub stamped : is_ok (clock.0) ≡ true
  pub timestamp : t.timestamp ≡ clock.1
  pub device_id : t.device_id ≡ configured
  pub id_fits : fits t.device_id device_id_size ≡ true
  pub status_fits : fits t.machine_status 16 ≡ true
  pub temperature : Within minus_forty (whole 85) t.temperature
  pub humidity : Within (whole 0) (whole 100) t.humidity

outside-Within :
    (low high : ℤ) (v : Float32)
    → outside low high v ≡ false
    → is_finite v ≡ true
    → Within low high v
outside-Within low high (finite n) e f = within (ground arith) (ground arith)
outside-Within low high (infinite negative) e f = ground arith
outside-Within low high not_a_number e f = ground arith

validate_measurement-IsValid :
    (d : SensorData)
    → (is_ok (validate_measurement d) ≡ false) ⊎ ((validate_measurement d ≡ esp_ok) × IsValid d)
unfolding validate_measurement
validate_measurement-IsValid d =
    let P : EspErr → Type 0 = λ r. (is_ok r ≡ false) ⊎ ((r ≡ esp_ok) × IsValid d) in
    if_split P (not (is_finite d.temperature) || not (is_finite d.humidity)) (λ e. inl refl)
      (λ e.
        if_split P (outside minus_forty (whole 85) d.temperature) (λ e₁. inl refl)
          (λ e₁.
            if_split P (outside (whole 0) (whole 100) d.humidity) (λ e₂. inl refl)
              (λ e₂. inr (
                refl,
                record {
                  temperature = outside-Within _ _ d.temperature e₁ (ground arith);
                  humidity = outside-Within _ _ d.humidity e₂ (ground arith);
                },
              ))))

complete_lem :
    (clock : EspErr × List ℕ) (machine : EspErr × Option Status) (device_id : List ℕ)
    (d : SensorData)
    → IsValid d
    → let r = complete clock machine device_id d in
      ((is_ok (r.0) ≡ false) × (r.1 ≡ none))
      ⊎ ((r.0 ≡ esp_ok) × ((t : Telemetry) × ((r.1 ≡ some t) × IsMade clock device_id t)))
unfolding complete
complete_lem (stamped, timestamp) (machine_result, machine) device_id d v =
    let P : EspErr × Option Telemetry → Type 0 = λ r.
      ((is_ok (r.0) ≡ false) × (r.1 ≡ none))
      ⊎ ((r.0 ≡ esp_ok)
          × ((t : Telemetry) × ((r.1 ≡ some t) × IsMade (stamped, timestamp) device_id t))) in
    let status_text = to_string (or_unknown machine) in
    if_split P (not (is_ok stamped)) (λ e. inl (refl, refl))
      (λ e.
        if_split P (not (fits status_text 16)) (λ e₁. inl (refl, refl))
          (λ e₁.
            if_split P (not (fits device_id device_id_size)) (λ e₂. inl (refl, refl))
              (λ e₂. inr (
                refl,
                (
                  _,
                  (
                    refl,
                    record {
                      stamped = not-false _ e;
                      timestamp = refl;
                      device_id = refl;
                      id_fits = not-false _ e₂;
                      status_fits = not-false _ e₁;
                      temperature = v.temperature;
                      humidity = v.humidity;
                    },
                  ),
                ),
              ))))

-- The result, the sample and the sensor's flag after a call that has storage for the sample.
pub data Outcome (clock : EspErr × List ℕ) (configured : List ℕ) (before : Telemetry)
    : EspErr → Option Telemetry → Type 0 where
  made :
      {after : Telemetry}
      → IsMade clock configured after
      → Outcome clock configured before esp_ok (some after)
  refused :
      {result : EspErr}
      → is_ok result ≡ false
      → Outcome clock configured before result (some before)

complete-Outcome :
    (clock : EspErr × List ℕ) (configured : List ℕ) (before : Telemetry)
    (r : EspErr × Option Telemetry)
    → ((is_ok (r.0) ≡ false) × (r.1 ≡ none))
      ⊎ ((r.0 ≡ esp_ok) × ((t : Telemetry) × ((r.1 ≡ some t) × IsMade clock configured t)))
    → Outcome clock configured before (r.0) (some (or_before before (r.1)))
complete-Outcome clock configured before (result, sample) (inl (bad, nothing)) =
    subst (λ o. Outcome clock configured before result (some (or_before before o))) (sym nothing)
      (refused bad)
complete-Outcome clock configured before (result, sample) (inr (ok, (t, (something, m)))) =
    subst (λ r. Outcome clock configured before r (some (or_before before sample))) (sym ok)
      (subst (λ o. Outcome clock configured before esp_ok (some (or_before before o)))
        (sym something) (made m))

module _ {W : Type 0} (bme280 : Driver W) where
  -- `telemetry_model_create` returns ESP_OK only with a sample whose temperature is finite and between
  -- -40 and 85, whose humidity is finite and between 0 and 100, that has the configured device id, not
  -- empty and shorter than 64 bytes, and the time stamp of a clock that could give one; with any other
  -- result the caller's storage is as it was. The driver of the sensor may return any measurement.
  pub create-Outcome :
      (clock : EspErr × List ℕ) (machine : EspErr × Option Status) (device_id : List ℕ)
      (before : Telemetry) (s : Sensor W)
      → let r = create bme280 clock machine device_id (some before) s in
        Outcome clock device_id before (r.0.0) (r.0.1)
  unfolding create
  create-Outcome clock machine device_id before s =
      let sensed = read bme280 (some zero_data) s in
      let d = or_zero (sensed.0.1) in
      let r = complete clock machine device_id d in
      let P : (EspErr × Option Telemetry) × Sensor W → Type 0 =
        λ r. Outcome clock device_id before (r.0.0) (r.0.1) in
      if_split P (not (is_ok (sensed.0.0))) {x = ((err_sensor_read, some before), sensed.1)}
        (λ e. refused refl)
        (λ e.
          if_split P (not (is_ok (validate_measurement d)))
            {x = ((validate_measurement d, some before), (invalidate bme280 (sensed.1)).1)}
            {y = ((r.0, some (or_before before (r.1))), sensed.1)} (λ e'. refused (ground arith))
            (λ e'. elim (validate_measurement-IsValid d) [
              | inl bad ↦ absurd (ground arith)
              | inr (ok, v) ↦
                  complete-Outcome clock device_id before r
                    (complete_lem clock machine device_id d v)
            ]))
