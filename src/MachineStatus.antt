-- ===== src/MachineStatus.antt =====
-- firmware/components/machine_status/machine_status.c: the status of the machine by a GPIO. The
-- GPIO driver is not in the repository: what `gpio_config` returns and the level of the pin are
-- arguments. A pointer argument is an `Option`, `none` being NULL.
use industrial_edge_monitor.Base.{
  ℕ, Bool, true, false, not, Option, none, some, List, ◌==◌, if◌then◌else◌, EspErr, esp_ok,
  invalid_arg, invalid_state, not_supported, is_ok, ℤ, codes,
}
use industrial_edge_monitor.Config.{DeviceConfig, machine_gpio, pull_up, pull_down}

pub data Status : Type 0 where
  running stopped unknown : Status

-- The static variables.
pub record Provider : Type 0 where
  pub initialized : Bool
  pub provider : ℕ
  pub input_gpio : ℤ
  pub active_high : Bool
  pub pull : ℕ

-- What `gpio_config` is given: the pin, and which of the resistors is enabled.
pub record GpioConfig : Type 0 where
  pub pin : ℤ
  pub pull_up_en : Bool
  pub pull_down_en : Bool

unfoldable pub is_enabled : Provider → Bool
is_enabled p = p.provider == machine_gpio

unfoldable pub gpio_of : Provider → GpioConfig
gpio_of p = record {
  pin = p.input_gpio;
  pull_up_en = p.pull == pull_up;
  pull_down_en = p.pull == pull_down;
}

abbrev pub configured : DeviceConfig → Provider
configured c = record {
  initialized = false;
  provider = c.machine_status_provider;
  input_gpio = c.machine_status_gpio;
  active_high = c.machine_status_active_high;
  pull = c.machine_status_pull;
}

-- `config` is what `gpio_config` returns.
unfoldable pub init : (GpioConfig → EspErr) → Option DeviceConfig → Provider → EspErr × Provider
unfolding is_enabled gpio_of
init config none p = (invalid_arg, p)
init config (some c) p =
    let q = configured c in
    let result = config (gpio_of q) in
    if not (is_enabled q)
    then (esp_ok, q)
    else if not (is_ok result)
    then (result, q)
    else (esp_ok, record q { initialized = true })

-- `level` says whether the pin's level is not 0. The result, and what the pointer refers to.
unfoldable pub get : Bool → Option Status → Provider → EspErr × Option Status
unfolding is_enabled
get level none p = (invalid_arg, none)
get level (some before) p =
    if not (is_enabled p)
    then (not_supported, some unknown)
    else if not p.initialized
    then (invalid_state, some unknown)
    else (esp_ok, some (if (if p.active_high then level else not level) then running else stopped))

unfoldable pub to_string : Status → List ℕ
to_string running = codes "running"
to_string stopped = codes "stopped"
to_string unknown = codes "unknown"
