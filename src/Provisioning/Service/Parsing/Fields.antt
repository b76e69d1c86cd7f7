-- ===== src/Provisioning/Service/Parsing/Fields.antt =====
-- Results of the parser of configurations, and the values that it takes from JSON.
use industrial_edge_monitor.Base.{
  ℕ, ◌+◌, ◌-◌, ◌^◌, Bool, true, false, ◌||◌, not, Option, none, some, List, [], length, ltb,
  if◌then◌else◌, is_ok, u32, ℤ, pos, negsuc, codes, bytes_eq, is_empty,
}
use industrial_edge_monitor.Config.{DeviceConfig, machine_gpio, machine_disabled, pull_none}
use industrial_edge_monitor.Config.Validate.{validate}
use industrial_edge_monitor.Config.Storage.Configuration.{zero_configuration}
use industrial_edge_monitor.Config.Store.Operations.{store_text}

-- A result, or the text of the error.
pub data Result (A : Type 0) : Type 0 where
  ok : A → Result A
  refused : List ℕ → Result A

infixl 5 ◌>>=◌ ◌>>◌
unfoldable pub ◌>>=◌ : {A B : Type 0} → Result A → (A → Result B) → Result B
ok a >>= f = f a
refused e >>= f = refused e

abbrev pub ◌>>◌ : {A B : Type 0} → Result A → Result B → Result B
m >> n = m >>= λ _. n

-- A function that returns false is `none`; then the text is set.
unfoldable pub or_refused : {A : Type 0} → Option A → List ℕ → Result A
or_refused none e = refused e
or_refused (some a) e = ok a

unfoldable pub guard : Bool → List ℕ → Result (Unit {0})
guard true e = ok tt
guard false e = refused e

abbrev pub fields_error : List ℕ
fields_error = codes "one or more required fields have invalid type, value or length"

-- The array after `copy_json_string`, `none` for its return of false.
abbrev pub copy_text : Option (List ℕ) → ℕ → List ℕ → Option (List ℕ)
copy_text none size target = none
copy_text (some value) size target =
    if is_empty value || not (ltb (length value) size)
    then none
    else some (store_text size value target)

-- The number after `json_uint`.
abbrev pub to_uint : Option (Option ℤ) → Option ℕ
to_uint none = none
to_uint (some none) = none
to_uint (some (some (negsuc n))) = none
to_uint (some (some (pos n))) = if ltb (2 ^ 32 - 1) n then none else some n

abbrev pub string_is : Option (List ℕ) → List ℕ → Bool
string_is none expected = false
string_is (some given) expected = bytes_eq given expected

-- What the fields start from, and whether there is an active configuration.
abbrev pub base_configuration : Option DeviceConfig → DeviceConfig
base_configuration none = record zero_configuration {
  revision = 1;
  machine_status_gpio = pos 27;
  machine_status_pull = pull_none;
}
base_configuration (some active) = record active { revision = u32 (active.revision + 1) }

abbrev pub has_active : Option DeviceConfig → Bool
has_active none = false
has_active (some active) = true

abbrev pub field : {A : Type 0} → Option A → Result A
field read = or_refused read fields_error

abbrev pub provider_of : Option (List ℕ) → Option ℕ
provider_of provider =
    if string_is provider (codes "gpio")
    then some machine_gpio
    else if string_is provider (codes "disabled")
    then some machine_disabled
    else none

abbrev pub or_message : Option (List ℕ) → List ℕ
or_message none = []
or_message (some m) = m

-- `device_config_validate` with the error buffer of 160 bytes.
unfoldable pub finish_parse : (List ℕ → Bool) → DeviceConfig → Result DeviceConfig
finish_parse parses c =
    let (result, message) = validate parses (some c) 160 in
    if is_ok result then ok c else refused (or_message message)
