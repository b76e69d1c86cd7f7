-- ===== src/Base/Errors.antt =====
-- `esp_err_t`: the codes that the firmware names, and the others by their number.
use Prim.Native.Nat.{ℕ}
use mathlib.Core.Bool.{Bool, true, false}

pub data EspErr : Type 0 where
  esp_ok esp_fail no_mem invalid_arg invalid_state invalid_size not_found not_supported : EspErr
  timeout invalid_response nvs_not_found nvs_no_free_pages nvs_new_version_found : EspErr
  other : ℕ → EspErr

abbrev pub is_ok : EspErr → Bool
is_ok esp_ok = true
is_ok _ = false
