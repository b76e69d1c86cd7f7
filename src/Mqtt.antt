-- ===== src/Mqtt.antt =====
-- firmware/components/mqtt_client_app/mqtt_error_state.c: the last error of the MQTT client, which
-- one task sets and another copies. `taken` is what `xSemaphoreTake` returns to the call, and
-- `has_mutex` says that the mutex handle is not NULL.
pub mod Copied
pub mod Client
pub mod Connection
pub mod Started
mod Tests
use industrial_edge_monitor.Base.{
  ℕ, Bool, true, false, ◌&&◌, ◌||◌, not, ◌==◌, Option, none, some, List, [], ltb, if◌then◌else◌,
  length, snprintf_text,
}

abbrev pub text_capacity : ℕ
text_capacity = 96

pub record ErrorState : Type 0 where
  pub has_mutex : Bool
  pub text : List ℕ

abbrev pub lock : ErrorState → Bool → Bool
lock s taken = s.has_mutex && taken

-- `created` says whether `xSemaphoreCreateMutexStatic` returned a handle.
unfoldable pub init_error : Bool → Option ErrorState → Option ErrorState × Bool
init_error created none = (none, false)
init_error created (some s) = (some (record { has_mutex = created; text = [] }), created)

abbrev pub text_or_empty : Option (List ℕ) → List ℕ
text_or_empty none = []
text_or_empty (some message) = message

unfoldable pub set_error : Bool → Option ErrorState → Option (List ℕ) → Option ErrorState
set_error taken none message = none
set_error taken (some s) message =
    if not (lock s taken)
    then some s
    else some (record s { text = snprintf_text text_capacity (text_or_empty message) })

-- The string in the buffer afterwards, and the result.
unfoldable pub copy_error : Bool → Option ErrorState → Option (List ℕ) → ℕ → Option (List ℕ) × Bool
copy_error taken none buffer size = (buffer, false)
copy_error taken (some s) none size = (none, false)
copy_error taken (some s) (some buffer) size =
    if size == 0 || not (lock s taken)
    then (some buffer, false)
    else (some (snprintf_text size s.text), ltb (length s.text) size)
