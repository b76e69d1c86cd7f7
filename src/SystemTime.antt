-- ===== src/SystemTime.antt =====
-- firmware/components/system_time/system_time.c: whether the clock is synchronized, and time
-- stamps. The SNTP client and the C library's calendar are not in the repository: what they return
-- is an argument.
use industrial_edge_monitor.Base.{
  ℕ, Bool, true, ◌||◌, not, Option, none, some, List, ltb, ◌==◌, if◌then◌else◌, EspErr, esp_ok,
  esp_fail, invalid_arg, invalid_size, invalid_state, is_ok, length,
}

abbrev pub timestamp_size : ℕ
timestamp_size = 21

pub record SystemTime : Type 0 where
  pub time_valid : Bool

unfoldable pub time_sync_notification : SystemTime → SystemTime
time_sync_notification t = record t { time_valid = true }

-- The result of `esp_netif_sntp_init`, that of the wait, and whether the client calls back meanwhile.
unfoldable pub init : EspErr → EspErr → Bool → SystemTime → EspErr × SystemTime
unfolding time_sync_notification
init started waited notified t =
    if not (is_ok started)
    then (started, t)
    else (waited, if notified then time_sync_notification t else t)

unfoldable pub is_valid : SystemTime → Bool
is_valid t = t.time_valid

-- The string that `strftime` makes, or nothing where `gmtime_r` returns NULL. The buffer is `none`
-- for NULL; the result, and the string that the buffer then holds.
unfoldable pub get_timestamp :
    Option (List ℕ) → Option (List ℕ) → ℕ → SystemTime → EspErr × Option (List ℕ)
unfolding is_valid
get_timestamp formatted none size t = (invalid_arg, none)
get_timestamp formatted (some before) size t =
    if ltb size timestamp_size
    then (invalid_size, some before)
    else if not (is_valid t)
    then (invalid_state, some before)
    else elim formatted [
      | none ↦ (esp_fail, some before)
      | some text ↦
          if length text == 0 || not (ltb (length text) size)
          then (invalid_size, some before)
          else (esp_ok, some text)
    ]
