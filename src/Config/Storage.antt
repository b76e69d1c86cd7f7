-- ===== src/Config/Storage.antt =====
-- The storage format: firmware/components/device_config/device_config_storage.c. A buffer is the
-- list of its bytes.
pub mod Configuration
pub mod Meta
pub mod Writes
pub mod Reads
pub mod Header
pub mod RoundTrip
use industrial_edge_monitor.Base.{
  ℕ, ◌+◌, ◌-◌, ◌*◌, ◌/◌, ◌%◌, ◌^◌, suc, Bool, true, false, ◌&&◌, ◌||◌, not, Option, none, some,
  List, [], ◌∷◌, ◌++◌, ltb, leb, ◌==◌, if◌then◌else◌, ℤ, pos, negsuc, u8, u16, u32, get_or, take,
  drop, length, replicate, bit_or, codes, bytes_eq, EspErr, esp_ok, invalid_arg, invalid_size,
  not_supported, is_ok,
}
use industrial_edge_monitor.Config.{
  DeviceConfig, Metadata, device_id_max, wifi_ssid_max, wifi_password_max, mqtt_uri_max,
  mqtt_ca_max, mqtt_username_max, mqtt_password_max, mqtt_client_id_max, rollback_reason_max,
  state_rollback,
}

abbrev pub format_version : ℕ
format_version = 1

abbrev pub header_size : ℕ
header_size = 12

abbrev pub configuration_payload_size : ℕ
configuration_payload_size =
    4
    + 4
    + (device_id_max + 1)
    + (wifi_ssid_max + 1)
    + (wifi_password_max + 1)
    + (mqtt_uri_max + 1)
    + (mqtt_ca_max + 1)
    + (mqtt_username_max + 1)
    + (mqtt_password_max + 1)
    + (mqtt_client_id_max + 1)
    + 4
    + 1
    + 4
    + 1
    + 1
    + 1
    + 4
    + 4

abbrev pub metadata_payload_size : ℕ
metadata_payload_size = 1 + 4 + 4 + 4 + (rollback_reason_max + 1)

abbrev pub configuration_magic : List ℕ
configuration_magic = codes "IEMC"

abbrev pub metadata_magic : List ℕ
metadata_magic = codes "IEMM"

pub record Writer : Type 0 where
  pub contents : List ℕ
  pub size : ℕ
  pub offset : ℕ

pub record Reader : Type 0 where
  pub contents : List ℕ
  pub size : ℕ
  pub offset : ℕ

-- A write moves the writer and says whether it was done.
abbrev pub Step : Type 0
Step = Writer → Writer × Bool

-- `&&` of two writes: the second one is made only if the first one was.
infixr 35 ◌then_write◌
abbrev pub ◌then_write◌ : Step → Step → Step
◌then_write◌ s t w = let (w', done) = s w in if done then t w' else (w', false)

-- `memcpy` into the buffer at an offset.
abbrev pub overwrite : List ℕ → ℕ → List ℕ → List ℕ
overwrite contents offset bytes =
    take offset contents ++ (bytes ++ drop (offset + length bytes) contents)

-- The bytes are the whole of the value, so its size is their number.
unfoldable pub write_bytes : List ℕ → Step
write_bytes bytes w =
    if ltb w.size w.offset || ltb (w.size - w.offset) (length bytes) then (w, false) else (
      record w { contents = overwrite w.contents w.offset bytes; offset = w.offset + length bytes },
      true,
    )

abbrev pub bytes_u8 : ℕ → List ℕ
bytes_u8 v = u8 v ∷ []

abbrev pub bytes_u16 : ℕ → List ℕ
bytes_u16 v = u8 v ∷ u8 (v / 2 ^ 8) ∷ []

abbrev pub bytes_u32 : ℕ → List ℕ
bytes_u32 v = u8 v ∷ u8 (v / 2 ^ 8) ∷ u8 (v / 2 ^ 16) ∷ u8 (v / 2 ^ 24) ∷ []

unfoldable pub write_u8 : ℕ → Step
write_u8 v = write_bytes (bytes_u8 v)

unfoldable pub write_u16 : ℕ → Step
write_u16 v = write_bytes (bytes_u16 v)

unfoldable pub write_u32 : ℕ → Step
write_u32 v = write_bytes (bytes_u32 v)

-- A read yields its value and the reader, or fails.
abbrev pub Read : Type 0 → Type 0
Read A = Reader → Option (A × Reader)

infixl 5 ◌>>=◌ ◌>>◌
abbrev pub ◌>>=◌ : {A B : Type 0} → Read A → (A → Read B) → Read B
◌>>=◌ p q r = elim (p r) [ none ↦ none | some (a, r') ↦ q a r' ]

abbrev pub ◌>>◌ : {A B : Type 0} → Read A → Read B → Read B
p >> q = p >>= λ _. q

abbrev pub give : {A : Type 0} → A → Read A
give a r = some (a, r)

unfoldable pub read_bytes : ℕ → Read (List ℕ)
read_bytes size r =
    if ltb r.size r.offset || ltb (r.size - r.offset) size
    then none
    else some (take size (drop r.offset r.contents), record r { offset = r.offset + size })

unfoldable pub read_u8 : Read ℕ
read_u8 = do bytes ← read_bytes 1; give (get_or bytes 0 0)

-- `decode_u16` and `decode_u32` at an offset.
unfoldable pub decode_u16 : List ℕ → ℕ → ℕ
decode_u16 bytes at_offset =
    bit_or (get_or bytes at_offset 0) (get_or bytes (at_offset + 1) 0 * 2 ^ 8)

unfoldable pub decode_u32 : List ℕ → ℕ → ℕ
decode_u32 bytes at_offset =
    bit_or
      (bit_or (bit_or (get_or bytes at_offset 0) (get_or bytes (at_offset + 1) 0 * 2 ^ 8))
        (get_or bytes (at_offset + 2) 0 * 2 ^ 16))
      (get_or bytes (at_offset + 3) 0 * 2 ^ 24)

unfoldable pub read_u32 : Read ℕ
read_u32 = do bytes ← read_bytes 4; give (decode_u32 bytes 0)

unfoldable pub write_header : List ℕ → ℕ → Step
write_header magic payload_size =
    write_bytes magic
    then_write write_u16 format_version
    then_write write_u16 header_size
    then_write write_u32 payload_size

unfoldable pub configuration_size : ℕ
configuration_size = header_size + configuration_payload_size

unfoldable pub metadata_size : ℕ
metadata_size = header_size + metadata_payload_size

pub record StorageHeader : Type 0 where
  pub format_version_field : ℕ
  pub header_size_field : ℕ
  pub payload_size_field : ℕ

-- The result, and the header that is stored through the pointer where the magic fits.
unfoldable pub peek_header : Option (List ℕ) → ℕ → List ℕ → StorageHeader → EspErr × StorageHeader
peek_header none size magic header = (invalid_arg, header)
peek_header (some encoded) size magic header =
    let found : StorageHeader = record {
      format_version_field = decode_u16 encoded 4;
      header_size_field = decode_u16 encoded 6;
      payload_size_field = decode_u32 encoded 8;
    } in
    if ltb size header_size
    then (invalid_size, header)
    else if not (bytes_eq (take 4 encoded) magic)
    then (invalid_arg, header)
    else if not (found.format_version_field == format_version)
    then (not_supported, found)
    else if not (found.header_size_field == header_size)
        || not (found.payload_size_field == size - found.header_size_field)
    then (invalid_size, found)
    else (esp_ok, found)
