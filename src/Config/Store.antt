-- ===== src/Config/Store.antt =====
-- How device_config.c reads and writes its blobs. NVS, the heap and the mutex are not in the
-- repository: their state is a type `W`, and what the file calls is the record `Nvs`. Whatever a
-- call returns or changes, the state it leaves is passed on.
pub mod Operations
pub mod Laws
pub mod Budget
pub mod Memory
pub mod Untouched
pub mod Activation
pub mod Redacted
pub mod Secret
mod Tests
use industrial_edge_monitor.Base.{
  ℕ, ◌+◌, Bool, true, false, ◌||◌, not, Option, none, some, List, ltb, if◌then◌else◌, EspErr,
  esp_ok, no_mem, invalid_size, nvs_not_found, is_ok, replicate,
}
use industrial_edge_monitor.Config.{DeviceConfig, Metadata}
use industrial_edge_monitor.Config.Validate.{validate}
use industrial_edge_monitor.Config.Storage.{configuration_size, metadata_size, header_size}
use industrial_edge_monitor.Config.Storage.Configuration.{
  encode_configuration, decode_configuration,
}
use industrial_edge_monitor.Config.Storage.Meta.{encode_metadata, decode_metadata, zero_metadata}

-- The keys of the namespace that hold blobs.
pub data Key : Type 0 where
  active candidate metadata : Key

pub data OpenMode : Type 0 where
  read_only read_write : OpenMode

-- A handle is a number. `nvs_get_blob` is `get_size` where its buffer is NULL and `get_blob` with
-- the size of the buffer otherwise.
pub record Nvs (W : Type 0) : Type 0 where
  pub mutex_create : W → Bool × W
  pub mutex_take : W → Bool × W
  pub mutex_give : W → W
  pub flash_init : W → EspErr × W
  pub flash_erase : W → EspErr × W
  pub nvs_open : OpenMode → W → EspErr × ℕ × W
  pub get_size : ℕ → Key → W → EspErr × ℕ × W
  pub get_blob : ℕ → Key → ℕ → W → EspErr × List ℕ × ℕ × W
  pub set_blob : ℕ → Key → List ℕ → W → EspErr × W
  pub erase : ℕ → Key → W → EspErr × W
  pub erase_all : ℕ → W → EspErr × W
  pub commit : ℕ → W → EspErr × W
  pub close : ℕ → W → W
  pub calloc : ℕ → W → Bool × W
  pub free : W → W

abbrev pub is_not_found : EspErr → Bool
is_not_found nvs_not_found = true
is_not_found _ = false

-- What a pointer that is not NULL refers to after a call.
abbrev pub or_before : {A : Type 0} → A → Option A → A
or_before a none = a
or_before a (some b) = b

module _ {W : Type 0} (nvs : Nvs W) where
  -- The result, the buffer (`none` for NULL) and its size.
  unfoldable pub read_encoded_blob : Key → ℕ → W → EspErr × Option (List ℕ) × ℕ × W
  read_encoded_blob key maximum w =
      let (opened, handle, w1) = nvs.nvs_open read_only w in
      let (sized, size, w2) = nvs.get_size handle key w1 in
      let (allocated, w3) = nvs.calloc size w2 in
      let (got, bytes, size', w4) = nvs.get_blob handle key size w3 in
      if not (is_ok opened)
      then (opened, none, 0, w1)
      else if not (is_ok sized)
      then (sized, none, size, nvs.close handle w2)
      else if ltb size header_size || ltb maximum size
      then (invalid_size, none, size, nvs.close handle w2)
      else if not allocated
      then (no_mem, none, size, nvs.close handle w3)
      else if is_ok got
      then (got, some bytes, size', nvs.close handle w4)
      else (got, none, size', nvs.free (nvs.close handle w4))

  unfoldable pub write_encoded_blob : Key → List ℕ → W → EspErr × W
  write_encoded_blob key encoded w =
      let (opened, handle, w1) = nvs.nvs_open read_write w in
      let (stored, w2) = nvs.set_blob handle key encoded w1 in
      let (committed, w3) = nvs.commit handle w2 in
      if not (is_ok opened)
      then (opened, w1)
      else if is_ok stored
      then (committed, nvs.close handle w3)
      else (stored, nvs.close handle w2)

  -- `free` of a buffer that was allocated.
  abbrev pub release : Option (List ℕ) → W → W
  release none w = w
  release (some bytes) w = nvs.free w

  unfoldable pub read_metadata : Metadata → W → EspErr × Metadata × W
  read_metadata before w =
      let (result, encoded, size, w1) = read_encoded_blob metadata 1024 w in
      let (decoded, after) = decode_metadata encoded size (some before) in
      if is_ok result
      then (decoded, or_before before after, release encoded w1)
      else (result, before, release encoded w1)

  unfoldable pub write_metadata : Metadata → W → EspErr × W
  write_metadata m w =
      let (allocated, w1) = nvs.calloc metadata_size w in
      let (encoded, bytes) =
        encode_metadata (some m) (some (replicate metadata_size 0)) metadata_size in
      let (written, w2) = write_encoded_blob metadata bytes w1 in
      if not allocated
      then (no_mem, w1)
      else if is_ok encoded
      then (written, nvs.free w2)
      else (encoded, nvs.free w1)

  unfoldable pub write_configuration : Key → DeviceConfig → W → EspErr × W
  write_configuration key c w =
      let (allocated, w1) = nvs.calloc configuration_size w in
      let (encoded, bytes) =
        encode_configuration (some c) (some (replicate configuration_size 0)) configuration_size in
      let (written, w2) = write_encoded_blob key bytes w1 in
      if not allocated
      then (no_mem, w1)
      else if is_ok encoded
      then (written, nvs.free w2)
      else (encoded, nvs.free w1)

  unfoldable pub erase_key : Key → W → EspErr × W
  erase_key key w =
      let (opened, handle, w1) = nvs.nvs_open read_write w in
      let (erased, w2) = nvs.erase handle key w1 in
      let (committed, w3) = nvs.commit handle w2 in
      if not (is_ok opened)
      then (opened, w1)
      else if is_ok erased || is_not_found erased
      then (committed, nvs.close handle w3)
      else (erased, nvs.close handle w2)

  module _ (parses : List ℕ → Bool) where
    unfoldable pub read_configuration : Key → DeviceConfig → W → EspErr × DeviceConfig × W
    read_configuration key before w =
        let (result, encoded, size, w1) = read_encoded_blob key 8192 w in
        let (decoded, decoded_to) = decode_configuration encoded size (some before) in
        let after = or_before before decoded_to in
        if not (is_ok result)
        then (result, before, release encoded w1)
        else if is_ok decoded
        then ((validate parses (some after) 0).0, after, release encoded w1)
        else (decoded, after, release encoded w1)
