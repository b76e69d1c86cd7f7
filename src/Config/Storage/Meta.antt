-- ===== src/Config/Storage/Meta.antt =====
-- `device_config_storage_encode_metadata` and `device_config_storage_decode_metadata`.
use industrial_edge_monitor.Base.{
  ℕ, ◌+◌, ◌||◌, not, Option, none, some, List, [], ltb, ◌==◌, if◌then◌else◌, u8, replicate, get_or,
  EspErr, esp_ok, invalid_arg, invalid_size, is_ok,
}
use industrial_edge_monitor.Config.{Metadata, rollback_reason_max, state_rollback}
use industrial_edge_monitor.Config.Storage.{
  Reader, Step, ◌then_write◌, write_header, write_bytes, write_u8, write_u32, metadata_magic,
  metadata_payload_size, metadata_size, Read, ◌>>=◌, give, read_bytes, read_u8, read_u32,
  header_size, peek_header,
}
use industrial_edge_monitor.Config.Storage.Configuration.{finish_writes, no_header, bytes_of}

unfoldable pub write_metadata_fields : Metadata → Step
write_metadata_fields m =
    write_header metadata_magic metadata_payload_size
    then_write write_u8 (u8 m.state)
    then_write write_u32 m.candidate_revision
    then_write write_u32 m.boot_attempts
    then_write write_u32 m.boot_count
    then_write write_bytes m.last_rollback_reason

unfoldable pub encode_metadata : Option Metadata → Option (List ℕ) → ℕ → EspErr × List ℕ
unfolding metadata_size
encode_metadata none encoded size = (invalid_arg, [])
encode_metadata (some m) none size = (invalid_arg, [])
encode_metadata (some m) (some encoded) size =
    if not (size == metadata_size)
    then (invalid_size, encoded)
    else finish_writes size
        (write_metadata_fields m (record { contents = encoded; size = size; offset = 0 }))

unfoldable pub zero_metadata : Metadata
zero_metadata = record {
  state = 0;
  candidate_revision = 0;
  boot_attempts = 0;
  boot_count = 0;
  last_rollback_reason = replicate (rollback_reason_max + 1) 0;
}

unfoldable pub read_metadata_fields : Read Metadata
read_metadata_fields = do
  state ← read_u8
  candidate_revision ← read_u32
  boot_attempts ← read_u32
  boot_count ← read_u32
  reason ← read_bytes (rollback_reason_max + 1)
  give (record {
    state = state;
    candidate_revision = candidate_revision;
    boot_attempts = boot_attempts;
    boot_count = boot_count;
    last_rollback_reason = reason;
  })

unfoldable pub finish_metadata : ℕ → Option (Metadata × Reader) → EspErr × Metadata
finish_metadata size none = (invalid_size, zero_metadata)
finish_metadata size (some (m, r)) =
    if not (r.offset == size)
      || (ltb state_rollback m.state
          || not (get_or m.last_rollback_reason rollback_reason_max 0 == 0))
    then (invalid_size, zero_metadata)
    else (esp_ok, m)

unfoldable pub decode_metadata : Option (List ℕ) → ℕ → Option Metadata → EspErr × Option Metadata
unfolding finish_metadata
decode_metadata encoded size none = (invalid_arg, none)
decode_metadata encoded size (some before) =
    let (result, header) = peek_header encoded size metadata_magic no_header in
    if not (is_ok result)
    then (result, some before)
    else if not (header.payload_size_field == metadata_payload_size)
    then (invalid_size, some before)
    else let (status, after) = finish_metadata size (
        read_metadata_fields
          (record { contents = bytes_of encoded; size = size; offset = header_size })) in
      (status, some after)
