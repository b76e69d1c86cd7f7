-- ===== src/Config/Storage/RoundTrip/MetaTrip.antt =====
-- A metadata blob that was encoded decodes to the metadata.
use industrial_edge_monitor.Base.{
  ℕ, ◌+◌, ◌^◌, ◌≤◌, ◌<◌, ◌≡◌, refl, false, ◌||◌, not, some, arith, List, [], ◌++◌, length, ◌==◌,
  ltb, get_or, esp_ok,
}
use industrial_edge_monitor.Config.{Metadata, rollback_reason_max, state_rollback}
use industrial_edge_monitor.Config.Storage.{
  Reader, bytes_u8, bytes_u32, metadata_magic, metadata_payload_size, metadata_size, header_size,
}
use industrial_edge_monitor.Config.Storage.Configuration.{no_header}
use industrial_edge_monitor.Config.Storage.Meta.{
  write_metadata_fields, encode_metadata, read_metadata_fields, finish_metadata, decode_metadata,
}
use industrial_edge_monitor.Config.Storage.Writes.{
  ◌then_bytes◌, ◌wrote_then◌, Writes, write_bytes-Writes, write_u8-u8, write_u32-Writes,
}
use industrial_edge_monitor.Config.Storage.Reads.{
  Reads, reader_at, read_bytes-Reads, ◌reading◌then◌, last-Reads, read_u8-Reads, read_u32-Reads,
}
use industrial_edge_monitor.Config.Storage.Header.{
  header_bytes, write_header-Writes, peek_header-bytes,
}
use industrial_edge_monitor.Config.Storage.RoundTrip.{finish_writes-Writes, read_payload}

-- What the struct's types and its invariants allow.
pub record IsStorable (m : Metadata) : Type 0 where
  pub state : m.state ≤ state_rollback
  pub candidate_revision : m.candidate_revision < 2 ^ 32
  pub boot_attempts : m.boot_attempts < 2 ^ 32
  pub boot_count : m.boot_count < 2 ^ 32
  pub reason_length : length m.last_rollback_reason ≡ rollback_reason_max + 1
  pub reason_terminated : get_or m.last_rollback_reason rollback_reason_max 0 ≡ 0

abbrev payload_of : Metadata → List ℕ
payload_of m =
    bytes_u8 m.state
    then_bytes bytes_u32 m.candidate_revision
    then_bytes bytes_u32 m.boot_attempts
    then_bytes bytes_u32 m.boot_count
    then_bytes m.last_rollback_reason

header : List ℕ
header = header_bytes metadata_magic metadata_payload_size

write_metadata_fields-Writes :
    (m : Metadata)
    → Writes
        (write_metadata_fields m)
        (header_bytes metadata_magic metadata_payload_size ++ payload_of m)
unfolding write_metadata_fields
write_metadata_fields-Writes m =
    write_header-Writes metadata_magic metadata_payload_size
    wrote_then write_u8-u8 m.state
    wrote_then write_u32-Writes m.candidate_revision
    wrote_then write_u32-Writes m.boot_attempts
    wrote_then write_u32-Writes m.boot_count
    wrote_then write_bytes-Writes m.last_rollback_reason

read_metadata_fields-Reads :
    (m : Metadata) → IsStorable m → Reads read_metadata_fields m (payload_of m)
unfolding read_metadata_fields
read_metadata_fields-Reads m ok =
    read_u8-Reads m.state (omega (arith, ok.state))
    reading _ then read_u32-Reads m.candidate_revision ok.candidate_revision
    reading _ then read_u32-Reads m.boot_attempts ok.boot_attempts
    reading _ then read_u32-Reads m.boot_count ok.boot_count
    reading _ then
      last-Reads _
        (read_bytes-Reads m.last_rollback_reason (rollback_reason_max + 1) ok.reason_length)

unfoldable pub metadata_bytes : Metadata → List ℕ
metadata_bytes m = header_bytes metadata_magic metadata_payload_size ++ payload_of m

pub length-payload_of :
    (m : Metadata) → IsStorable m → length (payload_of m) ≡ metadata_payload_size
length-payload_of m ok = omega (arith, ok.reason_length)

-- A buffer of the declared size takes the encoding of any metadata whose reason fills its array.
pub encode_metadata-bytes :
    (m : Metadata) (buffer : List ℕ)
    → IsStorable m
    → length buffer ≡ metadata_size
    → encode_metadata (some m) (some buffer) metadata_size ≡ (esp_ok, metadata_bytes m)
unfolding encode_metadata metadata_size metadata_bytes
encode_metadata-bytes m buffer ok room =
    finish_writes-Writes buffer (header_size + metadata_payload_size)
      (write_metadata_fields-Writes m) (omega (arith, length-payload_of m ok)) room

-- Reads that end where the buffer ends give back the metadata.
finish_metadata_lem :
    (m : Metadata) (size : ℕ) (r : Reader)
    → IsStorable m
    → r.offset ≡ size
    → finish_metadata size (some (m, r)) ≡ (esp_ok, m)
unfolding finish_metadata
finish_metadata_lem m size r ok ended =
    let guard : (not (r.offset == size)
          || (ltb state_rollback m.state
              || not (get_or m.last_rollback_reason rollback_reason_max 0 == 0)))
        ≡ false =
      ground (arith, ok.state, ok.reason_terminated) in
    rw guard refl

pub decode_metadata-bytes :
    (m before : Metadata)
    → IsStorable m
    → decode_metadata (some (metadata_bytes m)) metadata_size (some before) ≡ (esp_ok, some m)
unfolding decode_metadata metadata_size metadata_bytes
decode_metadata-bytes m before ok =
    rw
      (
        peek_header-bytes 73 69 77 77 (payload_of m) (header_size + metadata_payload_size)
            metadata_payload_size no_header (length-payload_of m ok) (omega arith) refl,
        read_payload (header_bytes metadata_magic metadata_payload_size)
            (header_size + metadata_payload_size) (read_metadata_fields-Reads m ok) refl
            (omega (arith, length-payload_of m ok)),
        finish_metadata_lem m (header_size + metadata_payload_size)
            (reader_at (header_bytes metadata_magic metadata_payload_size ++ payload_of m) []) ok
            (omega (arith, length-payload_of m ok)),
      )
      refl

-- For metadata that its types allow (a state of the enumeration, 32-bit counters, a reason array
-- of 96 bytes whose last is 0), encoding into a buffer of the declared size succeeds, and decoding
-- what the buffer then holds succeeds and gives the same metadata.
pub decode_metadata-encode_metadata :
    (m before : Metadata) (buffer : List ℕ)
    → IsStorable m
    → length buffer ≡ metadata_size
    → (encode_metadata (some m) (some buffer) metadata_size).0 ≡ esp_ok
      × decode_metadata
          (some (encode_metadata (some m) (some buffer) metadata_size).1)
          metadata_size
          (some before)
        ≡ (esp_ok, some m)
decode_metadata-encode_metadata m before buffer ok room =
    rw (encode_metadata-bytes m buffer ok room) (refl, decode_metadata-bytes m before ok)

pub length-metadata_bytes :
    (m : Metadata) → IsStorable m → length (metadata_bytes m) ≡ metadata_size
unfolding metadata_bytes metadata_size
length-metadata_bytes m ok = omega (arith, length-payload_of m ok)
