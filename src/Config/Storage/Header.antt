-- ===== src/Config/Storage/Header.antt =====
-- The header in front of a payload.
use industrial_edge_monitor.Base.{
  ℕ, ◌+◌, ◌^◌, ◌<◌, ◌≡◌, refl, some, arith, List, [], ◌∷◌, ◌++◌, length, esp_ok, bytes_eq_iff,
}
use industrial_edge_monitor.Config.Storage.{
  write_header, bytes_u16, bytes_u32, decode_u16, decode_u32, peek_header, StorageHeader,
  format_version, header_size,
}
use industrial_edge_monitor.Config.Storage.Writes.{
  ◌then_bytes◌, Writes, write_bytes-Writes, write_u16-Writes, write_u32-Writes, ◌wrote_then◌,
}
use industrial_edge_monitor.Config.Storage.Reads.{decode_u32-bytes}

abbrev pub header_bytes : List ℕ → ℕ → List ℕ
header_bytes magic payload_size =
    magic
    then_bytes bytes_u16 format_version
    then_bytes bytes_u16 header_size
    then_bytes bytes_u32 payload_size

pub write_header-Writes :
    (magic : List ℕ) (payload_size : ℕ)
    → Writes (write_header magic payload_size) (header_bytes magic payload_size)
unfolding write_header
write_header-Writes magic payload_size =
    write_bytes-Writes magic
    wrote_then write_u16-Writes format_version
    wrote_then write_u16-Writes header_size
    wrote_then write_u32-Writes payload_size

-- What is found in a header that was written.
abbrev pub header_of : ℕ → StorageHeader
header_of payload_size = record {
  format_version_field = format_version;
  header_size_field = header_size;
  payload_size_field = payload_size;
}

decode_u32-tail :
    (a b c d e f g h : ℕ) (v : ℕ) (rest : List ℕ)
    → decode_u32 (a ∷ b ∷ c ∷ d ∷ e ∷ f ∷ g ∷ h ∷ (bytes_u32 v ++ rest)) 8
      ≡ decode_u32 (bytes_u32 v) 0
unfolding decode_u32
decode_u32-tail a b c d e f g h v rest = refl

pub peek_header-bytes :
    (a b c d : ℕ) (payload : List ℕ) (size payload_size : ℕ) (before : StorageHeader)
    → length payload ≡ payload_size
    → payload_size < 2 ^ 32
    → size ≡ header_size + payload_size
    → peek_header
        (some (header_bytes (a ∷ b ∷ c ∷ d ∷ []) payload_size ++ payload))
        size
        (a ∷ b ∷ c ∷ d ∷ [])
        before
      ≡ (esp_ok, header_of payload_size)
unfolding peek_header decode_u16
peek_header-bytes a b c d payload size payload_size before len fits total = ground (
  arith,
  decode_u32-tail a b c d 1 0 12 0 payload_size payload,
  decode_u32-bytes payload_size fits,
  (bytes_eq_iff (a ∷ b ∷ c ∷ d ∷ []) (a ∷ b ∷ c ∷ d ∷ [])).1 refl,
)
