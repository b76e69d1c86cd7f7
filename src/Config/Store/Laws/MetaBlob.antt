-- ===== src/Config/Store/Laws/MetaBlob.antt =====
-- What the reads and the writes of metadata and configurations do to the blobs.
use industrial_edge_monitor.Base.{
  ℕ, ◌≡◌, ◌≢◌, ◌⊎◌, Bool, true, Option, none, some, arith, List, length-replicate, replicate, is_ok,
  esp_ok,
}
use industrial_edge_monitor.Config.{DeviceConfig, Metadata}
use industrial_edge_monitor.Config.Storage.{configuration_size, metadata_size}
use industrial_edge_monitor.Config.Storage.Configuration.{encode_configuration}
use industrial_edge_monitor.Config.Storage.Meta.{encode_metadata, zero_metadata}
use industrial_edge_monitor.Config.Storage.RoundTrip.MetaTrip.{
  IsStorable, metadata_bytes, encode_metadata-bytes, decode_metadata-bytes, length-metadata_bytes,
}
use industrial_edge_monitor.Config.Store.{
  Key, metadata, Nvs, read_encoded_blob, write_encoded_blob, read_metadata, write_metadata,
  read_configuration, write_configuration,
}
use industrial_edge_monitor.Config.Store.Laws.{
  IsNvs, release_same, read_encoded_blob_same, read_encoded_blob_ok, read_encoded_blob_missing,
  write_encoded_blob_other, write_encoded_blob_ok, write_encoded_blob_any,
}
use industrial_edge_monitor.Config.Store.Operations.{get_metadata_locked}

module _ {W : Type 0} {nvs : Nvs W} {blob : W → Key → Option (List ℕ)} (ok : IsNvs nvs blob) where
  -- The world stores this metadata.
  pub record Holds (w : W) (m : Metadata) : Type 0 where
    pub storable : IsStorable m
    pub stored : blob w metadata ≡ some (metadata_bytes m)

  pub read_metadata_same :
      (before : Metadata) (w : W) (k : Key) → blob (read_metadata nvs before w).2 k ≡ blob w k
  unfolding read_metadata
  read_metadata_same before w k =
      let r = read_encoded_blob nvs metadata 1024 w in
      ground (arith, read_encoded_blob_same ok metadata 1024 w k, release_same ok r.1 r.3 k)

  pub get_metadata_locked_same :
      (before : Metadata) (w : W) (k : Key) → blob (get_metadata_locked nvs before w).2 k ≡ blob w k
  unfolding get_metadata_locked
  get_metadata_locked_same before w k = ground (arith, read_metadata_same before w k)

  pub write_metadata_other :
      (m : Metadata) (w : W) (k : Key) → k ≢ metadata → blob (write_metadata nvs m w).1 k ≡ blob w k
  unfolding write_metadata
  write_metadata_other m w k ne =
      let w1 = (nvs.calloc metadata_size w).1 in
      let bytes = (encode_metadata (some m) (some (replicate metadata_size 0)) metadata_size).1 in
      let w2 = (write_encoded_blob nvs metadata bytes w1).1 in
      ground (
        arith,
        ok.allocated metadata_size w k,
        write_encoded_blob_other ok metadata bytes w1 k ne,
        ok.freed w1 k,
        ok.freed w2 k,
      )

  pub write_configuration_other :
      (key : Key) (c : DeviceConfig) (w : W) (k : Key)
      → k ≢ key
      → blob (write_configuration nvs key c w).1 k ≡ blob w k
  unfolding write_configuration
  write_configuration_other key c w k ne =
      let w1 = (nvs.calloc configuration_size w).1 in
      let bytes =
        (encode_configuration (some c) (some (replicate configuration_size 0))
          configuration_size).1 in
      let w2 = (write_encoded_blob nvs key bytes w1).1 in
      ground (
        arith,
        ok.allocated configuration_size w k,
        write_encoded_blob_other ok key bytes w1 k ne,
        ok.freed w1 k,
        ok.freed w2 k,
      )

  pub read_configuration_same :
      (parses : List ℕ → Bool) (key : Key) (before : DeviceConfig) (w : W) (k : Key)
      → blob (read_configuration nvs parses key before w).2 k ≡ blob w k
  unfolding read_configuration
  read_configuration_same parses key before w k =
      let r = read_encoded_blob nvs key 8192 w in
      ground (arith, read_encoded_blob_same ok key 8192 w k, release_same ok r.1 r.3 k)

  encoded_metadata :
      (m : Metadata)
      → IsStorable m
      → encode_metadata (some m) (some (replicate metadata_size 0)) metadata_size
        ≡ (esp_ok, metadata_bytes m)
  encoded_metadata m fits =
      encode_metadata-bytes m (replicate metadata_size 0) fits
        (length-replicate {A = ℕ} metadata_size 0)

  -- After a write that succeeds the world stores the metadata.
  pub write_metadata_ok :
      (m : Metadata) (w : W)
      → IsStorable m
      → is_ok (write_metadata nvs m w).0 ≡ true
      → Holds (write_metadata nvs m w).1 m
  unfolding write_metadata
  write_metadata_ok m w fits = rw (encoded_metadata m fits) (λ good.
      let w1 = (nvs.calloc metadata_size w).1 in
      let w2 = (write_encoded_blob nvs metadata (metadata_bytes m) w1).1 in
      record {
        storable = fits;
        stored =
            ground (
              arith,
              write_encoded_blob_ok ok metadata (metadata_bytes m) w1,
              ok.freed w2 metadata,
            );
      })

  -- After any write it stores the metadata or what it stored before.
  pub write_metadata_any :
      (m : Metadata) (w : W)
      → IsStorable m
      → (blob (write_metadata nvs m w).1 metadata ≡ blob w metadata)
        ⊎ (blob (write_metadata nvs m w).1 metadata ≡ some (metadata_bytes m))
  unfolding write_metadata
  write_metadata_any m w fits = rw (encoded_metadata m fits) (
      let w1 = (nvs.calloc metadata_size w).1 in
      let w2 = (write_encoded_blob nvs metadata (metadata_bytes m) w1).1 in
      ground (
        arith,
        ok.allocated metadata_size w metadata,
        write_encoded_blob_any ok metadata (metadata_bytes m) w1,
        ok.freed w2 metadata,
      ))

  -- A read of stored metadata that succeeds yields it.
  pub get_metadata_locked-Holds :
      (before m : Metadata) (w : W)
      → Holds w m
      → is_ok (get_metadata_locked nvs before w).0 ≡ true
      → (get_metadata_locked nvs before w).1 ≡ m
  unfolding get_metadata_locked read_metadata
  get_metadata_locked-Holds before m w h good =
      let r = read_encoded_blob nvs metadata 1024 w in
      let fetched = read_encoded_blob_ok ok metadata 1024 w in
      ground (
        arith,
        h.stored,
        fetched,
        decode_metadata-bytes m before h.storable,
        length-metadata_bytes m h.storable,
        read_encoded_blob_missing ok metadata 1024 w,
      )

  -- Where nothing is stored, a read that succeeds yields zeros.
  pub get_metadata_locked-none :
      (before : Metadata) (w : W)
      → blob w metadata ≡ none
      → is_ok (get_metadata_locked nvs before w).0 ≡ true
      → (get_metadata_locked nvs before w).1 ≡ zero_metadata
  unfolding get_metadata_locked read_metadata
  get_metadata_locked-none before w h good = ground (arith, read_encoded_blob_ok ok metadata 1024 w)
