-- ===== src/Config/Store/Laws.antt =====
-- What the store relies on: the documented behaviour of NVS, seen as the blob under each key.
pub mod MetaBlob
use industrial_edge_monitor.Base.{
  ℕ, ◌≡◌, ◌≢◌, ◌⊎◌, Bool, true, false, Option, none, some, arith, List, length, is_ok, ◌∙◌, refl,
  ◌||◌, not, if◌then◌else◌, ltb,
}
use industrial_edge_monitor.Config.Store.{
  Key, OpenMode, read_only, read_write, Nvs, is_not_found, read_encoded_blob, write_encoded_blob,
  erase_key, release,
}
use industrial_edge_monitor.Config.Storage.Configuration.{bytes_of}

-- A read yields what was stored. A write or an erasure touches its own key only; a write that
-- reports ESP_OK has stored its bytes, and one that fails has stored them or left the old ones.
-- Nothing else touches a blob. `blob` gives the bytes under a key, `none` if there are none.
pub record IsNvs {W : Type 0} (nvs : Nvs W) (blob : W → Key → Option (List ℕ)) : Type 0 where
  pub created : (w : W) (k : Key) → blob (nvs.mutex_create w).1 k ≡ blob w k
  pub taken : (w : W) (k : Key) → blob (nvs.mutex_take w).1 k ≡ blob w k
  pub given : (w : W) (k : Key) → blob (nvs.mutex_give w) k ≡ blob w k
  pub initialized : (w : W) (k : Key) → blob (nvs.flash_init w).1 k ≡ blob w k
  pub opened : (mode : OpenMode) (w : W) (k : Key) → blob (nvs.nvs_open mode w).2 k ≡ blob w k
  pub sized : (h : ℕ) (key : Key) (w : W) (k : Key) → blob (nvs.get_size h key w).2 k ≡ blob w k
  pub got :
      (h : ℕ) (key : Key) (n : ℕ) (w : W) (k : Key) → blob (nvs.get_blob h key n w).3 k ≡ blob w k
  pub committed : (h : ℕ) (w : W) (k : Key) → blob (nvs.commit h w).1 k ≡ blob w k
  pub closed : (h : ℕ) (w : W) (k : Key) → blob (nvs.close h w) k ≡ blob w k
  pub allocated : (n : ℕ) (w : W) (k : Key) → blob (nvs.calloc n w).1 k ≡ blob w k
  pub freed : (w : W) (k : Key) → blob (nvs.free w) k ≡ blob w k
  pub open_missing :
      (mode : OpenMode) (w : W) (k : Key)
      → is_not_found (nvs.nvs_open mode w).0 ≡ true
      → blob w k ≡ none
  pub size_missing :
      (h : ℕ) (key : Key) (w : W) → is_not_found (nvs.get_size h key w).0 ≡ true → blob w key ≡ none
  pub get_missing :
      (h : ℕ) (key : Key) (n : ℕ) (w : W)
      → is_not_found (nvs.get_blob h key n w).0 ≡ true
      → blob w key ≡ none
  pub get_bytes :
      (h : ℕ) (key : Key) (n : ℕ) (w : W)
      → is_ok (nvs.get_blob h key n w).0 ≡ true
      → (blob w key ≡ some (nvs.get_blob h key n w).1)
        × ((nvs.get_blob h key n w).2 ≡ length (nvs.get_blob h key n w).1)
  pub set_other :
      (h : ℕ) (key : Key) (bytes : List ℕ) (w : W) (k : Key)
      → k ≢ key
      → blob (nvs.set_blob h key bytes w).1 k ≡ blob w k
  pub set_ok :
      (h : ℕ) (key : Key) (bytes : List ℕ) (w : W)
      → is_ok (nvs.set_blob h key bytes w).0 ≡ true
      → blob (nvs.set_blob h key bytes w).1 key ≡ some bytes
  pub set_failed :
      (h : ℕ) (key : Key) (bytes : List ℕ) (w : W)
      → (blob (nvs.set_blob h key bytes w).1 key ≡ blob w key)
        ⊎ (blob (nvs.set_blob h key bytes w).1 key ≡ some bytes)
  pub erase_other :
      (h : ℕ) (key : Key) (w : W) (k : Key) → k ≢ key → blob (nvs.erase h key w).1 k ≡ blob w k

module _ {W : Type 0} {nvs : Nvs W} {blob : W → Key → Option (List ℕ)} (ok : IsNvs nvs blob) where
  pub release_same : (o : Option (List ℕ)) (w : W) (k : Key) → blob (release nvs o w) k ≡ blob w k
  release_same none w k = refl
  release_same (some bytes) w k = ok.freed w k

  -- A read changes no blob.
  pub read_encoded_blob_same :
      (key : Key) (maximum : ℕ) (w : W) (k : Key)
      → blob (read_encoded_blob nvs key maximum w).3 k ≡ blob w k
  unfolding read_encoded_blob
  read_encoded_blob_same key maximum w k =
      let w1 = (nvs.nvs_open read_only w).2 in
      let h = (nvs.nvs_open read_only w).1 in
      let w2 = (nvs.get_size h key w1).2 in
      let size = (nvs.get_size h key w1).1 in
      let w3 = (nvs.calloc size w2).1 in
      let w4 = (nvs.get_blob h key size w3).3 in
      ground (
        arith,
        ok.opened read_only w k,
        ok.sized h key w1 k,
        ok.allocated size w2 k,
        ok.got h key size w3 k,
        ok.closed h w2 k,
        ok.closed h w3 k,
        ok.closed h w4 k,
        ok.freed (nvs.close h w4) k,
      )

  -- A read that succeeds yields the blob and its size.
  pub read_encoded_blob_ok :
      (key : Key) (maximum : ℕ) (w : W)
      → is_ok (read_encoded_blob nvs key maximum w).0 ≡ true
      → let (result, encoded, size, w') = read_encoded_blob nvs key maximum w in
        (encoded ≡ some (bytes_of encoded))
        × (blob w key ≡ some (bytes_of encoded))
        × (size ≡ length (bytes_of encoded))
  unfolding read_encoded_blob
  read_encoded_blob_ok key maximum w h =
      let w1 = (nvs.nvs_open read_only w).2 in
      let handle = (nvs.nvs_open read_only w).1 in
      let w2 = (nvs.get_size handle key w1).2 in
      let size = (nvs.get_size handle key w1).1 in
      let w3 = (nvs.calloc size w2).1 in
      let fetched = ok.get_bytes handle key size w3 in
      let same : blob w3 key ≡ blob w key =
        ok.allocated size w2 key ∙ ok.sized handle key w1 key ∙ ok.opened read_only w key in
      ground (arith, fetched, same)

  -- A read that finds nothing says so because there is nothing.
  pub read_encoded_blob_missing :
      (key : Key) (maximum : ℕ) (w : W)
      → is_not_found (read_encoded_blob nvs key maximum w).0 ≡ true
      → blob w key ≡ none
  unfolding read_encoded_blob
  read_encoded_blob_missing key maximum w h =
      let w1 = (nvs.nvs_open read_only w).2 in
      let handle = (nvs.nvs_open read_only w).1 in
      let w2 = (nvs.get_size handle key w1).2 in
      let size = (nvs.get_size handle key w1).1 in
      let w3 = (nvs.calloc size w2).1 in
      let same : blob w1 key ≡ blob w key = ok.opened read_only w key in
      let same3 : blob w3 key ≡ blob w key =
        ok.allocated size w2 key ∙ ok.sized handle key w1 key ∙ same in
      ground (
        arith,
        ok.open_missing read_only w key,
        ok.size_missing handle key w1,
        ok.get_missing handle key size w3,
        same,
        same3,
      )

  pub write_encoded_blob_other :
      (key : Key) (bytes : List ℕ) (w : W) (k : Key)
      → k ≢ key
      → blob (write_encoded_blob nvs key bytes w).1 k ≡ blob w k
  unfolding write_encoded_blob
  write_encoded_blob_other key bytes w k ne =
      let w1 = (nvs.nvs_open read_write w).2 in
      let h = (nvs.nvs_open read_write w).1 in
      let w2 = (nvs.set_blob h key bytes w1).1 in
      let w3 = (nvs.commit h w2).1 in
      ground (
        arith,
        ok.opened read_write w k,
        ok.set_other h key bytes w1 k ne,
        ok.committed h w2 k,
        ok.closed h w2 k,
        ok.closed h w3 k,
      )

  -- A write that succeeds has stored its bytes.
  pub write_encoded_blob_ok :
      (key : Key) (bytes : List ℕ) (w : W)
      → is_ok (write_encoded_blob nvs key bytes w).0 ≡ true
      → blob (write_encoded_blob nvs key bytes w).1 key ≡ some bytes
  unfolding write_encoded_blob
  write_encoded_blob_ok key bytes w good =
      let w1 = (nvs.nvs_open read_write w).2 in
      let h = (nvs.nvs_open read_write w).1 in
      let w2 = (nvs.set_blob h key bytes w1).1 in
      let w3 = (nvs.commit h w2).1 in
      ground (arith, ok.set_ok h key bytes w1, ok.committed h w2 key, ok.closed h w3 key)

  -- Any write leaves the old bytes or its own.
  pub write_encoded_blob_any :
      (key : Key) (bytes : List ℕ) (w : W)
      → (blob (write_encoded_blob nvs key bytes w).1 key ≡ blob w key)
        ⊎ (blob (write_encoded_blob nvs key bytes w).1 key ≡ some bytes)
  unfolding write_encoded_blob
  write_encoded_blob_any key bytes w =
      let w1 = (nvs.nvs_open read_write w).2 in
      let h = (nvs.nvs_open read_write w).1 in
      let w2 = (nvs.set_blob h key bytes w1).1 in
      let w3 = (nvs.commit h w2).1 in
      ground (
        arith,
        ok.opened read_write w key,
        ok.set_failed h key bytes w1,
        ok.committed h w2 key,
        ok.closed h w2 key,
        ok.closed h w3 key,
      )

  pub erase_key_other :
      (key : Key) (w : W) (k : Key) → k ≢ key → blob (erase_key nvs key w).1 k ≡ blob w k
  unfolding erase_key
  erase_key_other key w k ne =
      let w1 = (nvs.nvs_open read_write w).2 in
      let h = (nvs.nvs_open read_write w).1 in
      let w2 = (nvs.erase h key w1).1 in
      let w3 = (nvs.commit h w2).1 in
      ground (
        arith,
        ok.opened read_write w k,
        ok.erase_other h key w1 k ne,
        ok.committed h w2 k,
        ok.closed h w2 k,
        ok.closed h w3 k,
      )
