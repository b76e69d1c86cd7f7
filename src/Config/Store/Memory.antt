-- ===== src/Config/Store/Memory.antt =====
-- An NVS partition in memory, which behaves as documented: one blob for each key, every call
-- succeeds, and the mutex is free.
use industrial_edge_monitor.Base.{
  ℕ, [], ◌≡◌, ◌≢◌, refl, inr, true, Option, none, some, List, length, EspErr, esp_ok, nvs_not_found,
  is_ok,
}
use industrial_edge_monitor.Config.Store.{Key, active, candidate, metadata, Nvs, is_not_found}
use industrial_edge_monitor.Config.Store.Laws.{IsNvs}

pub record Partition : Type 0 where
  pub active_blob : Option (List ℕ)
  pub candidate_blob : Option (List ℕ)
  pub metadata_blob : Option (List ℕ)

abbrev pub blob_at : Partition → Key → Option (List ℕ)
blob_at p active = p.active_blob
blob_at p candidate = p.candidate_blob
blob_at p metadata = p.metadata_blob

abbrev put : Partition → Key → Option (List ℕ) → Partition
put p active blob = record p { active_blob = blob }
put p candidate blob = record p { candidate_blob = blob }
put p metadata blob = record p { metadata_blob = blob }

abbrev pub empty_partition : Partition
empty_partition = record { active_blob = none; candidate_blob = none; metadata_blob = none }

abbrev found_size : Option (List ℕ) → EspErr × ℕ
found_size none = (nvs_not_found, 0)
found_size (some bytes) = (esp_ok, length bytes)

abbrev found_bytes : Option (List ℕ) → ℕ → EspErr × List ℕ × ℕ
found_bytes none n = (nvs_not_found, [], n)
found_bytes (some bytes) n = (esp_ok, bytes, length bytes)

abbrev pub memory_nvs : Nvs Partition
memory_nvs = record {
  mutex_create = λ p. (true, p);
  mutex_take = λ p. (true, p);
  mutex_give = λ p. p;
  flash_init = λ p. (esp_ok, p);
  flash_erase = λ p. (esp_ok, empty_partition);
  nvs_open = λ mode p. (esp_ok, 1, p);
  get_size = λ h key p. let (result, size) = found_size (blob_at p key) in (result, size, p);
  get_blob = λ h key n p.
      let (result, bytes, size) = found_bytes (blob_at p key) n in (result, bytes, size, p);
  set_blob = λ h key bytes p. (esp_ok, put p key (some bytes));
  erase = λ h key p. (esp_ok, put p key none);
  erase_all = λ h p. (esp_ok, empty_partition);
  commit = λ h p. (esp_ok, p);
  close = λ h p. p;
  calloc = λ n p. (true, p);
  free = λ p. p;
}

put_other :
    (p : Partition) (key k : Key) (b : Option (List ℕ))
    → k ≢ key
    → blob_at (put p key b) k ≡ blob_at p k
put_other p active active b ne = absurd (ne refl)
put_other p active candidate b ne = refl
put_other p active metadata b ne = refl
put_other p candidate active b ne = refl
put_other p candidate candidate b ne = absurd (ne refl)
put_other p candidate metadata b ne = refl
put_other p metadata active b ne = refl
put_other p metadata candidate b ne = refl
put_other p metadata metadata b ne = absurd (ne refl)

put_self : (p : Partition) (key : Key) (b : Option (List ℕ)) → blob_at (put p key b) key ≡ b
put_self p active b = refl
put_self p candidate b = refl
put_self p metadata b = refl

size_none : (b : Option (List ℕ)) → is_not_found (found_size b).0 ≡ true → b ≡ none
size_none none h = refl
size_none (some bytes) h = cc

bytes_none : (b : Option (List ℕ)) (n : ℕ) → is_not_found (found_bytes b n).0 ≡ true → b ≡ none
bytes_none none n h = refl
bytes_none (some bytes) n h = cc

bytes_some :
    (b : Option (List ℕ)) (n : ℕ)
    → is_ok (found_bytes b n).0 ≡ true
    → (b ≡ some (found_bytes b n).1) × ((found_bytes b n).2 ≡ length (found_bytes b n).1)
bytes_some none n h = cc
bytes_some (some bytes) n h = (refl, refl)

pub memory-IsNvs : IsNvs memory_nvs blob_at
memory-IsNvs = record {
  created = λ p k. refl;
  taken = λ p k. refl;
  given = λ p k. refl;
  initialized = λ p k. refl;
  opened = λ mode p k. refl;
  sized = λ h key p k. refl;
  got = λ h key n p k. refl;
  committed = λ h p k. refl;
  closed = λ h p k. refl;
  allocated = λ n p k. refl;
  freed = λ p k. refl;
  open_missing = λ mode p k h. cc;
  size_missing = λ h key p e. size_none (blob_at p key) e;
  get_missing = λ h key n p e. bytes_none (blob_at p key) n e;
  get_bytes = λ h key n p e. bytes_some (blob_at p key) n e;
  set_other = λ h key bytes p k ne. put_other p key k (some bytes) ne;
  set_ok = λ h key bytes p e. put_self p key (some bytes);
  set_failed = λ h key bytes p. inr (put_self p key (some bytes));
  erase_other = λ h key p k ne. put_other p key k none ne;
}
