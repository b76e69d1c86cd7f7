-- ===== src/Config/Store/Budget.antt =====
-- How many more boots into the candidate the stored metadata allows.
pub mod Boots
pub mod Count
use industrial_edge_monitor.Base.{
  ℕ, zero, suc, ◌+◌, ◌-◌, ◌≡◌, ◌≢◌, ◌≤◌, ◌<◌, ◌^◌, ◌⊎◌, inl, inr, ◌∙◌, ap, sym, subst, refl, Bool,
  true, false, Option, none, some, arith, List, [], ◌∷◌, ◌++◌, length, length-append, length-take,
  length-drop, length-replicate, take, drop, get_or, replicate, is_ok, Bool-cases, if_split,
  not-false, EspErr, not, ◌||◌, if◌then◌else◌, ◌==◌, min, c_str,
}
use industrial_edge_monitor.Config.{DeviceConfig, Metadata, state_pending, state_rollback}
use industrial_edge_monitor.Config.Storage.Meta.{zero_metadata}
use industrial_edge_monitor.Config.Storage.RoundTrip.MetaTrip.{IsStorable, metadata_bytes}
use industrial_edge_monitor.Config.Store.{
  Key, active, candidate, metadata, Nvs, write_metadata, read_configuration, erase_key,
}
use industrial_edge_monitor.Config.Store.Operations.{
  Store, at_world, settle, store_text, reason_text, rolled_back_metadata, get_metadata_locked,
  rollback_candidate_locked,
}
use industrial_edge_monitor.Config.Store.Laws.{IsNvs, erase_key_other}
use industrial_edge_monitor.Config.Store.Laws.MetaBlob.{
  Holds, get_metadata_locked_same, get_metadata_locked-Holds, get_metadata_locked-none,
  write_metadata_ok, write_metadata_any, read_configuration_same,
}

get_or-append :
    (xs ys : List ℕ) (i k d : ℕ) → k ≡ length xs + i → get_or (xs ++ ys) k d ≡ get_or ys i d
get_or-append [] ys i k d e = let same : k ≡ i = omega arith in rw same refl
get_or-append (x ∷ xs) ys i zero d e = absurd (omega arith)
get_or-append (x ∷ xs) ys i (suc k) d e = get_or-append xs ys i k d (omega arith)

get_or-drop : (n i k d : ℕ) (xs : List ℕ) → k ≡ n + i → get_or (drop n xs) i d ≡ get_or xs k d
get_or-drop zero i k d xs e = let same : k ≡ i = omega arith in rw same refl
get_or-drop (suc n) i k d [] e = refl
get_or-drop (suc n) i zero d (x ∷ xs) e = absurd (omega arith)
get_or-drop (suc n) i (suc k) d (x ∷ xs) e = get_or-drop n i k d xs (omega arith)

-- `snprintf` into an array keeps its length, and a NUL in its last place.
length-store_text :
    (text array : List ℕ) → length array ≡ 96 → length (store_text 96 text array) ≡ 96
length-store_text text array l =
    let kept = take 95 text in
    omega (
      arith,
      length-append kept (0 ∷ drop (length kept + 1) array),
      length-drop (length kept + 1) array,
      length-take 95 text,
    )

store_text_terminated :
    (text array : List ℕ) → get_or array 95 0 ≡ 0 → get_or (store_text 96 text array) 95 0 ≡ 0
store_text_terminated text array ended =
    let kept = take 95 text in
    let short : length kept ≤ 95 = omega (arith, length-take 95 text) in
    get_or-append kept (0 ∷ drop (length kept + 1) array) (95 - length kept) 95 0 (omega arith)
    ∙ behind (length kept) (95 - length kept) (omega arith)
  where
    behind : (n i : ℕ) → n + i ≡ 95 → get_or (0 ∷ drop (n + 1) array) i 0 ≡ 0
    behind n zero e = refl
    behind n (suc i) e = get_or-drop (n + 1) i 95 0 array (omega arith) ∙ ended

pub rolled_back-IsStorable :
    (reason : Option (List ℕ)) (m : Metadata)
    → IsStorable m
    → IsStorable (rolled_back_metadata reason m)
rolled_back-IsStorable reason m ok = record {
  state = omega arith;
  candidate_revision = omega arith;
  boot_attempts = omega arith;
  boot_count = ok.boot_count;
  reason_length = length-store_text (reason_text reason) m.last_rollback_reason ok.reason_length;
  reason_terminated =
      store_text_terminated (reason_text reason) m.last_rollback_reason ok.reason_terminated;
}

pub zero-IsStorable : IsStorable zero_metadata
unfolding zero_metadata
zero-IsStorable = record {
  state = omega arith;
  candidate_revision = omega arith;
  boot_attempts = omega arith;
  boot_count = omega arith;
  reason_length = refl;
  reason_terminated = refl;
}

-- What is left of the attempts: none unless a candidate is pending.
abbrev pub attempts_left : ℕ → Metadata → ℕ
attempts_left max_attempts m =
    if m.state == state_pending then max_attempts - m.boot_attempts else 0

module _ {W : Type 0} {nvs : Nvs W} {blob : W → Key → Option (List ℕ)} (ok : IsNvs nvs blob)
    (max_attempts : ℕ) where
  -- The world stores no metadata, or metadata with at most `n` attempts left.
  pub data Within (w : W) (n : ℕ) : Type 0 where
    no_metadata : blob w metadata ≡ none → Within w n
    some_metadata : (m : Metadata) → Holds ok w m → attempts_left max_attempts m ≤ n → Within w n

  -- What leaves the metadata alone leaves the attempts.
  pub Within-same :
      {w w' : W} {n : ℕ} → blob w' metadata ≡ blob w metadata → Within w n → Within w' n
  Within-same same (no_metadata e) = no_metadata (same ∙ e)
  Within-same same (some_metadata m h few) =
      some_metadata m (record { storable = h.storable; stored = same ∙ h.stored }) few

  -- Any write of metadata with few attempts left keeps the bound.
  pub Within-write :
      (m : Metadata) (w : W) (n : ℕ)
      → IsStorable m
      → attempts_left max_attempts m ≤ n
      → Within w n
      → Within (write_metadata nvs m w).1 n
  Within-write m w n fits few within = elim (write_metadata_any ok m w fits) [
    | inl same ↦ Within-same same within
    | inr new ↦ some_metadata m (record { storable = fits; stored = new }) few
  ]

  -- A read of the metadata that succeeds yields storable metadata within the bound.
  pub Within-read :
      (before : Metadata) (w : W) (n : ℕ)
      → Within w n
      → is_ok (get_metadata_locked nvs before w).0 ≡ true
      → IsStorable (get_metadata_locked nvs before w).1
        × (attempts_left max_attempts (get_metadata_locked nvs before w).1 ≤ n)
  Within-read before w n (no_metadata e) good =
      rw (get_metadata_locked-none ok before w e good)
        (unfold zero_metadata in (zero-IsStorable, omega arith))
  Within-read before w n (some_metadata m h few) good =
      rw (get_metadata_locked-Holds ok before m w h good) (h.storable, few)

  -- No candidate is being validated, and at most `n` attempts are left.
  abbrev pub IsIdle : {A : Type 0} → ℕ → A × Store W → Type 0
  IsIdle n (a, s) = Within s.world n × (s.in_progress ≡ false)

  pub settle-IsIdle :
      {A : Type 0} (a : A) (n : ℕ) (result : EspErr) (s : Store W)
      → IsIdle n (a, s)
      → IsIdle n (a, settle result s)
  settle-IsIdle a n result s h =
      if_split (λ t. IsIdle n (a, t)) (is_ok result) (λ e. (h.0, refl)) (λ e. h)

  -- A rollback starts no validation and leaves no more attempts than there were.
  pub rollback-IsIdle :
      (reason : Option (List ℕ)) (s : Store W) (n : ℕ)
      → Within s.world n
      → s.in_progress ≡ false
      → IsIdle n (rollback_candidate_locked nvs reason s)
  unfolding rollback_candidate_locked
  rollback-IsIdle reason s n within idle =
      let got = get_metadata_locked nvs zero_metadata s.world in
      let new = rolled_back_metadata reason got.1 in
      let w2 = (write_metadata nvs new got.2).1 in
      let last = erase_key nvs candidate w2 in
      let read : Within got.2 n =
        Within-same (get_metadata_locked_same ok zero_metadata s.world metadata) within in
      if_split (IsIdle n) (not (is_ok got.0)) (λ failed. (read, idle))
        (λ good.
          let found = Within-read zero_metadata s.world n within (not-false _ good) in
          let written : Within w2 n =
            Within-write new got.2 n (rolled_back-IsStorable reason got.1 found.0) (omega arith)
              read in
          let erased : Within last.1 n =
            Within-same (erase_key_other ok candidate w2 metadata (λ e. cc)) written in
          if_split (IsIdle n) (not (is_ok (write_metadata nvs new got.2).0))
            (λ failed. (written, idle))
            (λ done. settle-IsIdle last.0 n last.0 (at_world s last.1) (erased, idle)))
