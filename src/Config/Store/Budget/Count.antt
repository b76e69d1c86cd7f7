-- ===== src/Config/Store/Budget/Count.antt =====
-- A device that boots again and again tries a candidate a bounded number of times.
use industrial_edge_monitor.Base.{
  ℕ, suc, ◌≡◌, ◌≤◌, ◌<◌, ◌^◌, inl, inr, refl, Bool, false, Option, some, arith, List, [], ◌∷◌,
  is_ok, if_split, not, if◌then◌else◌,
}
use industrial_edge_monitor.Config.Store.{Key, metadata, Nvs}
use industrial_edge_monitor.Config.Store.Operations.{
  configuration_lock, configuration_unlock, Store, Outputs, locked, storage_init,
}
use industrial_edge_monitor.Config.Store.Operations.Boot.{boot_locked, load_for_boot}
use industrial_edge_monitor.Config.Store.Laws.{IsNvs}
use industrial_edge_monitor.Config.Store.Budget.{Within, Within-same, IsIdle}
use industrial_edge_monitor.Config.Store.Budget.Boots.{IsCounted, boot_locked-IsCounted}

-- The static variables as the program is loaded.
abbrev powered_on : {W : Type 0} → W → Store W
powered_on w = record { has_mutex = false; in_progress = false; validation_revision = 0; world = w }

-- A boot: the static variables are cleared, storage is initialized and, where that succeeds, the
-- configuration is chosen. The state afterwards.
module _ {W : Type 0} (nvs : Nvs W) (parses : List ℕ → Bool) (max_attempts : ℕ) where
  unfoldable pub boot : Outputs → W → Store W
  boot o w =
      let (initialized, s) = storage_init nvs (powered_on w) in
      if is_ok initialized then (load_for_boot nvs parses max_attempts (some o) s).1 else s

  -- The number of boots in a row that start the validation of a candidate.
  abbrev pub candidate_boots : List Outputs → W → ℕ
  candidate_boots [] w = 0
  candidate_boots (o ∷ os) w =
      let s = boot o w in
      let later = candidate_boots os s.world in if s.in_progress then suc later else later

module _ {W : Type 0} {nvs : Nvs W} {blob : W → Key → Option (List ℕ)} (ok : IsNvs nvs blob)
    (parses : List ℕ → Bool) (max_attempts : ℕ) where
  initialized-IsIdle :
      (w : W) (n : ℕ)
      → Within ok max_attempts w n
      → IsIdle ok max_attempts n (storage_init nvs (powered_on w))
  unfolding storage_init
  initialized-IsIdle w n within =
      let w1 = (nvs.mutex_create w).1 in
      let created : Within ok max_attempts w1 n =
        Within-same ok max_attempts (ok.created w metadata) within in
      if_split (IsIdle ok max_attempts n) (not (nvs.mutex_create w).0) (λ e. (created, refl))
        (λ e. (Within-same ok max_attempts (ok.initialized w1 metadata) created, refl))

  lock-IsIdle :
      (s : Store W) (n : ℕ)
      → Within ok max_attempts s.world n
      → s.in_progress ≡ false
      → IsIdle ok max_attempts n (configuration_lock nvs s)
  unfolding configuration_lock
  lock-IsIdle s n within idle =
      if_split (IsIdle ok max_attempts n) (not s.has_mutex) (λ e. (within, idle))
        (λ e. (Within-same ok max_attempts (ok.taken s.world metadata) within, idle))

  unlock-IsCounted :
      {A : Type 0} (a : A) (s : Store W) (n : ℕ)
      → IsCounted ok parses max_attempts n (a, s)
      → IsCounted ok parses max_attempts n (a, configuration_unlock nvs s)
  unfolding configuration_unlock
  unlock-IsCounted a s n (inl (within, idle)) =
      inl (Within-same ok max_attempts (ok.given s.world metadata) within, idle)
  unlock-IsCounted a s n (inr (trying, (k, e, within))) =
      inr (trying, (k, e, Within-same ok max_attempts (ok.given s.world metadata) within))

  load_for_boot-IsCounted :
      (o : Outputs) (s : Store W) (n : ℕ)
      → Within ok max_attempts s.world n
      → s.in_progress ≡ false
      → max_attempts < 2 ^ 32
      → IsCounted ok parses max_attempts n (load_for_boot nvs parses max_attempts (some o) s)
  unfolding load_for_boot locked
  load_for_boot-IsCounted o s n within idle small =
      let s1 = (configuration_lock nvs s).1 in
      let taken = lock-IsIdle s n within idle in
      let body = boot_locked nvs parses max_attempts o s1 in
      if_split (IsCounted ok parses max_attempts n) (is_ok (configuration_lock nvs s).0)
        (λ e.
          unlock-IsCounted o body.1 n
            (boot_locked-IsCounted ok parses max_attempts o s1 n taken.0 small))
        (λ e. inl taken)

  boot-IsCounted :
      (o : Outputs) (w : W) (n : ℕ)
      → Within ok max_attempts w n
      → max_attempts < 2 ^ 32
      → IsCounted ok parses max_attempts n (o, boot nvs parses max_attempts o w)
  unfolding boot
  boot-IsCounted o w n within small =
      let s = storage_init nvs (powered_on w) in
      let ready = initialized-IsIdle w n within in
      if_split (λ t. IsCounted ok parses max_attempts n (o, t)) (is_ok s.0)
        (λ e. load_for_boot-IsCounted o s.1 n ready.0 ready.1 small) (λ e. inl ready)

  -- For NVS that behaves as documented, whichever of its calls fail: a device that boots again and
  -- again starts the validation of the candidate at most `n` times, if the world stores no metadata,
  -- or storable metadata with at most `n` attempts left. While a candidate is pending these are
  -- `max_attempts`, which fits 32 bits, less the attempts already counted, and otherwise none.
  pub candidate_boots_bound :
      (os : List Outputs) (w : W) (n : ℕ)
      → Within ok max_attempts w n
      → max_attempts < 2 ^ 32
      → candidate_boots nvs parses max_attempts os w ≤ n
  candidate_boots_bound [] w n within small = omega arith
  candidate_boots_bound (o ∷ os) w n within small = elim (boot-IsCounted o w n within small) [
    | inl idle ↦
        rw idle.1 (candidate_boots_bound os (boot nvs parses max_attempts o w).world n idle.0 small)
    | inr (trying, (k, e, left)) ↦
        let rest = candidate_boots_bound os (boot nvs parses max_attempts o w).world k left small in
        rw trying (omega arith)
  ]
