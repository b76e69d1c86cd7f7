-- ===== src/Config/Store/Activation.antt =====
-- What a successful activation means.
use industrial_edge_monitor.Base.{
  ℕ, ◌≡◌, ◌∙◌, sym, refl, Bool, true, false, Option, some, arith, List, replicate, is_ok, if_split,
  not-false, EspErr, not, ◌||◌, ◌==◌, ==_iff,
}
use industrial_edge_monitor.Config.{DeviceConfig, Metadata, state_pending}
use industrial_edge_monitor.Config.Validate.{validate}
use industrial_edge_monitor.Config.Storage.{configuration_size}
use industrial_edge_monitor.Config.Storage.Configuration.{encode_configuration, zero_configuration}
use industrial_edge_monitor.Config.Storage.Meta.{zero_metadata}
use industrial_edge_monitor.Config.Store.{
  Key, active, candidate, Nvs, write_encoded_blob, write_metadata, read_configuration,
  write_configuration, erase_key,
}
use industrial_edge_monitor.Config.Store.Operations.{
  Store, active_metadata, configurations_match, get_metadata_locked, locked, configuration_lock,
  configuration_unlock,
}
use industrial_edge_monitor.Config.Store.Operations.Boot.{activate_locked, activate_candidate}
use industrial_edge_monitor.Config.Store.Laws.{IsNvs, write_encoded_blob_ok, erase_key_other}
use industrial_edge_monitor.Config.Store.Laws.MetaBlob.{write_metadata_other}

module _ {W : Type 0} {nvs : Nvs W} {blob : W → Key → Option (List ℕ)} (ok : IsNvs nvs blob)
    (parses : List ℕ → Bool) (struct_size : ℕ) where
  -- The encoding of a configuration, in a buffer of zeros.
  abbrev pub encoding : DeviceConfig → List ℕ
  encoding c =
      (encode_configuration (some c) (some (replicate configuration_size 0)) configuration_size).1

  write_configuration_ok :
      (key : Key) (c : DeviceConfig) (w : W)
      → is_ok (write_configuration nvs key c w).0 ≡ true
      → blob (write_configuration nvs key c w).1 key ≡ some (encoding c)
  unfolding write_configuration
  write_configuration_ok key c w good =
      let w1 = (nvs.calloc configuration_size w).1 in
      let w2 = (write_encoded_blob nvs key (encoding c) w1).1 in
      ground (arith, write_encoded_blob_ok ok key (encoding c) w1, ok.freed w2 key)

  -- What holds if an activation of `verified` from `s` returns this result and state.
  pub record IsActivated (verified : DeviceConfig) (s : Store W) (s' : Store W) : Type 0 where
    pub was_in_progress : s.in_progress ≡ true
    pub same_revision : s.validation_revision ≡ verified.revision
    pub chosen : DeviceConfig
    pub chosen_valid : is_ok (validate parses (some chosen) 0).0 ≡ true
    pub chosen_matches : configurations_match chosen verified ≡ true
    pub stored : blob s'.world active ≡ some (encoding chosen)
    pub finished : (s'.in_progress ≡ false) × (s'.validation_revision ≡ 0)

  abbrev Activates : DeviceConfig → Store W → EspErr × Store W → Type 0
  Activates verified s (result, s') = is_ok result ≡ true → IsActivated verified s s'

  refused :
      (verified : DeviceConfig) (s s' : Store W) (result : EspErr)
      → not (is_ok result) ≡ true
      → Activates verified s (result, s')
  refused verified s s' result bad good = cc

  both_true : (a b : Bool) → (not a || not b) ≡ false → (a ≡ true) × (b ≡ true)
  both_true true b h = (refl, not-false b h)
  both_true false b h = cc

  last_true : (a b c : Bool) → (not a || not b || not c) ≡ false → c ≡ true
  last_true true true c h = not-false c h
  last_true true false c h = cc
  last_true false b c h = cc

  -- The last three writes leave the active configuration that was written before them.
  copied_lem :
      (c : DeviceConfig) (m : Metadata) (w : W)
      → is_ok (write_configuration nvs active c w).0 ≡ true
      → let copied = write_configuration nvs active c w in
        let written = write_metadata nvs m (nvs.free copied.1) in
        blob (erase_key nvs candidate written.1).1 active ≡ some (encoding c)
  copied_lem c m w good =
      let copied = write_configuration nvs active c w in
      erase_key_other ok candidate (write_metadata nvs m (nvs.free copied.1)).1 active (λ e. cc)
      ∙ write_metadata_other ok m (nvs.free copied.1) active (λ e. cc)
      ∙ ok.freed copied.1 active
      ∙ write_configuration_ok active c w good

  activate_locked_ok :
      (verified : DeviceConfig) (s : Store W)
      → Activates verified s (activate_locked nvs parses struct_size verified s)
  unfolding activate_locked
  activate_locked_ok verified s =
      let w1 = (nvs.calloc struct_size s.world).1 in
      let read = read_configuration nvs parses candidate zero_configuration w1 in
      let c = read.1 in
      let got = get_metadata_locked nvs zero_metadata read.2 in
      let copied = write_configuration nvs active c got.2 in
      let m = active_metadata got.1 in
      let written = write_metadata nvs m (nvs.free copied.1) in
      let erased = erase_key nvs candidate written.1 in
      let P = Activates verified s in
      if_split P (not s.in_progress || not (s.validation_revision == verified.revision))
        (λ e good. cc)
        (λ checked.
          if_split P (not (nvs.calloc struct_size s.world).0) (λ e good. cc)
            (λ e.
              if_split P (not (is_ok read.0)) (λ e. refused verified s _ read.0 e)
                (λ e.
                  if_split P (not (is_ok (validate parses (some c) 0).0))
                    (λ e. refused verified s _ _ e)
                    (λ valid.
                      if_split P (not (is_ok got.0)) (λ e. refused verified s _ got.0 e)
                        (λ e.
                          if_split P
                            (not (got.1.state == state_pending)
                              || not (got.1.candidate_revision == verified.revision)
                              || not (configurations_match c verified))
                            (λ e good. cc)
                            (λ matched.
                              if_split P (not (is_ok copied.0))
                                (λ e. refused verified s _ copied.0 e)
                                (λ stored.
                                  if_split P (not (is_ok written.0))
                                    (λ e. refused verified s _ written.0 e)
                                    (λ e good.
                                      let started =
                                        both_true s.in_progress
                                          (s.validation_revision == verified.revision) checked in
                                      rw good (record {
                                        was_in_progress = started.0;
                                        same_revision = (==_iff _ _).0 started.1;
                                        chosen = c;
                                        chosen_valid = not-false _ valid;
                                        chosen_matches =
                                            last_true _ _ (configurations_match c verified) matched;
                                        stored = copied_lem c m got.2 (not-false _ stored);
                                        finished = (refl, refl);
                                      })))))))))

  lock_same :
      (s : Store W)
      → ((configuration_lock nvs s).1.in_progress ≡ s.in_progress)
        × ((configuration_lock nvs s).1.validation_revision ≡ s.validation_revision)
  unfolding configuration_lock
  lock_same s =
      if_split
        (λ (t : EspErr × Store W).
          (t.1.in_progress ≡ s.in_progress) × (t.1.validation_revision ≡ s.validation_revision))
        (not s.has_mutex) (λ e. (refl, refl)) (λ e. (refl, refl))

  in_lock :
      (verified : DeviceConfig) (s s' : Store W)
      → IsActivated verified (configuration_lock nvs s).1 s'
      → IsActivated verified s s'
  in_lock verified s s' a = record {
    was_in_progress = sym (lock_same s).0 ∙ a.was_in_progress;
    same_revision = sym (lock_same s).1 ∙ a.same_revision;
    chosen = a.chosen;
    chosen_valid = a.chosen_valid;
    chosen_matches = a.chosen_matches;
    stored = a.stored;
    finished = a.finished;
  }

  unlocked :
      (verified : DeviceConfig) (s s' : Store W)
      → IsActivated verified s s'
      → IsActivated verified s (configuration_unlock nvs s')
  unfolding configuration_unlock
  unlocked verified s s' a = record {
    was_in_progress = a.was_in_progress;
    same_revision = a.same_revision;
    chosen = a.chosen;
    chosen_valid = a.chosen_valid;
    chosen_matches = a.chosen_matches;
    stored = ok.given s'.world active ∙ a.stored;
    finished = a.finished;
  }

  -- For NVS that behaves as documented, an activation that returns ESP_OK was asked for while a
  -- validation was in progress, with the revision under validation. The active configuration stored
  -- afterwards is the encoding of one that is valid and that `configurations_match` finds the same
  -- as the verified one, and no validation is in progress any more.
  pub activate_candidate_ok :
      (verified : DeviceConfig) (s : Store W)
      → is_ok (activate_candidate nvs parses struct_size (some verified) s).0 ≡ true
      → IsActivated verified s (activate_candidate nvs parses struct_size (some verified) s).1
  unfolding activate_candidate locked configuration_lock configuration_unlock
  activate_candidate_ok verified s =
      let s1 = (configuration_lock nvs s).1 in
      let body = activate_locked nvs parses struct_size verified s1 in
      if_split (Activates verified s) (is_ok (configuration_lock nvs s).0)
        (λ taken good.
          unlocked verified s body.1
            (in_lock verified s body.1 (activate_locked_ok verified s1 good)))
        (λ failed good. cc)
