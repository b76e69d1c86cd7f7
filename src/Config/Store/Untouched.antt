-- ===== src/Config/Store/Untouched.antt =====
-- The active configuration under the operations that are not meant to change it.
pub mod Calls
use industrial_edge_monitor.Base.{
  ℕ, ◌+◌, ◌≡◌, ◌≢◌, ◌∙◌, refl, Bool, true, false, Option, none, some, arith, List, [], ◌∷◌, is_ok,
  if_split, EspErr, not, ◌||◌, ◌&&◌, if◌then◌else◌, ◌==◌, leb, codes, u32,
}
use industrial_edge_monitor.Config.{DeviceConfig, Metadata, state_pending}
use industrial_edge_monitor.Config.Validate.{validate}
use industrial_edge_monitor.Config.Storage.Meta.{zero_metadata}
use industrial_edge_monitor.Config.Store.{
  Key, active, candidate, metadata, Nvs, write_metadata, read_configuration, write_configuration,
  erase_key,
}
use industrial_edge_monitor.Config.Store.Operations.{
  Store, at_world, no_validation, settle, Outputs, get_metadata_locked, rollback_candidate_locked,
  locked, configuration_lock, configuration_unlock, stage_locked, cancel_locked, rollback_candidate,
  cancel_candidate, pending_metadata, active_metadata, rolled_back_metadata,
  candidate_validation_in_progress, get_metadata,
}
use industrial_edge_monitor.Config.Store.Operations.Boot.{
  boot_active, boot_rollback, boot_candidate, boot_locked, load_for_boot, load_active,
  stage_candidate,
}
use industrial_edge_monitor.Config.Store.Laws.{IsNvs, erase_key_other}
use industrial_edge_monitor.Config.Store.Laws.MetaBlob.{
  get_metadata_locked_same, read_configuration_same, write_metadata_other,
  write_configuration_other,
}

module _ {W : Type 0} {nvs : Nvs W} {blob : W → Key → Option (List ℕ)} (ok : IsNvs nvs blob)
    (parses : List ℕ → Bool) (max_attempts : ℕ) where
  -- The active configuration that is stored afterwards.
  abbrev pub Leaves : {A : Type 0} → Option (List ℕ) → A × Store W → Type 0
  Leaves before (a, s) = blob s.world active ≡ before

  settle-Leaves :
      {A : Type 0} (a : A) (b : Option (List ℕ)) (result : EspErr) (s : Store W)
      → Leaves b (a, s)
      → Leaves b (a, settle result s)
  settle-Leaves a b result s h = if_split (λ t. Leaves b (a, t)) (is_ok result) (λ e. h) (λ e. h)

  pub locked-Leaves :
      {A : Type 0} (s : Store W) (refused : EspErr → A) (body : Store W → A × Store W)
      → ((t : Store W) → Leaves (blob t.world active) (body t))
      → Leaves (blob s.world active) (locked nvs s refused body)
  unfolding locked configuration_lock configuration_unlock
  locked-Leaves s refused body keeps =
      let s1 = (configuration_lock nvs s).1 in
      let taken : blob s1.world active ≡ blob s.world active =
        if_split (Leaves (blob s.world active)) (not s.has_mutex) (λ e. refl)
          (λ e. ok.taken s.world active) in
      if_split (Leaves (blob s.world active)) (is_ok (configuration_lock nvs s).0)
        (λ e. ok.given (body s1).1.world active ∙ keeps s1 ∙ taken) (λ e. taken)

  pub stage-Leaves :
      (c : DeviceConfig) (s : Store W) → Leaves (blob s.world active) (stage_locked nvs c s)
  unfolding stage_locked
  stage-Leaves c s =
      let before = blob s.world active in
      let copied = write_configuration nvs candidate c s.world in
      let got = get_metadata_locked nvs zero_metadata copied.1 in
      let m = pending_metadata c.revision got.1 in
      let kept : blob copied.1 active ≡ before =
        write_configuration_other ok candidate c s.world active (λ e. cc) in
      let read : blob got.2 active ≡ before =
        get_metadata_locked_same ok zero_metadata copied.1 active ∙ kept in
      if_split (Leaves before) s.in_progress (λ e. refl)
        (λ e.
          if_split (Leaves before) (not (is_ok copied.0)) (λ e. kept)
            (λ e.
              if_split (Leaves before) (not (is_ok got.0)) (λ e. read)
                (λ e. write_metadata_other ok m got.2 active (λ e. cc) ∙ read)))

  pub rollback-Leaves :
      (reason : Option (List ℕ)) (s : Store W)
      → Leaves (blob s.world active) (rollback_candidate_locked nvs reason s)
  unfolding rollback_candidate_locked
  rollback-Leaves reason s =
      let before = blob s.world active in
      let got = get_metadata_locked nvs zero_metadata s.world in
      let m = rolled_back_metadata reason got.1 in
      let written = write_metadata nvs m got.2 in
      let erased = erase_key nvs candidate written.1 in
      let read : blob got.2 active ≡ before =
        get_metadata_locked_same ok zero_metadata s.world active in
      let kept : blob written.1 active ≡ before =
        write_metadata_other ok m got.2 active (λ e. cc) ∙ read in
      if_split (Leaves before) (not (is_ok got.0)) (λ e. read)
        (λ e.
          if_split (Leaves before) (not (is_ok written.0)) (λ e. kept)
            (λ e.
              settle-Leaves erased.0 before erased.0 (at_world s erased.1)
                (erase_key_other ok candidate written.1 active (λ e. cc) ∙ kept)))

  pub cancel-Leaves : (s : Store W) → Leaves (blob s.world active) (cancel_locked nvs s)
  unfolding cancel_locked
  cancel-Leaves s =
      let before = blob s.world active in
      let got = get_metadata_locked nvs zero_metadata s.world in
      let m = active_metadata got.1 in
      let written = write_metadata nvs m got.2 in
      let read : blob got.2 active ≡ before =
        get_metadata_locked_same ok zero_metadata s.world active in
      let kept : blob written.1 active ≡ before =
        write_metadata_other ok m got.2 active (λ e. cc) ∙ read in
      if_split (Leaves before) s.in_progress (λ e. refl)
        (λ e.
          if_split (Leaves before) (not (is_ok got.0)) (λ e. read)
            (λ e.
              if_split (Leaves before) (not (is_ok written.0)) (λ e. kept)
                (λ e. erase_key_other ok candidate written.1 active (λ e. cc) ∙ kept)))

  boot_rollback-Leaves :
      (reason : List ℕ) (o : Outputs) (s : Store W)
      → Leaves (blob s.world active) (boot_rollback nvs parses reason o s)
  unfolding boot_rollback boot_active
  boot_rollback-Leaves reason o s =
      let before = blob s.world active in
      let rolled = rollback_candidate_locked nvs (some reason) s in
      let got = get_metadata_locked nvs o.metadata rolled.1.world in
      let kept : blob rolled.1.world active ≡ before = rollback-Leaves (some reason) s in
      let read : blob got.2 active ≡ before =
        get_metadata_locked_same ok o.metadata rolled.1.world active ∙ kept in
      if_split (Leaves before) (not (is_ok rolled.0)) (λ e. kept)
        (λ e.
          if_split (Leaves before) (not (is_ok got.0)) (λ e. read)
            (λ e. read_configuration_same ok parses active o.configuration got.2 active ∙ read))

  boot_candidate-Leaves :
      (o : Outputs) (s : Store W) → Leaves (blob s.world active) (boot_candidate nvs parses o s)
  unfolding boot_candidate
  boot_candidate-Leaves o s =
      let before = blob s.world active in
      let read = read_configuration nvs parses candidate o.configuration s.world in
      let m = record o.metadata { boot_attempts = u32 (o.metadata.boot_attempts + 1) } in
      let kept : blob read.2 active ≡ before =
        read_configuration_same ok parses candidate o.configuration s.world active in
      let counted : blob (write_metadata nvs m read.2).1 active ≡ before =
        write_metadata_other ok m read.2 active (λ e. cc) ∙ kept in
      if_split (Leaves before)
        (not (
          is_ok read.0
          && is_ok (validate parses (some read.1) 0).0
          && read.1.revision == o.metadata.candidate_revision))
        (λ e.
          boot_rollback-Leaves (codes "candidate missing, corrupt, invalid or revision-mismatched")
            (record o { configuration = read.1 }) (at_world s read.2)
          ∙ kept)
        (λ e.
          if_split (Leaves before) (is_ok (write_metadata nvs m read.2).0) (λ e. counted)
            (λ e. counted))

  pub boot-Leaves :
      (o : Outputs) (s : Store W)
      → Leaves (blob s.world active) (boot_locked nvs parses max_attempts o s)
  unfolding boot_locked boot_active
  boot-Leaves o s =
      let before = blob s.world active in
      let got = get_metadata_locked nvs o.metadata s.world in
      let m = record got.1 { boot_count = u32 (got.1.boot_count + 1) } in
      let written = write_metadata nvs m got.2 in
      let s2 = at_world (no_validation s) written.1 in
      let o2 = record o { metadata = m } in
      let read : blob got.2 active ≡ before =
        get_metadata_locked_same ok o.metadata s.world active in
      let kept : blob written.1 active ≡ before =
        write_metadata_other ok m got.2 active (λ e. cc) ∙ read in
      if_split (Leaves before) (not (is_ok got.0)) (λ e. read)
        (λ e.
          if_split (Leaves before) (not (is_ok written.0)) (λ e. kept)
            (λ e.
              if_split (Leaves before) (not (got.1.state == state_pending))
                (λ e.
                  read_configuration_same ok parses active o.configuration written.1 active ∙ kept)
                (λ e.
                  if_split (Leaves before) (leb max_attempts got.1.boot_attempts)
                    (λ e.
                      boot_rollback-Leaves (codes "candidate boot attempt limit reached") o2 s2
                      ∙ kept)
                    (λ e. boot_candidate-Leaves o2 s2 ∙ kept))))
