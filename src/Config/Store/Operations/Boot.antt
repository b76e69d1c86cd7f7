-- ===== src/Config/Store/Operations/Boot.antt =====
-- The operations that read configurations: loading, the choice at boot, staging and activation.
use industrial_edge_monitor.Base.{
  ℕ, ◌+◌, Bool, true, false, ◌&&◌, ◌||◌, not, Option, none, some, List, leb, ◌==◌, if◌then◌else◌,
  EspErr, no_mem, invalid_arg, invalid_state, is_ok, u32, codes,
}
use industrial_edge_monitor.Config.{DeviceConfig, state_pending}
use industrial_edge_monitor.Config.Validate.{validate}
use industrial_edge_monitor.Config.Storage.Configuration.{zero_configuration}
use industrial_edge_monitor.Config.Storage.Meta.{zero_metadata}
use industrial_edge_monitor.Config.Store.{
  active, candidate, Nvs, write_metadata, read_configuration, write_configuration, erase_key,
}
use industrial_edge_monitor.Config.Store.Operations.{
  Store, at_world, no_validation, settle, active_metadata, configurations_match, Outputs, locked,
  get_metadata_locked, stage_locked, rollback_candidate_locked,
}

-- `sizeof(device_config_t)`, which only the allocation uses, is an argument.
module _ {W : Type 0} (nvs : Nvs W) (parses : List ℕ → Bool) where
  unfoldable pub load_active :
      Option DeviceConfig → Store W → (EspErr × Option DeviceConfig) × Store W
  load_active none s = ((invalid_arg, none), s)
  load_active (some before) s =
      locked nvs s (λ e. (e, some before))
        (λ s1.
          let (result, c, w1) = read_configuration nvs parses active before s1.world in
          ((result, some c), at_world s1 w1))

  unfoldable pub stage_candidate : Option DeviceConfig → Store W → EspErr × Store W
  stage_candidate none s = ((validate parses none 128).0, s)
  stage_candidate (some c) s =
      if not (is_ok (validate parses (some c) 128).0)
      then ((validate parses (some c) 128).0, s)
      else locked nvs s (λ e. e) (stage_locked nvs c)

  -- From `*using_candidate = false` on.
  unfoldable pub boot_active : Outputs → Store W → (EspErr × Outputs) × Store W
  boot_active o s =
      let (result, c, w1) = read_configuration nvs parses active o.configuration s.world in
      ((result, record o { configuration = c; using_candidate = false }), at_world s w1)

  unfoldable pub boot_rollback : List ℕ → Outputs → Store W → (EspErr × Outputs) × Store W
  unfolding boot_active
  boot_rollback reason o s =
      let (rolled_back, s1) = rollback_candidate_locked nvs (some reason) s in
      let (got, m, w1) = get_metadata_locked nvs o.metadata s1.world in
      let o1 = record o { metadata = m } in
      if not (is_ok rolled_back)
      then ((rolled_back, o), s1)
      else if not (is_ok got)
      then ((got, o1), at_world s1 w1)
      else boot_active o1 (at_world s1 w1)

  unfoldable pub boot_candidate : Outputs → Store W → (EspErr × Outputs) × Store W
  unfolding boot_rollback
  boot_candidate o s =
      let (result, c, w1) = read_configuration nvs parses candidate o.configuration s.world in
      let o1 = record o { configuration = c } in
      let m = record o.metadata { boot_attempts = u32 (o.metadata.boot_attempts + 1) } in
      let (written, w2) = write_metadata nvs m w1 in
      let o2 = record o1 { metadata = m } in
      if not (
        is_ok result
        && is_ok (validate parses (some c) 0).0
        && c.revision == o.metadata.candidate_revision)
      then boot_rollback (codes "candidate missing, corrupt, invalid or revision-mismatched") o1
          (at_world s w1)
      else if is_ok written
      then (
        (written, record o2 { using_candidate = true }),
        record s { in_progress = true; validation_revision = c.revision; world = w2 },
      )
      else ((written, o2), at_world s w2)

  module _ (max_attempts : ℕ) where
    unfoldable pub boot_locked : Outputs → Store W → (EspErr × Outputs) × Store W
    unfolding boot_active boot_rollback boot_candidate
    boot_locked o s0 =
        let s = no_validation s0 in
        let (got, m, w1) = get_metadata_locked nvs o.metadata s.world in
        let m1 = record m { boot_count = u32 (m.boot_count + 1) } in
        let (written, w2) = write_metadata nvs m1 w1 in
        let o1 = record o { metadata = m } in
        let o2 = record o { metadata = m1 } in
        if not (is_ok got)
        then ((got, o1), at_world s w1)
        else if not (is_ok written)
        then ((written, o2), at_world s w2)
        else if not (m.state == state_pending)
        then boot_active o2 (at_world s w2)
        else if leb max_attempts m.boot_attempts
        then boot_rollback (codes "candidate boot attempt limit reached") o2 (at_world s w2)
        else boot_candidate o2 (at_world s w2)

    -- `none` stands for a call with a NULL pointer among its three.
    unfoldable pub load_for_boot : Option Outputs → Store W → (EspErr × Option Outputs) × Store W
    unfolding boot_locked
    load_for_boot none s = ((invalid_arg, none), s)
    load_for_boot (some o) s =
        locked nvs s (λ e. (e, some o))
          (λ s1. let ((result, o1), s2) = boot_locked o s1 in ((result, some o1), s2))

  module _ (struct_size : ℕ) where
    -- Where the candidate is allocated, read and compared, the rest of the activation.
    unfoldable pub activate_locked : DeviceConfig → Store W → EspErr × Store W
    activate_locked verified s =
        let (allocated, w1) = nvs.calloc struct_size s.world in
        let (read, c, w2) = read_configuration nvs parses candidate zero_configuration w1 in
        let (got, m, w3) = get_metadata_locked nvs zero_metadata w2 in
        let (copied, w4) = write_configuration nvs active c w3 in
        let (written, w5) = write_metadata nvs (active_metadata m) (nvs.free w4) in
        let (erased, w6) = erase_key nvs candidate w5 in
        if not s.in_progress || not (s.validation_revision == verified.revision)
        then (invalid_state, s)
        else if not allocated
        then (no_mem, at_world s w1)
        else if not (is_ok read)
        then (read, at_world s (nvs.free w2))
        else if not (is_ok (validate parses (some c) 0).0)
        then ((validate parses (some c) 0).0, at_world s (nvs.free w2))
        else if not (is_ok got)
        then (got, at_world s (nvs.free w3))
        else if not (m.state == state_pending)
            || not (m.candidate_revision == verified.revision)
            || not (configurations_match c verified)
        then (invalid_state, at_world s (nvs.free w3))
        else if not (is_ok copied)
        then (copied, at_world s (nvs.free w4))
        else if not (is_ok written)
        then (written, at_world s w5)
        else (erased, settle erased (at_world s w6))

    unfoldable pub activate_candidate : Option DeviceConfig → Store W → EspErr × Store W
    activate_candidate none s = (invalid_arg, s)
    activate_candidate (some verified) s = locked nvs s (λ e. e) (activate_locked verified)
