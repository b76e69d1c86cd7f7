-- ===== src/Config/Store/Untouched/Calls.antt =====
-- Sequences of calls between two activations.
use industrial_edge_monitor.Base.{
  ℕ, ◌≡◌, ◌∙◌, refl, Bool, not, Option, none, some, List, [], ◌∷◌, is_ok, if_split,
}
use industrial_edge_monitor.Config.{DeviceConfig, Metadata}
use industrial_edge_monitor.Config.Validate.{validate}
use industrial_edge_monitor.Config.Store.{Key, active, Nvs}
use industrial_edge_monitor.Config.Store.Operations.{
  Store, Outputs, rollback_candidate_locked, cancel_locked, stage_locked, rollback_candidate,
  cancel_candidate, candidate_validation_in_progress, get_metadata,
}
use industrial_edge_monitor.Config.Store.Operations.Boot.{
  load_for_boot, load_active, stage_candidate,
}
use industrial_edge_monitor.Config.Store.Laws.{IsNvs}
use industrial_edge_monitor.Config.Store.Laws.MetaBlob.{
  get_metadata_locked_same, read_configuration_same,
}
use industrial_edge_monitor.Config.Store.Untouched.{
  Leaves, locked-Leaves, stage-Leaves, rollback-Leaves, cancel-Leaves, boot-Leaves,
}

-- The calls other than activation, recovery and factory reset.
pub data Call : Type 0 where
  stage : Option DeviceConfig → Call
  roll_back : Option (List ℕ) → Call
  cancel : Call
  load : Option DeviceConfig → Call
  boot : Option Outputs → Call
  ask_metadata : Option Metadata → Call
  ask_in_progress : Call

module _ {W : Type 0} (nvs : Nvs W) (parses : List ℕ → Bool) (max_attempts : ℕ) where
  unfoldable pub apply : Store W → Call → Store W
  unfolding stage_candidate rollback_candidate cancel_candidate load_active load_for_boot
      get_metadata candidate_validation_in_progress
  apply s (stage c) = (stage_candidate nvs parses c s).1
  apply s (roll_back reason) = (rollback_candidate nvs reason s).1
  apply s cancel = (cancel_candidate nvs s).1
  apply s (load before) = (load_active nvs parses before s).1
  apply s (boot o) = (load_for_boot nvs parses max_attempts o s).1
  apply s (ask_metadata before) = (get_metadata nvs before s).1
  apply s ask_in_progress = (candidate_validation_in_progress nvs s).1

  abbrev pub run : Store W → List Call → Store W
  run s [] = s
  run s (c ∷ cs) = run (apply s c) cs

module _ {W : Type 0} {nvs : Nvs W} {blob : W → Key → Option (List ℕ)} (ok : IsNvs nvs blob)
    (parses : List ℕ → Bool) (max_attempts : ℕ) where
  apply_active :
      (s : Store W) (c : Call)
      → blob (apply nvs parses max_attempts s c).world active ≡ blob s.world active
  unfolding apply
  apply_active s (stage none) = refl
  apply_active s (stage (some c)) =
      if_split (Leaves ok parses max_attempts (blob s.world active))
        (not (is_ok (validate parses (some c) 128).0)) (λ e. refl)
        (λ e.
          locked-Leaves ok parses max_attempts s (λ e. e) (stage_locked nvs c)
            (stage-Leaves ok parses max_attempts c))
  apply_active s (roll_back reason) =
      locked-Leaves ok parses max_attempts s (λ e. e) (rollback_candidate_locked nvs reason)
        (rollback-Leaves ok parses max_attempts reason)
  apply_active s cancel =
      locked-Leaves ok parses max_attempts s (λ e. e) (cancel_locked nvs)
        (cancel-Leaves ok parses max_attempts)
  apply_active s (load none) = refl
  apply_active s (load (some before)) =
      locked-Leaves ok parses max_attempts s _ _
        (λ t. read_configuration_same ok parses active before t.world active)
  apply_active s (boot none) = refl
  apply_active s (boot (some o)) =
      locked-Leaves ok parses max_attempts s _ _ (boot-Leaves ok parses max_attempts o)
  apply_active s (ask_metadata none) = refl
  apply_active s (ask_metadata (some before)) =
      locked-Leaves ok parses max_attempts s _ _
        (λ t. get_metadata_locked_same ok before t.world active)
  apply_active s ask_in_progress = locked-Leaves ok parses max_attempts s _ _ (λ t. refl)

  -- For NVS that behaves as documented, whichever of its calls fail: whatever is staged, rolled
  -- back, cancelled, loaded, booted or asked, in any number and order, the stored active
  -- configuration stays the same byte for byte.
  pub run_active :
      (cs : List Call) (s : Store W)
      → blob (run nvs parses max_attempts s cs).world active ≡ blob s.world active
  run_active [] s = refl
  run_active (c ∷ cs) s = run_active cs (apply nvs parses max_attempts s c) ∙ apply_active s c
