-- ===== src/Health/Overall.antt =====
-- The overall status, and what every update keeps.
use industrial_edge_monitor.Base.{
  ℕ, ◌≡◌, ◌↔◌, ◌∙◌, ◌⊎◌, refl, Bool, true, false, Option, none, some, arith, List, [], ◌∷◌, length,
  ℤ, pos, negsuc, length-set,
}
use industrial_edge_monitor.Health.{
  OverallStatus, ComponentStatus, HealthError, ComponentSnapshot, Snapshot, Health, Availability,
  Counter, Metrics, component_count, is_bad, calculate_overall_status, init, update_component,
  set_availability, increment, set_metrics, store_component,
}

-- Some component is degraded or at fault.
abbrev pub SomeBad : List ComponentSnapshot → Type 0
SomeBad [] = ⊥
SomeBad (c ∷ cs) = (is_bad c.status ≡ true) ⊎ SomeBad cs

calculate_iff :
    (cs : List ComponentSnapshot)
    → (calculate_overall_status cs ≡ OverallStatus.degraded) ↔ SomeBad cs
unfolding calculate_overall_status
calculate_iff [] = ground arith
calculate_iff (c ∷ cs) = ground (arith, calculate_iff cs)

-- The state is well formed: one entry for each component, and the overall status is the one that
-- they imply.
pub record IsHealth (s : Snapshot) : Type 0 where
  pub entries : length s.components ≡ component_count
  pub implied : s.status ≡ calculate_overall_status s.components

pub status_iff :
    (s : Snapshot) → IsHealth s → (s.status ≡ OverallStatus.degraded) ↔ SomeBad s.components
status_iff s ok = rw ok.implied (calculate_iff s.components)

pub init-IsHealth : (h : Health) → h.has_mutex ≡ false → IsHealth (init true h).0.state
unfolding init calculate_overall_status
init-IsHealth h e = ground arith

pub store_component-IsHealth :
    (s : Snapshot) (index : ℕ) (status : ComponentStatus) (error : HealthError)
    (time : Option (List ℕ))
    → IsHealth s
    → IsHealth (store_component s index status error time)
unfolding store_component
store_component-IsHealth s index status error time ok = record {
  entries = length-set s.components index _ ∙ ok.entries;
  implied = refl;
}

-- A call that changes the state, with what its lock attempt returns.
pub data Call : Type 0 where
  update : Bool → ℤ → ComponentStatus → HealthError → Option (List ℕ) → Call
  available : Bool → Availability → Call
  count : Bool → Counter → Call
  measure : Bool → Option Metrics → Call

unfoldable pub apply : Health → Call → Health
unfolding update_component set_availability increment set_metrics
apply h (update taken component status error time) =
    (update_component taken h component status error time).0
apply h (available taken availability) = (set_availability taken h availability).0
apply h (count taken counter) = increment taken h counter
apply h (measure taken metrics) = (set_metrics taken h metrics).0

apply-IsHealth : (h : Health) (c : Call) → IsHealth h.state → IsHealth (apply h c).state
unfolding apply
apply-IsHealth h (update taken (negsuc n) status error time) ok = ok
apply-IsHealth h (update taken (pos index) status error time) ok =
    ground (arith, store_component-IsHealth h.state index status error time ok)
apply-IsHealth h (available taken availability) ok = ground arith
apply-IsHealth h (count taken counter) ok = ground arith
apply-IsHealth h (measure taken none) ok = ok
apply-IsHealth h (measure taken (some metrics)) ok = ground arith

abbrev pub run : Health → List Call → Health
run h [] = h
run h (c ∷ cs) = run (apply h c) cs

run-IsHealth : (cs : List Call) (h : Health) → IsHealth h.state → IsHealth (run h cs).state
run-IsHealth [] h ok = ok
run-IsHealth (c ∷ cs) h ok = run-IsHealth cs (apply h c) (apply-IsHealth h c ok)

-- After the first initialization and any calls at all, the reported overall status is degraded
-- exactly when some component is degraded or at fault.
pub run-status_iff :
    (h : Health) (cs : List Call)
    → h.has_mutex ≡ false
    → let s = (run (init true h).0 cs).state in
      (s.status ≡ OverallStatus.degraded) ↔ SomeBad s.components
run-status_iff h cs e = status_iff _ (run-IsHealth cs (init true h).0 (init-IsHealth h e))
