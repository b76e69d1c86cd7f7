-- ===== src/Health/Revision.antt =====
-- What one component update does, and when the state revision moves.
use industrial_edge_monitor.Base.{
  ℕ, zero, suc, ◌+◌, ◌<◌, ◌≡◌, ◌≢◌, ◌∙◌, ap, ap₂, refl, sym, true, Option, arith, List, [], ◌∷◌,
  length, if◌then◌else◌, pos, get_or, set, get_or-set_self, get_or-set_ne, esp_ok, u32,
}
use industrial_edge_monitor.Health.{
  OverallStatus, ComponentStatus, HealthError, ComponentSnapshot, Snapshot, Health, component_count,
  is_bad, calculate_overall_status, update_component, unknown_component, store_component,
  stored_time, is_some, status_code, error_code,
}
use industrial_edge_monitor.Health.Overall.{IsHealth}

status_code_inj : (a b : ComponentStatus) → status_code a ≡ status_code b → a ≡ b
status_code_inj a b h = ground arith

error_code_inj : (a b : HealthError) → error_code a ≡ error_code b → a ≡ b
error_code_inj a b h = ground arith

calculate-set :
    (cs : List ComponentSnapshot) (index : ℕ) (c : ComponentSnapshot)
    → c.status ≡ (get_or cs index unknown_component).status
    → calculate_overall_status (set cs index c) ≡ calculate_overall_status cs
unfolding calculate_overall_status
calculate-set [] index c e = refl
calculate-set (x ∷ xs) zero c e = rw e refl
calculate-set (x ∷ xs) (suc index) c e =
    ap (λ rest. if is_bad x.status then OverallStatus.degraded else rest)
      (calculate-set xs index c e)

abbrev pub entry_at : Snapshot → ℕ → ComponentSnapshot
entry_at s index = get_or s.components index unknown_component

-- The entry that an update stores.
abbrev pub new_entry : ComponentStatus → HealthError → Option (List ℕ) → ComponentSnapshot
new_entry status error time = record {
  status = status;
  error = error;
  has_updated_at = is_some time;
  updated_at = stored_time time;
}

store_component-same :
    (s : Snapshot) (index : ℕ) (time : Option (List ℕ))
    → IsHealth s
    → (store_component s index
        (entry_at s index).status
        (entry_at s index).error
        time).state_revision
      ≡ s.state_revision
unfolding store_component
store_component-same s index time ok = ground (
  arith,
  ok.implied,
  calculate-set s.components index
      (new_entry (entry_at s index).status (entry_at s index).error time) refl,
)

store_component-changed :
    (s : Snapshot) (index : ℕ) (status : ComponentStatus) (error : HealthError)
    (time : Option (List ℕ))
    → ((entry_at s index).status ≡ status → (entry_at s index).error ≡ error → ⊥)
    → (store_component s index status error time).state_revision ≡ u32 (s.state_revision + 1)
unfolding store_component
store_component-changed s index status error time differs = ground (
  arith,
  status_code_inj (entry_at s index).status status,
  error_code_inj (entry_at s index).error error,
  differs,
)

store_component-entries :
    (s : Snapshot) (index other : ℕ) (status : ComponentStatus) (error : HealthError)
    (time : Option (List ℕ))
    → index < length s.components
    → index ≢ other
    → (entry_at (store_component s index status error time) index ≡ new_entry status error time)
      × (entry_at (store_component s index status error time) other ≡ entry_at s other)
unfolding store_component
store_component-entries s index other status error time lt ne =
    (get_or-set_self s.components index _ _ lt, get_or-set_ne s.components index other _ _ ne)

update_component-stored :
    (h : Health) (index : ℕ) (status : ComponentStatus) (error : HealthError)
    (time : Option (List ℕ))
    → h.has_mutex ≡ true
    → index < component_count
    → update_component true h (pos index) status error time
      ≡ (record h { state = store_component h.state index status error time }, esp_ok)
unfolding update_component
update_component-stored h index status error time mutex lt = ground arith

-- An update that gets the mutex at a component that exists stores the given status, error and
-- timestamp there and leaves every other entry, and the availability, alone. The state revision
-- stays exactly when neither status nor error of the entry changes, whatever the timestamp, and
-- otherwise moves by one modulo 2 ^ 32.
pub update_component_lem :
    (h : Health) (index other : ℕ) (status : ComponentStatus) (error : HealthError)
    (time : Option (List ℕ))
    → h.has_mutex ≡ true
    → IsHealth h.state
    → index < component_count
    → index ≢ other
    → let (h', result) = update_component true h (pos index) status error time in
      (result ≡ esp_ok)
      × (entry_at h'.state index ≡ new_entry status error time)
      × (entry_at h'.state other ≡ entry_at h.state other)
      × (h'.state.availability ≡ h.state.availability)
      × ((entry_at h.state index).status ≡ status
          → (entry_at h.state index).error ≡ error
          → h'.state.state_revision ≡ h.state.state_revision)
      × (((entry_at h.state index).status ≡ status → (entry_at h.state index).error ≡ error → ⊥)
          → h'.state.state_revision ≡ u32 (h.state.state_revision + 1))
update_component_lem h index other status error time mutex ok lt ne =
    let entries =
      store_component-entries h.state index other status error time (omega (arith, ok.entries))
        ne in
    rw (update_component-stored h index status error time mutex lt) (
      refl,
      entries.0,
      entries.1,
      unfold store_component in refl,
      λ p q.
          ap₂
            (λ (a : ComponentStatus) (b : HealthError).
              (store_component h.state index a b time).state_revision)
            (sym p) (sym q)
          ∙ store_component-same h.state index time ok,
      store_component-changed h.state index status error time,
    )
