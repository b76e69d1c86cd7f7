-- ===== src/Telemetry/Tally.antt =====
-- What the steps of a cycle of the telemetry task do to the counters.
use industrial_edge_monitor.Base.{
  ℕ, ◌+◌, ◌≡◌, ◌⊎◌, inl, inr, ◌∙◌, refl, arith, Bool, true, not, Option, none, some, List, EspErr,
  is_ok, u64, if_split, leb,
}
use industrial_edge_monitor.Health.{
  Health, ComponentStatus, HealthError, Counter, update_component, store_component, increment, bump,
  component_count, lock_state,
}
use industrial_edge_monitor.Telemetry.Cycle.{
  ModelError, sensor_read, not_finite, temperature, humidity, timestamp, another, note, count,
  note_failure, update_machine_status_health, note_publish, finish, note_sample, is_not_supported,
  is_invalid_state,
}

-- The counters of the samples and of their publications, and whether there is a mutex.
pub record Tally : Type 0 where
  pub mutex : Bool
  pub made : ℕ
  pub rejected : ℕ
  pub published : ℕ
  pub failed : ℕ

unfoldable pub tally : Health → Tally
tally h = record {
  mutex = h.has_mutex;
  made = h.state.counters.samples_ok;
  rejected = h.state.counters.samples_rejected;
  published = h.state.counters.publish_ok;
  failed = h.state.counters.publish_failed;
}

unfoldable pub add : Counter → Tally → Tally
add Counter.samples_ok t = record t { made = u64 (t.made + 1) }
add Counter.samples_rejected t = record t { rejected = u64 (t.rejected + 1) }
add Counter.publish_ok t = record t { published = u64 (t.published + 1) }
add Counter.publish_failed t = record t { failed = u64 (t.failed + 1) }
add Counter.machine_status_errors t = t

pub tally-note :
    (taken : Bool) (component : ℕ) (status : ComponentStatus) (error : HealthError)
    (stamp : Option (List ℕ)) (h : Health)
    → tally (note taken component status error stamp h) ≡ tally h
unfolding note update_component store_component tally
tally-note taken component status error stamp h =
    if_split {A = Health × EspErr} (λ x. tally (x.0) ≡ tally h) (leb component_count component)
      (λ e. refl)
      (λ e.
        if_split {A = Health × EspErr} (λ x. tally (x.0) ≡ tally h) (not (lock_state h taken))
          (λ e'. refl) (λ e'. refl))

pub tally-bump :
    (counter : Counter) (h : Health)
    → tally (record h { state = record (h.state) { counters = bump counter h.state.counters } })
      ≡ add counter (tally h)
unfolding bump add tally
tally-bump Counter.samples_ok h = refl
tally-bump Counter.samples_rejected h = refl
tally-bump Counter.publish_ok h = refl
tally-bump Counter.publish_failed h = refl
tally-bump Counter.machine_status_errors h = refl

pub tally-count :
    {taken : Bool} (counter : Counter) (h : Health)
    → taken ≡ true
    → (tally h).mutex ≡ true
    → tally (count taken counter h) ≡ add counter (tally h)
unfolding count increment tally
tally-count {taken} counter h t m =
    if_split (λ x. tally x ≡ add counter (tally h)) (lock_state h taken) (λ e. tally-bump counter h)
      (λ e. ground arith)

pub tally-count_errors :
    (taken : Bool) (h : Health) → tally (count taken Counter.machine_status_errors h) ≡ tally h
unfolding count increment bump tally
tally-count_errors taken h =
    if_split (λ x. tally x ≡ tally h) (lock_state h taken) (λ e. refl) (λ e. refl)

pub tally-update_machine_status_health :
    (taken : ℕ → Bool) (result : EspErr) (stamp : Option (List ℕ)) (h : Health)
    → tally (update_machine_status_health taken result stamp h) ≡ tally h
unfolding update_machine_status_health
tally-update_machine_status_health taken result stamp h =
    if_split (λ x. tally x ≡ tally h) (is_ok result) (λ e. tally-note _ _ _ _ _ h)
      (λ e.
        if_split (λ x. tally x ≡ tally h) (is_not_supported result) (λ e'. tally-note _ _ _ _ _ h)
          (λ e'. tally-note _ _ _ _ _ _ ∙ tally-count_errors _ h))

-- What becomes of a sample that is made.
abbrev pub Settled : Tally → Tally → Type 0
Settled before after =
    (after ≡ add Counter.publish_ok before) ⊎ (after ≡ add Counter.publish_failed before)

pub note_publish-Settled :
    (taken : ℕ → Bool) (result : EspErr) (stamp : Option (List ℕ)) (h : Health)
    → taken 7 ≡ true
    → (tally h).mutex ≡ true
    → Settled (tally h) (tally (note_publish taken result stamp h))
unfolding note_publish
note_publish-Settled taken result stamp h t m =
    if_split (λ x. Settled (tally h) (tally x)) (is_ok result)
      (λ e. inl (tally-note _ _ _ _ _ _ ∙ tally-count Counter.publish_ok h t m))
      (λ e.
        if_split (λ x. Settled (tally h) (tally x)) (is_invalid_state result)
          (λ e'. inr (tally-note _ _ _ _ _ _ ∙ tally-count Counter.publish_failed h t m))
          (λ e'. inr (tally-note _ _ _ _ _ _ ∙ tally-count Counter.publish_failed h t m)))

pub finish-Settled :
    (taken : ℕ → Bool) (result : Option EspErr) (stamp : Option (List ℕ)) (h : Health)
    → taken 7 ≡ true
    → (tally h).mutex ≡ true
    → Settled (tally h) (tally (finish taken result stamp h))
unfolding finish
finish-Settled taken none stamp h t m = inr (tally-count Counter.publish_failed h t m)
finish-Settled taken (some result) stamp h t m = note_publish-Settled taken result stamp h t m

pub mutex-add : (counter : Counter) (t : Tally) → (add counter t).mutex ≡ t.mutex
unfolding add
mutex-add Counter.samples_ok t = refl
mutex-add Counter.samples_rejected t = refl
mutex-add Counter.publish_ok t = refl
mutex-add Counter.publish_failed t = refl
mutex-add Counter.machine_status_errors t = refl

pub tally-note_failure :
    (taken : Bool) (stamp : Option (List ℕ)) (error : ModelError) (h : Health)
    → tally (note_failure taken stamp error h) ≡ tally h
unfolding note_failure
tally-note_failure taken stamp sensor_read h = tally-note _ _ _ _ _ h
tally-note_failure taken stamp not_finite h = tally-note _ _ _ _ _ h
tally-note_failure taken stamp temperature h = tally-note _ _ _ _ _ h
tally-note_failure taken stamp humidity h = tally-note _ _ _ _ _ h
tally-note_failure taken stamp timestamp h = tally-note _ _ _ _ _ h
tally-note_failure taken stamp another h = refl

pub tally-note_sample :
    {taken : ℕ → Bool} (machine : EspErr) (stamp : Option (List ℕ)) (h : Health)
    → ((k : ℕ) → taken k ≡ true)
    → (tally h).mutex ≡ true
    → tally (note_sample taken machine stamp h) ≡ add Counter.samples_ok (tally h)
unfolding note_sample
tally-note_sample {taken} machine stamp h t m =
    tally-update_machine_status_health taken machine stamp _
    ∙ (tally-note _ _ _ _ _ _ ∙ (tally-note _ _ _ _ _ _ ∙ tally-count Counter.samples_ok h (t 2) m))
