-- ===== src/Telemetry/Counted.antt =====
-- What the counters of the device's health say of the cycles of the telemetry task.
use industrial_edge_monitor.Base.{
  ℕ, ◌+◌, ◌^◌, ◌<◌, ◌≡◌, inl, inr, ◌∙◌, ap, arith, Bool, true, not, Option, none, some, List, [],
  ◌∷◌, length, EspErr, is_ok, if_split, subst, sym,
}
use industrial_edge_monitor.Health.{Health, Counter}
use industrial_edge_monitor.Telemetry.{create, to_json}
use industrial_edge_monitor.Sensor.{Driver, Sensor}
use industrial_edge_monitor.Telemetry.Cycle.{
  ModelError, finish, accept_sample, publish_text, machine_result_of, stamp_of, model_error, task,
  blank, reject_sample, note_sample, Moment, collect_and_publish,
}
use industrial_edge_monitor.Telemetry.Tally.{
  Tally, tally, add, Settled, tally-note, tally-count, finish-Settled, mutex-add,
  tally-note_failure, tally-note_sample,
}

-- The number of cycles, of the samples among them, and of their publications.
pub record IsCounted (n : ℕ) (t : Tally) : Type 0 where
  pub mutex : t.mutex ≡ true
  pub samples : t.made + t.rejected ≡ n
  pub publications : t.published + t.failed ≡ t.made

rejected-IsCounted :
    {n : ℕ} {t : Tally}
    → n + 1 < 2 ^ 64
    → IsCounted n t
    → IsCounted (n + 1) (add Counter.samples_rejected t)
unfolding add
rejected-IsCounted small c = record {
  mutex = c.mutex;
  samples = omega arith;
  publications = c.publications;
}

settled-IsCounted :
    {n : ℕ} {t after : Tally}
    → n + 1 < 2 ^ 64
    → IsCounted n t
    → Settled (add Counter.samples_ok t) after
    → IsCounted (n + 1) after
unfolding add
settled-IsCounted {n} small c (inl e) =
    subst (IsCounted (n + 1)) (sym e)
      (record { mutex = c.mutex; samples = omega arith; publications = omega arith })
settled-IsCounted {n} small c (inr e) =
    subst (IsCounted (n + 1)) (sym e)
      (record { mutex = c.mutex; samples = omega arith; publications = omega arith })

reject_sample-IsCounted :
    {taken : ℕ → Bool} {n : ℕ} (error : ModelError) (stamp : Option (List ℕ)) (h : Health)
    → ((k : ℕ) → taken k ≡ true)
    → n + 1 < 2 ^ 64
    → IsCounted n (tally h)
    → IsCounted (n + 1) (tally (reject_sample taken error stamp h))
unfolding reject_sample
reject_sample-IsCounted {n = n} error stamp h t small c =
    subst (IsCounted (n + 1))
      (sym (tally-note_failure _ _ error _ ∙ tally-count Counter.samples_rejected h (t 2) c.mutex))
      (rejected-IsCounted small c)

accept_sample-IsCounted :
    {taken : ℕ → Bool} {n : ℕ} (machine : EspErr) (published : Option EspErr)
    (stamp : Option (List ℕ)) (h : Health)
    → ((k : ℕ) → taken k ≡ true)
    → n + 1 < 2 ^ 64
    → IsCounted n (tally h)
    → IsCounted (n + 1) (tally (accept_sample taken machine published stamp h))
unfolding accept_sample
accept_sample-IsCounted {taken} machine published stamp h t small c =
    let noted = tally-note_sample machine stamp h t c.mutex in
    settled-IsCounted small c (
      subst
        (λ x. Settled x (tally (finish taken published stamp (note_sample taken machine stamp h))))
        noted
        (finish-Settled taken published stamp (note_sample taken machine stamp h) (t 7)
          (ap (λ x. x.mutex) noted ∙ (mutex-add Counter.samples_ok (tally h) ∙ c.mutex))))

-- No cycle fails to take the mutex of the device's health.
pub data AllTaken : List Moment → Type 0 where
  none_left : AllTaken []
  takes :
      {m : Moment} {later : List Moment}
      → ((k : ℕ) → m.taken k ≡ true)
      → AllTaken later
      → AllTaken (m ∷ later)

module _ {W : Type 0} (bme280 : Driver W) where
  collect_and_publish-IsCounted :
      {n : ℕ} (m : Moment) (device_id : List ℕ) (h : Health) (s : Sensor W)
      → ((k : ℕ) → m.taken k ≡ true)
      → n + 1 < 2 ^ 64
      → IsCounted n (tally h)
      → IsCounted (n + 1) (tally ((collect_and_publish bme280 m device_id (h, s)).0.0))
  unfolding collect_and_publish
  collect_and_publish-IsCounted {n} m device_id h s t small c =
      let P : (Health × Sensor W) × Option (List ℕ) → Type 0 =
        λ x. IsCounted (n + 1) (tally (x.0.0)) in
      if_split P (not m.clock)
        (λ e.
          subst (IsCounted (n + 1))
            (sym (tally-note _ _ _ _ _ _ ∙ tally-count Counter.samples_rejected h (t 0) c.mutex))
            (rejected-IsCounted small c))
        (λ e.
          let made = create bme280 m.second_stamp m.machine device_id (some blank) s in
          let json = to_json m.format (made.0.1) 256 in
          if_split P (not (is_ok (made.0.0)))
            {x = (
              (reject_sample m.taken (model_error (made.0.0)) (stamp_of m.stamp) h, made.1),
              none,
            )}
            {y = (
              (
                accept_sample m.taken (machine_result_of (made.0.1)) (publish_text m json)
                    (stamp_of m.stamp) h,
                made.1,
              ),
              json,
            )}
            (λ e'. reject_sample-IsCounted (model_error (made.0.0)) (stamp_of m.stamp) h t small c)
            (λ e'.
              accept_sample-IsCounted (machine_result_of (made.0.1)) (publish_text m json)
                (stamp_of m.stamp) h t small c))

  -- In every run of the telemetry task whose cycles all take the mutex, each cycle makes one sample or
  -- rejects one, and each sample made is published or fails to be: the counters `samples_ok` and
  -- `samples_rejected` add up to the number of cycles and `publish_ok` and `publish_failed` to
  -- `samples_ok`, while the cycles are fewer than 2 ^ 64, where the counters wrap around. No other
  -- task counts in between; the service that publishes the health adds its own failures to
  -- `publish_failed`.
  pub task-IsCounted :
      (moments : List Moment) {n : ℕ} (device_id : List ℕ) (h : Health) (s : Sensor W)
      → AllTaken moments
      → n + length moments < 2 ^ 64
      → IsCounted n (tally h)
      → IsCounted (n + length moments) (tally ((task bme280 moments device_id (h, s)).0))
  unfolding task
  task-IsCounted [] {n} device_id h s t small c = subst (λ k. IsCounted k (tally h)) (omega arith) c
  task-IsCounted (m ∷ later) {n} device_id h s (takes t ts) small c =
      subst (λ k. IsCounted k (tally ((task bme280 (m ∷ later) device_id (h, s)).0))) (omega arith)
        (task-IsCounted later device_id _ _ ts (omega arith)
          (collect_and_publish-IsCounted m device_id h s t (omega arith) c))
