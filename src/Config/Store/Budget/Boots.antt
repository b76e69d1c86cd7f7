-- ===== src/Config/Store/Budget/Boots.antt =====
-- One choice at boot: the attempt that it counts.
use industrial_edge_monitor.Base.{
  ℕ, suc, ◌+◌, ◌-◌, ◌≡◌, ◌≤◌, ◌<◌, ◌^◌, ◌⊎◌, inl, inr, refl, Bool, true, false, Option, some, arith,
  List, is_ok, if_split, not-false, not, ◌&&◌, ◌==◌, leb, u32, codes,
}
use industrial_edge_monitor.Config.{Metadata, state_pending}
use industrial_edge_monitor.Config.Validate.{validate}
use industrial_edge_monitor.Config.Storage.RoundTrip.MetaTrip.{IsStorable}
use industrial_edge_monitor.Config.Store.{
  Key, active, candidate, metadata, Nvs, write_metadata, read_configuration,
}
use industrial_edge_monitor.Config.Store.Operations.{
  Store, at_world, no_validation, Outputs, get_metadata_locked, rollback_candidate_locked,
}
use industrial_edge_monitor.Config.Store.Operations.Boot.{
  boot_active, boot_rollback, boot_candidate, boot_locked,
}
use industrial_edge_monitor.Config.Store.Laws.{IsNvs}
use industrial_edge_monitor.Config.Store.Laws.MetaBlob.{
  get_metadata_locked_same, read_configuration_same, write_metadata_ok,
}
use industrial_edge_monitor.Config.Store.Budget.{
  attempts_left, Within, some_metadata, Within-same, Within-write, Within-read, IsIdle,
  rollback-IsIdle,
}

module _ {W : Type 0} {nvs : Nvs W} {blob : W → Key → Option (List ℕ)} (ok : IsNvs nvs blob)
    (parses : List ℕ → Bool) (max_attempts : ℕ) where
  boot_active-IsIdle :
      (o : Outputs) (s : Store W) (n : ℕ)
      → Within ok max_attempts s.world n
      → s.in_progress ≡ false
      → IsIdle ok max_attempts n (boot_active nvs parses o s)
  unfolding boot_active
  boot_active-IsIdle o s n within idle = (
    Within-same ok max_attempts
        (read_configuration_same ok parses active o.configuration s.world metadata) within,
    idle,
  )

  boot_rollback-IsIdle :
      (reason : List ℕ) (o : Outputs) (s : Store W) (n : ℕ)
      → Within ok max_attempts s.world n
      → s.in_progress ≡ false
      → IsIdle ok max_attempts n (boot_rollback nvs parses reason o s)
  unfolding boot_rollback
  boot_rollback-IsIdle reason o s n within idle =
      let rolled = rollback-IsIdle ok max_attempts (some reason) s n within idle in
      let s1 = (rollback_candidate_locked nvs (some reason) s).1 in
      let got = get_metadata_locked nvs o.metadata s1.world in
      let read : Within ok max_attempts got.2 n =
        Within-same ok max_attempts (get_metadata_locked_same ok o.metadata s1.world metadata)
          rolled.0 in
      if_split (IsIdle ok max_attempts n)
        (not (is_ok (rollback_candidate_locked nvs (some reason) s).0)) (λ failed. rolled)
        (λ done.
          if_split (IsIdle ok max_attempts n) (not (is_ok got.0)) (λ failed. (read, rolled.1))
            (λ good.
              boot_active-IsIdle (record o { metadata = got.1 }) (at_world s1 got.2) n read
                rolled.1))

  -- Either no candidate is being validated and the bound holds, or one is and it is one less.
  abbrev pub IsCounted : {A : Type 0} → ℕ → A × Store W → Type 0
  IsCounted n (a, s) =
      IsIdle ok max_attempts n (a, s)
      ⊎ (s.in_progress ≡ true) × ((k : ℕ) × (n ≡ suc k) × Within ok max_attempts s.world k)

  abbrev counted_attempt : Metadata → Metadata
  counted_attempt m = record m { boot_attempts = u32 (m.boot_attempts + 1) }

  attempts_left-counted_attempt :
      (m : Metadata) (n : ℕ)
      → max_attempts < 2 ^ 32
      → m.boot_attempts < max_attempts
      → attempts_left max_attempts m ≤ n
      → m.state ≡ state_pending
      → (attempts_left max_attempts (counted_attempt m) ≤ n - 1) × (n ≡ suc (n - 1))
  attempts_left-counted_attempt m n small room few pending = (ground arith, ground arith)

  counted_attempt-IsStorable : (m : Metadata) → IsStorable m → IsStorable (counted_attempt m)
  counted_attempt-IsStorable m fits = record {
    state = fits.state;
    candidate_revision = fits.candidate_revision;
    boot_attempts = omega arith;
    boot_count = fits.boot_count;
    reason_length = fits.reason_length;
    reason_terminated = fits.reason_terminated;
  }

  boot_candidate-IsCounted :
      (o : Outputs) (s : Store W) (n : ℕ)
      → Within ok max_attempts s.world n
      → s.in_progress ≡ false
      → IsStorable o.metadata
      → max_attempts < 2 ^ 32
      → o.metadata.state ≡ state_pending
      → o.metadata.boot_attempts < max_attempts
      → attempts_left max_attempts o.metadata ≤ n
      → IsCounted n (boot_candidate nvs parses o s)
  unfolding boot_candidate
  boot_candidate-IsCounted o s n within idle fits small pending room few =
      let read = read_configuration nvs parses candidate o.configuration s.world in
      let m = counted_attempt o.metadata in
      let counted = attempts_left-counted_attempt o.metadata n small room few pending in
      let m_fits = counted_attempt-IsStorable o.metadata fits in
      let within1 : Within ok max_attempts read.2 n =
        Within-same ok max_attempts
          (read_configuration_same ok parses candidate o.configuration s.world metadata) within in
      let written = write_metadata nvs m read.2 in
      if_split (IsCounted n)
        (not (
          is_ok read.0
          && is_ok (validate parses (some read.1) 0).0
          && read.1.revision == o.metadata.candidate_revision))
        (λ bad. inl (
          boot_rollback-IsIdle (codes "candidate missing, corrupt, invalid or revision-mismatched")
            (record o { configuration = read.1 }) (at_world s read.2) n within1 idle))
        (λ fine.
          if_split (IsCounted n) (is_ok written.0)
            (λ done. inr (
              refl,
              (
                n - 1,
                counted.1,
                some_metadata m (write_metadata_ok ok m read.2 m_fits done) counted.0,
              ),
            ))
            (λ failed. inl (
              Within-write ok max_attempts m read.2 n m_fits (omega (arith, counted.0)) within1,
              idle,
            )))

  abbrev booted : Metadata → Metadata
  booted m = record m { boot_count = u32 (m.boot_count + 1) }

  booted-IsStorable : (m : Metadata) → IsStorable m → IsStorable (booted m)
  booted-IsStorable m fits = record {
    state = fits.state;
    candidate_revision = fits.candidate_revision;
    boot_attempts = fits.boot_attempts;
    boot_count = omega arith;
    reason_length = fits.reason_length;
    reason_terminated = fits.reason_terminated;
  }

  pub boot_locked-IsCounted :
      (o : Outputs) (s : Store W) (n : ℕ)
      → Within ok max_attempts s.world n
      → max_attempts < 2 ^ 32
      → IsCounted n (boot_locked nvs parses max_attempts o s)
  unfolding boot_locked
  boot_locked-IsCounted o s n within small =
      let got = get_metadata_locked nvs o.metadata s.world in
      let written = write_metadata nvs (booted got.1) got.2 in
      let s2 = at_world (no_validation s) written.1 in
      let o2 = record o { metadata = booted got.1 } in
      let read : Within ok max_attempts got.2 n =
        Within-same ok max_attempts (get_metadata_locked_same ok o.metadata s.world metadata)
          within in
      if_split (IsCounted n) (not (is_ok got.0)) (λ failed. inl (read, refl))
        (λ good.
          let found = Within-read ok max_attempts o.metadata s.world n within (not-false _ good) in
          let m_fits = booted-IsStorable got.1 found.0 in
          let within2 : Within ok max_attempts written.1 n =
            Within-write ok max_attempts (booted got.1) got.2 n m_fits found.1 read in
          if_split (IsCounted n) (not (is_ok written.0)) (λ failed. inl (within2, refl))
            (λ done.
              if_split (IsCounted n) (not (got.1.state == state_pending))
                (λ other. inl (boot_active-IsIdle o2 s2 n within2 refl))
                (λ pending.
                  if_split (IsCounted n) (leb max_attempts got.1.boot_attempts)
                    (λ spent. inl (
                      boot_rollback-IsIdle (codes "candidate boot attempt limit reached") o2 s2 n
                        within2 refl))
                    (λ room.
                      boot_candidate-IsCounted o2 s2 n within2 refl m_fits small (ground arith)
                        (ground arith) found.1))))
