-- ===== src/Health/Service/Retries.antt =====
-- How often the task publishes the health again because a publication failed.
use industrial_edge_monitor.Base.{
  ℕ, ◌+◌, ◌≤◌, arith, Bool, true, false, not, ◌||◌, ◌&&◌, Option, none, some, List, [], ◌∷◌, EspErr,
  is_ok, if_split,
}
use industrial_edge_monitor.Health.{Health, Snapshot}
use industrial_edge_monitor.Health.Service.{
  Moment, Loop, Attempt, settle, health_round, health_task, has_news, seen, update_metrics,
  update_runtime_components, publish_health_snapshot,
}

abbrev pub one_if : Bool → ℕ
one_if true = 1
one_if false = 0

-- The attempts that something other than a retry gave reason for, and the others.
abbrev pub news_of : Option Attempt → ℕ
news_of none = 0
news_of (some a) = one_if a.news

abbrev pub retry_of : Option Attempt → ℕ
retry_of none = 0
retry_of (some a) = one_if (not a.news)

unfoldable pub all_news : List (Option Attempt) → ℕ
all_news [] = 0
all_news (a ∷ later) = news_of a + all_news later

unfoldable pub all_retries : List (Option Attempt) → ℕ
all_retries [] = 0
all_retries (a ∷ later) = retry_of a + all_retries later

settle-pending :
    (m : Moment) (result : EspErr) (snapshot : Snapshot) (l : Loop) (h : Health)
    → one_if ((settle m result snapshot (l, h)).0.health_retry_pending)
      ≤ one_if (not l.health_retry_pending)
unfolding settle
settle-pending m result snapshot l h =
    if_split {A = Loop × Health}
      (λ r. one_if (r.0.health_retry_pending) ≤ one_if (not l.health_retry_pending))
      (not (is_ok result)) (λ e. ground arith) (λ e. ground arith)

round_bound :
    (period : ℕ) (device_id : List ℕ) (m : Moment) (l : Loop) (h : Health)
    → let r = health_round period device_id m (l, h) in
      retry_of (r.1) + one_if (r.0.0.health_retry_pending)
      ≤ news_of (r.1) + one_if l.health_retry_pending
unfolding health_round update_runtime_components
round_bound period device_id m l h =
    let updated = update_runtime_components m (l, h) in
    let h1 = update_metrics m (updated.1) in
    let news = has_news period m (seen m h1) (updated.0) in
    let result = publish_health_snapshot m device_id h1 in
    let settled = settle-pending m result (seen m h1) (updated.0) h1 in
    if_split {A = (Loop × Health) × Option Attempt}
      (λ r.
        retry_of (r.1) + one_if (r.0.0.health_retry_pending)
        ≤ news_of (r.1) + one_if l.health_retry_pending)
      (m.connected 1 && (news || l.health_retry_pending)) (λ e. ground (arith, settled))
      (λ e. omega arith)

-- In every run of the health service's task, at most as many publications are tried only because
-- one failed as are tried for a new connection, a due heartbeat or a changed state, and one more if
-- a retry is pending at the start: a failed publication is tried again once, not for ever.
pub all_retries_bound :
    (period : ℕ) (device_id : List ℕ) (moments : List Moment) (l : Loop) (h : Health)
    → let attempts = health_task period device_id moments (l, h) in
      all_retries attempts ≤ all_news attempts + one_if l.health_retry_pending
unfolding health_task all_news all_retries
all_retries_bound period device_id [] l h = omega arith
all_retries_bound period device_id (m ∷ later) l h =
    let r = health_round period device_id m (l, h) in
    omega (
      arith,
      round_bound period device_id m l h,
      all_retries_bound period device_id later (r.0.0) (r.0.1),
    )
