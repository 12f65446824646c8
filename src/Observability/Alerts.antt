-- ===== src/Observability/Alerts.antt =====
-- core/observability/alerts.py. A ratio a / b is compared with a threshold, given in hundredths, as
-- threshold * b ≤ 100 * a; the pool's saturation comes rounded, as a number of ten-thousandths. The messages, and
-- the values that an alert shows besides the increase of a counter, are left out.
pub mod Edges
use salesdata_api.Base.{
  ℕ, zero, suc, ◌+◌, ◌-◌, ◌*◌, max, String, List, [], ◌∷◌, ◌++◌, Option, none, some, Bool, true,
  false, not, ◌&&◌, ◌||◌, ltb, leb, str_eq, if◌then◌else◌,
}
use salesdata_api.Base.Dict.{Dict, lookup, insert}
use Prim.Native.String.{◌++◌ as joined}

pub data Severity : Type 0 where
  warning critical : Severity

-- `AlertThresholds`, in hundredths
pub record AlertThresholds : Type 0 where
  pub pool_saturation_warning : ℕ
  pub pool_saturation_critical : ℕ
  pub executor_utilization_warning : ℕ
  pub query_concurrency_warning : ℕ
  pub persistence_queue_depth_warning : ℕ

abbrev pub defaults : AlertThresholds
defaults = record {
  pool_saturation_warning = 80;
  pool_saturation_critical = 95;
  executor_utilization_warning = 90;
  query_concurrency_warning = 90;
  persistence_queue_depth_warning = 75;
}

-- `delta` is the value of an alert on a counter, and 0 for the others
pub record Alert : Type 0 where
  pub code : String
  pub severity : Severity
  pub delta : ℕ

pub record PoolMetrics : Type 0 where
  pub saturation : ℕ
  pub timed_out_acquires : ℕ
  pub broken_connections_evicted : ℕ

pub record ExecutorMetrics : Type 0 where
  pub max_workers : ℕ
  pub active : ℕ
  pub approx_queue_depth : ℕ

pub record ClassMetrics : Type 0 where
  pub limit : ℕ
  pub in_use : ℕ

pub record QueueMetrics : Type 0 where
  pub queue_depth : ℕ
  pub dropped : ℕ
  pub failed : ℕ

pub record Snapshot : Type 0 where
  pub pool : Option PoolMetrics
  pub executors : Dict ExecutorMetrics
  pub query_concurrency : Dict ClassMetrics
  pub cache_persistence : Option QueueMetrics
  pub sampler_escalated : Bool
  pub persistence_queue_maxsize : ℕ

abbrev pub Counters : Type 0
Counters = Dict ℕ

-- `ratio >= threshold`
unfoldable pub reaches : ℕ → ℕ → ℕ → Bool
reaches threshold part whole = leb (threshold * whole) (100 * part)

-- `m or 1`
abbrev pub or_one : ℕ → ℕ
or_one zero = 1
or_one (suc n) = suc n

abbrev pub alert : String → Severity → Alert
alert code severity = record { code = code; severity = severity; delta = 0 }

abbrev pub previous : ℕ → Option ℕ → ℕ
previous current none = current
previous current (some p) = p

unfoldable pub check_counter_delta : String → Severity → ℕ → Counters → Counters × List Alert
check_counter_delta key severity current counters =
    let before = previous current (lookup key counters) in
    (
      insert key current counters,
      if ltb before current
          then record { code = key; severity = severity; delta = current - before } ∷ []
          else [],
    )

unfoldable pub saturation_alert : AlertThresholds → PoolMetrics → List Alert
unfolding reaches
saturation_alert t m =
    if reaches t.pool_saturation_critical m.saturation 10_000
    then alert "pool_saturated" critical ∷ []
    else if reaches t.pool_saturation_warning m.saturation 10_000
    then alert "pool_under_pressure" warning ∷ []
    else []

unfoldable pub check_pool : AlertThresholds → PoolMetrics → Counters → Counters × List Alert
unfolding saturation_alert check_counter_delta
check_pool t m counters =
    let (c1, timeouts) =
      check_counter_delta "pool_timeouts" critical m.timed_out_acquires counters in
    let (c2, broken) =
      check_counter_delta "pool_broken_connections" warning m.broken_connections_evicted c1 in
    (c2, saturation_alert t m ++ (timeouts ++ broken))

unfoldable pub check_executors : AlertThresholds → Dict ExecutorMetrics → List Alert
unfolding reaches
check_executors t [] = []
check_executors t ((name, m) ∷ rest) =
    let others = check_executors t rest in
    if reaches t.executor_utilization_warning m.active (or_one m.max_workers)
      || ltb 0 m.approx_queue_depth
    then alert (joined (joined "executor_" name) "_saturated") warning ∷ others
    else others

unfoldable pub check_query_concurrency : AlertThresholds → Dict ClassMetrics → List Alert
unfolding reaches
check_query_concurrency t [] = []
check_query_concurrency t ((cost, m) ∷ rest) =
    let others = check_query_concurrency t rest in
    if reaches t.query_concurrency_warning m.in_use (or_one m.limit)
    then alert (joined (joined "query_concurrency_" cost) "_saturated") warning ∷ others
    else others

unfoldable pub check_persistence :
    AlertThresholds → QueueMetrics → ℕ → Counters → Counters × List Alert
unfolding reaches check_counter_delta
check_persistence t m maxsize counters =
    let (c1, dropped) = check_counter_delta "persistence_dropped" warning m.dropped counters in
    let (c2, failed) = check_counter_delta "persistence_failed" warning m.failed c1 in
    (
      c2,
      (if reaches t.persistence_queue_depth_warning m.queue_depth (max 1 maxsize)
            then alert "persistence_queue_backlog" warning ∷ []
            else [])
          ++ (dropped ++ failed),
    )

-- `_prev_counters` and `_firing`
pub record Evaluator : Type 0 where
  pub prev_counters : Counters
  pub firing : List String

unfoldable pub has_code : String → List String → Bool
has_code code [] = false
has_code code (c ∷ cs) = if str_eq c code then true else has_code code cs

abbrev pub codes_of : List Alert → List String
codes_of [] = []
codes_of (a ∷ more) = a.code ∷ codes_of more

-- a line of the log
pub data LogLine : Type 0 where
  fires resolved : String → LogLine

unfoldable pub newly_firing : List String → List Alert → List LogLine
unfolding has_code
newly_firing firing [] = []
newly_firing firing (a ∷ more) =
    let rest = newly_firing firing more in
    if has_code a.code firing then rest else fires a.code ∷ rest

unfoldable pub newly_resolved : List String → List String → List LogLine
unfolding has_code
newly_resolved [] current = []
newly_resolved (c ∷ cs) current =
    let rest = newly_resolved cs current in if has_code c current then rest else resolved c ∷ rest

abbrev pub if_some {ℓ} :
    {M : Type ℓ}
    → Option M
    → (M → Counters → Counters × List Alert)
    → Counters
    → Counters × List Alert
if_some none check counters = (counters, [])
if_some (some m) check counters = check m counters

unfoldable pub all_alerts : AlertThresholds → Snapshot → Counters → Counters × List Alert
unfolding check_pool check_executors check_query_concurrency check_persistence
all_alerts t s counters =
    let (c1, pool) = if_some s.pool (check_pool t) counters in
    let (c2, persistence) =
      if_some s.cache_persistence (λ m. check_persistence t m s.persistence_queue_maxsize) c1 in
    (
      c2,
      pool
          ++ (check_executors t s.executors
              ++ (check_query_concurrency t s.query_concurrency
                  ++ (persistence
                      ++ (if s.sampler_escalated
                          then alert "sampling_escalated" warning ∷ []
                          else [])))),
    )

-- the alerts, and what is logged of them
unfoldable pub evaluate :
    AlertThresholds → Snapshot → Evaluator → Evaluator × List Alert × List LogLine
unfolding all_alerts newly_firing newly_resolved
evaluate t s e =
    let (counters, alerts) = all_alerts t s e.prev_counters in
    (
      record { prev_counters = counters; firing = codes_of alerts },
      alerts,
      newly_firing e.firing alerts ++ newly_resolved e.firing (codes_of alerts),
    )
