-- ===== src/Tests/Telemetry.antt =====
-- Runs of core/observability, core/performance/histogram.py and core/app/lifespan.py.
use salesdata_api.Base.{
  ◌≡◌, refl, ℕ, ◌+◌, ◌-◌, List, [], ◌∷◌, ◌++◌, map, String, none, some, Bool, true, false, arith,
  not, ◌&&◌, ◌⊎◌, false≢true,
}
use salesdata_api.Base.Dict.{lookup, insert}
use salesdata_api.Storage.Transaction.{Luck, transaction, settle}
use salesdata_api.Observability.WriteQueue.{
  WriteQueue, Step, enqueue, round, stop, write_all, flush_batch, step, run, drop,
}
use salesdata_api.Observability.WriteQueue.Deferred.{run-deferred, enqueued}
use salesdata_api.Observability.Histogram.{
  Histogram, is_ascending, new_histogram, cumulative_counts,
}
use salesdata_api.Observability.Histogram.Cumulative.{observed, reference, observed-cumulative}
use salesdata_api.Observability.Alerts.{
  Snapshot, Evaluator, defaults, evaluate, has_code, codes_of, check_counter_delta, all_alerts,
  check_pool, check_executors, check_query_concurrency, check_persistence, saturation_alert,
  reaches,
}
use salesdata_api.Observability.Alerts.Edges.{
  logs_fires, logs_resolved, evaluate-edges, checks, increase, last_value, checks-increase,
}
use salesdata_api.Observability.Sampler.{
  AdaptiveSamplerConfig, AdaptiveSampler, record_outcome, is_bad,
}
use salesdata_api.Observability.Sampler.Escalation.{
  Event, starts, ends, run as run_sampler, AllSampled, outcome-escalates,
}
use salesdata_api.App.Lifespan.{
  LifecycleStep, Config, started, stopped, all_steps, init, empty_container, performance,
  data_warehouse, executors, service_database, persistence_queue, lifespan_context, startup,
}
use salesdata_api.App.Lifespan.Order.{context-order, startup-fails, after_start}

abbrev fine : Luck
fine = record { acquired = true; committed = true }

abbrev failing : Luck
failing = record { acquired = true; committed = false }

abbrev write : List ℕ → ℕ → List ℕ
write d r = d ++ r ∷ []

abbrev queue : WriteQueue (List ℕ) ℕ
queue = record {
  service_db = record { database = []; in_use = 0 };
  max_batch = 2;
  queue = [];
  has_thread = true;
  stop_event = false;
}

abbrev rounds : List (Step ℕ)
rounds = enqueue 1 ∷ enqueue 2 ∷ enqueue 3 ∷ round fine ∷ enqueue 4 ∷ []

batches : (run write queue rounds).service_db.database ≡ 1 ∷ 2 ∷ []
unfolding run step flush_batch drop transaction settle write_all
batches = refl

-- a batch whose commit fails is lost
lost :
    (run write queue (enqueue 1 ∷ round failing ∷ enqueue 2 ∷ round fine ∷ [])).service_db.database
    ≡ 2 ∷ []
unfolding run step flush_batch drop transaction settle write_all
lost = refl

run-deferred_example :
    (write_all write (run write queue rounds).service_db.database (run write queue rounds).queue
      ≡ write_all write [] (enqueued rounds))
    × ((step write (run write queue rounds) (stop fine)).queue ≡ [])
    × ((step write (run write queue rounds) (stop fine)).service_db.database
        ≡ write_all write [] (enqueued rounds))
run-deferred_example =
    run-deferred write queue rounds fine (tt, (tt, (tt, ((refl, refl), (tt, tt))))) refl refl

abbrev bounds : List ℕ
bounds = 5 ∷ 10 ∷ 50 ∷ []

abbrev values : List ℕ
values = 7 ∷ 5 ∷ 80 ∷ 10 ∷ []

observed-cumulative_example :
    ((new_histogram bounds ≡ none) × (is_ascending bounds ≡ false))
    ⊎ ((h : Histogram) × (new_histogram bounds ≡ some h)
        × (cumulative_counts (observed h values) ≡ reference bounds values)
        × ((observed h values).count ≡ 4))
observed-cumulative_example = observed-cumulative bounds values

reference_run : reference bounds values ≡ 1 ∷ 3 ∷ 3 ∷ 4 ∷ []
unfolding reference
reference_run = refl

abbrev snapshot : Snapshot
snapshot = record {
  pool =
      some (record { saturation = 8_500; timed_out_acquires = 3; broken_connections_evicted = 0 });
  executors = ("db", record { max_workers = 0; active = 1; approx_queue_depth = 0 }) ∷ [];
  query_concurrency = ("cheap", record { limit = 10; in_use = 5 }) ∷ [];
  cache_persistence = none;
  sampler_escalated = true;
  persistence_queue_maxsize = 1_000;
}

abbrev evaluator : Evaluator
evaluator = record {
  prev_counters = ("pool_timeouts", 1) ∷ [];
  firing = "sampling_escalated" ∷ "pool_saturated" ∷ [];
}

alerts_run :
    codes_of (evaluate defaults snapshot evaluator).1
    ≡ "pool_under_pressure" ∷ "pool_timeouts" ∷ "executor_db_saturated" ∷ "sampling_escalated" ∷ []
unfolding evaluate all_alerts check_pool check_executors check_query_concurrency check_persistence
    saturation_alert reaches check_counter_delta lookup insert
alerts_run = refl

evaluate-edges_example :
    let (after, alerts, lines) = evaluate defaults snapshot evaluator in
    (has_code "pool_timeouts" after.firing ≡ has_code "pool_timeouts" (codes_of alerts))
    × (logs_fires "pool_timeouts" lines ≡ (
        has_code "pool_timeouts" (codes_of alerts)
        && not (has_code "pool_timeouts" evaluator.firing)))
    × (logs_resolved "pool_timeouts" lines ≡ (
        has_code "pool_timeouts" evaluator.firing
        && not (has_code "pool_timeouts" (codes_of alerts))))
evaluate-edges_example = evaluate-edges defaults snapshot evaluator "pool_timeouts"

abbrev calls : List (String × ℕ)
calls = ("t", 2) ∷ ("u", 9) ∷ ("t", 2) ∷ ("t", 6) ∷ []

checks-increase_example : 1 + increase "t" (checks (("t", 1) ∷ []) calls) ≡ last_value "t" 1 calls
checks-increase_example = checks-increase "t" 1 (("t", 1) ∷ []) calls (unfold lookup in refl) (
  (λ e. omega arith),
  ((λ e. absurd (false≢true e)), ((λ e. omega arith), ((λ e. omega arith), tt))),
)

abbrev config : Config
config = record { has_performance = true; has_db_config = true; has_service_db_path = true }

abbrev always : LifecycleStep → Bool
always s = true

abbrev but_queue : LifecycleStep → Bool
but_queue persistence_queue = false
but_queue s = true

-- the queue drains first and the warehouse is stopped after the executors
context-order_example : lifespan_context config (λ key. key) always always all_steps init ≡ (
  record {
    container = empty_container;
    started_steps = [];
    log =
        map started all_steps
        ++ map stopped
            (persistence_queue ∷ service_database ∷ executors ∷ data_warehouse ∷ performance ∷ []);
  },
  true,
)
context-order_example =
    context-order config (λ key. key) always always all_steps
      (refl, (refl, (refl, (refl, (refl, tt))))) (refl, (refl, (refl, (refl, (refl, tt)))))

abbrev first_four : List LifecycleStep
first_four = performance ∷ data_warehouse ∷ executors ∷ service_database ∷ []

startup-fails_example :
    (startup config (λ key. key) but_queue always all_steps init
      ≡ (after_start config (λ key. key) but_queue always first_four init, false))
    × (lifespan_context config (λ key. key) but_queue always all_steps init
        ≡ (after_start config (λ key. key) but_queue always first_four init, false))
startup-fails_example =
    startup-fails config (λ key. key) but_queue always first_four persistence_queue []
      (refl, (refl, (refl, (refl, tt)))) refl

abbrev sampler_config : AdaptiveSamplerConfig
sampler_config = record {
  target_samples_per_second = 5;
  min_rate = 1;
  max_rate = 100;
  adjustment_interval = 5_000;
  slow_request_threshold = 2_000;
  escalation = 30_000;
}

abbrev ramp : ℕ → ℕ
ramp r = r + 1

abbrev ease : ℕ → ℕ
ease r = r - 1

abbrev sampler : AdaptiveSampler
sampler = record {
  rate = 1;
  window_start = 0;
  window_sampled = 0;
  window_requests = 0;
  escalated_until = 0;
  total_requests = 0;
  total_sampled = 0;
  total_escalations = 0;
  total_bad_outcomes = 0;
}

abbrev traffic : List Event
traffic = starts 1_200 99 ∷ ends 2_000 200 800 true ∷ starts 30_900 99 ∷ []

outcome-escalates_example :
    AllSampled sampler_config ramp ease
      (run_sampler sampler_config ramp ease
        (record_outcome sampler_config ramp ease 1_000 503 4 false sampler).0
        traffic).1
    × ((record_outcome sampler_config ramp ease 1_000 503 4 false sampler).1 ≡ true)
outcome-escalates_example =
    outcome-escalates sampler_config ramp ease 1_000 503 4 false sampler traffic
      (unfold is_bad in refl)
      ((omega arith, omega arith), ((omega arith, omega arith), ((omega arith, omega arith), tt)))
