-- ===== src/Query/Persistence.antt =====
-- `CachePersistenceQueue` of core/caching/persistence_queue.py. A job is the time at which it was
-- put in the queue; `running` holds the jobs that workers have taken. A queue whose `maxsize` is 0
-- has no bound, as `asyncio.Queue` has it. Times are ticks.
pub mod Conservation
use salesdata_api.Base.{
  ℕ, zero, suc, ◌+◌, ◌-◌, List, [], ◌∷◌, ◌++◌, Option, none, some, Bool, true, false, leb, ltb,
  ◌&&◌, not, length, ◌/◌, max, if◌then◌else◌,
}

pub record Persistence : Type 0 where
  pub maxsize : ℕ
  pub num_workers : ℕ
  pub queue : List ℕ
  pub running : List ℕ
  pub worker_tasks : ℕ
  pub accepting : Bool
  pub enqueued : ℕ
  pub completed : ℕ
  pub failed : ℕ
  pub dropped : ℕ
  pub total_latency : ℕ

unfoldable pub init : ℕ → ℕ → Persistence
init maxsize workers = record {
  maxsize = maxsize;
  num_workers = workers;
  queue = [];
  running = [];
  worker_tasks = 0;
  accepting = false;
  enqueued = 0;
  completed = 0;
  failed = 0;
  dropped = 0;
  total_latency = 0;
}

unfoldable pub start : Persistence → Persistence
start q = if q.accepting then q else record q { accepting = true; worker_tasks = q.num_workers }

-- `put_nowait` raises `QueueFull`
unfoldable pub is_full : Persistence → Bool
is_full q = ltb 0 q.maxsize && leb q.maxsize (length q.queue)

unfoldable pub submit : Persistence → ℕ → Persistence × Bool
unfolding is_full
submit q now =
    if not q.accepting
    then (record q { dropped = q.dropped + 1 }, false)
    else if is_full q
    then (record q { dropped = q.dropped + 1 }, false)
    else (record q { queue = q.queue ++ now ∷ []; enqueued = q.enqueued + 1 }, true)

-- a worker that has no job takes the first of the queue
unfoldable pub take_job : Persistence → Option Persistence
take_job q = elim q.queue [
  | [] ↦ none
  | job ∷ rest ↦
      if ltb (length q.running) q.worker_tasks
      then some (record q { queue = rest; running = job ∷ q.running })
      else none
]

-- how the coroutine of a job ends
pub data Ending : Type 0 where
  returned raised cancelled : Ending

-- the counters after the first of the running jobs has ended
abbrev pub counted : Ending → Persistence → Persistence
counted returned q = record q { completed = q.completed + 1 }
counted raised q = record q { failed = q.failed + 1 }
counted cancelled q = q

-- the end of `_worker_loop`'s round for one of the running jobs, the others being given; a worker
-- whose job is cancelled ends, and `worker_tasks` still counts it
unfoldable pub end_job : Persistence → ℕ → List ℕ → Ending → ℕ → Persistence
end_job q job others ending now =
    counted ending (record q { running = others; total_latency = q.total_latency + (now - job) })

-- `stop` before it waits, and after: the workers that are left are cancelled with their jobs
unfoldable pub stop_accepting : Persistence → Persistence
stop_accepting q = record q { accepting = false }

abbrev pub latencies : List ℕ → ℕ → ℕ
latencies [] now = 0
latencies (job ∷ jobs) now = (now - job) + latencies jobs now

unfoldable pub stop_workers : Persistence → ℕ → Persistence
stop_workers q now =
    if ltb 0 q.worker_tasks
    then record q {
      running = [];
      worker_tasks = 0;
      total_latency = q.total_latency + latencies q.running now;
    }
    else q

-- the average latency is the total by the number of jobs that ended, at least 1
pub record PersistenceMetrics : Type 0 where
  pub queue_depth : ℕ
  pub enqueued : ℕ
  pub completed : ℕ
  pub failed : ℕ
  pub dropped : ℕ
  pub avg_latency : ℕ × ℕ

unfoldable pub metrics : Persistence → PersistenceMetrics
metrics q = record {
  queue_depth = length q.queue;
  enqueued = q.enqueued;
  completed = q.completed;
  failed = q.failed;
  dropped = q.dropped;
  avg_latency = (q.total_latency, max 1 (q.completed + q.failed));
}
