-- ===== src/Pool/Sync.antt =====
-- core/db/pool/sync_pool.py: `SyncConnectionPool`, one function for each stretch of code that runs
-- under the lock. What happens between them, a connection being created or a thread being put to
-- sleep, is left to the order in which threads take these steps. A connection is the `id` of its
-- object; times are microseconds; the histogram of waits is not modelled.
pub mod Heap
pub mod Capacity
pub mod Steps
use salesdata_api.Base.{
  ℕ, ◌+◌, ◌-◌, ◌≤◌, List, [], ◌∷◌, ◌++◌, Option, none, some, Bool, true, false, if◌then◌else◌, ltb,
  leb, length, map,
}
use salesdata_api.Pool.Sizer.{Sizer, Waits, adjust}
use salesdata_api.Pool.Sizer
use salesdata_api.Pool.Slots.{Slots, find, drop, store}
use salesdata_api.Pool.Sync.Heap.{Entry, pop_least}

pub record Pool : Type 0 where
  pub available : List Entry
  pub in_use : Slots
  pub timeout : ℕ
  pub counter : ℕ
  pub current_waiters : ℕ
  pub total_waiters_ever : ℕ
  pub requests : ℕ
  pub hits : ℕ
  pub misses : ℕ
  pub wait_time : ℕ
  pub timeouts : ℕ
  pub successful_acquires : ℕ
  pub connection_creation_count : ℕ
  pub connection_creation_time : ℕ
  pub broken_evicted : ℕ
  pub recent_waits : List ℕ
  pub sizer : Sizer

unfoldable pub init : ℕ → ℕ → ℕ → Pool
init min_conn max_conn timeout = record {
  available = [];
  in_use = [];
  timeout = timeout;
  counter = 0;
  current_waiters = 0;
  total_waiters_ever = 0;
  requests = 0;
  hits = 0;
  misses = 0;
  wait_time = 0;
  timeouts = 0;
  successful_acquires = 0;
  connection_creation_count = 0;
  connection_creation_time = 0;
  broken_evicted = 0;
  recent_waits = [];
  sizer = Sizer.init min_conn max_conn;
}

-- the last 50 waits: the first is dropped when there is one more
abbrev pub trim : List ℕ → List ℕ
trim [] = []
trim (w ∷ ws) = if ltb 50 (length (w ∷ ws)) then ws else w ∷ ws

unfoldable pub record_acquire : Pool → ℕ → Bool → Pool
record_acquire p wait hit = record p {
  wait_time = p.wait_time + wait;
  successful_acquires = p.successful_acquires + 1;
  hits = if hit then p.hits + 1 else p.hits;
  recent_waits = trim (p.recent_waits ++ wait ∷ []);
}

-- What a thread finds when it holds the lock in the loop of `acquire`.
pub data Outcome : Type 0 where
  got : ℕ → Outcome
  reserved : Outcome
  must_wait : Outcome

-- One round of the loop: an idle connection is taken; or a slot is reserved under `reserved_key`;
-- or the thread counts itself as a waiter, if it has not yet.
unfoldable pub poll_with : Pool → ℕ → ℕ → ℕ → Bool → Option (Entry × List Entry) → Outcome × Pool
poll_with p start now reserved_key counted (some (e, rest)) =
    let q = record_acquire (record p { available = rest }) (now - start) true in
    (got e.conn, record q { in_use = store e.conn (some now) q.in_use })
poll_with p start now reserved_key counted none =
    if ltb (length p.in_use) p.sizer.current
    then (reserved, record p { in_use = store reserved_key none p.in_use })
    else if counted
    then (must_wait, p)
    else (
      must_wait,
      record p {
        current_waiters = p.current_waiters + 1;
        total_waiters_ever = p.total_waiters_ever + 1;
      },
    )

unfoldable pub poll : Pool → ℕ → ℕ → ℕ → Bool → Outcome × Pool
poll p start now reserved_key counted =
    poll_with p start now reserved_key counted (pop_least p.available)

-- `acquire` before the lock
unfoldable pub begin : Pool → Pool
begin p = record p { requests = p.requests + 1 }

-- `remaining <= 0`: the wait has reached the deadline, and `MaxConnectionsExceeded` is raised
unfoldable pub timed_out : Pool → ℕ → ℕ → Option Pool
timed_out p start now =
    if leb (start + p.timeout) now
    then some (record p { timeouts = p.timeouts + 1; wait_time = p.wait_time + (now - start) })
    else none

-- the `except` of the creation
unfoldable pub creation_failed : Pool → ℕ → Pool
creation_failed p reserved_key = record p { in_use = drop reserved_key p.in_use }

-- the last block under the lock: the placeholder goes, and the new connection takes its place
unfoldable pub created : Pool → ℕ → ℕ → ℕ → ℕ → ℕ → Pool
created p reserved_key conn start elapsed now =
    let q =
      record_acquire
        (record p {
          in_use = drop reserved_key p.in_use;
          connection_creation_count = p.connection_creation_count + 1;
          connection_creation_time = p.connection_creation_time + elapsed;
          misses = p.misses + 1;
        })
        (now - start) false in
    record q { in_use = store conn (some now) q.in_use }

-- the `finally` of `acquire`
unfoldable pub leave : Pool → Bool → Pool
leave p counted = if counted then record p { current_waiters = p.current_waiters - 1 } else p

-- `release`, and whether a waiting thread is notified. An `id` that is not there, or that stands for
-- a placeholder, whose value is `None`, makes it return at once.
unfoldable pub release_found : Pool → ℕ → Bool → Option (Option ℕ) → Pool × Bool
release_found p conn broken none = (p, false)
release_found p conn broken (some none) = (record p { in_use = drop conn p.in_use }, false)
release_found p conn broken (some (some created_at)) =
    if broken
    then (record p { in_use = drop conn p.in_use; broken_evicted = p.broken_evicted + 1 }, true)
    else (
      record p {
        in_use = drop conn p.in_use;
        available =
            record { created_at = created_at; counter = p.counter; conn = conn } ∷ p.available;
        counter = p.counter + 1;
      },
      true,
    )

unfoldable pub release : Pool → ℕ → Bool → Pool × Bool
release p conn broken = release_found p conn broken (find conn p.in_use)

-- the connections that are checked out, the placeholders left out
abbrev pub checked_out : Slots → List ℕ
checked_out [] = []
checked_out ((k, none) ∷ m) = checked_out m
checked_out ((k, some t) ∷ m) = k ∷ checked_out m

-- `close_all`: the connections that it closes, and the pool after it
unfoldable pub close_all : Pool → List ℕ × Pool
close_all p = (
  map (λ e. e.conn) p.available ++ checked_out p.in_use,
  record p { available = []; in_use = [] },
)

abbrev pub sum : List ℕ → ℕ
sum [] = 0
sum (w ∷ ws) = w + sum ws

-- What `metrics` changes: the size is adjusted to the waiters and the recent waits.
unfoldable pub metrics_adjust : Pool → Pool
metrics_adjust p = record p {
  sizer =
      adjust p.sizer p.current_waiters
        (record { total = sum p.recent_waits; number = length p.recent_waits });
}

-- What `metrics` reports of the connections.
pub record Report : Type 0 where
  pub max_connections : ℕ
  pub current_connections : ℕ
  pub active_connections : ℕ
  pub idle_connections : ℕ
  pub reserved : ℕ

unfoldable pub report : Pool → Report
report p =
    let active = length (checked_out p.in_use) in
    record {
      max_connections = p.sizer.current;
      current_connections = active + length p.available;
      active_connections = active;
      idle_connections = length p.available;
      reserved = length p.in_use - active;
    }
