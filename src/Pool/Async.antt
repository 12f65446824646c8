-- ===== src/Pool/Async.antt =====
-- core/db/pool/async_pool.py: `AsyncConnectionPool`. It keeps the same idle connections, slots and
-- counters as the synchronous pool, and one event for each waiting task, the oldest first; an event
-- is a number. One function stands for each stretch of code under the lock.
pub mod Events
pub mod Waiters
use salesdata_api.Base.{
  ℕ, ◌+◌, ◌-◌, List, [], ◌∷◌, ◌++◌, Option, none, some, Bool, true, false, if◌then◌else◌, ◌==◌,
  ◌||◌, length,
}
use salesdata_api.Pool.Sizer.{adjust}
use salesdata_api.Pool.Sync.{
  Pool, Outcome, got, reserved, must_wait, poll, release, created, creation_failed, begin, sum,
}
use salesdata_api.Pool.Sync

pub record AsyncPool : Type 0 where
  pub base : Pool
  pub waiters : List ℕ

unfoldable pub init : ℕ → ℕ → ℕ → AsyncPool
init min_conn max_conn timeout = record { base = Sync.init min_conn max_conn timeout; waiters = [] }

-- a task that must wait appends a new event, unless it has one
unfoldable pub queued : AsyncPool → Pool → ℕ → Bool → Outcome → AsyncPool
queued a p event has_event (got conn) = record a { base = p }
queued a p event has_event reserved = record a { base = p }
queued a p event true must_wait = record a { base = p }
queued a p event false must_wait = record {
  base = record p { total_waiters_ever = p.total_waiters_ever + 1 };
  waiters = a.waiters ++ event ∷ [];
}

-- one round of the loop of `acquire` under the lock
unfoldable pub poll_async : AsyncPool → ℕ → ℕ → ℕ → ℕ → Bool → Outcome × AsyncPool
unfolding queued
poll_async a start now reserved_key event has_event =
    let (o, p) = poll a.base start now reserved_key true in (o, queued a p event has_event o)

-- `if waiter in self._waiters: self._waiters.remove(waiter)`
unfoldable pub remove : ℕ → List ℕ → List ℕ
remove event [] = []
remove event (e ∷ es) = let rest = remove event es in if e == event then es else e ∷ rest

-- the wait timed out: `MaxConnectionsExceeded` is raised
unfoldable pub gave_up : AsyncPool → ℕ → ℕ → ℕ → AsyncPool
unfolding remove
gave_up a event start now = record {
  base = record a.base {
    timeouts = a.base.timeouts + 1;
    wait_time = a.base.wait_time + (now - start);
  };
  waiters = remove event a.waiters;
}

-- the task was cancelled while it waited
unfoldable pub cancelled : AsyncPool → ℕ → AsyncPool
unfolding remove
cancelled a event = record a { waiters = remove event a.waiters }

-- `if self._waiters: self._waiters.pop(0).set()`: the event that is set, and those left
unfoldable pub wake : Bool → List ℕ → Option ℕ × List ℕ
wake false es = (none, es)
wake true [] = (none, [])
wake true (e ∷ es) = (some e, es)

unfoldable pub release_async : AsyncPool → ℕ → Bool → Option ℕ × AsyncPool
unfolding wake
release_async a conn broken =
    let (p, frees) = release a.base conn broken in
    let (woken, left) = wake frees a.waiters in (woken, record { base = p; waiters = left })

-- the other stretches are those of the synchronous pool
unfoldable pub on_base : (Pool → Pool) → AsyncPool → AsyncPool
on_base f a = record a { base = f a.base }

-- what `metrics` changes: the waiters are the events
unfoldable pub metrics_adjust : AsyncPool → AsyncPool
metrics_adjust a = record a {
  base = record a.base {
    sizer =
        adjust a.base.sizer (length a.waiters)
          (record { total = sum a.base.recent_waits; number = length a.base.recent_waits });
  };
}
