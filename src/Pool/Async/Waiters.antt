-- ===== src/Pool/Async/Waiters.antt =====
-- Tasks that share an `AsyncConnectionPool`, as the order in which they take its steps.
use salesdata_api.Base.{
  ℕ, ◌+◌, ◌≤◌, ◌≡◌, ◌≢◌, refl, List, [], ◌∷◌, none, some, Bool, true, false, length, arith, ◌∙◌,
}
use salesdata_api.Pool.Sizer
use salesdata_api.Pool.Sizer.Bounds.{adjust-IsSized}
use salesdata_api.Pool.Slots.{find}
use salesdata_api.Pool.Sync.{
  Pool, Outcome, got, reserved, must_wait, poll, release, created, creation_failed, begin, sum,
  release_found,
}
use salesdata_api.Pool.Sync
use salesdata_api.Pool.Sync.Heap.{Each}
use salesdata_api.Pool.Sync.Capacity.{Valid, init-Valid}
use salesdata_api.Pool.Sync.Steps.{Step, Step-Valid, greatest}
use salesdata_api.Pool.Async.Events.{
  waits, IsDistinct, remove-IsDistinct, remove-gone, append-IsDistinct,
}
use salesdata_api.Pool.Async.{
  AsyncPool, init, queued, poll_async, gave_up, cancelled, wake, release_async, on_base,
  metrics_adjust,
}

-- What tasks, and a reader of the metrics, do to the pool. An event that a task appends is new, and
-- a connection that is created is that of no idle one.
pub data AsyncStep : AsyncPool → AsyncPool → Type 0 where
  begins : (a : AsyncPool) → AsyncStep a (on_base begin a)
  polls :
      (a : AsyncPool) (start now key event : ℕ) (has_event : Bool)
      → waits event a.waiters ≡ has_event
      → AsyncStep a (poll_async a start now key event has_event).1
  gives_up : (a : AsyncPool) (event start now : ℕ) → AsyncStep a (gave_up a event start now)
  cancels : (a : AsyncPool) (event : ℕ) → AsyncStep a (cancelled a event)
  fails :
      (a : AsyncPool) (key : ℕ)
      → find key a.base.in_use ≡ some none
      → AsyncStep a (on_base (λ p. creation_failed p key) a)
  creates :
      (a : AsyncPool) (key conn start elapsed now : ℕ)
      → find key a.base.in_use ≡ some none
      → Each (λ e. conn ≢ e.conn) a.base.available
      → AsyncStep a (on_base (λ p. created p key conn start elapsed now) a)
  releases :
      (a : AsyncPool) (conn : ℕ) (broken : Bool) → AsyncStep a (release_async a conn broken).1
  measures : (a : AsyncPool) → AsyncStep a (metrics_adjust a)

pub data AsyncReach (a : AsyncPool) : AsyncPool → Type 0 where
  here : AsyncReach a a
  next : {b c : AsyncPool} → AsyncReach a b → AsyncStep b c → AsyncReach a c

-- a pool that is valid, with a greatest size, and no event twice
record IsSound (high : ℕ) (a : AsyncPool) : Type 0 where
  valid : Valid a.base
  top : a.base.sizer.max ≡ high
  distinct : IsDistinct a.waiters

-- a step of the synchronous pool on the base
based :
    (high : ℕ) (a : AsyncPool) {p : Pool}
    → Step a.base p
    → IsSound high a
    → IsSound high (record a { base = p })
based high a s h = record {
  valid = Step-Valid s h.valid;
  top = greatest s h.valid ∙ h.top;
  distinct = h.distinct;
}

queued-IsSound :
    (high : ℕ) (a : AsyncPool) (p : Pool) (event : ℕ) (has_event : Bool) (o : Outcome)
    → waits event a.waiters ≡ has_event
    → IsSound high (record a { base = p })
    → IsSound high (queued a p event has_event o)
unfolding queued
queued-IsSound high a p event has_event (got conn) e h = h
queued-IsSound high a p event has_event reserved e h = h
queued-IsSound high a p event true must_wait e h = h
queued-IsSound high a p event false must_wait e h = record {
  valid = h.valid;
  top = h.top;
  distinct = append-IsDistinct event a.waiters e h.distinct;
}

wake-IsDistinct : (frees : Bool) (es : List ℕ) → IsDistinct es → IsDistinct (wake frees es).1
unfolding wake
wake-IsDistinct false es h = h
wake-IsDistinct true [] h = tt
wake-IsDistinct true (e ∷ es) h = h.1

AsyncStep-IsSound : (high : ℕ) {a b : AsyncPool} → AsyncStep a b → IsSound high a → IsSound high b
unfolding on_base poll_async gave_up cancelled release_async metrics_adjust
AsyncStep-IsSound high (begins a) h = based high a (Sync.Steps.begins a.base) h
AsyncStep-IsSound high (polls a start now key event has_event e) h =
    let r = poll a.base start now key true in
    queued-IsSound high a r.1 event has_event r.0 e
      (based high a (Sync.Steps.polls a.base start now key true) h)
AsyncStep-IsSound high (gives_up a event start now) h = record {
  valid = h.valid;
  top = h.top;
  distinct = remove-IsDistinct event a.waiters h.distinct;
}
AsyncStep-IsSound high (cancels a event) h = record {
  valid = h.valid;
  top = h.top;
  distinct = remove-IsDistinct event a.waiters h.distinct;
}
AsyncStep-IsSound high (fails a key e) h = based high a (Sync.Steps.fails a.base key e) h
AsyncStep-IsSound high (creates a key conn start elapsed now e new) h =
    based high a (Sync.Steps.creates a.base key conn start elapsed now e new) h
AsyncStep-IsSound high (releases a conn broken) h =
    let s = based high a (Sync.Steps.releases a.base conn broken) h in
    record {
      valid = s.valid;
      top = s.top;
      distinct = wake-IsDistinct (release a.base conn broken).1 a.waiters h.distinct;
    }
AsyncStep-IsSound high (measures a) h =
    let m =
      adjust-IsSized a.base.sizer (length a.waiters)
        (record { total = sum a.base.recent_waits; number = length a.base.recent_waits })
        h.valid.sized in
    record {
      valid = record {
        sized = m.0;
        apart = h.valid.apart;
        idle = h.valid.idle;
        distinct = h.valid.distinct;
        fits = omega (arith, m.1, h.valid.fits);
      };
      top = m.1 ∙ h.top;
      distinct = h.distinct;
    }

AsyncReach-IsSound : (high : ℕ) {a b : AsyncPool} → IsSound high a → AsyncReach a b → IsSound high b
AsyncReach-IsSound high h here = h
AsyncReach-IsSound high h (next r s) = AsyncStep-IsSound high s (AsyncReach-IsSound high h r)

init-IsSound : (low high timeout : ℕ) → low ≤ high → IsSound high (init low high timeout)
unfolding init Sync.init Sizer.init
init-IsSound low high timeout le = record {
  valid = unfold Sync.init in init-Valid low high timeout le;
  top = refl;
  distinct = tt;
}

-- However tasks interleave, time out and are cancelled, the pool keeps its invariant, holds no more
-- connections, idle, in use and reserved, than `max_conn`; and a task that gave up or was cancelled
-- is no longer among those that a release wakes.
pub async_capacity :
    (low high timeout : ℕ) {a : AsyncPool}
    → low ≤ high
    → AsyncReach (init low high timeout) a
    → Valid a.base
      × (length a.base.available + length a.base.in_use ≤ high)
      × ((event start now : ℕ) → waits event (gave_up a event start now).waiters ≡ false)
      × ((event : ℕ) → waits event (cancelled a event).waiters ≡ false)
unfolding gave_up cancelled
async_capacity low high timeout {a = a} le r =
    let h = AsyncReach-IsSound high (init-IsSound low high timeout le) r in
    (
      h.valid,
      omega (arith, h.valid.fits, h.top),
      λ event start now. remove-gone event a.waiters h.distinct,
      λ event. remove-gone event a.waiters h.distinct,
    )

-- A release of a connection that is in use, broken or not, wakes the task that has waited longest,
-- if any waits, and leaves the others in their order; a release of anything else wakes none.
pub release_async-wakes :
    (a : AsyncPool) (conn : ℕ) (broken : Bool)
    → ((t event : ℕ) (es : List ℕ)
        → find conn a.base.in_use ≡ some (some t)
        → a.waiters ≡ event ∷ es
        → ((release_async a conn broken).0 ≡ some event)
          × ((release_async a conn broken).1.waiters ≡ es))
      × (find conn a.base.in_use ≡ none
          → ((release_async a conn broken).0 ≡ none) × ((release_async a conn broken).1 ≡ a))
unfolding release_async release release_found wake
release_async-wakes a conn broken =
    (λ t event es e w. (ground arith, ground arith), λ e. (ground arith, ground arith))
