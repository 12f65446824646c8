-- ===== src/Tests/Pools.antt =====
-- Runs of core/db/pool.
use salesdata_api.Base.{◌≡◌, ◌∷◌, refl, true, false, ℕ, arith, ◌≤◌, ◌+◌, none, length}
use salesdata_api.Pool.Slots.{find, drop, store}
use salesdata_api.Pool.Sizer.{Sizer, Waits, adjust, under_pressure}
use salesdata_api.Pool.Sizer
use salesdata_api.Pool.Sync.Heap.{pop_least, pop_from, before}
use salesdata_api.Pool.Sync.{
  Pool, init, poll, poll_with, created, release, release_found, record_acquire,
}
use salesdata_api.Pool.Sync.Capacity.{Valid}
use salesdata_api.Pool.Sync.Steps.{capacity, poll-exclusive, Reach, Taken}
use salesdata_api.Pool.Sync.Steps
use salesdata_api.Sql.Chars.{codes, to_lower, is_upper}
use salesdata_api.Pool.Session.{
  raises, end_session, is_prefix, is_in, any_in, is_connection_level_error,
}
use salesdata_api.Pool.Session.Ends.{IsSignalled, end_session_lem}
use salesdata_api.Pool.Async.{AsyncPool}
use salesdata_api.Pool.Async
use salesdata_api.Pool.Async.Events.{waits}
use salesdata_api.Pool.Async.Waiters.{async_capacity, AsyncReach, here, next, polls, creates}

pools : Unit {0}
unfolding find drop store pop_least pop_from before poll poll_with created release release_found
    record_acquire init Sizer.init
pools = tt

asyncs : Unit {0}
unfolding Async.init Async.on_base Async.poll_async Async.queued Async.release_async Async.wake
asyncs = tt

abbrev empty : Pool
empty = init 1 2 500

-- a slot is reserved under 7, connection 40 is created in it, and comes back
abbrev reserving : Pool
reserving = (poll empty 0 1 7 false).1

abbrev lent : Pool
lent = created reserving 7 40 0 3 5

abbrev returned : Pool
returned = (release lent 40 false).0

created_from : Reach empty lent
unfolding pools
created_from =
    Steps.next (Steps.next Steps.here (Steps.polls empty 0 1 7 false))
      (Steps.creates reserving 7 40 0 3 5 refl tt)

capacity_example : Valid returned × (length returned.available + length returned.in_use ≤ 2)
capacity_example =
    capacity 1 2 500 {q = returned} (omega arith)
      (Steps.next created_from (Steps.releases lent 40 false))

poll-exclusive_example : Taken returned (poll returned 8 9 7 false).1 8 9 7 40 false
poll-exclusive_example =
    poll-exclusive 1 2 500 8 9 7 false 40 returned (poll returned 8 9 7 false).1 (omega arith)
      (Steps.next created_from (Steps.releases lent 40 false)) (unfold pools in refl)

abbrev three : Sizer
three = record { min = 1; max = 4; current = 3; idle_streak = 0 }

abbrev slow : Waits
slow = record { total = 20000; number = 2 }

-- the one connection of a pool is lent; two tasks wait, and the first gives up
abbrev one : AsyncPool
one = Async.init 1 1 500

abbrev held : AsyncPool
held = Async.on_base (λ p. created p 7 40 0 3 5) (Async.poll_async one 0 1 7 90 false).1

abbrev waiting : AsyncPool
waiting = (Async.poll_async (Async.poll_async held 6 6 8 91 false).1 6 7 8 92 false).1

waiting_from : AsyncReach one waiting
unfolding pools asyncs
waiting_from =
    next
      (next
        (next (next here (polls one 0 1 7 90 false refl))
          (creates (Async.poll_async one 0 1 7 90 false).1 7 40 0 3 5 refl tt))
        (polls held 6 6 8 91 false refl))
      (polls (Async.poll_async held 6 6 8 91 false).1 6 7 8 92 false refl)

async_capacity_example :
    Valid waiting.base
    × (length waiting.base.available + length waiting.base.in_use ≤ 1)
    × ((event start now : ℕ) → waits event (Async.gave_up waiting event start now).waiters ≡ false)
    × ((event : ℕ) → waits event (Async.cancelled waiting event).waiters ≡ false)
async_capacity_example = async_capacity 1 1 500 {a = waiting} (omega arith) waiting_from

reset_error : is_connection_level_error (codes "OSError: Connection reset by peer") ≡ true
unfolding is_connection_level_error any_in is_in is_prefix to_lower is_upper
reset_error = refl

end_session_lem_example :
    let (q, notified) = end_session lent 40 (raises (codes "BinderException: no column")) true in
    (notified ≡ true)
    × (find 40 q.in_use ≡ none)
    × (IsSignalled (raises (codes "BinderException: no column"))
        → (q.available ≡ lent.available) × (q.broken_evicted ≡ lent.broken_evicted + 1))
    × (¬ IsSignalled (raises (codes "BinderException: no column"))
        → (q.available
            ≡ record { created_at = 5; counter = lent.counter; conn = 40 } ∷ lent.available)
          × (q.broken_evicted ≡ lent.broken_evicted))
end_session_lem_example =
    end_session_lem lent 40 5 (raises (codes "BinderException: no column")) true
      (unfold pools in refl)
