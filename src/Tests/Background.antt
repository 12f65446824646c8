-- ===== src/Tests/Background.antt =====
-- Runs of core/concurrency/cpu.py and core/caching/persistence_queue.py.
use salesdata_api.Base.{◌+◌, ◌≤◌, ◌<◌, ◌≡◌, refl, [], ◌∷◌, some, arith, length}
use salesdata_api.Concurrency.Cpu.{
  unreadable, limit, cgroup_v1_quota, cgroup_cpu_quota, lower_count, detect_cpu_count,
  recommended_sizing,
}
use salesdata_api.Query.Persistence.{
  Persistence, init, start, submit, is_full, take_job, returned, end_job, stop_workers,
}
use salesdata_api.Query.Persistence.Conservation.{
  persistence_conserved, Reach, here, next, starts, submits, takes, ends, cancels, first,
}

background : Unit {0}
unfolding cgroup_v1_quota cgroup_cpu_quota lower_count detect_cpu_count recommended_sizing init
    start submit is_full take_job end_job stop_workers
background = tt

two_of_eight : detect_cpu_count (some 8) (limit 250000 100000) unreadable (some 32) ≡ 2
unfolding background
two_of_eight = refl

-- a queue for two jobs with one worker: the first job returns, the second is cancelled, and the
-- third waits
abbrev opened : Persistence
opened = start (init 2 1)

abbrev filled : Persistence
filled = (submit (submit opened 10).0 11).0

abbrev working : Persistence
working = record filled { queue = 11 ∷ []; running = 10 ∷ [] }

abbrev one_done : Persistence
one_done = (submit (end_job working 10 [] returned 15) 16).0

abbrev busy : Persistence
busy = record one_done { queue = 16 ∷ []; running = 11 ∷ [] }

shut_down : Reach (init 2 1) 1 (stop_workers busy 20)
unfolding background
shut_down =
    next
      (next
        (next
          (next
            (next
              (next (next (next here (starts (init 2 1))) (submits opened 10))
                (submits (submit opened 10).0 11))
              (takes filled working refl))
            (ends working 10 [] returned 15 first))
          (submits (end_job working 10 [] returned 15) 16))
        (takes one_done busy refl))
      (cancels busy 20 (omega arith))

persistence_conserved_example :
    ((stop_workers busy 20).enqueued
      ≡ (stop_workers busy 20).completed
        + (stop_workers busy 20).failed
        + length (stop_workers busy 20).queue
        + length (stop_workers busy 20).running
        + 1)
    × (0 < 2 → length (stop_workers busy 20).queue ≤ 2)
persistence_conserved_example =
    persistence_conserved 2 1 {n = 1} {q = stop_workers busy 20} shut_down
