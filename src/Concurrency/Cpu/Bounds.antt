-- ===== src/Concurrency/Cpu/Bounds.antt =====
-- The processors that core/concurrency/cpu.py finds, and how its sizes fit each other.
use salesdata_api.Base.{ℕ, zero, suc, ◌+◌, ◌/◌, ◌≤◌, ◌≡◌, Option, none, some, max, min, arith, refl}
use salesdata_api.Concurrency.Cpu.{
  CpuLimit, limit, cgroup_cpu_quota, lower_count, or_one, or_host, whole_cpus, detect_cpu_count,
  recommended_sizing,
}

or_one_lem : (n : ℕ) → or_one (some n) ≡ max 1 n
or_one_lem zero = omega arith
or_one_lem (suc n) = omega arith

lower-affinity :
    (a : ℕ) (quota host : Option ℕ) → or_one (or_host (lower_count (some a) quota) host) ≤ max 1 a
unfolding lower_count
lower-affinity a none host = omega (arith, or_one_lem a)
lower-affinity a (some q) host = omega (arith, or_one_lem (min a q))

lower-quota :
    (affinity host : Option ℕ) (q : ℕ)
    → or_one (or_host (lower_count affinity (some q)) host) ≤ max 1 q
unfolding lower_count
lower-quota none host q = omega (arith, or_one_lem q)
lower-quota (some a) host q = omega (arith, or_one_lem (min a q))

-- The processors that are found are at least one, at most those of the affinity set and at most
-- the whole processors of the second version's quota, neither of which counts for less than one;
-- and where neither an affinity set nor a quota is known, they are those of the host.
pub detect_cpu_count-bounds :
    (affinity : Option ℕ) (v2 v1 : CpuLimit) (host : Option ℕ)
    → (1 ≤ detect_cpu_count affinity v2 v1 host)
      × ((a : ℕ) → affinity ≡ some a → detect_cpu_count affinity v2 v1 host ≤ max 1 a)
      × ((quota period : ℕ)
          → v2 ≡ limit quota period
          → detect_cpu_count affinity v2 v1 host ≤ max 1 (quota / period))
      × ((n : ℕ)
          → affinity ≡ none
          → cgroup_cpu_quota v2 v1 ≡ none
          → host ≡ some n
          → detect_cpu_count affinity v2 v1 host ≡ max 1 n)
unfolding detect_cpu_count cgroup_cpu_quota lower_count
detect_cpu_count-bounds affinity v2 v1 host = (
  omega arith,
  λ a e. rw (e) (omega (arith, lower-affinity a (cgroup_cpu_quota v2 v1) host)),
  λ quota period e. rw (e) (omega (arith, lower-quota affinity host (whole_cpus quota period))),
  λ n no_set no_quota e. rw (no_set, no_quota, e) (omega (arith, or_one_lem n)),
)

-- For every number of processors each pool's least size is at most its greatest, each executor has
-- two threads more than its pool has connections, background work has no more threads than the
-- warehouse's pool has connections, a dearer class of queries admits no more than a cheaper one, and
-- the warehouse's pool and the dearest class have at least two; and with more processors the
-- warehouse's pool and the cheapest class are no smaller.
pub recommended_sizing-fits :
    (n m : ℕ)
    → (recommended_sizing n).db_pool_min ≤ (recommended_sizing n).db_pool_max
      × ((recommended_sizing n).service_pool_min ≤ (recommended_sizing n).service_pool_max)
      × ((recommended_sizing n).db_executor_workers ≡ (recommended_sizing n).db_pool_max + 2)
      × ((recommended_sizing n).service_executor_workers
          ≡ (recommended_sizing n).service_pool_max + 2)
      × ((recommended_sizing n).background_executor_workers ≤ (recommended_sizing n).db_pool_max)
      × ((recommended_sizing n).expensive_query_concurrency
          ≤ (recommended_sizing n).normal_query_concurrency)
      × ((recommended_sizing n).normal_query_concurrency
          ≤ (recommended_sizing n).fast_query_concurrency)
      × (2 ≤ (recommended_sizing n).db_pool_min)
      × (2 ≤ (recommended_sizing n).expensive_query_concurrency)
      × (n ≤ m
          → ((recommended_sizing n).db_pool_max ≤ (recommended_sizing m).db_pool_max)
            × ((recommended_sizing n).db_pool_min ≤ (recommended_sizing m).db_pool_min)
            × ((recommended_sizing n).fast_query_concurrency
                ≤ (recommended_sizing m).fast_query_concurrency))
unfolding recommended_sizing
recommended_sizing-fits n m = (
  omega arith,
  omega arith,
  refl,
  refl,
  omega arith,
  omega arith,
  omega arith,
  omega arith,
  omega arith,
  λ le. (omega arith, omega arith, omega arith),
)
