-- ===== src/Concurrency/Cpu.antt =====
-- core/concurrency/cpu.py: the processors that the process may use, and the sizes that follow. What
-- the system says is an argument: the length of the affinity set (`none` where there is no such call
-- or it raises), what the files of the two versions of cgroups hold, and `os.cpu_count()`.
pub mod Bounds
use salesdata_api.Base.{
  ℕ, zero, suc, ◌+◌, ◌*◌, ◌/◌, Option, none, some, Bool, max, min, ltb, if◌then◌else◌,
}

-- a limit as a file states it: it cannot be read, it sets no limit ("max", or a quota that is not
-- positive), or a quota and a period
pub data CpuLimit : Type 0 where
  unreadable : CpuLimit
  unlimited : CpuLimit
  limit : ℕ → ℕ → CpuLimit

-- `max(1, int(quota / period))`, for a period that is not 0
abbrev pub whole_cpus : ℕ → ℕ → ℕ
whole_cpus quota period = max 1 (quota / period)

unfoldable pub cgroup_v1_quota : CpuLimit → Option ℕ
cgroup_v1_quota unreadable = none
cgroup_v1_quota unlimited = none
cgroup_v1_quota (limit quota period) = if ltb 0 quota then some (whole_cpus quota period) else none

-- the second version first, then the first
unfoldable pub cgroup_cpu_quota : CpuLimit → CpuLimit → Option ℕ
unfolding cgroup_v1_quota
cgroup_cpu_quota unreadable v1 = cgroup_v1_quota v1
cgroup_cpu_quota unlimited v1 = cgroup_v1_quota v1
cgroup_cpu_quota (limit quota period) v1 = some (whole_cpus quota period)

-- the lower of the affinity and the quota
unfoldable pub lower_count : Option ℕ → Option ℕ → Option ℕ
lower_count count none = count
lower_count none (some quota) = some quota
lower_count (some count) (some quota) = some (min count quota)

-- `count or 1`
abbrev pub or_one : Option ℕ → ℕ
or_one none = 1
or_one (some zero) = 1
or_one (some (suc n)) = suc n

abbrev pub or_host : Option ℕ → Option ℕ → Option ℕ
or_host none host = host
or_host (some count) host = some count

unfoldable pub detect_cpu_count : Option ℕ → CpuLimit → CpuLimit → Option ℕ → ℕ
unfolding cgroup_cpu_quota lower_count
detect_cpu_count affinity v2 v1 host =
    max 1 (or_one (or_host (lower_count affinity (cgroup_cpu_quota v2 v1)) host))

pub record ConcurrencySizing : Type 0 where
  pub cpu_count : ℕ
  pub db_pool_min : ℕ
  pub db_pool_max : ℕ
  pub service_pool_min : ℕ
  pub service_pool_max : ℕ
  pub db_executor_workers : ℕ
  pub service_executor_workers : ℕ
  pub background_executor_workers : ℕ
  pub fast_query_concurrency : ℕ
  pub normal_query_concurrency : ℕ
  pub expensive_query_concurrency : ℕ

-- `recommended_sizing` of a number of processors, given or detected
unfoldable pub recommended_sizing : ℕ → ConcurrencySizing
recommended_sizing n = record {
  cpu_count = n;
  db_pool_min = max 2 (n / 2);
  db_pool_max = max 4 n;
  service_pool_min = max 2 (n / 2);
  service_pool_max = max 4 (n * 2);
  db_executor_workers = max 4 n + 2;
  service_executor_workers = max 4 (n * 2) + 2;
  background_executor_workers = max 2 n;
  fast_query_concurrency = max 20 (n * 25);
  normal_query_concurrency = max 8 (n * 10);
  expensive_query_concurrency = max 2 n;
}
