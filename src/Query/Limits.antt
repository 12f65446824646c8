-- ===== src/Query/Limits.antt =====
-- core/services/query_limits.py, and `_apply_result_limits` of core/services/query_service.py. The
-- length of a row's JSON text is a parameter.
pub mod Prefix
use salesdata_api.Base.{
  ℕ, zero, suc, ◌+◌, ◌-◌, List, [], ◌∷◌, Option, none, some, Bool, true, false, ltb, leb, length,
  take, if◌then◌else◌,
}
use salesdata_api.Sql.Policy.{Cost, fast, normal, expensive}

pub record Limits : Type 0 where
  pub max_result_rows : ℕ
  pub max_result_bytes : ℕ
  pub max_query_duration : ℕ

abbrev pub or_else {ℓ} : {A : Type ℓ} → Option A → A → A
or_else none a = a
or_else (some b) a = b

-- the semaphore of a class of cost: its capacity, and the permits that remain
pub record Gate : Type 0 where
  pub capacity : ℕ
  pub remaining : ℕ

pub record Gates : Type 0 where
  pub limits : Limits
  pub fast_gate : Gate
  pub normal_gate : Gate
  pub expensive_gate : Gate

abbrev pub gate_of : Option ℕ → Gate → Gate
gate_of none g = g
gate_of (some n) g = record { capacity = n; remaining = n }

unfoldable pub configure_query_limits :
    Gates → Option ℕ → Option ℕ → Option ℕ → Option ℕ → Option ℕ → Option ℕ → Gates
configure_query_limits g rows bytes duration fast_n normal_n expensive_n = record {
  limits = record {
    max_result_rows = or_else rows g.limits.max_result_rows;
    max_result_bytes = or_else bytes g.limits.max_result_bytes;
    max_query_duration = or_else duration g.limits.max_query_duration;
  };
  fast_gate = gate_of fast_n g.fast_gate;
  normal_gate = gate_of normal_n g.normal_gate;
  expensive_gate = gate_of expensive_n g.expensive_gate;
}

unfoldable pub semaphore_for : Gates → Cost → Gate
semaphore_for g fast = g.fast_gate
semaphore_for g normal = g.normal_gate
semaphore_for g expensive = g.expensive_gate

-- `limit` and `in_use` of `query_concurrency_metrics`
unfoldable pub concurrency_metrics : Gate → ℕ × ℕ
concurrency_metrics g = (g.capacity, g.capacity - g.remaining)

module _ {ℓ} {Row : Type ℓ} (row_bytes : Row → ℕ) where
  -- the loop over the rows, with the bytes so far; whether it stopped early
  unfoldable pub fill : ℕ → ℕ → List Row → List Row × Bool
  fill max total [] = ([], false)
  fill max total (row ∷ rows) =
      let (out, cut) = fill max (total + row_bytes row) rows in
      if ltb max (total + row_bytes row) then ([], true) else (row ∷ out, cut)

  unfoldable pub apply_result_limits : Limits → List Row → List Row × Bool
  unfolding fill
  apply_result_limits limits rows =
      if leb (length rows) limits.max_result_rows
      then fill limits.max_result_bytes 0 rows
      else ((fill limits.max_result_bytes 0 (take limits.max_result_rows rows)).0, true)
