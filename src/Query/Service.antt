-- ===== src/Query/Service.antt =====
-- `QueryService` of core/services/query_service.py. The session of the warehouse is a parameter:
-- `execute` is given the seconds that a statement may take, and leaves the rows, the time-out, or
-- another exception. The semaphore of the cost is held for the execution and given back, so a
-- request that runs by itself finds and leaves it as it was; Limits has its capacity.
pub mod Writes
pub mod Cached
use salesdata_api.Base.{
  ℕ, String, List, [], ◌∷◌, ◌++◌, map, Option, none, some, Bool, true, false, not, ◌&&◌,
  if◌then◌else◌, ◌⊎◌, inl, inr,
}
use salesdata_api.Sql.Chars.{codes}
use salesdata_api.Sql.Policy.{
  Operation, read, write, Cost, classify_operation, classify_cost, extract_tables, has_scope,
}
use salesdata_api.Query.Limits.{Limits, apply_result_limits}
use salesdata_api.Query.ResultCache.{Codec, Row, generate_cache_key}
use salesdata_api.Query.ResultCache
use salesdata_api.Query.Coordinator.{
  Coordinator, LookupResult, cached, Job, access, persist, invalidate_tables, clear_all, persist_l2,
}
use salesdata_api.Query.Coordinator.Lookup.{
  Result, ok, error, cache_error, awaits, Call, After, get_or_execute,
}
use salesdata_api.Query.Coordinator.Lookup

-- why a statement gave no rows
pub data Failure : Type 0 where
  query_timeout failed : Failure

pub record QueryOutcome {ℓ} (Value : Type ℓ) : Type ℓ where
  pub data_ : List Value
  pub is_cached : Bool
  pub truncated : Bool

pub data Response {ℓ} (Value : Type ℓ) : Type ℓ where
  outcome : QueryOutcome Value → Response Value
  authorization_error : Response Value
  raised : Failure → Response Value
  cache_failed : Response Value
  follows : ℕ → Response Value

-- the flags of the constructor, and the limits in force
pub record Settings : Type 0 where
  pub require_write_scope : Bool
  pub precise_cache_invalidation : Bool
  pub limits : Limits

-- a job that waits for the background executor
pub data Pending {ℓ κ} (Value : Type ℓ) (Params : Type κ) : Type (ℓ ⊔ κ) where
  record_access : String → Pending Value Params
  persist_result : List ℕ → List Value → Params → List ℕ → Pending Value Params

pub record World {ℓ κ μ} (Value : Type ℓ) (Params : Type κ) (D : Type μ) : Type (ℓ ⊔ κ ⊔ μ) where
  pub coordinator : Coordinator Value
  pub table : List Row
  pub warehouse : D
  pub pending : List (Pending Value Params)

pub record Request {κ} (Params : Type κ) : Type κ where
  pub sql : List ℕ
  pub params : Params
  pub user_id : Option (List ℕ)
  pub scopes : Option (List ℕ)
  pub now : ℕ
  pub done : ℕ

abbrev pub is_write : Operation → Bool
is_write read = false
is_write write = true

-- `user_id or ""`
abbrev pub or_empty : Option (List ℕ) → List ℕ
or_empty none = []
or_empty (some u) = u

module _ {ℓ κ μ} {Value : Type ℓ} {Params : Type κ} {D : Type μ} (codec : Codec Value Params)
    (row_bytes : Value → ℕ) (execute : ℕ → List ℕ → Params → D → D × (Failure ⊎ List Value))
    (settings : Settings) (up : Bool) where
  unfoldable pub execute_gated : Request Params → D → D × (Failure ⊎ List Value)
  execute_gated r d = execute settings.limits.max_query_duration r.sql r.params d

  abbrev pub invalidated :
      World Value Params D → Coordinator Value × List Row × Bool → World Value Params D
  invalidated w (c, table, true) = record w { coordinator = c; table = table }
  invalidated w (c, table, false) =
      let (c', table') = clear_all up c table in record w { coordinator = c'; table = table' }

  unfoldable pub invalidate_after_write : World Value Params D → List ℕ → World Value Params D
  unfolding extract_tables invalidate_tables clear_all
  invalidate_after_write w sql =
      if settings.precise_cache_invalidation
      then invalidated w (invalidate_tables codec up w.coordinator w.table (extract_tables sql))
      else invalidated w (w.coordinator, w.table, false)

  unfoldable pub written :
      World Value Params D
      → List ℕ
      → D × (Failure ⊎ List Value)
      → World Value Params D × Response Value
  unfolding invalidate_after_write
  written w sql (d, inl e) = (record w { warehouse = d }, raised e)
  written w sql (d, inr rows) = (
    invalidate_after_write (record w { warehouse = d }) sql,
    outcome (record { data_ = rows; is_cached = false; truncated = false }),
  )

  abbrev pub pending_job : Request Params → Job Value → Pending Value Params
  pending_job r (access key) = record_access key
  pending_job r (persist rows) = persist_result r.sql rows r.params (or_empty r.user_id)

  unfoldable pub respond : Result Failure (LookupResult Value) → Response Value
  unfolding apply_result_limits
  respond (ok found) =
      let (rows, cut) = apply_result_limits row_bytes settings.limits found.data_ in
      outcome (record { data_ = rows; is_cached = cached found.source; truncated = cut })
  respond (error e) = raised e
  respond cache_error = cache_failed
  respond (awaits fut) = follows fut

  abbrev pub call_of : Request Params → Call Value D Failure
  call_of r = record {
    key = generate_cache_key codec r.sql r.params;
    run_query = execute_gated r;
    on_miss_persist = true;
    tables = extract_tables r.sql;
    now = r.now;
    done = r.done;
  }

  unfoldable pub read_through :
      World Value Params D → Request Params → World Value Params D × Response Value
  unfolding respond get_or_execute generate_cache_key execute_gated extract_tables
  read_through w r =
      let after = get_or_execute codec up w.table w.coordinator w.warehouse (call_of r) in
      (
        record w {
          coordinator = after.coordinator;
          warehouse = after.warehouse;
          pending = w.pending ++ map (pending_job r) after.jobs;
        },
        respond after.result,
      )

  unfoldable pub run : World Value Params D → Request Params → World Value Params D × Response Value
  unfolding classify_operation has_scope written execute_gated read_through
  run w r =
      let operation = classify_operation r.sql in
      if is_write operation
        && (settings.require_write_scope && not (has_scope r.scopes (codes "write")))
      then (w, authorization_error)
      else if is_write operation
      then written w r.sql (execute_gated r w.warehouse)
      else read_through w r

  -- a job that the background executor runs
  unfoldable pub run_job : List Row → Pending Value Params → ℕ → List Row
  unfolding persist_l2
  run_job table (record_access key) now = ResultCache.record_access up table key now
  run_job table (persist_result sql rows params user) now =
      persist_l2 codec up table sql rows params user now
