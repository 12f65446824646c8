-- ===== src/Query/Service/Cached.antt =====
-- A query that is repeated.
use salesdata_api.Base.{◌≡◌, List, none, some, Bool, true, false, ℕ, ◌⊎◌, inr, ap, ◌∙◌}
use salesdata_api.Base.Dict.{lookup}
use salesdata_api.Cache.Entry.{new_entry, is_expired}
use salesdata_api.Cache.Hybrid
use salesdata_api.Sql.Policy.{read, classify_operation}
use salesdata_api.Query.Limits.{apply_result_limits}
use salesdata_api.Query.ResultCache.{Codec, generate_cache_key, get_cached_result}
use salesdata_api.Query.Coordinator.Invalidation.{l1_get}
use salesdata_api.Query.Coordinator.Lookup.Answers.{get_or_execute-hit, get_or_execute-miss}
use salesdata_api.Query.Service.{
  World, Request, Settings, Failure, outcome, run, read_through, respond, call_of, execute_gated,
}

module _ {ℓ κ μ} {Value : Type ℓ} {Params : Type κ} {D : Type μ} (codec : Codec Value Params)
    (row_bytes : Value → ℕ) (execute : ℕ → List ℕ → Params → D → D × (Failure ⊎ List Value))
    (settings : Settings) (up : Bool) where
  run_read :
      (w : World Value Params D) (r : Request Params)
      → classify_operation r.sql ≡ read
      → run codec row_bytes execute settings up w r
        ≡ read_through codec row_bytes execute settings up w r
  unfolding run
  run_read w r is_read = rw (is_read)

  read-hit :
      (w : World Value Params D) (r : Request Params) (rows : List Value)
      → classify_operation r.sql ≡ read
      → l1_get w.coordinator.l1 (generate_cache_key codec r.sql r.params) r.now ≡ some rows
      → ((run codec row_bytes execute settings up w r).1
          ≡ outcome (record {
            data_ = (apply_result_limits row_bytes settings.limits rows).0;
            is_cached = true;
            truncated = (apply_result_limits row_bytes settings.limits rows).1;
          }))
        × ((run codec row_bytes execute settings up w r).0.warehouse ≡ w.warehouse)
  unfolding read_through respond
  read-hit w r rows is_read found =
      let (answers, leaves) =
        get_or_execute-hit codec up w.table w.coordinator w.warehouse
          (call_of codec row_bytes execute settings up r) rows found in
      (rw (run_read w r is_read, answers, respond), rw (run_read w r is_read, leaves))

  -- A query that the caches do not answer and no call leads for is answered with the warehouse's
  -- rows, cut to the limits. If the same statement with the same parameters is sent again before
  -- the time-to-live of L1 has passed, by whatever caller, it is answered with the same rows
  -- without touching the warehouse, whatever the warehouse would answer then.
  pub run-repeated_read :
      (w : World Value Params D) (r again : Request Params) (d : D) (rows : List Value)
      → classify_operation r.sql ≡ read
      → Hybrid.Laws.IsValid w.coordinator.l1
      → l1_get w.coordinator.l1 (generate_cache_key codec r.sql r.params) r.now ≡ none
      → lookup (generate_cache_key codec r.sql r.params) w.coordinator.inflight ≡ none
      → get_cached_result up w.table (generate_cache_key codec r.sql r.params) r.now ≡ none
      → execute settings.limits.max_query_duration r.sql r.params w.warehouse ≡ (d, inr rows)
      → again.sql ≡ r.sql
      → again.params ≡ r.params
      → is_expired (new_entry (some rows) (some w.coordinator.l1_ttl_seconds) r.done) again.now
        ≡ false
      → ((run codec row_bytes execute settings up w r).1
          ≡ outcome (record {
            data_ = (apply_result_limits row_bytes settings.limits rows).0;
            is_cached = false;
            truncated = (apply_result_limits row_bytes settings.limits rows).1;
          }))
        × ((run codec row_bytes execute settings up w r).0.warehouse ≡ d)
        × ((run codec row_bytes execute settings up
              (run codec row_bytes execute settings up w r).0
              again).1
            ≡ outcome (record {
              data_ = (apply_result_limits row_bytes settings.limits rows).0;
              is_cached = true;
              truncated = (apply_result_limits row_bytes settings.limits rows).1;
            }))
        × ((run codec row_bytes execute settings up
              (run codec row_bytes execute settings up w r).0
              again).0.warehouse
            ≡ d)
  unfolding read_through respond execute_gated
  run-repeated_read w r again d rows is_read valid cold idle l2_cold ran same_sql same_params live =
      let key = generate_cache_key codec r.sql r.params in
      let (answers, leaves, reads) =
        get_or_execute-miss codec up w.table w.coordinator w.warehouse
          (call_of codec row_bytes execute settings up r) rows valid cold idle l2_cold
          (ap (λ (x : D × (Failure ⊎ List Value)). x.1) ran) in
      let w' = (read_through codec row_bytes execute settings up w r).0 in
      let (answers', leaves') =
        read-hit w' again rows (rw (same_sql) is_read)
          (rw (same_sql, same_params) (reads again.now ∙ (rw (live)))) in
      let first = run_read w r is_read in
      let left = leaves ∙ ap (λ (x : D × (Failure ⊎ List Value)). x.0) ran in
      (
        rw (first, answers, respond),
        rw (first) left,
        rw (first) answers',
        rw (first) (leaves' ∙ left),
      )
