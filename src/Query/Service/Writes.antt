-- ===== src/Query/Service/Writes.antt =====
-- A statement that writes: who may run it, and what the caches answer after it.
use salesdata_api.Base.{
  ◌≡◌, refl, String, List, [], none, Bool, true, false, not, ◌&&◌, ℕ, ◌⊎◌, inl, inr, Bool-cases, ap,
  ◌∙◌,
}
use salesdata_api.Sql.Chars.{codes}
use salesdata_api.Sql.Regex.Words.{HasWord}
use salesdata_api.Sql.Policy.{
  Operation, read, write, classify_operation, extract_tables, has_scope, member, first_keyword,
  write_words,
}
use salesdata_api.Sql.Policy.Writes.{classify-read_iff}
use salesdata_api.Query.ResultCache.{Codec, Row}
use salesdata_api.Query.Coordinator.{Coordinator, clear_all, invalidate_tables}
use salesdata_api.Query.Coordinator.Invalidation.{
  l1_get, IsTagged, invalidate_tables-get, clear_all-empties,
}
use salesdata_api.Query.Service.{
  World, Request, Settings, Failure, outcome, authorization_error, run, written, execute_gated,
  invalidate_after_write, invalidated,
}

operation_cases : (o : Operation) → (o ≡ read) ⊎ (o ≡ write)
operation_cases read = inl refl
operation_cases write = inr refl

module _ {ℓ κ μ} {Value : Type ℓ} {Params : Type κ} {D : Type μ} (codec : Codec Value Params)
    (row_bytes : Value → ℕ) (execute : ℕ → List ℕ → Params → D → D × (Failure ⊎ List Value))
    (settings : Settings) (up : Bool) where
  -- Where write scopes are required, a caller without the scope "write" who sends a statement that
  -- begins neither with SELECT nor with WITH, or that begins with WITH and has one of the write
  -- keywords in it, is refused, and neither the warehouse nor a cache is touched.
  pub run-unauthorized :
      (w : World Value Params D) (r : Request Params)
      → settings.require_write_scope ≡ true
      → has_scope r.scopes (codes "write") ≡ false
      → ¬ (
          (first_keyword r.sql ≡ codes "SELECT")
          ⊎ ((first_keyword r.sql ≡ codes "WITH") × ¬ HasWord write_words r.sql))
      → run codec row_bytes execute settings up w r ≡ (w, authorization_error)
  unfolding run
  run-unauthorized w r required missing unread = elim (operation_cases (classify_operation r.sql)) [
    | inl is_read ↦ absurd (unread ((classify-read_iff r.sql).0 is_read))
    | inr is_write' ↦ rw (is_write', required, missing) refl
  ]

  clear-get :
      (c : Coordinator Value) (table : List Row) (key : String) (now : ℕ)
      → l1_get (clear_all up c table).0.l1 key now ≡ none
  unfolding clear_all
  clear-get c table key now = (clear_all-empties c table key [] now).0

  invalidated-get :
      (w : World Value Params D) (p : Coordinator Value × List Row × Bool) (key : String) (now : ℕ)
      → l1_get p.0.l1 key now ≡ none
      → l1_get (invalidated codec row_bytes execute settings up w p).coordinator.l1 key now ≡ none
  invalidated-get w (c, table, true) key now h = h
  invalidated-get w (c, table, false) key now h = clear-get c table key now

  after_write-get :
      (w : World Value Params D) (sql u : List ℕ) (key : String) (now : ℕ)
      → member u (extract_tables sql) ≡ true
      → IsTagged w.coordinator u key
      → l1_get
          (invalidate_after_write codec row_bytes execute settings up w sql).coordinator.l1
          key
          now
        ≡ none
  unfolding invalidate_after_write
  after_write-get w sql u key now among tagged =
      elim (Bool-cases settings.precise_cache_invalidation) [
        | inl precise ↦ rw (precise) (
            invalidated-get w
              (invalidate_tables codec up w.coordinator w.table (extract_tables sql)) key now
              ((invalidate_tables-get codec up w.coordinator w.table (extract_tables sql) key now).0
                u among tagged))
        | inr whole ↦ rw (whole) (clear-get w.coordinator w.table key now)
      ]

  whole-get :
      (w : World Value Params D) (sql : List ℕ) (key : String) (now : ℕ)
      → settings.precise_cache_invalidation ≡ false
      → l1_get
          (invalidate_after_write codec row_bytes execute settings up w sql).coordinator.l1
          key
          now
        ≡ none
  unfolding invalidate_after_write
  whole-get w sql key now whole = rw (whole) (clear-get w.coordinator w.table key now)

  run-written :
      (w : World Value Params D) (r : Request Params)
      → classify_operation r.sql ≡ write
      → settings.require_write_scope && not (has_scope r.scopes (codes "write")) ≡ false
      → run codec row_bytes execute settings up w r
        ≡ written codec row_bytes execute settings up w r.sql
            (execute_gated codec row_bytes execute settings up r w.warehouse)
  unfolding run
  run-written w r is_write' granted = rw (is_write', granted) refl

  -- A write that its caller may run and that the warehouse carries out answers the warehouse's rows.
  -- After it, at any time, L1 has no answer for a key that is tagged with a table that the
  -- statement names; and none for any key, if precise invalidation is off.
  pub run-write_invalidates :
      (w : World Value Params D) (r : Request Params) (d : D) (rows : List Value)
      → classify_operation r.sql ≡ write
      → settings.require_write_scope && not (has_scope r.scopes (codes "write")) ≡ false
      → execute settings.limits.max_query_duration r.sql r.params w.warehouse ≡ (d, inr rows)
      → ((run codec row_bytes execute settings up w r).1
          ≡ outcome (record { data_ = rows; is_cached = false; truncated = false }))
        × ((key : String) (u : List ℕ) (later : ℕ)
            → member u (extract_tables r.sql) ≡ true
            → IsTagged w.coordinator u key
            → l1_get (run codec row_bytes execute settings up w r).0.coordinator.l1 key later
              ≡ none)
        × (settings.precise_cache_invalidation ≡ false
            → (key : String) (later : ℕ)
            → l1_get (run codec row_bytes execute settings up w r).0.coordinator.l1 key later
              ≡ none)
  unfolding written execute_gated
  run-write_invalidates w r d rows is_write' granted ran =
      let w' = record w { warehouse = d } in
      let e =
        run-written w r is_write' granted
        ∙ ap (written codec row_bytes execute settings up w r.sql) ran in
      (
        rw (e, written),
        λ key u later among tagged.
            rw (e, written) (after_write-get w' r.sql u key later among tagged),
        λ whole key later. rw (e, written) (whole-get w' r.sql key later whole),
      )
