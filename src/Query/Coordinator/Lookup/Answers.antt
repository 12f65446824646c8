-- ===== src/Query/Coordinator/Lookup/Answers.antt =====
-- What a call of `get_or_execute` answers, and what it leaves in L1.
use salesdata_api.Base.{◌≡◌, String, List, none, some, Bool, ℕ, arith, ap, ◌⊎◌, inr, if◌then◌else◌}
use salesdata_api.Base.Dict.{lookup}
use salesdata_api.Cache.Entry.{new_entry, is_expired}
use salesdata_api.Cache.Hybrid.{Hybrid}
use salesdata_api.Cache.Hybrid
use salesdata_api.Query.ResultCache.{Codec, Row, get_cached_result}
use salesdata_api.Query.Coordinator.{
  Coordinator, l1, miss, lead, arrive, missed, join, settle, keep,
}
use salesdata_api.Query.Coordinator.Invalidation.{l1_get, keep-l1}
use salesdata_api.Query.Coordinator.Lookup.{
  Call, ok, get_or_execute, arrived, settled, resolve, resolved, executed, answer,
}

module _ {ℓ} {Value : Type ℓ} where
  -- the coordinator with which the lead of a call begins
  abbrev led : Coordinator Value → String → ℕ → Coordinator Value
  led c key now = (join (record c { l1 = (Hybrid.get c.l1 key now).0 }) key none).0

  arrive-lead :
      (c : Coordinator Value) (key : String) (now : ℕ)
      → l1_get c.l1 key now ≡ none
      → lookup key c.inflight ≡ none
      → arrive c key now ≡ (led c key now, lead c.next_future)
  unfolding arrive missed join
  arrive-lead c key now cold idle = rw (cold, missed, idle)

  settle-l1 : (c : Coordinator Value) (key : String) (fut : ℕ) → (settle c key fut).l1 ≡ c.l1
  unfolding settle
  settle-l1 c key fut = ground arith

module _ {ℓ κ μ ν} {Value : Type ℓ} {Params : Type κ} {D : Type μ} {E : Type ν}
    (codec : Codec Value Params) (up : Bool) (table : List Row) where
  -- A key that L1 answers is answered from there: the warehouse is left as it was.
  pub get_or_execute-hit :
      (c : Coordinator Value) (d : D) (call : Call Value D E) (rows : List Value)
      → l1_get c.l1 call.key call.now ≡ some rows
      → ((get_or_execute codec up table c d call).result
          ≡ ok (record { data_ = rows; source = l1 }))
        × ((get_or_execute codec up table c d call).warehouse ≡ d)
  unfolding get_or_execute arrive arrived missed
  get_or_execute-hit c d call rows e = (rw (e, missed, arrived), rw (e, missed, arrived))

  resolve-miss :
      (c c' : Coordinator Value) (d : D) (call : Call Value D E) (rows : List Value)
      → get_cached_result up table call.key call.now ≡ none
      → (call.run_query d).1 ≡ inr rows
      → keep c call.key call.tables rows call.done ≡ some c'
      → ((resolve codec up table c d call).result ≡ ok (record { data_ = rows; source = miss }))
        × ((resolve codec up table c d call).warehouse ≡ (call.run_query d).0)
        × ((resolve codec up table c d call).coordinator ≡ c')
  unfolding resolve resolved
  resolve-miss c c' d call rows l2_cold ran stored =
      let ran' : call.run_query d ≡ ((call.run_query d).0, inr rows) =
        ap (λ (r : E ⊎ List Value). ((call.run_query d).0, r)) ran in
      (
        rw (l2_cold, resolved, ran, executed, stored, answer),
        rw (l2_cold, resolved, ran, executed, stored, answer),
        rw (l2_cold, resolved, ran, executed, stored, answer),
      )

  lead-call :
      (c : Coordinator Value) (d : D) (call : Call Value D E)
      → l1_get c.l1 call.key call.now ≡ none
      → lookup call.key c.inflight ≡ none
      → get_or_execute codec up table c d call
        ≡ settled call.key c.next_future (resolve codec up table (led c call.key call.now) d call)
  unfolding get_or_execute arrived
  lead-call c d call cold idle =
      ap (arrived codec up table d call) (arrive-lead c call.key call.now cold idle)

  -- A key that neither L1 nor L2 answers and that no call leads for is executed once, and L1 then
  -- answers it until the time-to-live has passed.
  pub get_or_execute-miss :
      (c : Coordinator Value) (d : D) (call : Call Value D E) (rows : List Value)
      → Hybrid.Laws.IsValid c.l1
      → l1_get c.l1 call.key call.now ≡ none
      → lookup call.key c.inflight ≡ none
      → get_cached_result up table call.key call.now ≡ none
      → (call.run_query d).1 ≡ inr rows
      → ((get_or_execute codec up table c d call).result
          ≡ ok (record { data_ = rows; source = miss }))
        × ((get_or_execute codec up table c d call).warehouse ≡ (call.run_query d).0)
        × ((later : ℕ)
            → l1_get (get_or_execute codec up table c d call).coordinator.l1 call.key later ≡ (
                if is_expired (new_entry (some rows) (some c.l1_ttl_seconds) call.done) later
                then none
                else some rows))
  unfolding join
  get_or_execute-miss c d call rows valid cold idle l2_cold ran =
      let c' = led c call.key call.now in
      let (k, stored, valid', reads, tags) =
        keep-l1 c' call.key call.tables rows call.done
          (Hybrid.Laws.get-IsValid c.l1 call.key call.now valid) in
      let (answers, leaves, keeps) = resolve-miss c' k d call rows l2_cold ran stored in
      let begins = lead-call c d call cold idle in
      (
        rw (begins) answers,
        rw (begins) leaves,
        λ later.
            rw
              (
                begins,
                settle-l1 (resolve codec up table c' d call).coordinator call.key c.next_future,
                keeps,
              )
              (reads later),
      )
