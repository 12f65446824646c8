-- ===== src/Query/Coordinator/Lookup.antt =====
-- `get_or_execute` and `_resolve` of core/caching/query_cache_coordinator.py, of one caller.
pub mod Answers
use salesdata_api.Base.{
  ℕ, String, List, [], ◌∷◌, Option, none, some, Bool, not, ◌&&◌, if◌then◌else◌, ◌⊎◌, inl, inr,
}
use salesdata_api.Query.ResultCache.{Codec, Row, is_empty}
use salesdata_api.Query.ResultCache
use salesdata_api.Query.Coordinator.{
  Coordinator, LookupResult, Source, l1, l2, miss, Job, access, persist, keep, Arrival, hit, lead,
  follow, arrive, settle,
}

-- what a call comes to: an answer, the exception of `run_query` or that of `self._l1.put`, or it
-- awaits the future of another call
pub data Result {ℓ μ} (E : Type μ) (A : Type ℓ) : Type (ℓ ⊔ μ) where
  ok : A → Result E A
  error : E → Result E A
  cache_error : Result E A
  awaits : ℕ → Result E A

-- the arguments of a call, `run_query` as the rows or the exception that it leaves the warehouse
-- with, and the times at which the call reads and at which it stores
pub record Call {ℓ μ ν} (Value : Type ℓ) (D : Type μ) (E : Type ν) : Type (ℓ ⊔ μ ⊔ ν) where
  pub key : String
  pub run_query : D → D × (E ⊎ List Value)
  pub on_miss_persist : Bool
  pub tables : List (List ℕ)
  pub now : ℕ
  pub done : ℕ

-- what a call leaves: the coordinator, the warehouse, the jobs submitted, and the result
pub record After {ℓ μ ν} (Value : Type ℓ) (D : Type μ) (E : Type ν) : Type (ℓ ⊔ μ ⊔ ν) where
  pub coordinator : Coordinator Value
  pub warehouse : D
  pub jobs : List (Job Value)
  pub result : Result E (LookupResult Value)

module _ {ℓ μ ν} {Value : Type ℓ} {D : Type μ} {E : Type ν} where
  abbrev pub ends :
      Coordinator Value → D → List (Job Value) → Result E (LookupResult Value) → After Value D E
  ends c d jobs result = record { coordinator = c; warehouse = d; jobs = jobs; result = result }

  -- the answer, once it is stored
  unfoldable pub answer :
      Coordinator Value
      → D
      → List (Job Value)
      → List Value
      → Source
      → Option (Coordinator Value)
      → After Value D E
  answer old d jobs rows source none = ends old d [] cache_error
  answer old d jobs rows source (some c) =
      ends c d jobs (ok (record { data_ = rows; source = source }))

  unfoldable pub executed :
      Coordinator Value → Call Value D E → D × (E ⊎ List Value) → After Value D E
  unfolding keep answer
  executed c call (d, inl e) = ends c d [] (error e)
  executed c call (d, inr rows) =
      answer c d (if call.on_miss_persist && not (is_empty rows) then persist rows ∷ [] else [])
        rows miss (keep c call.key call.tables rows call.done)

  abbrev pub settled : String → ℕ → After Value D E → After Value D E
  settled key fut after = record after { coordinator = settle after.coordinator key fut }

module _ {ℓ κ μ ν} {Value : Type ℓ} {Params : Type κ} {D : Type μ} {E : Type ν}
    (codec : Codec Value Params) (up : Bool) (table : List Row) where
  unfoldable pub resolved : Coordinator Value → D → Call Value D E → Option Row → After Value D E
  unfolding keep executed answer
  resolved c d call none = executed c call (call.run_query d)
  resolved c d call (some row) =
      let rows = codec.loads row.result_data in
      answer c d (access call.key ∷ []) rows l2 (keep c call.key call.tables rows call.done)

  unfoldable pub resolve : Coordinator Value → D → Call Value D E → After Value D E
  unfolding resolved
  resolve c d call = resolved c d call (ResultCache.get_cached_result up table call.key call.now)

  -- a call of which no other call overlaps the lead
  unfoldable pub arrived : D → Call Value D E → Coordinator Value × Arrival Value → After Value D E
  unfolding resolve settle
  arrived d call (c, hit rows) = ends c d [] (ok (record { data_ = rows; source = l1 }))
  arrived d call (c, lead fut) = settled call.key fut (resolve c d call)
  arrived d call (c, follow fut) = ends c d [] (awaits fut)

  unfoldable pub get_or_execute : Coordinator Value → D → Call Value D E → After Value D E
  unfolding arrived arrive
  get_or_execute c d call = arrived d call (arrive c call.key call.now)
