-- ===== src/Query/Coordinator.antt =====
-- `QueryCacheCoordinator` of core/caching/query_cache_coordinator.py. A set is a list whose order
-- and repetitions nothing reads; no set of table names is the empty one, as the code takes it. A
-- future is its number. A call of `get_or_execute` is `arrive`, then for a leader `resolve` (in
-- Lookup) and `settle`.
pub mod Lookup
pub mod Index
pub mod Invalidation
pub mod Flight
use salesdata_api.Base.{
  ℕ, ◌+◌, String, List, [], ◌∷◌, ◌++◌, Option, none, some, Bool, true, false, ◌||◌, str_eq, ◌==◌,
  not, ◌&&◌, if◌then◌else◌,
}
use salesdata_api.Base.Dict.{Dict, lookup, insert, erase, push_back}
use salesdata_api.Sql.Chars.{text_eq}
use salesdata_api.Cache.Hybrid.{Hybrid}
use salesdata_api.Cache.Hybrid
use salesdata_api.Query.ResultCache.{Codec, Row, is_empty}
use salesdata_api.Query.ResultCache

abbrev pub Index : Type 0
Index = List (List ℕ × List String)

pub record Coordinator {ℓ} (Value : Type ℓ) : Type ℓ where
  pub l1 : Hybrid (List Value)
  pub l1_ttl_seconds : ℕ
  pub inflight : Dict ℕ
  pub next_future : ℕ
  pub key_tables : Dict (List (List ℕ))
  pub table_keys : Index

pub data Source : Type 0 where
  l1 l2 miss : Source

-- `CacheLookupResult.cached`
abbrev pub cached : Source → Bool
cached l1 = true
cached l2 = true
cached miss = false

pub record LookupResult {ℓ} (Value : Type ℓ) : Type ℓ where
  pub data_ : List Value
  pub source : Source

-- what `submit_persist_job` is given: `record_access(key)`, and `on_miss_persist(data)`
pub data Job {ℓ} (Value : Type ℓ) : Type ℓ where
  access : String → Job Value
  persist : List Value → Job Value

unfoldable pub has_key : String → List String → Bool
has_key k [] = false
has_key k (j ∷ js) = str_eq j k || has_key k js

-- `self._table_keys.setdefault(table, set()).add(cache_key)`
unfoldable pub add_key : List ℕ → String → Index → Index
unfolding text_eq
add_key t k [] = (t, k ∷ []) ∷ []
add_key t k ((u, ks) ∷ m) = if text_eq u t then (u, k ∷ ks) ∷ m else (u, ks) ∷ add_key t k m

unfoldable pub add_all : List (List ℕ) → String → Index → Index
unfolding add_key
add_all [] k m = m
add_all (t ∷ ts) k m = add_all ts k (add_key t k m)

-- `self._table_keys.pop(table, set())`: the keys, and the index without the table
unfoldable pub keys_of : List ℕ → Index → List String
unfolding text_eq
keys_of t [] = []
keys_of t ((u, ks) ∷ m) = if text_eq u t then ks else keys_of t m

unfoldable pub drop_table : List ℕ → Index → Index
unfolding text_eq
drop_table t [] = []
drop_table t ((u, ks) ∷ m) =
    let rest = drop_table t m in if text_eq u t then rest else (u, ks) ∷ rest

-- the loop that pops every table: `keys_to_drop`, and the index that is left
unfoldable pub pop_tables : List (List ℕ) → Index → List String × Index
unfolding keys_of drop_table
pop_tables [] m = ([], m)
pop_tables (t ∷ ts) m = let (ks, left) = pop_tables ts (drop_table t m) in (keys_of t m ++ ks, left)

unfoldable pub erase_all {ℓ} : {V : Type ℓ} → List String → Dict V → Dict V
erase_all [] m = m
erase_all (k ∷ ks) m = erase_all ks (erase k m)

module _ {ℓ} {Value : Type ℓ} where
  unfoldable pub init : ℕ → ℕ → Coordinator Value
  init l1_max_size l1_ttl_seconds = record {
    l1 = Hybrid.init l1_max_size l1_ttl_seconds;
    l1_ttl_seconds = l1_ttl_seconds;
    inflight = [];
    next_future = 0;
    key_tables = [];
    table_keys = [];
  }

  unfoldable pub tag_tables : Coordinator Value → String → List (List ℕ) → Coordinator Value
  unfolding add_all
  tag_tables c key [] = c
  tag_tables c key (t ∷ ts) = record c {
    key_tables = insert key (t ∷ ts) c.key_tables;
    table_keys = add_all (t ∷ ts) key c.table_keys;
  }

  -- `self._l1.put(…)` and `_tag_tables`
  unfoldable pub keep :
      Coordinator Value → String → List (List ℕ) → List Value → ℕ → Option (Coordinator Value)
  unfolding tag_tables
  keep c key tables rows now = elim (Hybrid.put c.l1 key (some rows) (some c.l1_ttl_seconds) now) [
    | none ↦ none
    | some h ↦ some (tag_tables (record c { l1 = h }) key tables)
  ]

  -- the keys that `invalidate_tables` drops from L1
  unfoldable pub drop_keys : List String → Hybrid (List Value) → Hybrid (List Value)
  drop_keys [] h = h
  drop_keys (k ∷ ks) h = drop_keys ks (Hybrid.invalidate h k)

  unfoldable pub invalidate : Coordinator Value → String → Coordinator Value
  invalidate c key = record c { l1 = Hybrid.invalidate c.l1 key }

  unfoldable pub clear_all : Bool → Coordinator Value → List Row → Coordinator Value × List Row
  clear_all up c table = (
    record c { key_tables = []; table_keys = []; l1 = Hybrid.clear c.l1 },
    (ResultCache.clear_all up table).0,
  )

-- how a call begins: it has its answer, it leads with a new future, or it awaits one
pub data Arrival {ℓ} (Value : Type ℓ) : Type ℓ where
  hit : List Value → Arrival Value
  lead : ℕ → Arrival Value
  follow : ℕ → Arrival Value

abbrev pub is_future : ℕ → Option ℕ → Bool
is_future fut none = false
is_future fut (some f) = f == fut

module _ {ℓ} {Value : Type ℓ} where
  unfoldable pub join : Coordinator Value → String → Option ℕ → Coordinator Value × Arrival Value
  join c key (some fut) = (c, follow fut)
  join c key none = (
    record c { inflight = push_back key c.next_future c.inflight; next_future = c.next_future + 1 },
    lead c.next_future,
  )

  unfoldable pub missed :
      String → Coordinator Value → Option (List Value) → Coordinator Value × Arrival Value
  unfolding join
  missed key c (some rows) = (c, hit rows)
  missed key c none = join c key (lookup key c.inflight)

  unfoldable pub arrive : Coordinator Value → String → ℕ → Coordinator Value × Arrival Value
  unfolding missed
  arrive c key now =
      let (h, found) = Hybrid.get c.l1 key now in missed key (record c { l1 = h }) found

  -- `finally`: `if self._inflight.get(cache_key) is fut: del …`
  unfoldable pub settle : Coordinator Value → String → ℕ → Coordinator Value
  settle c key fut =
      if is_future fut (lookup key c.inflight)
      then record c { inflight = erase key c.inflight }
      else c

module _ {ℓ κ} {Value : Type ℓ} {Params : Type κ} (codec : Codec Value Params) where
  -- the loop over the tables that removes rows of L2 by `LIKE`
  unfoldable pub drop_rows : Bool → List (List ℕ) → List Row → List Row
  drop_rows up [] table = table
  drop_rows up (t ∷ ts) table = drop_rows up ts (ResultCache.invalidate_cache codec up table t []).0

  unfoldable pub invalidate_tables :
      Bool → Coordinator Value → List Row → List (List ℕ) → Coordinator Value × List Row × Bool
  unfolding pop_tables drop_keys drop_rows erase_all
  invalidate_tables up c table [] = (c, table, false)
  invalidate_tables up c table (t ∷ ts) =
      let (keys, left) = pop_tables (t ∷ ts) c.table_keys in
      let c' = record c { table_keys = left; key_tables = erase_all keys c.key_tables } in
      if is_empty keys
      then (c', table, false)
      else (record c' { l1 = drop_keys keys c.l1 }, drop_rows up (t ∷ ts) table, true)

  -- `execution_time_ms` 0, no session id, and the time-to-live that `cache_result` defaults to
  unfoldable pub persist_l2 : Bool → List Row → List ℕ → List Value → Params → List ℕ → ℕ → List Row
  persist_l2 up table sql rows params user_id now =
      ResultCache.cache_result codec up table sql rows params user_id [] 0 3600 now
