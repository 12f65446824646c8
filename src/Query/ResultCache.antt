-- ===== src/Query/ResultCache.antt =====
-- core/caching/query_result_cache.py: the table `query_cache` of the service database. A row's key
-- is its primary key, so `INSERT OR REPLACE` removes the row that had it. `up` says whether the
-- call of the database succeeds; where it raises, the method logs and returns its default. Hashing,
-- JSON, `str` and `LIKE` are parameters; times are whole seconds, and ids are texts of code points.
pub mod Reads
pub mod Cleanup
use salesdata_api.Base.{
  ℕ, ◌+◌, ◌-◌, ◌/◌, String, List, [], ◌∷◌, ◌++◌, Option, none, some, Bool, true, false, ◌&&◌, ltb,
  max, str_eq, if◌then◌else◌, length, count,
}
use salesdata_api.Sql.Chars.{codes, text_eq}

-- what the program calls: `hashlib.sha256(s.encode()).hexdigest()`, `str` of the parameters of a
-- query, `json.dumps` and `json.loads` of a result, and SQLite's `LIKE '%' || pattern || '%'`
pub record Codec {ℓ κ} (Value : Type ℓ) (Params : Type κ) : Type (ℓ ⊔ κ) where
  pub sha256 : List ℕ → String
  pub str_of : Params → List ℕ
  pub dumps : List Value → List ℕ
  pub loads : List ℕ → List Value
  pub like : List ℕ → List ℕ → Bool

pub record Row : Type 0 where
  pub cache_key : String
  pub query_hash : String
  pub query_sql : List ℕ
  pub result_data : List ℕ
  pub result_count : ℕ
  pub created_at : ℕ
  pub expires_at : Option ℕ
  pub last_accessed_at : Option ℕ
  pub access_count : ℕ
  pub user_id : List ℕ
  pub session_id : List ℕ
  pub execution_time_ms : ℕ
  pub result_size_bytes : ℕ

-- `expires_at IS NULL OR expires_at > ?`
unfoldable pub is_live : ℕ → Row → Bool
is_live now r = elim r.expires_at [ none ↦ true | some t ↦ ltb now t ]

-- `SELECT * … WHERE cache_key = ? AND …`, the first row
unfoldable pub select_live : String → ℕ → List Row → Option Row
unfolding is_live
select_live key now [] = none
select_live key now (r ∷ rs) =
    if str_eq r.cache_key key && is_live now r then some r else select_live key now rs

unfoldable pub get_cached_result : Bool → List Row → String → ℕ → Option Row
unfolding select_live
get_cached_result up table key now = if up then select_live key now table else none

-- the rows that a condition does not meet
unfoldable pub delete_where : (Row → Bool) → List Row → List Row
delete_where p [] = []
delete_where p (r ∷ rs) = let rest = delete_where p rs in if p r then rest else r ∷ rest

unfoldable pub touch : String → ℕ → List Row → List Row
touch key now [] = []
touch key now (r ∷ rs) =
    (if str_eq r.cache_key key
      then record r { last_accessed_at = some now; access_count = r.access_count + 1 }
      else r)
    ∷ touch key now rs

unfoldable pub record_access : Bool → List Row → String → ℕ → List Row
unfolding touch
record_access up table key now = if up then touch key now table else table

-- `created_at + ttl_seconds if ttl_seconds > 0 else None`
unfoldable pub expiry : ℕ → ℕ → Option ℕ
expiry now ttl_seconds = if ltb 0 ttl_seconds then some (now + ttl_seconds) else none

-- the table, and how many rows went
unfoldable pub clear_all : Bool → List Row → List Row × ℕ
clear_all up table = if up then ([], length table) else (table, 0)

abbrev pub is_empty {ℓ} : {A : Type ℓ} → List A → Bool
is_empty [] = true
is_empty (c ∷ s) = false

abbrev pub sum_of : (Row → ℕ) → List Row → ℕ
sum_of f [] = 0
sum_of f (r ∷ rs) = f r + sum_of f rs

pub record Stats : Type 0 where
  pub total_entries : ℕ
  pub active_entries : ℕ
  pub expired_entries : ℕ
  pub total_size_bytes : ℕ
  pub total_access_count : ℕ
  pub average_size_bytes : ℕ

-- with rows in the table; the sums of an empty table are NULL
unfoldable pub get_cache_stats : Bool → List Row → ℕ → Option Stats
unfolding is_live
get_cache_stats false table now = none
get_cache_stats true [] now = none
get_cache_stats true (r ∷ rs) now =
    let table = r ∷ rs in
    let active = count (is_live now) table in
    let bytes = sum_of (λ x. x.result_size_bytes) table in
    some (record {
      total_entries = length table;
      active_entries = active;
      expired_entries = length table - active;
      total_size_bytes = bytes;
      total_access_count = sum_of (λ x. x.access_count) table;
      average_size_bytes = bytes / max (length table) 1;
    })

module _ {ℓ κ} {Value : Type ℓ} {Params : Type κ} (codec : Codec Value Params) where
  unfoldable pub generate_cache_key : List ℕ → Params → String
  generate_cache_key sql params = codec.sha256 (sql ++ codes "|" ++ codec.str_of params)

  unfoldable pub new_row : List ℕ → List Value → Params → List ℕ → List ℕ → ℕ → ℕ → ℕ → Row
  unfolding expiry generate_cache_key
  new_row sql result params user_id session_id execution_time_ms ttl_seconds now = record {
    cache_key = generate_cache_key sql params;
    query_hash = codec.sha256 sql;
    query_sql = sql;
    result_data = codec.dumps result;
    result_count = length result;
    created_at = now;
    expires_at = expiry now ttl_seconds;
    last_accessed_at = none;
    access_count = 0;
    user_id = user_id;
    session_id = session_id;
    execution_time_ms = execution_time_ms;
    result_size_bytes = length (codec.dumps result);
  }

  unfoldable pub cache_result :
      Bool → List Row → List ℕ → List Value → Params → List ℕ → List ℕ → ℕ → ℕ → ℕ → List Row
  unfolding delete_where new_row generate_cache_key
  cache_result up table sql result params user_id session_id execution_time_ms ttl_seconds now =
      if up
      then new_row sql result params user_id session_id execution_time_ms ttl_seconds now
        ∷ delete_where (λ r. str_eq r.cache_key (generate_cache_key sql params)) table
      else table

  -- a filter that is empty is left out
  unfoldable pub condition : List ℕ → List ℕ → Row → Bool
  unfolding text_eq
  condition pattern user_id r =
      (if is_empty pattern then true else codec.like r.query_sql pattern)
      && (if is_empty user_id then true else text_eq r.user_id user_id)

  -- with no filter at all nothing is deleted
  unfoldable pub invalidate_cache : Bool → List Row → List ℕ → List ℕ → List Row × ℕ
  unfolding delete_where condition
  invalidate_cache up table pattern user_id =
      if is_empty pattern && is_empty user_id
      then (table, 0)
      else if up
      then (delete_where (condition pattern user_id) table, count (condition pattern user_id) table)
      else (table, 0)
