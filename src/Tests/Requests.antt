-- ===== src/Tests/Requests.antt =====
-- Requests to run statements, as core/services/query_service.py serves them, and the caches behind.
use mathlib.Core.List.{flat_map}
use salesdata_api.Base.{
  ◌≡◌, refl, [], ◌∷◌, ◌++◌, true, false, List, ℕ, arith, ◌≤◌, ◌+◌, none, some, length,
  if◌then◌else◌, String, inr, ◌⊎◌, Bool, false≢true, sym, ap,
}
use salesdata_api.Base.Dict.{lookup, insert, erase}
use salesdata_api.Cache.Entry.{new_entry, is_expired, record_access}
use salesdata_api.Cache.Lru
use salesdata_api.Cache.Ttl
use salesdata_api.Cache.Hybrid
use salesdata_api.Sql.Chars.{
  codes, text_eq, is_letter, is_digit, is_ident_start, is_word, is_space, is_upper, to_upper,
  to_lower, upper,
}
use salesdata_api.Sql.Regex.{search?, ends, search_from, word}
use salesdata_api.Sql.Regex.Words.{HasWord}
use salesdata_api.Sql.Policy.{
  classify_operation, extract_tables, has_scope, first_keyword, write_words, member, granted,
  split_commas,
}
use salesdata_api.Sql.Policy.Writes.{classify-read_iff}
use salesdata_api.Query.Limits.{apply_result_limits}
use salesdata_api.Query.Limits.Prefix.{bytes, apply_result_limits_lem}
use salesdata_api.Query.ResultCache
use salesdata_api.Query.ResultCache.{
  Codec, Row, generate_cache_key, get_cached_result, cache_result, new_row, condition,
  invalidate_cache, is_empty,
}
use salesdata_api.Query.ResultCache.Reads.{get-cache_result, Holds}
use salesdata_api.Query.Coordinator.{
  Coordinator, init, keep, tag_tables, add_key, add_all, has_key, keys_of, invalidate_tables,
  arrive, follow, missed, join,
}
use salesdata_api.Query.Coordinator.Flight.{
  Flight, single_flight, stays, goes, arrives, with_leader, leading,
}
use salesdata_api.Query.Coordinator.Invalidation.{
  l1_get, invalidate_tables-get, keep-invalidate_tables,
}
use salesdata_api.Query.Service.{
  World, Request, Settings, Failure, outcome, authorization_error, run, is_write,
}
use salesdata_api.Query.Service.Writes.{run-unauthorized, run-write_invalidates}
use salesdata_api.Query.Service.Cached.{run-repeated_read}

requests : Unit {0}
unfolding lookup insert erase new_entry is_expired record_access Lru.init Lru.get Lru.get_found
    Lru.put Lru.evict_first Lru.make_room Ttl.init Ttl.get Ttl.get_found Ttl.put Ttl.make_room
    Ttl.or_default Ttl.expiry Ttl.earliest Ttl.earliest_from Hybrid.init Hybrid.get
    Hybrid.get_checked Hybrid.put flat_map text_eq is_letter is_digit is_ident_start is_word
    is_space is_upper to_upper to_lower search? ends search_from classify_operation extract_tables
    has_scope first_keyword member granted split_commas init keep tag_tables add_key add_all has_key
    keys_of ResultCache.get_cached_result ResultCache.select_live arrive missed join with_leader
requests = tt

-- keys are hashed to two values, rows are their own JSON text, and `LIKE` finds a word
abbrev codec : Codec ℕ ℕ
codec = record {
  sha256 = λ s. if text_eq s (codes "select a from t|1") then "k" else "other";
  str_of = λ p. (48 + p) ∷ [];
  dumps = λ rows. rows;
  loads = λ text. text;
  like = λ sql pattern. search? (word (upper pattern)) sql;
}

-- a warehouse that counts the statements, and answers their number
abbrev execute : ℕ → List ℕ → ℕ → ℕ → ℕ × (Failure ⊎ List ℕ)
execute limit sql params d = (d + 1, inr (d ∷ []))

abbrev settings : Settings
settings = record {
  require_write_scope = true;
  precise_cache_invalidation = true;
  limits = record { max_result_rows = 10; max_result_bytes = 100; max_query_duration = 30 };
}

-- a coordinator that has stored a result for "k", which reads the table t
abbrev fresh : Coordinator ℕ
fresh = init 2 60

abbrev stored : Coordinator ℕ
stored = elim (keep fresh "k" (codes "t" ∷ []) (7 ∷ []) 0) [ none ↦ fresh | some c ↦ c ]

fresh-IsValid : Hybrid.Laws.IsValid fresh.l1
unfolding requests
fresh-IsValid = record {
  lru = record { positive = omega arith; bounded = omega arith; distinct = tt };
  ttl = record { positive = omega arith; bounded = omega arith; distinct = tt };
}

abbrev world : Coordinator ℕ → World ℕ ℕ ℕ
world c = record { coordinator = c; table = []; warehouse = 5; pending = [] }

abbrev request : String → ℕ → Request ℕ
request sql now = record {
  sql = codes sql;
  params = 1;
  user_id = none;
  scopes = some (codes "read,write");
  now = now;
  done = now + 1;
}

abbrev reader : Request ℕ
reader = record (request "drop table t" 3) { scopes = some (codes "read") }

run-unauthorized_example :
    run codec (λ v. v) execute settings true (world fresh) reader
    ≡ (world fresh, authorization_error)
unfolding requests
run-unauthorized_example =
    run-unauthorized codec (λ v. v) execute settings true (world fresh) reader refl refl drop_unread
  where
    drop_unread : ¬ (
        (first_keyword reader.sql ≡ codes "SELECT")
        ⊎ ((first_keyword reader.sql ≡ codes "WITH") × ¬ HasWord write_words reader.sql))
    drop_unread h = false≢true (sym (ap is_write ((classify-read_iff reader.sql).1 h)))

run-write_invalidates_example :
    l1_get
      (run codec
        (λ v. v)
        execute
        settings
        true
        (world stored)
        (request "delete from t" 3)).0.coordinator.l1
      "k"
      4
    ≡ none
unfolding requests
run-write_invalidates_example =
    (run-write_invalidates codec (λ v. v) execute settings true (world stored)
        (request "delete from t" 3) 6 (5 ∷ []) refl refl refl).1
      "k" (codes "t") 4 refl refl

abbrev asks : ℕ → Request ℕ
asks now = request "select a from t" now

abbrev served : World ℕ ℕ ℕ
served = (run codec (λ v. v) execute settings true (world fresh) (asks 3)).0

run-repeated_read_example :
    ((run codec (λ v. v) execute settings true (world fresh) (asks 3)).1
      ≡ outcome (record {
        data_ = (apply_result_limits (λ v. v) settings.limits (5 ∷ [])).0;
        is_cached = false;
        truncated = (apply_result_limits (λ v. v) settings.limits (5 ∷ [])).1;
      }))
    × (served.warehouse ≡ 6)
    × ((run codec (λ v. v) execute settings true served (asks 20)).1
        ≡ outcome (record {
          data_ = (apply_result_limits (λ v. v) settings.limits (5 ∷ [])).0;
          is_cached = true;
          truncated = (apply_result_limits (λ v. v) settings.limits (5 ∷ [])).1;
        }))
    × ((run codec (λ v. v) execute settings true served (asks 20)).0.warehouse ≡ 6)
unfolding requests
run-repeated_read_example =
    run-repeated_read codec (λ v. v) execute settings true (world fresh) (asks 3) (asks 20) 6
      (5 ∷ []) refl fresh-IsValid refl refl refl refl refl refl refl

abbrev flight : Flight ℕ
flight = record {
  coordinator = (arrive fresh "k" 1).0;
  leaders = with_leader "k" [] (arrive fresh "k" 1).1;
}

single_flight_example :
    (leading "k" flight.leaders ≤ 1)
    × ((now fut : ℕ)
        → lookup "k" flight.leaders ≡ some fut
        → l1_get flight.coordinator.l1 "k" now ≡ none
        → (arrive flight.coordinator "k" now).1 ≡ follow fut)
single_flight_example =
    single_flight 2 60 flight "k"
      (goes stays (arrives (record { coordinator = fresh; leaders = [] }) "k" 1))

invalidate_tables-get_example :
    l1_get (invalidate_tables codec true stored [] (codes "t" ∷ [])).0.l1 "k" 4 ≡ none
unfolding requests
invalidate_tables-get_example =
    (invalidate_tables-get codec true stored [] (codes "t" ∷ []) "k" 4).0 (codes "t") refl refl

keep-invalidate_tables_example :
    (c' : Coordinator ℕ) × (keep fresh "k" (codes "t" ∷ []) (7 ∷ []) 0 ≡ some c')
    × ((later : ℕ)
        → l1_get c'.l1 "k" later ≡ (
            if is_expired {V = List ℕ} (new_entry (some (7 ∷ [])) (some 60) 0) later
            then none
            else some (7 ∷ [])))
    × ((up : Bool) (table : List Row) (written : List (List ℕ)) (u : List ℕ) (later : ℕ)
        → member u (codes "t" ∷ []) ≡ true
        → member u written ≡ true
        → l1_get (invalidate_tables codec up c' table written).0.l1 "k" later ≡ none)
unfolding requests
keep-invalidate_tables_example =
    keep-invalidate_tables codec fresh "k" (codes "t" ∷ []) (7 ∷ []) 0 fresh-IsValid

get-cache_result_example :
    (row : Row) × (get_cached_result true
        (cache_result codec true [] (codes "select a from t") (7 ∷ []) 1 [] [] 0 3600 5)
        (generate_cache_key codec (codes "select a from t") 1)
        6
      ≡ some row)
    × Holds codec (7 ∷ []) (codes "select a from t") [] [] row
get-cache_result_example =
    (get-cache_result codec [] (codes "select a from t") (7 ∷ []) 1 [] [] 0 3600 5 6 "x" refl).0
      (inr (omega arith))

apply_result_limits_lem_example :
    (dropped : List ℕ) × (60 ∷ 30 ∷ 40 ∷ []
      ≡ (apply_result_limits (λ v. v) settings.limits (60 ∷ 30 ∷ 40 ∷ [])).0 ++ dropped)
    × (length (apply_result_limits (λ v. v) settings.limits (60 ∷ 30 ∷ 40 ∷ [])).0 ≤ 10)
    × (bytes (λ v. v) (apply_result_limits (λ v. v) settings.limits (60 ∷ 30 ∷ 40 ∷ [])).0 ≤ 100)
    × ((apply_result_limits (λ v. v) settings.limits (60 ∷ 30 ∷ 40 ∷ [])).1 ≡ false → dropped ≡ [])
apply_result_limits_lem_example =
    apply_result_limits_lem (λ v. v) settings.limits (60 ∷ 30 ∷ 40 ∷ [])
