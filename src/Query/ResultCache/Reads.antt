-- ===== src/Query/ResultCache/Reads.antt =====
-- What is read from the table after a write to it, and what an invalidation removes.
use salesdata_api.Base.{
  ℕ, ◌+◌, ◌≤◌, ◌<◌, ◌⊎◌, ◌≡◌, refl, String, List, [], ◌∷◌, none, some, Bool, true, false, str_eq,
  eq_iff, eq_refl, if◌then◌else◌, length, count, arith, ◌&&◌,
}
use salesdata_api.Query.ResultCache.{
  Codec, Row, select_live, get_cached_result, delete_where, cache_result, new_row,
  generate_cache_key, expiry, condition, invalidate_cache, is_empty,
}

select-delete_key :
    (key j : String) (now : ℕ) (table : List Row)
    → select_live j now (delete_where (λ r. str_eq r.cache_key key) table)
      ≡ (if str_eq key j then none else select_live j now table)
unfolding select_live delete_where
select-delete_key key j now [] = ground arith
select-delete_key key j now (r ∷ rs) = ground (
  arith,
  eq_iff r.cache_key key,
  eq_iff r.cache_key j,
  eq_iff key j,
  select-delete_key key j now rs,
)

-- no row that meets the condition is left
pub delete_where-none : (p : Row → Bool) (table : List Row) → count p (delete_where p table) ≡ 0
unfolding delete_where
delete_where-none p [] = refl
delete_where-none p (r ∷ rs) = ground (arith, delete_where-none p rs)

pub length-delete_where :
    (p : Row → Bool) (table : List Row)
    → length (delete_where p table) + count p table ≡ length table
unfolding delete_where
length-delete_where p [] = refl
length-delete_where p (r ∷ rs) = ground (arith, length-delete_where p rs)

-- what a condition does not delete is read as before
pub select-delete_where :
    (p : Row → Bool) (key : String) (now : ℕ) (table : List Row)
    → select_live key now table ≡ none
    → select_live key now (delete_where p table) ≡ none
unfolding select_live delete_where
select-delete_where p key now [] h = refl
select-delete_where p key now (r ∷ rs) h = ground (arith, select-delete_where p key now rs)

module _ {ℓ κ} {Value : Type ℓ} {Params : Type κ} (codec : Codec Value Params) where
  -- the row that holds a result: its text is read back as the result
  abbrev pub Holds : List Value → List ℕ → List ℕ → List ℕ → Row → Type ℓ
  Holds result sql user session row =
      (codec.loads row.result_data ≡ result)
      × (row.result_count ≡ length result)
      × (row.result_size_bytes ≡ length row.result_data)
      × (row.query_sql ≡ sql)
      × (row.user_id ≡ user)
      × (row.session_id ≡ session)

  -- Let `json.loads` read back what `json.dumps` writes of a result. In a database that answers, the
  -- row under the key of a statement and its parameters, after a result was stored for them, gives
  -- that result back, with the result's number of rows, the statement and the ids of its user and
  -- session, as long as the time-to-live has not passed or is 0; after that there is none. Every other
  -- key is read as before. A database that fails stores nothing.
  pub get-cache_result :
      (table : List Row) (sql : List ℕ) (result : List Value) (params : Params)
      (user session : List ℕ) (ms ttl now later : ℕ) (j : String)
      → codec.loads (codec.dumps result) ≡ result
      → ((ttl ≡ 0) ⊎ (later < now + ttl)
          → (row : Row) × (get_cached_result true
                (cache_result codec true table sql result params user session ms ttl now)
                (generate_cache_key codec sql params)
                later
              ≡ some row)
            × Holds result sql user session row)
        × (0 < ttl
            → now + ttl ≤ later
            → get_cached_result true
                (cache_result codec true table sql result params user session ms ttl now)
                (generate_cache_key codec sql params)
                later
              ≡ none)
        × (str_eq (generate_cache_key codec sql params) j ≡ false
            → get_cached_result true
                (cache_result codec true table sql result params user session ms ttl now)
                j
                later
              ≡ get_cached_result true table j later)
        × (cache_result codec false table sql result params user session ms ttl now ≡ table)
  unfolding get_cached_result cache_result new_row expiry
  get-cache_result table sql result params user session ms ttl now later j decoded =
      let key = generate_cache_key codec sql params in
      (
        λ in_time. (
          new_row codec sql result params user session ms ttl now,
          ground (arith, eq_refl key, select-delete_key key key later table, in_time),
          (decoded, refl, refl, refl, refl, refl),
        ),
        λ finite late.
            ground (arith, eq_refl key, select-delete_key key key later table, finite, late),
        λ ne. ground (arith, select-delete_key key j later table),
        refl,
      )

  -- In a database that answers, an invalidation with a filter removes every row that meets the
  -- filter and reports how many rows it removed; with no filter it removes none.
  pub invalidate_cache_lem :
      (table : List Row) (pattern user : List ℕ)
      → (is_empty pattern && is_empty user ≡ false
          → (count (condition codec pattern user) (invalidate_cache codec true table pattern user).0
              ≡ 0)
            × (length (invalidate_cache codec true table pattern user).0
                  + (invalidate_cache codec true table pattern user).1
                ≡ length table))
        × (is_empty pattern && is_empty user ≡ true
            → invalidate_cache codec true table pattern user ≡ (table, 0))
  unfolding invalidate_cache
  invalidate_cache_lem table pattern user = (
    λ some_filter. (
      rw some_filter (delete_where-none (condition codec pattern user) table),
      rw some_filter (length-delete_where (condition codec pattern user) table),
    ),
    λ no_filter. rw no_filter,
  )
