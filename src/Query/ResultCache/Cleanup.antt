-- ===== src/Query/ResultCache/Cleanup.antt =====
-- `cleanup_expired_cache` of core/storage/service_db.py, on the table `query_cache`, and what is read
-- after it. Where the database refuses the statement it raises.
use salesdata_api.Base.{
  ℕ, ◌+◌, ◌≡◌, ◌≤◌, refl, ap, String, List, [], ◌∷◌, Option, none, some, Bool, true, false, ltb,
  if◌then◌else◌, length, count, arith,
}
use salesdata_api.Query.ResultCache.{Row, is_live, select_live, get_cached_result, delete_where}
use salesdata_api.Query.ResultCache.Reads.{delete_where-none, length-delete_where}

-- `expires_at IS NOT NULL AND expires_at < ?`
unfoldable pub is_past : ℕ → Row → Bool
is_past now r = elim r.expires_at [ none ↦ false | some t ↦ ltb t now ]

-- the table, and how many rows went
unfoldable pub cleanup_expired_cache : Bool → List Row → ℕ → Option (List Row × ℕ)
unfolding is_past delete_where
cleanup_expired_cache up table now =
    if up then some (delete_where (is_past now) table, count (is_past now) table) else none

past_dead : (now later : ℕ) (r : Row) → now ≤ later → is_past now r ≡ true → is_live later r ≡ false
unfolding is_past is_live
past_dead now later r le = by_expiry r.expires_at
  where
    by_expiry :
        (e : Option ℕ)
        → elim e [ none ↦ false | some t ↦ ltb t now ] ≡ true
        → elim e [ none ↦ true | some t ↦ ltb later t ] ≡ false
    by_expiry none h = absurd (cc)
    by_expiry (some t) h = ground (arith, h, le)

select-cleanup :
    (now later : ℕ) (key : String) (table : List Row)
    → now ≤ later
    → select_live key later (delete_where (is_past now) table) ≡ select_live key later table
unfolding select_live delete_where
select-cleanup now later key [] le = refl
select-cleanup now later key (r ∷ rs) le =
    ground (arith, past_dead now later r le, select-cleanup now later key rs le)

-- A cleanup is not seen by any later lookup. It leaves no row that had expired, and answers how many
-- it removed.
pub cleanup_lem :
    (table : List Row) (now : ℕ)
    → (rest : List Row) × (deleted : ℕ) × (cleanup_expired_cache true table now
        ≡ some (rest, deleted))
      × (count (is_past now) rest ≡ 0)
      × (length rest + deleted ≡ length table)
      × ((up : Bool) (key : String) (later : ℕ)
          → now ≤ later
          → get_cached_result up rest key later ≡ get_cached_result up table key later)
unfolding cleanup_expired_cache get_cached_result
cleanup_lem table now = (
  delete_where (is_past now) table,
  count (is_past now) table,
  refl,
  delete_where-none (is_past now) table,
  length-delete_where (is_past now) table,
  λ up key later le. ap (λ x. if up then x else none) (select-cleanup now later key table le),
)
