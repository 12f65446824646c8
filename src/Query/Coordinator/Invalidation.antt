-- ===== src/Query/Coordinator/Invalidation.antt =====
-- What a caller reads from L1 after an invalidation.
use salesdata_api.Base.{
  ◌≡◌, refl, String, List, [], ◌∷◌, Bool, true, false, str_eq, ℕ, arith, if◌then◌else◌, eq_iff,
  eq_refl, Option, none, some, ap, ◌∙◌,
}
use salesdata_api.Base.Dict.{lookup, lookup-erase}
use salesdata_api.Sql.Policy.{member}
use salesdata_api.Cache.Entry.{new_entry, is_expired}
use salesdata_api.Cache.Lru
use salesdata_api.Cache.Lru.{Lru}
use salesdata_api.Cache.Hybrid.{Hybrid}
use salesdata_api.Cache.Hybrid
use salesdata_api.Query.ResultCache.{Codec, Row, get_cached_result, is_empty, select_live}
use salesdata_api.Query.ResultCache
use salesdata_api.Query.Coordinator.{
  Coordinator, has_key, keys_of, tag_tables, keep, drop_keys, clear_all, invalidate_tables,
  pop_tables, erase_all, drop_rows, add_all,
}
use salesdata_api.Query.Coordinator.Index.{popped, not_popped, keys_of-add_all}

module _ {ℓ} {V : Type ℓ} where
  -- what an L1 answers
  abbrev pub l1_get : Hybrid V → String → ℕ → Option V
  l1_get h key now = (Hybrid.get h key now).1

  lookup-invalidate :
      (c : Lru V) (k j : String)
      → lookup j (Lru.invalidate c k).cache ≡ (if str_eq k j then none else lookup j c.cache)
  unfolding Lru.invalidate
  lookup-invalidate c k j = ground (arith, lookup-erase k j c.cache, eq_iff k j)

  get-invalidate_lru :
      (c : Lru V) (k j : String) (now : ℕ)
      → (Lru.get (Lru.invalidate c k) j now).1 ≡ (if str_eq k j then none else (Lru.get c j now).1)
  get-invalidate_lru c k j now = ground (
    arith,
    Lru.Reads.get-visible (Lru.invalidate c k) j now,
    Lru.Reads.get-visible c j now,
    lookup-invalidate c k j,
  )

  get-invalidate :
      (h : Hybrid V) (k j : String) (now : ℕ)
      → l1_get (Hybrid.invalidate h k) j now ≡ (if str_eq k j then none else l1_get h j now)
  get-invalidate h k j now =
      rw (Hybrid.Laws.get-eq-lru (Hybrid.invalidate h k) j now, Hybrid.Laws.get-eq-lru h j now)
        (unfold Hybrid.invalidate in get-invalidate_lru h.lru k j now)

module _ {ℓ} {Value : Type ℓ} where
  get-drop_keys :
      (ks : List String) (h : Hybrid (List Value)) (j : String) (now : ℕ)
      → l1_get (drop_keys ks h) j now ≡ (if has_key j ks then none else l1_get h j now)
  unfolding drop_keys has_key
  get-drop_keys [] h j now = refl
  get-drop_keys (k ∷ ks) h j now =
      ground (arith, get-drop_keys ks (Hybrid.invalidate h k) j now, get-invalidate h k j now)

  -- the two ends of `invalidate_tables`: nothing was popped, and the keys are dropped
  get-ends :
      (keys : List String) (c kept dropped : Coordinator Value) (t t' : List Row) (j : String)
      (now : ℕ)
      → kept.l1 ≡ c.l1
      → dropped.l1 ≡ drop_keys keys c.l1
      → l1_get
          (if◌then◌else◌ {A = Coordinator Value × List Row × Bool}
            (is_empty keys)
            (kept, t, false)
            (dropped, t', true)).0.l1
          j
          now
        ≡ (if has_key j keys then none else l1_get c.l1 j now)
  unfolding has_key
  get-ends [] c kept dropped t t' j now e e' = ap (λ h. l1_get h j now) e
  get-ends (k ∷ ks) c kept dropped t t' j now e e' =
      ap (λ h. l1_get h j now) e' ∙ get-drop_keys (k ∷ ks) c.l1 j now

  -- the table has the key the key, or none has
  abbrev pub IsTagged : Coordinator Value → List ℕ → String → Type 0
  IsTagged c t key = has_key key (keys_of t c.table_keys) ≡ true

  pub keep-l1 :
      (c : Coordinator Value) (key : String) (tables : List (List ℕ)) (rows : List Value) (now : ℕ)
      → Hybrid.Laws.IsValid c.l1
      → (c' : Coordinator Value) × (keep c key tables rows now ≡ some c')
        × Hybrid.Laws.IsValid c'.l1
        × ((later : ℕ)
            → l1_get c'.l1 key later ≡ (
                if is_expired (new_entry (some rows) (some c.l1_ttl_seconds) now) later
                then none
                else some rows))
        × (c'.table_keys ≡ add_all tables key c.table_keys)
  unfolding keep tag_tables add_all
  keep-l1 c key [] rows now valid =
      let (h, e, valid', reads) =
        Hybrid.Laws.put-get c.l1 key (some rows) (some c.l1_ttl_seconds) now valid in
      (record c { l1 = h }, rw (e, keep), valid', reads, refl)
  keep-l1 c key (t ∷ ts) rows now valid =
      let (h, e, valid', reads) =
        Hybrid.Laws.put-get c.l1 key (some rows) (some c.l1_ttl_seconds) now valid in
      (tag_tables (record c { l1 = h }) key (t ∷ ts), rw (e, keep), valid', reads, refl)

  -- After `clear_all` no key has an answer in L1, no key is tagged with a table, and a database
  -- that answers has no row left in L2; one that fails keeps its rows.
  pub clear_all-empties :
      (c : Coordinator Value) (table : List Row) (key : String) (t : List ℕ) (now : ℕ)
      → (l1_get (clear_all true c table).0.l1 key now ≡ none)
        × (has_key key (keys_of t (clear_all true c table).0.table_keys) ≡ false)
        × (get_cached_result true (clear_all true c table).1 key now ≡ none)
        × ((clear_all false c table).1 ≡ table)
  unfolding clear_all has_key keys_of ResultCache.clear_all Hybrid.clear Lru.clear get_cached_result
      select_live lookup
  clear_all-empties c table key t now = (
    Hybrid.Laws.get-eq-lru (Hybrid.clear c.l1) key now
        ∙ Lru.Reads.get-visible (Lru.clear c.l1.lru) key now,
    refl,
    refl,
    refl,
  )

module _ {ℓ κ} {Value : Type ℓ} {Params : Type κ} (codec : Codec Value Params) where
  -- `invalidate_tables` in terms of the keys that it pops
  popping :
      (up : Bool) (c : Coordinator Value) (table : List Row) (ts : List (List ℕ)) (key : String)
      (now : ℕ)
      → l1_get (invalidate_tables codec up c table ts).0.l1 key now
        ≡ (if has_key key (pop_tables ts c.table_keys).0 then none else l1_get c.l1 key now)
  unfolding invalidate_tables has_key
  popping up c table [] key now = refl
  popping up c table (t ∷ ts) key now =
      let (keys, left) = pop_tables (t ∷ ts) c.table_keys in
      let c' = record c { table_keys = left; key_tables = erase_all keys c.key_tables } in
      get-ends keys c c' (record c' { l1 = drop_keys keys c.l1 }) table
        (drop_rows codec up (t ∷ ts) table) key now refl refl

  -- After `invalidate_tables`, L1 has no answer for a key that is tagged with one of the tables, and
  -- the answer that it had for a key that is tagged with none of them.
  pub invalidate_tables-get :
      (up : Bool) (c : Coordinator Value) (table : List Row) (ts : List (List ℕ)) (key : String)
      (now : ℕ)
      → ((u : List ℕ)
          → member u ts ≡ true
          → IsTagged c u key
          → l1_get (invalidate_tables codec up c table ts).0.l1 key now ≡ none)
        × (((u : List ℕ) → member u ts ≡ true → has_key key (keys_of u c.table_keys) ≡ false)
            → l1_get (invalidate_tables codec up c table ts).0.l1 key now ≡ l1_get c.l1 key now)
  invalidate_tables-get up c table ts key now = (
    λ u among tagged. rw (popping up c table ts key now, popped u key ts c.table_keys among tagged),
    λ untagged. rw (popping up c table ts key now, not_popped key ts c.table_keys untagged),
  )

  -- With a valid L1, a result that is stored with the tables that its query reads is answered from
  -- L1 until its time-to-live has passed; after an invalidation of any of those tables it is not.
  pub keep-invalidate_tables :
      (c : Coordinator Value) (key : String) (tables : List (List ℕ)) (rows : List Value) (now : ℕ)
      → Hybrid.Laws.IsValid c.l1
      → (c' : Coordinator Value) × (keep c key tables rows now ≡ some c')
        × ((later : ℕ)
            → l1_get c'.l1 key later ≡ (
                if is_expired (new_entry (some rows) (some c.l1_ttl_seconds) now) later
                then none
                else some rows))
        × ((up : Bool) (table : List Row) (written : List (List ℕ)) (u : List ℕ) (later : ℕ)
            → member u tables ≡ true
            → member u written ≡ true
            → l1_get (invalidate_tables codec up c' table written).0.l1 key later ≡ none)
  keep-invalidate_tables c key tables rows now valid =
      let (c', e, valid', reads, tags) = keep-l1 c key tables rows now valid in
      (
        c',
        e,
        reads,
        λ up table written u later reads_u writes_u.
            (invalidate_tables-get up c' table written key later).0 u writes_u
              (rw (tags, keys_of-add_all u key key tables c.table_keys, reads_u, eq_refl key)),
      )
