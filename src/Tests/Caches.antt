-- ===== src/Tests/Caches.antt =====
-- Runs of core/db/cache.py.
use salesdata_api.Base.{
  ◌≡◌, ◌≢◌, refl, [], ◌∷◌, false, List, ℕ, arith, none, some, Option, String, eq_iff, ap,
  false≢true, str_eq, sym, ◌∙◌,
}
use salesdata_api.Base.Dict.{lookup, insert, erase}
use salesdata_api.Cache.Entry.{new_entry, is_expired, record_access}
use salesdata_api.Cache.Lru
use salesdata_api.Cache.Lru.{Lru}
use salesdata_api.Cache.Lru.Order.{
  IsRecent, init-IsRecent, run, run-IsRecent, put-evicts_oldest, gets, puts, invalidates, clears,
  Call, end,
}
use salesdata_api.Cache.Ttl
use salesdata_api.Cache.Ttl.{Ttl, earliest}
use salesdata_api.Cache.Ttl.Bounded.{put_overwrites_full, put-lookup}
use salesdata_api.Cache.Hybrid
use salesdata_api.Cache.Hybrid.{Hybrid, cached_call}
use salesdata_api.Cache.Hybrid.Laws.{put-get, cached_call_twice, get-eq-lru}

caches : Unit {0}
unfolding lookup insert erase new_entry is_expired record_access Lru.init Lru.get Lru.get_found
    Lru.put Lru.evict_first Lru.make_room Lru.Order.run Lru.Order.step Ttl.init Ttl.get
    Ttl.get_found Ttl.put Ttl.make_room Ttl.or_default Ttl.expiry Ttl.earliest Ttl.earliest_from
    Hybrid.init Hybrid.get Hybrid.get_checked Hybrid.put Hybrid.cached_call Hybrid.cached_found
caches = tt

abbrev calls : List (ℕ × Call ℕ)
calls =
    (1, puts "a" (some 10) none)
    ∷ (2, puts "b" (some 20) none)
    ∷ (3, gets "a")
    ∷ (4, puts "c" (some 30) none)
    ∷ []

abbrev two : Lru ℕ
two = Lru.init 2

-- the cache after some calls
abbrev after : List (ℕ × Call ℕ) → Lru ℕ
after cs = elim (run two cs) [ none ↦ two | some c ↦ c ]

evicted_b : (Lru.get (after calls) "b" 5).1 ≡ none
unfolding caches
evicted_b = refl

run-IsRecent_example : (c' : Lru ℕ) × (run two calls ≡ some c') × IsRecent (end 0 calls) c'
run-IsRecent_example =
    run-IsRecent calls two 0 (omega arith, (omega arith, (omega arith, (omega arith, tt))))
      (init-IsRecent 2 0 (omega arith))

abbrev full : Lru ℕ
full = record {
  max_size = 2;
  cache = ("b", new_entry (some 20) none 2) ∷ ("a", new_entry (some 10) none 3) ∷ [];
  hits = 0;
  misses = 0;
}

full-IsRecent : IsRecent 3 full
unfolding caches
full-IsRecent = record {
  valid = record { positive = omega arith; bounded = omega arith; distinct = (refl, (refl, tt)) };
  past = (omega arith, (omega arith, tt));
  ordered = ((omega arith, tt), (tt, tt));
}

-- texts that the equality test tells apart
apart : (s t : String) → str_eq s t ≡ false → s ≢ t
apart s t differ same = false≢true (sym differ ∙ (eq_iff s t).1 same)

other_victim : ◌≢◌ {A = Option String} (some "b") (some "a")
other_victim e =
    apart "b" "a" refl (ap (λ (o : Option String). elim o [ none ↦ "b" | some k ↦ k ]) e)

abbrev both : Hybrid ℕ
both = Hybrid.init 2 60

both-IsValid : Hybrid.Laws.IsValid both
unfolding caches
both-IsValid = record {
  lru = record { positive = omega arith; bounded = omega arith; distinct = tt };
  ttl = record { positive = omega arith; bounded = omega arith; distinct = tt };
}

abbrev two_left : Ttl ℕ
two_left = record {
  max_size = 2;
  default_ttl = 60;
  cache = ("a", new_entry (some 1) (some 5) 0) ∷ ("b", new_entry (some 2) (some 90) 0) ∷ [];
  hits = 0;
  misses = 0;
}

two_left-IsValid : Ttl.Bounded.IsValid two_left
unfolding caches
two_left-IsValid = record {
  positive = omega arith;
  bounded = omega arith;
  distinct = (refl, (refl, tt));
}

-- "b" is written again, and "a" is lost
abbrev one_left : Ttl ℕ
one_left = record two_left { cache = ("b", new_entry (some 3) (some 60) 1) ∷ [] }
