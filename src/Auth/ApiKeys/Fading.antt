-- ===== src/Auth/ApiKeys/Fading.antt =====
-- A key whose row is gone or off, while the cache and the validations in progress may still have it.
pub mod Steps
use salesdata_api.Base.{
  ◌≡◌, refl, ℕ, ◌+◌, ◌≤◌, ◌<◌, String, List, [], ◌∷◌, ◌++◌, Option, none, some, Bool, true, false,
  either, subst, if◌then◌else◌, ◌&&◌, arith, str_eq, eq_iff, Option-cases, ◌⊎◌, inl, inr, ltb, ◌==◌,
  false≢true, All, All-append,
}
use salesdata_api.Base.Dict.{
  Dict, AllValues, lookup, insert, erase, All-erase, All-insert, All-lookup,
}
use salesdata_api.Storage.Keys.{ApiKey, KeyInfo, is_key_of, select_active, deactivated, without}
use salesdata_api.Storage.Keys
use salesdata_api.Auth.ApiKeys.{
  Cache, Flight, Service, Event, Answer, arrive, read, finish, create, revoke, delete, evict,
  cache_ttl, start_validation, finish_validation, evict_by_key_id, read_flights, find_flight,
  drop_flight, arrived, landed, step, run,
}

-- what was validated is the key `id` of `owner`
abbrev pub names_key : String → String → KeyInfo → Bool
names_key id owner info = str_eq info.key_id id && str_eq info.owner_id owner

abbrev pub Off : String → String → ApiKey → Type 0
Off id owner k = is_key_of id owner k ≡ true → k.is_active ≡ false

abbrev pub EntryFades : String → String → ℕ → KeyInfo × ℕ → Type 0
EntryFades id owner limit (info, until) = names_key id owner info ≡ true → until ≤ limit

abbrev pub FoundFades : String → String → ℕ → ℕ → Option (Option KeyInfo) → Type 0
FoundFades id owner limit t none = Unit
FoundFades id owner limit t (some none) = Unit
FoundFades id owner limit t (some (some info)) =
    names_key id owner info ≡ true → t + cache_ttl ≤ limit

abbrev pub FlightFades : String → String → ℕ → Flight → Type 0
FlightFades id owner limit f = FoundFades id owner limit f.started f.found

-- No row has the key switched on, and nothing that remembers it is trusted beyond `limit`.
pub record Fading (id owner : String) (limit : ℕ) (s : Service) : Type 0 where
  pub rows : All (Off id owner) s.keys
  pub entries : AllValues (EntryFades id owner limit) s.cache
  pub flights : All (FlightFades id owner limit) s.flights

module _ (id owner : String) where
  pub deactivated-Off : (keys : List ApiKey) → All (Off id owner) (deactivated id owner keys)
  unfolding deactivated
  deactivated-Off [] = tt
  deactivated-Off (k ∷ ks) = ground (arith, deactivated-Off ks)

  pub without-Off : (keys : List ApiKey) → All (Off id owner) (without id owner keys)
  unfolding without
  without-Off [] = tt
  without-Off (k ∷ ks) = ground (arith, without-Off ks)

  pub stays-Off :
      (i o : String) (keys : List ApiKey)
      → All (Off id owner) keys
      → All (Off id owner) (deactivated i o keys)
  unfolding deactivated
  stays-Off i o [] h = tt
  stays-Off i o (k ∷ ks) h = ground (arith, stays-Off i o ks h.1)

  pub stays_gone :
      (i o : String) (keys : List ApiKey)
      → All (Off id owner) keys
      → All (Off id owner) (without i o keys)
  unfolding without
  stays_gone i o [] h = tt
  stays_gone i o (k ∷ ks) h = ground (arith, stays_gone i o ks h.1)

  select-Off :
      (hash : String) (keys : List ApiKey) (k : ApiKey)
      → All (Off id owner) keys
      → select_active hash keys ≡ some k
      → is_key_of id owner k ≡ false
  unfolding select_active
  select-Off hash [] k h e = cc
  select-Off hash (j ∷ js) k h e = ground (arith, select-Off hash js k h.1)

  -- A query that starts now does not find the key.
  pub validate-Off :
      (up : Bool) (hash : String) (wall : ℕ) (keys : List ApiKey) (info : KeyInfo)
      → All (Off id owner) keys
      → Keys.validate_api_key up hash wall keys ≡ some info
      → names_key id owner info ≡ false
  unfolding Keys.validate_api_key
  validate-Off up hash wall keys info h e = elim (Option-cases (select_active hash keys)) [
    | inl none_found ↦ ground (arith, none_found)
    | inr (k, found) ↦ ground (arith, found, select-Off hash keys k h found)
  ]

abbrev pub AnswerFades : String → String → ℕ → Answer → Type 0
AnswerFades id owner limit (t, info) = names_key id owner info ≡ true → t < limit

-- the event is not the insertion of the key itself
abbrev pub CreatesOther : String → String → Event → Type 0
CreatesOther id owner (create up key) = is_key_of id owner key ≡ false
CreatesOther id owner (arrive tag hash now) = Unit
CreatesOther id owner (read tag up wall) = Unit
CreatesOther id owner (finish tag) = Unit
CreatesOther id owner (revoke up i o) = Unit
CreatesOther id owner (delete up i o) = Unit
CreatesOther id owner (evict i) = Unit

module _ (P : KeyInfo × ℕ → Type 0) where
  pub evict-All :
      (i : String) (cache : Cache) → AllValues P cache → AllValues P (evict_by_key_id i cache)
  unfolding evict_by_key_id
  evict-All i [] h = tt
  evict-All i ((j, (info, until)) ∷ rest) h =
      either (AllValues P) (str_eq info.key_id i) (evict-All i rest h.1) (h.0, evict-All i rest h.1)

module _ (P : Flight → Type 0) where
  pub find-All :
      (tag : ℕ) (fs : List Flight) (f : Flight) → All P fs → find_flight tag fs ≡ some f → P f
  unfolding find_flight
  find-All tag [] f h e = cc
  find-All tag (g ∷ gs) f h e = found (g.tag == tag) e (find-All tag gs f h.1)
    where
      found :
          (b : Bool)
          → (if b then some g else find_flight tag gs) ≡ some f
          → (find_flight tag gs ≡ some f → P f)
          → P f
      found true e' later = subst P (cc) h.0
      found false e' later = later e'

  pub drop-All : (tag : ℕ) (fs : List Flight) → All P fs → All P (drop_flight tag fs)
  unfolding drop_flight
  drop-All tag [] h = tt
  drop-All tag (g ∷ gs) h =
      either (All P) (g.tag == tag) (drop-All tag gs h.1) (h.0, drop-All tag gs h.1)

module _ (id owner : String) (limit : ℕ) where
  found-Fades :
      (t : ℕ) (r : Option KeyInfo)
      → ((info : KeyInfo) → r ≡ some info → names_key id owner info ≡ false)
      → FoundFades id owner limit t (some r)
  found-Fades t none h = tt
  found-Fades t (some info) h = λ named. absurd (ground (arith, h info refl))

  pub read-Fades :
      (tag : ℕ) (up : Bool) (wall : ℕ) (keys : List ApiKey) (fs : List Flight)
      → All (Off id owner) keys
      → All (FlightFades id owner limit) fs
      → All (FlightFades id owner limit) (read_flights tag up wall keys fs)
  unfolding read_flights
  read-Fades tag up wall keys [] off h = tt
  read-Fades tag up wall keys (f ∷ fs) off h = (
    either (FlightFades id owner limit) (f.tag == tag)
        (found-Fades f.started _ λ info e. validate-Off id owner up f.hash wall keys info off e)
        h.0,
    read-Fades tag up wall keys fs off h.1,
  )
