-- ===== src/Auth/ApiKeys.antt =====
-- `APIKeyService` of core/auth/api_key_service.py over the table of Storage/Keys. A key is its hash
-- here: `hash_api_key` is the caller's. The monotonic clock counts milliseconds, the wall clock
-- seconds. The repository's calls run on an executor, so a validation that misses the cache is three
-- steps: it arrives, its query is read, and it finishes; a revocation changes the row, then evicts.
pub mod Fading
pub mod Revoked
pub mod Immediate
pub mod Created
use salesdata_api.Base.{
  ℕ, ◌+◌, String, List, [], ◌∷◌, ◌++◌, Option, none, some, Bool, true, false, ltb, str_eq, ◌==◌,
  if◌then◌else◌,
}
use salesdata_api.Base.Dict.{Dict, lookup, insert, erase}
use salesdata_api.Storage.Keys.{ApiKey, KeyInfo, info_of}
use salesdata_api.Storage.Keys

-- `_validation_cache`: the hash to what was validated, and until when that is trusted
abbrev pub Cache : Type 0
Cache = Dict (KeyInfo × ℕ)

-- `_CACHE_TTL_SECONDS`
abbrev pub cache_ttl : ℕ
cache_ttl = 30_000

-- `validate_api_key` up to its query: the entry, if there is one that is still trusted
unfoldable pub start_from : Cache → String → ℕ → Option (KeyInfo × ℕ) → Cache × Option KeyInfo
start_from cache hash now none = (cache, none)
start_from cache hash now (some (info, until)) =
    if ltb now until then (cache, some info) else (erase hash cache, none)

unfoldable pub start_validation : Cache → String → ℕ → Cache × Option KeyInfo
unfolding start_from
start_validation cache hash now = start_from cache hash now (lookup hash cache)

-- and from its query's answer on; `now` is the time of its start
unfoldable pub finish_validation : Cache → String → ℕ → Option KeyInfo → Cache × Option KeyInfo
finish_validation cache hash now none = (cache, none)
finish_validation cache hash now (some info) =
    (insert hash (info, now + cache_ttl) cache, some info)

unfoldable pub evict_by_key_id : String → Cache → Cache
evict_by_key_id id [] = []
evict_by_key_id id ((h, (info, until)) ∷ rest) =
    let kept = evict_by_key_id id rest in
    if str_eq info.key_id id then kept else (h, (info, until)) ∷ kept

-- a validation between its start and its end; `found` is what its query has answered
pub record Flight : Type 0 where
  pub tag : ℕ
  pub hash : String
  pub started : ℕ
  pub found : Option (Option KeyInfo)

pub record Service : Type 0 where
  pub keys : List ApiKey
  pub cache : Cache
  pub flights : List Flight

abbrev pub start : List ApiKey → Service
start keys = record { keys = keys; cache = []; flights = [] }

-- `row` is what the query answers, if it is asked
unfoldable pub validated :
    Service → String → ℕ → Option KeyInfo → Cache × Option KeyInfo → Service × Option KeyInfo
unfolding finish_validation
validated s hash now row (cache, some info) = (record s { cache = cache }, some info)
validated s hash now row (cache, none) =
    let (after, answer) = finish_validation cache hash now row in
    (record s { cache = after }, answer)

-- a whole call that nothing interrupts
unfoldable pub validate_api_key : Bool → String → ℕ → ℕ → Service → Service × Option KeyInfo
unfolding start_validation validated Keys.validate_api_key
validate_api_key up hash now wall s =
    validated s hash now (Keys.validate_api_key up hash wall s.keys)
      (start_validation s.cache hash now)

-- what is returned does not depend on what the repository answers
unfoldable pub create_api_key : Bool → ApiKey → Service → Service × KeyInfo
unfolding Keys.create_api_key
create_api_key up key s =
    let (keys, taken) = Keys.create_api_key up key s.keys in (record s { keys = keys }, info_of key)

abbrev pub after_change : String → Service → List ApiKey × Bool → Service × Bool
after_change id s (keys, result) = (
  if result
      then record s { keys = keys; cache = evict_by_key_id id s.cache }
      else record s { keys = keys },
  result,
)

unfoldable pub revoke_api_key : Bool → String → String → Service → Service × Bool
unfolding Keys.revoke_api_key evict_by_key_id
revoke_api_key up id owner s = after_change id s (Keys.revoke_api_key up id owner s.keys)

unfoldable pub delete_api_key : Bool → String → String → Service → Service × Bool
unfolding Keys.delete_api_key evict_by_key_id
delete_api_key up id owner s = after_change id s (Keys.delete_api_key up id owner s.keys)

unfoldable pub list_api_keys : Bool → String → Service → List KeyInfo
unfolding Keys.list_api_keys_by_owner
list_api_keys up owner s = Keys.list_api_keys_by_owner up owner s.keys

-- The steps that calls in progress take in turn.
pub data Event : Type 0 where
  arrive : ℕ → String → ℕ → Event
  read : ℕ → Bool → ℕ → Event
  finish : ℕ → Event
  create : Bool → ApiKey → Event
  revoke : Bool → String → String → Event
  delete : Bool → String → String → Event
  evict : String → Event

-- the executor's thread answers the query of the validation with this tag
unfoldable pub read_flights : ℕ → Bool → ℕ → List ApiKey → List Flight → List Flight
unfolding Keys.validate_api_key
read_flights tag up wall keys [] = []
read_flights tag up wall keys (f ∷ fs) =
    (if f.tag == tag
      then record f { found = some (Keys.validate_api_key up f.hash wall keys) }
      else f)
    ∷ read_flights tag up wall keys fs

unfoldable pub find_flight : ℕ → List Flight → Option Flight
find_flight tag [] = none
find_flight tag (f ∷ fs) = if f.tag == tag then some f else find_flight tag fs

unfoldable pub drop_flight : ℕ → List Flight → List Flight
drop_flight tag [] = []
drop_flight tag (f ∷ fs) = let rest = drop_flight tag fs in if f.tag == tag then rest else f ∷ rest

-- an answer to the caller: when its validation started, and the key it got
abbrev pub Answer : Type 0
Answer = ℕ × KeyInfo

abbrev pub answer_at : ℕ → Option KeyInfo → List Answer
answer_at t none = []
answer_at t (some info) = (t, info) ∷ []

unfoldable pub arrived : Service → ℕ → String → ℕ → Cache × Option KeyInfo → Service × List Answer
arrived s tag hash now (cache, some info) = (record s { cache = cache }, (now, info) ∷ [])
arrived s tag hash now (cache, none) = (
  record s {
    cache = cache;
    flights = s.flights ++ record { tag = tag; hash = hash; started = now; found = none } ∷ [];
  },
  [],
)

unfoldable pub landed : Service → Flight → Option (Option KeyInfo) → Service × List Answer
unfolding finish_validation drop_flight
landed s f none = (s, [])
landed s f (some result) =
    let (cache, answer) = finish_validation s.cache f.hash f.started result in
    (record s { cache = cache; flights = drop_flight f.tag s.flights }, answer_at f.started answer)

unfoldable pub finished : Service → Option Flight → Service × List Answer
unfolding landed
finished s none = (s, [])
finished s (some f) = landed s f f.found

unfoldable pub step : Service → Event → Service × List Answer
unfolding start_validation arrived read_flights find_flight finished Keys.create_api_key
    Keys.revoke_api_key Keys.delete_api_key evict_by_key_id
step s (arrive tag hash now) = arrived s tag hash now (start_validation s.cache hash now)
step s (read tag up wall) = (record s { flights = read_flights tag up wall s.keys s.flights }, [])
step s (finish tag) = finished s (find_flight tag s.flights)
step s (create up key) = (record s { keys = (Keys.create_api_key up key s.keys).0 }, [])
step s (revoke up id owner) = (record s { keys = (Keys.revoke_api_key up id owner s.keys).0 }, [])
step s (delete up id owner) = (record s { keys = (Keys.delete_api_key up id owner s.keys).0 }, [])
step s (evict id) = (record s { cache = evict_by_key_id id s.cache }, [])

unfoldable pub run : Service → List Event → Service × List Answer
unfolding step
run s [] = (s, [])
run s (e ∷ es) =
    let (s', answers) = step s e in let (end, more) = run s' es in (end, answers ++ more)
