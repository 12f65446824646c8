-- ===== src/Auth/ApiKeys/Fading/Steps.antt =====
-- Every step keeps what Fading says, and answers accordingly.
use salesdata_api.Base.{
  ◌≡◌, refl, sym, ℕ, ◌+◌, String, List, [], ◌∷◌, ◌++◌, Option, none, some, Bool, true, false, ◌&&◌,
  arith, ltb, All, All-append, ltb→lt, not, if◌then◌else◌,
}
use salesdata_api.Base.Dict.{AllValues, lookup, erase, All-erase, All-insert, All-lookup}
use salesdata_api.Storage.Keys.{ApiKey, KeyInfo, is_key_of, has_key_id, deactivated, without}
use salesdata_api.Storage.Keys
use salesdata_api.Auth.ApiKeys.{
  Cache, Flight, Service, Event, Answer, arrive, read, finish, create, revoke, delete, evict,
  cache_ttl, start_validation, start_from, finished, finish_validation, arrived, landed, step, run,
}
use salesdata_api.Auth.ApiKeys.Fading.{
  Off, EntryFades, FoundFades, FlightFades, Fading, AnswerFades, CreatesOther, stays-Off,
  stays_gone, evict-All, find-All, drop-All, read-Fades,
}

module _ (id owner : String) (limit : ℕ) where
  abbrev Kept : Service × List Answer → Type 0
  Kept (s, answers) = Fading id owner limit s × All (AnswerFades id owner limit) answers

  abbrev FoundEntry : Option (KeyInfo × ℕ) → Type 0
  FoundEntry none = Unit
  FoundEntry (some v) = EntryFades id owner limit v

  found_entry :
      (hash : String) (cache : Cache)
      → AllValues (EntryFades id owner limit) cache
      → FoundEntry (lookup hash cache)
  found_entry hash cache h = found (lookup hash cache) λ v e. All-lookup _ hash cache v h e
    where
      found :
          (o : Option (KeyInfo × ℕ))
          → ((v : KeyInfo × ℕ) → o ≡ some v → EntryFades id owner limit v)
          → FoundEntry o
      found none k = tt
      found (some v) k = k v refl

  arrived-Kept :
      (s : Service) (tag : ℕ) (hash : String) (now : ℕ) (o : Option (KeyInfo × ℕ))
      → Fading id owner limit s
      → FoundEntry o
      → Kept (arrived s tag hash now (start_from s.cache hash now o))
  unfolding start_from arrived
  arrived-Kept s tag hash now none h fades = (
    record {
      rows = h.rows;
      entries = h.entries;
      flights = All-append (FlightFades id owner limit) s.flights _ h.flights (tt, tt);
    },
    tt,
  )
  arrived-Kept s tag hash now (some (info, until)) h fades = fresh (ltb now until) refl
    where
      fresh :
          (b : Bool)
          → b ≡ ltb now until
          → Kept (
              arrived s tag hash now (
                if◌then◌else◌ {A = Cache × Option KeyInfo} b
                  (s.cache, some info)
                  (erase hash s.cache, none)))
      fresh true e = (
        record { rows = h.rows; entries = h.entries; flights = h.flights },
        (λ named. omega (arith, ltb→lt now until (sym e), fades named), tt),
      )
      fresh false e = (
        record {
          rows = h.rows;
          entries = All-erase _ hash s.cache h.entries;
          flights = All-append (FlightFades id owner limit) s.flights _ h.flights (tt, tt);
        },
        tt,
      )

  create-Off :
      (up : Bool) (key : ApiKey) (keys : List ApiKey)
      → is_key_of id owner key ≡ false
      → All (Off id owner) keys
      → All (Off id owner) (Keys.create_api_key up key keys).0
  unfolding Keys.create_api_key
  create-Off up key keys other h = added (up && not (has_key_id key.key_id keys))
    where
      added :
          (b : Bool)
          → All
              (Off id owner)
              (if◌then◌else◌ {A = List ApiKey × Bool} b (keys ++ key ∷ [], true) (keys, false)).0
      added true = All-append _ keys (key ∷ []) h (λ e. absurd (cc), tt)
      added false = h

  land-Kept :
      (s : Service) (f : Flight) (r : Option (Option KeyInfo))
      → Fading id owner limit s
      → FoundFades id owner limit f.started r
      → Kept (landed s f r)
  unfolding landed finish_validation
  land-Kept s f none h fades = (h, tt)
  land-Kept s f (some none) h fades = (
    record { rows = h.rows; entries = h.entries; flights = drop-All _ f.tag s.flights h.flights },
    tt,
  )
  land-Kept s f (some (some info)) h fades = (
    record {
      rows = h.rows;
      entries = All-insert _ f.hash (info, f.started + cache_ttl) s.cache fades h.entries;
      flights = drop-All _ f.tag s.flights h.flights;
    },
    (λ named. omega (arith, fades named), tt),
  )

  finish-Kept :
      (s : Service) (o : Option Flight)
      → Fading id owner limit s
      → ((f : Flight) → o ≡ some f → FlightFades id owner limit f)
      → Kept (finished s o)
  unfolding finished
  finish-Kept s none h fades = (h, tt)
  finish-Kept s (some f) h fades = land-Kept s f f.found h (fades f refl)

  step-Kept :
      (s : Service) (e : Event)
      → CreatesOther id owner e
      → Fading id owner limit s
      → Kept (step s e)
  unfolding step start_validation Keys.revoke_api_key Keys.delete_api_key
  step-Kept s (arrive tag hash now) other h =
      arrived-Kept s tag hash now _ h (found_entry hash s.cache h.entries)
  step-Kept s (read tag up wall) other h = (
    record {
      rows = h.rows;
      entries = h.entries;
      flights = read-Fades id owner limit tag up wall s.keys s.flights h.rows h.flights;
    },
    tt,
  )
  step-Kept s (finish tag) other h = finish-Kept s _ h λ f e. find-All _ tag s.flights f h.flights e
  step-Kept s (create up key) other h = (
    record {
      rows = create-Off up key s.keys other h.rows;
      entries = h.entries;
      flights = h.flights;
    },
    tt,
  )
  step-Kept s (revoke true i o) other h = (
    record {
      rows = stays-Off id owner i o s.keys h.rows;
      entries = h.entries;
      flights = h.flights;
    },
    tt,
  )
  step-Kept s (revoke false i o) other h = (h, tt)
  step-Kept s (delete true i o) other h = (
    record {
      rows = stays_gone id owner i o s.keys h.rows;
      entries = h.entries;
      flights = h.flights;
    },
    tt,
  )
  step-Kept s (delete false i o) other h = (h, tt)
  step-Kept s (evict i) other h =
      (record { rows = h.rows; entries = evict-All _ i s.cache h.entries; flights = h.flights }, tt)

  pub run-Kept :
      (s : Service) (es : List Event)
      → All (CreatesOther id owner) es
      → Fading id owner limit s
      → All (AnswerFades id owner limit) (run s es).1
  unfolding run
  run-Kept s [] others h = tt
  run-Kept s (e ∷ es) others h =
      let (now, answers) = step-Kept s e others.0 h in
      All-append _ (step s e).1 (run (step s e).0 es).1 answers
        (run-Kept (step s e).0 es others.1 now)
