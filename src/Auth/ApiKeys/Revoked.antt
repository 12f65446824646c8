-- ===== src/Auth/ApiKeys/Revoked.antt =====
-- How long a key lives on after its row is switched off or deleted.
use salesdata_api.Base.{
  ◌≡◌, refl, ℕ, ◌+◌, ◌≤◌, String, List, [], ◌∷◌, Option, none, some, Bool, true, arith, ltb, All,
  All-append, either, ◌==◌,
}
use salesdata_api.Base.Dict.{AllValues, All-erase, All-insert}
use salesdata_api.Storage.Keys.{ApiKey, KeyInfo, is_key_of}
use salesdata_api.Storage.Keys
use salesdata_api.Auth.ApiKeys.{
  Cache, Flight, Service, Event, arrive, read, finish, create, revoke, delete, evict, cache_ttl,
  start, start_validation, start_from, finished, finish_validation, read_flights, arrived, landed,
  step, run,
}
use salesdata_api.Auth.ApiKeys.Fading.{
  EntryFades, FoundFades, FlightFades, Fading, AnswerFades, CreatesOther, deactivated-Off,
  without-Off, evict-All, find-All, drop-All,
}
use salesdata_api.Auth.ApiKeys.Fading.Steps.{run-Kept}

-- Requests that have arrived by the time `t`.
abbrev pub ArrivesBy : ℕ → Event → Type 0
ArrivesBy t (arrive tag hash now) = now ≤ t
ArrivesBy t (read tag up wall) = Unit
ArrivesBy t (finish tag) = Unit
ArrivesBy t (create up key) = Unit
ArrivesBy t (revoke up i o) = Unit
ArrivesBy t (delete up i o) = Unit
ArrivesBy t (evict i) = Unit

-- The statements that take the key `id` of `owner` away, where the database carries them out.
pub data Removes (id owner : String) : Event → Type 0 where
  by_revoke : Removes id owner (revoke true id owner)
  by_delete : Removes id owner (delete true id owner)

module _ (t : ℕ) where
  abbrev EntryBy : KeyInfo × ℕ → Type 0
  EntryBy (info, until) = until ≤ t + cache_ttl

  abbrev FlightBy : Flight → Type 0
  FlightBy f = f.started ≤ t

  -- Nothing in the state is younger than `t`.
  record Clocked (s : Service) : Type 0 where
    entries : AllValues EntryBy s.cache
    flights : All FlightBy s.flights

  arrived-Clocked :
      (s : Service) (tag : ℕ) (hash : String) (now : ℕ) (o : Option (KeyInfo × ℕ))
      → Clocked s
      → now ≤ t
      → Clocked (arrived s tag hash now (start_from s.cache hash now o)).0
  unfolding start_from arrived
  arrived-Clocked s tag hash now none h le = record {
    entries = h.entries;
    flights = All-append FlightBy s.flights _ h.flights (le, tt);
  }
  arrived-Clocked s tag hash now (some (info, until)) h le =
      either (λ r. Clocked (arrived s tag hash now r).0) (ltb now until)
        (record { entries = h.entries; flights = h.flights })
        (record {
          entries = All-erase _ hash s.cache h.entries;
          flights = All-append FlightBy s.flights _ h.flights (le, tt);
        })

  read-Clocked :
      (tag : ℕ) (up : Bool) (wall : ℕ) (keys : List ApiKey) (fs : List Flight)
      → All FlightBy fs
      → All FlightBy (read_flights tag up wall keys fs)
  unfolding read_flights
  read-Clocked tag up wall keys [] h = tt
  read-Clocked tag up wall keys (f ∷ fs) h =
      (either FlightBy (f.tag == tag) h.0 h.0, read-Clocked tag up wall keys fs h.1)

  land-Clocked :
      (s : Service) (f : Flight) (r : Option (Option KeyInfo))
      → Clocked s
      → FlightBy f
      → Clocked (landed s f r).0
  unfolding landed finish_validation
  land-Clocked s f none h le = h
  land-Clocked s f (some none) h le = record {
    entries = h.entries;
    flights = drop-All _ f.tag s.flights h.flights;
  }
  land-Clocked s f (some (some info)) h le = record {
    entries =
        All-insert EntryBy f.hash (info, f.started + cache_ttl) s.cache (omega arith) h.entries;
    flights = drop-All _ f.tag s.flights h.flights;
  }

  finish-Clocked :
      (s : Service) (o : Option Flight)
      → Clocked s
      → ((f : Flight) → o ≡ some f → FlightBy f)
      → Clocked (finished s o).0
  unfolding finished
  finish-Clocked s none h by = h
  finish-Clocked s (some f) h by = land-Clocked s f f.found h (by f refl)

  step-Clocked : (s : Service) (e : Event) → ArrivesBy t e → Clocked s → Clocked (step s e).0
  unfolding step start_validation
  step-Clocked s (arrive tag hash now) le h = arrived-Clocked s tag hash now _ h le
  step-Clocked s (read tag up wall) le h = record {
    entries = h.entries;
    flights = read-Clocked tag up wall s.keys s.flights h.flights;
  }
  step-Clocked s (finish tag) le h =
      finish-Clocked s _ h λ f e. find-All FlightBy tag s.flights f h.flights e
  step-Clocked s (create up key) le h = record { entries = h.entries; flights = h.flights }
  step-Clocked s (revoke up i o) le h = record { entries = h.entries; flights = h.flights }
  step-Clocked s (delete up i o) le h = record { entries = h.entries; flights = h.flights }
  step-Clocked s (evict i) le h = record {
    entries = evict-All _ i s.cache h.entries;
    flights = h.flights;
  }

  run-Clocked :
      (s : Service) (es : List Event) → All (ArrivesBy t) es → Clocked s → Clocked (run s es).0
  unfolding run
  run-Clocked s [] by h = h
  run-Clocked s (e ∷ es) by h = run-Clocked (step s e).0 es by.1 (step-Clocked s e by.0 h)

  module _ (id owner : String) where
    found-fades :
        (at : ℕ) (r : Option (Option KeyInfo)) → at ≤ t → FoundFades id owner (t + cache_ttl) at r
    found-fades at none le = tt
    found-fades at (some none) le = tt
    found-fades at (some (some info)) le = λ named. omega arith

    flights-fade :
        (fs : List Flight) → All FlightBy fs → All (FlightFades id owner (t + cache_ttl)) fs
    flights-fade [] h = tt
    flights-fade (f ∷ fs) h = (found-fades f.started f.found h.0, flights-fade fs h.1)

    entries-fade :
        (cache : Cache)
        → AllValues EntryBy cache
        → AllValues (EntryFades id owner (t + cache_ttl)) cache
    entries-fade [] h = tt
    entries-fade (e ∷ cache) h = (λ named. h.0, entries-fade cache h.1)

    removed-Fading :
        (s : Service) (e : Event)
        → Removes id owner e
        → Clocked s
        → Fading id owner (t + cache_ttl) (step s e).0
    unfolding step Keys.revoke_api_key Keys.delete_api_key
    removed-Fading s _ by_revoke h = record {
      rows = deactivated-Off id owner s.keys;
      entries = entries-fade s.cache h.entries;
      flights = flights-fade s.flights h.flights;
    }
    removed-Fading s _ by_delete h = record {
      rows = without-Off id owner s.keys;
      entries = entries-fade s.cache h.entries;
      flights = flights-fade s.flights h.flights;
    }

-- Once the database has switched off or deleted a key, no request that arrives thirty seconds or
-- more after it is answered with that key, whatever steps of validations, revocations and creations
-- of other keys come before and after it and in whatever order: every request answered with the key
-- has arrived earlier. It holds of any table and of the requests that are under way, and does not
-- rest on the eviction from the cache.
pub removed-expires :
    (id owner : String) (t : ℕ) (keys : List ApiKey) (before : List Event) (e : Event)
    (after : List Event)
    → All (ArrivesBy t) before
    → Removes id owner e
    → All (CreatesOther id owner) after
    → All
        (AnswerFades id owner (t + cache_ttl))
        (run (step (run (start keys) before).0 e).0 after).1
removed-expires id owner t keys before e after by gone others =
    let now = run-Clocked t (start keys) before by (record { entries = tt; flights = tt }) in
    run-Kept id owner (t + cache_ttl) _ after others (removed-Fading t id owner _ e gone now)
