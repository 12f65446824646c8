-- ===== src/Auth/ApiKeys/Immediate.antt =====
-- A revocation or deletion that no validation overlaps.
use salesdata_api.Base.{
  ◌≡◌, refl, String, List, [], ◌∷◌, Bool, true, false, arith, All, All-weaken, str_eq,
  if◌then◌else◌,
}
use salesdata_api.Base.Dict.{AllValues}
use salesdata_api.Storage.Keys.{KeyInfo}
use salesdata_api.Storage.Keys
use salesdata_api.Auth.ApiKeys.{
  Cache, Flight, Service, Event, Answer, evict_by_key_id, run, revoke_api_key, delete_api_key,
}
use salesdata_api.Auth.ApiKeys.Fading.{
  names_key, EntryFades, FlightFades, AnswerFades, CreatesOther, deactivated-Off, without-Off,
}
use salesdata_api.Auth.ApiKeys.Fading.Steps.{run-Kept}

-- The answer is another key than `id` of `owner`.
abbrev pub OtherKey : String → String → Answer → Type 0
OtherKey id owner (t, info) = names_key id owner info ≡ false

evict-fades :
    (id owner : String) (cache : Cache)
    → AllValues (EntryFades id owner 0) (evict_by_key_id id cache)
unfolding evict_by_key_id
evict-fades id owner [] = tt
evict-fades id owner ((h, (info, until)) ∷ rest) =
    by_id (str_eq info.key_id id) (evict-fades id owner rest)
      λ e named. absurd (ground (arith, e, named))
  where
    by_id :
        (b : Bool)
        → AllValues (EntryFades id owner 0) (evict_by_key_id id rest)
        → (b ≡ false → EntryFades id owner 0 (info, until))
        → AllValues
            (EntryFades id owner 0)
            (if b then evict_by_key_id id rest else (h, (info, until)) ∷ evict_by_key_id id rest)
    by_id true others new = others
    by_id false others new = (new refl, others)

no_flight : (id owner : String) (fs : List Flight) → fs ≡ [] → All (FlightFades id owner 0) fs
no_flight id owner [] e = tt
no_flight id owner (f ∷ fs) e = cc

never : (id owner : String) (a : Answer) → AnswerFades id owner 0 a → OtherKey id owner a
never id owner (t, info) fades = ground (arith, fades)

-- A key that a call of the service revokes or deletes while no validation is in progress, with the
-- database up, is the answer of no request from then on, whatever steps follow that do not create it.
pub removed-immediate :
    (id owner : String) (s : Service) (after : List Event)
    → s.flights ≡ []
    → All (CreatesOther id owner) after
    → All (OtherKey id owner) (run (revoke_api_key true id owner s).0 after).1
      × All (OtherKey id owner) (run (delete_api_key true id owner s).0 after).1
unfolding revoke_api_key delete_api_key Keys.revoke_api_key Keys.delete_api_key
removed-immediate id owner s after idle others = (
  All-weaken _ (never id owner) (
      run-Kept id owner 0 _ after others (record {
        rows = deactivated-Off id owner s.keys;
        entries = evict-fades id owner s.cache;
        flights = no_flight id owner s.flights idle;
      })),
  All-weaken _ (never id owner) (
      run-Kept id owner 0 _ after others (record {
        rows = without-Off id owner s.keys;
        entries = evict-fades id owner s.cache;
        flights = no_flight id owner s.flights idle;
      })),
)
