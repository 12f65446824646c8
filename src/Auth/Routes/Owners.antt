-- ===== src/Auth/Routes/Owners.antt =====
-- Who may act on a key, and what a revocation or deletion through its route comes to.
use salesdata_api.Base.{
  ◌≡◌, ◌≢◌, refl, ℕ, ◌/◌, String, List, [], ◌∷◌, Bool, true, false, eq_iff, if◌then◌else◌, arith,
  All,
}
use salesdata_api.Storage.Keys.{ApiKey, KeyInfo, is_key_of, deactivated, without}
use salesdata_api.Storage.Keys
use salesdata_api.Auth.ApiKeys.{Service, Event, run}
use salesdata_api.Auth.ApiKeys
use salesdata_api.Auth.ApiKeys.Fading.{CreatesOther}
use salesdata_api.Auth.ApiKeys.Immediate.{OtherKey, removed-immediate}
use salesdata_api.Auth.Middleware.{CurrentUser, is_admin}
use salesdata_api.Auth.Routes.{Reply, reply, http_error, require_owner_or_admin}
use salesdata_api.Auth.Routes.Keys.{
  KeyCreate, expires_in_past, create_api_key, list_api_keys, revoke_api_key, delete_api_key,
}

stranger :
    (caller : CurrentUser) (owner : String)
    → is_admin caller ≡ false
    → caller.user_id ≢ owner
    → require_owner_or_admin caller owner ≡ false
unfolding require_owner_or_admin
stranger caller owner plain other = ground (arith, eq_iff caller.user_id owner)

-- A caller who is neither an admin nor the owner gets 403 from each of the four routes on the owner's
-- keys, and no key or cached validation changes. Only a new key whose expiry is not in the future is
-- answered otherwise, with 422.
pub stranger-forbidden :
    (up : Bool) (caller : CurrentUser) (owner id hash : String) (data_ : KeyCreate) (wall : ℕ)
    (s : Service)
    → is_admin caller ≡ false
    → caller.user_id ≢ owner
    → data_.owner_id ≡ owner
    → (create_api_key up caller data_ id hash wall s
        ≡ (s, http_error (if expires_in_past data_.expires_at (wall / 1000) then 422 else 403)))
      × (list_api_keys up caller owner s ≡ http_error 403)
      × (revoke_api_key up caller id owner s ≡ (s, http_error 403))
      × (delete_api_key up caller id owner s ≡ (s, http_error 403))
unfolding create_api_key list_api_keys revoke_api_key delete_api_key
stranger-forbidden up caller owner id hash data_ wall s plain other for =
    let denied = stranger caller owner plain other in
    (
      rw (for, denied) (past (expires_in_past data_.expires_at (wall / 1000))),
      rw denied refl,
      rw denied refl,
      rw denied refl,
    )
  where
    past :
        (b : Bool)
        → (if◌then◌else◌ {A = Service × Reply KeyInfo} b (s, http_error 422) (s, http_error 403))
          ≡ (s, http_error (if b then 422 else 403))
    past true = refl
    past false = refl

-- Where an owner or an admin revokes or deletes the owner's key through its route, with the database
-- up and no validation in progress, the answer is success, and no request is answered with the key
-- from then on, whatever steps follow that do not create it.
pub removal_route-final :
    (caller : CurrentUser) (id owner : String) (s : Service) (after : List Event)
    → require_owner_or_admin caller owner ≡ true
    → s.flights ≡ []
    → All (CreatesOther id owner) after
    → ((revoke_api_key true caller id owner s).1 ≡ reply id)
      × ((delete_api_key true caller id owner s).1 ≡ reply id)
      × All (OtherKey id owner) (run (revoke_api_key true caller id owner s).0 after).1
      × All (OtherKey id owner) (run (delete_api_key true caller id owner s).0 after).1
unfolding revoke_api_key delete_api_key
removal_route-final caller id owner s after may idle others =
    let (revoked, deleted) = removed-immediate id owner s after idle others in
    (rw may refl, rw may refl, rw may revoked, rw may deleted)

-- No row is the key `id` of `owner`.
abbrev pub Missing : String → String → ApiKey → Type 0
Missing id owner k = is_key_of id owner k ≡ false

deactivated-Missing :
    (id owner : String) (keys : List ApiKey)
    → All (Missing id owner) keys
    → deactivated id owner keys ≡ keys
unfolding deactivated
deactivated-Missing id owner [] h = refl
deactivated-Missing id owner (k ∷ ks) h = ground (arith, deactivated-Missing id owner ks h.1)

without-Missing :
    (id owner : String) (keys : List ApiKey)
    → All (Missing id owner) keys
    → without id owner keys ≡ keys
unfolding without
without-Missing id owner [] h = refl
without-Missing id owner (k ∷ ks) h = ground (arith, without-Missing id owner ks h.1)

-- To revoke or delete a key that the owner does not have, because there is none or it is another
-- user's, changes no row, and yet the routes answer success, even where the database refuses the
-- statement, and the service answers true, unless the database refuses it.
pub removal_route-unowned :
    (caller : CurrentUser) (up : Bool) (id owner : String) (s : Service)
    → require_owner_or_admin caller owner ≡ true
    → All (Missing id owner) s.keys
    → ((revoke_api_key up caller id owner s).0.keys ≡ s.keys)
      × ((delete_api_key up caller id owner s).0.keys ≡ s.keys)
      × ((revoke_api_key up caller id owner s).1 ≡ reply id)
      × ((delete_api_key up caller id owner s).1 ≡ reply id)
      × ((ApiKeys.revoke_api_key up id owner s).1 ≡ up)
      × ((ApiKeys.delete_api_key up id owner s).1 ≡ up)
unfolding revoke_api_key delete_api_key ApiKeys.revoke_api_key ApiKeys.delete_api_key
    Keys.revoke_api_key Keys.delete_api_key
removal_route-unowned caller true id owner s may missing = (
  rw may (deactivated-Missing id owner s.keys missing),
  rw may (without-Missing id owner s.keys missing),
  rw may refl,
  rw may refl,
  refl,
  refl,
)
removal_route-unowned caller false id owner s may missing =
    (rw may refl, rw may refl, rw may refl, rw may refl, refl, refl)
