-- ===== src/Tests/Keys.antt =====
-- Runs of core/auth/api_key_service.py and of the middleware and routes that use it.
use salesdata_api.Base.{
  ◌≡◌, refl, ℕ, ◌+◌, List, [], ◌∷◌, String, Option, none, some, true, All, arith, if◌then◌else◌,
  ◌&&◌, not, ◌/◌, eq_iff, false≢true,
}
use salesdata_api.Base.Dict.{lookup, insert, erase}
use salesdata_api.Sql.Chars.{codes, text_eq, is_space}
use salesdata_api.Sql.Policy.{member, split_commas}
use salesdata_api.Storage.Keys.{ApiKey, KeyInfo, info_of, has_key_id, is_expired, select_active}
use salesdata_api.Storage.Keys
use salesdata_api.Storage.Users.{
  User, find_by_id, get_user_by_id, list_all, by_age, newest_user, with_role,
  update_user_role as update_role,
}
use salesdata_api.Auth.ApiKeys
use salesdata_api.Auth.ApiKeys.{
  Service, Event, arrive, read, finish, create, revoke, delete, evict, start, step, run, cache_ttl,
  create_api_key, validate_api_key, start_validation, start_from, finish_validation, validated,
  read_flights, find_flight, drop_flight, landed, finished, arrived, evict_by_key_id,
  revoke_api_key,
}
use salesdata_api.Auth.ApiKeys.Fading.{AnswerFades}
use salesdata_api.Auth.ApiKeys.Revoked.{removed-expires, by_revoke}
use salesdata_api.Auth.ApiKeys.Immediate.{OtherKey}
use salesdata_api.Auth.ApiKeys.Created.{validate-create}
use salesdata_api.Auth.Middleware.{
  Request, State, Identity, Claims, passes, unauthorized, enforce_auth, is_protected, starts_with,
  bearer_token, remove_first, find_owner, get_cached_user, cache_user, role_of, key_identity,
  by_key, authenticate, CurrentUser, is_admin,
}
use salesdata_api.Auth.Middleware.Gate.{enforce_auth-Granted}
use salesdata_api.Auth.Middleware.Identities.{Granted}
use salesdata_api.Auth.Routes.Revoking.{role_change-refuses}
use salesdata_api.Auth.Routes.Roles
use salesdata_api.Auth.Routes.{
  Reply, UserResponse, reply, http_error, require_owner_or_admin, primary_role,
}
use salesdata_api.Auth.Routes.Keys.{KeyCreate, expires_in_past}
use salesdata_api.Auth.Routes.Keys as KeyRoutes
use salesdata_api.Auth.Routes.Owners.{
  stranger-forbidden, removal_route-final, removal_route-unowned,
}

abbrev key_of : String → String → String → ApiKey
key_of id hash owner = record {
  key_id = id;
  api_key_hash = hash;
  owner_id = owner;
  created_at = 100;
  expires_at = some 5_000;
  scopes = some (codes "read");
  is_active = true;
}

abbrev first_key : ApiKey
first_key = key_of "k1" "h1" "ann"

abbrev second_key : ApiKey
second_key = key_of "k2" "h2" "bob"

-- A validation that is under way, and one that is cached, when the key is revoked at 2 seconds.
abbrev earlier : List Event
earlier =
    arrive 1 "h1" 1_000 ∷ read 1 true 110 ∷ finish 1 ∷ arrive 2 "h2" 2_000 ∷ read 2 true 112 ∷ []

abbrev later : List Event
later =
    finish 2
    ∷ arrive 3 "h1" 2_500
    ∷ arrive 4 "h2" 9_000
    ∷ arrive 5 "h2" 32_000
    ∷ read 5 true 150
    ∷ finish 5
    ∷ []

-- the cache still answers for the revoked key at 9 seconds, and no more at 32
revoked-run :
    (run
      (step (run (start (first_key ∷ second_key ∷ [])) earlier).0 (revoke true "k2" "bob")).0
      later).1
    ≡ (2_000, info_of second_key) ∷ (2_500, info_of first_key) ∷ (9_000, info_of second_key) ∷ []
unfolding run step start_validation start_from finish_validation Keys.validate_api_key
    Keys.revoke_api_key Keys.deactivated select_active is_expired read_flights find_flight
    drop_flight landed finished arrived lookup insert erase
revoked-run = refl

removed-expires_example :
    All
      (AnswerFades "k2" "bob" (2_000 + cache_ttl))
      (run
        (step (run (start (first_key ∷ second_key ∷ [])) earlier).0 (revoke true "k2" "bob")).0
        later).1
removed-expires_example =
    removed-expires "k2" "bob" 2_000 (first_key ∷ second_key ∷ []) earlier (revoke true "k2" "bob")
      later (omega arith, (tt, (tt, (omega arith, (tt, tt))))) by_revoke
      (tt, (tt, (tt, (tt, (tt, (tt, tt))))))

abbrev empty_service : Service
empty_service = start (first_key ∷ [])

abbrev two_keys : Service
two_keys = start (first_key ∷ second_key ∷ [])

validate-create_example :
    let (after, returned) = create_api_key true second_key empty_service in
    ((validate_api_key true "h2" 7 120 after).1 ≡ (
      if true && not (has_key_id "k2" (first_key ∷ [])) then some (info_of second_key) else none))
    × (returned ≡ info_of second_key)
validate-create_example =
    validate-create true second_key empty_service 7 120 refl (unfold select_active in refl)
      (unfold lookup in refl) (unfold is_expired in refl)

abbrev ann : User
ann = record {
  user_id = "ann";
  username = "Ann";
  email = "ann@x";
  password_hash = [];
  roles = codes "admin";
  is_active = true;
  created_at = 1;
  updated_at = 1;
  last_login_at = none;
}

abbrev caller : CurrentUser
caller = record { user_id = "ann"; role = codes "user"; scopes = codes "read" }

abbrev new_key : KeyCreate
new_key = record { owner_id = "bob"; scopes = none; expires_at = none }

stranger-forbidden_example :
    (KeyRoutes.create_api_key true caller new_key "k3" "h3" 9_000 two_keys
      ≡ (two_keys, http_error (if expires_in_past none (9_000 / 1000) then 422 else 403)))
    × (KeyRoutes.list_api_keys true caller "bob" two_keys ≡ http_error 403)
    × (KeyRoutes.revoke_api_key true caller "k3" "bob" two_keys ≡ (two_keys, http_error 403))
    × (KeyRoutes.delete_api_key true caller "k3" "bob" two_keys ≡ (two_keys, http_error 403))
stranger-forbidden_example =
    stranger-forbidden true caller "bob" "k3" "h3" new_key 9_000 two_keys
      (unfold is_admin text_eq in refl) (λ e. false≢true ((eq_iff "ann" "bob").1 e)) refl

removal_route-final_example :
    ((KeyRoutes.revoke_api_key true caller "k1" "ann" two_keys).1 ≡ reply "k1")
    × ((KeyRoutes.delete_api_key true caller "k1" "ann" two_keys).1 ≡ reply "k1")
    × All
        (OtherKey "k1" "ann")
        (run (KeyRoutes.revoke_api_key true caller "k1" "ann" two_keys).0 later).1
    × All
        (OtherKey "k1" "ann")
        (run (KeyRoutes.delete_api_key true caller "k1" "ann" two_keys).0 later).1
removal_route-final_example =
    removal_route-final caller "k1" "ann" two_keys later
      (unfold require_owner_or_admin is_admin text_eq in refl) refl
      (tt, (tt, (tt, (tt, (tt, (tt, tt))))))

-- ann asks to revoke bob's key as her own
removal_route-unowned_example :
    ((KeyRoutes.revoke_api_key true caller "k2" "ann" two_keys).0.keys ≡ two_keys.keys)
    × ((KeyRoutes.delete_api_key true caller "k2" "ann" two_keys).0.keys ≡ two_keys.keys)
    × ((KeyRoutes.revoke_api_key true caller "k2" "ann" two_keys).1 ≡ reply "k2")
    × ((KeyRoutes.delete_api_key true caller "k2" "ann" two_keys).1 ≡ reply "k2")
    × ((ApiKeys.revoke_api_key true "k2" "ann" two_keys).1 ≡ true)
    × ((ApiKeys.delete_api_key true "k2" "ann" two_keys).1 ≡ true)
removal_route-unowned_example =
    removal_route-unowned caller true "k2" "ann" two_keys
      (unfold require_owner_or_admin is_admin text_eq in refl) (refl, (refl, tt))

-- SHA-256 takes a key to a hash, and a token decodes if it is "t"
abbrev hashed : List ℕ → String
hashed key = if text_eq key (codes "key-1") then "h1" else "h9"

abbrev anns : Claims
anns = record {
  user_id = some "ann";
  username = some "Ann";
  role = some (codes "admin");
  iat = some 40;
}

abbrev decoded : List ℕ → Option Claims
decoded token = if text_eq token (codes "t") then some anns else none

abbrev state : State
state = record { service = two_keys; users = ann ∷ []; user_cache = []; revoked_before = [] }

abbrev with_key : Request
with_key = record {
  path = codes "/api/query";
  x_api_key = some (codes " key-1 ");
  authorization = none;
  x_session_id = none;
  now = 50;
  wall = 120_000;
  keys_up = true;
  users_up = true;
}

abbrev with_token : Request
with_token = record with_key { x_api_key = none; authorization = some (codes "Bearer t") }

-- the key is ann's: it has the key's scopes and ann's role
abbrev ann_by_key : Identity
ann_by_key = record {
  user_id = "ann";
  username = "Ann";
  role = codes "admin";
  scopes = codes "read";
  session_id = codes "api-key";
}

passed : (enforce_auth hashed decoded true true with_key state).1 ≡ passes (some ann_by_key)
unfolding enforce_auth is_protected starts_with member text_eq is_space authenticate by_key
    validate_api_key start_validation start_from finish_validation validated Keys.validate_api_key
    select_active is_expired find_owner get_cached_user cache_user get_user_by_id find_by_id role_of
    split_commas key_identity lookup insert erase
passed = refl

protected : is_protected (codes "/api/query") ≡ true
unfolding is_protected starts_with member text_eq
protected = refl

enforce_auth-Granted_example :
    (i : Identity) × (some ann_by_key ≡ some i) × Granted hashed decoded with_key state i
enforce_auth-Granted_example =
    enforce_auth-Granted hashed decoded true true with_key state (some ann_by_key) protected passed

abbrev role_db : Roles.RoleDb
role_db = record { read_up = true; list_up = true; update_up = true; again_up = true }

abbrev root : CurrentUser
root = record { user_id = "bob"; role = codes "admin"; scopes = codes "read,write" }

abbrev two_admins : State
two_admins = record state {
  users = ann ∷ record ann { user_id = "bob"; username = "Bob"; email = "bob@x" } ∷ [];
  user_cache = ("ann", (ann, 60)) ∷ [];
}

abbrev demoted : State × Reply UserResponse
demoted = Roles.update_user_role role_db root "ann" (codes "user") 41_500 two_admins

abbrev body : UserResponse
body = Roles.updated_response true ann "ann" (codes "user") demoted.0.users

-- a token of second 40, and a change of role 41.5 seconds in
role_change-refuses_example :
    ((enforce_auth hashed decoded true true with_token demoted.0).1 ≡ unauthorized)
    × (lookup "ann" demoted.0.user_cache ≡ none)
role_change-refuses_example =
    role_change-refuses hashed decoded true true role_db root "ann" (codes "user") 41_500 two_admins
      demoted.0 body with_token anns
      (unfold Roles.update_user_role Roles.role_known is_admin get_user_by_id find_by_id
          Roles.checked_role Roles.last_admin Roles.any_other_admin list_all by_age newest_user
          primary_role text_eq Roles.apply_role update_role with_role in
        refl)
      protected refl (unfold bearer_token remove_first starts_with text_eq is_space in refl) refl
      (omega arith)
