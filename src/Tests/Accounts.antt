-- ===== src/Tests/Accounts.antt =====
-- Runs of core/auth/passwords.py and of the routes on users.
use salesdata_api.Base.{
  ◌≡◌, refl, ◌⊎◌, ℕ, List, [], ◌∷◌, ◌++◌, String, Option, none, some, true, false, if◌then◌else◌,
  count,
}
use salesdata_api.Base.Dict.{lookup, insert}
use salesdata_api.Sql.Chars.{codes, text_eq, is_space}
use salesdata_api.Sql.Policy.{member, split_commas}
use salesdata_api.Storage.Users.{
  User, find_by_id, find_by_username, get_user_by_username, get_user_by_id, create_user, any_clash,
  with_role, with_login, update_last_login, list_all, by_age, newest_user,
}
use salesdata_api.Storage.Users
use salesdata_api.Auth.RateLimiter.{check_and_record, bucket, drop_old}
use salesdata_api.Storage.Keys.{ApiKey, has_key_id}
use salesdata_api.Storage.Keys as Storage
use salesdata_api.Auth.ApiKeys.{start, create_api_key}
use salesdata_api.Auth.Bootstrap.{Args, BootDb, Store, done, failed, bootstrap, granted}
use salesdata_api.Auth.Bootstrap.Granted.{IsAdmin, bootstrap_lem}
use salesdata_api.Auth.Passwords.{hash_password, verify_password, before_dollar, verify-hash}
use salesdata_api.Auth.Middleware.{
  Request, State, Identity, Claims, passes, enforce_auth, is_protected, starts_with, CurrentUser,
  is_admin, role_of,
}
use salesdata_api.Auth.Routes.{Api, AppSettings, reply, primary_role}
use salesdata_api.Auth.Routes.Users.{
  Client, UserCreate, Payload, LoginDb, AuthResponse, limited, token_payload, login_user,
  register_user, registered,
}
use salesdata_api.Auth.Routes.Roles.{
  RoleDb, admin, has_admin_role, last_admin, apply_role, update_user_role, checked_role, role_known,
  any_other_admin,
}
use salesdata_api.Auth.Routes.Admins.{any_admin, IsTable}
use salesdata_api.Auth.Routes.Admins.Calls.{
  Call, register, update_role, serve, serve_all, serve_all-keeps_admin, serve_all-admins,
}
use salesdata_api.Auth.Routes.Login.{login-unknown_eq_wrong, login-granted}

-- the derivation puts the salt after the password
abbrev derive : List ℕ → List ℕ → Option (List ℕ)
derive password salt = some (password ++ salt)

abbrev hash : List ℕ
hash = codes "a1" ++ 36 ∷ codes "secreta1"

verify-hash_example :
    (verify_password derive (codes "secret") hash (codes "b2") ≡ some true)
    × (hash_password derive (codes "guess") (codes "a1") (codes "b2") ≡ some (codes "a1$guessa1")
        → verify_password derive (codes "guess") hash (codes "b2")
          ≡ some (text_eq (codes "a1$guessa1") hash))
verify-hash_example =
    verify-hash derive (codes "secret") (codes "guess") (codes "a1$guessa1") hash 97 (codes "1")
      (codes "b2") refl (unfold hash_password in refl)

abbrev user_of : String → List ℕ → User
user_of id roles = record {
  user_id = id;
  username = id;
  email = id;
  password_hash = hash;
  roles = roles;
  is_active = true;
  created_at = 1;
  updated_at = 1;
  last_login_at = none;
}

abbrev users : List User
users = user_of "ann" admin ∷ user_of "bob" admin ∷ user_of "cy" (codes "user") ∷ []

abbrev state : State
state = record { service = start []; users = users; user_cache = []; revoked_before = [] }

abbrev api : Api
api = record { auth = state; attempts = [] }

abbrev settings : AppSettings
settings = record {
  auth_rate_limit_enabled = true;
  auth_rate_limit_max_attempts = 3;
  auth_rate_limit_window = 60_000;
  jwt_expiry_seconds = 3_600;
}

abbrev up : RoleDb
up = record { read_up = true; list_up = true; update_up = true; again_up = true }

abbrev ann : CurrentUser
ann = record { user_id = "ann"; role = admin; scopes = codes "read,write" }

abbrev client : Client
client = record { ip = "login:1.2.3.4"; now = 5; wall = 90_000 }

abbrev newcomer : UserCreate
newcomer = record { username = "eve"; email = "eve"; password = codes "password"; role = admin }

abbrev calls : List Call
calls =
    register true client newcomer "eve" (codes "c3")
    ∷ update_role up ann "bob" (codes "user") 91_000
    ∷ update_role up ann "ann" (codes "user") 92_000
    ∷ []

abbrev encode : Payload → List ℕ
encode p = codes "t"

-- of the two demotions the second, of the last admin, is refused
demoted : count has_admin_role (serve_all derive encode hash settings api calls).auth.users ≡ 1
unfolding serve_all serve register_user limited check_and_record bucket drop_old lookup insert
    registered hash_password create_user any_clash update_user_role role_known is_admin
    get_user_by_id find_by_id checked_role last_admin list_all by_age newest_user any_other_admin
    apply_role Users.update_user_role with_role primary_role role_of split_commas text_eq
demoted = refl

-- Two calls that both pass the guard before either updates leave no admin.
both_demoted :
    let guard_ann = last_admin true (user_of "bob" admin) "bob" (codes "user") users in
    let guard_bob = last_admin true (user_of "ann" admin) "ann" (codes "user") users in
    let first = (apply_role up (user_of "bob" admin) "bob" (codes "user") 91_000 state).0 in
    let second = (apply_role up (user_of "ann" admin) "ann" (codes "user") 91_000 first).0 in
    (guard_ann ≡ false) × (guard_bob ≡ false) × (any_admin second.users ≡ false)
unfolding last_admin list_all by_age newest_user any_other_admin apply_role Users.update_user_role
    with_role primary_role role_of split_commas text_eq
both_demoted = (refl, refl, refl)

distinct : IsTable users
unfolding find_by_id
distinct = (refl, (refl, (refl, tt)))

admins : any_admin users ≡ true
unfolding primary_role role_of split_commas text_eq
admins = refl

serve_all-keeps_admin_example :
    IsTable (serve_all derive encode hash settings api calls).auth.users
    × (any_admin (serve_all derive encode hash settings api calls).auth.users ≡ true)
serve_all-keeps_admin_example =
    serve_all-keeps_admin derive encode hash settings api calls distinct admins

abbrev cy : CurrentUser
cy = record { user_id = "cy"; role = codes "user"; scopes = codes "read" }

abbrev plain_calls : List Call
plain_calls =
    register true client newcomer "eve" (codes "c3") ∷ update_role up cy "cy" admin 91_000 ∷ []

serve_all-admins_example :
    count has_admin_role (serve_all derive encode hash settings api plain_calls).auth.users
    ≡ count has_admin_role users
serve_all-admins_example =
    serve_all-admins derive encode hash settings api plain_calls
      (tt, (unfold is_admin text_eq in refl, tt))

abbrev db : LoginDb
db = record { read_up = true; write_up = true }

login-unknown_eq_wrong_example :
    login_user derive encode hash settings db client "nobody" (codes "guess") [] api
    ≡ login_user derive encode hash settings db client "cy" (codes "guess") [] api
login-unknown_eq_wrong_example =
    login-unknown_eq_wrong derive encode hash settings db client api "nobody" "cy" (codes "guess")
      [] (user_of "cy" (codes "user")) false (unfold get_user_by_username find_by_username in refl)
      (unfold verify_password before_dollar hash_password text_eq in refl)
      (unfold get_user_by_username find_by_username in refl)
      (unfold verify_password before_dollar hash_password text_eq in refl)

abbrev cys : Claims
cys = (token_payload settings (user_of "cy" (codes "user")) 90).claims

abbrev decode : List ℕ → Option Claims
decode token = if text_eq token (codes "t") then some cys else none

abbrev visit : Request
visit = record {
  path = codes "/api/query";
  x_api_key = none;
  authorization = none;
  x_session_id = none;
  now = 50;
  wall = 120_000;
  keys_up = true;
  users_up = true;
}

login-granted_example :
    let after = login_user derive encode hash settings db client "cy" (codes "secret") [] api in
    (resp : AuthResponse) × (token : List ℕ) × (who : Identity) × (after.1 ≡ reply resp)
    × (resp.success ≡ true)
    × (resp.token ≡ some token)
    × ((enforce_auth
          (λ _. "h")
          decode
          true
          true
          (record visit { authorization = some (codes "Bearer " ++ token) })
          after.0.auth).1
        ≡ passes (some who))
    × (who.user_id ≡ "cy")
    × (who.role ≡ primary_role (user_of "cy" (codes "user")))
    × (who.scopes ≡ (
        if text_eq (primary_role (user_of "cy" (codes "user"))) admin
        then codes "read,write"
        else codes "read"))
login-granted_example =
    login-granted derive encode hash settings (λ _. "h") decode db client api "cy" (codes "secret")
      [] (user_of "cy" (codes "user")) (("login:1.2.3.4", 5 ∷ []) ∷ []) visit
      (unfold limited check_and_record bucket drop_old lookup insert in refl)
      (unfold get_user_by_username find_by_username in refl)
      (unfold verify_password before_dollar hash_password text_eq in refl) refl
      (unfold text_eq in refl) (unfold is_space in refl) refl (unfold lookup in refl)
      (unfold is_protected starts_with member text_eq in refl) refl

abbrev args : Args
args = record {
  username = "cy";
  email = "cy";
  password = codes "long enough";
  promote_existing = true;
  skip_api_key = false;
}

abbrev boot_db : BootDb
boot_db = record { read_up = true; write_up = true; key_up = true }

abbrev key_for : String → ApiKey
key_for owner = record {
  key_id = "key";
  api_key_hash = "hash";
  owner_id = owner;
  created_at = 90;
  expires_at = none;
  scopes = none;
  is_active = true;
}

abbrev store : Store
store = record { users = users; service = start [] }

-- cy is promoted, and gets a key that is for reading only
promoted_cy : (bootstrap args boot_db "id" hash 90 key_for store).0.service.keys ≡ key_for "cy" ∷ []
unfolding bootstrap granted get_user_by_username find_by_username Users.update_user_role
    create_api_key Storage.create_api_key has_key_id
promoted_cy = refl

bootstrap_lem_example :
    let (s', exit) = bootstrap args boot_db "id" hash 90 key_for store in
    ((exit ≡ done) × IsAdmin "cy" s'.users) ⊎ ((exit ≡ failed) × (s'.users ≡ users))
bootstrap_lem_example = bootstrap_lem args boot_db "id" hash 90 key_for store
