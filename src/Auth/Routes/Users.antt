-- ===== src/Auth/Routes/Users.antt =====
-- The routes on users that need no credential, and the list of users.
use salesdata_api.Base.{
  ℕ, ◌/◌, ◌+◌, String, List, [], length, map, Option, none, some, Bool, true, false, ltb,
  if◌then◌else◌,
}
use salesdata_api.Sql.Chars.{codes}
use salesdata_api.Storage.Users.{User}
use salesdata_api.Storage.Users
use salesdata_api.Auth.RateLimiter.{Attempts, check_and_record, reset}
use salesdata_api.Auth.Passwords.{hash_password, verify_password}
use salesdata_api.Auth.Middleware.{CurrentUser, Claims, is_admin}
use salesdata_api.Auth.Routes.{
  Api, AppSettings, Reply, reply, http_error, UserResponse, user_response, primary_role,
}

-- the request's rate limit: the attempt is recorded where it is allowed
unfoldable pub limited : AppSettings → String → ℕ → Attempts → Attempts × Bool
unfolding check_and_record
limited settings key now attempts =
    if settings.auth_rate_limit_enabled
    then check_and_record settings.auth_rate_limit_max_attempts settings.auth_rate_limit_window
        attempts key now
    else (attempts, true)

-- `UserCreate`, whose `role` the route ignores
pub record UserCreate : Type 0 where
  pub username : String
  pub email : String
  pub password : List ℕ
  pub role : List ℕ

abbrev with_users : Api → List User → Api
with_users a users = record a { auth = record a.auth { users = users } }

abbrev with_attempts : Api → Attempts → Api
with_attempts a attempts = record a { attempts = attempts }

-- `ip` is the key of the limiter for this route and client; `id` and `salt` are drawn
pub record Client : Type 0 where
  pub ip : String
  pub now : ℕ
  pub wall : ℕ

abbrev pub created : Api → User → List User × Bool → Api × Reply UserResponse
created a new (users, true) = (with_users a users, reply (user_response new))
created a new (users, false) = (with_users a users, http_error 400)

module _ (derive : List ℕ → List ℕ → Option (List ℕ)) (settings : AppSettings) where
  unfoldable pub registered :
      Bool → Client → UserCreate → String → Api → Option (List ℕ) → Api × Reply UserResponse
  unfolding Users.create_user user_response
  registered up client data_ id a none = (a, http_error 400)
  registered up client data_ id a (some hash) =
      let new =
        Users.new_user id data_.username data_.email hash (codes "user") (client.wall / 1000) in
      created a new (Users.create_user up new a.auth.users)

  abbrev pub register_if :
      Bool
      → Client
      → UserCreate
      → String
      → List ℕ
      → Api
      → Attempts × Bool
      → Api × Reply UserResponse
  register_if up client data_ id salt a (attempts, false) =
      (with_attempts a attempts, http_error 429)
  register_if up client data_ id salt a (attempts, true) =
      registered up client data_ id (with_attempts a attempts)
        (hash_password derive data_.password [] salt)

  unfoldable pub register_user :
      Bool → Client → UserCreate → String → List ℕ → Api → Api × Reply UserResponse
  unfolding limited registered hash_password
  register_user up client data_ id salt a =
      if ltb (length data_.password) 8
      then (a, http_error 422)
      else register_if up client data_ id salt a (limited settings client.ip client.now a.attempts)

-- `AuthResponse`: the token is shown with the payload that it signs
pub record AuthResponse : Type 0 where
  pub success : Bool
  pub user : Option UserResponse
  pub token : Option (List ℕ)
  pub message : List ℕ

abbrev pub declined : List ℕ → AuthResponse
declined message = record { success = false; user = none; token = none; message = message }

pub record Payload : Type 0 where
  pub claims : Claims
  pub exp : ℕ

-- whether the query and the update of a login are carried out
pub record LoginDb : Type 0 where
  pub read_up : Bool
  pub write_up : Bool

unfoldable pub token_payload : AppSettings → User → ℕ → Payload
unfolding primary_role
token_payload settings user issued_at = record {
  claims = record {
    user_id = some user.user_id;
    username = some user.username;
    role = some (primary_role user);
    iat = some issued_at;
  };
  exp = issued_at + settings.jwt_expiry_seconds;
}

module _ (derive : List ℕ → List ℕ → Option (List ℕ)) (encode : Payload → List ℕ)
    (dummy_hash : List ℕ) (settings : AppSettings) where
  abbrev pub stored_hash : Option User → List ℕ
  stored_hash none = dummy_hash
  stored_hash (some user) = user.password_hash

  unfoldable pub logged_in : LoginDb → Client → Api → User → Api × Reply AuthResponse
  unfolding token_payload Users.update_last_login reset user_response
  logged_in db client a user = (
    record {
      auth = record a.auth {
        users =
            (Users.update_last_login db.write_up user.user_id (client.wall / 1000) a.auth.users).0;
      };
      attempts = reset a.attempts client.ip;
    },
    reply (record {
      success = true;
      user = some (user_response user);
      token = some (encode (token_payload settings user (client.wall / 1000)));
      message = codes "Login successful";
    }),
  )

  -- by the user that was found and what the password check said; `none` is its exception
  unfoldable pub checked :
      LoginDb → Client → Api → Option User → Option Bool → Api × Reply AuthResponse
  unfolding logged_in
  checked db client a user none = (a, http_error 400)
  checked db client a none (some ok) = (a, reply (declined (codes "Invalid username or password")))
  checked db client a (some user) (some false) =
      (a, reply (declined (codes "Invalid username or password")))
  checked db client a (some user) (some true) =
      if user.is_active
      then logged_in db client a user
      else (a, reply (declined (codes "Account is disabled")))

  abbrev pub login_if :
      LoginDb → Client → String → List ℕ → List ℕ → Api → Attempts × Bool → Api × Reply AuthResponse
  login_if db client username password salt a (attempts, false) =
      (with_attempts a attempts, http_error 429)
  login_if db client username password salt a (attempts, true) =
      let user = Users.get_user_by_username db.read_up username a.auth.users in
      checked db client (with_attempts a attempts) user
        (verify_password derive password (stored_hash user) salt)

  unfoldable pub login_user :
      LoginDb → Client → String → List ℕ → List ℕ → Api → Api × Reply AuthResponse
  unfolding limited checked verify_password Users.get_user_by_username
  login_user db client username password salt a =
      login_if db client username password salt a (limited settings client.ip client.now a.attempts)

unfoldable pub list_users : Bool → CurrentUser → Api → Reply (List UserResponse × ℕ)
unfolding is_admin Users.list_all user_response
list_users up caller a =
    if is_admin caller
    then (let users = map user_response (Users.list_all up a.auth.users) in
        reply (users, length users))
    else http_error 403
