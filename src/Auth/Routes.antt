-- ===== src/Auth/Routes.antt =====
-- The routes of core/app/api/routes/auth.py, with the two validators of core/auth/models.py that
-- refuse a body before its route runs. A call of a route runs by itself. Wall time is in
-- milliseconds, and `int(time.time())` a division. PBKDF2, the drawing of ids and salts, and
-- `jwt.encode` are parameters or arguments; audit events, which only write logs, are left out.
pub mod Keys
pub mod Users
pub mod Roles
pub mod Admins
pub mod Owners
pub mod Login
pub mod Revoking
use salesdata_api.Base.{
  ℕ, ◌/◌, ◌+◌, String, List, [], ◌∷◌, Option, none, some, Bool, true, false, not, ◌&&◌, ◌||◌,
  str_eq, leb, if◌then◌else◌,
}
use salesdata_api.Sql.Chars.{codes}
use salesdata_api.Storage.Users.{User}
use salesdata_api.Auth.RateLimiter.{Attempts}
use salesdata_api.Auth.Middleware.{State, CurrentUser, is_admin, role_of}

-- what a route answers: a body, or the status of an `HTTPException`
pub data Reply {ℓ} (A : Type ℓ) : Type ℓ where
  reply : A → Reply A
  http_error : ℕ → Reply A

pub record Api : Type 0 where
  pub auth : State
  pub attempts : Attempts

-- the members of `AppSettings` that the routes read
pub record AppSettings : Type 0 where
  pub auth_rate_limit_enabled : Bool
  pub auth_rate_limit_max_attempts : ℕ
  pub auth_rate_limit_window : ℕ
  pub jwt_expiry_seconds : ℕ

unfoldable pub require_owner_or_admin : CurrentUser → String → Bool
unfolding is_admin
require_owner_or_admin caller owner_id =
    is_admin caller || (not (str_eq caller.user_id "") && str_eq caller.user_id owner_id)

-- `_primary_role`
unfoldable pub primary_role : User → List ℕ
unfolding role_of
primary_role user = role_of (codes "user") user.roles

-- the body that shows a user
pub record UserResponse : Type 0 where
  pub user_id : String
  pub username : String
  pub email : String
  pub role : List ℕ
  pub created_at : ℕ
  pub is_active : Bool

unfoldable pub user_response : User → UserResponse
unfolding primary_role
user_response user = record {
  user_id = user.user_id;
  username = user.username;
  email = user.email;
  role = primary_role user;
  created_at = user.created_at;
  is_active = user.is_active;
}
