-- ===== src/Auth/Routes/Roles.antt =====
-- `update_user_role`. The calls of the executor are steps of their own in the program; here a call
-- runs by itself; two that overlap are not modelled.
use salesdata_api.Base.{
  ℕ, ◌/◌, String, List, [], ◌∷◌, Option, none, some, Bool, true, false, not, ◌&&◌, ◌||◌, str_eq,
  if◌then◌else◌,
}
use salesdata_api.Sql.Chars.{codes, text_eq}
use salesdata_api.Storage.Users.{User, get_user_by_id, list_all, update_user_role as update_role}
use salesdata_api.Auth.Middleware.{
  State, CurrentUser, is_admin, invalidate_user_cache, revoke_tokens_issued_before, or_else,
}
use salesdata_api.Auth.Routes.{Reply, reply, http_error, UserResponse, user_response, primary_role}

abbrev pub admin : List ℕ
admin = codes "admin"

-- `_role_must_be_known`
unfoldable pub role_known : List ℕ → Bool
unfolding text_eq
role_known role = text_eq role (codes "user") || text_eq role admin

abbrev pub has_admin_role : User → Bool
has_admin_role u = text_eq (primary_role u) admin

-- whether `remaining_admins` has a member
unfoldable pub any_other_admin : String → List User → Bool
unfolding primary_role text_eq
any_other_admin id [] = false
any_other_admin id (u ∷ us) =
    (not (str_eq u.user_id id) && has_admin_role u) || any_other_admin id us

-- whether the statements of the call are carried out: the two reads, the list and the update
pub record RoleDb : Type 0 where
  pub read_up : Bool
  pub list_up : Bool
  pub update_up : Bool
  pub again_up : Bool

-- the guard: whether this would leave no admin, as far as the list says
unfoldable pub last_admin : Bool → User → String → List ℕ → List User → Bool
unfolding any_other_admin list_all primary_role text_eq
last_admin up target id role users =
    (has_admin_role target && not (text_eq role admin))
    && not (any_other_admin id (list_all up users))

abbrev shown : Option User → User → User
shown none target = target
shown (some u) target = u

-- the answer after the update
unfoldable pub updated_response : Bool → User → String → List ℕ → List User → UserResponse
unfolding get_user_by_id user_response
updated_response up target id role users =
    let body = user_response (shown (get_user_by_id up id users) target) in
    record body { role = or_else body.role role }

abbrev pub role_updated :
    RoleDb → User → String → List ℕ → ℕ → State → List User × Bool → State × Reply UserResponse
role_updated db target id role wall s (users, false) = (record s { users = users }, http_error 400)
role_updated db target id role wall s (users, true) = (
  record s {
    users = users;
    user_cache = invalidate_user_cache id s.user_cache;
    revoked_before = revoke_tokens_issued_before id wall s.revoked_before;
  },
  reply (updated_response db.again_up target id role users),
)

-- from the update on
unfoldable pub apply_role : RoleDb → User → String → List ℕ → ℕ → State → State × Reply UserResponse
unfolding update_role invalidate_user_cache revoke_tokens_issued_before updated_response
apply_role db target id role wall s =
    role_updated db target id role wall s (update_role db.update_up id role (wall / 1000) s.users)

unfoldable pub checked_role :
    RoleDb → String → List ℕ → ℕ → State → Option User → State × Reply UserResponse
unfolding last_admin apply_role
checked_role db id role wall s none = (s, http_error 404)
checked_role db id role wall s (some target) =
    if last_admin db.list_up target id role s.users
    then (s, http_error 409)
    else apply_role db target id role wall s

unfoldable pub update_user_role :
    RoleDb → CurrentUser → String → List ℕ → ℕ → State → State × Reply UserResponse
unfolding role_known is_admin get_user_by_id checked_role
update_user_role db caller id role wall s =
    if not (role_known role)
    then (s, http_error 422)
    else if is_admin caller
    then checked_role db id role wall s (get_user_by_id db.read_up id s.users)
    else (s, http_error 403)
