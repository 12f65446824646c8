-- ===== src/Auth/Routes/Revoking.antt =====
-- What a change of role through its route does to the tokens and the cached record of the user.
use salesdata_api.Base.{
  ◌≡◌, refl, ap, ◌∙◌, ℕ, ◌*◌, ◌/◌, ◌<◌, String, List, Option, none, some, Bool, true, false, not,
  subst, either, eq_refl, arith,
}
use salesdata_api.Base.Dict.{lookup, lookup-erase}
use salesdata_api.Sql.Policy.{strip}
use salesdata_api.Storage.Users.{User, get_user_by_id, update_user_role as update_role}
use salesdata_api.Auth.Middleware.{
  Request, State, unauthorized, Claims, header, is_blank, is_protected, bearer_token, enforce_auth,
  get_or, revoke_tokens_issued_before, invalidate_user_cache, CurrentUser, is_admin,
}
use salesdata_api.Auth.Middleware.Tokens.{revoked-refused}
use salesdata_api.Auth.Routes.{Reply, reply, http_error, UserResponse}
use salesdata_api.Auth.Routes.Roles.{
  RoleDb, role_known, last_admin, role_updated, apply_role, checked_role, update_user_role,
}

-- the route succeeds only with the user's tokens revoked and the user's cached record dropped
abbrev Revokes : String → ℕ → State → State × Reply UserResponse → Type 0
Revokes id wall s (s', reply body) =
    (s'.revoked_before ≡ revoke_tokens_issued_before id wall s.revoked_before)
    × (s'.user_cache ≡ invalidate_user_cache id s.user_cache)
Revokes id wall s (s', http_error status) = Unit

updated-Revokes :
    (db : RoleDb) (target : User) (id : String) (role : List ℕ) (wall : ℕ) (s : State)
    (users : List User) (done : Bool)
    → Revokes id wall s (role_updated db target id role wall s (users, done))
updated-Revokes db target id role wall s users true = (refl, refl)
updated-Revokes db target id role wall s users false = tt

checked-Revokes :
    (db : RoleDb) (id : String) (role : List ℕ) (wall : ℕ) (s : State) (o : Option User)
    → Revokes id wall s (checked_role db id role wall s o)
unfolding checked_role apply_role
checked-Revokes db id role wall s none = tt
checked-Revokes db id role wall s (some target) =
    let (users, done) = update_role db.update_up id role (wall / 1000) s.users in
    either (Revokes id wall s) (last_admin db.list_up target id role s.users) tt
      (updated-Revokes db target id role wall s users done)

route-Revokes :
    (db : RoleDb) (caller : CurrentUser) (id : String) (role : List ℕ) (wall : ℕ) (s : State)
    → Revokes id wall s (update_user_role db caller id role wall s)
unfolding update_user_role
route-Revokes db caller id role wall s = either (Revokes id wall s) (not (role_known role)) tt (
    either (Revokes id wall s) (is_admin caller)
      (checked-Revokes db id role wall s (get_user_by_id db.read_up id s.users)) tt)

module _ (hash_api_key : List ℕ → String) (decode : List ℕ → Option Claims)
    (has_manager has_settings : Bool) where
  -- After the route for a change of role has answered with success, a request to a protected path
  -- without an API key, with a token of that user that was issued before the change, gets 401; and
  -- no record of the user is cached any more.
  pub role_change-refuses :
      (db : RoleDb) (caller : CurrentUser) (id : String) (role : List ℕ) (wall : ℕ) (s s' : State)
      (body : UserResponse) (r : Request) (claims : Claims)
      → update_user_role db caller id role wall s ≡ (s', reply body)
      → is_protected r.path ≡ true
      → is_blank (strip (header r.x_api_key)) ≡ true
      → decode (bearer_token r.authorization) ≡ some claims
      → claims.user_id ≡ some id
      → get_or 0 claims.iat * 1000 < wall
      → ((enforce_auth hash_api_key decode has_manager has_settings r s').1 ≡ unauthorized)
        × (lookup id s'.user_cache ≡ none)
  unfolding invalidate_user_cache
  role_change-refuses db caller id role wall s s' body r claims changed protected no_key decoded
        of_user before =
      let (revoked, dropped) =
        subst (Revokes id wall s) changed (route-Revokes db caller id role wall s) in
      (
        revoked-refused hash_api_key decode has_manager has_settings r s' id wall s.revoked_before
            claims revoked protected no_key decoded of_user before,
        ap (lookup id) dropped ∙ gone,
      )
    where
      gone : lookup id (invalidate_user_cache id s.user_cache) ≡ none
      gone = lookup-erase id id s.user_cache ∙ ground (arith, eq_refl id)
