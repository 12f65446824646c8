-- ===== src/Auth/Routes/Admins/Calls.antt =====
-- The users after any sequence of calls of the routes that change them.
use salesdata_api.Base.{
  ◌≡◌, refl, ap, not, ◌∙◌, ℕ, ◌/◌, String, List, [], ◌∷◌, Option, none, some, Bool, true, false,
  All, count, arith, either,
}
use salesdata_api.Storage.Users.{User, find_by_id, with_role}
use salesdata_api.Storage.Users
use salesdata_api.Auth.Middleware.{CurrentUser, is_admin, State}
use salesdata_api.Auth.Routes.{Api, AppSettings, Reply, UserResponse}
use salesdata_api.Auth.Routes.Users.{
  Client, UserCreate, Payload, LoginDb, register_user, login_user,
}
use salesdata_api.Auth.Routes.Roles.{
  RoleDb, has_admin_role, role_known, last_admin, update_user_role, checked_role, apply_role,
}
use salesdata_api.Auth.Routes.Admins.{any_admin, IsTable, update_user_role-admin}
use salesdata_api.Auth.Routes.Admins.Unchanged.{register-Same, login-Same}

-- a call with its arguments, the values it draws, and which statements fail
pub data Call : Type 0 where
  register : Bool → Client → UserCreate → String → List ℕ → Call
  login : LoginDb → Client → String → List ℕ → List ℕ → Call
  update_role : RoleDb → CurrentUser → String → List ℕ → ℕ → Call

role-id :
    (id j : String) (role : List ℕ) (now : ℕ) (us : List User)
    → find_by_id j us ≡ none
    → find_by_id j (with_role id role now us) ≡ none
unfolding with_role find_by_id
role-id id j role now [] h = refl
role-id id j role now (u ∷ us) h = ground (arith, role-id id j role now us)

role-IsTable :
    (id : String) (role : List ℕ) (now : ℕ) (us : List User)
    → IsTable us
    → IsTable (with_role id role now us)
unfolding with_role
role-IsTable id role now [] h = tt
role-IsTable id role now (u ∷ us) h =
    ground (arith, role-id id u.user_id role now us, role-IsTable id role now us h.1)

apply-IsTable :
    (db : RoleDb) (t : User) (id : String) (role : List ℕ) (wall : ℕ) (s : State)
    → IsTable s.users
    → IsTable (apply_role db t id role wall s).0.users
unfolding apply_role Users.update_user_role
apply-IsTable db t id role wall s h = by_update db.update_up refl
  where
    by_update : (b : Bool) → db.update_up ≡ b → IsTable (apply_role db t id role wall s).0.users
    by_update true e = rw e (role-IsTable id role (wall / 1000) s.users h)
    by_update false e = rw e h

checked-IsTable :
    (db : RoleDb) (id : String) (role : List ℕ) (wall : ℕ) (s : State) (o : Option User)
    → IsTable s.users
    → IsTable (checked_role db id role wall s o).0.users
unfolding checked_role
checked-IsTable db id role wall s none h = h
checked-IsTable db id role wall s (some t) h =
    either (λ (r : State × Reply UserResponse). IsTable r.0.users)
      (last_admin db.list_up t id role s.users) h (apply-IsTable db t id role wall s h)

abbrev Kept : State × Reply UserResponse → Type 0
Kept r = IsTable r.0.users

update-IsTable :
    (db : RoleDb) (caller : CurrentUser) (id : String) (role : List ℕ) (wall : ℕ) (s : State)
    → IsTable s.users
    → IsTable (update_user_role db caller id role wall s).0.users
unfolding update_user_role
update-IsTable db caller id role wall s h = either Kept (not (role_known role)) h (
    either Kept (is_admin caller)
      (checked-IsTable db id role wall s (Users.get_user_by_id db.read_up id s.users) h) h)

-- a caller who is no admin changes nothing
update-refused :
    (db : RoleDb) (caller : CurrentUser) (id : String) (role : List ℕ) (wall : ℕ) (s : State)
    → is_admin caller ≡ false
    → (update_user_role db caller id role wall s).0 ≡ s
unfolding update_user_role
update-refused db caller id role wall s plain =
    rw plain
      (either (λ (r : State × Reply UserResponse). r.0 ≡ s) (not (role_known role)) refl refl)

abbrev pub NoAdminCalls : Call → Type 0
NoAdminCalls (register up client data_ id salt) = Unit
NoAdminCalls (login db client name password salt) = Unit
NoAdminCalls (update_role db caller id role wall) = is_admin caller ≡ false

module _ (derive : List ℕ → List ℕ → Option (List ℕ)) (encode : Payload → List ℕ)
    (dummy_hash : List ℕ) (settings : AppSettings) where
  unfoldable pub serve : Api → Call → Api
  unfolding register_user login_user update_user_role
  serve a (register up client data_ id salt) =
      (register_user derive settings up client data_ id salt a).0
  serve a (login db client name password salt) =
      (login_user derive encode dummy_hash settings db client name password salt a).0
  serve a (update_role db caller id role wall) = record a {
    auth = (update_user_role db caller id role wall a.auth).0;
  }

  unfoldable pub serve_all : Api → List Call → Api
  unfolding serve
  serve_all a [] = a
  serve_all a (call ∷ calls) = serve_all (serve a call) calls

  serve-keeps :
      (a : Api) (call : Call)
      → IsTable a.auth.users
      → any_admin a.auth.users ≡ true
      → IsTable (serve a call).auth.users × (any_admin (serve a call).auth.users ≡ true)
  unfolding serve
  serve-keeps a (register up client data_ id salt) ok was =
      let h = register-Same derive settings up client data_ id salt a in
      (h.table ok, h.some_admin ∙ was)
  serve-keeps a (login db client name password salt) ok was =
      let h = login-Same derive encode dummy_hash settings db client name password salt a in
      (h.table ok, h.some_admin ∙ was)
  serve-keeps a (update_role db caller id role wall) ok was = (
    update-IsTable db caller id role wall a.auth ok,
    update_user_role-admin db caller id role wall a.auth ok was,
  )

  -- Once there is an admin, there is one after any sequence of registrations, logins and changes of
  -- roles, each of which runs by itself: whoever calls, whatever is asked for and whichever of the
  -- database's statements fail.
  pub serve_all-keeps_admin :
      (a : Api) (calls : List Call)
      → IsTable a.auth.users
      → any_admin a.auth.users ≡ true
      → IsTable (serve_all a calls).auth.users × (any_admin (serve_all a calls).auth.users ≡ true)
  unfolding serve_all
  serve_all-keeps_admin a [] ok was = (ok, was)
  serve_all-keeps_admin a (call ∷ calls) ok was =
      let (ok', was') = serve-keeps a call ok was in
      serve_all-keeps_admin (serve a call) calls ok' was'

  serve-admins :
      (a : Api) (call : Call)
      → NoAdminCalls call
      → count has_admin_role (serve a call).auth.users ≡ count has_admin_role a.auth.users
  unfolding serve
  serve-admins a (register up client data_ id salt) plain =
      (register-Same derive settings up client data_ id salt a).admins
  serve-admins a (login db client name password salt) plain =
      (login-Same derive encode dummy_hash settings db client name password salt a).admins
  serve-admins a (update_role db caller id role wall) plain =
      ap (λ (s : State). count has_admin_role s.users)
        (update-refused db caller id role wall a.auth plain)

  -- No sequence of registrations, logins and calls for a change of role in which no caller is an admin
  -- changes the number of admins, whatever role a registration asks for.
  pub serve_all-admins :
      (a : Api) (calls : List Call)
      → All NoAdminCalls calls
      → count has_admin_role (serve_all a calls).auth.users ≡ count has_admin_role a.auth.users
  unfolding serve_all
  serve_all-admins a [] plain = refl
  serve_all-admins a (call ∷ calls) plain =
      serve_all-admins (serve a call) calls plain.1 ∙ serve-admins a call plain.0
