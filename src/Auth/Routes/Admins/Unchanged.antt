-- ===== src/Auth/Routes/Admins/Unchanged.antt =====
-- What registering and logging in leave of the table of users.
use salesdata_api.Base.{
  ◌≡◌, refl, ℕ, ◌/◌, String, List, [], ◌∷◌, ◌++◌, Option, none, some, Bool, true, false, not, ◌&&◌,
  str_eq, eq_iff, if◌then◌else◌, arith, count, ltb, length, either,
}
use salesdata_api.Sql.Chars.{codes, text_eq}
use salesdata_api.Sql.Policy.{split_commas}
use salesdata_api.Storage.Users.{
  User, find_by_id, with_login, any_clash, create_user, new_user, update_last_login,
}
use salesdata_api.Auth.RateLimiter.{Attempts}
use salesdata_api.Auth.Middleware.{role_of}
use salesdata_api.Auth.Passwords.{hash_password}
use salesdata_api.Auth.Routes.{Api, AppSettings, Reply, UserResponse, primary_role}
use salesdata_api.Auth.Routes.Users.{
  Client, UserCreate, Payload, LoginDb, AuthResponse, register_user, registered, register_if,
  created, login_if, login_user, logged_in, checked, limited,
}
use salesdata_api.Auth.Routes.Roles.{has_admin_role}
use salesdata_api.Auth.Routes.Admins.{any_admin, IsTable}

-- `b` is what the users `a` may become: the table stays one, its admins stay, and their number.
pub record Same (a b : List User) : Type 0 where
  pub table : IsTable a → IsTable b
  pub admins : count has_admin_role b ≡ count has_admin_role a
  pub some_admin : any_admin b ≡ any_admin a

same : (us : List User) → Same us us
same us = record { table = λ h. h; admins = refl; some_admin = refl }

login-id :
    (id j : String) (now : ℕ) (us : List User)
    → find_by_id j us ≡ none
    → find_by_id j (with_login id now us) ≡ none
unfolding with_login find_by_id
login-id id j now [] h = refl
login-id id j now (u ∷ us) h = ground (arith, login-id id j now us)

login-IsTable :
    (id : String) (now : ℕ) (us : List User) → IsTable us → IsTable (with_login id now us)
unfolding with_login
login-IsTable id now [] h = tt
login-IsTable id now (u ∷ us) h =
    ground (arith, login-id id u.user_id now us, login-IsTable id now us h.1)

login-role :
    (id : String) (now : ℕ) (us : List User)
    → (count has_admin_role (with_login id now us) ≡ count has_admin_role us)
      × (any_admin (with_login id now us) ≡ any_admin us)
unfolding with_login primary_role
login-role id now [] = (refl, refl)
login-role id now (u ∷ us) = ground (arith, login-role id now us)

with_login-Same : (id : String) (now : ℕ) (us : List User) → Same us (with_login id now us)
with_login-Same id now us = record {
  table = login-IsTable id now us;
  admins = (login-role id now us).0;
  some_admin = (login-role id now us).1;
}

appended-id :
    (new : User) (j : String) (us : List User)
    → find_by_id j us ≡ none
    → str_eq new.user_id j ≡ false
    → find_by_id j (us ++ new ∷ []) ≡ none
unfolding find_by_id
appended-id new j [] h ne = ground arith
appended-id new j (u ∷ us) h ne = ground (arith, appended-id new j us)

appended-IsTable :
    (new : User) (us : List User) → any_clash new us ≡ false → IsTable us → IsTable (us ++ new ∷ [])
unfolding any_clash find_by_id
appended-IsTable new [] clear h = (refl, tt)
appended-IsTable new (u ∷ us) clear h = ground (
  arith,
  eq_iff new.user_id u.user_id,
  eq_iff u.user_id new.user_id,
  appended-id new u.user_id us,
  appended-IsTable new us,
)

appended-role :
    (new : User) (us : List User)
    → has_admin_role new ≡ false
    → (count has_admin_role (us ++ new ∷ []) ≡ count has_admin_role us)
      × (any_admin (us ++ new ∷ []) ≡ any_admin us)
appended-role new [] plain = ground arith
appended-role new (u ∷ us) plain = ground (arith, appended-role new us plain)

create_user-Same :
    (up : Bool) (new : User) (us : List User)
    → has_admin_role new ≡ false
    → Same us (create_user up new us).0
unfolding create_user
create_user-Same up new us plain = by_clash up (any_clash new us) refl
  where
    by_clash :
        (u c : Bool)
        → any_clash new us ≡ c
        → Same us
            (if◌then◌else◌ {A = List User × Bool} (u && not c) (us ++ new ∷ [], true) (us, false)).0
    by_clash true false clear = record {
      table = appended-IsTable new us clear;
      admins = (appended-role new us plain).0;
      some_admin = (appended-role new us plain).1;
    }
    by_clash true true e = same us
    by_clash false c e = same us

plain_role :
    (id name email : String) (hash : List ℕ) (at : ℕ)
    → has_admin_role (new_user id name email hash (codes "user") at) ≡ false
unfolding primary_role role_of split_commas text_eq
plain_role id name email hash at = refl

module _ (derive : List ℕ → List ℕ → Option (List ℕ)) (settings : AppSettings) where
  created-Same :
      (a : Api) (new : User) (p : List User × Bool)
      → Same a.auth.users p.0
      → Same a.auth.users (created a new p).0.auth.users
  created-Same a new (users, true) h = h
  created-Same a new (users, false) h = h

  registered-Same :
      (up : Bool) (client : Client) (data_ : UserCreate) (id : String) (a : Api)
      (hash : Option (List ℕ))
      → Same a.auth.users (registered derive settings up client data_ id a hash).0.auth.users
  unfolding registered
  registered-Same up client data_ id a none = same a.auth.users
  registered-Same up client data_ id a (some hash) =
      let new = new_user id data_.username data_.email hash (codes "user") (client.wall / 1000) in
      created-Same a new _ (
        create_user-Same up new a.auth.users
          (plain_role id data_.username data_.email hash (client.wall / 1000)))

  register_if-Same :
      (up : Bool) (client : Client) (data_ : UserCreate) (id : String) (salt : List ℕ) (a : Api)
      (p : Attempts × Bool)
      → Same a.auth.users (register_if derive settings up client data_ id salt a p).0.auth.users
  register_if-Same up client data_ id salt a (attempts, true) =
      registered-Same up client data_ id (record a { attempts = attempts })
        (hash_password derive data_.password [] salt)
  register_if-Same up client data_ id salt a (attempts, false) = same a.auth.users

  pub register-Same :
      (up : Bool) (client : Client) (data_ : UserCreate) (id : String) (salt : List ℕ) (a : Api)
      → Same a.auth.users (register_user derive settings up client data_ id salt a).0.auth.users
  unfolding register_user
  register-Same up client data_ id salt a =
      either (λ (r : Api × Reply UserResponse). Same a.auth.users r.0.auth.users)
        (ltb (length data_.password) 8) (same a.auth.users)
        (register_if-Same up client data_ id salt a
          (limited settings client.ip client.now a.attempts))

module _ (derive : List ℕ → List ℕ → Option (List ℕ)) (encode : Payload → List ℕ)
    (dummy_hash : List ℕ) (settings : AppSettings) where
  login_update-Same :
      (up : Bool) (id : String) (now : ℕ) (us : List User)
      → Same us (update_last_login up id now us).0
  unfolding update_last_login
  login_update-Same true id now us = with_login-Same id now us
  login_update-Same false id now us = same us

  checked-Same :
      (db : LoginDb) (client : Client) (a : Api) (user : Option User) (ok : Option Bool)
      → Same a.auth.users
          (checked derive encode dummy_hash settings db client a user ok).0.auth.users
  unfolding checked logged_in
  checked-Same db client a user none = same a.auth.users
  checked-Same db client a none (some ok) = same a.auth.users
  checked-Same db client a (some user) (some false) = same a.auth.users
  checked-Same db client a (some user) (some true) =
      either (λ (r : Api × Reply AuthResponse). Same a.auth.users r.0.auth.users) user.is_active
        (login_update-Same db.write_up user.user_id (client.wall / 1000) a.auth.users)
        (same a.auth.users)

  login_if-Same :
      (db : LoginDb) (client : Client) (name : String) (password salt : List ℕ) (a : Api)
      (p : Attempts × Bool)
      → Same a.auth.users
          (login_if derive encode dummy_hash settings db client name password salt a p).0.auth.users
  login_if-Same db client name password salt a (attempts, true) =
      checked-Same db client (record a { attempts = attempts }) _ _
  login_if-Same db client name password salt a (attempts, false) = same a.auth.users

  pub login-Same :
      (db : LoginDb) (client : Client) (name : String) (password salt : List ℕ) (a : Api)
      → Same a.auth.users
          (login_user derive encode dummy_hash settings db client name password salt a).0.auth.users
  unfolding login_user
  login-Same db client name password salt a =
      login_if-Same db client name password salt a
        (limited settings client.ip client.now a.attempts)
