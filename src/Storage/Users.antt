-- ===== src/Storage/Users.antt =====
-- The table `users` of core/storage/service_db.py, in the order of its rowids, with the statements of
-- it and those of core/auth/user_repository.py. `up` is as in Storage.Keys. `roles` is the text of
-- the column, empty for NULL; `login_count`, which no statement touches, is left out.
use salesdata_api.Base.{
  ℕ, String, List, [], ◌∷◌, ◌++◌, Option, none, some, Bool, true, false, not, ◌&&◌, ◌||◌, ltb,
  str_eq, if◌then◌else◌,
}

pub record User : Type 0 where
  pub user_id : String
  pub username : String
  pub email : String
  pub password_hash : List ℕ
  pub roles : List ℕ
  pub is_active : Bool
  pub created_at : ℕ
  pub updated_at : ℕ
  pub last_login_at : Option ℕ

-- the primary key and the two `UNIQUE` columns
abbrev pub clashes : User → User → Bool
clashes new u =
    str_eq u.user_id new.user_id || (str_eq u.username new.username || str_eq u.email new.email)

unfoldable pub any_clash : User → List User → Bool
any_clash new [] = false
any_clash new (u ∷ us) = if clashes new u then true else any_clash new us

abbrev pub new_user : String → String → String → List ℕ → List ℕ → ℕ → User
new_user id name email hash role created_at = record {
  user_id = id;
  username = name;
  email = email;
  password_hash = hash;
  roles = role;
  is_active = true;
  created_at = created_at;
  updated_at = created_at;
  last_login_at = none;
}

unfoldable pub create_user : Bool → User → List User → List User × Bool
unfolding any_clash
create_user up new users =
    if up && not (any_clash new users) then (users ++ new ∷ [], true) else (users, false)

unfoldable pub find_by_id : String → List User → Option User
find_by_id id [] = none
find_by_id id (u ∷ us) = if str_eq u.user_id id then some u else find_by_id id us

unfoldable pub find_by_username : String → List User → Option User
find_by_username name [] = none
find_by_username name (u ∷ us) = if str_eq u.username name then some u else find_by_username name us

unfoldable pub get_user_by_id : Bool → String → List User → Option User
unfolding find_by_id
get_user_by_id up id users = if up then find_by_id id users else none

unfoldable pub get_user_by_username : Bool → String → List User → Option User
unfolding find_by_username
get_user_by_username up name users = if up then find_by_username name users else none

-- `UPDATE users SET roles = ?, updated_at = ? WHERE user_id = ?`
unfoldable pub with_role : String → List ℕ → ℕ → List User → List User
with_role id role now [] = []
with_role id role now (u ∷ us) =
    (if str_eq u.user_id id then record u { roles = role; updated_at = now } else u)
    ∷ with_role id role now us

unfoldable pub update_user_role : Bool → String → List ℕ → ℕ → List User → List User × Bool
unfolding with_role
update_user_role up id role now users =
    if up then (with_role id role now users, true) else (users, false)

unfoldable pub without_user : String → List User → List User
without_user id [] = []
without_user id (u ∷ us) =
    let rest = without_user id us in if str_eq u.user_id id then rest else u ∷ rest

unfoldable pub delete_user : Bool → String → List User → List User × Bool
unfolding without_user
delete_user up id users = if up then (without_user id users, true) else (users, false)

unfoldable pub with_login : String → ℕ → List User → List User
with_login id now [] = []
with_login id now (u ∷ us) =
    (if str_eq u.user_id id then record u { last_login_at = some now } else u)
    ∷ with_login id now us

unfoldable pub update_last_login : Bool → String → ℕ → List User → List User × Bool
unfolding with_login
update_last_login up id now users = if up then (with_login id now users, true) else (users, false)

-- `ORDER BY created_at DESC`
unfoldable pub newest_user : User → List User → List User
newest_user u [] = u ∷ []
newest_user u (v ∷ vs) =
    let rest = newest_user u vs in if ltb u.created_at v.created_at then v ∷ rest else u ∷ v ∷ vs

unfoldable pub by_age : List User → List User
unfolding newest_user
by_age [] = []
by_age (u ∷ us) = newest_user u (by_age us)

unfoldable pub list_all : Bool → List User → List User
unfolding by_age
list_all up users = if up then by_age users else []
