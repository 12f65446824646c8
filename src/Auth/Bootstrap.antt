-- ===== src/Auth/Bootstrap.antt =====
-- How the first administrator comes to be: `initialize_admin_user` of core/storage/service_db.py, from
-- the environment, and the script bootstrap_admin.py, whose prompts and printing are left out.
pub mod Granted
use salesdata_api.Base.{
  ℕ, String, List, [], ◌∷◌, length, Option, none, some, Bool, true, false, not, ltb, if◌then◌else◌,
}
use salesdata_api.Storage.Users.{
  User, new_user, create_user, get_user_by_username, find_by_username, update_user_role,
}
use salesdata_api.Storage.Keys.{ApiKey}
use salesdata_api.Auth.ApiKeys.{Service, create_api_key}
use salesdata_api.Auth.Routes.Roles.{admin}

-- the three variables, the last two with their defaults
pub record Environment : Type 0 where
  pub initial_password : Option (List ℕ)
  pub initial_username : String
  pub initial_email : String

-- whether an exception leaves the method
pub data Boot : Type 0 where
  returns raises : Boot

abbrev inserted : List User × Bool → List User × Boot
inserted (users, true) = (users, returns)
inserted (users, false) = (users, raises)

abbrev unless_known : Option User → List User × Boot → List User → List User × Boot
unless_known (some u) created users = (users, returns)
unless_known none created users = created

-- an empty text counts as none
abbrev given : Option (List ℕ) → List ℕ
given none = []
given (some s) = s

abbrev with_password : Bool → List ℕ → List User × Boot → List User → List User × Boot
with_password up [] created users = (users, if up then returns else raises)
with_password up (c ∷ s) created users =
    if ltb (length (c ∷ s)) 8 then (users, returns) else if up then created else (users, raises)

-- `id` and `hash` are drawn; without a password, and before the insertion, the table is read
unfoldable pub initialize_admin_user :
    Bool → Environment → String → List ℕ → ℕ → List User → List User × Boot
unfolding create_user find_by_username
initialize_admin_user up env id hash now users =
    with_password up (given env.initial_password)
      (unless_known (find_by_username env.initial_username users)
        (inserted (
          create_user up (new_user id env.initial_username env.initial_email hash admin now) users))
        users)
      users

-- the options of the script
pub record Args : Type 0 where
  pub username : String
  pub email : String
  pub password : List ℕ
  pub promote_existing : Bool
  pub skip_api_key : Bool

pub record Store : Type 0 where
  pub users : List User
  pub service : Service

-- which of the statements are carried out: the read, the update or insertion, the key's
pub record BootDb : Type 0 where
  pub read_up : Bool
  pub write_up : Bool
  pub key_up : Bool

pub data Exit : Type 0 where
  done failed : Exit

abbrev pub issue_api_key : Args → BootDb → ApiKey → Service → Service
issue_api_key args db key service =
    if args.skip_api_key then service else (create_api_key db.key_up key service).0

abbrev pub finished : Args → BootDb → ApiKey → Store → List User × Bool → Store × Exit
finished args db key s (users, true) =
    (record { users = users; service = issue_api_key args db key s.service }, done)
finished args db key s (users, false) = (record s { users = users }, failed)

-- by the user of that name; `key_for` is the row of the key for an owner
unfoldable pub granted :
    Args → BootDb → String → List ℕ → ℕ → (String → ApiKey) → Store → Option User → Store × Exit
unfolding update_user_role create_user create_api_key
granted args db id hash now key_for s (some user) =
    if args.promote_existing
    then finished args db (key_for user.user_id) s
        (update_user_role db.write_up user.user_id admin now s.users)
    else (s, failed)
granted args db id hash now key_for s none =
    finished args db (key_for id) s
      (create_user db.write_up (new_user id args.username args.email hash admin now) s.users)

unfoldable pub bootstrap :
    Args → BootDb → String → List ℕ → ℕ → (String → ApiKey) → Store → Store × Exit
unfolding granted get_user_by_username
bootstrap args db id hash now key_for s =
    if ltb (length args.password) 8
    then (s, failed)
    else granted args db id hash now key_for s
        (get_user_by_username db.read_up args.username s.users)
