-- ===== src/Auth/Middleware.antt =====
-- core/auth/middleware.py and core/auth/dependencies.py: who a request comes from. The call of the key
-- service runs by itself here. The monotonic and the wall clock count milliseconds; `iat` of a token
-- is in seconds, as is the time that a key is checked at. SHA-256 and `jwt.decode` (none where it
-- raises, or gives an empty payload) are parameters.
pub mod Identities
pub mod Gate
pub mod Tokens
use salesdata_api.Base.{
  ℕ, ◌+◌, ◌*◌, ◌/◌, String, List, [], ◌∷◌, ◌++◌, Option, none, some, Bool, true, false, not, ◌&&◌,
  ◌||◌, ltb, str_eq, ◌==◌, if◌then◌else◌,
}
use salesdata_api.Base.Dict.{Dict, lookup, insert, erase}
use salesdata_api.Sql.Chars.{codes, text_eq}
use salesdata_api.Sql.Policy.{strip, split_commas, member}
use salesdata_api.Storage.Keys.{KeyInfo}
use salesdata_api.Storage.Users.{User, get_user_by_id}
use salesdata_api.Auth.ApiKeys.{Service, validate_api_key}

-- `_USER_CACHE` and `_REVOKED_BEFORE`
abbrev pub UserCache : Type 0
UserCache = Dict (User × ℕ)

abbrev pub Revocations : Type 0
Revocations = Dict ℕ

abbrev pub user_cache_ttl : ℕ
user_cache_ttl = 30_000

unfoldable pub invalidate_user_cache : String → UserCache → UserCache
invalidate_user_cache id cache = erase id cache

-- `at` is the time of the call where it is not given
unfoldable pub revoke_tokens_issued_before : String → ℕ → Revocations → Revocations
revoke_tokens_issued_before id at revoked = insert id at revoked

abbrev pub cached_or_gone : UserCache → String → ℕ → Option (User × ℕ) → UserCache × Option User
cached_or_gone cache id now none = (cache, none)
cached_or_gone cache id now (some (user, until)) =
    if ltb now until then (cache, some user) else (erase id cache, none)

unfoldable pub get_cached_user : UserCache → String → ℕ → UserCache × Option User
get_cached_user cache id now = cached_or_gone cache id now (lookup id cache)

unfoldable pub cache_user : String → User → ℕ → UserCache → UserCache
cache_user id user now cache = insert id (user, now + user_cache_ttl) cache

-- `s.startswith(prefix)`
unfoldable pub starts_with : List ℕ → List ℕ → Bool
starts_with [] s = true
starts_with (c ∷ p) [] = false
starts_with (c ∷ p) (d ∷ s) = c == d && starts_with p s

abbrev pub public_paths : List (List ℕ)
public_paths =
    codes "/api/auth/users/register"
    ∷ codes "/api/auth/users/login"
    ∷ codes "/debug"
    ∷ codes "/debug/"
    ∷ []

unfoldable pub is_protected : List ℕ → Bool
unfolding starts_with member
is_protected path =
    (starts_with (codes "/api") path || starts_with (codes "/debug") path)
    && (not (starts_with (codes "/docs") path) && not (member path public_paths))

abbrev dropped : ℕ → List ℕ → List ℕ
dropped ℕ.zero s = s
dropped (ℕ.suc n) [] = []
dropped (ℕ.suc n) (c ∷ s) = dropped n s

-- `s.replace(word, "", 1)`, `size` being the length of the word
unfoldable pub remove_first : List ℕ → ℕ → List ℕ → List ℕ
unfolding starts_with
remove_first word size [] = []
remove_first word size (c ∷ s) =
    let rest = remove_first word size s in
    if starts_with word (c ∷ s) then dropped size (c ∷ s) else c ∷ rest

-- `headers.get(name) or ""`
abbrev pub header : Option (List ℕ) → List ℕ
header none = []
header (some s) = s

-- `s or default`
abbrev pub or_else : List ℕ → List ℕ → List ℕ
or_else [] default = default
or_else (c ∷ s) default = c ∷ s

abbrev pub is_blank : List ℕ → Bool
is_blank [] = true
is_blank (c ∷ s) = false

unfoldable pub bearer_token : Option (List ℕ) → List ℕ
unfolding remove_first
bearer_token authorization = strip (remove_first (codes "Bearer ") 7 (header authorization))

-- the payload of a token: each member may be missing
pub record Claims : Type 0 where
  pub user_id : Option String
  pub username : Option String
  pub role : Option (List ℕ)
  pub iat : Option ℕ

abbrev pub get_or {ℓ} : {A : Type ℓ} → A → Option A → A
get_or default none = default
get_or default (some a) = a

pub record Identity : Type 0 where
  pub user_id : String
  pub username : String
  pub role : List ℕ
  pub scopes : List ℕ
  pub session_id : List ℕ

-- the request, the clocks, and whether the database answers its two queries
pub record Request : Type 0 where
  pub path : List ℕ
  pub x_api_key : Option (List ℕ)
  pub authorization : Option (List ℕ)
  pub x_session_id : Option (List ℕ)
  pub now : ℕ
  pub wall : ℕ
  pub keys_up : Bool
  pub users_up : Bool

pub record State : Type 0 where
  pub service : Service
  pub users : List User
  pub user_cache : UserCache
  pub revoked_before : Revocations

-- `call_next`, with what `request.state` has been given, or 401
pub data Verdict : Type 0 where
  unauthorized : Verdict
  passes : Option Identity → Verdict

-- the first of `roles.split(",")`, and the default if there is no text
abbrev pub first_of : List (List ℕ) → List ℕ
first_of [] = []
first_of (w ∷ ws) = w

unfoldable pub role_of : List ℕ → List ℕ → List ℕ
unfolding split_commas
role_of default [] = default
role_of default (c ∷ s) = first_of (split_commas (c ∷ s))

-- the owner's record as the table gives it, which is then cached
abbrev pub remembered : Request → State → String → UserCache → Option User → State × Option User
remembered r s id cache none = (record s { user_cache = cache }, none)
remembered r s id cache (some user) =
    (record s { user_cache = cache_user id user r.now cache }, some user)

-- the owner of a key, from the cache or the table
abbrev pub looked_up : Request → State → String → UserCache × Option User → State × Option User
looked_up r s id (cache, some user) = (record s { user_cache = cache }, some user)
looked_up r s id (cache, none) = remembered r s id cache (get_user_by_id r.users_up id s.users)

unfoldable pub find_owner : Request → State → String → State × Option User
unfolding get_user_by_id get_cached_user cache_user
find_owner r s id =
    if str_eq id "" then (s, none) else looked_up r s id (get_cached_user s.user_cache id r.now)

unfoldable pub key_identity : Request → KeyInfo → Option User → Identity
unfolding role_of
key_identity r info owner = record {
  user_id = info.owner_id;
  username = elim owner [ none ↦ "" | some user ↦ user.username ];
  role = elim owner [ none ↦ [] | some user ↦ role_of [] user.roles ];
  scopes = header info.scopes;
  session_id = or_else (header r.x_session_id) (codes "api-key");
}

unfoldable pub token_identity : Request → Claims → Identity
unfolding text_eq
token_identity r claims = record {
  user_id = get_or "" claims.user_id;
  username = get_or "" claims.username;
  role = get_or [] claims.role;
  scopes =
      if text_eq (get_or [] claims.role) (codes "admin") then codes "read,write" else codes "read";
  session_id = or_else (header r.x_session_id) (codes "jwt");
}

-- `revoked_before is not None and issued_at < revoked_before`
unfoldable pub issued_before : Claims → Option ℕ → Bool
issued_before claims none = false
issued_before claims (some at) = ltb (get_or 0 claims.iat * 1000) at

unfoldable pub is_revoked : Revocations → Claims → Bool
unfolding issued_before
is_revoked revoked claims = issued_before claims (lookup (get_or "" claims.user_id) revoked)

-- what `jwt.decode` gave
unfoldable pub claimed : Request → Revocations → Option Claims → Verdict
unfolding is_revoked token_identity
claimed r revoked none = unauthorized
claimed r revoked (some claims) =
    if is_revoked revoked claims then unauthorized else passes (some (token_identity r claims))

module _ (hash_api_key : List ℕ → String) (decode : List ℕ → Option Claims)
    (has_manager has_settings : Bool) where
  unfoldable pub by_token : Request → State → Verdict
  unfolding bearer_token claimed
  by_token r s =
      if not (is_blank (bearer_token r.authorization)) && has_settings
      then claimed r s.revoked_before (decode (bearer_token r.authorization))
      else unauthorized

  -- after the key service has answered
  unfoldable pub by_key : Request → State → Service × Option KeyInfo → State × Verdict
  unfolding by_token find_owner key_identity
  by_key r s (service, none) = let s' = record s { service = service } in (s', by_token r s')
  by_key r s (service, some info) =
      let (s', owner) = find_owner r (record s { service = service }) info.owner_id in
      (s', passes (some (key_identity r info owner)))

  unfoldable pub authenticate : Request → State → State × Verdict
  unfolding by_token by_key validate_api_key
  authenticate r s =
      let key = strip (header r.x_api_key) in
      if is_blank key
      then (s, by_token r s)
      else by_key r s
          (validate_api_key r.keys_up (hash_api_key key) r.now (r.wall / 1000) s.service)

  unfoldable pub enforce_auth : Request → State → State × Verdict
  unfolding is_protected authenticate
  enforce_auth r s =
      if not (is_protected r.path)
      then (s, passes none)
      else if not has_manager
      then (s, unauthorized)
      else authenticate r s

-- `CurrentUser` of core/auth/dependencies.py
pub record CurrentUser : Type 0 where
  pub user_id : String
  pub role : List ℕ
  pub scopes : List ℕ

unfoldable pub is_admin : CurrentUser → Bool
unfolding text_eq
is_admin u = text_eq u.role (codes "admin")

unfoldable pub get_current_user : Option Identity → CurrentUser
get_current_user none = record { user_id = ""; role = []; scopes = [] }
get_current_user (some who) = record { user_id = who.user_id; role = who.role; scopes = who.scopes }
