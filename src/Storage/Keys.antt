-- ===== src/Storage/Keys.antt =====
-- The table `api_keys` of core/storage/service_db.py, in the order of its rowids, and the statements
-- on it. `up` says that the statement of a call is not refused by the database: where it is false
-- the call raises inside, and answers what its `except` returns. The columns `last_used_at` and
-- `usage_count` are left out, since no statement reads or writes them.
use salesdata_api.Base.{
  ℕ, zero, suc, String, List, [], ◌∷◌, ◌++◌, map, Option, none, some, Bool, true, false, not, ◌&&◌,
  ltb, str_eq, if◌then◌else◌,
}

pub record ApiKey : Type 0 where
  pub key_id : String
  pub api_key_hash : String
  pub owner_id : String
  pub created_at : ℕ
  pub expires_at : Option ℕ
  pub scopes : Option (List ℕ)
  pub is_active : Bool

-- the columns that the queries select: all but the hash
pub record KeyInfo : Type 0 where
  pub key_id : String
  pub owner_id : String
  pub created_at : ℕ
  pub expires_at : Option ℕ
  pub scopes : Option (List ℕ)
  pub is_active : Bool

abbrev pub info_of : ApiKey → KeyInfo
info_of k = record {
  key_id = k.key_id;
  owner_id = k.owner_id;
  created_at = k.created_at;
  expires_at = k.expires_at;
  scopes = k.scopes;
  is_active = k.is_active;
}

-- `WHERE key_id = ? AND owner_id = ?`
abbrev pub is_key_of : String → String → ApiKey → Bool
is_key_of id owner k = str_eq k.key_id id && str_eq k.owner_id owner

unfoldable pub has_key_id : String → List ApiKey → Bool
has_key_id id [] = false
has_key_id id (k ∷ ks) = if str_eq k.key_id id then true else has_key_id id ks

-- `INSERT INTO api_keys`, which the primary key refuses for an id in use
unfoldable pub create_api_key : Bool → ApiKey → List ApiKey → List ApiKey × Bool
unfolding has_key_id
create_api_key up key keys =
    if up && not (has_key_id key.key_id keys) then (keys ++ key ∷ [], true) else (keys, false)

-- the first row of `SELECT ... WHERE api_key_hash = ? AND is_active = true`
unfoldable pub select_active : String → List ApiKey → Option ApiKey
select_active hash [] = none
select_active hash (k ∷ ks) =
    if str_eq k.api_key_hash hash && k.is_active then some k else select_active hash ks

-- `key_data.get("expires_at") and key_data["expires_at"] < current_time`
unfoldable pub is_expired : Option ℕ → ℕ → Bool
is_expired none now = false
is_expired (some zero) now = false
is_expired (some (suc t)) now = ltb (suc t) now

unfoldable pub validate_api_key : Bool → String → ℕ → List ApiKey → Option KeyInfo
unfolding select_active is_expired
validate_api_key up hash current_time keys = elim (if up then select_active hash keys else none) [
  | none ↦ none
  | some k ↦ if is_expired k.expires_at current_time then none else some (info_of k)
]

-- `ORDER BY created_at DESC`, rows of the same time in the order of the table
unfoldable pub insert_newest : ApiKey → List ApiKey → List ApiKey
insert_newest k [] = k ∷ []
insert_newest k (j ∷ js) =
    let rest = insert_newest k js in if ltb k.created_at j.created_at then j ∷ rest else k ∷ j ∷ js

unfoldable pub owned_newest : String → List ApiKey → List ApiKey
unfolding insert_newest
owned_newest owner [] = []
owned_newest owner (k ∷ ks) =
    let rest = owned_newest owner ks in
    if str_eq k.owner_id owner then insert_newest k rest else rest

unfoldable pub list_api_keys_by_owner : Bool → String → List ApiKey → List KeyInfo
unfolding owned_newest
list_api_keys_by_owner up owner keys = if up then map info_of (owned_newest owner keys) else []

unfoldable pub deactivated : String → String → List ApiKey → List ApiKey
deactivated id owner [] = []
deactivated id owner (k ∷ ks) =
    (if is_key_of id owner k then record k { is_active = false } else k) ∷ deactivated id owner ks

-- `UPDATE ... SET is_active = false`: the answer does not depend on whether a row is there
unfoldable pub revoke_api_key : Bool → String → String → List ApiKey → List ApiKey × Bool
unfolding deactivated
revoke_api_key up id owner keys = if up then (deactivated id owner keys, true) else (keys, false)

unfoldable pub without : String → String → List ApiKey → List ApiKey
without id owner [] = []
without id owner (k ∷ ks) =
    let rest = without id owner ks in if is_key_of id owner k then rest else k ∷ rest

-- `DELETE FROM api_keys`
unfoldable pub delete_api_key : Bool → String → String → List ApiKey → List ApiKey × Bool
unfolding without
delete_api_key up id owner keys = if up then (without id owner keys, true) else (keys, false)
