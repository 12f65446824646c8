-- ===== src/Auth/Routes/Keys.antt =====
-- The routes on API keys: create, list, revoke and delete.
use salesdata_api.Base.{
  ℕ, ◌/◌, String, List, length, Option, none, some, Bool, leb, if◌then◌else◌, true, false,
}
use salesdata_api.Storage.Keys.{ApiKey, KeyInfo}
use salesdata_api.Auth.ApiKeys.{Service}
use salesdata_api.Auth.ApiKeys
use salesdata_api.Auth.Middleware.{CurrentUser}
use salesdata_api.Auth.Routes.{Reply, reply, http_error, require_owner_or_admin}

-- `APIKeyCreate`
pub record KeyCreate : Type 0 where
  pub owner_id : String
  pub scopes : Option (List ℕ)
  pub expires_at : Option ℕ

-- `_expires_at_must_be_future`; FastAPI answers 422 where it raises
unfoldable pub expires_in_past : Option ℕ → ℕ → Bool
expires_in_past none now = false
expires_in_past (some t) now = leb t now

-- `key_id` and `hash` are drawn; `wall` is in milliseconds
unfoldable pub key_row : KeyCreate → String → String → ℕ → ApiKey
key_row data_ key_id hash wall = record {
  key_id = key_id;
  api_key_hash = hash;
  owner_id = data_.owner_id;
  created_at = wall / 1000;
  expires_at = data_.expires_at;
  scopes = data_.scopes;
  is_active = true;
}

abbrev answered {ℓ} : {A : Type ℓ} → Service × A → Service × Reply A
answered (s, a) = (s, reply a)

unfoldable pub create_api_key :
    Bool → CurrentUser → KeyCreate → String → String → ℕ → Service → Service × Reply KeyInfo
unfolding expires_in_past require_owner_or_admin key_row ApiKeys.create_api_key
create_api_key up caller data_ key_id hash wall s =
    if expires_in_past data_.expires_at (wall / 1000)
    then (s, http_error 422)
    else if require_owner_or_admin caller data_.owner_id
    then answered (ApiKeys.create_api_key up (key_row data_ key_id hash wall) s)
    else (s, http_error 403)

unfoldable pub list_api_keys : Bool → CurrentUser → String → Service → Reply (List KeyInfo × ℕ)
unfolding require_owner_or_admin ApiKeys.list_api_keys
list_api_keys up caller owner_id s =
    if require_owner_or_admin caller owner_id
    then (let keys = ApiKeys.list_api_keys up owner_id s in reply (keys, length keys))
    else http_error 403

-- the result of the service is not looked at
abbrev whatever : String → Service × Bool → Service × Reply String
whatever key_id (s, result) = (s, reply key_id)

unfoldable pub revoke_api_key :
    Bool → CurrentUser → String → String → Service → Service × Reply String
unfolding require_owner_or_admin ApiKeys.revoke_api_key
revoke_api_key up caller key_id owner_id s =
    if require_owner_or_admin caller owner_id
    then whatever key_id (ApiKeys.revoke_api_key up key_id owner_id s)
    else (s, http_error 403)

unfoldable pub delete_api_key :
    Bool → CurrentUser → String → String → Service → Service × Reply String
unfolding require_owner_or_admin ApiKeys.delete_api_key
delete_api_key up caller key_id owner_id s =
    if require_owner_or_admin caller owner_id
    then whatever key_id (ApiKeys.delete_api_key up key_id owner_id s)
    else (s, http_error 403)
