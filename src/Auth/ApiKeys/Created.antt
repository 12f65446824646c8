-- ===== src/Auth/ApiKeys/Created.antt =====
-- What a key that was just created is good for.
use salesdata_api.Base.{
  ◌≡◌, refl, ℕ, String, List, [], ◌∷◌, ◌++◌, Option, none, some, Bool, true, false, ◌&&◌, not,
  arith, if◌then◌else◌, str_eq, eq_refl, ap, ◌∙◌,
}
use salesdata_api.Base.Dict.{lookup}
use salesdata_api.Storage.Keys.{ApiKey, KeyInfo, info_of, has_key_id, select_active, is_expired}
use salesdata_api.Storage.Keys
use salesdata_api.Auth.ApiKeys.{
  Service, start_validation, start_from, finish_validation, validated, validate_api_key,
  create_api_key,
}

select-append :
    (hash : String) (keys : List ApiKey) (key : ApiKey)
    → select_active hash keys ≡ none
    → str_eq key.api_key_hash hash ≡ true
    → key.is_active ≡ true
    → select_active hash (keys ++ key ∷ []) ≡ some key
unfolding select_active
select-append hash [] key fresh same on = ground arith
select-append hash (k ∷ ks) key fresh same on = ground (arith, select-append hash ks key)

answered :
    (s : Service) (hash : String) (now : ℕ) (row : Option KeyInfo)
    → (validated s hash now row (s.cache, none)).1 ≡ row
unfolding validated finish_validation
answered s hash now none = refl
answered s hash now (some info) = refl

-- Without an entry in the cache the answer is the database's.
pub uncached :
    (up : Bool) (hash : String) (now wall : ℕ) (s : Service)
    → lookup hash s.cache ≡ none
    → (validate_api_key up hash now wall s).1 ≡ Keys.validate_api_key up hash wall s.keys
unfolding validate_api_key start_validation start_from
uncached up hash now wall s cold =
    let row = Keys.validate_api_key up hash wall s.keys in
    ap (λ o. (validated s hash now row (start_from s.cache hash now o)).1) cold
    ∙ answered s hash now row

stored :
    (up : Bool) (key : ApiKey) (wall : ℕ) (keys : List ApiKey)
    → key.is_active ≡ true
    → select_active key.api_key_hash keys ≡ none
    → is_expired key.expires_at wall ≡ false
    → Keys.validate_api_key true key.api_key_hash wall (Keys.create_api_key up key keys).0
      ≡ (if up && not (has_key_id key.key_id keys) then some (info_of key) else none)
unfolding Keys.validate_api_key Keys.create_api_key
stored up key wall keys on fresh live =
    ground (arith, select-append key.api_key_hash keys key fresh (eq_refl key.api_key_hash) on)

-- An active key with a new hash is validated right after its creation, if it has not expired, exactly
-- when the database took its row: it is up and has no row with the same id. What the creation
-- returned says that the key is active in every case.
pub validate-create :
    (up : Bool) (key : ApiKey) (s : Service) (now wall : ℕ)
    → key.is_active ≡ true
    → select_active key.api_key_hash s.keys ≡ none
    → lookup key.api_key_hash s.cache ≡ none
    → is_expired key.expires_at wall ≡ false
    → let (after, returned) = create_api_key up key s in
      ((validate_api_key true key.api_key_hash now wall after).1
        ≡ (if up && not (has_key_id key.key_id s.keys) then some (info_of key) else none))
      × (returned ≡ info_of key)
unfolding create_api_key
validate-create up key s now wall on fresh cold live =
    (uncached true _ now wall _ cold ∙ stored up key wall s.keys on fresh live, refl)
