-- ===== src/Auth/Middleware/Gate.antt =====
-- What a request to a protected path has to show.
use salesdata_api.Base.{
  ◌≡◌, refl, ap, ℕ, String, List, Option, none, some, Bool, true, false, ◌&&◌, if◌then◌else◌, not,
}
use salesdata_api.Sql.Policy.{strip}
use salesdata_api.Storage.Keys.{KeyInfo}
use salesdata_api.Auth.ApiKeys.{Service}
use salesdata_api.Auth.Middleware.Identities.{
  Granted, by_api_key, by_jwt, key_answer, fresh-Stands, token_identity-FromToken,
  find_owner-OwnerOf, key_identity-FromKey,
}
use salesdata_api.Auth.Middleware.{
  Request, State, Verdict, unauthorized, passes, Identity, Claims, header, is_blank, is_protected,
  bearer_token, is_revoked, token_identity, claimed, find_owner, by_token, by_key, authenticate,
  enforce_auth,
}

module _ (hash_api_key : List ℕ → String) (decode : List ℕ → Option Claims) where
  abbrev Admits : Request → State → Verdict → Type 0
  Admits r s unauthorized = Unit
  Admits r s (passes none) = ⊥
  Admits r s (passes (some who)) = Granted hash_api_key decode r s who

  claimed-Admits :
      (r : Request) (s : State) (o : Option Claims)
      → is_blank (bearer_token r.authorization) ≡ false
      → decode (bearer_token r.authorization) ≡ o
      → Admits r s (claimed r s.revoked_before o)
  unfolding claimed
  claimed-Admits r s none shown e = tt
  claimed-Admits r s (some claims) shown e = standing (is_revoked s.revoked_before claims) refl
    where
      standing :
          (b : Bool)
          → is_revoked s.revoked_before claims ≡ b
          → Admits r s (if b then unauthorized else passes (some (token_identity r claims)))
      standing true revoked = tt
      standing false fresh =
          by_jwt claims shown e (fresh-Stands s claims fresh) (token_identity-FromToken r claims)

  module _ (has_manager has_settings : Bool) where
    -- `s'` is the state after the key service was asked
    token-Admits :
        (r : Request) (s s' : State)
        → s'.revoked_before ≡ s.revoked_before
        → Admits r s (by_token hash_api_key decode has_manager has_settings r s')
    unfolding by_token
    token-Admits r s s' same = shown (is_blank (bearer_token r.authorization)) has_settings refl
      where
        shown :
            (blank set_up : Bool)
            → is_blank (bearer_token r.authorization) ≡ blank
            → Admits r s (
                if not blank && set_up
                then claimed r s'.revoked_before (decode (bearer_token r.authorization))
                else unauthorized)
        shown true set_up e = tt
        shown false true e = rw same (claimed-Admits r s _ e refl)
        shown false false e = tt

    key-Admits :
        (r : Request) (s : State) (p : Service × Option KeyInfo)
        → is_blank (strip (header r.x_api_key)) ≡ false
        → key_answer hash_api_key decode r s ≡ p
        → Admits r s (by_key hash_api_key decode has_manager has_settings r s p).1
    unfolding by_key
    key-Admits r s (service, none) shown e = token-Admits r s (record s { service = service }) refl
    key-Admits r s (service, some info) shown e =
        let s' = record s { service = service } in
        by_api_key info (find_owner r s' info.owner_id).1 shown (ap (λ p. p.1) e)
          (find_owner-OwnerOf r s' info.owner_id)
          (key_identity-FromKey r info (find_owner r s' info.owner_id).1)

    authenticate-Admits :
        (r : Request) (s : State)
        → Admits r s (authenticate hash_api_key decode has_manager has_settings r s).1
    unfolding authenticate
    authenticate-Admits r s = shown (is_blank (strip (header r.x_api_key))) refl
      where
        shown :
            (blank : Bool)
            → is_blank (strip (header r.x_api_key)) ≡ blank
            → Admits r s
                (if◌then◌else◌ {A = State × Verdict} blank
                  (s, by_token hash_api_key decode has_manager has_settings r s)
                  (by_key hash_api_key decode has_manager has_settings r s
                    (key_answer hash_api_key decode r s))).1
        shown true e = token-Admits r s s refl
        shown false e = key-Admits r s _ e refl

    enforce-Admits :
        (r : Request) (s : State)
        → is_protected r.path ≡ true
        → Admits r s (enforce_auth hash_api_key decode has_manager has_settings r s).1
    unfolding enforce_auth
    enforce-Admits r s protected = rw protected (managed has_manager)
      where
        managed :
            (b : Bool)
            → Admits r s
                (if◌then◌else◌ {A = State × Verdict}
                  (not b)
                  (s, unauthorized)
                  (authenticate hash_api_key decode has_manager has_settings r s)).1
        managed true = authenticate-Admits r s
        managed false = tt

  Admits-passes :
      (r : Request) (s : State) (v : Verdict) (who : Option Identity)
      → Admits r s v
      → v ≡ passes who
      → (i : Identity) × (who ≡ some i) × Granted hash_api_key decode r s i
  Admits-passes r s unauthorized who h e = absurd (cc)
  Admits-passes r s (passes none) who h e = absurd h
  Admits-passes r s (passes (some i)) who h e = (i, cc, h)

  -- A request to a protected path that the middleware passes on carries an identity, and it was
  -- granted. Either a key in its header validates, and the identity has that key's scopes and owner,
  -- and the first role of the owner's record, which is a cached one that still lasts or the table's;
  -- a missing owner has no role. Or its bearer token decodes and was not issued before its user's
  -- tokens were revoked, and the identity has the token's user and role, with the scopes to read and
  -- write if that role is "admin", and else the scope to read.
  pub enforce_auth-Granted :
      (has_manager has_settings : Bool) (r : Request) (s : State) (who : Option Identity)
      → is_protected r.path ≡ true
      → (enforce_auth hash_api_key decode has_manager has_settings r s).1 ≡ passes who
      → (i : Identity) × (who ≡ some i) × Granted hash_api_key decode r s i
  enforce_auth-Granted has_manager has_settings r s who protected e =
      Admits-passes r s _ who (enforce-Admits has_manager has_settings r s protected) e
