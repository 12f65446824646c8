-- ===== src/Auth/Middleware/Tokens.antt =====
-- Tokens after a revocation, and what the identity of a token may do with a statement.
use salesdata_api.Base.{
  ◌≡◌, refl, ◌⊎◌, ℕ, ◌*◌, ◌<◌, String, List, [], Option, none, some, Bool, true, false, arith,
  if◌then◌else◌, not, ltb, str_eq, eq_refl, ap, ◌∙◌,
}
use salesdata_api.Base.Dict.{lookup, lookup-insert}
use salesdata_api.Sql.Chars.{codes, text_eq, is_space, is_upper, to_lower}
use salesdata_api.Sql.Regex.Words.{HasWord}
use salesdata_api.Sql.Policy.{
  strip, first_keyword, write_words, has_scope, granted, split_commas, member,
}
use salesdata_api.Query.ResultCache.{Codec}
use salesdata_api.Query.Service.{World, Settings, Failure, authorization_error, run}
use salesdata_api.Query.Service
use salesdata_api.Query.Service.Writes.{run-unauthorized}
use salesdata_api.Auth.Middleware.{
  Request, State, Verdict, unauthorized, Claims, Revocations, header, is_blank, is_protected,
  bearer_token, is_revoked, issued_before, token_identity, claimed, by_token, authenticate,
  enforce_auth, get_or, revoke_tokens_issued_before, get_current_user,
}

-- After `revoke_tokens_issued_before` for a user, exactly those tokens of that user are revoked whose
-- time of issue, a whole second, lies before the given time in milliseconds; so a token issued
-- later in the same second is revoked too. The tokens of other users stay as they were.
pub is_revoked-revoke :
    (id : String) (at : ℕ) (revoked : Revocations) (claims : Claims)
    → is_revoked (revoke_tokens_issued_before id at revoked) claims ≡ (
        if str_eq id (get_or "" claims.user_id)
        then ltb (get_or 0 claims.iat * 1000) at
        else is_revoked revoked claims)
unfolding is_revoked revoke_tokens_issued_before
is_revoked-revoke id at revoked claims =
    ap (issued_before claims) (lookup-insert id (get_or "" claims.user_id) at revoked)
    ∙ chosen (str_eq id (get_or "" claims.user_id))
  where
    chosen :
        (b : Bool)
        → issued_before claims (if b then some at else lookup (get_or "" claims.user_id) revoked)
          ≡ (if b
              then ltb (get_or 0 claims.iat * 1000) at
              else issued_before claims (lookup (get_or "" claims.user_id) revoked))
    chosen true = unfold issued_before in refl
    chosen false = refl

module _ (hash_api_key : List ℕ → String) (decode : List ℕ → Option Claims)
    (has_manager has_settings : Bool) where
  refused :
      (r : Request) (s : State) (o : Option Claims)
      → ((claims : Claims) → o ≡ some claims → is_revoked s.revoked_before claims ≡ true)
      → claimed r s.revoked_before o ≡ unauthorized
  unfolding claimed
  refused r s none h = refl
  refused r s (some claims) h = rw (h claims refl) refl

  by_token-refused :
      (r : Request) (s : State)
      → ((claims : Claims)
          → decode (bearer_token r.authorization) ≡ some claims
          → is_revoked s.revoked_before claims ≡ true)
      → by_token hash_api_key decode has_manager has_settings r s ≡ unauthorized
  unfolding by_token
  by_token-refused r s h = ground (arith, refused r s (decode (bearer_token r.authorization)) h)

  managed :
      (s : State) (v : Verdict)
      → v ≡ unauthorized
      → (b : Bool)
      → (if◌then◌else◌ {A = State × Verdict} (not b) (s, unauthorized) (s, v)).1 ≡ unauthorized
  managed s v e true = e
  managed s v e false = refl

  -- Without an API key, a token that the recorded revocation of its user's tokens comes after is
  -- refused.
  pub revoked-refused :
      (r : Request) (s : State) (id : String) (at : ℕ) (revoked : Revocations) (claims : Claims)
      → s.revoked_before ≡ revoke_tokens_issued_before id at revoked
      → is_protected r.path ≡ true
      → is_blank (strip (header r.x_api_key)) ≡ true
      → decode (bearer_token r.authorization) ≡ some claims
      → claims.user_id ≡ some id
      → get_or 0 claims.iat * 1000 < at
      → (enforce_auth hash_api_key decode has_manager has_settings r s).1 ≡ unauthorized
  unfolding enforce_auth authenticate
  revoked-refused r s id at revoked claims recorded protected no_key decoded of_user before =
      rw (protected, no_key)
        (managed s _ (by_token-refused r s λ other e. refuses other (cc)) has_manager)
    where
      refuses : (other : Claims) → other ≡ claims → is_revoked s.revoked_before other ≡ true
      refuses other same =
          ap (λ (x : Revocations). is_revoked x other) recorded
          ∙ is_revoked-revoke id at revoked other
          ∙ ground (arith, same, of_user, before, eq_refl id)

module _ {ℓ κ μ} {Value : Type ℓ} {Params : Type κ} {D : Type μ} (codec : Codec Value Params)
    (row_bytes : Value → ℕ) (execute : ℕ → List ℕ → Params → D → D × (Failure ⊎ List Value))
    (settings : Settings) (up : Bool) where
  -- Where write scopes are required, the identity that the middleware gives to the bearer of a token
  -- whose role is not "admin" runs no statement that may write: it is refused, and the warehouse and
  -- the caches stay as they were.
  pub token_identity-unauthorized :
      (w : World Value Params D) (q : Service.Request Params) (r : Request) (claims : Claims)
      → settings.require_write_scope ≡ true
      → text_eq (get_or [] claims.role) (codes "admin") ≡ false
      → ¬ (
          (first_keyword q.sql ≡ codes "SELECT")
          ⊎ ((first_keyword q.sql ≡ codes "WITH") × ¬ HasWord write_words q.sql))
      → run codec row_bytes execute settings up w
          (record q { scopes = some (get_current_user (some (token_identity r claims))).scopes })
        ≡ (w, authorization_error)
  unfolding get_current_user token_identity
  token_identity-unauthorized w q r claims required plain_role writes = rw plain_role (
      run-unauthorized codec row_bytes execute settings up w _ required
        (unfold has_scope granted split_commas member text_eq is_space is_upper to_lower in refl)
        writes)
