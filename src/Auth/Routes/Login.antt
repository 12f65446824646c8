-- ===== src/Auth/Routes/Login.antt =====
-- What a login tells, and what its token is good for.
use salesdata_api.Base.{
  ◌≡◌, refl, ap, ◌∙◌, ℕ, ◌/◌, String, List, ◌++◌, Option, none, some, Bool, true, false,
  if◌then◌else◌,
}
use salesdata_api.Base.Dict.{lookup}
use salesdata_api.Sql.Chars.{codes, text_eq}
use salesdata_api.Sql.Policy.{strip}
use salesdata_api.Storage.Users.{User, get_user_by_username}
use salesdata_api.Auth.RateLimiter.{Attempts}
use salesdata_api.Auth.Passwords.{verify_password}
use salesdata_api.Auth.Middleware.{
  Request, State, passes, Claims, Identity, header, is_blank, is_protected, bearer_token,
  remove_first, starts_with, is_revoked, issued_before, token_identity, claimed, by_token,
  authenticate, enforce_auth,
}
use salesdata_api.Auth.Routes.{Api, AppSettings, reply, primary_role}
use salesdata_api.Auth.Routes.Users.{
  Client, LoginDb, Payload, AuthResponse, limited, token_payload, logged_in, checked, login_if,
  login_user,
}

module _ (derive : List ℕ → List ℕ → Option (List ℕ)) (encode : Payload → List ℕ)
    (dummy_hash : List ℕ) (settings : AppSettings) where
  login_if-same :
      (db : LoginDb) (client : Client) (a : Api) (name other : String) (password salt : List ℕ)
      (user : User) (ok : Bool) (p : Attempts × Bool)
      → get_user_by_username db.read_up name a.auth.users ≡ none
      → verify_password derive password dummy_hash salt ≡ some ok
      → get_user_by_username db.read_up other a.auth.users ≡ some user
      → verify_password derive password user.password_hash salt ≡ some false
      → login_if derive encode dummy_hash settings db client name password salt a p
        ≡ login_if derive encode dummy_hash settings db client other password salt a p
  unfolding checked
  login_if-same db client a name other password salt user ok (attempts, true) unknown dummy found
        wrong =
      rw (unknown, dummy, found, wrong) refl
  login_if-same db client a name other password salt user ok (attempts, false) unknown dummy found
        wrong =
      refl

  -- A login with a name that no user has ends as one with a user's name and a wrong password does, with
  -- the same answer and the same state, if the password check of each says something.
  pub login-unknown_eq_wrong :
      (db : LoginDb) (client : Client) (a : Api) (name other : String) (password salt : List ℕ)
      (user : User) (ok : Bool)
      → get_user_by_username db.read_up name a.auth.users ≡ none
      → verify_password derive password dummy_hash salt ≡ some ok
      → get_user_by_username db.read_up other a.auth.users ≡ some user
      → verify_password derive password user.password_hash salt ≡ some false
      → login_user derive encode dummy_hash settings db client name password salt a
        ≡ login_user derive encode dummy_hash settings db client other password salt a
  unfolding login_user
  login-unknown_eq_wrong db client a name other password salt user ok unknown dummy found wrong =
      login_if-same db client a name other password salt user ok
        (limited settings client.ip client.now a.attempts) unknown dummy found wrong

  login-succeeds :
      (db : LoginDb) (client : Client) (a : Api) (name : String) (password salt : List ℕ)
      (user : User) (attempts : Attempts)
      → limited settings client.ip client.now a.attempts ≡ (attempts, true)
      → get_user_by_username db.read_up name a.auth.users ≡ some user
      → verify_password derive password user.password_hash salt ≡ some true
      → user.is_active ≡ true
      → login_user derive encode dummy_hash settings db client name password salt a
        ≡ logged_in derive encode dummy_hash settings db client
            (record a { attempts = attempts })
            user
  unfolding login_user checked
  login-succeeds db client a name password salt user attempts allowed found right on =
      rw (allowed, found, right, on) refl

bearer-token : (token : List ℕ) → bearer_token (some (codes "Bearer " ++ token)) ≡ strip token
unfolding bearer_token remove_first starts_with
bearer-token token = refl

module _ (hash_api_key : List ℕ → String) (decode : List ℕ → Option Claims) where
  token-passes :
      (r : Request) (s : State) (claims : Claims)
      → is_protected r.path ≡ true
      → is_blank (strip (header r.x_api_key)) ≡ true
      → is_blank (bearer_token r.authorization) ≡ false
      → decode (bearer_token r.authorization) ≡ some claims
      → is_revoked s.revoked_before claims ≡ false
      → enforce_auth hash_api_key decode true true r s
        ≡ (s, passes (some (token_identity r claims)))
  unfolding enforce_auth authenticate by_token claimed
  token-passes r s claims protected no_key shown decoded fresh =
      rw (protected, no_key, shown, decoded, fresh) refl

-- A user whose account is active and whose password is right, and whom the rate limit allows, gets a
-- token, and the middleware passes a request to a protected path that bears it and no API key, as
-- that user with the role of the login and the scope to write only for an admin. It relies on
-- `jwt.decode` giving back the claims that `jwt.encode` was given, on the token being a text that is not
-- empty and has no white space around it, and on no change of the user's role since the process
-- started.
pub login-granted :
    (derive : List ℕ → List ℕ → Option (List ℕ)) (encode : Payload → List ℕ) (dummy_hash : List ℕ)
    (settings : AppSettings) (hash_api_key : List ℕ → String) (decode : List ℕ → Option Claims)
    (db : LoginDb) (client : Client) (a : Api) (name : String) (password salt : List ℕ)
    (user : User) (attempts : Attempts) (r : Request)
    → limited settings client.ip client.now a.attempts ≡ (attempts, true)
    → get_user_by_username db.read_up name a.auth.users ≡ some user
    → verify_password derive password user.password_hash salt ≡ some true
    → user.is_active ≡ true
    → decode (encode (token_payload settings user (client.wall / 1000)))
      ≡ some (token_payload settings user (client.wall / 1000)).claims
    → strip (encode (token_payload settings user (client.wall / 1000)))
      ≡ encode (token_payload settings user (client.wall / 1000))
    → is_blank (encode (token_payload settings user (client.wall / 1000))) ≡ false
    → lookup user.user_id a.auth.revoked_before ≡ none
    → is_protected r.path ≡ true
    → is_blank (strip (header r.x_api_key)) ≡ true
    → let after = login_user derive encode dummy_hash settings db client name password salt a in
      (resp : AuthResponse) × (token : List ℕ) × (who : Identity) × (after.1 ≡ reply resp)
      × (resp.success ≡ true)
      × (resp.token ≡ some token)
      × ((enforce_auth hash_api_key decode true true
            (record r { authorization = some (codes "Bearer " ++ token) })
            after.0.auth).1
          ≡ passes (some who))
      × (who.user_id ≡ user.user_id)
      × (who.role ≡ primary_role user)
      × (who.scopes ≡ (
          if text_eq (primary_role user) (codes "admin") then codes "read,write" else codes "read"))
unfolding logged_in token_payload token_identity is_revoked issued_before
login-granted derive encode dummy_hash settings hash_api_key decode db client a name password salt
      user attempts r allowed found right on decodes clean shown never protected no_key =
    let payload = token_payload settings user (client.wall / 1000) in
    let token = encode payload in
    let r' = record r { authorization = some (codes "Bearer " ++ token) } in
    let read_back = bearer-token token ∙ clean in
    rw
      (login-succeeds derive encode dummy_hash settings db client a name password salt user attempts
        allowed found right on)
      (
        _,
        token,
        token_identity r' payload.claims,
        refl,
        refl,
        refl,
        ap (λ v. v.1)
            (token-passes hash_api_key decode r' _ payload.claims protected no_key
              (ap is_blank read_back ∙ shown) (ap decode read_back ∙ decodes)
              (ap (issued_before payload.claims) never)),
        refl,
        refl,
        refl,
      )
