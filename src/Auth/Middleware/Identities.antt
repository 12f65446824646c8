-- ===== src/Auth/Middleware/Identities.antt =====
-- Whose identity a request may carry: what it is to be granted by a key or by a token.
use salesdata_api.Base.{
  ◌≡◌, refl, ap, ◌⊎◌, inl, inr, ℕ, ◌*◌, ◌/◌, ◌≤◌, ◌<◌, String, List, [], ◌∷◌, ◌++◌, Option, none,
  some, Bool, true, false, ◌==◌, ◌||◌, str_eq, ltb, arith, Bool-cases,
}
use salesdata_api.Base.Dict.{lookup}
use salesdata_api.Sql.Chars.{codes, text_eq}
use salesdata_api.Sql.Policy.{strip, split_commas}
use salesdata_api.Sql.Policy.Writes.{text_eq_iff}
use salesdata_api.Storage.Keys.{KeyInfo}
use salesdata_api.Storage.Users.{User, get_user_by_id}
use salesdata_api.Auth.ApiKeys.{Service, validate_api_key}
use salesdata_api.Auth.Middleware.{
  Request, State, UserCache, Identity, Claims, header, is_blank, bearer_token, is_revoked,
  issued_before, token_identity, key_identity, find_owner, get_cached_user, cached_or_gone,
  looked_up, remembered, role_of, first_of, get_or,
}

abbrev pub has_comma : List ℕ → Bool
has_comma [] = false
has_comma (c ∷ s) = c == 44 || has_comma s

-- a text up to its first comma
abbrev pub IsFirst : List ℕ → List ℕ → Type 0
IsFirst w s =
    (rest : List ℕ) × (s ≡ w ++ rest)
    × (has_comma w ≡ false)
    × ((rest ≡ []) ⊎ ((more : List ℕ) × (rest ≡ 44 ∷ more)))

-- the owner of the key, who may be missing
abbrev pub OwnerOf : Request → State → String → Option User → Type 0
OwnerOf r s id none = (str_eq id "" ≡ true) ⊎ (get_user_by_id r.users_up id s.users ≡ none)
OwnerOf r s id (some user) =
    ((until : ℕ) × (lookup id s.user_cache ≡ some (user, until)) × (r.now < until))
    ⊎ (get_user_by_id r.users_up id s.users ≡ some user)

abbrev pub OwnsRole : Option User → Identity → Type 0
OwnsRole none i = (i.username ≡ "") × (i.role ≡ [])
OwnsRole (some user) i = (i.username ≡ user.username) × IsFirst i.role user.roles

abbrev pub FromKey : KeyInfo → Option User → Identity → Type 0
FromKey info owner i =
    (i.user_id ≡ info.owner_id) × (i.scopes ≡ get_or [] info.scopes) × OwnsRole owner i

abbrev pub FromToken : Claims → Identity → Type 0
FromToken claims i =
    (i.user_id ≡ get_or "" claims.user_id)
    × (i.username ≡ get_or "" claims.username)
    × (i.role ≡ get_or [] claims.role)
    × (((i.role ≡ codes "admin") × (i.scopes ≡ codes "read,write"))
        ⊎ ((¬ (i.role ≡ codes "admin")) × (i.scopes ≡ codes "read")))

-- not issued before the time at which the tokens of its user were revoked
abbrev pub Stands : State → Claims → Type 0
Stands s claims =
    (at : ℕ)
    → lookup (get_or "" claims.user_id) s.revoked_before ≡ some at
    → at ≤ get_or 0 claims.iat * 1000

module _ (hash_api_key : List ℕ → String) (decode : List ℕ → Option Claims) where
  -- what the key service answers to the header of the request
  abbrev pub key_answer : Request → State → Service × Option KeyInfo
  key_answer r s =
      validate_api_key r.keys_up (hash_api_key (strip (header r.x_api_key))) r.now (r.wall / 1000)
        s.service

  -- The two ways in: a key that the service validates, with the role of its owner and the scopes of
  -- its own; or a token that decodes and that no role change has revoked.
  pub data Granted (r : Request) (s : State) (i : Identity) : Type 0 where
    by_api_key :
        (info : KeyInfo) (owner : Option User)
        → is_blank (strip (header r.x_api_key)) ≡ false
        → (key_answer r s).1 ≡ some info
        → OwnerOf r s info.owner_id owner
        → FromKey info owner i
        → Granted r s i
    by_jwt :
        (claims : Claims)
        → is_blank (bearer_token r.authorization) ≡ false
        → decode (bearer_token r.authorization) ≡ some claims
        → Stands s claims
        → FromToken claims i
        → Granted r s i

abbrev FirstIs : List (List ℕ) → List ℕ → Type 0
FirstIs [] s = ⊥
FirstIs (w ∷ ws) s = IsFirst w s

first_step :
    (c : ℕ) (s : List ℕ) (words : List (List ℕ))
    → split_commas s ≡ words
    → FirstIs words s
    → FirstIs (split_commas (c ∷ s)) (c ∷ s)
unfolding split_commas
first_step c s [] e h = absurd h
first_step c s (w ∷ ws) e (rest, cut, free, end_) = elim (Bool-cases (c == 44)) [
  | inl comma ↦ rw (e, comma) (c ∷ s, refl, refl, inr (s, ground (arith, comma)))
  | inr other ↦ rw (e, other) (rest, ap (◌∷◌ c) cut, ground (arith, other, free), end_)
]

first-split : (s : List ℕ) → FirstIs (split_commas s) s
first-split [] = unfold split_commas in ([], refl, refl, inl refl)
first-split (c ∷ s) = first_step c s (split_commas s) refl (first-split s)

first_of_lem : (words : List (List ℕ)) (s : List ℕ) → FirstIs words s → IsFirst (first_of words) s
first_of_lem [] s h = absurd h
first_of_lem (w ∷ ws) s h = h

role_of-IsFirst : (s : List ℕ) → IsFirst (role_of [] s) s
unfolding role_of
role_of-IsFirst [] = ([], refl, refl, inl refl)
role_of-IsFirst (c ∷ s) = first_of_lem (split_commas (c ∷ s)) (c ∷ s) (first-split (c ∷ s))

header_or : (o : Option (List ℕ)) → header o ≡ get_or [] o
header_or none = refl
header_or (some s) = refl

pub key_identity-FromKey :
    (r : Request) (info : KeyInfo) (owner : Option User)
    → FromKey info owner (key_identity r info owner)
unfolding key_identity
key_identity-FromKey r info none = (refl, header_or info.scopes, (refl, refl))
key_identity-FromKey r info (some user) =
    (refl, header_or info.scopes, (refl, role_of-IsFirst user.roles))

pub token_identity-FromToken :
    (r : Request) (claims : Claims) → FromToken claims (token_identity r claims)
unfolding token_identity
token_identity-FromToken r claims = (
  refl,
  refl,
  refl,
  elim (Bool-cases (text_eq role (codes "admin"))) [
    | inl same ↦ inl ((text_eq_iff role (codes "admin")).0 same, rw same refl)
    | inr other ↦
        inr (
          λ e. absurd (ground (arith, other, (text_eq_iff role (codes "admin")).1 e)),
          rw other refl,
        )
  ],
)
  where
    role : List ℕ
    role = get_or [] claims.role

pub fresh-Stands :
    (s : State) (claims : Claims) → is_revoked s.revoked_before claims ≡ false → Stands s claims
unfolding is_revoked issued_before
fresh-Stands s claims fresh at e = ground (arith, fresh, e)

module _ (r : Request) (s : State) (id : String) where
  remembered-OwnerOf :
      (cache : UserCache) (o : Option User)
      → get_user_by_id r.users_up id s.users ≡ o
      → OwnerOf r s id (remembered r s id cache o).1
  remembered-OwnerOf cache none e = inr e
  remembered-OwnerOf cache (some user) e = inr e

  from_table : (cache : UserCache) → OwnerOf r s id (looked_up r s id (cache, none)).1
  from_table cache = remembered-OwnerOf cache (get_user_by_id r.users_up id s.users) refl

  cached-OwnerOf :
      (o : Option (User × ℕ))
      → lookup id s.user_cache ≡ o
      → OwnerOf r s id (looked_up r s id (cached_or_gone s.user_cache id r.now o)).1
  cached-OwnerOf none e = from_table s.user_cache
  cached-OwnerOf (some (user, until)) e = elim (Bool-cases (ltb r.now until)) [
    | inl live ↦ rw live (inl (until, e, ground (arith, live)))
    | inr gone ↦ rw gone (from_table _)
  ]

  pub find_owner-OwnerOf : OwnerOf r s id (find_owner r s id).1
  unfolding find_owner get_cached_user
  find_owner-OwnerOf = elim (Bool-cases (str_eq id "")) [
    | inl nameless ↦ rw nameless (inl nameless)
    | inr named ↦ rw named (cached-OwnerOf (lookup id s.user_cache) refl)
  ]
