-- ===== src/Auth/Bootstrap/Granted.antt =====
-- What the script and the environment leave in the table of users.
use salesdata_api.Base.{
  ◌≡◌, refl, ◌⊎◌, inl, inr, ℕ, String, List, [], ◌∷◌, ◌++◌, length, Option, none, some, Bool, true,
  false, not, ◌&&◌, ltb, if◌then◌else◌, str_eq, eq_refl, arith, Bool-cases, subst, either,
}
use salesdata_api.Storage.Users.{
  User, new_user, create_user, any_clash, get_user_by_username, find_by_username, update_user_role,
  with_role,
}
use salesdata_api.Storage.Keys.{ApiKey}
use salesdata_api.Sql.Chars.{text_eq}
use salesdata_api.Sql.Policy.{split_commas}
use salesdata_api.Auth.Middleware.{role_of}
use salesdata_api.Auth.Routes.{primary_role}
use salesdata_api.Auth.Routes.Roles.{admin, has_admin_role}
use salesdata_api.Auth.Bootstrap.{
  Args, BootDb, Store, Exit, done, failed, finished, granted, bootstrap,
}

-- the user of this name is an admin
abbrev pub IsAdmin : String → List User → Type 0
IsAdmin name users = (u : User) × (find_by_username name users ≡ some u) × (has_admin_role u ≡ true)

has_admin-admin : (u : User) → u.roles ≡ admin → has_admin_role u ≡ true
unfolding primary_role role_of split_commas text_eq
has_admin-admin u e = rw e refl

with_role-IsAdmin :
    (name : String) (now : ℕ) (us : List User) (u : User)
    → find_by_username name us ≡ some u
    → IsAdmin name (with_role u.user_id admin now us)
unfolding find_by_username with_role
with_role-IsAdmin name now [] u h = absurd (cc)
with_role-IsAdmin name now (v ∷ vs) u h = elim (Bool-cases (str_eq v.username name)) [
  | inl named ↦
      let new = record v { roles = admin; updated_at = now } in
      (new, ground (arith, h, named, eq_refl v.user_id), has_admin-admin new refl)
  | inr other ↦
      let (u', found, role) = with_role-IsAdmin name now vs u (ground (arith, h, other)) in
      (u', ground (arith, found, other), role)
]

appended-IsAdmin :
    (new : User) (us : List User)
    → any_clash new us ≡ false
    → new.roles ≡ admin
    → IsAdmin new.username (us ++ new ∷ [])
unfolding find_by_username any_clash
appended-IsAdmin new [] clear e = (new, ground (arith, eq_refl new.username), has_admin-admin new e)
appended-IsAdmin new (v ∷ vs) clear e =
    let (u, found, role) = appended-IsAdmin new vs (ground (arith, clear)) e in
    (u, ground (arith, found, clear), role)

Ends : Args → Store → Store × Exit → Type 0
Ends args s (s', done) = IsAdmin args.username s'.users
Ends args s (s', failed) = s'.users ≡ s.users

promoted-Ends :
    (args : Args) (db : BootDb) (key : ApiKey) (now : ℕ) (s : Store) (u : User)
    → find_by_username args.username s.users ≡ some u
    → (b : Bool)
    → Ends args s (finished args db key s (update_user_role b u.user_id admin now s.users))
unfolding update_user_role Ends
promoted-Ends args db key now s u found true = with_role-IsAdmin args.username now s.users u found
promoted-Ends args db key now s u found false = refl

created-Ends :
    (args : Args) (db : BootDb) (key : ApiKey) (s : Store) (new : User)
    → new.username ≡ args.username
    → new.roles ≡ admin
    → (b c : Bool) → any_clash new s.users ≡ c
    → Ends args s (
        finished args db key s (
          if◌then◌else◌ {A = List User × Bool}
            (b && not c)
            (s.users ++ new ∷ [], true)
            (s.users, false)))
unfolding Ends
created-Ends args db key s new named role true false clear =
    subst (λ n. IsAdmin n (s.users ++ new ∷ [])) named (appended-IsAdmin new s.users clear role)
created-Ends args db key s new named role true true clear = refl
created-Ends args db key s new named role false c clear = refl

granted-Ends :
    (args : Args) (db : BootDb) (id : String) (hash : List ℕ) (now : ℕ) (key_for : String → ApiKey)
    (s : Store) (o : Option User)
    → ((u : User) → o ≡ some u → find_by_username args.username s.users ≡ some u)
    → Ends args s (granted args db id hash now key_for s o)
unfolding granted create_user
granted-Ends args db id hash now key_for s none known =
    let new = new_user id args.username args.email hash admin now in
    created-Ends args db (key_for id) s new refl refl db.write_up (any_clash new s.users) refl
granted-Ends args db id hash now key_for s (some u) known = allowed args.promote_existing
  where
    allowed :
        (b : Bool)
        → Ends args s (
            if◌then◌else◌ {A = Store × Exit} b
              (finished args db
                (key_for u.user_id)
                s
                (update_user_role db.write_up u.user_id admin now s.users))
              (s, failed))
    allowed true = promoted-Ends args db (key_for u.user_id) now s u (known u refl) db.write_up
    allowed false = unfold Ends in refl

read_user :
    (up : Bool) (name : String) (us : List User) (u : User)
    → get_user_by_username up name us ≡ some u
    → find_by_username name us ≡ some u
unfolding get_user_by_username
read_user true name us u h = h
read_user false name us u h = absurd (cc)

told :
    (args : Args) (s : Store) (r : Store × Exit)
    → Ends args s r
    → ((r.1 ≡ done) × IsAdmin args.username r.0.users) ⊎ ((r.1 ≡ failed) × (r.0.users ≡ s.users))
unfolding Ends
told args s (s', done) h = inl (refl, h)
told args s (s', failed) h = inr (refl, h)

-- If the script ends without an error, the user of the given name is in the table and is an admin,
-- whether it was created or promoted; if it ends with an error, the table of users is as it was. It
-- is so whichever of the database's statements fail.
pub bootstrap_lem :
    (args : Args) (db : BootDb) (id : String) (hash : List ℕ) (now : ℕ) (key_for : String → ApiKey)
    (s : Store)
    → let (s', exit) = bootstrap args db id hash now key_for s in
      ((exit ≡ done) × IsAdmin args.username s'.users) ⊎ ((exit ≡ failed) × (s'.users ≡ s.users))
unfolding bootstrap
bootstrap_lem args db id hash now key_for s = told args s _ (
    either (Ends args s) (ltb (length args.password) 8) (unfold Ends in refl) (
      granted-Ends args db id hash now key_for s _
        λ u e. read_user db.read_up args.username s.users u e))
