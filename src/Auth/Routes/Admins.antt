-- ===== src/Auth/Routes/Admins.antt =====
-- Who is an admin after the routes on users.
pub mod Unchanged
pub mod Calls
use salesdata_api.Base.{
  ◌≡◌, refl, sym, ap, ◌∙◌, ◌⊎◌, inl, inr, ℕ, ◌/◌, ◌+◌, String, List, [], ◌∷◌, ◌++◌, Option, none,
  some, Bool, true, false, not, ◌&&◌, ◌||◌, str_eq, eq_iff, eq_refl, if◌then◌else◌, arith,
  Bool-cases, Option-cases, count, count-append, ltb,
}
use salesdata_api.Sql.Chars.{codes, text_eq}
use salesdata_api.Sql.Policy.{split_commas}
use salesdata_api.Sql.Policy.Writes.{text_eq_refl, text_eq_sound}
use salesdata_api.Storage.Users.{
  User, find_by_id, get_user_by_id, with_role, by_age, newest_user, list_all, any_clash,
  create_user,
}
use salesdata_api.Storage.Users
use salesdata_api.Auth.Middleware.{State, CurrentUser, is_admin, role_of}
use salesdata_api.Auth.Routes.{Reply, http_error, UserResponse, primary_role}
use salesdata_api.Auth.Routes.Roles.{
  RoleDb, admin, has_admin_role, any_other_admin, role_known, last_admin, apply_role, checked_role,
  update_user_role,
}

abbrev pub any_admin : List User → Bool
any_admin [] = false
any_admin (u ∷ us) = has_admin_role u || any_admin us

-- The ids, which are the primary key, are distinct.
abbrev pub IsTable : List User → Type 0
IsTable [] = Unit
IsTable (u ∷ us) = (find_by_id u.user_id us ≡ none) × IsTable us

other-newest :
    (id : String) (u : User) (us : List User)
    → any_other_admin id (newest_user u us) ≡ any_other_admin id (u ∷ us)
unfolding newest_user any_other_admin
other-newest id u [] = refl
other-newest id u (v ∷ vs) = ground (arith, other-newest id u vs)

other-by_age :
    (id : String) (us : List User) → any_other_admin id (by_age us) ≡ any_other_admin id us
unfolding by_age any_other_admin
other-by_age id [] = refl
other-by_age id (u ∷ us) =
    other-newest id u (by_age us)
    ∙ ap (λ b. (not (str_eq u.user_id id) && has_admin_role u) || b) (other-by_age id us)

other_stays :
    (id : String) (role : List ℕ) (now : ℕ) (us : List User)
    → any_other_admin id us ≡ true
    → any_admin (with_role id role now us) ≡ true
unfolding any_other_admin with_role
other_stays id role now [] h = cc
other_stays id role now (u ∷ us) h = ground (arith, other_stays id role now us)

primary_role-admin : (u : User) → u.roles ≡ admin → has_admin_role u ≡ true
unfolding primary_role role_of split_commas text_eq
primary_role-admin u e = rw e refl

promoted :
    (id : String) (role : List ℕ) (now : ℕ) (us : List User) (t : User)
    → role ≡ admin
    → find_by_id id us ≡ some t
    → any_admin (with_role id role now us) ≡ true
unfolding find_by_id with_role
promoted id role now [] t e found = cc
promoted id role now (u ∷ us) t e found = ground (
  arith,
  primary_role-admin (record u { roles = role; updated_at = now }) e,
  promoted id role now us t e,
)

absent :
    (id : String) (us : List User) → find_by_id id us ≡ none → any_other_admin id us ≡ any_admin us
unfolding find_by_id any_other_admin
absent id [] h = refl
absent id (u ∷ us) h = ground (arith, absent id us)

bystander :
    (id : String) (us : List User) (t : User)
    → IsTable us
    → find_by_id id us ≡ some t
    → has_admin_role t ≡ false
    → any_admin us ≡ true
    → any_other_admin id us ≡ true
unfolding find_by_id any_other_admin
bystander id [] t ok found plain some_admin = cc
bystander id (u ∷ us) t ok found plain some_admin =
    ground (arith, eq_iff u.user_id id, absent id us, bystander id us t ok.1, ok.0)

listed :
    (up : Bool) (id : String) (us : List User)
    → any_other_admin id (list_all up us) ≡ true
    → any_other_admin id us ≡ true
unfolding list_all any_other_admin
listed true id us h = sym (other-by_age id us) ∙ h
listed false id us h = absurd (cc)

-- what the guard lets through
guarded :
    (up : Bool) (t : User) (id : String) (role : List ℕ) (now : ℕ) (us : List User)
    → IsTable us
    → find_by_id id us ≡ some t
    → any_admin us ≡ true
    → last_admin up t id role us ≡ false
    → any_admin (with_role id role now us) ≡ true
unfolding last_admin
guarded up t id role now us ok found some_admin free = elim (Bool-cases (text_eq role admin)) [
  | inl same ↦ promoted id role now us t (text_eq_sound role admin same) found
  | inr other ↦ other_stays id role now us (elim (Bool-cases (has_admin_role t)) [
    | inl was ↦ listed up id us (ground (arith, was, other, free))
    | inr plain ↦ bystander id us t ok found plain some_admin
  ])
]

apply-admin :
    (db : RoleDb) (t : User) (id : String) (role : List ℕ) (wall : ℕ) (s : State)
    → any_admin s.users ≡ true
    → any_admin (with_role id role (wall / 1000) s.users) ≡ true
    → any_admin (apply_role db t id role wall s).0.users ≡ true
unfolding apply_role Users.update_user_role
apply-admin db t id role wall s was stays = by_update db.update_up refl
  where
    by_update :
        (b : Bool) → db.update_up ≡ b → any_admin (apply_role db t id role wall s).0.users ≡ true
    by_update true e = rw e stays
    by_update false e = rw e was

checked-admin :
    (db : RoleDb) (id : String) (role : List ℕ) (wall : ℕ) (s : State) (o : Option User)
    → IsTable s.users
    → any_admin s.users ≡ true
    → (o ≡ none) ⊎ (o ≡ find_by_id id s.users)
    → any_admin (checked_role db id role wall s o).0.users ≡ true
unfolding checked_role
checked-admin db id role wall s none ok was from = was
checked-admin db id role wall s (some t) ok was (inl e) = absurd (cc)
checked-admin db id role wall s (some t) ok was (inr e) =
    guard (last_admin db.list_up t id role s.users) refl
  where
    guard :
        (b : Bool)
        → last_admin db.list_up t id role s.users ≡ b
        → any_admin (checked_role db id role wall s (some t)).0.users ≡ true
    guard true held = rw held was
    guard false free = rw free (
        apply-admin db t id role wall s was
          (guarded db.list_up t id role (wall / 1000) s.users ok (sym e) was free))

read_by_id :
    (up : Bool) (id : String) (us : List User)
    → (get_user_by_id up id us ≡ none) ⊎ (get_user_by_id up id us ≡ find_by_id id us)
unfolding get_user_by_id
read_by_id true id us = inr refl
read_by_id false id us = inl refl

-- If there is an admin before a call that changes a role, there is one after it, whoever calls,
-- whatever role is asked for and whichever of the database's statements fail.
pub update_user_role-admin :
    (db : RoleDb) (caller : CurrentUser) (id : String) (role : List ℕ) (wall : ℕ) (s : State)
    → IsTable s.users
    → any_admin s.users ≡ true
    → any_admin (update_user_role db caller id role wall s).0.users ≡ true
unfolding update_user_role
update_user_role-admin db caller id role wall s ok was = known (role_known role) refl
  where
    allowed :
        (b : Bool)
        → any_admin
            (if◌then◌else◌ {A = State × Reply UserResponse} b
              (checked_role db id role wall s (get_user_by_id db.read_up id s.users))
              (s, http_error 403)).0.users
          ≡ true
    allowed true = checked-admin db id role wall s _ ok was (read_by_id db.read_up id s.users)
    allowed false = was

    known :
        (b : Bool)
        → role_known role ≡ b
        → any_admin (update_user_role db caller id role wall s).0.users ≡ true
    known true e = rw e (allowed (is_admin caller))
    known false e = rw e was
