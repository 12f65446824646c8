-- ===== src/Auth/Passwords.antt =====
-- core/auth/passwords.py. `derive` is PBKDF2 in hex for a password and a salt in hex, and `none`
-- where `bytes.fromhex` refuses the salt. A random salt is an argument.
use salesdata_api.Base.{
  ◌≡◌, refl, ◌∙◌, ap, ℕ, List, [], ◌∷◌, ◌++◌, Option, none, some, Bool, true, false, ◌==◌, arith,
  if◌then◌else◌, not,
}
use salesdata_api.Sql.Chars.{text_eq}
use salesdata_api.Sql.Policy.{all_of}
use salesdata_api.Sql.Policy.Writes.{text_eq_refl}

-- `s.split("$", 1)` where there is a dollar: what stands before the first one
unfoldable pub before_dollar : List ℕ → Option (List ℕ)
before_dollar [] = none
before_dollar (c ∷ s) =
    let rest = before_dollar s in
    if c == 36 then some [] else elim rest [ none ↦ none | some w ↦ some (c ∷ w) ]

-- `salt or secrets.token_hex(16)`
abbrev salt_or : List ℕ → List ℕ → List ℕ
salt_or [] random = random
salt_or (c ∷ s) random = c ∷ s

-- `f"{salt}${derived.hex()}"`
abbrev joined : List ℕ → Option (List ℕ) → Option (List ℕ)
joined salt none = none
joined salt (some hex) = some (salt ++ 36 ∷ hex)

abbrev compared : List ℕ → Option (List ℕ) → Option Bool
compared stored none = none
compared stored (some hashed) = some (text_eq hashed stored)

module _ (derive : List ℕ → List ℕ → Option (List ℕ)) where
  -- an exception of `bytes.fromhex` is `none`
  unfoldable pub hash_password : List ℕ → List ℕ → List ℕ → Option (List ℕ)
  hash_password password salt random =
      joined (salt_or salt random) (derive password (salt_or salt random))

  abbrev verify_with : List ℕ → List ℕ → List ℕ → Option (List ℕ) → Option Bool
  verify_with password stored random none = some false
  verify_with password stored random (some salt) =
      compared stored (hash_password password salt random)

  unfoldable pub verify_password : List ℕ → List ℕ → List ℕ → Option Bool
  unfolding before_dollar hash_password text_eq
  verify_password password stored random = verify_with password stored random (before_dollar stored)

  -- a character of a salt, which is in hex
  abbrev pub not_dollar : ℕ → Bool
  not_dollar c = not (c == 36)

  before_dollar_lem :
      (salt hex : List ℕ)
      → all_of not_dollar salt ≡ true
      → before_dollar (salt ++ 36 ∷ hex) ≡ some salt
  unfolding before_dollar
  before_dollar_lem [] hex h = refl
  before_dollar_lem (c ∷ s) hex h = ground (arith, before_dollar_lem s hex)

  hash_form :
      (salt hash : List ℕ) (o : Option (List ℕ))
      → all_of not_dollar salt ≡ true
      → joined salt o ≡ some hash
      → before_dollar hash ≡ some salt
  hash_form salt hash none clean e = absurd (cc)
  hash_form salt hash (some hex) clean e = cc (before_dollar_lem salt hex clean)

  -- With a random salt that is not empty and has no dollar in it, a password's hash verifies against
  -- that password, whatever salt is drawn then; and another password verifies exactly if its
  -- derivation with the same salt gives a hash that is the same text.
  pub verify-hash :
      (password other c hash : List ℕ) (first : ℕ) (salt later : List ℕ)
      → all_of not_dollar (first ∷ salt) ≡ true
      → hash_password password [] (first ∷ salt) ≡ some hash
      → (verify_password password hash later ≡ some true)
        × (hash_password other (first ∷ salt) later ≡ some c
            → verify_password other hash later ≡ some (text_eq c hash))
  unfolding verify_password hash_password
  verify-hash password other c hash first salt later clean hashed =
      let split = hash_form (first ∷ salt) hash _ clean hashed in
      (
        ap (verify_with password hash later) split
            ∙ (ap (compared hash) hashed ∙ ap some (text_eq_refl hash)),
        λ other_hash. ap (verify_with other hash later) split ∙ ap (compared hash) other_hash,
      )
