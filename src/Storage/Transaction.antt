-- ===== src/Storage/Transaction.antt =====
-- `_acquire` and `transaction` of core/storage/service_db.py. The database is a state `D`; `in_use`
-- counts the pool's connections that are checked out. The Prometheus counters are left out.
use salesdata_api.Base.{
  ◌≡◌, refl, ℕ, suc, ◌-◌, Bool, true, false, if◌then◌else◌, arith, ◌&&◌, ◌⊎◌, inl, inr,
}

pub record Connected {ℓ} (D : Type ℓ) : Type ℓ where
  pub database : D
  pub in_use : ℕ

-- what the context manager ends with: its body's value, or an exception
pub data Ended {κ} (A : Type κ) : Type κ where
  ended : A → Ended A
  raised : Ended A

-- whether the pool gives a connection, and whether the commit is carried out
pub record Luck : Type 0 where
  pub acquired : Bool
  pub committed : Bool

module _ {ℓ κ} {D : Type ℓ} {A : Type κ} where
  -- on an open transaction: the body's changes are committed, or rolled back
  unfoldable pub settle : Bool → D → D × Ended A → D × Ended A
  settle committed before (after, ended a) =
      if committed then (after, ended a) else (before, raised)
  settle committed before (after, raised) = (before, raised)

  abbrev checked_in : ℕ → D × Ended A → Connected D × Ended A
  checked_in in_use (d, r) = (record { database = d; in_use = in_use - 1 }, r)

  unfoldable pub transaction : Luck → (D → D × Ended A) → Connected D → Connected D × Ended A
  unfolding settle
  transaction luck body c =
      if luck.acquired
      then checked_in (suc c.in_use) (settle luck.committed c.database (body c.database))
      else (c, raised)

module _ {ℓ κ} {D : Type ℓ} {A : Type κ} where
  abbrev Outcome : Luck → (D → D × Ended A) → Connected D → Connected D × Ended A → Type (ℓ ⊔ κ)
  Outcome luck body c r =
      (r.0.in_use ≡ c.in_use)
      × (((d : D) × (a : A) × (luck.acquired && luck.committed ≡ true)
            × (body c.database ≡ (d, ended a))
            × (r.0.database ≡ d)
            × (r.1 ≡ ended a))
          ⊎ ((r.0.database ≡ c.database) × (r.1 ≡ raised)))

  by_luck :
      (luck : Luck) (body : D → D × Ended A) (c : Connected D) (got done : Bool) (p : D × Ended A)
      → luck.acquired ≡ got
      → luck.committed ≡ done
      → body c.database ≡ p
      → Outcome luck body c
          (if got then checked_in (suc c.in_use) (settle done c.database p) else (c, raised))
  unfolding settle
  by_luck luck body c false done p e1 e2 e = (refl, inr (refl, refl))
  by_luck luck body c true true (d, ended a) e1 e2 e =
      (omega arith, inl (d, a, ground (arith, e1, e2), e, refl, refl))
  by_luck luck body c true false (d, ended a) e1 e2 e = (omega arith, inr (refl, refl))
  by_luck luck body c true done (d, raised) e1 e2 e = (omega arith, inr (refl, refl))

  -- A transaction gives its connection back however it ends. It ends with a value only if the pool
  -- had a connection, the body ended with that value and the commit was carried out, and then the
  -- database is what the body made of it; otherwise it raises, and the database is as before.
  pub transaction_lem :
      (luck : Luck) (body : D → D × Ended A) (c : Connected D)
      → Outcome luck body c (transaction luck body c)
  unfolding transaction
  transaction_lem luck body c =
      by_luck luck body c luck.acquired luck.committed (body c.database) refl refl refl
