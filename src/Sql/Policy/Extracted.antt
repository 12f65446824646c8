-- ===== src/Sql/Policy/Extracted.antt =====
-- The loop of `extract_tables`: its rounds, and where the names that it finds stand.
use salesdata_api.Base.{
  ◌≡◌, refl, ◌⊎◌, inl, inr, ℕ, zero, suc, List, [], ◌∷◌, ◌++◌, Option, none, some, subst, length,
  Option-cases,
}
use salesdata_api.Sql.Regex.{Place, ends}
use salesdata_api.Sql.Regex.Search.{last, at}
use salesdata_api.Sql.Policy.{name_at, table_prefix, tables_from, extract_tables, start}
use salesdata_api.Sql.Policy.Tables.{TableAt, table_at, TableAt-Reached}
use salesdata_api.Sql.Regex.Places.{Reached, Reached-trans}

abbrev pub Names : List ℕ → List (List ℕ) → Type 0
Names name [] = ⊥
Names name (n ∷ ns) = (n ≡ name) ⊎ Names name ns

-- the rounds of the loop
pub from_name :
    (n : ℕ) (p : Place) (name : List ℕ) (q : Place)
    → name_at (ends table_prefix p) ≡ some (name, q)
    → tables_from (suc n) p ≡ name ∷ tables_from n q
unfolding tables_from
from_name n p name q e = rw (e, tables_from)

pub from_next :
    (n : ℕ) (b : Option ℕ) (c : ℕ) (s : List ℕ)
    → name_at (ends table_prefix (at b (c ∷ s))) ≡ none
    → tables_from (suc n) (at b (c ∷ s)) ≡ tables_from n (at (some c) s)
unfolding tables_from
from_next n b c s e = rw (e, tables_from)

pub from_end :
    (n : ℕ) (b : Option ℕ)
    → name_at (ends table_prefix (at b [])) ≡ none
    → tables_from (suc n) (at b []) ≡ []
unfolding tables_from
from_end n b e = rw (e, tables_from)

-- a name that the loop finds from a place on
abbrev Stands : Place → List ℕ → Type 0
Stands p name = (m : Place) × (q : Place) × Reached p m × TableAt m name q

module _ (n : ℕ) (name : List ℕ)
    (ih : (q : Place) → Names name (tables_from n q) → Stands q name) where
  next-Stands :
      (b : Option ℕ) (s : List ℕ)
      → name_at (ends table_prefix (at b s)) ≡ none
      → Names name (tables_from (suc n) (at b s))
      → Stands (at b s) name
  next-Stands b [] e h = absurd (subst (Names name) (from_end n b e) h)
  next-Stands b (c ∷ s) e h =
      let (m, q, r, t) = ih (at (some c) s) (subst (Names name) (from_next n b c s e) h) in
      (
        m,
        q,
        Reached-trans (at b (c ∷ s)) (at (some c) s) m (unfold Reached in (c ∷ [], refl, refl)) r,
        t,
      )

  name-Stands :
      (p : Place) (found : List ℕ) (q : Place)
      → TableAt p found q
      → Names name (found ∷ tables_from n q)
      → Stands p name
  name-Stands p found q t (inl e) =
      (p, q, unfold Reached in ([], refl, refl), subst (λ (x : List ℕ). TableAt p x q) e t)
  name-Stands p found q t (inr h) =
      let (m, q', r, t') = ih q h in
      (m, q', Reached-trans p q m (TableAt-Reached p found q t) r, t')

loop-Stands : (n : ℕ) (name : List ℕ) (p : Place) → Names name (tables_from n p) → Stands p name
loop-Stands zero name p h = absurd (unfold tables_from in h)
loop-Stands (suc n) name p h = elim (Option-cases (name_at (ends table_prefix p))) [
  | inl e ↦ next-Stands n name (loop-Stands n name) p.before p.rest e h
  | inr ((found, q), e) ↦
      name-Stands n name (loop-Stands n name) p found q (table_at p found q e)
        (subst (Names name) (from_name n p found q e) h)
]

-- Every name that `extract_tables` returns stands in the statement as an identifier, directly after
-- a match of the pattern for a keyword that takes a table.
pub extract_tables_sound :
    (sql name : List ℕ)
    → Names name (extract_tables sql)
    → (skipped : List ℕ) × (rest : List ℕ) × (q : Place) × (sql ≡ skipped ++ rest)
      × TableAt (at (last none skipped) rest) name q
unfolding extract_tables Reached
extract_tables_sound sql name h =
    let (m, q, (w, e, b), t) = loop-Stands (suc (length sql)) name (start sql) h in
    (w, m.rest, q, e, subst (λ (x : Option ℕ). TableAt (at x m.rest) name q) b t)
