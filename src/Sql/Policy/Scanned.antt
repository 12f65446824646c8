-- ===== src/Sql/Policy/Scanned.antt =====
-- `extract_tables` against the scan of a text from left to right, as `finditer` does it.
use salesdata_api.Base.{ℕ, List, [], ◌∷◌, Option, some}
use salesdata_api.Sql.Regex.{Place}
use salesdata_api.Sql.Regex.Search.{at}
use salesdata_api.Sql.Policy.Tables.{TableAt}

abbrev NoTable : Place → Type 0
NoTable p = (name : List ℕ) (q : Place) → ¬ TableAt p name q

-- The names met from a place on: where a table stands, its name, and on behind it; where none
-- stands, on behind the next character.
pub data Scan : Place → List (List ℕ) → Type 0 where
  ended : (b : Option ℕ) → NoTable (at b []) → Scan (at b []) []
  passed :
      (b : Option ℕ) (c : ℕ) (s : List ℕ) (names : List (List ℕ))
      → NoTable (at b (c ∷ s))
      → Scan (at (some c) s) names
      → Scan (at b (c ∷ s)) names
  met :
      (p : Place) (name : List ℕ) (q : Place) (names : List (List ℕ))
      → TableAt p name q
      → Scan q names
      → Scan p (name ∷ names)
