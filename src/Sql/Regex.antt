-- ===== src/Sql/Regex.antt =====
-- What core/db/sql_policy.py uses of Python's `re`. The matcher lists every place where a match may
-- end, in the order in which a backtracking matcher tries them: the first is the one that `match`,
-- `sub` and `finditer` take, and `search` asks only whether there is one.
pub mod Loops
pub mod Matches
pub mod Search
pub mod Words
pub mod Places
use mathlib.Core.List.{flat_map}
use salesdata_api.Base.{
  ℕ, zero, suc, List, [], ◌∷◌, ◌++◌, Option, none, some, Bool, true, false, ◌&&◌, ◌||◌, not, ltb,
  ◌==◌, length,
}
use salesdata_api.Sql.Chars.{is_word, to_upper}

pub data Regex : Type 0 where
  set : (ℕ → Bool) → Regex
  eps : Regex
  seq : Regex → Regex → Regex
  alt : Regex → Regex → Regex
  star : Regex → Regex
  lazy : Regex → Regex
  bound : Regex

-- A place in the text: the character before it, and the text after it.
pub record Place : Type 0 where
  pub before : Option ℕ
  pub rest : List ℕ

unfoldable pub is_word_at : Option ℕ → Bool
unfolding is_word
is_word_at none = false
is_word_at (some c) = is_word c

abbrev pub first : List ℕ → Option ℕ
first [] = none
first (c ∷ s) = some c

abbrev pub differ : Bool → Bool → Bool
differ true b = not b
differ false b = b

-- `\b`
unfoldable pub at_bound : Place → Bool
unfolding is_word_at
at_bound p = differ (is_word_at p.before) (is_word_at (first p.rest))

unfoldable pub step : (ℕ → Bool) → Place → List Place
step f p = elim p.rest [
  | [] ↦ []
  | c ∷ s ↦ elim (f c) [ true ↦ record { before = some c; rest = s } ∷ [] | false ↦ [] ]
]

abbrev pub shorter : Place → Place → Bool
shorter q p = ltb (length q.rest) (length p.rest)

-- A round of a loop that consumes nothing ends the loop.
unfoldable pub greedy : ℕ → (Place → List Place) → Place → List Place
greedy zero f p = p ∷ []
greedy (suc n) f p =
    flat_map (λ q. elim (shorter q p) [ true ↦ greedy n f q | false ↦ [] ]) (f p) ++ p ∷ []

unfoldable pub reluctant : ℕ → (Place → List Place) → Place → List Place
reluctant zero f p = p ∷ []
reluctant (suc n) f p =
    p ∷ flat_map (λ q. elim (shorter q p) [ true ↦ reluctant n f q | false ↦ [] ]) (f p)

unfoldable pub ends : Regex → Place → List Place
unfolding step at_bound greedy reluctant
ends (set f) p = step f p
ends eps p = p ∷ []
ends (seq r s) p = flat_map (ends s) (ends r p)
ends (alt r s) p = ends r p ++ ends s p
ends (star r) p = greedy (length p.rest) (ends r) p
ends (lazy r) p = reluctant (length p.rest) (ends r) p
ends bound p = elim (at_bound p) [ true ↦ p ∷ [] | false ↦ [] ]

-- the patterns of the source are put together from these
abbrev pub plus : Regex → Regex
plus r = seq r (star r)

abbrev pub opt : Regex → Regex
opt r = alt r eps

abbrev pub char : ℕ → Regex
char k = set (λ c. c == k)

-- a literal in upper case, under `re.IGNORECASE`
abbrev pub word : List ℕ → Regex
word [] = eps
word (k ∷ ks) = seq (set (λ c. to_upper c == k)) (word ks)

abbrev pub any_of : List Regex → Regex
any_of [] = set (λ c. false)
any_of (r ∷ []) = r
any_of (r ∷ s ∷ rs) = alt r (any_of (s ∷ rs))

abbrev pub non_empty : List Place → Bool
non_empty [] = false
non_empty (p ∷ ps) = true

-- `pattern.search(text) is not None`, from a place on
unfoldable pub search_from : Regex → Option ℕ → List ℕ → Bool
search_from r before [] = non_empty (ends r (record { before = before; rest = [] }))
search_from r before (c ∷ s) =
    non_empty (ends r (record { before = before; rest = c ∷ s })) || search_from r (some c) s

unfoldable pub search? : Regex → List ℕ → Bool
search? r s = search_from r none s
