-- ===== src/Sql/Regex/Search.antt =====
-- `search` of a pattern in the text.
use salesdata_api.Base.{
  ℕ, ◌≡◌, refl, ◌⊎◌, inl, inr, ◌↔◌, List, [], ◌∷◌, ◌++◌, Option, none, some, Bool, true, ◌||◌,
  arith, ap,
}
use salesdata_api.Sql.Regex.{Regex, Place, ends, search_from, search?, non_empty}
use salesdata_api.Sql.Regex.Loops.{In}
use salesdata_api.Sql.Regex.Matches.{Matches, ends_sound, ends_complete}

-- the character before the end of a text
abbrev pub last : Option ℕ → List ℕ → Option ℕ
last b [] = b
last b (c ∷ s) = last (some c) s

abbrev pub at : Option ℕ → List ℕ → Place
at b s = record { before = b; rest = s }

-- a match of `r` begins somewhere in `s`, with `b` before it
abbrev pub Occurs : Regex → Option ℕ → List ℕ → Type 0
Occurs r b s =
    (skipped : List ℕ) × (rest : List ℕ) × (q : Place) × (s ≡ skipped ++ rest)
    × Matches r (at (last b skipped) rest) q

non_empty_lem : (ps : List Place) → non_empty ps ≡ true → (q : Place) × In q ps
non_empty_lem [] h = absurd (cc)
non_empty_lem (p ∷ ps) h = (p, inl refl)

In-non_empty : (q : Place) (ps : List Place) → In q ps → non_empty ps ≡ true
In-non_empty q [] h = absurd h
In-non_empty q (p ∷ ps) h = refl

found_here :
    (r : Regex) (b : Option ℕ) (s : List ℕ) → non_empty (ends r (at b s)) ≡ true → Occurs r b s
found_here r b s h =
    let (q, k) = non_empty_lem (ends r (at b s)) h in ([], s, q, refl, ends_sound r (at b s) q k)

||_true : (a b : Bool) → (a || b) ≡ true → (a ≡ true) ⊎ (b ≡ true)
||_true a b h = ground arith

search_sound : (r : Regex) (b : Option ℕ) (s : List ℕ) → search_from r b s ≡ true → Occurs r b s
unfolding search_from
search_sound r b [] h = found_here r b [] h
search_sound r b (c ∷ s) h =
    elim (||_true (non_empty (ends r (at b (c ∷ s)))) (search_from r (some c) s) h) [
      | inl here ↦ found_here r b (c ∷ s) here
      | inr later ↦
          let (skipped, rest, q, e, m) = search_sound r (some c) s later in
          (c ∷ skipped, rest, q, ap (◌∷◌ c) e, m)
    ]

here_found :
    (r : Regex) (b : Option ℕ) (s : List ℕ) (q : Place)
    → Matches r (at b s) q
    → search_from r b s ≡ true
unfolding search_from
here_found r b [] q m = In-non_empty q (ends r (at b [])) (ends_complete r (at b []) q m)
here_found r b (c ∷ s) q m =
    rw (In-non_empty q (ends r (at b (c ∷ s))) (ends_complete r (at b (c ∷ s)) q m))

search_complete :
    (r : Regex) (b : Option ℕ) (skipped rest : List ℕ) (q : Place)
    → Matches r (at (last b skipped) rest) q
    → search_from r b (skipped ++ rest) ≡ true
unfolding search_from
search_complete r b [] rest q m = here_found r b rest q m
search_complete r b (c ∷ skipped) rest q m =
    ground (arith, search_complete r (some c) skipped rest q m)

-- `search` reports a match exactly if the pattern matches from some place of the text on.
pub search-iff-Occurs : (r : Regex) (s : List ℕ) → (search? r s ≡ true) ↔ Occurs r none s
unfolding search?
search-iff-Occurs r s = (
  search_sound r none s,
  λ (skipped, rest, q, e, m). rw e (search_complete r none skipped rest q m),
)
