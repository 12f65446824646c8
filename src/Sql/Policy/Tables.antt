-- ===== src/Sql/Policy/Tables.antt =====
-- What one round of `extract_tables` finds: a match of the prefix, and a name after it.
use salesdata_api.Base.{
  ◌≡◌, refl, inl, inr, ◌<◌, ◌≤◌, ℕ, List, [], ◌∷◌, Bool, true, Bool-cases, arith, ap, Option, none,
  some, sym, subst, length,
}
use salesdata_api.Sql.Chars.{is_word, is_ident_start}
use salesdata_api.Sql.Regex.{Place, ends}
use salesdata_api.Sql.Regex.Loops.{In, Onward}
use salesdata_api.Sql.Regex.Matches.{Matches, ends_sound, ends_complete, Matches-Onward}
use salesdata_api.Sql.Regex.Search.{at}
use salesdata_api.Sql.Regex.Places.{Reached, Reached-trans, Matches-Reached}
use salesdata_api.Sql.Policy.{take_while, after_while, name_at, table_prefix}

after_while-le :
    (f : ℕ → Bool) (b : Option ℕ) (s : List ℕ) → length (after_while f b s).rest ≤ length s
unfolding after_while
after_while-le f b [] = omega arith
after_while-le f b (c ∷ s) = ground (arith, after_while-le f (some c) s)

-- A name begins at a place: an identifier, read to its end.
pub record NameAt (m : Place) (name : List ℕ) (q : Place) : Type 0 where
  pub head : ℕ
  pub tail : List ℕ
  pub text : m.rest ≡ head ∷ tail
  pub starts : is_ident_start head ≡ true
  pub whole : name ≡ head ∷ take_while is_word tail
  pub after : q ≡ after_while is_word (some head) tail

abbrev Found : List Place → List ℕ → Place → Type 0
Found ps name q = (m : Place) × In m ps × NameAt m name q

skip :
    (p : Place) (ps : List Place) (name : List ℕ) (q : Place)
    → Found ps name q
    → Found (p ∷ ps) name q
skip p ps name q (m, i, k) = (m, inr i, k)

name_here :
    (b : Option ℕ) (s : List ℕ) (ps : List Place) (name : List ℕ) (q : Place)
    → (name_at ps ≡ some (name, q) → Found ps name q)
    → name_at (at b s ∷ ps) ≡ some (name, q)
    → Found (at b s ∷ ps) name q
unfolding name_at
name_here b [] ps name q later h = skip (at b []) ps name q (later h)
name_here b (c ∷ s) ps name q later h = elim (Bool-cases (is_ident_start c)) [
  | inl starts ↦ (
    at b (c ∷ s),
    inl refl,
    record {
      head = c;
      tail = s;
      text = refl;
      starts = starts;
      whole = ground arith;
      after = ground arith;
    },
  )
  | inr other ↦ skip (at b (c ∷ s)) ps name q (later (ground arith))
]

name_at_lem :
    (ps : List Place) (name : List ℕ) (q : Place) → name_at ps ≡ some (name, q) → Found ps name q
name_at_lem [] name q h = absurd (unfold name_at in cc)
name_at_lem (p ∷ ps) name q h = name_here p.before p.rest ps name q (name_at_lem ps name q) h

NameAt-shorter :
    (p m q : Place) (name : List ℕ) → Onward p m → NameAt m name q → length q.rest < length p.rest
NameAt-shorter p m q name (inl e) n = ground (
  arith,
  ap (λ (x : Place). length x.rest) e,
  ap length n.text,
  ap (λ (x : Place). length x.rest) n.after,
  after_while-le is_word (some n.head) n.tail,
)
NameAt-shorter p m q name (inr lt) n = ground (
  arith,
  ap length n.text,
  ap (λ (x : Place). length x.rest) n.after,
  after_while-le is_word (some n.head) n.tail,
)

-- A prefix matches at a place, and a name follows it.
unfoldable pub TableAt : Place → List ℕ → Place → Type 0
TableAt p name q = (m : Place) × Matches table_prefix p m × NameAt m name q

pub table_at :
    (p : Place) (name : List ℕ) (q : Place)
    → name_at (ends table_prefix p) ≡ some (name, q)
    → TableAt p name q
unfolding TableAt
table_at p name q h =
    let (m, i, n) = name_at_lem (ends table_prefix p) name q h in
    (m, ends_sound table_prefix p m i, n)

pub TableAt-shorter :
    (p : Place) (name : List ℕ) (q : Place) → TableAt p name q → length q.rest < length p.rest
unfolding TableAt
TableAt-shorter p name q (m, h, n) = NameAt-shorter p m q name (Matches-Onward table_prefix p m h) n

none_here :
    (b : Option ℕ) (s : List ℕ) (ps : List Place) (name : List ℕ) (q : Place)
    → name_at (at b s ∷ ps) ≡ none
    → (name_at ps ≡ none) × ¬ NameAt (at b s) name q
unfolding name_at
none_here b [] ps name q h = (h, λ n. absurd (ground (arith, n.text)))
none_here b (c ∷ s) ps name q h = elim (Bool-cases (is_ident_start c)) [
  | inl starts ↦ absurd (ground (arith, h, starts))
  | inr other ↦ (ground (arith, h, other), λ n. absurd (ground (arith, other, n.text, n.starts)))
]

none_among : (ps : List Place) (name : List ℕ) (q : Place) → name_at ps ≡ none → ¬ Found ps name q
none_among [] name q h (m, i, n) = i
none_among (p ∷ ps) name q h (m, inl e, n) =
    (none_here p.before p.rest ps name q h).1 (subst (λ (x : Place). NameAt x name q) (sym e) n)
none_among (p ∷ ps) name q h (m, inr i, n) =
    none_among ps name q (none_here p.before p.rest ps name q h).0 (m, i, n)

-- Where the round finds nothing, there is no table.
pub no_table :
    (p : Place) (name : List ℕ) (q : Place)
    → name_at (ends table_prefix p) ≡ none
    → ¬ TableAt p name q
unfolding TableAt
no_table p name q h (m, matched, n) =
    none_among (ends table_prefix p) name q h (m, ends_complete table_prefix p m matched, n)

after_while-Reached :
    (f : ℕ → Bool) (b : Option ℕ) (s : List ℕ) → Reached (at b s) (after_while f b s)
unfolding Reached after_while
after_while-Reached f b [] = ([], refl, refl)
after_while-Reached f b (c ∷ s) = elim (Bool-cases (f c)) [
  | inl more ↦ let (w, e, l) = after_while-Reached f (some c) s in rw more (c ∷ w, ap (◌∷◌ c) e, l)
  | inr stop ↦ rw stop ([], refl, refl)
]

-- The text between the prefix's start and the name's end is passed over.
pub TableAt-Reached : (p : Place) (name : List ℕ) (q : Place) → TableAt p name q → Reached p q
unfolding TableAt
TableAt-Reached p name q (m, h, n) = Reached-trans p m q (Matches-Reached table_prefix p m h) (
    subst (λ (x : Place). Reached m x) (sym n.after)
      (Reached-trans m (at (some n.head) n.tail) (after_while is_word (some n.head) n.tail)
        (unfold Reached in (n.head ∷ [], n.text, refl))
        (after_while-Reached is_word (some n.head) n.tail)))
