-- ===== src/Sql/Regex/Words.antt =====
-- Keywords between two word boundaries, in any case of their letters.
use salesdata_api.Base.{
  ℕ, ◌≡◌, refl, ◌⊎◌, inl, inr, ◌↔◌, String, List, [], ◌∷◌, ◌++◌, Option, none, some, Bool, true,
  false, ◌&&◌, arith, ap, sym, subst, ◌∙◌, map,
}
use salesdata_api.Sql.Chars.{codes, is_upper, is_word, to_upper, upper}
use salesdata_api.Sql.Regex.{
  Regex, seq, bound, Place, at_bound, is_word_at, first, word, any_of, differ, search?,
}
use salesdata_api.Sql.Regex.Matches.{Matches}
use salesdata_api.Sql.Regex.Search.{Occurs, last, at, search-iff-Occurs}

abbrev pub is_keyword : List ℕ → Bool
is_keyword [] = false
is_keyword (k ∷ []) = is_upper k
is_keyword (k ∷ l ∷ ks) = is_upper k && is_keyword (l ∷ ks)

abbrev pub all_keywords : List String → Bool
all_keywords [] = true
all_keywords (w ∷ ws) = is_keyword (codes w) && all_keywords ws

-- `k` is one of the words
abbrev pub OneOf : List ℕ → List String → Type 0
OneOf k [] = ⊥
OneOf k (w ∷ ws) = (k ≡ codes w) ⊎ OneOf k ws

-- `s` has one of the words in it, in any case, with no word character on either side
abbrev pub HasWord : List String → List ℕ → Type 0
HasWord ws s =
    (before : List ℕ) × (w : List ℕ) × (after : List ℕ) × (s ≡ before ++ (w ++ after))
    × OneOf (upper w) ws
    × (is_word_at (last none before) ≡ false)
    × (is_word_at (first after) ≡ false)

word_sound :
    (ks : List ℕ) (p q : Place)
    → Matches (word ks) p q
    → (w : List ℕ) × (p.rest ≡ w ++ q.rest) × (upper w ≡ ks) × (q.before ≡ last p.before w)
word_sound [] p q e = ([], ap (λ (x : Place). x.rest) e, refl, ap (λ (x : Place). x.before) (sym e))
word_sound (k ∷ ks) p q (m, (c, e, fits, b), rest) =
    let (w, e', u, l) = word_sound ks m q rest in
    (c ∷ w, ground arith, ground arith, l ∙ ap (λ (x : Option ℕ). last x w) b)

word_complete :
    (w : List ℕ) (b : Option ℕ) (rest : List ℕ)
    → Matches (word (upper w)) (at b (w ++ rest)) (at (last b w) rest)
word_complete [] b rest = refl
word_complete (c ∷ w) b rest =
    (at (some c) (w ++ rest), (c, refl, ground arith, refl), word_complete w (some c) rest)

letter : (c : ℕ) → is_upper (to_upper c) ≡ true → is_word c ≡ true
unfolding is_upper to_upper is_word
letter c h = ground arith

-- a word whose upper case is a keyword begins and ends with a word character
keyword_first :
    (w rest : List ℕ) → is_keyword (upper w) ≡ true → is_word_at (first (w ++ rest)) ≡ true
unfolding is_word_at
keyword_first [] rest h = absurd (cc)
keyword_first (c ∷ []) rest h = letter c h
keyword_first (c ∷ d ∷ w) rest h = letter c (ground arith)

keyword_last :
    (b : Option ℕ) (w : List ℕ) → is_keyword (upper w) ≡ true → is_word_at (last b w) ≡ true
unfolding is_word_at
keyword_last b [] h = absurd (cc)
keyword_last b (c ∷ []) h = letter c h
keyword_last b (c ∷ d ∷ w) h = keyword_last (some c) (d ∷ w) (ground arith)

OneOf-keyword :
    (k : List ℕ) (ws : List String) → all_keywords ws ≡ true → OneOf k ws → is_keyword k ≡ true
OneOf-keyword k [] h at = absurd at
OneOf-keyword k (w ∷ ws) h (inl e) = rw e (ground arith)
OneOf-keyword k (w ∷ ws) h (inr at) = OneOf-keyword k ws (ground arith) at

any_sound :
    (ws : List String) (p q : Place)
    → Matches (any_of (map (λ w. word (codes w)) ws)) p q
    → (w : List ℕ) × (p.rest ≡ w ++ q.rest) × OneOf (upper w) ws × (q.before ≡ last p.before w)
any_sound [] p q (c, e, fits, b) = absurd (cc)
any_sound (w ∷ []) p q m = let (v, e, u, l) = word_sound (codes w) p q m in (v, e, inl u, l)
any_sound (w ∷ x ∷ ws) p q (inl m) =
    let (v, e, u, l) = word_sound (codes w) p q m in (v, e, inl u, l)
any_sound (w ∷ x ∷ ws) p q (inr m) = let (v, e, u, l) = any_sound (x ∷ ws) p q m in (v, e, inr u, l)

any_complete :
    (ws : List String) (w : List ℕ) (b : Option ℕ) (rest : List ℕ)
    → OneOf (upper w) ws
    → Matches (any_of (map (λ w. word (codes w)) ws)) (at b (w ++ rest)) (at (last b w) rest)
any_complete [] w b rest h = absurd h
any_complete (x ∷ []) w b rest (inl e) =
    subst (λ (k : List ℕ). Matches (word k) (at b (w ++ rest)) (at (last b w) rest)) e
      (word_complete w b rest)
any_complete (x ∷ []) w b rest (inr h) = absurd h
any_complete (x ∷ y ∷ ws) w b rest (inl e) = inl (
    subst (λ (k : List ℕ). Matches (word k) (at b (w ++ rest)) (at (last b w) rest)) e
      (word_complete w b rest))
any_complete (x ∷ y ∷ ws) w b rest (inr h) = inr (any_complete (y ∷ ws) w b rest h)

one_side : (a b : Bool) → differ a b ≡ true → b ≡ true → a ≡ false
one_side a b h e = ground arith

other_side : (a b : Bool) → differ a b ≡ true → a ≡ true → b ≡ false
other_side a b h e = ground arith

module _ (ws : List String) (ok : all_keywords ws ≡ true) where
  abbrev whole_word : Regex
  whole_word = seq bound (seq (any_of (map (λ w. word (codes w)) ws)) bound)

  Occurs-HasWord : (s : List ℕ) → Occurs whole_word none s → HasWord ws s
  unfolding at_bound
  Occurs-HasWord s (skipped, rest, q, e, (m, (left, same), (n, any, (right, same')))) =
      let (w, e', one, l) = any_sound ws m n any in
      let keyword : is_keyword (upper w) ≡ true = OneOf-keyword (upper w) ws ok one in
      let split : rest ≡ w ++ n.rest = ap (λ (x : Place). x.rest) same ∙ e' in
      (
        skipped,
        w,
        n.rest,
        e ∙ ap (◌++◌ skipped) split,
        one,
        one_side (is_word_at (last none skipped)) (is_word_at (first rest)) left
            (ap (λ (x : List ℕ). is_word_at (first x)) split ∙ keyword_first w n.rest keyword),
        other_side (is_word_at n.before) (is_word_at (first n.rest)) right
            (ap is_word_at l ∙ keyword_last m.before w keyword),
      )

  HasWord-Occurs : (s : List ℕ) → HasWord ws s → Occurs whole_word none s
  unfolding at_bound
  HasWord-Occurs s (before, w, after, e, one, left, right) =
      let keyword : is_keyword (upper w) ≡ true = OneOf-keyword (upper w) ws ok one in
      let b : Option ℕ = last none before in
      let m : Place = at b (w ++ after) in
      let q : Place = at (last b w) after in
      (
        before,
        w ++ after,
        q,
        e,
        (
          m,
          (ground (arith, keyword_first w after keyword, left), refl),
          (
            q,
            any_complete ws w b after one,
            (ground (arith, keyword_last b w keyword, right), refl),
          ),
        ),
      )

  -- The search for one of some keywords, as the source writes it, succeeds exactly if the text has
  -- one of them as a whole word.
  pub search-iff-HasWord : (s : List ℕ) → (search? whole_word s ≡ true) ↔ HasWord ws s
  search-iff-HasWord s = (
    λ h. Occurs-HasWord s ((search-iff-Occurs whole_word s).0 h),
    λ h. (search-iff-Occurs whole_word s).1 (HasWord-Occurs s h),
  )
