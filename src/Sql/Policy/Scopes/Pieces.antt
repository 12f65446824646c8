-- ===== src/Sql/Policy/Scopes/Pieces.antt =====
-- Every text of scopes is made of pieces, so what holds of pieces holds of every text.
use salesdata_api.Base.{
  ◌≡◌, refl, ℕ, List, [], ◌∷◌, ◌++◌, map, true, false, ◌==◌, arith, ap, ap₂, ◌∙◌, sym, subst, inl,
  inr, All, Bool-cases,
}
use salesdata_api.Sql.Chars.{is_space}
use salesdata_api.Sql.Policy.{all_of}
use salesdata_api.Sql.Policy.Scopes.{Piece, IsPiece, text, starts, stops, no_comma, join}

abbrev EndsAs : List ℕ → Type 0
EndsAs s =
    (name : List ℕ) × (after : List ℕ) × (s ≡ name ++ after)
    × (stops name ≡ true)
    × (all_of is_space after ≡ true)

end_here : (c : ℕ) (s : List ℕ) → EndsAs s → EndsAs (c ∷ s)
end_here c s ([], after, e, h, k) = elim (Bool-cases (is_space c)) [
  | inl space ↦ ([], c ∷ after, ap (◌∷◌ c) e, refl, ground (arith, space, k))
  | inr other ↦ (c ∷ [], after, ap (◌∷◌ c) e, ground (arith, other), k)
]
end_here c s (d ∷ t, after, e, h, k) = (c ∷ d ∷ t, after, ap (◌∷◌ c) e, h, k)

ending : (s : List ℕ) → EndsAs s
ending [] = ([], [], refl, refl, refl)
ending (c ∷ s) = end_here c s (ending s)

abbrev Trimmed : List ℕ → Type 0
Trimmed s =
    (p : Piece) × (s ≡ text p)
    × (all_of is_space p.before ≡ true)
    × (all_of is_space p.after ≡ true)
    × (starts p.name ≡ true)
    × (stops p.name ≡ true)

name_here : (c : ℕ) (s : List ℕ) → is_space c ≡ false → EndsAs s → Trimmed (c ∷ s)
name_here c s other ([], after, e, h, k) = (
  record { before = []; name = c ∷ []; after = after },
  ap (◌∷◌ c) e,
  refl,
  k,
  ground (arith, other),
  ground (arith, other),
)
name_here c s other (d ∷ t, after, e, h, k) = (
  record { before = []; name = c ∷ d ∷ t; after = after },
  ap (◌∷◌ c) e,
  refl,
  k,
  ground (arith, other),
  h,
)

trimmed : (s : List ℕ) → Trimmed s
trimmed [] = (record { before = []; name = []; after = [] }, refl, refl, refl, refl, refl)
trimmed (c ∷ s) = elim (Bool-cases (is_space c)) [
  | inl space ↦
      let (p, e, b, a, i, o) = trimmed s in
      (record p { before = c ∷ p.before }, ap (◌∷◌ c) e, ground (arith, space, b), a, i, o)
  | inr other ↦ name_here c s other (ending s)
]

piece_of : (w : List ℕ) → all_of no_comma w ≡ true → (p : Piece) × IsPiece p × (text p ≡ w)
piece_of w h =
    let (p, e, b, a, i, o) = trimmed w in
    (
      p,
      record {
        before = b;
        after = a;
        starts = i;
        stops = o;
        no_comma = subst (λ (x : List ℕ). all_of no_comma x ≡ true) e h;
      },
      sym e,
    )

abbrev Words : List ℕ → Type 0
Words s =
    (w : List ℕ) × (ws : List (List ℕ)) × All (λ v. all_of no_comma v ≡ true) (w ∷ ws)
    × (s ≡ join w ws)

word_here : (c : ℕ) (s : List ℕ) → c == 44 ≡ false → Words s → Words (c ∷ s)
word_here c s other (w, [], (h, hs), e) = (c ∷ w, [], (ground (arith, other, h), hs), ap (◌∷◌ c) e)
word_here c s other (w, v ∷ vs, (h, hs), e) =
    (c ∷ w, v ∷ vs, (ground (arith, other, h), hs), ap (◌∷◌ c) e)

words : (s : List ℕ) → Words s
words [] = ([], [], (refl, tt), refl)
words (c ∷ s) = elim (Bool-cases (c == 44)) [
  | inl comma ↦
      let (w, ws, h, e) = words s in ([], w ∷ ws, (refl, h), ap₂ ◌∷◌ (ground (arith, comma)) e)
  | inr other ↦ word_here c s other (words s)
]

pieces_of :
    (ws : List (List ℕ))
    → All (λ v. all_of no_comma v ≡ true) ws
    → (ps : List Piece) × All IsPiece ps × (map text ps ≡ ws)
pieces_of [] h = ([], tt, refl)
pieces_of (w ∷ ws) (h, hs) =
    let (p, ok, e) = piece_of w h in
    let (ps, oks, es) = pieces_of ws hs in (p ∷ ps, (ok, oks), ap₂ ◌∷◌ e es)

-- Every text is pieces joined with commas.
pub text-pieces :
    (s : List ℕ)
    → (p : Piece) × (ps : List Piece) × All IsPiece (p ∷ ps) × (s ≡ join (text p) (map text ps))
text-pieces s =
    let (w, ws, (h, hs), e) = words s in
    let (p, ok, same) = piece_of w h in
    let (ps, oks, sames) = pieces_of ws hs in (p, ps, (ok, oks), e ∙ sym (ap₂ join same sames))
