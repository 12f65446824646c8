-- ===== src/Sql/Policy/Scopes.antt =====
-- `has_scope` on any text of scopes: pieces between commas, with white space around a name.
pub mod Pieces
use salesdata_api.Base.{
  ◌≡◌, refl, ℕ, List, [], ◌∷◌, ◌++◌, map, Option, some, none, Bool, true, false, ◌&&◌, ◌||◌, not,
  ◌==◌, arith, ap, ◌∙◌, append-nil, subst, ◌⊎◌, inl, inr, ◌↔◌, All, sym, Bool-cases,
}
use salesdata_api.Sql.Chars.{codes, text_eq, is_space, lower}
use salesdata_api.Sql.Policy.{
  all_of, split_commas, strip, lstrip, rstrip, granted, member, or_read, has_scope,
}
use salesdata_api.Sql.Policy.Writes.{text_eq_iff}

abbrev pub no_comma : ℕ → Bool
no_comma c = not (c == 44)

-- what stands between two commas
pub record Piece : Type 0 where
  pub before : List ℕ
  pub name : List ℕ
  pub after : List ℕ

abbrev pub text : Piece → List ℕ
text p = p.before ++ (p.name ++ p.after)

-- a text that does not begin, and one that does not end, with white space
abbrev pub starts : List ℕ → Bool
starts [] = true
starts (c ∷ s) = not (is_space c)

abbrev pub stops : List ℕ → Bool
stops [] = true
stops (c ∷ []) = not (is_space c)
stops (c ∷ d ∷ s) = stops (d ∷ s)

-- white space, a name that neither begins nor ends with it, and white space, with no comma in them
pub record IsPiece (p : Piece) : Type 0 where
  pub before : all_of is_space p.before ≡ true
  pub after : all_of is_space p.after ≡ true
  pub starts : starts p.name ≡ true
  pub stops : stops p.name ≡ true
  pub no_comma : all_of no_comma (text p) ≡ true

-- `",".join(words)`
abbrev pub join : List ℕ → List (List ℕ) → List ℕ
join w [] = w
join w (v ∷ vs) = w ++ 44 ∷ join v vs

split-name :
    (c : ℕ) (s : List ℕ) (w : List ℕ) (ws : List (List ℕ))
    → c == 44 ≡ false
    → split_commas s ≡ w ∷ ws
    → split_commas (c ∷ s) ≡ (c ∷ w) ∷ ws
unfolding split_commas
split-name c s w ws ne e = ground arith

split-word :
    (w rest v : List ℕ) (vs : List (List ℕ))
    → all_of no_comma w ≡ true
    → split_commas rest ≡ v ∷ vs
    → split_commas (w ++ rest) ≡ (w ++ v) ∷ vs
split-word [] rest v vs h e = e
split-word (c ∷ w) rest v vs h e =
    split-name c (w ++ rest) (w ++ v) vs (ground arith) (split-word w rest v vs (ground arith) e)

split-comma :
    (s v : List ℕ) (vs : List (List ℕ))
    → split_commas s ≡ v ∷ vs
    → split_commas (44 ∷ s) ≡ [] ∷ v ∷ vs
unfolding split_commas
split-comma s v vs e = ground arith

split-join :
    (w : List ℕ) (ws : List (List ℕ))
    → All (λ v. all_of no_comma v ≡ true) (w ∷ ws)
    → split_commas (join w ws) ≡ w ∷ ws
split-join w [] (h, hs) =
    subst (λ (x : List ℕ). split_commas x ≡ x ∷ []) (append-nil w)
      (split-word w [] [] [] h (unfold split_commas in refl))
split-join w (v ∷ vs) (h, hs) =
    split-word w (44 ∷ join v vs) [] (v ∷ vs) h (split-comma (join v vs) v vs (split-join v vs hs))
    ∙ ap (λ (x : List ℕ). x ∷ v ∷ vs) (append-nil w)

lstrip-spaces : (w s : List ℕ) → all_of is_space w ≡ true → lstrip (w ++ s) ≡ lstrip s
lstrip-spaces [] s h = refl
lstrip-spaces (c ∷ w) s h = ground (arith, h, lstrip-spaces w s)

rstrip-spaces : (w : List ℕ) → all_of is_space w ≡ true → rstrip w ≡ []
rstrip-spaces [] h = refl
rstrip-spaces (c ∷ w) h = ground (arith, h, rstrip-spaces w)

rstrip-name :
    (c : ℕ) (s after : List ℕ)
    → stops (c ∷ s) ≡ true
    → all_of is_space after ≡ true
    → rstrip (c ∷ (s ++ after)) ≡ c ∷ s
rstrip-name c [] after h k = ground (arith, h, rstrip-spaces after k)
rstrip-name c (d ∷ s) after h k = ground (arith, rstrip-name d s after h k)

strip-name :
    (name after : List ℕ)
    → starts name ≡ true
    → stops name ≡ true
    → all_of is_space after ≡ true
    → strip (name ++ after) ≡ name
strip-name [] after h k e =
    ap rstrip (ap lstrip (sym (append-nil after)) ∙ lstrip-spaces after [] e)
strip-name (c ∷ s) after h k e =
    let stays : lstrip (c ∷ (s ++ after)) ≡ c ∷ (s ++ after) = ground (arith, h) in
    ap rstrip stays ∙ rstrip-name c s after k e

strip-text : (p : Piece) → IsPiece p → strip (text p) ≡ p.name
strip-text p h =
    ap rstrip (lstrip-spaces p.before (p.name ++ p.after) h.before)
    ∙ strip-name p.name p.after h.starts h.stops h.after

-- the set of granted scopes, by the names of the pieces
abbrev kept : List ℕ → List (List ℕ) → List (List ℕ)
kept [] rest = rest
kept (c ∷ s) rest = lower (c ∷ s) ∷ rest

abbrev names : List Piece → List (List ℕ)
names [] = []
names (p ∷ ps) = kept p.name (names ps)

granted-cons :
    (w name : List ℕ) (ws : List (List ℕ))
    → strip w ≡ name
    → granted (w ∷ ws) ≡ kept name (granted ws)
unfolding granted
granted-cons w [] ws e = rw (e, granted)
granted-cons w (c ∷ s) ws e = rw (e, granted)

granted-names : (ps : List Piece) → All IsPiece ps → granted (map text ps) ≡ names ps
granted-names [] h = unfold granted in refl
granted-names (p ∷ ps) (h, hs) =
    granted-cons (text p) p.name (map text ps) (strip-text p h)
    ∙ ap (kept p.name) (granted-names ps hs)

All-no_comma :
    (ps : List Piece) → All IsPiece ps → All (λ v. all_of no_comma v ≡ true) (map text ps)
All-no_comma [] h = tt
All-no_comma (p ∷ ps) (h, hs) = (h.no_comma, All-no_comma ps hs)

abbrev pub IsNamed : List ℕ → List ℕ → Type 0
IsNamed x name = (¬ (name ≡ [])) × (lower name ≡ x)

-- A piece has the name, its letters taken in lower case.
abbrev pub Names : List ℕ → List Piece → Type 0
Names x [] = ⊥
Names x (p ∷ ps) = IsNamed x p.name ⊎ Names x ps

abbrev pub AllBlank : List Piece → Type 0
AllBlank ps = All (λ p. p.name ≡ []) ps

named :
    (x name : List ℕ) (rest : List (List ℕ)) (P : Type 0)
    → ((member x rest ≡ true) ↔ P)
    → ((member x (kept name rest) ≡ true) ↔ (IsNamed x name ⊎ P))
unfolding member
named x [] rest P ih = (λ h. inr (ih.0 h), absurd_or)
  where
    absurd_or : IsNamed x [] ⊎ P → member x rest ≡ true
    absurd_or (inl (n, e)) = absurd (n refl)
    absurd_or (inr h) = ih.1 h
named x (c ∷ s) rest P ih = (forth (text_eq (lower (c ∷ s)) x) refl, back)
  where
    forth :
        (b : Bool)
        → text_eq (lower (c ∷ s)) x ≡ b
        → (b || member x rest) ≡ true
        → IsNamed x (c ∷ s) ⊎ P
    forth true e h = inl (λ q. absurd (cc), (text_eq_iff (lower (c ∷ s)) x).0 e)
    forth false e h = inr (ih.0 h)

    back : IsNamed x (c ∷ s) ⊎ P → (text_eq (lower (c ∷ s)) x || member x rest) ≡ true
    back (inl (n, e)) = ground (arith, (text_eq_iff (lower (c ∷ s)) x).1 e)
    back (inr h) = ground (arith, ih.1 h)

member-Names : (x : List ℕ) (ps : List Piece) → (member x (names ps) ≡ true) ↔ Names x ps
member-Names x [] = (λ h. absurd (unfold member in cc), λ h. absurd h)
member-Names x (p ∷ ps) = named x p.name (names ps) (Names x ps) (member-Names x ps)

blank_kept :
    (name : List ℕ) (rest : List (List ℕ)) → kept name rest ≡ [] → (name ≡ []) × (rest ≡ [])
blank_kept [] rest h = (refl, h)
blank_kept (c ∷ s) rest h = absurd (cc)

names-none : (ps : List Piece) → names ps ≡ [] → AllBlank ps
names-none [] h = tt
names-none (p ∷ ps) h = let (e, rest) = blank_kept p.name (names ps) h in (e, names-none ps rest)

none-names : (ps : List Piece) → AllBlank ps → names ps ≡ []
none-names [] h = refl
none-names (p ∷ ps) (e, h) = ap (λ (x : List ℕ). kept x (names ps)) e ∙ none-names ps h

read_only : (x : List ℕ) → (member x (codes "read" ∷ []) ≡ true) ↔ (x ≡ codes "read")
unfolding member
read_only x = (
  λ h. sym ((text_eq_iff (codes "read") x).0 (ground (arith, h))),
  λ e. ground (arith, (text_eq_iff (codes "read") x).1 (sym e)),
)

abbrev Grants : List ℕ → List Piece → Type 0
Grants x ps = Names x ps ⊎ (AllBlank ps × (x ≡ codes "read"))

or_read-Grants :
    (x : List ℕ) (ps : List Piece) (ws : List (List ℕ))
    → names ps ≡ ws
    → (member x (or_read ws) ≡ true) ↔ Grants x ps
or_read-Grants x ps [] e = (λ h. inr (names-none ps e, (read_only x).0 h), back)
  where
    back : Grants x ps → member x (codes "read" ∷ []) ≡ true
    back (inl n) =
        let found : member x [] ≡ true =
          subst (λ ws. member x ws ≡ true) e ((member-Names x ps).1 n) in
        absurd (unfold member in cc)
    back (inr (blank, same)) = (read_only x).1 same
or_read-Grants x ps (w ∷ ws) e =
    (λ h. inl ((member-Names x ps).0 (subst (λ vs. member x vs ≡ true) (sym e) h)), back)
  where
    back : Grants x ps → member x (w ∷ ws) ≡ true
    back (inl n) = subst (λ vs. member x vs ≡ true) e ((member-Names x ps).1 n)
    back (inr (blank, same)) =
        let clash : [] ≡ w ∷ ws = sym (none-names ps blank) ∙ e in absurd (cc)

-- Take any text of scopes apart at its commas, and each piece into a name and the white space around
-- it. A scope is granted exactly if, letters taken in lower case, it is one of the names that are not
-- empty, or if all names are empty and it is "read". Without a text exactly "read" is granted.
pub has_scope_lem :
    (p : Piece) (ps : List Piece) (required : List ℕ)
    → All IsPiece (p ∷ ps)
    → ((has_scope (some (join (text p) (map text ps))) required ≡ true)
        ↔ (Names (lower required) (p ∷ ps) ⊎ (AllBlank (p ∷ ps) × (lower required ≡ codes "read"))))
      × ((has_scope none required ≡ true) ↔ (lower required ≡ codes "read"))
unfolding has_scope
has_scope_lem p ps required h = (
  rw (split-join (text p) (map text ps) (All-no_comma (p ∷ ps) h), granted-names (p ∷ ps) h)
      (or_read-Grants (lower required) (p ∷ ps) (names (p ∷ ps)) refl),
  unfold granted split_commas in read_only (lower required),
)
