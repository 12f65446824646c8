-- ===== src/Sql/Regex/Loops.antt =====
-- Lists of places, and the two loops of the matcher against any number of rounds.
use mathlib.Core.List.{flat_map}
use salesdata_api.Base.{
  ℕ, zero, suc, ◌≤◌, ◌<◌, ◌≡◌, refl, ◌⊎◌, inl, inr, List, [], ◌∷◌, ◌++◌, Bool, true, false, lt→ltb,
  length, arith, sym, subst,
}
use salesdata_api.Sql.Regex.{Place, shorter, greedy, reluctant}

-- any number of rounds
pub data Star (R : Place → Place → Type 0) : Place → Place → Type 0 where
  done : {p r : Place} → p ≡ r → Star R p r
  more : {p r : Place} (q : Place) → R p q → Star R q r → Star R p r

abbrev pub In : Place → List Place → Type 0
In q [] = ⊥
In q (p ∷ ps) = (p ≡ q) ⊎ In q ps

pub In-append_left : (q : Place) (xs ys : List Place) → In q xs → In q (xs ++ ys)
In-append_left q (x ∷ xs) ys (inl e) = inl e
In-append_left q (x ∷ xs) ys (inr h) = inr (In-append_left q xs ys h)
In-append_left q [] ys h = absurd h

pub In-append_right : (q : Place) (xs ys : List Place) → In q ys → In q (xs ++ ys)
In-append_right q [] ys h = h
In-append_right q (x ∷ xs) ys h = inr (In-append_right q xs ys h)

pub In-append : (q : Place) (xs ys : List Place) → In q (xs ++ ys) → In q xs ⊎ In q ys
In-append q [] ys h = inr h
In-append q (x ∷ xs) ys (inl e) = inl (inl e)
In-append q (x ∷ xs) ys (inr h) = elim (In-append q xs ys h) [
  | inl left ↦ inl (inr left)
  | inr right ↦ inr right
]

module _ (f : Place → List Place) where
  pub In-flat_map : (q m : Place) (xs : List Place) → In m xs → In q (f m) → In q (flat_map f xs)
  unfolding flat_map
  In-flat_map q m [] h k = absurd h
  In-flat_map q m (x ∷ xs) (inl e) k =
      In-append_left q (f x) (flat_map f xs) (subst (λ (y : Place). In q (f y)) (sym e) k)
  In-flat_map q m (x ∷ xs) (inr h) k =
      In-append_right q (f x) (flat_map f xs) (In-flat_map q m xs h k)

  pub flat_map-In :
      (q : Place) (xs : List Place) → In q (flat_map f xs) → (m : Place) × In m xs × In q (f m)
  unfolding flat_map
  flat_map-In q [] h = absurd h
  flat_map-In q (x ∷ xs) h = elim (In-append q (f x) (flat_map f xs) h) [
    | inl here ↦ (x, inl refl, here)
    | inr below ↦ let (m, at, k) = flat_map-In q xs below in (m, inr at, k)
  ]

-- A place is reached from itself, or further on in the text.
abbrev pub Onward : Place → Place → Type 0
Onward p q = (p ≡ q) ⊎ (length q.rest < length p.rest)

pub Onward-trans : (p q r : Place) → Onward p q → Onward q r → Onward p r
Onward-trans p q r (inl e) h = subst (λ (x : Place). Onward x r) (sym e) h
Onward-trans p q r (inr lt) (inl e) =
    inr (subst (λ (x : Place). length x.rest < length p.rest) e lt)
Onward-trans p q r (inr lt) (inr lt') = inr (omega arith)

-- what stands behind a test
pub guarded :
    (b : Bool) (q : Place) (xs : List Place)
    → In q (elim b [ true ↦ xs | false ↦ [] ])
    → (b ≡ true) × In q xs
guarded true q xs h = (refl, h)
guarded false q xs h = absurd h

pub guard-In :
    (b : Bool) (q : Place) (xs : List Place)
    → b ≡ true
    → In q xs
    → In q (elim b [ true ↦ xs | false ↦ [] ])
guard-In true q xs e h = h
guard-In false q xs e h = absurd (cc)

module _ (f : Place → List Place) (R : Place → Place → Type 0) where
  module _ (sound : (p q : Place) → In q (f p) → R p q) where
    pub greedy_sound : (n : ℕ) (p q : Place) → In q (greedy n f p) → Star R p q
    unfolding greedy
    greedy_sound zero p q (inl e) = done e
    greedy_sound zero p q (inr h) = absurd h
    greedy_sound (suc n) p q h =
        elim (In-append q
          (flat_map (λ m. elim (shorter m p) [ true ↦ greedy n f m | false ↦ [] ]) (f p)) (p ∷ [])
          h) [
            | inl rounds ↦
                let (m, at, k) =
                  flat_map-In (λ m. elim (shorter m p) [ true ↦ greedy n f m | false ↦ [] ]) q (f p)
                    rounds in
                more m (sound p m at)
                  (greedy_sound n m q (guarded (shorter m p) q (greedy n f m) k).1)
            | inr stop ↦ elim stop [ inl e ↦ done e | inr none_left ↦ absurd none_left ]
          ]

    pub reluctant_sound : (n : ℕ) (p q : Place) → In q (reluctant n f p) → Star R p q
    unfolding reluctant
    reluctant_sound zero p q (inl e) = done e
    reluctant_sound zero p q (inr h) = absurd h
    reluctant_sound (suc n) p q (inl e) = done e
    reluctant_sound (suc n) p q (inr rounds) =
        let (m, at, k) =
          flat_map-In (λ m. elim (shorter m p) [ true ↦ reluctant n f m | false ↦ [] ]) q (f p)
            rounds in
        more m (sound p m at)
          (reluctant_sound n m q (guarded (shorter m p) q (reluctant n f m) k).1)

  module _ (complete : (p q : Place) → R p q → In q (f p))
      (onward : (p q : Place) → R p q → Onward p q) where
    round :
        (p q m : Place) (xs : List Place)
        → length m.rest < length p.rest
        → In q xs
        → In q (elim (shorter m p) [ true ↦ xs | false ↦ [] ])
    round p q m xs lt h = guard-In (shorter m p) q xs (lt→ltb (length m.rest) (length p.rest) lt) h

    greedy_more :
        (n : ℕ) (p q m : Place)
        → R p m
        → length m.rest < length p.rest
        → length p.rest ≤ n
        → ((k : ℕ) → length m.rest ≤ k → In q (greedy k f m))
        → In q (greedy n f p)
    unfolding greedy
    greedy_more zero p q m r lt le ih = absurd (omega arith)
    greedy_more (suc n) p q m r lt le ih =
        In-append_left q
          (flat_map (λ x. elim (shorter x p) [ true ↦ greedy n f x | false ↦ [] ]) (f p)) (p ∷ [])
          (In-flat_map (λ x. elim (shorter x p) [ true ↦ greedy n f x | false ↦ [] ]) q m (f p)
            (complete p m r) (round p q m (greedy n f m) lt (ih n (omega arith))))

    pub greedy_complete :
        {p q : Place} (n : ℕ) → Star R p q → length p.rest ≤ n → In q (greedy n f p)
    unfolding greedy
    greedy_complete {p} {q} zero (done e) le = inl e
    greedy_complete {p} {q} (suc n) (done e) le = In-append_right q _ (p ∷ []) (inl e)
    greedy_complete {p} {q} n (more m r s) le = elim (onward p m r) [
      | inl same ↦
          subst (λ (x : Place). In q (greedy n f x)) (sym same)
            (greedy_complete n s (subst (λ (x : Place). length x.rest ≤ n) same le))
      | inr lt ↦ unfold greedy in greedy_more n p q m r lt le (λ k le'. greedy_complete k s le')
    ]

    reluctant_more :
        (n : ℕ) (p q m : Place)
        → R p m
        → length m.rest < length p.rest
        → length p.rest ≤ n
        → ((k : ℕ) → length m.rest ≤ k → In q (reluctant k f m))
        → In q (reluctant n f p)
    unfolding reluctant
    reluctant_more zero p q m r lt le ih = absurd (omega arith)
    reluctant_more (suc n) p q m r lt le ih = inr (
        In-flat_map (λ x. elim (shorter x p) [ true ↦ reluctant n f x | false ↦ [] ]) q m (f p)
          (complete p m r) (round p q m (reluctant n f m) lt (ih n (omega arith))))

    pub reluctant_complete :
        {p q : Place} (n : ℕ) → Star R p q → length p.rest ≤ n → In q (reluctant n f p)
    unfolding reluctant
    reluctant_complete {p} {q} zero (done e) le = inl e
    reluctant_complete {p} {q} (suc n) (done e) le = inl e
    reluctant_complete {p} {q} n (more m r s) le = elim (onward p m r) [
      | inl same ↦
          subst (λ (x : Place). In q (reluctant n f x)) (sym same)
            (reluctant_complete n s (subst (λ (x : Place). length x.rest ≤ n) same le))
      | inr lt ↦
          unfold reluctant in reluctant_more n p q m r lt le (λ k le'. reluctant_complete k s le')
    ]
