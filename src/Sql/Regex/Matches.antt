-- ===== src/Sql/Regex/Matches.antt =====
-- A declarative reading of the patterns of core/db/sql_policy.py, and the matcher against it.
use salesdata_api.Base.{
  ℕ, ◌≡◌, ◌⊎◌, inl, inr, List, [], ◌∷◌, Option, some, Bool, true, length, arith, sym, ap,
}
use salesdata_api.Sql.Regex.{
  Regex, set, eps, seq, alt, star, lazy, bound, Place, at_bound, step, ends,
}
use salesdata_api.Sql.Regex.Loops.{
  Star, done, more, In, In-append_left, In-append_right, In-append, In-flat_map, flat_map-In,
  guarded, guard-In, Onward, Onward-trans, greedy_sound, reluctant_sound, greedy_complete,
  reluctant_complete,
}

abbrev pub Matches : Regex → Place → Place → Type 0
Matches (set f) p q = (c : ℕ) × (p.rest ≡ c ∷ q.rest) × (f c ≡ true) × (q.before ≡ some c)
Matches eps p q = p ≡ q
Matches (seq r s) p q = (m : Place) × Matches r p m × Matches s m q
Matches (alt r s) p q = Matches r p q ⊎ Matches s p q
Matches (star r) p q = Star (Matches r) p q
Matches (lazy r) p q = Star (Matches r) p q
Matches bound p q = (at_bound p ≡ true) × (p ≡ q)

Star-Onward :
    (R : Place → Place → Type 0)
    → ((p q : Place) → R p q → Onward p q)
    → {p q : Place} → Star R p q
    → Onward p q
Star-Onward R onward {p} {q} (done e) = inl e
Star-Onward R onward {p} {q} (more m r s) =
    Onward-trans p m q (onward p m r) (Star-Onward R onward s)

-- A match never goes back in the text, and consumes nothing only where it stays.
pub Matches-Onward : (r : Regex) (p q : Place) → Matches r p q → Onward p q
Matches-Onward (set f) p q (c, e, h, b) = inr (omega (arith, ap length e))
Matches-Onward eps p q e = inl e
Matches-Onward (seq r s) p q (m, h, k) =
    Onward-trans p m q (Matches-Onward r p m h) (Matches-Onward s m q k)
Matches-Onward (alt r s) p q (inl h) = Matches-Onward r p q h
Matches-Onward (alt r s) p q (inr h) = Matches-Onward s p q h
Matches-Onward (star r) p q h = Star-Onward (Matches r) (Matches-Onward r) h
Matches-Onward (lazy r) p q h = Star-Onward (Matches r) (Matches-Onward r) h
Matches-Onward bound p q (at, e) = inl e

step_sound :
    (f : ℕ → Bool) (b : Option ℕ) (s : List ℕ) (q : Place)
    → In q (step f (record { before = b; rest = s }))
    → Matches (set f) (record { before = b; rest = s }) q
unfolding step
step_sound f b [] q h = absurd h
step_sound f b (c ∷ s) q h =
    let (fits, at) = guarded (f c) q (record { before = some c; rest = s } ∷ []) h in
    elim at [
      | inl e ↦ (c, ap (λ (x : Place). c ∷ x.rest) e, fits, ap (λ (x : Place). x.before) (sym e))
      | inr none_left ↦ absurd none_left
    ]

step_complete :
    (f : ℕ → Bool) (b : Option ℕ) (s : List ℕ) (q : Place)
    → Matches (set f) (record { before = b; rest = s }) q
    → In q (step f (record { before = b; rest = s }))
unfolding step
step_complete f b [] q (c, e, fits, at) = absurd (cc)
step_complete f b (d ∷ s) q (c, e, fits, at) =
    guard-In (f d) q (record { before = some d; rest = s } ∷ []) (ground arith) (inl (ground arith))

bound_sound : (p q : Place) → In q (ends bound p) → Matches bound p q
unfolding ends
bound_sound p q h =
    let (at, here) = guarded (at_bound p) q (p ∷ []) h in
    elim here [ inl e ↦ (at, e) | inr none_left ↦ absurd none_left ]

-- Every end that the matcher lists is the end of a match.
pub ends_sound : (r : Regex) (p q : Place) → In q (ends r p) → Matches r p q
unfolding ends
ends_sound (set f) p q h = step_sound f p.before p.rest q h
ends_sound eps p q (inl e) = e
ends_sound eps p q (inr h) = absurd h
ends_sound (seq r s) p q h =
    let (m, at, k) = flat_map-In (ends s) q (ends r p) h in
    (m, ends_sound r p m at, ends_sound s m q k)
ends_sound (alt r s) p q h = elim (In-append q (ends r p) (ends s p) h) [
  | inl left ↦ inl (ends_sound r p q left)
  | inr right ↦ inr (ends_sound s p q right)
]
ends_sound (star r) p q h = greedy_sound (ends r) (Matches r) (ends_sound r) (length p.rest) p q h
ends_sound (lazy r) p q h =
    reluctant_sound (ends r) (Matches r) (ends_sound r) (length p.rest) p q h
ends_sound bound p q h = bound_sound p q h

-- The end of every match is listed.
pub ends_complete : (r : Regex) (p q : Place) → Matches r p q → In q (ends r p)
unfolding ends
ends_complete (set f) p q h = step_complete f p.before p.rest q h
ends_complete eps p q e = inl e
ends_complete (seq r s) p q (m, h, k) =
    In-flat_map (ends s) q m (ends r p) (ends_complete r p m h) (ends_complete s m q k)
ends_complete (alt r s) p q (inl h) = In-append_left q (ends r p) (ends s p) (ends_complete r p q h)
ends_complete (alt r s) p q (inr h) =
    In-append_right q (ends r p) (ends s p) (ends_complete s p q h)
ends_complete (star r) p q h =
    greedy_complete (ends r) (Matches r) (ends_complete r) (Matches-Onward r) (length p.rest) h
      (omega arith)
ends_complete (lazy r) p q h =
    reluctant_complete (ends r) (Matches r) (ends_complete r) (Matches-Onward r) (length p.rest) h
      (omega arith)
ends_complete bound p q (at, e) = guard-In (at_bound p) q (p ∷ []) at (inl e)
